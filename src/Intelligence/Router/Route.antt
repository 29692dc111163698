-- ===== src/Intelligence/Router/Route.antt =====
-- mas/intelligence/decision_router.py: `route`, its counters and its log.
use manufacturing_mas.Prelude.{
  ℕ, ◌+◌, max, String, Option, none, some, str_eq, push_capped, if◌then◌else◌,
}
use manufacturing_mas.Prelude.Int.{pos}
use manufacturing_mas.Float.{Float}
use manufacturing_mas.Protocol.Actions.{ThinkResult}
use manufacturing_mas.Protocol.Value.{Fields, whole, real, end, field}
use manufacturing_mas.Intelligence.Router.{
  RouterMetrics, HybridDecisionRouter, Texts, Clock, Sensed, check_safety_rules,
  check_threshold_rules,
}
use manufacturing_mas.Intelligence.Router.Gate.{should_route_to_llm, route_to_llm}

abbrev pub Routed : Type 0 → Type 0
Routed F = Option (HybridDecisionRouter F × Option (ThinkResult F))

module _ {F : Type 0} ⦃f : Float F⦄ where
  unfoldable pub record_metrics : String → F → RouterMetrics F → RouterMetrics F
  record_metrics route latency_ms m = record m {
    rule_decisions = if str_eq route "rule" then m.rule_decisions + 1 else m.rule_decisions;
    llm_decisions =
        if str_eq route "rule"
        then m.llm_decisions
        else if str_eq route "llm"
        then m.llm_decisions + 1
        else m.llm_decisions;
    total_latency_ms = f.add m.total_latency_ms latency_ms;
  }

  unfoldable pub metrics_dict : RouterMetrics F → Fields F
  metrics_dict m =
      let total = m.rule_decisions + m.llm_decisions in
      let divisor = f.of_int (pos (max total 1)) in
      let pct : ℕ → F =
        λ n. f.round (f.mul (f.div (f.of_int (pos n)) divisor) (f.of_int (pos 100))) 1 in
      field "rule_decisions" (whole (pos m.rule_decisions)) (
        field "llm_decisions" (whole (pos m.llm_decisions)) (
          field "llm_fallbacks" (whole (pos m.llm_fallbacks)) (
            field "total_decisions" (whole (pos total)) (
              field "rule_pct" (real (pct m.rule_decisions)) (
                field "llm_pct" (real (pct m.llm_decisions)) (
                  field "avg_latency_ms" (real (f.round (f.div m.total_latency_ms divisor) 2))
                    end))))))

  unfoldable pub record_decision :
      Clock F → String → String → String → String → HybridDecisionRouter F → HybridDecisionRouter F
  unfolding record_metrics push_capped
  record_decision clock route aid rule_name reasoning r =
      let latency = f.mul (f.sub clock.finished clock.started) (f.of_int (pos 1000)) in
      record r {
        metrics = record_metrics route latency r.metrics;
        decision_log = push_capped 300 150 r.decision_log (record {
          timestamp = clock.now;
          agent_id = aid;
          route = route;
          rule_name = rule_name;
          reasoning = reasoning;
          latency_ms = f.round latency 2;
        });
      }

  abbrev fall_back : HybridDecisionRouter F → HybridDecisionRouter F
  fall_back r = record r {
    metrics = record (r.metrics) { llm_fallbacks = r.metrics.llm_fallbacks + 1 };
  }

  unfoldable pub strategic :
      Texts F → Clock F → HybridDecisionRouter F → String → Sensed F → Fields F → Routed F
  unfolding should_route_to_llm route_to_llm record_decision
  strategic t clock r aid sensed snap = elim (should_route_to_llm t r aid sensed) [
    | none ↦ none
    | some consult ↦
        if consult
        then elim (route_to_llm t r aid sensed snap) [
          | some d ↦
              some (record_decision clock "llm" aid "strategic_decision" d.reasoning r, some d)
          | none ↦ some (fall_back r, none)
        ]
        else some (r, none)
  ]

  -- The fallback leaves the decision to the agent, which is none inside.
  unfoldable pub route :
      Texts F → Clock F → HybridDecisionRouter F → String → Sensed F → Fields F → Routed F
  unfolding check_safety_rules check_threshold_rules record_decision strategic
  route t clock r aid sensed snap = elim (check_safety_rules t snap) [
    | none ↦ none
    | some (some d) ↦
        some (record_decision clock "rule" aid "safety_interlock" d.reasoning r, some d)
    | some none ↦ elim (check_threshold_rules t aid snap) [
      | none ↦ none
      | some (some d) ↦ some (record_decision clock "rule" aid "threshold" d.reasoning r, some d)
      | some none ↦ strategic t clock r aid sensed snap
    ]
  ]
