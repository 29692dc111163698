-- ===== src/Intelligence/Router/Accounting.antt =====
-- mas/intelligence/decision_router.py: what the counters and the log say of a call of `route`.
use manufacturing_mas.Prelude.{
  ◌≡◌, refl, ◌+◌, ◌≤◌, ◌⊎◌, inl, inr, String, true, none, some, arith, length, length-push_capped,
  Option-cases, Bool-cases,
}
use manufacturing_mas.Float.{Float}
use manufacturing_mas.Protocol.Actions.{ThinkResult}
use manufacturing_mas.Protocol.Value.{Fields}
use manufacturing_mas.Intelligence.Router.{
  RuleResult, HybridDecisionRouter, Texts, Clock, Sensed, oil_rule, check_safety_rules, ea_rules,
  sa_rules, check_threshold_rules,
}
use manufacturing_mas.Intelligence.Router.Gate.{is_enabled, should_route_to_llm, route_to_llm}
use manufacturing_mas.Intelligence.Router.Route.{
  Routed, record_metrics, record_decision, strategic, route,
}

module _ {F : Type 0} where
  abbrev pub IsBounded : HybridDecisionRouter F → Type 0
  IsBounded r = length r.decision_log ≤ 300

  -- One decision more by a rule, or one more by the language model.
  abbrev pub IsCounted : HybridDecisionRouter F → HybridDecisionRouter F → ThinkResult F → Type 0
  IsCounted r r' d =
      (r'.metrics.llm_fallbacks ≡ r.metrics.llm_fallbacks)
      × (((d.decision_source ≡ "rule")
            × (r'.metrics.rule_decisions ≡ r.metrics.rule_decisions + 1)
            × (r'.metrics.llm_decisions ≡ r.metrics.llm_decisions))
          ⊎ ((d.decision_source ≡ "llm")
              × (is_enabled r.llm ≡ true)
              × (r'.metrics.rule_decisions ≡ r.metrics.rule_decisions)
              × (r'.metrics.llm_decisions ≡ r.metrics.llm_decisions + 1)))

  -- No decision: the log and the counters of decisions stay, and a fallback is counted at most once,
  -- only when there is a model.
  abbrev pub IsIdle : HybridDecisionRouter F → HybridDecisionRouter F → Type 0
  IsIdle r r' =
      (r'.decision_log ≡ r.decision_log)
      × (r'.metrics.rule_decisions ≡ r.metrics.rule_decisions)
      × (r'.metrics.llm_decisions ≡ r.metrics.llm_decisions)
      × ((r'.metrics.llm_fallbacks ≡ r.metrics.llm_fallbacks)
          ⊎ ((is_enabled r.llm ≡ true) × (r'.metrics.llm_fallbacks ≡ r.metrics.llm_fallbacks + 1)))

  abbrev pub IsAccounted : HybridDecisionRouter F → Routed F → Type 0
  IsAccounted r none = Unit
  IsAccounted r (some (r', some d)) = IsBounded r' × IsCounted r r' d
  IsAccounted r (some (r', none)) = IsBounded r' × IsIdle r r'

  abbrev IsRule : RuleResult F → Type 0
  IsRule o = (d : ThinkResult F) → o ≡ some (some d) → d.decision_source ≡ "rule"

module _ {F : Type 0} ⦃f : Float F⦄ where
  check_safety_rules-IsRule : (t : Texts F) (snap : Fields F) → IsRule (check_safety_rules t snap)
  unfolding check_safety_rules oil_rule
  check_safety_rules-IsRule t snap d e = ground arith

  check_threshold_rules-IsRule :
      (t : Texts F) (aid : String) (snap : Fields F) → IsRule (check_threshold_rules t aid snap)
  unfolding check_threshold_rules ea_rules sa_rules
  check_threshold_rules-IsRule t aid snap d e = ground arith

  record_decision-IsBounded :
      (clock : Clock F) (way aid name reasoning : String) (r : HybridDecisionRouter F)
      → IsBounded (record_decision clock way aid name reasoning r)
  unfolding record_decision
  record_decision-IsBounded clock way aid name reasoning r =
      length-push_capped 300 150 r.decision_log _ (omega arith)

  recorded : Clock F → String → String → String → HybridDecisionRouter F → ThinkResult F → Routed F
  recorded clock way aid name r d = some (record_decision clock way aid name d.reasoning r, some d)

  rule-IsAccounted :
      (clock : Clock F) (aid name : String) (r : HybridDecisionRouter F) (d : ThinkResult F)
      → d.decision_source ≡ "rule"
      → IsAccounted r (recorded clock "rule" aid name r d)
  unfolding record_decision record_metrics recorded
  rule-IsAccounted clock aid name r d source = (
    record_decision-IsBounded clock "rule" aid name d.reasoning r,
    (refl, inl (source, refl, refl)),
  )

  llm-IsAccounted :
      (clock : Clock F) (aid name : String) (r : HybridDecisionRouter F) (d : ThinkResult F)
      → d.decision_source ≡ "llm"
      → is_enabled r.llm ≡ true
      → IsAccounted r (recorded clock "llm" aid name r d)
  unfolding record_decision record_metrics recorded
  llm-IsAccounted clock aid name r d source enabled = (
    record_decision-IsBounded clock "llm" aid name d.reasoning r,
    (refl, inr (source, enabled, refl, refl)),
  )

  should_route_to_llm_lem :
      (t : Texts F) (r : HybridDecisionRouter F) (aid : String) (sensed : Sensed F)
      → should_route_to_llm t r aid sensed ≡ some true
      → is_enabled r.llm ≡ true
  unfolding should_route_to_llm
  should_route_to_llm_lem t r aid sensed e = ground arith

  route_to_llm_lem :
      (t : Texts F) (r : HybridDecisionRouter F) (aid : String) (sensed : Sensed F)
      (snap : Fields F) (d : ThinkResult F)
      → route_to_llm t r aid sensed snap ≡ some d
      → d.decision_source ≡ "llm"
  unfolding route_to_llm
  route_to_llm_lem t r aid sensed snap d e = ground arith

  strategic-IsAccounted :
      (t : Texts F) (clock : Clock F) (r : HybridDecisionRouter F) (aid : String)
      (sensed : Sensed F) (snap : Fields F)
      → IsBounded r
      → IsAccounted r (strategic t clock r aid sensed snap)
  unfolding recorded strategic
  strategic-IsAccounted t clock r aid sensed snap h =
      elim (Option-cases (should_route_to_llm t r aid sensed)) [
        | inl raised ↦ rw (raised, strategic) tt
        | inr (consult, answer) ↦ elim (Bool-cases consult) [
          | inr apart ↦ rw (answer, apart, strategic) (h, (refl, refl, refl, inl refl))
          | inl asked ↦
              let enabled = should_route_to_llm_lem t r aid sensed (cc) in
              elim (Option-cases (route_to_llm t r aid sensed snap)) [
                | inl failed ↦
                    rw (answer, asked, failed, strategic)
                      (h, (refl, refl, refl, inr (enabled, refl)))
                | inr (d, e) ↦
                    rw (answer, asked, e, strategic)
                      (llm-IsAccounted clock aid "strategic_decision" r d
                        (route_to_llm_lem t r aid sensed snap d e) enabled)
              ]
        ]
      ]

  -- A call of `route` that returns either gives a decision, which is counted once, as one of a rule
  -- or as one of the language model, the latter only if there is an enabled model; or it gives none,
  -- and then the log and the counts of decisions stay, and a fallback is counted at most once. A log
  -- of at most 300 entries stays one.
  pub route_lem :
      (t : Texts F) (clock : Clock F) (r : HybridDecisionRouter F) (aid : String)
      (sensed : Sensed F) (snap : Fields F)
      → IsBounded r
      → IsAccounted r (route t clock r aid sensed snap)
  unfolding recorded route
  route_lem t clock r aid sensed snap h = elim (Option-cases (check_safety_rules t snap)) [
    | inl raised ↦ rw (raised, route) tt
    | inr (some d, e) ↦
        rw (e, route)
          (rule-IsAccounted clock aid "safety_interlock" r d (check_safety_rules-IsRule t snap d e))
    | inr (none, safe) ↦ elim (Option-cases (check_threshold_rules t aid snap)) [
      | inl raised ↦ rw (safe, raised, route) tt
      | inr (some d, e) ↦
          rw (safe, e, route)
            (rule-IsAccounted clock aid "threshold" r d
              (check_threshold_rules-IsRule t aid snap d e))
      | inr (none, e) ↦ rw (safe, e, route) (strategic-IsAccounted t clock r aid sensed snap h)
    ]
  ]
