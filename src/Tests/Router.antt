-- ===== src/Tests/Router.antt =====
-- mas/intelligence/decision_router.py at concrete inputs.
use manufacturing_mas.Prelude.{
  ◌≡◌, refl, inl, String, Bool, str_eq, true, Option, none, some, List, [], ◌∷◌, arith,
}
use manufacturing_mas.Prelude.Int.{ℤ, pos, ◌≤ℤ◌}
use manufacturing_mas.Float.{Fixed, fixed_float}
use manufacturing_mas.Messaging.Message.{AgentMessage, alert, create}
use manufacturing_mas.Protocol.Actions.{ThinkResult}
use manufacturing_mas.Protocol.Value.{
  Value, Fields, whole, real, text, object, end, field, get, get_or, put,
}
use manufacturing_mas.Intelligence.Enrichment.{
  enrich_snapshot_for_router, readings, sensors_of, dict_or_empty,
}
use manufacturing_mas.Intelligence.Solver.{
  is_numeric_key, merge_numeric_and_rationale, cnp_numeric_strategy,
}
use manufacturing_mas.Intelligence.Solver.Numbers.{merge_numeric_and_rationale-cnp_numeric_strategy}
use manufacturing_mas.Intelligence.Router.{
  Analysis, Llm, HybridDecisionRouter, new_router, check_safety_rules, check_threshold_rules,
  number, Texts, Clock, Sensed, dict,
}
use manufacturing_mas.Intelligence.Router.Route.{record_decision, route, strategic}
use manufacturing_mas.Intelligence.Router.Accounting.{IsAccounted, route_lem}
use manufacturing_mas.Intelligence.Router.Interlock.{IsAlarm, route-IsAlarm}
use manufacturing_mas.Intelligence.Router.Unreached.{observed, route-observed}

abbrev no_float : String → Option Fixed
no_float _ = none

abbrev show_text : Value Fixed → String
show_text (text s) = s
show_text _ = "?"

abbrev texts : Texts Fixed
texts = record { str = show_text; upper = λ s. s; fixed = λ x n. "#" }

abbrev ticks : Clock Fixed
ticks = record { started = pos 0; finished = pos 10_000; now = pos 20_000 }

abbrev advice : Analysis Fixed
advice = record {
  body = field "severity" (text "HIGH") end;
  immediate_actions = text "slow down" ∷ [];
}

abbrev adviser : Llm Fixed
adviser = record { enabled = true; analyze_situation = λ _ _ _. some advice }

abbrev gated : HybridDecisionRouter Fixed
unfolding new_router
gated = new_router (some adviser) "all_gated" true

abbrev high : String → Fields Fixed
high kind = field "type" (text kind) (field "severity" (text "HIGH") end)

-- Two kinds of alerts: the model is asked.
abbrev two_kinds : Sensed Fixed
two_kinds = record { new_alerts = []; alerts = dict (high "defects") ∷ dict (high "delay") ∷ [] }

abbrev quiet : Fields Fixed
quiet = field "vibration" (real (pos 10_000)) (field "oil_temp" (real (pos 420_000)) end)

route_lem_example : IsAccounted gated (route texts ticks gated "PA" two_kinds quiet)
unfolding new_router
route_lem_example = route_lem texts ticks gated "PA" two_kinds quiet (omega arith)

-- There, the model's decision is the result.
asked :
    (r : HybridDecisionRouter Fixed) × (d : ThinkResult Fixed) × (route texts ticks gated "PA"
        two_kinds quiet
      ≡ some (r, some d))
    × (d.decision_source ≡ "llm")
    × (r.metrics.llm_decisions ≡ 1)
unfolding route new_router strategic check_safety_rules check_threshold_rules
asked = (_, _, refl, refl, refl)

abbrev shaking : Fields Fixed
shaking = field "vibration" (real (pos 60_000)) (field "oil_temp" (real (pos 420_000)) end)

route-IsAlarm_example :
    (d : ThinkResult Fixed) × IsAlarm d
    × ((r : HybridDecisionRouter Fixed) (aid : String) (sensed : Sensed Fixed)
        → route texts ticks r aid sensed shaking
          ≡ some (record_decision ticks "rule" aid "safety_interlock" d.reasoning r, some d))
unfolding number get_or
route-IsAlarm_example =
    route-IsAlarm texts ticks shaking (pos 60_000) (pos 420_000) refl refl (inl refl)

abbrev sent : String → AgentMessage (Fields Fixed)
unfolding create
sent kind = create "QA" "PA" alert (high kind) none "c1" "t1" "m1"

-- The alerts of two_kinds, as messages.
abbrev inbox : List (AgentMessage (Fields Fixed))
inbox = sent "defects" ∷ sent "delay" ∷ []

abbrev plant : Fields Fixed
plant =
    field "stations"
      (object (
        field "WC-01"
          (object (field "sensors" (object (field "vibration" (real (pos 10_000)) end)) end)) end))
      end

abbrev prepared : Fields Fixed
prepared =
    field "stations"
      (object (
        field "WC-01"
          (object (field "sensors" (object (field "vibration" (real (pos 10_000)) end)) end)) end))
      (field "vibration" (real (pos 10_000))
        (field "oil_temp" (real (pos 0)) (field "material_buffer_hours" (real (pos 990_000)) end)))

route-observed_example :
    (final : HybridDecisionRouter Fixed) × (result : Option (ThinkResult Fixed)) × (route texts
        ticks gated "PA"
        (observed inbox)
        prepared
      ≡ some (final, result))
    × (final.metrics.llm_decisions ≡ gated.metrics.llm_decisions)
    × (final.metrics.llm_fallbacks ≡ gated.metrics.llm_fallbacks)
unfolding enrich_snapshot_for_router readings sensors_of dict_or_empty put
route-observed_example =
    route-observed no_float texts ticks gated "PA" inbox plant prepared (inl refl) refl

abbrev contained : String → String → Bool
contained a s = str_eq a s

abbrev bid : Fields Fixed
bid =
    field "agent" (text "DA")
      (field "speed_recommendation" (whole (pos 110)) (field "total_score" (real (pos 7_000)) end))

abbrev solved : Fields Fixed
solved = field "target_speed_pct" (whole (pos 100)) (
    field "inspection_mode" (text "standard") (
      field "best_agent" (text "DA")
        (field "best_score" (real (pos 7_000)) (field "decision" (text "solver_first") end))))

-- The model asks for another speed.
abbrev answer : Fields Fixed
answer = field "target_speed_pct" (whole (pos 250)) (field "rationale" (text "faster") end)

merge_numeric_and_rationale-cnp_numeric_strategy_example :
    ((key : String)
      → is_numeric_key key ≡ true
      → get key (merge_numeric_and_rationale solved answer) ≡ get key solved)
    × ((n : ℤ) × (get "target_speed_pct" (merge_numeric_and_rationale solved answer) ≡ whole n)
        × (pos 40 ≤ℤ n)
        × (n ≤ℤ pos 100))
unfolding cnp_numeric_strategy
merge_numeric_and_rationale-cnp_numeric_strategy_example =
    merge_numeric_and_rationale-cnp_numeric_strategy no_float contained (λ s. s) bid [] solved
      answer refl
