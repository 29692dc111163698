-- ===== src/Intelligence/Router/Unreached.antt =====
-- mas/intelligence/decision_router.py on what the planning agent senses: the alerts of
-- mas/agents/planning_sub/alert_collector.py have no entry `type`.
use manufacturing_mas.Prelude.{
  ◌≡◌, refl, ◌≤◌, ◌⊎◌, inl, inr, String, false, Option, some, List, [], ◌∷◌, arith, length, eq_iff,
}
use manufacturing_mas.Float.{Float}
use manufacturing_mas.Messaging.Message.{AgentMessage, value}
use manufacturing_mas.Protocol.Value.{Value, Fields, text, object, end, field, get_or}
use manufacturing_mas.Agents.Planning.Alerts.{Alert, collect_inbox_alerts}
use manufacturing_mas.Protocol.Actions.{ThinkResult}
use manufacturing_mas.Intelligence.Router.Route.{route, strategic, record_decision, record_metrics}
use manufacturing_mas.Intelligence.Router.{
  Clock, HybridDecisionRouter, Texts, SensedAlert, dict, Sensed,
}
use manufacturing_mas.Intelligence.Enrichment.{enrich_snapshot_for_router}
use manufacturing_mas.Intelligence.Router.Interlock.{route-enrich_snapshot_for_router}
use manufacturing_mas.Intelligence.Router.Gate.{
  alerts_of, entry, in_set, same_key, add_type, alert_types, should_use_llm_pa,
  should_use_llm_non_pa, should_route_to_llm,
}

module _ {F : Type 0} where
  -- The dictionary that stands for the alert.
  unfoldable pub alert_dict : Alert F → Fields F
  unfolding value
  alert_dict a = field "sender" (text a.sender) (
      field "intent" (text (value a.intent)) (
        field "severity" a.severity (field "summary" a.summary (field "body" (object a.body) end))))

  abbrev sensed_alerts : List (Alert F) → List (SensedAlert F)
  sensed_alerts [] = []
  sensed_alerts (a ∷ rest) = dict (alert_dict a) ∷ sensed_alerts rest

  -- What an agent with this inbox has sensed: the entry `new_alerts` copies `alerts`. Only the planning
  -- agent senses alerts.
  abbrev pub observed : List (AgentMessage (Fields F)) → Sensed F
  observed msgs =
      let alerts = sensed_alerts (collect_inbox_alerts msgs) in
      record { new_alerts = alerts; alerts = alerts }

  alerts_of_lem :
      (alerts : List (SensedAlert F))
      → alerts_of (record { new_alerts = alerts; alerts = alerts }) ≡ alerts
  unfolding alerts_of
  alerts_of_lem [] = refl
  alerts_of_lem (a ∷ rest) = refl

module _ {F : Type 0} ⦃f : Float F⦄ where
  alert_types_more :
      (alerts : List (Alert F))
      → alert_types (sensed_alerts alerts) (text "" ∷ []) ≡ some (text "" ∷ [])
  unfolding alert_types add_type entry get_or alert_dict in_set same_key
  alert_types_more [] = refl
  alert_types_more (a ∷ rest) = alert_types_more rest

  -- At most one type.
  few_types :
      (alerts : List (Alert F))
      → (types : List (Value F)) × (alert_types (sensed_alerts alerts) [] ≡ some types)
        × (length types ≤ 1)
  unfolding alert_types add_type entry get_or alert_dict in_set
  few_types [] = ([], refl, omega arith)
  few_types (a ∷ rest) = (_, alert_types_more rest, omega arith)

  should_use_llm_pa_lem :
      (msgs : List (AgentMessage (Fields F))) → should_use_llm_pa (observed msgs) ≡ some false
  unfolding should_use_llm_pa
  should_use_llm_pa_lem msgs =
      let (types, found, few) = few_types (collect_inbox_alerts msgs) in
      ground (arith, alerts_of_lem (sensed_alerts (collect_inbox_alerts msgs)), found, few)

  unasked :
      (t : Texts F) (r : HybridDecisionRouter F) (aid : String)
      (msgs : List (AgentMessage (Fields F)))
      → (aid ≡ "PA") ⊎ (collect_inbox_alerts msgs ≡ [])
      → should_route_to_llm t r aid (observed msgs) ≡ some false
  unfolding should_route_to_llm should_use_llm_non_pa
  unasked t r aid msgs (inl planner) =
      ground (arith, should_use_llm_pa_lem msgs, planner, eq_iff aid "PA")
  unasked t r aid msgs (inr nothing) =
      let silent = alerts_of_lem (sensed_alerts (collect_inbox_alerts msgs)) in
      ground (arith, should_use_llm_pa_lem msgs, nothing, silent)

  unconsulted :
      (t : Texts F) (clock : Clock F) (r : HybridDecisionRouter F) (aid : String)
      (sensed : Sensed F) (snap : Fields F) (final : HybridDecisionRouter F)
      (result : Option (ThinkResult F))
      → should_route_to_llm t r aid sensed ≡ some false
      → route t clock r aid sensed snap ≡ some (final, result)
      → (final.metrics.llm_decisions ≡ r.metrics.llm_decisions)
        × (final.metrics.llm_fallbacks ≡ r.metrics.llm_fallbacks)
  unfolding route strategic record_decision record_metrics
  unconsulted t clock r aid sensed snap final result gate e = ground (arith)

  -- For the planning agent with any inbox, and for any agent that has no alerts, `route` returns on
  -- every snapshot that the enrichment has prepared, and it never asks the language model, whichever
  -- there is and however the router is set up: no decision of a model and no fallback is counted.
  pub route-observed :
      (parse : String → Option F) (t : Texts F) (clock : Clock F) (r : HybridDecisionRouter F)
      (aid : String) (msgs : List (AgentMessage (Fields F))) (snapshot enriched : Fields F)
      → (aid ≡ "PA") ⊎ (collect_inbox_alerts msgs ≡ [])
      → enrich_snapshot_for_router parse snapshot ≡ some enriched
      → (final : HybridDecisionRouter F) × (result : Option (ThinkResult F)) × (route t clock r aid
            (observed msgs)
            enriched
          ≡ some (final, result))
        × (final.metrics.llm_decisions ≡ r.metrics.llm_decisions)
        × (final.metrics.llm_fallbacks ≡ r.metrics.llm_fallbacks)
  route-observed parse t clock r aid msgs snapshot enriched who e =
      let gate = unasked t r aid msgs who in
      let ((final, result), returned) =
        route-enrich_snapshot_for_router parse t clock r aid (observed msgs) snapshot enriched false
          e gate in
      let (decisions, fallbacks) =
        unconsulted t clock r aid (observed msgs) enriched final result gate returned in
      (final, result, returned, decisions, fallbacks)
