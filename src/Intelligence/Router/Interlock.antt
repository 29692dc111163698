-- ===== src/Intelligence/Router/Interlock.antt =====
-- mas/intelligence/decision_router.py: the safety rules come before all others and before the model,
-- and nothing raises on a snapshot that snapshot_enrichment.py has prepared.
use manufacturing_mas.Prelude.{
  ◌≡◌, refl, ◌⊎◌, inl, inr, String, true, Option, some, [], ◌∷◌, arith, Option-cases, Bool, false,
  ◌∙◌, ap, subst, str_eq, Bool-cases,
}
use manufacturing_mas.Prelude.Int.{pos}
use manufacturing_mas.Float.{Float}
use manufacturing_mas.Protocol.Actions.{ThinkResult, log_action}
use manufacturing_mas.Protocol.Value.{Fields, whole, real, get_or, put}
use manufacturing_mas.Protocol.Value.Entries.{get_or-put_self, get_or-put_other}
use manufacturing_mas.Intelligence.Enrichment.{enrich_snapshot_for_router, readings, with_readings}
use manufacturing_mas.Intelligence.Router.{
  HybridDecisionRouter, Texts, Clock, Sensed, number, oil_rule, check_safety_rules, ea_rules,
  sa_rules, check_threshold_rules,
}
use manufacturing_mas.Intelligence.Router.Gate.{should_route_to_llm, route_to_llm}
use manufacturing_mas.Intelligence.Router.Route.{Routed, record_decision, strategic, route}

module _ {F : Type 0} where
  abbrev pub Returns : Routed F → Type 0
  Returns out = (final : HybridDecisionRouter F × Option (ThinkResult F)) × (out ≡ some final)

module _ {F : Type 0} ⦃f : Float F⦄ where
  abbrev pub vibration_of : Fields F → Option F
  vibration_of snap = number (get_or "vibration" (whole (pos 0)) snap)

  abbrev pub oil_of : Fields F → Option F
  oil_of snap = number (get_or "oil_temp" (whole (pos 0)) snap)

  -- One log line of level ALERT.
  abbrev pub IsAlarm : ThinkResult F → Type 0
  IsAlarm d =
      (d.decision_source ≡ "rule") × ((msg : String) × (d.actions ≡ log_action msg "ALERT" ∷ []))

  alarm :
      (t : Texts F) (snap : Fields F) (vib oil : F)
      → vibration_of snap ≡ some vib
      → oil_of snap ≡ some oil
      → (f.le (f.lit 55 1) vib ≡ true) ⊎ (f.le (f.lit 750 1) oil ≡ true)
      → (d : ThinkResult F) × (check_safety_rules t snap ≡ some (some d)) × IsAlarm d
  unfolding check_safety_rules oil_rule
  alarm t snap vib oil hv ho danger = elim (Bool-cases (f.le (f.lit 55 1) vib)) [
    | inl e ↦ rw (hv, e, check_safety_rules) (_, refl, (refl, (_, refl)))
    | inr e ↦
        let o : f.le (f.lit 750 1) oil ≡ true = ground (arith, e, danger) in
        rw (hv, e, ho, o, check_safety_rules, oil_rule) (_, refl, (refl, (_, refl)))
  ]

  -- A vibration of at least 5.5 or an oil temperature of at least 75 is answered by an alarm, a single
  -- log line of level ALERT, for every agent and whatever it has sensed, and whatever language model
  -- there is: the router never asks it.
  pub route-IsAlarm :
      (t : Texts F) (clock : Clock F) (snap : Fields F) (vib oil : F)
      → vibration_of snap ≡ some vib
      → oil_of snap ≡ some oil
      → (f.le (f.lit 55 1) vib ≡ true) ⊎ (f.le (f.lit 750 1) oil ≡ true)
      → (d : ThinkResult F) × IsAlarm d
        × ((r : HybridDecisionRouter F) (aid : String) (sensed : Sensed F)
            → route t clock r aid sensed snap
              ≡ some (record_decision clock "rule" aid "safety_interlock" d.reasoning r, some d))
  unfolding route
  route-IsAlarm t clock snap vib oil hv ho danger =
      let (d, found, is_alarm) = alarm t snap vib oil hv ho danger in
      (d, is_alarm, λ r aid sensed. rw (found, route) refl)

  abbrev hours_of : Fields F → Option F
  hours_of snap = number (get_or "material_buffer_hours" (whole (pos 99)) snap)

  -- The router finds numbers where it looks for them.
  abbrev IsReadable : Fields F → Type 0
  IsReadable snap =
      (v o h : F) × (vibration_of snap ≡ some v) × (oil_of snap ≡ some o) × (hours_of snap ≡ some h)

  with_readings-IsReadable : (s : Fields F) (v o h : F) → IsReadable (with_readings s (v, o, h))
  unfolding number
  with_readings-IsReadable s v o h =
      let default = whole (pos 0) in
      let s1 = put "vibration" (real v) s in
      let s2 = put "oil_temp" (real o) s1 in
      let vib =
        get_or-put_other "material_buffer_hours" "vibration" (real h) default s2 refl
        ∙ get_or-put_other "oil_temp" "vibration" (real o) default s1 refl
        ∙ get_or-put_self "vibration" (real v) default s in
      let oil =
        get_or-put_other "material_buffer_hours" "oil_temp" (real h) default s2 refl
        ∙ get_or-put_self "oil_temp" (real o) default s1 in
      let hours = get_or-put_self "material_buffer_hours" (real h) (whole (pos 99)) s2 in
      (v, o, h, ap number vib, ap number oil, ap number hours)

  enriched-IsReadable :
      (parse : String → Option F) (snapshot enriched : Fields F)
      → enrich_snapshot_for_router parse snapshot ≡ some enriched
      → IsReadable enriched
  unfolding enrich_snapshot_for_router
  enriched-IsReadable parse snapshot enriched e = elim (Option-cases (readings parse snapshot)) [
    | inl nothing ↦ absurd (ground (arith, e, nothing))
    | inr ((v, o, h), found) ↦
        let same : with_readings snapshot (v, o, h) ≡ enriched = ground (arith, e, found) in
        subst IsReadable same (with_readings-IsReadable snapshot v o h)
  ]

  check_safety_rules-IsReadable :
      (t : Texts F) (snap : Fields F)
      → IsReadable snap
      → (result : Option (ThinkResult F)) × (check_safety_rules t snap ≡ some result)
  unfolding check_safety_rules
  check_safety_rules-IsReadable t snap (v, o, h, hv, ho, hh) =
      rw (hv, ho, check_safety_rules)
        (elim (Bool-cases (f.le (f.lit 55 1) v)) [
          | inl e ↦ rw e (_, refl)
          | inr e ↦ rw e (_, refl)
        ])

  check_threshold_rules-IsReadable :
      (t : Texts F) (aid : String) (snap : Fields F)
      → IsReadable snap
      → (result : Option (ThinkResult F)) × (check_threshold_rules t aid snap ≡ some result)
  unfolding check_threshold_rules ea_rules sa_rules
  check_threshold_rules-IsReadable t aid snap (v, o, h, hv, ho, hh) =
      elim (Bool-cases (str_eq aid "EA")) [
        | inl e ↦ rw (e, check_threshold_rules, hv, ea_rules) (_, refl)
        | inr e ↦ elim (Bool-cases (str_eq aid "SA")) [
          | inl e' ↦ rw (e, e', check_threshold_rules, hh, sa_rules) (_, refl)
          | inr e' ↦ rw (e, e', check_threshold_rules) (_, refl)
        ]
      ]

  strategic-Returns :
      (t : Texts F) (clock : Clock F) (r : HybridDecisionRouter F) (aid : String)
      (sensed : Sensed F) (snap : Fields F) (consult : Bool)
      → should_route_to_llm t r aid sensed ≡ some consult
      → Returns (strategic t clock r aid sensed snap)
  unfolding strategic
  strategic-Returns t clock r aid sensed snap true e =
      elim (Option-cases (route_to_llm t r aid sensed snap)) [
        | inl failed ↦ rw (e, failed, strategic) (_, refl)
        | inr (d, found) ↦ rw (e, found, strategic) (_, refl)
      ]
  strategic-Returns t clock r aid sensed snap false e = rw (e, strategic) (_, refl)

  -- On a snapshot that the enrichment has prepared, whatever it held before, `route` raises nothing if
  -- the test on the agent's alerts raises nothing.
  pub route-enrich_snapshot_for_router :
      (parse : String → Option F) (t : Texts F) (clock : Clock F) (r : HybridDecisionRouter F)
      (aid : String) (sensed : Sensed F) (snapshot enriched : Fields F) (consult : Bool)
      → enrich_snapshot_for_router parse snapshot ≡ some enriched
      → should_route_to_llm t r aid sensed ≡ some consult
      → Returns (route t clock r aid sensed enriched)
  unfolding route
  route-enrich_snapshot_for_router parse t clock r aid sensed snapshot enriched consult e gate =
      let readable = enriched-IsReadable parse snapshot enriched e in
      let (first, safety) = check_safety_rules-IsReadable t enriched readable in
      let (second, threshold) = check_threshold_rules-IsReadable t aid enriched readable in
      elim (Option-cases first) [
        | inr (d, found) ↦ rw (safety, found, route) (_, refl)
        | inl nothing ↦ elim (Option-cases second) [
          | inr (d, found) ↦ rw (safety, nothing, threshold, found, route) (_, refl)
          | inl nothing' ↦
              rw (safety, nothing, threshold, nothing', route)
                (strategic-Returns t clock r aid sensed enriched consult gate)
        ]
      ]
