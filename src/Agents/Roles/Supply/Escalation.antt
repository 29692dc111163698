-- ===== src/Agents/Roles/Supply/Escalation.antt =====
-- mas/agents/supply_agent.py with mas/agents/planning_agent.py: from a shortage to a negotiation.
use manufacturing_mas.Prelude.{
  ℕ, ◌+◌, ◌≤◌, ◌<◌, ◌≡◌, refl, sym, ap, subst, inl, inr, String, true, Option, some, List, [], ◌∷◌,
  ◌++◌, arith, length, str_eq, Option-cases,
}
use manufacturing_mas.Prelude.Int.{pos}
use manufacturing_mas.Prelude.Dict.{Dict, AllValues}
use manufacturing_mas.Float.{Float}
use manufacturing_mas.Protocol.Value.{list}
use manufacturing_mas.Domain.Plant.Snapshot.{MaterialView, Snapshot}
use manufacturing_mas.Agents.Planning.Alerts.{
  Alert, collect_inbox_alerts, count_severity, should_cnp,
}
use manufacturing_mas.Agents.Roles.Base.{Stamps}
use manufacturing_mas.Agents.Roles.Alerts.{RoleAlert, Formats}
use manufacturing_mas.Agents.Roles.Alerts.Received.{
  severe, severe-append, count_severity-send_alerts,
}
use manufacturing_mas.Agents.Roles.Supply.Total.{HasSupply, sense-Returns, reason-Returns}
use manufacturing_mas.Agents.Roles.Supply.{
  SupplyAgent, SupplyObs, SupplyDecision, Shortage, StockStatus, short, add_status, classify,
  sense_materials, sense, track, enough, reorder, caution, shortage_alert, shortage_of,
  with_shortage, with_reorder, add_shortages, add_reorders, reason, act, reorder_items,
}

module _ {F : Type 0} ⦃f : Float F⦄ where
  abbrev pub IsShort : MaterialView F → Type 0
  IsShort m =
      f.le (f.of_int (pos m.stock)) (f.mul (f.of_int (pos m.safety_stock)) (f.lit 5 1)) ≡ true

  classify-IsShort : (m : MaterialView F) → IsShort m → classify m ≡ some short
  unfolding classify
  classify-IsShort m h = rw h refl

  add_status_grows :
      (name : String) (status : StockStatus) (entry : Shortage F) (obs : SupplyObs F)
      → length obs.shortages ≤ length (add_status name status entry obs).shortages
  unfolding add_status
  add_status_grows name short entry obs = omega arith
  add_status_grows name enough entry obs = omega arith
  add_status_grows name reorder entry obs = omega arith
  add_status_grows name caution entry obs = omega arith

  -- What the loop returns comes from what it returns for the other materials.
  sense_materials_step :
      (history final : Dict (List ℕ)) (name : String) (m : MaterialView F)
      (rest : Dict (MaterialView F)) (obs : SupplyObs F)
      → sense_materials history ((name, m) ∷ rest) ≡ some (final, obs)
      → (others : SupplyObs F) × (sense_materials (track name m.stock history) rest
          ≡ some (final, others))
        × (length others.shortages ≤ length obs.shortages)
  unfolding sense_materials
  sense_materials_step history final name m rest obs e = elim (Option-cases (classify m)) [
    | inl raised ↦ absurd (ground (arith, raised, e))
    | inr (status, found) ↦
        elim (Option-cases (sense_materials (track name m.stock history) rest)) [
          | inl raised ↦ absurd (ground (arith, found, raised, e))
          | inr ((last, others), later) ↦
              let entry = shortage_of (track name m.stock history) name m in
              let grows = add_status_grows name status entry others in
              let same : add_status name status entry others ≡ obs =
                ground (arith, found, later, e) in
              let same_history : last ≡ final = ground (arith, found, later, e) in
              (others, cc, subst (λ o. length others.shortages ≤ length o.shortages) same grows)
        ]
  ]

  sense_materials-IsShort :
      (history final : Dict (List ℕ)) (before after : Dict (MaterialView F)) (name : String)
      (m : MaterialView F) (obs : SupplyObs F)
      → IsShort m
      → sense_materials history (before ++ (name, m) ∷ after) ≡ some (final, obs)
      → 1 ≤ length obs.shortages
  unfolding sense_materials add_status
  sense_materials-IsShort history final [] after name m obs h e =
      ground (arith, classify-IsShort m h, e)
  sense_materials-IsShort history final ((n, x) ∷ before) after name m obs h e =
      let (others, later, grows) =
        sense_materials_step history final n x (before ++ (name, m) ∷ after) obs e in
      let found =
        sense_materials-IsShort (track n x.stock history) final before after name m others h
          later in
      omega (arith, found, grows)

module _ {F : Type 0} where
  -- The decision for a shortage: one critical alert for each.
  abbrev pub IsEmergency : SupplyObs F → Option SupplyDecision → Type 0
  IsEmergency obs r =
      (d : SupplyDecision) × (r ≡ some d)
      × (str_eq d.priority "CRITICAL" ≡ true)
      × (severe "CRITICAL" d.alerts ≡ length obs.shortages)

module _ {F : Type 0} (t : Formats F) where
  add_shortages_lem :
      (ss : List (Shortage F)) (d : SupplyDecision)
      → severe "CRITICAL" (add_shortages t ss d).alerts ≡ severe "CRITICAL" d.alerts + length ss
  unfolding add_shortages
  add_shortages_lem [] d = omega arith
  add_shortages_lem (s ∷ rest) d =
      let later = add_shortages_lem rest (with_shortage t s d) in
      let alert = severe-append "CRITICAL" d.alerts (shortage_alert t s ∷ []) in
      omega (arith, later, alert)

  add_shortages_priority :
      (ss : List (Shortage F)) (d : SupplyDecision)
      → str_eq d.priority "CRITICAL" ≡ true
      → str_eq (add_shortages t ss d).priority "CRITICAL" ≡ true
  unfolding add_shortages
  add_shortages_priority [] d h = h
  add_shortages_priority (s ∷ rest) d h = add_shortages_priority rest _ refl

  add_reorders_lem :
      (rs : List (Shortage F)) (d d' : SupplyDecision)
      → add_reorders t rs d ≡ some d'
      → (d'.alerts ≡ d.alerts)
        × (str_eq d.priority "CRITICAL" ≡ true → str_eq d'.priority "CRITICAL" ≡ true)
  unfolding add_reorders
  add_reorders_lem [] d d' e =
      let same : d ≡ d' = ground (arith, e) in
      (ap (λ x. x.alerts) (sym same), λ h. subst (λ x. str_eq x.priority "CRITICAL" ≡ true) same h)
  add_reorders_lem (s ∷ rest) d d' e = elim (Option-cases s.days_supply) [
    | inl raised ↦ absurd (ground (arith, raised, e))
    | inr (dos, found) ↦
        let next : add_reorders t rest (with_reorder t s dos d) ≡ some d' =
          ground (arith, found, e) in
        let (alerts, critical) = add_reorders_lem rest (with_reorder t s dos d) d' next in
        (alerts, λ h. critical (ground (arith, h)))
  ]

  shortages_critical :
      (ss : List (Shortage F)) (d : SupplyDecision)
      → 1 ≤ length ss
      → str_eq (add_shortages t ss d).priority "CRITICAL" ≡ true
  unfolding add_shortages
  shortages_critical [] d h = absurd (ground (arith, h))
  shortages_critical (s ∷ rest) d h = add_shortages_priority rest (with_shortage t s d) refl

  not_nothing : (alerts : List RoleAlert) → 1 ≤ severe "CRITICAL" alerts → 1 ≤ length alerts
  not_nothing [] h = h
  not_nothing (a ∷ rest) h = omega arith

  reason-IsEmergency :
      (obs : SupplyObs F) (r : Option SupplyDecision)
      → 1 ≤ length obs.shortages
      → reason t obs ≡ some r
      → IsEmergency obs r
  unfolding reason
  reason-IsEmergency obs r h e =
      let start : SupplyDecision = record { reorders = []; alerts = []; priority = "LOW" } in
      let first = add_shortages t obs.shortages start in
      elim (Option-cases (add_reorders t obs.reorder_needed first)) [
        | inl raised ↦ absurd (ground (arith, raised, e))
        | inr (d, found) ↦
            let (alerts, critical) = add_reorders_lem obs.reorder_needed first d found in
            let raised = add_shortages_lem obs.shortages start in
            let count : severe "CRITICAL" d.alerts ≡ length obs.shortages =
              rw alerts (omega (arith, raised)) in
            let some_alert = not_nothing d.alerts (omega (arith, count, h)) in
            let same : r ≡ some d = ground (arith, found, e, some_alert) in
            (d, same, critical (shortages_critical obs.shortages start h), count)
      ]

module _ {F : Type 0} ⦃f : Float F⦄ where
  sense-IsShort :
      (a a' : SupplyAgent F) (snapshot : Snapshot F) (before after : Dict (MaterialView F))
      (name : String) (m : MaterialView F) (obs : SupplyObs F)
      → snapshot.materials ≡ before ++ (name, m) ∷ after
      → IsShort m
      → sense a snapshot ≡ some (a', obs)
      → 1 ≤ length obs.shortages
  unfolding sense
  sense-IsShort a a' snapshot before after name m obs there h seen =
      elim (Option-cases (sense_materials a.consumption_history snapshot.materials)) [
        | inl raised ↦ absurd (ground (arith, raised, seen))
        | inr ((final, found), e) ↦
            let same : found ≡ obs = ground (arith, e, seen) in
            let e' : sense_materials a.consumption_history (before ++ (name, m) ∷ after)
                ≡ some (final, obs) =
              cc in
            sense_materials-IsShort a.consumption_history final before after name m obs h e'
      ]

  should_cnp-critical :
      (last cycle : ℕ) (avg_oee : F) (alerts : List (Alert F))
      → 1 ≤ count_severity "CRITICAL" alerts
      → last + 10 < cycle
      → should_cnp last cycle avg_oee alerts ≡ true
  unfolding should_cnp
  should_cnp-critical last cycle avg_oee alerts h pause = ground (arith)

  act-received :
      (stamps : ℕ → Stamps) (a : SupplyAgent F) (d : SupplyDecision)
      → count_severity "CRITICAL" (collect_inbox_alerts (act stamps a (some d)).1)
        ≡ severe "CRITICAL" d.alerts
  unfolding act
  act-received stamps a d =
      count_severity-send_alerts "CRITICAL" "경보: " stamps 0 "reorder_list"
        (list (reorder_items d.reorders)) a.base d.alerts

  -- If the stock of a material is at most half of its safety stock, and the days of supply of all
  -- materials are known, then sense and reason of the supply agent return a decision for an
  -- emergency, with one critical alert for each shortage, of which there is one at least; and the
  -- planning agent that collects what act has sent counts as many critical alerts and opens a
  -- negotiation, provided that more than ten cycles have passed since the last one.
  pub act-reason_lem :
      (t : Formats F) (stamps : ℕ → Stamps) (a : SupplyAgent F) (snapshot : Snapshot F)
      (before after : Dict (MaterialView F)) (name : String) (m : MaterialView F) (last cycle : ℕ)
      (avg_oee : F)
      → snapshot.materials ≡ before ++ (name, m) ∷ after
      → AllValues HasSupply snapshot.materials
      → IsShort m
      → last + 10 < cycle
      → (a' : SupplyAgent F) × (obs : SupplyObs F) × (r : Option SupplyDecision) × (sense a snapshot
          ≡ some (a', obs))
        × (reason t obs ≡ some r)
        × (1 ≤ length obs.shortages)
        × IsEmergency obs r
        × (count_severity "CRITICAL" (collect_inbox_alerts (act stamps a' r).1)
            ≡ length obs.shortages)
        × (should_cnp last cycle avg_oee (collect_inbox_alerts (act stamps a' r).1) ≡ true)
  act-reason_lem t stamps a snapshot before after name m last cycle avg_oee there known h pause =
      let (a', obs, seen, all) = sense-Returns a snapshot known in
      let (r, decided) = reason-Returns t obs all in
      let lacking = sense-IsShort a a' snapshot before after name m obs there h seen in
      let (d, same, critical, count) = reason-IsEmergency t obs r lacking decided in
      let received = act-received stamps a' d in
      let found : count_severity "CRITICAL" (collect_inbox_alerts (act stamps a' r).1)
          ≡ length obs.shortages =
        rw (same, received) count in
      (
        a',
        obs,
        r,
        seen,
        decided,
        lacking,
        (d, same, critical, count),
        found,
        should_cnp-critical last cycle avg_oee _ (omega (arith, found, lacking)) pause,
      )
