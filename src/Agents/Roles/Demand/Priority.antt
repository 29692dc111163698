-- ===== src/Agents/Roles/Demand/Priority.antt =====
-- mas/agents/demand_agent.py: what `reason` reports, and with which priority.
use manufacturing_mas.Prelude.{
  ℕ, ◌+◌, ◌≤◌, ◌≡◌, refl, ◌⊎◌, inl, inr, Bool, true, false, none, some, List, [], ◌∷◌, ◌++◌, arith,
  length, length-append, if◌then◌else◌, ◌==◌, Bool-cases, List-cases,
}
use manufacturing_mas.Float.{Float}
use manufacturing_mas.Agents.Roles.Alerts.{Formats}
use manufacturing_mas.Agents.Roles.Alerts.Received.{severe, severe-append}
use manufacturing_mas.Agents.Roles.Demand.{
  AtRisk, DemandObs, DemandDecision, with_risk, risk_alert, rate_alert, capacity_alert, add_risks,
  changes, OrderView, add_changes, add_rate, add_capacity, settle, reason,
}

abbrev pub counted : Bool → ℕ
counted true = 1
counted false = 0

module _ {F : Type 0} where
  -- What the alerts of orders at risk leave as it is, and what they add.
  add_risks_lem :
      (t : Formats F) (rs : List AtRisk) (d : DemandDecision)
      → (severe "CRITICAL" (add_risks t rs d).alerts ≡ severe "CRITICAL" d.alerts)
        × (severe "HIGH" (add_risks t rs d).alerts ≡ severe "HIGH" d.alerts + length rs)
        × (severe "MEDIUM" (add_risks t rs d).alerts ≡ severe "MEDIUM" d.alerts)
        × (length (add_risks t rs d).alerts ≡ length d.alerts + length rs)
        × ((add_risks t rs d).schedule_changes ≡ d.schedule_changes)
        × ((add_risks t rs d).priority ≡ (if length rs == 0 then d.priority else "HIGH"))
  unfolding add_risks
  add_risks_lem t [] d = (refl, omega arith, refl, omega arith, refl, refl)
  add_risks_lem t (r ∷ rest) d =
      let (critical, high, medium, all, same, priority) = add_risks_lem t rest (with_risk t r d) in
      let c = severe-append "CRITICAL" d.alerts (risk_alert t r ∷ []) in
      let h = severe-append "HIGH" d.alerts (risk_alert t r ∷ []) in
      let m = severe-append "MEDIUM" d.alerts (risk_alert t r ∷ []) in
      let l = length-append d.alerts (risk_alert t r ∷ []) in
      (
        omega (arith, critical, c),
        omega (arith, high, h),
        omega (arith, medium, m),
        omega (arith, all, l),
        same,
        ground (arith, priority),
      )

settle_lem :
    (d : DemandDecision)
    → ((settle d ≡ some d) × (1 ≤ length d.alerts + length d.schedule_changes))
      ⊎ ((settle d ≡ none) × (length d.alerts ≡ 0) × (length d.schedule_changes ≡ 0))
settle_lem d = elim (List-cases d.schedule_changes) [
  | inr (x, rest, e) ↦ inl (rw e refl, rw e (omega arith))
  | inl e ↦ elim (List-cases d.alerts) [
    | inr (y, more, e') ↦ inl (ground (arith, e, e'), rw e' (omega arith))
    | inl e' ↦ inr (rw (e, e') refl, rw e' refl, rw e refl)
  ]
]

counted_lem : (b : Bool) → counted b ≡ 0 → b ≡ false
counted_lem true h = absurd (ground (arith, h))
counted_lem false h = refl

no_length {ℓ} : {A : Type ℓ} (xs : List A) → length xs ≡ 0 → xs ≡ []
no_length [] h = refl
no_length (x ∷ xs) h = absurd (ground (arith, h))

length-changes : (os : List OrderView) → length (changes os) ≡ length os
length-changes [] = refl
length-changes (o ∷ os) = omega (arith, length-changes os)

abbrev start : DemandDecision
start = record { schedule_changes = []; alerts = []; priority = "LOW" }

module _ {F : Type 0} ⦃f : Float F⦄ where
  abbrev pub is_late : DemandObs F → Bool
  is_late obs = f.lt obs.on_time_rate (f.lit 85 2)

  abbrev pub is_over : DemandObs F → Bool
  is_over obs = f.lt (f.lit 11 1) obs.capacity_utilization

  -- One alert of severity HIGH for each order at risk, one of CRITICAL for a low rate of delivery and
  -- one of MEDIUM for an excess of demand, which leaves the priority as it is; one change of the
  -- schedule for each urgent order.
  abbrev pub IsReport : DemandObs F → DemandDecision → Type 0
  IsReport obs d =
      (severe "CRITICAL" d.alerts ≡ counted (is_late obs))
      × (severe "HIGH" d.alerts ≡ length obs.at_risk_orders)
      × (severe "MEDIUM" d.alerts ≡ counted (is_over obs))
      × (length d.alerts
          ≡ length obs.at_risk_orders + counted (is_late obs) + counted (is_over obs))
      × (length d.schedule_changes ≡ length obs.urgent_orders)
      × (d.priority ≡ (
          if is_late obs
          then "CRITICAL"
          else if length obs.at_risk_orders == 0
          then "LOW"
          else "HIGH"))

  reported :
      (t : Formats F) (obs : DemandObs F)
      → let d = add_changes obs (add_risks t obs.at_risk_orders start) in
        IsReport obs (add_capacity t obs (add_rate t obs d))
  reported t obs =
      let (critical, high, medium, all, same, priority) =
        add_risks_lem t obs.at_risk_orders start in
      let alerts = (add_risks t obs.at_risk_orders start).alerts in
      let rate = rate_alert t obs.on_time_rate in
      let over = capacity_alert t obs.capacity_utilization in
      let c1 = severe-append "CRITICAL" alerts (rate ∷ []) in
      let c2 = severe-append "CRITICAL" alerts (over ∷ []) in
      let c3 = severe-append "CRITICAL" (alerts ++ rate ∷ []) (over ∷ []) in
      let h1 = severe-append "HIGH" alerts (rate ∷ []) in
      let h2 = severe-append "HIGH" alerts (over ∷ []) in
      let h3 = severe-append "HIGH" (alerts ++ rate ∷ []) (over ∷ []) in
      let m1 = severe-append "MEDIUM" alerts (rate ∷ []) in
      let m2 = severe-append "MEDIUM" alerts (over ∷ []) in
      let m3 = severe-append "MEDIUM" (alerts ++ rate ∷ []) (over ∷ []) in
      let scheduled : length
            ((add_risks t obs.at_risk_orders start).schedule_changes ++ changes obs.urgent_orders)
          ≡ length obs.urgent_orders =
        rw same (length-changes obs.urgent_orders) in
      let l1 = length-append alerts (rate ∷ []) in
      let l2 = length-append alerts (over ∷ []) in
      let l3 = length-append (alerts ++ rate ∷ []) (over ∷ []) in
      elim (Bool-cases (is_late obs)) [
        | inl h ↦ elim (Bool-cases (is_over obs)) [
          | inl k ↦
              rw (h, k)
                (
                  omega (arith, critical, c1, c3),
                  omega (arith, high, h1, h3),
                  omega (arith, medium, m1, m3),
                  omega (arith, all, l1, l3),
                  scheduled,
                  refl,
                )
          | inr k ↦
              rw (h, k)
                (
                  omega (arith, critical, c1),
                  omega (arith, high, h1),
                  omega (arith, medium, m1),
                  omega (arith, all, l1),
                  scheduled,
                  refl,
                )
        ]
        | inr h ↦ elim (Bool-cases (is_over obs)) [
          | inl k ↦
              rw (h, k)
                (
                  omega (arith, critical, c2),
                  omega (arith, high, h2),
                  omega (arith, medium, m2),
                  omega (arith, all, l2),
                  scheduled,
                  priority,
                )
          | inr k ↦
              rw (h, k)
                (
                  omega (arith, critical),
                  omega (arith, high),
                  omega (arith, medium),
                  omega (arith, all),
                  scheduled,
                  priority,
                )
        ]
      ]

  -- What reason reports: an alert of severity HIGH for each order at risk, one of CRITICAL if less than
  -- 85 percent of the demand has been delivered, one of MEDIUM if the demand is above 1.1 of the
  -- capacity, and a change of the schedule for each urgent order. It decides nothing exactly if there
  -- is none of these. The priority is CRITICAL for a low rate, or else HIGH for an order at risk, or
  -- else LOW, also with urgent orders.
  pub reason-IsReport :
      (t : Formats F) (obs : DemandObs F)
      → ((reason t obs ≡ none)
          × (obs.at_risk_orders ≡ [])
          × (is_late obs ≡ false)
          × (is_over obs ≡ false)
          × (obs.urgent_orders ≡ []))
        ⊎ ((d : DemandDecision) × (reason t obs ≡ some d)
            × (1 ≤ length d.alerts + length d.schedule_changes)
            × IsReport obs d)
  unfolding reason
  reason-IsReport t obs =
      let before = add_changes obs (add_risks t obs.at_risk_orders start) in
      let (critical, high, medium, all, scheduled, priority) = reported t obs in
      elim (settle_lem (add_capacity t obs (add_rate t obs before))) [
        | inl (e, some_part) ↦
            inr (_, e, some_part, (critical, high, medium, all, scheduled, priority))
        | inr (e, nothing, unchanged) ↦ inl (
          e,
          no_length obs.at_risk_orders (omega (arith, all, nothing)),
          counted_lem (is_late obs) (omega (arith, all, nothing)),
          counted_lem (is_over obs) (omega (arith, all, nothing)),
          no_length obs.urgent_orders (omega (arith, scheduled, unchanged)),
        )
      ]
