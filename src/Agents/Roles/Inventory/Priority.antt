-- ===== src/Agents/Roles/Inventory/Priority.antt =====
-- mas/agents/inventory_agent.py: what `reason` reports, and with which priority.
use manufacturing_mas.Prelude.{
  ℕ, ◌+◌, ◌≡◌, refl, ◌⊎◌, inl, inr, String, Bool, true, false, Option, none, some, List, [], ◌∷◌,
  arith, length, length-append, if◌then◌else◌, ◌==◌, Bool-cases, List-cases,
}
use manufacturing_mas.Float.{Float}
use manufacturing_mas.Agents.Roles.Alerts.{Formats}
use manufacturing_mas.Agents.Roles.Alerts.Received.{severe, severe-append}
use manufacturing_mas.Agents.Roles.Inventory.{
  WipAlert, InventoryObs, InventoryDecision, settle, with_overload, with_medium, add_overloads,
  add_bottleneck, overload_alert, overload_action, medium_alert, weak_message, scrap_message,
  max_str, weak_station, reason,
}

module _ {F : Type 0} where
  abbrev pub overloads : List (WipAlert F) → ℕ
  overloads [] = 0
  overloads (w ∷ rest) = let others = overloads rest in if w.is_overload then others + 1 else others

  add_overloads_lem :
      (t : Formats F) (ws : List (WipAlert F)) (d : InventoryDecision)
      → (severe "HIGH" (add_overloads t ws d).alerts ≡ severe "HIGH" d.alerts + overloads ws)
        × (severe "MEDIUM" (add_overloads t ws d).alerts ≡ severe "MEDIUM" d.alerts)
        × (length (add_overloads t ws d).alerts ≡ length d.alerts + overloads ws)
        × (length (add_overloads t ws d).wip_actions ≡ length d.wip_actions + overloads ws)
        × ((add_overloads t ws d).priority ≡ (if overloads ws == 0 then d.priority else "HIGH"))
  unfolding add_overloads
  add_overloads_lem t [] d = (omega arith, refl, omega arith, omega arith, refl)
  add_overloads_lem t (w ∷ rest) d = elim (Bool-cases w.is_overload) [
    | inr fine ↦ rw fine (add_overloads_lem t rest d)
    | inl full ↦
        let (high, medium, all, actions, priority) =
          add_overloads_lem t rest (with_overload t w d) in
        let grown = with_overload t w d in
        let h = severe-append "HIGH" d.alerts (overload_alert t w ∷ []) in
        let h' = severe-append "MEDIUM" d.alerts (overload_alert t w ∷ []) in
        let l = length-append d.alerts (overload_alert t w ∷ []) in
        let m = length-append d.wip_actions (overload_action t w ∷ []) in
        rw full (
          omega (arith, high, h),
          omega (arith, medium, h'),
          omega (arith, all, l),
          omega (arith, actions, m),
          ground (arith, priority),
        )
  ]

settle_lem :
    (d : InventoryDecision) → (settle d ≡ some d) ⊎ ((settle d ≡ none) × (length d.alerts ≡ 0))
settle_lem d = elim (List-cases d.wip_actions) [
  | inr (x, rest, e) ↦ inl (rw e refl)
  | inl e ↦ elim (List-cases d.alerts) [
    | inr (y, more, e') ↦ inl (ground (arith, e, e'))
    | inl e' ↦ inr (rw (e, e') refl, rw e' refl)
  ]
]

-- One alert if `o` has a value.
abbrev pub one_if {ℓ} : {A : Type ℓ} → Option A → ℕ
one_if none = 0
one_if (some x) = 1

abbrev pub one_when : Bool → ℕ
one_when true = 1
one_when false = 0

one_if_lem {ℓ} : {A : Type ℓ} (o : Option A) → one_if o ≡ 0 → o ≡ none
one_if_lem none h = refl
one_if_lem (some x) h = absurd (ground (arith, h))

one_when_lem : (b : Bool) → one_when b ≡ 0 → b ≡ false
one_when_lem true h = absurd (ground (arith, h))
one_when_lem false h = refl

-- A weak station replaces the priority by MEDIUM.
abbrev pub priority_of {ℓ} : {A : Type ℓ} → ℕ → Option A → String
priority_of n none = if n == 0 then "LOW" else "HIGH"
priority_of n (some station) = "MEDIUM"

abbrev start : InventoryDecision
start = record { wip_actions = []; alerts = []; priority = "LOW" }

-- Of the texts, MEDIUM is the greatest.
max_str_lem : (b : Bool) → max_str (if b then "LOW" else "HIGH") "MEDIUM" ≡ "MEDIUM"
max_str_lem true = refl
max_str_lem false = refl

medium_alerts :
    (message : String) (d : InventoryDecision)
    → (severe "HIGH" (with_medium message d).alerts ≡ severe "HIGH" d.alerts)
      × (severe "MEDIUM" (with_medium message d).alerts ≡ severe "MEDIUM" d.alerts + 1)
      × (length (with_medium message d).alerts ≡ length d.alerts + 1)
medium_alerts message d =
    let h = severe-append "HIGH" d.alerts (medium_alert message ∷ []) in
    let h' = severe-append "MEDIUM" d.alerts (medium_alert message ∷ []) in
    let l = length-append d.alerts (medium_alert message ∷ []) in
    (omega (arith, h), omega (arith, h'), omega (arith, l))

module _ {F : Type 0} ⦃f : Float F⦄ where
  -- One alert of severity HIGH for each overloaded buffer, one of MEDIUM for a weak station and one
  -- for much scrap.
  abbrev pub IsReport : InventoryObs F → InventoryDecision → Type 0
  IsReport obs d =
      (severe "HIGH" d.alerts ≡ overloads obs.wip_alerts)
      × (severe "MEDIUM" d.alerts
          ≡ one_if (weak_station obs) + one_when (f.lt (f.lit 5 2) obs.scrap_rate))
      × (length d.alerts
          ≡ overloads obs.wip_alerts
            + one_if (weak_station obs)
            + one_when (f.lt (f.lit 5 2) obs.scrap_rate))
      × (length d.wip_actions ≡ overloads obs.wip_alerts)
      × (d.priority ≡ priority_of (overloads obs.wip_alerts) (weak_station obs))

  before_scrap :
      (t : Formats F) (obs : InventoryObs F) (station : Option (String × F))
      → let d = add_bottleneck t station (add_overloads t obs.wip_alerts start) in
        (severe "HIGH" d.alerts ≡ overloads obs.wip_alerts)
        × (severe "MEDIUM" d.alerts ≡ one_if station)
        × (length d.alerts ≡ overloads obs.wip_alerts + one_if station)
        × (length d.wip_actions ≡ overloads obs.wip_alerts)
        × (d.priority ≡ priority_of (overloads obs.wip_alerts) station)
  before_scrap t obs none =
      let (high, medium, all, actions, priority) = add_overloads_lem t obs.wip_alerts start in
      (omega (arith, high), medium, omega (arith, all), omega (arith, actions), priority)
  before_scrap t obs (some (bn, oee)) =
      let (high, medium, all, actions, priority) = add_overloads_lem t obs.wip_alerts start in
      let d = add_overloads t obs.wip_alerts start in
      let message = weak_message t bn oee in
      let (same, more, longer) = medium_alerts message d in
      (
        omega (arith, high, same),
        omega (arith, medium, more),
        omega (arith, all, longer),
        omega (arith, actions),
        rw priority (max_str_lem (overloads obs.wip_alerts == 0)),
      )

  IsReport-scrap :
      (t : Formats F) (obs : InventoryObs F) (much : Bool)
      → f.lt (f.lit 5 2) obs.scrap_rate ≡ much
      → let d = add_bottleneck t (weak_station obs) (add_overloads t obs.wip_alerts start) in
        IsReport obs (if much then with_medium (scrap_message t obs) d else d)
  IsReport-scrap t obs true e =
      let d = add_bottleneck t (weak_station obs) (add_overloads t obs.wip_alerts start) in
      let (high, medium, all, actions, priority) = before_scrap t obs (weak_station obs) in
      let (same, more, longer) = medium_alerts (scrap_message t obs) d in
      let one : one_when (f.lt (f.lit 5 2) obs.scrap_rate) ≡ 1 = rw e refl in
      (
        omega (arith, high, same),
        omega (arith, medium, more, one),
        omega (arith, all, longer, one),
        actions,
        priority,
      )
  IsReport-scrap t obs false e =
      let (high, medium, all, actions, priority) = before_scrap t obs (weak_station obs) in
      let zero : one_when (f.lt (f.lit 5 2) obs.scrap_rate) ≡ 0 = rw e refl in
      (high, omega (arith, medium, zero), omega (arith, all, zero), actions, priority)

  -- What reason reports: one alert of severity HIGH for each overloaded buffer, one of MEDIUM for the
  -- bottleneck if it is below 0.65, and one of MEDIUM for a scrap rate above 0.05; it decides nothing only if
  -- there is nothing to report. The priority is LOW, or HIGH if a buffer is overloaded; but with a
  -- weak bottleneck it is MEDIUM, also when buffers are overloaded: the maximum is that of the texts.
  pub reason-overloads :
      (t : Formats F) (obs : InventoryObs F)
      → ((reason t obs ≡ none)
          × (overloads obs.wip_alerts ≡ 0)
          × (weak_station obs ≡ none)
          × (f.lt (f.lit 5 2) obs.scrap_rate ≡ false))
        ⊎ ((d : InventoryDecision) × (reason t obs ≡ some d) × IsReport obs d)
  unfolding reason
  reason-overloads t obs =
      let much = f.lt (f.lit 5 2) obs.scrap_rate in
      let before = add_bottleneck t (weak_station obs) (add_overloads t obs.wip_alerts start) in
      let d = if much then with_medium (scrap_message t obs) before else before in
      let (high, medium, all, actions, priority) = IsReport-scrap t obs much refl in
      elim (settle_lem d) [
        | inl e ↦ inr (d, e, (high, medium, all, actions, priority))
        | inr (e, nothing) ↦ inl (
          e,
          omega (arith, all, nothing),
          one_if_lem (weak_station obs) (omega (arith, all, nothing)),
          one_when_lem much (omega (arith, all, nothing)),
        )
      ]
