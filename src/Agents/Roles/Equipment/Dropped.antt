-- ===== src/Agents/Roles/Equipment/Dropped.antt =====
-- mas/agents/equipment_agent.py: what `reason` reports, and what it drops.
use manufacturing_mas.Prelude.{
  ℕ, ◌+◌, ◌≤◌, ◌≡◌, refl, ◌⊎◌, inl, inr, none, some, List, [], ◌∷◌, arith, length, length-append,
  if◌then◌else◌, Bool-cases, List-cases,
}
use manufacturing_mas.Prelude.Int.{pos}
use manufacturing_mas.Prelude.Dict.{Dict}
use manufacturing_mas.Float.{Float}
use manufacturing_mas.Agents.Roles.Alerts.{Formats}
use manufacturing_mas.Agents.Roles.Alerts.Received.{severe, severe-append}
use manufacturing_mas.Agents.Roles.Equipment.{EquipmentObs, Alarm, ToolWarning, StationHealth}
use manufacturing_mas.Agents.Roles.Equipment.Decide.{
  EquipmentDecision, with_critical, critical_alert, repair, with_warning, with_tool, tool_alert,
  replacement, is_critical, is_warning, add_alarms, add_tools, add_health, settle, reason,
}

abbrev start : EquipmentDecision
start = record {
  maintenance_actions = [];
  speed_adjustments = [];
  alerts_to_send = [];
  priority = "LOW";
}

-- The decision `e` has `c` critical alerts, `m` actions, `a` alerts and `s` speeds more than `d`.
abbrev Grows : EquipmentDecision → EquipmentDecision → ℕ → ℕ → ℕ → ℕ → Type 0
Grows d e c m a s =
    (severe "CRITICAL" e.alerts_to_send ≡ severe "CRITICAL" d.alerts_to_send + c)
    × (length e.maintenance_actions ≡ length d.maintenance_actions + m)
    × (length e.alerts_to_send ≡ length d.alerts_to_send + a)
    × (length e.speed_adjustments ≡ length d.speed_adjustments + s)

module _ {F : Type 0} where
  abbrev pub urgents : List (ToolWarning F) → ℕ
  urgents [] = 0
  urgents (w ∷ rest) = let others = urgents rest in if w.is_urgent then others + 1 else others

  add_tools_lem :
      (t : Formats F) (ws : List (ToolWarning F)) (d : EquipmentDecision)
      → Grows d (add_tools t ws d) 0 (urgents ws) (urgents ws) 0
  unfolding add_tools
  add_tools_lem t [] d = (omega arith, omega arith, omega arith, omega arith)
  add_tools_lem t (w ∷ rest) d = elim (Bool-cases w.is_urgent) [
    | inr fine ↦ rw fine (add_tools_lem t rest d)
    | inl urgent ↦
        let (c, m, a, s) = add_tools_lem t rest (with_tool t w d) in
        let c1 = severe-append "CRITICAL" d.alerts_to_send (tool_alert t w ∷ []) in
        let a1 = length-append d.alerts_to_send (tool_alert t w ∷ []) in
        let m1 = length-append d.maintenance_actions (replacement t w ∷ []) in
        rw urgent
          (omega (arith, c, c1), omega (arith, m, m1), omega (arith, a, a1), omega (arith, s))
  ]

settle_lem :
    (d : EquipmentDecision)
    → ((settle d ≡ some d) × (1 ≤ length d.maintenance_actions + length d.alerts_to_send))
      ⊎ ((settle d ≡ none) × (length d.maintenance_actions ≡ 0))
settle_lem d = elim (List-cases d.maintenance_actions) [
  | inr (x, rest, e) ↦ inl (ground (arith, e), rw e (omega arith))
  | inl e ↦ elim (List-cases d.alerts_to_send) [
    | inr (y, more, e') ↦ inl (ground (arith, e, e'), rw e' (omega arith))
    | inl e' ↦ inr (ground (arith, e, e'), rw e refl)
  ]
]

module _ {F : Type 0} ⦃f : Float F⦄ where
  abbrev pub criticals : List (Alarm F) → ℕ
  criticals [] = 0
  criticals (a ∷ rest) = let others = criticals rest in if is_critical a then others + 1 else others

  -- The alarms above 0.7 or 0.9.
  abbrev pub slowdowns : List (Alarm F) → ℕ
  slowdowns [] = 0
  slowdowns (a ∷ rest) =
      let others = slowdowns rest in
      if is_critical a then others + 1 else if is_warning a then others + 1 else others

  add_alarms_lem :
      (t : Formats F) (alarms : List (Alarm F)) (d : EquipmentDecision)
      → Grows d
          (add_alarms t alarms d)
          (criticals alarms)
          (criticals alarms)
          (criticals alarms)
          (slowdowns alarms)
  unfolding add_alarms
  add_alarms_lem t [] d = (omega arith, omega arith, omega arith, omega arith)
  add_alarms_lem t (a ∷ rest) d = elim (Bool-cases (is_critical a)) [
    | inl high ↦
        let (c, m, n, s) = add_alarms_lem t rest (with_critical t a d) in
        let c1 = severe-append "CRITICAL" d.alerts_to_send (critical_alert t a ∷ []) in
        let a1 = length-append d.alerts_to_send (critical_alert t a ∷ []) in
        let m1 = length-append d.maintenance_actions (repair t a ∷ []) in
        let s1 =
          length-append d.speed_adjustments
            (record { station = a.station; target_pct = 60 } ∷ []) in
        rw high
          (omega (arith, c, c1), omega (arith, m, m1), omega (arith, n, a1), omega (arith, s, s1))
    | inr low ↦ elim (Bool-cases (is_warning a)) [
      | inl warn ↦
          let (c, m, n, s) = add_alarms_lem t rest (with_warning t a d) in
          let s1 =
            length-append d.speed_adjustments
              (record { station = a.station; target_pct = 80 } ∷ []) in
          rw (low, warn) (c, m, n, omega (arith, s, s1))
      | inr fine ↦ rw (low, fine) (add_alarms_lem t rest d)
    ]
  ]

  add_health_lem :
      (hs : Dict (StationHealth F)) (d : EquipmentDecision) → Grows d (add_health hs d) 0 0 0 0
  unfolding add_health
  add_health_lem [] d = (omega arith, omega arith, omega arith, omega arith)
  add_health_lem ((sid, h) ∷ rest) d = elim (Bool-cases (f.lt h.rul_hours (f.of_int (pos 4)))) [
    | inl brief ↦ rw brief (add_health_lem rest _)
    | inr long ↦ rw long (add_health_lem rest d)
  ]

  abbrev pub IsReport : EquipmentObs F → EquipmentDecision → Type 0
  IsReport obs d =
      (severe "CRITICAL" d.alerts_to_send ≡ criticals obs.alarms)
      × (length d.maintenance_actions ≡ criticals obs.alarms + urgents obs.tool_warnings)
      × (length d.alerts_to_send ≡ criticals obs.alarms + urgents obs.tool_warnings)
      × (length d.speed_adjustments ≡ slowdowns obs.alarms)

  reported :
      (t : Formats F) (obs : EquipmentObs F)
      → IsReport obs (
          add_health obs.station_health
            (add_tools t obs.tool_warnings (add_alarms t obs.alarms start)))
  reported t obs =
      let d1 = add_alarms t obs.alarms start in
      let d2 = add_tools t obs.tool_warnings d1 in
      let (c1, m1, a1, s1) = add_alarms_lem t obs.alarms start in
      let (c2, m2, a2, s2) = add_tools_lem t obs.tool_warnings d1 in
      let (c3, m3, a3, s3) = add_health_lem obs.station_health d2 in
      (
        omega (arith, c1, c2, c3),
        omega (arith, m1, m2, m3),
        omega (arith, a1, a2, a3),
        omega (arith, s1, s2, s3),
      )

  -- The equipment agent decides something only if an alarm is above 0.9 or a tool change is urgent:
  -- then there is one critical alert for each such alarm, one action and one alert for each such
  -- alarm and tool, and one speed for each alarm above 0.7. Otherwise it decides nothing: the speeds
  -- that it has worked out for alarms between 0.7 and 0.9 are dropped.
  pub reason-criticals :
      (t : Formats F) (obs : EquipmentObs F)
      → ((reason t obs ≡ none) × (criticals obs.alarms ≡ 0) × (urgents obs.tool_warnings ≡ 0))
        ⊎ ((d : EquipmentDecision) × (reason t obs ≡ some d)
            × (1 ≤ criticals obs.alarms + urgents obs.tool_warnings)
            × IsReport obs d)
  unfolding reason
  reason-criticals t obs =
      let (c, m, a, s) = reported t obs in
      elim (settle_lem (
        add_health obs.station_health
          (add_tools t obs.tool_warnings (add_alarms t obs.alarms start)))) [
            | inl (e, something) ↦ inr (_, e, omega (arith, m, a, something), (c, m, a, s))
            | inr (e, nothing) ↦ inl (e, omega (arith, m, nothing), omega (arith, m, nothing))
          ]
