-- ===== src/Agents/Roles/Equipment/Decide.antt =====
-- mas/agents/equipment_agent.py: `reason` and `act`.
use Prim.Native.String.{◌++◌ as append}
use manufacturing_mas.Prelude.{
  ℕ, String, Bool, Option, none, some, List, [], ◌∷◌, ◌++◌, if◌then◌else◌, str_eq,
}
use manufacturing_mas.Prelude.Int.{pos}
use manufacturing_mas.Prelude.Dict.{Dict}
use manufacturing_mas.Float.{Float}
use manufacturing_mas.Messaging.Message.{AgentMessage}
use manufacturing_mas.Protocol.Value.{Fields, object, real, field, end}
use manufacturing_mas.Agents.Roles.Base.{Stamps}
use manufacturing_mas.Agents.Roles.Alerts.{RoleAlert, Formats, send_alerts}
use manufacturing_mas.Agents.Roles.Equipment.{
  EquipmentAgent, EquipmentObs, Alarm, ToolWarning, StationHealth, MaintenanceAction,
}

pub record SpeedAdjustment : Type 0 where
  pub station : String
  pub target_pct : ℕ

pub record EquipmentDecision : Type 0 where
  pub maintenance_actions : List MaintenanceAction
  pub speed_adjustments : List SpeedAdjustment
  pub alerts_to_send : List RoleAlert
  pub priority : String

module _ {F : Type 0} (t : Formats F) where
  abbrev pub critical_alert : Alarm F → RoleAlert
  critical_alert a = record {
    target = "PA";
    severity = "CRITICAL";
    message =
        append a.station
          (append " 비상: " (append a.sensor (append " 이상(" (append (t.fixed a.value 2) ")"))));
  }

  abbrev pub repair : Alarm F → MaintenanceAction
  repair a = record {
    station = a.station;
    action = "비상정비";
    reason = append a.sensor (append " 이상 감지 (score: " (append (t.str_F a.anomaly) ")"));
  }

  abbrev pub with_critical : Alarm F → EquipmentDecision → EquipmentDecision
  with_critical a d = record {
    maintenance_actions = d.maintenance_actions ++ repair a ∷ [];
    speed_adjustments = d.speed_adjustments ++ record { station = a.station; target_pct = 60 } ∷ [];
    alerts_to_send = d.alerts_to_send ++ critical_alert a ∷ [];
    priority = "CRITICAL";
  }

  abbrev pub with_warning : Alarm F → EquipmentDecision → EquipmentDecision
  with_warning a d = record d {
    speed_adjustments = d.speed_adjustments ++ record { station = a.station; target_pct = 80 } ∷ [];
    priority = if str_eq d.priority "CRITICAL" then d.priority else "HIGH";
  }

  abbrev pub tool_alert : ToolWarning F → RoleAlert
  tool_alert w = record {
    target = "PA";
    severity = "HIGH";
    message = append w.station (append " 공구교체 필요 (잔여 " (append (t.fixed w.tool_life_pct 0) "%)"));
  }

  abbrev pub replacement : ToolWarning F → MaintenanceAction
  replacement w = record {
    station = w.station;
    action = "공구교체";
    reason =
        append "잔여수명 " (append (t.fixed w.tool_life_pct 0) (append "% (" (append w.region ")")));
  }

  abbrev pub with_tool : ToolWarning F → EquipmentDecision → EquipmentDecision
  with_tool w d = record d {
    maintenance_actions = d.maintenance_actions ++ replacement w ∷ [];
    alerts_to_send = d.alerts_to_send ++ tool_alert w ∷ [];
  }

  unfoldable pub add_tools : List (ToolWarning F) → EquipmentDecision → EquipmentDecision
  add_tools [] d = d
  add_tools (w ∷ rest) d = if w.is_urgent then add_tools rest (with_tool w d) else add_tools rest d

-- Without actions and alerts the decision is none, whatever speeds it asks for.
abbrev pub settle : EquipmentDecision → Option EquipmentDecision
settle d = elim d.maintenance_actions [
  | (_ ∷ _) ↦ some d
  | [] ↦ elim d.alerts_to_send [ [] ↦ none | (_ ∷ _) ↦ some d ]
]

module _ {F : Type 0} ⦃f : Float F⦄ where
  abbrev pub is_critical : Alarm F → Bool
  is_critical a = f.lt (f.lit 9 1) a.anomaly

  abbrev pub is_warning : Alarm F → Bool
  is_warning a = f.lt (f.lit 7 1) a.anomaly

  unfoldable pub add_alarms : Formats F → List (Alarm F) → EquipmentDecision → EquipmentDecision
  add_alarms t [] d = d
  add_alarms t (a ∷ rest) d =
      if is_critical a
      then add_alarms t rest (with_critical t a d)
      else if is_warning a
      then add_alarms t rest (with_warning t a d)
      else add_alarms t rest d

  -- A short remaining life raises the priority from LOW.
  unfoldable pub add_health : Dict (StationHealth F) → EquipmentDecision → EquipmentDecision
  add_health [] d = d
  add_health ((sid, h) ∷ rest) d =
      if f.lt h.rul_hours (f.of_int (pos 4))
      then add_health rest
          (record d { priority = if str_eq d.priority "LOW" then "MEDIUM" else d.priority })
      else add_health rest d

  unfoldable pub reason : Formats F → EquipmentObs F → Option EquipmentDecision
  unfolding add_tools add_alarms add_health
  reason t obs =
      let start : EquipmentDecision = record {
        maintenance_actions = [];
        speed_adjustments = [];
        alerts_to_send = [];
        priority = "LOW";
      } in
      settle (
        add_health obs.station_health
          (add_tools t obs.tool_warnings (add_alarms t obs.alarms start)))

abbrev request_lines : List MaintenanceAction → List String
request_lines [] = []
request_lines (m ∷ rest) =
    append "정비요청: " (append m.station (append " — " m.action)) ∷ request_lines rest

module _ {F : Type 0} where
  abbrev rul_fields : Dict F → Fields F
  rul_fields [] = end
  rul_fields ((sid, rul) ∷ rest) = field sid (real rul) (rul_fields rest)

  -- The agent after, the messages for the broker and the actions.
  unfoldable pub act :
      (ℕ → Stamps)
      → EquipmentAgent F
      → Option EquipmentDecision
      → EquipmentAgent F × List (AgentMessage (Fields F)) × List String
  unfolding send_alerts
  act stamps a none = (a, [], [])
  act stamps a (some d) =
      let (base, msgs, actions) =
        send_alerts "경보 전송: " stamps 0 "rul_estimates" (object (rul_fields a.rul_estimates)) a.base
          d.alerts_to_send in
      (
        record a { base = base; maintenance_queue = d.maintenance_actions },
        msgs,
        actions ++ request_lines d.maintenance_actions,
      )
