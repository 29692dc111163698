-- ===== src/Tests/Roles.antt =====
-- The supply, the demand and the inventory agent, an agent's inbox and a message's dictionary at
-- concrete inputs.
use manufacturing_mas.Prelude.{
  ℕ, ◌+◌, ◌≡◌, ◌≤◌, ◌⊎◌, refl, true, false, Option, none, some, List, [], ◌∷◌, arith, length,
}
use manufacturing_mas.Prelude.Int.{pos}
use manufacturing_mas.Float.{Fixed, fixed_float}
use manufacturing_mas.Messaging.Message.{AgentMessage, alert, create}
use manufacturing_mas.Messaging.Message.Dictionary.{to_dict, from_dict, from_dict-to_dict}
use manufacturing_mas.Protocol.Value.{Fields, text, field, end}
use manufacturing_mas.Domain.Plant.Snapshot.{MaterialView, Snapshot}
use manufacturing_mas.Agents.Planning.Alerts.{collect_inbox_alerts, count_severity, should_cnp}
use manufacturing_mas.Agents.Roles.Base.{BaseAgent, Stamps, new_agent}
use manufacturing_mas.Agents.Roles.Base.Mailbox.{
  MailOp, receive, pop, think, Journal, run, replay, IsView, run-replay,
}
use manufacturing_mas.Agents.Roles.Alerts.{Formats}
use manufacturing_mas.Agents.Roles.Supply
use manufacturing_mas.Agents.Roles.Supply.{SupplyAgent, SupplyObs, SupplyDecision, new_supply_agent}
use manufacturing_mas.Agents.Roles.Supply.Escalation.{IsEmergency, act-reason_lem}
use manufacturing_mas.Agents.Roles.Inventory
use manufacturing_mas.Agents.Roles.Inventory.{
  WipAlert, InventoryObs, InventoryDecision, weak_station,
}
use manufacturing_mas.Agents.Roles.Inventory.Priority.{overloads, reason-overloads}
use manufacturing_mas.Agents.Roles.Inventory.Priority as InventoryPriority
use manufacturing_mas.Agents.Roles.Equipment.{Alarm, EquipmentObs}
use manufacturing_mas.Agents.Roles.Equipment.Decide
use manufacturing_mas.Agents.Roles.Equipment.Decide.{EquipmentDecision}
use manufacturing_mas.Agents.Roles.Equipment.Dropped
use manufacturing_mas.Agents.Roles.Equipment.Dropped.{criticals, urgents, reason-criticals}
use manufacturing_mas.Agents.Roles.Quality.{QualityAgent, QualityObs, new_quality_agent}
use manufacturing_mas.Agents.Roles.Quality.Sense
use manufacturing_mas.Agents.Roles.Quality.Unmonitored.{quality_views, sense-create_production_line}
use manufacturing_mas.Domain.Machines.Line.{create_production_line}
use manufacturing_mas.Agents.Roles.Demand
use manufacturing_mas.Agents.Roles.Demand.{AtRisk, DemandObs, DemandDecision}
use manufacturing_mas.Agents.Roles.Demand.Priority.{is_late, is_over, IsReport, reason-IsReport}

abbrev formats : Formats Fixed
formats = record { fixed = λ x n. "#"; percent = λ x n. "#%"; str_F = λ x. "#"; str_N = λ n. "#" }

abbrev stamp : ℕ → Stamps
stamp i = record { conversation_id = "c"; timestamp = "t"; message_id = "m" }

-- Half of the safety stock is 50.
abbrev paint : MaterialView Fixed
paint = record {
  sku = "도장";
  stock = 40;
  safety_stock = 100;
  days_supply = some (pos 20_000);
  needs_reorder = true;
  on_order = 0;
  supplier_id = "KCC";
}

abbrev plant : Snapshot Fixed
plant = record {
  cycle = 20;
  stations = [];
  fg_stock = 5;
  total_produced = 10;
  scrap_count = 0;
  rework_count = 0;
  total_demand = 0;
  total_delivered = 0;
  materials = ("도장", paint) ∷ [];
  wip = [];
  avg_oee = pos 9_000;
  orders = [];
}

abbrev supply : SupplyAgent Fixed
unfolding new_supply_agent
supply = new_supply_agent

act-reason_lem_example :
    (a : SupplyAgent Fixed) × (obs : SupplyObs Fixed) × (r : Option SupplyDecision) × (Supply.sense
        supply plant
      ≡ some (a, obs))
    × (Supply.reason formats obs ≡ some r)
    × (1 ≤ length obs.shortages)
    × IsEmergency obs r
    × (count_severity "CRITICAL" (collect_inbox_alerts (Supply.act stamp a r).1)
        ≡ length obs.shortages)
    × (should_cnp 0 20 (pos 9_000) (collect_inbox_alerts (Supply.act stamp a r).1) ≡ true)
act-reason_lem_example =
    act-reason_lem formats stamp supply plant [] [] "도장" paint 0 20 (pos 9_000) refl
      ((pos 20_000, refl), tt) refl (omega arith)

-- A full buffer and a slow station.
abbrev full : WipAlert Fixed
full = record { buffer = "WC-01→WC-02"; count = 29; util = pos 9_700; is_overload = true }

abbrev flow : InventoryObs Fixed
flow = record {
  wip_levels = [];
  bottleneck = some "WC-03";
  fg_stock = 0;
  throughput = 0;
  scrap_rate = pos 100;
  station_utilization = ("WC-03", pos 5_000) ∷ [];
  wip_alerts = full ∷ [];
}

reason-overloads_example :
    ((Inventory.reason formats flow ≡ none)
      × (overloads flow.wip_alerts ≡ 0)
      × (weak_station flow ≡ none)
      × (fixed_float.lt (pos 500) flow.scrap_rate ≡ false))
    ⊎ ((d : InventoryDecision) × (Inventory.reason formats flow ≡ some d)
        × InventoryPriority.IsReport flow d)
reason-overloads_example = reason-overloads formats flow

-- There, the overload is reported with priority MEDIUM.
overload_medium :
    (d : InventoryDecision) × (Inventory.reason formats flow ≡ some d) × (d.priority ≡ "MEDIUM")
unfolding Inventory.reason
overload_medium = (_, refl, refl)

abbrev late : DemandObs Fixed
late = record {
  total_demand = 100;
  total_delivered = 20;
  urgent_orders = [];
  at_risk_orders = [];
  on_time_rate = pos 2_000;
  capacity_utilization = pos 12_000;
}

reason-IsReport_example :
    ((Demand.reason formats late ≡ none)
      × (late.at_risk_orders ≡ [])
      × (is_late late ≡ false)
      × (is_over late ≡ false)
      × (late.urgent_orders ≡ []))
    ⊎ ((d : DemandDecision) × (Demand.reason formats late ≡ some d)
        × (1 ≤ length d.alerts + length d.schedule_changes)
        × IsReport late d)
reason-IsReport_example = reason-IsReport formats late

abbrev news : AgentMessage (Fields Fixed)
unfolding create
news = create "SA" "PA" alert (field "severity" (text "HIGH") end) none "c" "t" "m"

abbrev planner : BaseAgent (Fields Fixed)
unfolding new_agent
planner = new_agent "PA"

abbrev mail : List (MailOp (Fields Fixed))
mail = receive news ∷ pop ∷ receive news ∷ think "..." ∷ receive news ∷ pop ∷ receive news ∷ []

abbrev empty : Journal (Fields Fixed)
empty = record { received = []; read = 0 }

run-replay_example :
    ((run mail planner).0 ≡ (replay mail empty).0)
    × IsView (run mail planner).1 (replay mail empty).1
unfolding new_agent
run-replay_example = run-replay mail planner empty (omega arith, refl)

from_dict-to_dict_example : from_dict (to_dict news) ≡ some news
from_dict-to_dict_example = from_dict-to_dict news

-- An alarm between 0.7 and 0.9.
abbrev rough : Alarm Fixed
rough = record {
  station = "WC-05";
  sensor = "spindle_vib";
  value = pos 30_000;
  anomaly = pos 8_000;
  is_rising = true;
}

abbrev worn : EquipmentObs Fixed
worn = record { station_health = []; alarms = rough ∷ []; tool_warnings = []; trend_alerts = [] }

reason-criticals_example :
    ((Decide.reason formats worn ≡ none)
      × (criticals worn.alarms ≡ 0)
      × (urgents worn.tool_warnings ≡ 0))
    ⊎ ((d : EquipmentDecision) × (Decide.reason formats worn ≡ some d)
        × (1 ≤ criticals worn.alarms + urgents worn.tool_warnings)
        × Dropped.IsReport worn d)
reason-criticals_example = reason-criticals formats worn

-- There, the speed of 80 percent is not asked for.
speed_dropped : Decide.reason formats worn ≡ none
unfolding Decide.reason
speed_dropped = refl

abbrev inspector : QualityAgent Fixed
unfolding new_quality_agent
inspector = new_quality_agent

sense-create_production_line_example :
    (b : QualityAgent Fixed) × (obs : QualityObs Fixed) × (Sense.sense inspector
        (quality_views create_production_line)
      ≡ some (b, obs))
    × (obs.cpk_status ≡ [])
    × (b.cpk_history ≡ inspector.cpk_history)
sense-create_production_line_example =
    sense-create_production_line inspector create_production_line refl
