-- ===== src/Agents/Roles/Inventory.antt =====
-- mas/agents/inventory_agent.py. The lines of the reasoning log and the views for the dashboard are
-- left out.
pub mod Proposal
pub mod Priority
use Prim.Native.String.{◌++◌ as append, compare}
use Prim.Native.Nat.{Ordering}
use manufacturing_mas.Prelude.{
  ℕ, ◌+◌, max, String, Bool, true, false, not, ◌&&◌, Option, none, some, List, [], ◌∷◌, ◌++◌, ltb,
  if◌then◌else◌, length, get_elem?, push_capped, str_eq,
}
use manufacturing_mas.Prelude.Int.{pos}
use manufacturing_mas.Prelude.Dict.{Dict, lookup, insert}
use manufacturing_mas.Prelude.Decimal.{zero_padded}
use manufacturing_mas.Float.{Float, fmin}
use manufacturing_mas.Messaging.Message.{AgentMessage}
use manufacturing_mas.Protocol.Value.{Value, Fields, null, real, text, object, field, end}
use manufacturing_mas.Domain.Plant.Snapshot.{WipView, Snapshot}
use manufacturing_mas.Agents.Roles.Base.{BaseAgent, Stamps, new_agent}
use manufacturing_mas.Agents.Roles.Alerts.{RoleAlert, Formats, send_alerts}

pub record InventoryAgent (F : Type 0) : Type 0 where
  pub base : BaseAgent (Fields F)
  pub wip_history : Dict (List ℕ)
  pub throughput_history : List ℕ
  pub bottleneck_station : Option String
  pub last_scrap_rate : F
  pub last_wip_alert_n : ℕ

-- An entry of `wip_alerts`: the status is 과적 for an overload, and 주의 otherwise.
pub record WipAlert (F : Type 0) : Type 0 where
  pub buffer : String
  pub count : ℕ
  pub util : F
  pub is_overload : Bool

pub record InventoryObs (F : Type 0) : Type 0 where
  pub wip_levels : Dict (ℕ × F)
  pub bottleneck : Option String
  pub fg_stock : ℕ
  pub throughput : ℕ
  pub scrap_rate : F
  pub station_utilization : Dict F
  pub wip_alerts : List (WipAlert F)

pub record WipAction : Type 0 where
  pub buffer : String
  pub action : String
  pub reason : String

pub record InventoryDecision : Type 0 where
  pub wip_actions : List WipAction
  pub alerts : List RoleAlert
  pub priority : String

unfoldable pub wip_key : ℕ → ℕ → String
unfolding zero_padded
wip_key from to =
    append "WC-" (append (zero_padded 2 (from + 1)) (append "→WC-" (zero_padded 2 (to + 1))))

-- The last 100 counts are kept.
unfoldable pub track : String → ℕ → Dict (List ℕ) → Dict (List ℕ)
unfolding lookup insert push_capped
track key count history =
    let known : List ℕ = elim (lookup key history) [ none ↦ [] | some xs ↦ xs ] in
    insert key (push_capped 100 100 known count) history

module _ {F : Type 0} ⦃f : Float F⦄ where
  unfoldable pub new_inventory_agent : InventoryAgent F
  unfolding new_agent
  new_inventory_agent = record {
    base = new_agent "IA";
    wip_history = [];
    throughput_history = [];
    bottleneck_station = none;
    last_scrap_rate = f.lit 0 1;
    last_wip_alert_n = 0;
  }

  -- The loop over the buffers.
  unfoldable pub sense_wip :
      List (WipView F)
      → Dict (List ℕ)
      → Dict (ℕ × F)
      → Dict (List ℕ) × Dict (ℕ × F) × List (WipAlert F)
  unfolding wip_key track insert
  sense_wip [] history levels = (history, levels, [])
  sense_wip (w ∷ rest) history levels =
      let key = wip_key w.station_from w.station_to in
      let alert : WipAlert F = record {
        buffer = key;
        count = w.count;
        util = w.util;
        is_overload = f.lt (f.lit 9 1) w.util;
      } in
      let (final, seen, alerts) =
        sense_wip rest (track key w.count history) (insert key (w.count, w.util) levels) in
      (final, seen, if f.lt (f.lit 8 1) w.util then alert ∷ alerts else alerts)

  -- The first station of the least effectiveness, if it is below `least`.
  unfoldable pub find_bottleneck : F → Option String → Dict F → Option String
  find_bottleneck least found [] = found
  find_bottleneck least found ((sid, oee) ∷ rest) =
      if f.lt oee least
      then find_bottleneck oee (some sid) rest
      else find_bottleneck least found rest

  unfoldable pub sense : InventoryAgent F → Snapshot F → InventoryAgent F × InventoryObs F
  unfolding sense_wip find_bottleneck
  sense a snapshot =
      let (history, levels, alerts) = sense_wip snapshot.wip a.wip_history [] in
      let bottleneck = find_bottleneck (f.lit 10 1) none snapshot.stations in
      let rate =
        f.div (f.of_int (pos snapshot.scrap_count))
          (f.of_int (pos (max 1 (snapshot.total_produced + snapshot.scrap_count)))) in
      (
        record a {
          wip_history = history;
          throughput_history = a.throughput_history ++ snapshot.total_produced ∷ [];
          bottleneck_station = bottleneck;
          last_scrap_rate = rate;
          last_wip_alert_n = length alerts;
        },
        record {
          wip_levels = levels;
          bottleneck = bottleneck;
          fg_stock = snapshot.fg_stock;
          throughput = snapshot.total_produced;
          scrap_rate = rate;
          station_utilization = snapshot.stations;
          wip_alerts = alerts;
        },
      )

-- `max(a, b)` of two texts
abbrev pub max_str : String → String → String
max_str a b = elim (compare a b) [ Ordering.lt ↦ b | _ ↦ a ]

module _ {F : Type 0} (t : Formats F) where
  abbrev amount : WipAlert F → String
  amount w = append "(" (append (t.str_N w.count) (append "개, " (append (t.percent w.util 0) ")")))

  abbrev pub overload_action : WipAlert F → WipAction
  overload_action w = record {
    buffer = w.buffer;
    action = "속도조절";
    reason = append "WIP 과적 " (amount w);
  }

  abbrev pub overload_alert : WipAlert F → RoleAlert
  overload_alert w = record {
    target = "PA";
    severity = "HIGH";
    message = append "WIP 과적: " (append w.buffer (append " " (amount w)));
  }

  abbrev pub with_overload : WipAlert F → InventoryDecision → InventoryDecision
  with_overload w d = record {
    priority = "HIGH";
    wip_actions = d.wip_actions ++ overload_action w ∷ [];
    alerts = d.alerts ++ overload_alert w ∷ [];
  }

  unfoldable pub add_overloads : List (WipAlert F) → InventoryDecision → InventoryDecision
  add_overloads [] d = d
  add_overloads (w ∷ rest) d =
      if w.is_overload then add_overloads rest (with_overload w d) else add_overloads rest d

module _ {F : Type 0} where
  abbrev pub weak_message : Formats F → String → F → String
  weak_message t bn oee =
      append "병목공정: " (append bn (append " (OEE " (append (t.percent oee 1) ")")))

  abbrev pub scrap_message : Formats F → InventoryObs F → String
  scrap_message t obs = append "폐기율 상승: " (t.percent obs.scrap_rate 1)

-- A decision without actions and alerts is none.
abbrev pub settle : InventoryDecision → Option InventoryDecision
settle d = elim d.wip_actions [
  | (_ ∷ _) ↦ some d
  | [] ↦ elim d.alerts [ [] ↦ none | (_ ∷ _) ↦ some d ]
]

abbrev pub medium_alert : String → RoleAlert
medium_alert message = record { target = "PA"; severity = "MEDIUM"; message = message }

abbrev pub with_medium : String → InventoryDecision → InventoryDecision
with_medium message d = record d { alerts = d.alerts ++ medium_alert message ∷ [] }

module _ {F : Type 0} ⦃f : Float F⦄ where
  -- The effectiveness of the bottleneck, if there is one and it is below 0.65.
  unfoldable pub weak_station : InventoryObs F → Option (String × F)
  unfolding lookup
  weak_station obs = elim obs.bottleneck [
    | none ↦ none
    | some bn ↦
        let oee : F = elim (lookup bn obs.station_utilization) [ none ↦ f.lit 10 1 | some x ↦ x ] in
        if not (str_eq bn "") && f.lt oee (f.lit 65 2) then some (bn, oee) else none
  ]

  abbrev pub add_bottleneck :
      Formats F → Option (String × F) → InventoryDecision → InventoryDecision
  add_bottleneck t none d = d
  add_bottleneck t (some (bn, oee)) d =
      with_medium (weak_message t bn oee) (record d { priority = max_str d.priority "MEDIUM" })

  unfoldable pub reason : Formats F → InventoryObs F → Option InventoryDecision
  unfolding add_overloads weak_station
  reason t obs =
      let start : InventoryDecision = record { wip_actions = []; alerts = []; priority = "LOW" } in
      let d = add_bottleneck t (weak_station obs) (add_overloads t obs.wip_alerts start) in
      settle (if f.lt (f.lit 5 2) obs.scrap_rate then with_medium (scrap_message t obs) d else d)

module _ {F : Type 0} where
  abbrev pub station_value : Option String → Value F
  station_value none = null
  station_value (some s) = text s

  -- The agent after, the messages for the broker and the actions.
  unfoldable pub act :
      (ℕ → Stamps)
      → InventoryAgent F
      → Option InventoryDecision
      → InventoryAgent F × List (AgentMessage (Fields F)) × List String
  unfolding send_alerts
  act stamps a none = (a, [], [])
  act stamps a (some d) =
      let (base, msgs, actions) =
        send_alerts "경보: " stamps 0 "bottleneck" (station_value a.bottleneck_station) a.base
          d.alerts in
      (record a { base = base }, msgs, actions)
