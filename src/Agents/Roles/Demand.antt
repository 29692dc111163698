-- ===== src/Agents/Roles/Demand.antt =====
-- mas/agents/demand_agent.py. The lines of the reasoning log and the views for the dashboard are left
-- out.
pub mod Priority
use Prim.Native.String.{◌++◌ as append}
use manufacturing_mas.Prelude.{
  ℕ, ◌+◌, max, String, Bool, true, false, ◌&&◌, Option, none, some, List, [], ◌∷◌, ◌++◌, ltb,
  if◌then◌else◌, length,
}
use manufacturing_mas.Prelude.Int.{pos}
use manufacturing_mas.Float.{Float, fmax, fmin}
use manufacturing_mas.Messaging.Message.{AgentMessage}
use manufacturing_mas.Protocol.Value.{Fields, flag, whole, real, text, object, field, end}
use manufacturing_mas.Domain.Plant.Stock.{OrderPriority, urgent}
use manufacturing_mas.Domain.Plant.Snapshot.{OrderView, Snapshot}
use manufacturing_mas.Agents.Roles.Base.{BaseAgent, Stamps, new_agent}
use manufacturing_mas.Agents.Roles.Alerts.{RoleAlert, Formats, send_alerts}

-- The forecast and the history of deliveries are never used.
pub record DemandAgent (F : Type 0) : Type 0 where
  pub base : BaseAgent (Fields F)
  pub capacity_util : F

pub record AtRisk : Type 0 where
  pub order : String
  pub customer : String
  pub remaining : ℕ
  pub fg_available : ℕ

pub record DemandObs (F : Type 0) : Type 0 where
  pub total_demand : ℕ
  pub total_delivered : ℕ
  pub urgent_orders : List OrderView
  pub at_risk_orders : List AtRisk
  pub on_time_rate : F
  pub capacity_utilization : F

pub record ScheduleChange : Type 0 where
  pub order : String
  pub action : String
  pub customer : String
  pub remaining : ℕ

pub record DemandDecision : Type 0 where
  pub schedule_changes : List ScheduleChange
  pub alerts : List RoleAlert
  pub priority : String

abbrev is_urgent : OrderPriority → Bool
is_urgent urgent = true
is_urgent _ = false

module _ {F : Type 0} ⦃f : Float F⦄ where
  unfoldable pub new_demand_agent : DemandAgent F
  unfolding new_agent
  new_demand_agent = record { base = new_agent "DA"; capacity_util = f.lit 0 1 }

  -- The loop over the orders.
  unfoldable pub sense_orders : ℕ → List OrderView → DemandObs F
  sense_orders fg_stock [] = record {
    total_demand = 0;
    total_delivered = 0;
    urgent_orders = [];
    at_risk_orders = [];
    on_time_rate = f.lit 10 1;
    capacity_utilization = f.lit 0 1;
  }
  sense_orders fg_stock (o ∷ rest) =
      let others = sense_orders fg_stock rest in
      let open_order = ltb 0 o.remaining in
      let scarce =
        f.lt (f.of_int (pos fg_stock)) (f.mul (f.of_int (pos o.remaining)) (f.lit 3 1)) in
      let risk : AtRisk = record {
        order = o.id;
        customer = o.customer;
        remaining = o.remaining;
        fg_available = fg_stock;
      } in
      record others {
        total_demand = o.qty + others.total_demand;
        total_delivered = o.delivered + others.total_delivered;
        urgent_orders =
            if is_urgent o.priority && open_order
            then o ∷ others.urgent_orders
            else others.urgent_orders;
        at_risk_orders =
            if open_order && scarce then risk ∷ others.at_risk_orders else others.at_risk_orders;
      }

  unfoldable pub capacity_of : Snapshot F → ℕ → F
  capacity_of snapshot total_demand =
      let produced = f.of_int (pos snapshot.total_produced) in
      let capacity =
        f.mul (f.div produced (f.of_int (pos (max 1 snapshot.cycle)))) (f.of_int (pos 480)) in
      let demand : F = elim snapshot.orders [
        | [] ↦ f.of_int (pos 0)
        | (_ ∷ _) ↦
            f.div (f.of_int (pos total_demand)) (f.of_int (pos (max 1 (length snapshot.orders))))
      ] in
      if ltb 0 snapshot.cycle
      then fmin (f.lit 15 1) (f.div demand (fmax (f.of_int (pos 1)) capacity))
      else f.lit 0 1

  unfoldable pub sense : DemandAgent F → Snapshot F → DemandAgent F × DemandObs F
  unfolding sense_orders capacity_of
  sense a snapshot =
      let obs = sense_orders snapshot.fg_stock snapshot.orders in
      let capacity = capacity_of snapshot obs.total_demand in
      (
        record a { capacity_util = capacity },
        record obs {
          on_time_rate =
              if ltb 0 obs.total_demand
              then f.div (f.of_int (pos obs.total_delivered)) (f.of_int (pos obs.total_demand))
              else obs.on_time_rate;
          capacity_utilization = capacity;
        },
      )

module _ {F : Type 0} (t : Formats F) where
  abbrev pub risk_alert : AtRisk → RoleAlert
  risk_alert r = record {
    target = "PA";
    severity = "HIGH";
    message = append "납기 위험: " (
        append r.customer (
          append " — 잔여 " (
            append (t.str_N r.remaining) (append "개, 재고 " (append (t.str_N r.fg_available) "개")))));
  }

  abbrev pub with_risk : AtRisk → DemandDecision → DemandDecision
  with_risk r d = record d { priority = "HIGH"; alerts = d.alerts ++ risk_alert r ∷ [] }

  unfoldable pub add_risks : List AtRisk → DemandDecision → DemandDecision
  add_risks [] d = d
  add_risks (r ∷ rest) d = add_risks rest (with_risk r d)

  abbrev pub rate_alert : F → RoleAlert
  rate_alert rate = record {
    target = "PA";
    severity = "CRITICAL";
    message = append "납기 준수율 저하: " (append (t.percent rate 1) " (목표 95%)");
  }

  abbrev pub capacity_alert : F → RoleAlert
  capacity_alert util = record {
    target = "PA";
    severity = "MEDIUM";
    message = append "수요 초과: 생산능력 대비 " (t.percent util 0);
  }

abbrev pub changes : List OrderView → List ScheduleChange
changes [] = []
changes (o ∷ rest) =
    record { order = o.id; action = "우선생산"; customer = o.customer; remaining = o.remaining }
    ∷ changes rest

-- A decision without changes and alerts is none.
abbrev pub settle : DemandDecision → Option DemandDecision
settle d = elim d.schedule_changes [
  | (_ ∷ _) ↦ some d
  | [] ↦ elim d.alerts [ [] ↦ none | (_ ∷ _) ↦ some d ]
]

module _ {F : Type 0} ⦃f : Float F⦄ where
  abbrev pub add_changes : DemandObs F → DemandDecision → DemandDecision
  add_changes obs d = record d {
    schedule_changes = d.schedule_changes ++ changes obs.urgent_orders;
  }

  abbrev pub add_rate : Formats F → DemandObs F → DemandDecision → DemandDecision
  add_rate t obs d =
      if f.lt obs.on_time_rate (f.lit 85 2)
      then record d {
        priority = "CRITICAL";
        alerts = d.alerts ++ rate_alert t obs.on_time_rate ∷ [];
      }
      else d

  abbrev pub add_capacity : Formats F → DemandObs F → DemandDecision → DemandDecision
  add_capacity t obs d =
      if f.lt (f.lit 11 1) obs.capacity_utilization
      then record d { alerts = d.alerts ++ capacity_alert t obs.capacity_utilization ∷ [] }
      else d

  unfoldable pub reason : Formats F → DemandObs F → Option DemandDecision
  unfolding add_risks
  reason t obs =
      let start : DemandDecision = record {
        schedule_changes = [];
        alerts = [];
        priority = "LOW";
      } in
      let d = add_changes obs (add_risks t obs.at_risk_orders start) in
      settle (add_capacity t obs (add_rate t obs d))

  -- The agent after, the messages for the broker and the actions. The entry `on_time_rate` of an alert
  -- is the utilization of the capacity.
  unfoldable pub act :
      (ℕ → Stamps)
      → DemandAgent F
      → Option DemandDecision
      → DemandAgent F × List (AgentMessage (Fields F)) × List String
  unfolding send_alerts
  act stamps a none = (a, [], [])
  act stamps a (some d) =
      let (base, msgs, actions) =
        send_alerts "경보: " stamps 0 "on_time_rate" (real a.capacity_util) a.base d.alerts in
      (record a { base = base }, msgs, actions)

  unfoldable pub handle_cfp : DemandAgent F → Fields F
  handle_cfp a =
      let cu = a.capacity_util in
      let viol =
        if f.lt (f.lit 11 1) cu
        then f.lit 10 1
        else if f.lt (f.lit 10 1) cu
        then f.lit 5 1
        else f.lit 0 1 in
      let cost =
        if f.lt (f.lit 10 1) cu
        then fmax (f.lit 0 1) (fmin (f.lit 10 1) (f.sub cu (f.lit 10 1)))
        else f.lit 0 1 in
      field "agent" (text a.base.agent_id) (
        field "proposal" (text "수요 관점 대응") (
          field "speed_recommendation" (whole (if f.lt (f.lit 10 1) cu then pos 110 else pos 100)) (
            field "delivery_risk" (flag (f.lt (f.lit 9 1) cu)) (
              field "scores"
                (object (
                  field "quality" (real (f.lit 5 1)) (
                    field "delivery" (real (f.lit 9 1))
                      (field "cost" (real (f.lit 6 1)) (field "safety" (real (f.lit 5 1)) end)))))
                (field "proposal_metrics"
                  (object (
                    field "cost_estimate" (real (f.round cost 4)) (
                      field "constraint_violation_total" (real viol)
                        (field "capacity_utilization" (real (f.round cu 4)) end))))
                  end)))))
