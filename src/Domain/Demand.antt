-- ===== src/Domain/Demand.antt =====
-- mas/domain/demand.py: customer orders, demand events and the demand forecast. Quantities are
-- naturals; the clamp `max(0, quantity - fulfilled)` is the subtraction that stops at 0.
pub mod Orders
pub mod Events
use manufacturing_mas.Prelude.{
  ℕ, ◌+◌, ◌-◌, String, Bool, true, false, not, ◌&&◌, ◌||◌, Option, none, some, List, [], ◌∷◌, ◌++◌,
  ltb, leb, ◌==◌, str_eq, if◌then◌else◌, min, length, last_n,
}
use manufacturing_mas.Prelude.Int.{pos}
use manufacturing_mas.Float.{Float, fmax, fmin}

pub data OrderPriority : Type 0 where
  normal urgent : OrderPriority

pub data OrderStatus : Type 0 where
  «open» partial fulfilled late : OrderStatus

pub record CustomerOrder : Type 0 where
  pub order_id : String
  pub customer : String
  pub quantity : ℕ
  pub due_date : String
  pub priority : OrderPriority
  pub fulfilled : ℕ
  pub status : OrderStatus

unfoldable pub remaining : CustomerOrder → ℕ
remaining o = o.quantity - o.fulfilled

unfoldable pub ship : CustomerOrder → ℕ → CustomerOrder × ℕ
unfolding remaining
ship o qty =
    let actual = min qty (remaining o) in
    let done = o.fulfilled + actual in
    (
      record o {
        fulfilled = done;
        status =
            if leb o.quantity done
            then OrderStatus.fulfilled
            else if ltb 0 done
            then partial
            else o.status;
      },
      actual,
    )

unfoldable pub is_open : CustomerOrder → Bool
is_open o = elim o.status [ «open» ↦ true | partial ↦ true | _ ↦ false ]

-- `event_type` is a text; only "new_order" has an effect.
pub record DemandEvent : Type 0 where
  pub trigger_cycle : ℕ
  pub event_type : String
  pub order : Option CustomerOrder
  pub description : String

pub record DemandModel (F : Type 0) : Type 0 where
  pub orders : List CustomerOrder
  pub events : List DemandEvent
  pub demand_history : List F
  pub forecast_history : List F
  pub forecast_errors : List F
  pub base_rate : F

unfoldable pub quantity_sum : List CustomerOrder → ℕ
quantity_sum [] = 0
quantity_sum (o ∷ os) = o.quantity + quantity_sum os

unfoldable pub remaining_sum : List CustomerOrder → ℕ
unfolding remaining
remaining_sum [] = 0
remaining_sum (o ∷ os) = remaining o + remaining_sum os

unfoldable pub filter_open : List CustomerOrder → List CustomerOrder
unfolding is_open
filter_open [] = []
filter_open (o ∷ os) = if is_open o then o ∷ filter_open os else filter_open os

unfoldable pub at_cycle : ℕ → List DemandEvent → List DemandEvent
at_cycle c [] = []
at_cycle c (e ∷ es) = if e.trigger_cycle == c then e ∷ at_cycle c es else at_cycle c es

unfoldable pub not_at_cycle : ℕ → List DemandEvent → List DemandEvent
not_at_cycle c [] = []
not_at_cycle c (e ∷ es) = if e.trigger_cycle == c then not_at_cycle c es else e ∷ not_at_cycle c es

-- The order that a triggered event adds.
abbrev pub event_orders : DemandEvent → List CustomerOrder
event_orders e =
    if str_eq e.event_type "new_order" then elim e.order [ none ↦ [] | some o ↦ o ∷ [] ] else []

module _ {F : Type 0} where
  unfoldable pub add_order : DemandModel F → CustomerOrder → DemandModel F
  add_order d o = record d { orders = d.orders ++ o ∷ [] }

  unfoldable pub schedule_event : DemandModel F → DemandEvent → DemandModel F
  schedule_event d e = record d { events = d.events ++ e ∷ [] }

  -- The loop over the triggered events.
  unfoldable pub apply_events : DemandModel F → List DemandEvent → DemandModel F
  unfolding add_order
  apply_events d [] = d
  apply_events d (e ∷ es) =
      apply_events
        (if str_eq e.event_type "new_order"
          then elim e.order [ none ↦ d | some o ↦ add_order d o ]
          else d)
        es

  unfoldable pub check_events : DemandModel F → ℕ → DemandModel F × List DemandEvent
  unfolding apply_events at_cycle not_at_cycle
  check_events d cycle =
      let triggered = at_cycle cycle d.events in
      (apply_events (record d { events = not_at_cycle cycle d.events }) triggered, triggered)

  unfoldable pub record_actual_demand : DemandModel F → F → DemandModel F
  record_actual_demand d qty = record d { demand_history = d.demand_history ++ qty ∷ [] }

  unfoldable pub total_demand : DemandModel F → ℕ
  unfolding quantity_sum
  total_demand d = quantity_sum d.orders

  unfoldable pub total_remaining : DemandModel F → ℕ
  unfolding remaining_sum
  total_remaining d = remaining_sum d.orders

  unfoldable pub open_orders : DemandModel F → List CustomerOrder
  unfolding filter_open
  open_orders d = filter_open d.orders

module _ {F : Type 0} ⦃f : Float F⦄ where
  sum : F → List F → F
  sum acc [] = acc
  sum acc (x ∷ xs) = sum (f.add acc x) xs

  unfoldable pub mean : List F → F
  unfolding sum
  mean xs = f.div (sum (f.lit 0 0) xs) (f.of_int (pos (length xs)))

  get_last_or : F → List F → F
  get_last_or x [] = x
  get_last_or x (y ∷ ys) = get_last_or y ys

  -- The new model and the forecast.
  unfoldable pub forecast_demand_rate : DemandModel F → DemandModel F × F
  unfolding mean get_last_or
  forecast_demand_rate d =
      let forecast = mean (last_n 5 d.demand_history) in
      let recorded = record d { forecast_history = d.forecast_history ++ forecast ∷ [] } in
      let error = f.abs (f.sub (get_last_or (f.lit 0 0) d.demand_history) forecast) in
      if ltb (length d.demand_history) 3
      then (d, f.div d.base_rate (f.lit 80 0))
      else if leb 5 (length d.demand_history)
      then (record recorded { forecast_errors = d.forecast_errors ++ error ∷ [] }, forecast)
      else (recorded, forecast)

  deviations : F → List F → List F
  deviations m [] = []
  deviations m (x ∷ xs) = f.mul (f.sub x m) (f.sub x m) ∷ deviations m xs

  unfoldable pub demand_std : DemandModel F → F
  unfolding mean deviations
  demand_std d =
      let recent = last_n 10 d.demand_history in
      if ltb (length d.demand_history) 5
      then f.lit 5 1
      else fmax (f.lit 1 1) (f.sqrt (mean (deviations (mean recent) recent)))

  abbrev is_empty : List F → Bool
  is_empty [] = true
  is_empty (x ∷ xs) = false

  unfoldable pub forecast_accuracy : DemandModel F → F
  unfolding mean
  forecast_accuracy d =
      let avg_error = mean (last_n 10 d.forecast_errors) in
      let avg_forecast = mean (last_n 10 d.forecast_history) in
      let mape = f.div avg_error (fmax avg_forecast (f.lit 1 2)) in
      if is_empty d.forecast_errors || is_empty d.forecast_history
      then f.lit 85 2
      else if f.lt avg_forecast (f.lit 1 2)
      then f.lit 85 2
      else f.round (fmax (f.lit 5 1) (fmin (f.lit 99 2) (f.sub (f.lit 10 1) mape))) 3

  unfoldable pub get_avg_demand_per_cycle : DemandModel F → F
  unfolding mean
  get_avg_demand_per_cycle d =
      if is_empty d.demand_history then f.lit 10 1 else mean (last_n 10 d.demand_history)
