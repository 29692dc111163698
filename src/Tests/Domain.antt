-- ===== src/Tests/Domain.antt =====
-- mas/domain/inventory.py and mas/domain/demand.py at concrete inputs.
use mathlib.Core.List.{Perm}
use manufacturing_mas.Prelude.{
  ◌+◌, ◌≤◌, ◌<◌, ◌≡◌, ◌≢◌, refl, ◌↔◌, true, some, List, [], ◌∷◌, ◌++◌, arith, All,
}
use manufacturing_mas.Prelude.Int.{pos, neg_part}
use manufacturing_mas.Float.{Fixed, fixed_float}
use manufacturing_mas.Domain.Inventory.{
  receive, ship, FinishedGoodsWarehouse, ss_breach, stock_above_ss, recalculate_safety_stock,
}
use manufacturing_mas.Domain.Inventory.Balance.{
  Operation, receives, ships, recalculates, incoming_sum, run_operations, IsBalanced,
  run_operations-IsBalanced, recalculate_lem, ss_breach_iff,
}
use manufacturing_mas.Domain.Demand.{
  OrderPriority, OrderStatus, CustomerOrder, DemandEvent, DemandModel, remaining, check_events,
  remaining_sum, open_orders, total_remaining, total_demand,
}
use manufacturing_mas.Domain.Demand.Orders.{IsCoherent, ship-IsCoherent}
use manufacturing_mas.Domain.Demand.Events.{orders_of, check_events_lem}

abbrev warehouse : FinishedGoodsWarehouse Fixed
warehouse = record {
  stock = 50;
  safety_stock = 45;
  service_level_target = pos 9500;
  demand_std = pos 5000;
  leadtime_mean = pos 30000;
  leadtime_std = pos 5000;
  avg_demand_per_cycle = pos 10000;
  stock_history = [];
  ss_history = [];
  service_level_history = [];
  shipments = [];
  total_requested = 0;
  total_shipped = 0;
}

warehouse-IsBalanced : IsBalanced 50 warehouse
warehouse-IsBalanced = record {
  conserved = refl;
  requests = refl;
  shipped = refl;
  no_more = omega arith;
  honest = tt;
}

abbrev operations : List Operation
operations = receives 3 ∷ ships "HMC" 60 1 ∷ recalculates ∷ []

run_operations-IsBalanced_example :
    IsBalanced (50 + incoming_sum operations) (run_operations warehouse operations)
run_operations-IsBalanced_example =
    run_operations-IsBalanced 50 warehouse operations warehouse-IsBalanced

recalculate_lem_example :
    let w' = recalculate_safety_stock warehouse in
    (5 ≤ w'.safety_stock)
    × (w' ≡ record warehouse { safety_stock = w'.safety_stock })
    × (recalculate_safety_stock w' ≡ w')
    × (recalculate_safety_stock (receive warehouse 7) ≡ receive w' 7)
    × (recalculate_safety_stock (ship warehouse "HMC" 7 3).0 ≡ (ship w' "HMC" 7 3).0)
    × ((ship w' "HMC" 7 3).1 ≡ (ship warehouse "HMC" 7 3).1)
recalculate_lem_example = recalculate_lem warehouse "HMC" 7 3

ss_breach_iff_example : (ss_breach warehouse ≡ true) ↔ (0 < neg_part (stock_above_ss warehouse))
ss_breach_iff_example = ss_breach_iff warehouse

abbrev order : CustomerOrder
order = record {
  order_id = "PO-1";
  customer = "HMC";
  quantity = 10;
  due_date = "2026-04-10";
  priority = OrderPriority.urgent;
  fulfilled = 4;
  status = OrderStatus.partial;
}

order-IsCoherent : IsCoherent order
order-IsCoherent = record { fulfilled_le = omega arith; agrees = (omega arith, omega arith) }

ship-IsCoherent_example :
    let (o', actual) = manufacturing_mas.Domain.Demand.ship order 8 in
    IsCoherent o'
    × (actual ≤ 8)
    × (remaining o' + actual ≡ remaining order)
    × (o'.quantity ≡ 10)
    × ((o'.status ≡ OrderStatus.fulfilled) ↔ (remaining o' ≡ 0))
ship-IsCoherent_example = ship-IsCoherent order 8 order-IsCoherent

abbrev surge : DemandEvent
surge = record {
  trigger_cycle = 3;
  event_type = "new_order";
  order = some order;
  description = "surge";
}

abbrev demand : DemandModel Fixed
demand = record {
  orders = order ∷ [];
  events = surge ∷ record surge { trigger_cycle = 9 } ∷ [];
  demand_history = [];
  forecast_history = [];
  forecast_errors = [];
  base_rate = pos 500000;
}

check_events_lem_example :
    let (d', triggered) = check_events demand 3 in
    All (λ e. e.trigger_cycle ≡ 3) triggered
    × All (λ e. e.trigger_cycle ≢ 3) d'.events
    × Perm (triggered ++ d'.events) demand.events
    × (d'.orders ≡ demand.orders ++ orders_of triggered)
    × ((check_events d' 3).1 ≡ [])
check_events_lem_example = check_events_lem demand 3
