-- ===== src/Tests/Plant.antt =====
-- mas/domain/environment.py, business_events.py and manufacturing_env.py at concrete inputs.
use manufacturing_mas.Prelude.{◌+◌, ◌/◌, ◌%◌, ◌≡◌, ◌⊎◌, max, some, none, [], ◌∷◌, arith, All}
use manufacturing_mas.Prelude.Int.{pos}
use manufacturing_mas.Float.{Fixed, fixed_float}
use manufacturing_mas.Domain.Demand.{OrderPriority, OrderStatus, CustomerOrder}
use manufacturing_mas.Domain.Plant.Shift.{runs, runs_lem}
use manufacturing_mas.Domain.Plant.Events.{
  BusinessEvent, BusinessEventStore, factory_tick, emits, tail, emits-last_n,
}
use manufacturing_mas.Domain.Plant.Factory.{Factory, new_factory, init_orders}
use manufacturing_mas.Domain.Plant.Cycle.{Draws, run_cycle}
use manufacturing_mas.Domain.Plant.Outcome.{IsDelivered, IsCycle, run_cycle_lem}
use manufacturing_mas.Domain.Environment.{
  ScenarioConfig, ManufacturingEnvironment, new_environment, process_shipments, fulfilled_sum,
  process_shipments_lem,
}

runs_lem_example :
    let m = runs 700 in
    (m.shift_changes ≡ 700 / 320)
    × (m.shift_cycle_count ≡ 700 % 320)
    × (m.current_idx ≡ 700 / 320 % 3)
    × (m.hour_in_shift ≡ 700 % 320 / 40)
runs_lem_example = runs_lem 700

abbrev tick : BusinessEvent Fixed
tick = record {
  event_id = "e1";
  event_type = factory_tick;
  logical_cycle = 1;
  sim_time_sec = pos 45000;
  event_time_wall_iso = "2026-04-01T00:00:00Z";
  payload = [];
  station_id = none;
  lot_id = none;
  sku = none;
}

abbrev small_store : BusinessEventStore Fixed
small_store = record { maxlen = 2; q = tick ∷ tick ∷ [] }

abbrev late_tick : BusinessEvent Fixed
late_tick = record tick { logical_cycle = 9 }

emits-last_n_example :
    ((emits small_store (tick ∷ late_tick ∷ [])).q ≡ tick ∷ late_tick ∷ [])
    × (tail (emits small_store (tick ∷ late_tick ∷ [])) 1 ≡ late_tick ∷ [])
    × (tail (emits small_store (tick ∷ late_tick ∷ [])) 0 ≡ tick ∷ late_tick ∷ [])
emits-last_n_example =
    emits-last_n small_store (tick ∷ late_tick ∷ []) 1 (omega arith) (omega arith) (omega arith)

abbrev plant : Factory Fixed
unfolding new_factory
plant = new_factory (λ _. 300) (pos 0) (pos 0)

abbrev draws : Draws Fixed
draws = record {
  gauss = λ _ _ _. pos 0;
  verdict = λ _. pos 9900;
  repairable = pos 5000;
  shipped = λ _. 2;
  material = λ _. pos 9900;
  temperature = pos 0;
  humidity = pos 0;
  event_id = λ _. "e";
  wall = λ _. "2026-04-01T00:00:00Z";
  started = pos 1;
  ended = pos 2;
}

plant-IsDelivered : All IsDelivered plant.orders
unfolding new_factory init_orders
plant-IsDelivered = (omega arith, (omega arith, (omega arith, (omega arith, tt))))

run_cycle_lem_example :
    let (w', result) = run_cycle draws plant in
    IsCycle plant w' result.product.status × (w'.current_product ≡ some result.product)
run_cycle_lem_example = run_cycle_lem draws plant plant-IsDelivered

abbrev order : CustomerOrder
order = record {
  order_id = "CO-001";
  customer = "HMC";
  quantity = 500;
  due_date = "2026-04-04";
  priority = OrderPriority.normal;
  fulfilled = 0;
  status = OrderStatus.«open»;
}

-- One unit in the warehouse, batches of three.
abbrev scenario : ScenarioConfig Fixed
scenario = record {
  press_sensors = [];
  warehouse_stock = 1;
  warehouse_safety_stock = 45;
  service_level_target = pos 9500;
  demand_std = pos 80000;
  leadtime_mean = pos 45000;
  leadtime_std = pos 20000;
  avg_demand_per_cycle = pos 40000;
  material_steel_stock = 850;
  shipment_interval = 2;
  shipment_batch_size = 3;
}

abbrev site : ManufacturingEnvironment Fixed
unfolding new_environment
site =
    new_environment plant
      (record {
        orders = order ∷ [];
        events = [];
        demand_history = [];
        forecast_history = [];
        forecast_errors = [];
        base_rate = pos 500000;
      })
      scenario

process_shipments_lem_example :
    let e' = process_shipments 4 site in
    (fulfilled_sum e'.demand.orders + site.warehouse.total_requested
      ≡ fulfilled_sum site.demand.orders + e'.warehouse.total_requested)
    × (e'.warehouse.stock + e'.warehouse.total_shipped
        ≡ site.warehouse.stock + site.warehouse.total_shipped)
    × ((4 % max 1 site.scenario.shipment_interval ≡ 0) ⊎ (e' ≡ site))
process_shipments_lem_example = process_shipments_lem 4 site
