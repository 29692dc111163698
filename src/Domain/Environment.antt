-- ===== src/Domain/Environment.antt =====
-- mas/domain/manufacturing_env.py: the factory with its warehouse and its customers' demand, and the
-- settings of mas/scenario/loader.py that it takes.
use manufacturing_mas.Prelude.{
  ℕ, ◌+◌, ◌-◌, ◌%◌, ◌≡◌, refl, ◌∙◌, ◌⊎◌, inl, inr, not, ◌||◌, List, [], ◌∷◌, arith, min, max, ltb,
  ◌==◌, if◌then◌else◌, none, some, Bool-cases,
}
use manufacturing_mas.Prelude.Dict.{Dict, lookup, insert}
use manufacturing_mas.Domain.Machines.Sensor.{RealisticSensor}
use manufacturing_mas.Domain.Inventory
use manufacturing_mas.Domain.Inventory.{FinishedGoodsWarehouse}
use manufacturing_mas.Domain.Demand.{CustomerOrder, DemandModel, remaining, is_open}
use manufacturing_mas.Domain.Demand
use manufacturing_mas.Domain.Plant.Factory.{Factory}

pub record SensorConfig (F : Type 0) : Type 0 where
  pub baseline : F
  pub noise_std : F
  pub drift_rate : F

-- The settings that the environment reads.
pub record ScenarioConfig (F : Type 0) : Type 0 where
  pub press_sensors : Dict (SensorConfig F)
  pub warehouse_stock : ℕ
  pub warehouse_safety_stock : ℕ
  pub service_level_target : F
  pub demand_std : F
  pub leadtime_mean : F
  pub leadtime_std : F
  pub avg_demand_per_cycle : F
  pub material_steel_stock : ℕ
  pub shipment_interval : ℕ
  pub shipment_batch_size : ℕ

pub record ManufacturingEnvironment (F : Type 0) : Type 0 where
  pub scenario : ScenarioConfig F
  pub factory : Factory F
  pub warehouse : FinishedGoodsWarehouse F
  pub demand : DemandModel F

module _ {F : Type 0} where
  unfoldable pub apply_scenario_materials : ScenarioConfig F → Factory F → Factory F
  unfolding lookup insert
  apply_scenario_materials sc w = elim (lookup "강판" w.materials) [
    | none ↦ w
    | some m ↦ record w {
      materials = insert "강판" (record m { stock = sc.material_steel_stock }) w.materials;
    }
  ]

  set_baselines : Dict (SensorConfig F) → Dict (RealisticSensor F) → Dict (RealisticSensor F)
  unfolding lookup insert
  set_baselines [] sensors = sensors
  set_baselines ((name, cfg) ∷ rest) sensors = set_baselines rest (elim (lookup name sensors) [
    | none ↦ sensors
    | some s ↦ insert name (record s { baseline = cfg.baseline; value = cfg.baseline }) sensors
  ])

  -- Only the press, the first station, is set.
  unfoldable pub apply_scenario_sensors : ScenarioConfig F → Factory F → Factory F
  unfolding set_baselines
  apply_scenario_sensors sc w = elim w.line [
    | [] ↦ w
    | press ∷ rest ↦ record w {
      line = record press { sensors = set_baselines sc.press_sensors press.sensors } ∷ rest;
    }
  ]

  unfoldable pub new_environment :
      Factory F → DemandModel F → ScenarioConfig F → ManufacturingEnvironment F
  unfolding apply_scenario_materials apply_scenario_sensors
  new_environment factory demand sc = record {
    scenario = sc;
    factory = apply_scenario_sensors sc (apply_scenario_materials sc factory);
    warehouse = record {
      stock = sc.warehouse_stock;
      safety_stock = sc.warehouse_safety_stock;
      service_level_target = sc.service_level_target;
      demand_std = sc.demand_std;
      leadtime_mean = sc.leadtime_mean;
      leadtime_std = sc.leadtime_std;
      avg_demand_per_cycle = sc.avg_demand_per_cycle;
      stock_history = [];
      ss_history = [];
      service_level_history = [];
      shipments = [];
      total_requested = 0;
      total_shipped = 0;
    };
    demand = demand;
  }

  unfoldable pub on_good_finished_unit : ManufacturingEnvironment F → ManufacturingEnvironment F
  unfolding Inventory.receive
  on_good_finished_unit e = record e {
    warehouse = Inventory.receive e.warehouse 1;
    factory =
        if ltb 0 e.factory.fg_stock
        then record e.factory { fg_stock = e.factory.fg_stock - 1 }
        else e.factory;
  }

  -- One open order: the warehouse ships what it has, the order is credited with the whole batch.
  unfoldable pub ship_order :
      ScenarioConfig F
      → ℕ
      → FinishedGoodsWarehouse F
      → CustomerOrder
      → FinishedGoodsWarehouse F × CustomerOrder
  unfolding is_open remaining Inventory.ship Demand.ship
  ship_order sc cycle w o =
      let qty = min sc.shipment_batch_size (remaining o) in
      if not (is_open o) || remaining o == 0 || qty == 0
      then (w, o)
      else ((Inventory.ship w o.customer qty cycle).0, (Demand.ship o qty).0)

  unfoldable pub ship_orders :
      ScenarioConfig F
      → ℕ
      → FinishedGoodsWarehouse F
      → List CustomerOrder
      → FinishedGoodsWarehouse F × List CustomerOrder
  unfolding ship_order
  ship_orders sc cycle w [] = (w, [])
  ship_orders sc cycle w (o ∷ os) =
      let (w', o') = ship_order sc cycle w o in
      let (last, others) = ship_orders sc cycle w' os in (last, o' ∷ others)

  unfoldable pub process_shipments : ℕ → ManufacturingEnvironment F → ManufacturingEnvironment F
  unfolding ship_orders
  process_shipments cycle e =
      let (w, orders) = ship_orders e.scenario cycle e.warehouse e.demand.orders in
      if cycle % max 1 e.scenario.shipment_interval == 0
      then record e { warehouse = w; demand = record e.demand { orders = orders } }
      else e

abbrev pub fulfilled_sum : List CustomerOrder → ℕ
fulfilled_sum [] = 0
fulfilled_sum (o ∷ os) = o.fulfilled + fulfilled_sum os

module _ {F : Type 0} where
  ship_order_lem :
      (sc : ScenarioConfig F) (cycle : ℕ) (w : FinishedGoodsWarehouse F) (o : CustomerOrder)
      → let (w', o') = ship_order sc cycle w o in
        (o'.fulfilled + w.total_requested ≡ o.fulfilled + w'.total_requested)
        × (w'.stock + w'.total_shipped ≡ w.stock + w.total_shipped)
  unfolding ship_order remaining Inventory.ship Demand.ship
  ship_order_lem sc cycle w o =
      elim (Bool-cases
        (not (is_open o) || remaining o == 0 || min sc.shipment_batch_size (remaining o) == 0)) [
          | inl skipped ↦ rw (skipped, ship_order) (refl, refl)
          | inr due ↦ rw (due, ship_order) (omega arith, omega arith)
        ]

  ship_orders_lem :
      (sc : ScenarioConfig F) (cycle : ℕ) (w : FinishedGoodsWarehouse F) (os : List CustomerOrder)
      → let (w', os') = ship_orders sc cycle w os in
        (fulfilled_sum os' + w.total_requested ≡ fulfilled_sum os + w'.total_requested)
        × (w'.stock + w'.total_shipped ≡ w.stock + w.total_shipped)
  unfolding ship_orders
  ship_orders_lem sc cycle w [] = (refl, refl)
  ship_orders_lem sc cycle w (o ∷ os) =
      let (w', o') = ship_order sc cycle w o in
      let (one, one_stock) = ship_order_lem sc cycle w o in
      let (rest, rest_stock) = ship_orders_lem sc cycle w' os in
      (omega (arith, one, rest), rest_stock ∙ one_stock)

  -- What the customers' orders are credited with is what was requested from the warehouse, not what it
  -- shipped: the credit and the requests grow by the same amount, while the stock falls by the shipped
  -- units only. In a cycle that is no multiple of the shipment interval nothing changes.
  pub process_shipments_lem :
      (cycle : ℕ) (e : ManufacturingEnvironment F)
      → let e' = process_shipments cycle e in
        (fulfilled_sum e'.demand.orders + e.warehouse.total_requested
          ≡ fulfilled_sum e.demand.orders + e'.warehouse.total_requested)
        × (e'.warehouse.stock + e'.warehouse.total_shipped
            ≡ e.warehouse.stock + e.warehouse.total_shipped)
        × ((cycle % max 1 e.scenario.shipment_interval ≡ 0) ⊎ (e' ≡ e))
  unfolding process_shipments
  process_shipments_lem cycle e =
      elim (Bool-cases (cycle % max 1 e.scenario.shipment_interval == 0)) [
        | inl due ↦
            let (credit, stock) = ship_orders_lem e.scenario cycle e.warehouse e.demand.orders in
            rw (due, process_shipments) (credit, stock, inl (ground (arith, due)))
        | inr wait ↦ rw (wait, process_shipments) (refl, refl, inr refl)
      ]
