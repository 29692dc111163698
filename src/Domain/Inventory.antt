-- ===== src/Domain/Inventory.antt =====
-- mas/domain/inventory.py: the finished goods warehouse. Quantities are never negative in the program,
-- so they are naturals; `stock -= actual` cannot go below zero, which `ship_lem` shows.
pub mod Balance
use manufacturing_mas.Prelude.{
  ℕ, ◌+◌, ◌-◌, String, Bool, List, [], ◌∷◌, ◌++◌, ltb, ◌==◌, if◌then◌else◌, min,
}
use manufacturing_mas.Prelude.Int.{ℤ, pos, pos_part, sub_ℕ, max_ℤ}
use manufacturing_mas.Float.{Float, fmax, fmin, neg}

pub record ShipmentRecord : Type 0 where
  pub cycle : ℕ
  pub customer : String
  pub requested : ℕ
  pub shipped : ℕ
  pub shortfall : ℕ

pub record FinishedGoodsWarehouse (F : Type 0) : Type 0 where
  pub stock : ℕ
  pub safety_stock : ℕ
  pub service_level_target : F
  pub demand_std : F
  pub leadtime_mean : F
  pub leadtime_std : F
  pub avg_demand_per_cycle : F
  pub stock_history : List ℕ
  pub ss_history : List ℕ
  pub service_level_history : List F
  pub shipments : List ShipmentRecord
  pub total_requested : ℕ
  pub total_shipped : ℕ

pub record WarehouseSnapshot (F : Type 0) : Type 0 where
  pub stock : ℕ
  pub safety_stock : ℕ
  pub service_level : F
  pub ss_breach : Bool
  pub stock_above_ss : ℤ
  pub total_requested : ℕ
  pub total_shipped : ℕ

module _ {F : Type 0} where
  unfoldable pub receive : FinishedGoodsWarehouse F → ℕ → FinishedGoodsWarehouse F
  receive w qty = record w { stock = w.stock + qty }

  -- The new state and the quantity that was shipped.
  unfoldable pub ship : FinishedGoodsWarehouse F → String → ℕ → ℕ → FinishedGoodsWarehouse F × ℕ
  ship w customer qty cycle =
      let actual = min qty w.stock in
      let shortfall = qty - actual in
      (
        record w {
          stock = w.stock - actual;
          total_requested = w.total_requested + qty;
          total_shipped = w.total_shipped + actual;
          shipments =
              w.shipments
              ++ record {
                cycle = cycle;
                customer = customer;
                requested = qty;
                shipped = actual;
                shortfall = shortfall;
              }
                ∷ [];
        },
        actual,
      )

  unfoldable pub stock_above_ss : FinishedGoodsWarehouse F → ℤ
  stock_above_ss w = sub_ℕ w.stock w.safety_stock

  unfoldable pub ss_breach : FinishedGoodsWarehouse F → Bool
  ss_breach w = ltb w.stock w.safety_stock

module _ {F : Type 0} ⦃f : Float F⦄ where
  unfoldable pub service_level : FinishedGoodsWarehouse F → F
  service_level w =
      if w.total_requested == 0
      then f.lit 1 0
      else f.round (f.div (f.of_int (pos w.total_shipped)) (f.of_int (pos w.total_requested))) 4

  -- The rational approximation of the normal quantile.
  unfoldable pub z_score : F → F
  z_score level =
      let p = fmax (f.lit 50 2) (fmin (f.lit 999 3) level) in
      let t = f.sqrt (f.mul (neg (f.lit 20 1)) (f.log (f.sub (f.lit 10 1) p))) in
      let c0 = f.lit 2515517 6 in
      let c1 = f.lit 802853 6 in
      let c2 = f.lit 10328 6 in
      let d1 = f.lit 1432788 6 in
      let d2 = f.lit 189269 6 in
      let d3 = f.lit 1308 6 in
      let top = f.add (f.add c0 (f.mul c1 t)) (f.mul (f.mul c2 t) t) in
      let bottom =
        f.add (f.add (f.add (f.lit 1 0) (f.mul d1 t)) (f.mul (f.mul d2 t) t))
          (f.mul (f.mul (f.mul d3 t) t) t) in
      f.round (f.sub t (f.div top bottom)) 4

  -- SS = z * sqrt(LT * sigma_D^2 + d_avg^2 * sigma_LT^2), at least 5. The report of the inputs is left
  -- out.
  unfoldable pub recalculate_safety_stock : FinishedGoodsWarehouse F → FinishedGoodsWarehouse F
  unfolding z_score
  recalculate_safety_stock w =
      let z = z_score w.service_level_target in
      let demand_component = f.mul w.leadtime_mean (f.mul w.demand_std w.demand_std) in
      let supply_component =
        f.mul (f.mul w.avg_demand_per_cycle w.avg_demand_per_cycle)
          (f.mul w.leadtime_std w.leadtime_std) in
      let ss_raw = f.mul z (f.sqrt (f.add demand_component supply_component)) in
      record w { safety_stock = pos_part (max_ℤ (pos 5) (f.round_int ss_raw)) }

  unfoldable pub record_snapshot : FinishedGoodsWarehouse F → FinishedGoodsWarehouse F
  unfolding service_level
  record_snapshot w = record w {
    stock_history = w.stock_history ++ w.stock ∷ [];
    ss_history = w.ss_history ++ w.safety_stock ∷ [];
    service_level_history = w.service_level_history ++ service_level w ∷ [];
  }

  unfoldable pub get_snapshot : FinishedGoodsWarehouse F → WarehouseSnapshot F
  unfolding service_level ss_breach stock_above_ss
  get_snapshot w = record {
    stock = w.stock;
    safety_stock = w.safety_stock;
    service_level = service_level w;
    ss_breach = ss_breach w;
    stock_above_ss = stock_above_ss w;
    total_requested = w.total_requested;
    total_shipped = w.total_shipped;
  }
