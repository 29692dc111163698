-- ===== src/Domain/Plant/Stock.antt =====
-- mas/domain/environment.py: materials, the factory's own customer orders, products and the buffers
-- between stations. The stock of a material is never negative in the program.
use manufacturing_mas.Prelude.{
  ℕ, ◌+◌, ◌-◌, String, Bool, Option, none, some, List, [], ◌∷◌, ◌++◌, ltb, leb, if◌then◌else◌,
  length,
}
use manufacturing_mas.Prelude.Int.{ℤ, pos, pos_part, ◌-ℤ◌, ◌+ℤ◌}
use manufacturing_mas.Prelude.Dict.{Dict}
use manufacturing_mas.Float.{Float}

pub record Material (F : Type 0) : Type 0 where
  pub name : String
  pub stock : ℕ
  pub safety_stock : ℕ
  pub consumption_per_unit : F
  pub lead_time_days : F
  pub unit_cost : F
  pub supplier : String
  pub on_order : ℕ

module _ {F : Type 0} ⦃f : Float F⦄ where
  unfoldable pub days_of_supply : Material F → F
  days_of_supply m =
      let daily_usage = f.mul m.consumption_per_unit (f.lit 400 0) in
      if f.lt (f.lit 0 0) daily_usage
      then f.div (f.of_int (pos m.stock)) daily_usage
      else f.infinity

  unfoldable pub needs_reorder : Material F → Bool
  needs_reorder m =
      f.le (f.of_int (pos m.stock)) (f.mul (f.of_int (pos m.safety_stock)) (f.lit 15 1))

  -- The units that one cycle takes: the whole part, and one more with the fraction as probability.
  unfoldable pub consumed : F → Material F → ℤ
  consumed draw m =
      let whole = f.int m.consumption_per_unit in
      let remainder = f.sub m.consumption_per_unit (f.of_int whole) in
      if f.lt draw remainder then whole +ℤ pos 1 else whole

  -- The loop over the materials of `_consume_materials`: draw `i` is that of the material at place `i`.
  unfoldable pub consume_materials : (ℕ → F) → ℕ → Dict (Material F) → Dict (Material F)
  unfolding consumed
  consume_materials draw i [] = []
  consume_materials draw i ((name, m) ∷ rest) =
      (name, record m { stock = pos_part (pos m.stock -ℤ consumed (draw i) m) })
      ∷ consume_materials draw (i + 1) rest

pub data OrderPriority : Type 0 where
  urgent normal low : OrderPriority

pub record CustomerOrder : Type 0 where
  pub order_id : String
  pub customer : String
  pub part : String
  pub quantity : ℕ
  pub due_date : String
  pub priority : OrderPriority
  pub delivered : ℕ

unfoldable pub remaining : CustomerOrder → ℕ
remaining o = o.quantity - o.delivered

unfoldable pub is_complete : CustomerOrder → Bool
is_complete o = leb o.quantity o.delivered

pub data ProductStatus : Type 0 where
  in_process good rework scrap hold : ProductStatus

-- `measurements` maps a station to the values of its sensors.
pub record Product (F : Type 0) : Type 0 where
  pub serial : String
  pub lot : String
  pub current_station : ℕ
  pub status : ProductStatus
  pub measurements : Dict (Dict F)
  pub start_time : F
  pub end_time : Option F
  pub defect_codes : List String

pub record WipBuffer (F : Type 0) : Type 0 where
  pub station_from : ℕ
  pub station_to : ℕ
  pub items : List (Product F)
  pub max_capacity : ℕ

module _ {F : Type 0} where
  -- A full buffer drops the product without a word.
  unfoldable pub push : WipBuffer F → Product F → WipBuffer F
  push b product =
      if ltb (length b.items) b.max_capacity
      then record b { items = b.items ++ product ∷ [] }
      else b

  unfoldable pub pop : WipBuffer F → WipBuffer F × Option (Product F)
  pop b = elim b.items [ [] ↦ (b, none) | p ∷ rest ↦ (record b { items = rest }, some p) ]

module _ {F : Type 0} ⦃f : Float F⦄ where
  unfoldable pub utilization : WipBuffer F → F
  utilization b =
      if ltb 0 b.max_capacity
      then f.div (f.of_int (pos (length b.items))) (f.of_int (pos b.max_capacity))
      else f.lit 0 0
