-- ===== src/Domain/Plant/Factory.antt =====
-- mas/domain/environment.py: the state of `Factory`, its start and its reports. The creation time of
-- the factory, which nothing reads, is left out.
use Prim.Native.String.{◌++◌ as append}
use manufacturing_mas.Prelude.{
  ℕ, ◌+◌, ◌*◌, ◌%◌, String, Option, none, List, [], ◌∷◌, ◌++◌, ltb, ◌==◌, if◌then◌else◌, length,
}
use manufacturing_mas.Prelude.Int.{pos}
use manufacturing_mas.Prelude.Dict.{Dict}
use manufacturing_mas.Prelude.Decimal.{zero_padded}
use manufacturing_mas.Float.{Float, fmax, fmin}
use manufacturing_mas.Domain.Machines.WorkCenter.{WorkCenter, oee}
use manufacturing_mas.Domain.Machines.Line.{create_production_line}
use manufacturing_mas.Domain.Plant.Shift.{ShiftManager, new_shift_manager}
use manufacturing_mas.Domain.Plant.Stock.{
  Material, CustomerOrder, urgent, normal, Product, WipBuffer, remaining,
}
use manufacturing_mas.Domain.Plant.Events.{BusinessEventStore, new_event_store}

pub record Factory (F : Type 0) : Type 0 where
  pub line : List (WorkCenter F)
  pub wip_buffers : List (WipBuffer F)
  pub finished_goods : List (Product F)
  pub fg_stock : ℕ
  pub scrap_count : ℕ
  pub rework_count : ℕ
  pub total_produced : ℕ
  pub shift_mgr : ShiftManager
  pub materials : Dict (Material F)
  pub orders : List CustomerOrder
  pub ambient_temp : F
  pub humidity : F
  pub cycle : ℕ
  pub sim_time_sec : F
  pub hourly_yield : List F
  pub hourly_oee : List F
  pub hourly_throughput : List ℕ
  pub current_product : Option (Product F)
  pub product_counter : ℕ
  pub lot_counter : ℕ
  pub event_store : BusinessEventStore F

abbrev customers : List (String × String)
customers = ("현대자동차", "HMC") ∷ ("기아자동차", "KIA") ∷ ("GM코리아", "GMK") ∷ ("르노코리아", "RNK") ∷ []

-- `quantity i` is the random quantity of order `i`.
unfoldable pub init_orders : (ℕ → ℕ) → ℕ → List (String × String) → List CustomerOrder
unfolding zero_padded
init_orders quantity i [] = []
init_orders quantity i ((name, code) ∷ rest) =
    record {
      order_id = append "PO-" (
          append code
            (append "-" (append (zero_padded 4 2026) (append "-" (zero_padded 3 (i + 1))))));
      customer = name;
      part = "BRK-PAD-2026A";
      quantity = quantity i;
      due_date = append "2026-04-" (zero_padded 2 (10 + i * 3));
      priority = if i == 0 then urgent else normal;
      delivered = 0;
    }
    ∷ init_orders quantity (i + 1) rest

module _ {F : Type 0} ⦃f : Float F⦄ where
  new_material : String → ℕ → ℕ → F → F → F → String → Material F
  new_material name stock safety_stock consumption lead_time cost supplier = record {
    name = name;
    stock = stock;
    safety_stock = safety_stock;
    consumption_per_unit = consumption;
    lead_time_days = lead_time;
    unit_cost = cost;
    supplier = supplier;
    on_order = 0;
  }

  new_buffer : ℕ → WipBuffer F
  new_buffer i = record { station_from = i; station_to = i + 1; items = []; max_capacity = 30 }

  -- The two numbers are the random parts of the temperature and the humidity.
  unfoldable pub new_factory : (ℕ → ℕ) → F → F → Factory F
  unfolding new_material new_buffer init_orders create_production_line new_shift_manager
      new_event_store
  new_factory quantity temperature humidity = record {
    line = create_production_line;
    wip_buffers = new_buffer 0 ∷ new_buffer 1 ∷ new_buffer 2 ∷ new_buffer 3 ∷ new_buffer 4 ∷ [];
    finished_goods = [];
    fg_stock = 0;
    scrap_count = 0;
    rework_count = 0;
    total_produced = 0;
    shift_mgr = new_shift_manager;
    materials =
        ("강판", new_material "SPCC 강판 2.3t" 5000 1000 (f.lit 10 1) (f.lit 30 1) (f.lit 2500 0) "포스코")
        ∷ ("용접봉", new_material "용접봉 Φ1.2" 8000 2000 (f.lit 40 1) (f.lit 20 1) (f.lit 150 0) "대동금속")
        ∷ ("볼트", new_material "M8 볼트 세트" 12000 3000 (f.lit 60 1) (f.lit 15 1) (f.lit 80 0) "삼성볼트")
        ∷ ("도장", new_material "전착 도료 15L" 200 40 (f.lit 5 2) (f.lit 50 1) (f.lit 45000 0) "KCC")
        ∷ ("절삭유", new_material "수용성 절삭유" 500 100 (f.lit 2 2) (f.lit 40 1) (f.lit 12000 0) "한화솔루션")
        ∷ [];
    orders = init_orders quantity 0 customers;
    ambient_temp = f.add (f.lit 220 1) temperature;
    humidity = f.add (f.lit 550 1) humidity;
    cycle = 0;
    sim_time_sec = f.lit 0 1;
    hourly_yield = [];
    hourly_oee = [];
    hourly_throughput = [];
    current_product = none;
    product_counter = 0;
    lot_counter = 1;
    event_store = new_event_store 2500;
  }

  unfoldable pub update_ambient : F → F → Factory F → Factory F
  update_ambient temperature humidity w = record w {
    ambient_temp = fmax (f.lit 15 0) (fmin (f.lit 35 0) (f.add w.ambient_temp temperature));
    humidity = fmax (f.lit 30 0) (fmin (f.lit 80 0) (f.add w.humidity humidity));
  }

  unfoldable pub good_sum : List (WorkCenter F) → ℕ
  good_sum [] = 0
  good_sum (s ∷ rest) = s.good_count + good_sum rest

  unfoldable pub judged_sum : List (WorkCenter F) → ℕ
  judged_sum [] = 0
  judged_sum (s ∷ rest) = s.good_count + s.defect_count + judged_sum rest

  unfoldable pub oee_sum : F → List (WorkCenter F) → F
  unfolding oee
  oee_sum acc [] = acc
  oee_sum acc (s ∷ rest) = oee_sum (f.add acc (oee s).oee) rest

  unfoldable pub record_hourly : Factory F → Factory F
  unfolding good_sum judged_sum oee_sum
  record_hourly w =
      let total = judged_sum w.line in
      let yield_now =
        if ltb 0 total
        then f.div (f.of_int (pos (good_sum w.line))) (f.of_int (pos total))
        else f.lit 10 1 in
      let mean_oee = f.div (oee_sum (f.lit 0 0) w.line) (f.of_int (pos (length w.line))) in
      if w.cycle % 40 == 0
      then record w {
        hourly_yield = w.hourly_yield ++ yield_now ∷ [];
        hourly_oee = w.hourly_oee ++ mean_oee ∷ [];
        hourly_throughput = w.hourly_throughput ++ w.total_produced ∷ [];
      }
      else w

unfoldable pub remaining_sum : List CustomerOrder → ℕ
unfolding remaining
remaining_sum [] = 0
remaining_sum (o ∷ os) = remaining o + remaining_sum os

unfoldable pub delivered_sum : List CustomerOrder → ℕ
delivered_sum [] = 0
delivered_sum (o ∷ os) = o.delivered + delivered_sum os
