-- ===== src/Domain/Plant/Snapshot.antt =====
-- mas/domain/environment.py: `get_snapshot`, the view of the plant that the agents sense. The header,
-- the clock, the sensors and the events of the snapshot are left out.
use manufacturing_mas.Prelude.{
  ℕ, String, Bool, Option, none, some, List, [], ◌∷◌, length, map, if◌then◌else◌,
}
use manufacturing_mas.Prelude.Int.{pos}
use manufacturing_mas.Prelude.Dict.{Dict}
use manufacturing_mas.Float.{Float}
use manufacturing_mas.Domain.Machines.WorkCenter.{WorkCenter, oee}
use manufacturing_mas.Domain.Plant.Stock.{
  Material, CustomerOrder, OrderPriority, WipBuffer, days_of_supply, needs_reorder, remaining,
  utilization,
}
use manufacturing_mas.Domain.Plant.Factory.{Factory, oee_sum, remaining_sum, delivered_sum}

pub record MaterialView (F : Type 0) : Type 0 where
  pub sku : String
  pub stock : ℕ
  pub safety_stock : ℕ
  pub days_supply : Option F
  pub needs_reorder : Bool
  pub on_order : ℕ
  pub supplier_id : String

pub record WipView (F : Type 0) : Type 0 where
  pub station_from : ℕ
  pub station_to : ℕ
  pub count : ℕ
  pub util : F

pub record OrderView : Type 0 where
  pub id : String
  pub customer : String
  pub qty : ℕ
  pub delivered : ℕ
  pub remaining : ℕ
  pub priority : OrderPriority

-- `stations` holds the overall effectiveness of each station.
pub record Snapshot (F : Type 0) : Type 0 where
  pub cycle : ℕ
  pub stations : Dict F
  pub fg_stock : ℕ
  pub total_produced : ℕ
  pub scrap_count : ℕ
  pub rework_count : ℕ
  pub total_demand : ℕ
  pub total_delivered : ℕ
  pub materials : Dict (MaterialView F)
  pub wip : List (WipView F)
  pub avg_oee : F
  pub orders : List OrderView

abbrev order_view : CustomerOrder → OrderView
unfolding remaining
order_view o = record {
  id = o.order_id;
  customer = o.customer;
  qty = o.quantity;
  delivered = o.delivered;
  remaining = remaining o;
  priority = o.priority;
}

module _ {F : Type 0} ⦃f : Float F⦄ where
  -- An infinite supply becomes None.
  unfoldable pub material_view : String → Material F → MaterialView F
  unfolding days_of_supply needs_reorder
  material_view name m =
      let ds = days_of_supply m in
      record {
        sku = name;
        stock = m.stock;
        safety_stock = m.safety_stock;
        days_supply = if f.is_finite ds then some (f.round ds 1) else none;
        needs_reorder = needs_reorder m;
        on_order = m.on_order;
        supplier_id = m.supplier;
      }

  unfoldable pub material_views : Dict (Material F) → Dict (MaterialView F)
  unfolding material_view
  material_views [] = []
  material_views ((name, m) ∷ rest) = (name, material_view name m) ∷ material_views rest

  wip_view : WipBuffer F → WipView F
  unfolding utilization
  wip_view b = record {
    station_from = b.station_from;
    station_to = b.station_to;
    count = length b.items;
    util = f.round (utilization b) 2;
  }

  station_oees : List (WorkCenter F) → Dict F
  unfolding oee
  station_oees [] = []
  station_oees (s ∷ rest) = (s.station_id, (oee s).oee) ∷ station_oees rest

  unfoldable pub get_snapshot : Factory F → Snapshot F
  unfolding material_views wip_view station_oees oee_sum remaining_sum delivered_sum order_view
  get_snapshot w = record {
    cycle = w.cycle;
    stations = station_oees w.line;
    fg_stock = w.fg_stock;
    total_produced = w.total_produced;
    scrap_count = w.scrap_count;
    rework_count = w.rework_count;
    total_demand = remaining_sum w.orders;
    total_delivered = delivered_sum w.orders;
    materials = material_views w.materials;
    wip = map wip_view w.wip_buffers;
    avg_oee = f.round (f.div (oee_sum (f.lit 0 0) w.line) (f.of_int (pos (length w.line)))) 4;
    orders = map order_view w.orders;
  }
