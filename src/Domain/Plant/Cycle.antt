-- ===== src/Domain/Plant/Cycle.antt =====
-- mas/domain/environment.py: `run_cycle` and what it calls. Random numbers, clocks and identifiers of
-- a cycle come in as `Draws`.
use Prim.Native.String.{◌++◌ as append}
use manufacturing_mas.Prelude.{
  ℕ, ◌+◌, ◌-◌, ◌*◌, ◌%◌, String, Bool, true, false, not, ◌&&◌, Option, none, some, List, [], ◌∷◌,
  ◌++◌, map, min, ltb, ◌==◌, if◌then◌else◌,
}
use manufacturing_mas.Prelude.Int.{pos}
use manufacturing_mas.Prelude.Dict.{Dict, insert}
use manufacturing_mas.Prelude.Decimal.{zero_padded}
use manufacturing_mas.Float.{Float, fmin}
use manufacturing_mas.Domain.Machines.Sensor.{Status, critical, warning}
use manufacturing_mas.Domain.Machines.WorkCenter.{
  WorkCenter, MachineState, breakdown, maintenance, Readings, execute_cycle, record_quality,
}
use manufacturing_mas.Domain.Plant.Shift.{ShiftInfo, current, advance, effective_factor}
use manufacturing_mas.Domain.Plant.Stock.{
  CustomerOrder, remaining, is_complete, Product, ProductStatus, in_process, good, rework, scrap,
  hold, consume_materials,
}
use manufacturing_mas.Domain.Plant.Events.{
  BusinessEventType, factory_tick, work_started, work_complete, inspection_verdict,
  quality_escalation, Value, text, number, flag, texts, emit,
}
use manufacturing_mas.Domain.Plant.Factory.{Factory, update_ambient, record_hourly}

-- `gauss i k` is draw `k` at station `i`, `verdict i` its inspection's; `shipped i` is a
-- `randint(1, 3)` for order `i`; events are numbered within the cycle.
pub record Draws (F : Type 0) : Type 0 where
  pub gauss : ℕ → ℕ → F → F
  pub verdict : ℕ → F
  pub repairable : F
  pub shipped : ℕ → ℕ
  pub material : ℕ → F
  pub temperature : F
  pub humidity : F
  pub event_id : ℕ → String
  pub wall : ℕ → String
  pub started : F
  pub ended : F

-- The objects that the loop over the stations changes, but for the stations.
pub record Pass (F : Type 0) : Type 0 where
  pub factory : Factory F
  pub product : Product F
  pub readings : Dict (Readings F)

-- What `run_cycle` returns.
pub record CycleResult (F : Type 0) : Type 0 where
  pub cycle : ℕ
  pub product : Product F
  pub readings : Dict (Readings F)
  pub shift : ShiftInfo F

abbrev pub is_down : MachineState → Bool
is_down breakdown = true
is_down maintenance = true
is_down _ = false

abbrev pub is_in_process : ProductStatus → Bool
is_in_process in_process = true
is_in_process _ = false

abbrev pub is_critical : Status → Bool
is_critical critical = true
is_critical _ = false

abbrev pub is_warning : Status → Bool
is_warning warning = true
is_warning _ = false

unfoldable pub status_value : ProductStatus → String
status_value in_process = "가공중"
status_value good = "양품"
status_value rework = "재작업"
status_value scrap = "폐기"
status_value hold = "보류"

module _ {F : Type 0} ⦃f : Float F⦄ where
  count_status : (Status → Bool) → Readings F → ℕ
  count_status test [] = 0
  count_status test ((_, r) ∷ rest) =
      let others = count_status test rest in if test r.status then others + 1 else others

  -- `defect_prob` of `_judge_quality`.
  unfoldable pub defect_prob : WorkCenter F → Readings F → F
  unfolding count_status
  defect_prob s readings =
      let bad_count = f.of_int (pos (count_status is_critical readings)) in
      let warn_count = f.of_int (pos (count_status is_warning readings)) in
      let from_sensors = f.add (f.mul bad_count (f.lit 4 1)) (f.mul warn_count (f.lit 8 2)) in
      fmin (f.lit 8 1) (f.add from_sensors (f.mul s.tool.wear_rate (f.lit 5 2)))

  unfoldable pub judge_quality : F → WorkCenter F → Readings F → Bool
  unfolding defect_prob
  judge_quality draw s readings = f.lt (defect_prob s readings) draw

  unfoldable pub log :
      Draws F
      → ℕ
      → BusinessEventType
      → Dict Value
      → Option String
      → Option String
      → Factory F
      → Factory F
  unfolding emit
  log d k kind payload station_id lot_id w = record w {
    event_store = emit w.event_store (record {
      event_id = d.event_id k;
      event_type = kind;
      logical_cycle = w.cycle;
      sim_time_sec = w.sim_time_sec;
      event_time_wall_iso = d.wall k;
      payload = payload;
      station_id = station_id;
      lot_id = lot_id;
      sku = none;
    });
  }

  -- A station in breakdown or maintenance: the product is put on hold and the loop ends.
  unfoldable pub halt : WorkCenter F → Pass F → Pass F
  halt s p = record p {
    product = record p.product {
      status = hold;
      defect_codes = p.product.defect_codes ++ append s.station_id "_정지" ∷ [];
    };
  }

  abbrev values : Readings F → Dict F
  values = map (λ r. (r.0, r.1.value))

  -- The cycle and the inspection at a station that is not down: the station, the verdict, the rest.
  unfoldable pub inspect :
      Draws F → ShiftInfo F → ℕ → WorkCenter F → Pass F → WorkCenter F × Bool × Pass F
  unfolding execute_cycle record_quality judge_quality log effective_factor insert
  inspect d shift idx s p =
      let (ran, readings) =
        execute_cycle (d.gauss idx) s (effective_factor shift) p.factory.ambient_temp in
      let is_good = judge_quality (d.verdict idx) ran readings in
      (
        record_quality ran is_good,
        is_good,
        record {
          factory =
              log d (2 + 2 * idx) inspection_verdict
                (("serial", text p.product.serial)
                  ∷ ("station", text s.station_id)
                  ∷ ("pass", flag is_good)
                  ∷ [])
                (some s.station_id) (some p.product.lot) p.factory;
          product = record p.product {
            measurements = insert s.station_id (values readings) p.product.measurements;
            current_station = idx;
          };
          readings = insert s.station_id readings p.readings;
        },
      )

  -- A product that failed its inspection is reworked or scrapped.
  unfoldable pub reject : Draws F → ℕ → WorkCenter F → Pass F → Pass F
  unfolding log status_value
  reject d idx s p =
      let repairable = f.lt d.repairable (f.lit 3 1) in
      let w = p.factory in
      let product : _ =
        if repairable
        then record p.product {
          status = rework;
          defect_codes = p.product.defect_codes ++ append s.station_id "_재작업" ∷ [];
        }
        else record p.product {
          status = scrap;
          defect_codes = p.product.defect_codes ++ append s.station_id "_폐기" ∷ [];
        } in
      let counted =
        if repairable
        then record w { rework_count = w.rework_count + 1 }
        else record w { scrap_count = w.scrap_count + 1 } in
      record p {
        product = product;
        factory =
            log d (3 + 2 * idx) quality_escalation
              (("serial", text product.serial)
                ∷ ("status", text (status_value product.status))
                ∷ ("defect_codes", texts product.defect_codes)
                ∷ [])
              (some s.station_id) (some product.lot) counted;
      }

  -- The loop over the stations.
  unfoldable pub pass :
      Draws F → ShiftInfo F → ℕ → List (WorkCenter F) → Pass F → List (WorkCenter F) × Pass F
  unfolding inspect reject halt
  pass d shift idx [] p = ([], p)
  pass d shift idx (s ∷ rest) p = elim (is_down s.state) [
    | true ↦ (s ∷ rest, halt s p)
    | false ↦
        let (s', is_good, p') = inspect d shift idx s p in
        elim (not is_good && is_in_process p'.product.status) [
          | true ↦ (s' ∷ rest, reject d idx s' p')
          | false ↦ let (others, last) = pass d shift (idx + 1) rest p' in (s' ∷ others, last)
        ]
  ]

-- What one order gets of the stock; `draw` is the random batch.
unfoldable pub shipment : ℕ → ℕ → CustomerOrder → ℕ
unfolding is_complete remaining
shipment draw stock o =
    if is_complete o then 0 else if ltb 0 stock then min (min draw stock) (remaining o) else 0

-- `_process_shipments`: the stock that is left, and the orders.
unfoldable pub process_shipments : (ℕ → ℕ) → ℕ → ℕ → List CustomerOrder → ℕ × List CustomerOrder
unfolding shipment
process_shipments draw i stock [] = (stock, [])
process_shipments draw i stock (o ∷ os) =
    let ship = shipment (draw i) stock o in
    let (left, others) = process_shipments draw (i + 1) (stock - ship) os in
    (left, record o { delivered = o.delivered + ship } ∷ others)

module _ {F : Type 0} ⦃f : Float F⦄ where
  -- A product that is still in process after the loop is good.
  unfoldable pub finish : Draws F → Product F → Factory F → Product F × Factory F
  unfolding log process_shipments
  finish d product w =
      if is_in_process product.status
      then (let done = record product { status = good; end_time = some d.ended } in
          let stocked = record w {
            fg_stock = w.fg_stock + 1;
            total_produced = w.total_produced + 1;
            finished_goods = w.finished_goods ++ done ∷ [];
          } in
          let logged =
            log d 100 work_complete
              (("serial", text done.serial) ∷ ("lot", text done.lot) ∷ ("status", text "GOOD") ∷ [])
              none (some done.lot) stocked in
          let (left, orders) = process_shipments d.shipped 0 logged.fg_stock logged.orders in
          (done, record logged { fg_stock = left; orders = orders }))
      else (product, w)

  -- `self.line[0].cycle_time_sec`; the line is never empty.
  abbrev first_cycle_time : List (WorkCenter F) → F
  first_cycle_time [] = f.lit 0 0
  first_cycle_time (s ∷ _) = s.cycle_time_sec

  -- The counters, the shift and the climate move on, and a product is started.
  unfoldable pub start : Draws F → Factory F → Product F × Factory F
  unfolding advance update_ambient log zero_padded
  start d w =
      let ticked = update_ambient d.temperature d.humidity (record w {
        cycle = w.cycle + 1;
        sim_time_sec = f.add w.sim_time_sec (first_cycle_time w.line);
        shift_mgr = advance w.shift_mgr;
      }) in
      let told = log d 0 factory_tick (("cycle", number ticked.cycle) ∷ []) none none ticked in
      let n = told.product_counter + 1 in
      let lot_counter = if n % 200 == 1 then told.lot_counter + 1 else told.lot_counter in
      let product : _ = record {
        serial = append "SN-" (zero_padded 6 n);
        lot = append "LOT-" (zero_padded 4 lot_counter);
        current_station = 0;
        status = in_process;
        measurements = [];
        start_time = d.started;
        end_time = none;
        defect_codes = [];
      } in
      (
        product,
        log d 1 work_started (("serial", text product.serial) ∷ ("lot", text product.lot) ∷ []) none
            (some product.lot) (record told { product_counter = n; lot_counter = lot_counter }),
      )

  unfoldable pub run_cycle : Draws F → Factory F → Factory F × CycleResult F
  unfolding start current pass finish consume_materials record_hourly
  run_cycle d w =
      let shift = current w.shift_mgr in
      let (product, started) = start d w in
      let (line, p) =
        pass d shift 0 started.line
          (record { factory = started; product = product; readings = [] }) in
      let (done, finished) = finish d p.product (record p.factory { line = line }) in
      let w' = record_hourly (record finished {
        materials = consume_materials d.material 0 finished.materials;
        current_product = some done;
      }) in
      (w', record { cycle = w'.cycle; product = done; readings = p.readings; shift = shift })
