-- ===== src/Domain/Plant/Outcome.antt =====
-- mas/domain/environment.py: what a cycle does to the product and to the counters.
use manufacturing_mas.Prelude.{
  ℕ, ◌+◌, ◌-◌, ◌≤◌, ◌≡◌, refl, ap, ◌∙◌, inl, inr, not, ◌&&◌, List, [], ◌∷◌, arith, Bool-cases, All,
  some, ◌==◌, ◌%◌,
}
use manufacturing_mas.Float.{Float}
use manufacturing_mas.Domain.Machines.WorkCenter.{WorkCenter}
use manufacturing_mas.Domain.Plant.Shift.{ShiftInfo, current}
use manufacturing_mas.Domain.Plant.Stock.{
  CustomerOrder, ProductStatus, in_process, good, rework, scrap, hold, is_complete, remaining,
  Product, consume_materials,
}
use manufacturing_mas.Domain.Plant.Factory.{Factory, delivered_sum, record_hourly, update_ambient}
use manufacturing_mas.Domain.Plant.Cycle.{
  Draws, Pass, is_down, is_in_process, pass, inspect, reject, halt, finish, start,
  process_shipments, shipment, log, run_cycle,
}

-- No order got more than it asked for.
abbrev pub IsDelivered : CustomerOrder → Type 0
IsDelivered o = o.delivered ≤ o.quantity

shipment-le :
    (draw stock : ℕ) (o : CustomerOrder)
    → (shipment draw stock o ≤ stock) × (shipment draw stock o ≤ o.quantity - o.delivered)
unfolding shipment is_complete remaining
shipment-le draw stock o = (ground arith, ground arith)

process_shipments_lem :
    (draw : ℕ → ℕ) (i stock : ℕ) (os : List CustomerOrder)
    → All IsDelivered os
    → let (left, os') = process_shipments draw i stock os in
      (left + delivered_sum os' ≡ stock + delivered_sum os) × All IsDelivered os'
unfolding process_shipments delivered_sum
process_shipments_lem draw i stock [] h = (refl, tt)
process_shipments_lem draw i stock (o ∷ os) (one, h) =
    let ship = shipment (draw i) stock o in
    let (from_stock, missing) = shipment-le (draw i) stock o in
    let (kept, all) = process_shipments_lem draw (i + 1) (stock - ship) os h in
    (omega (arith, kept, from_stock), (omega (arith, missing, one), all))

-- What the counters of two states say of the product between them: nothing is counted for a product
-- on hold, and one unit is counted as produced, scrapped or reworked for any other. After the cycle no
-- product is still in process.
pub record Counts : Type 0 where
  pub produced : ℕ
  pub scrapped : ℕ
  pub reworked : ℕ

abbrev pub Outcome : ProductStatus → Counts → Counts → Type 0
Outcome in_process b a = ⊥
Outcome good b a =
    (a.produced ≡ b.produced + 1) × (a.scrapped ≡ b.scrapped) × (a.reworked ≡ b.reworked)
Outcome rework b a =
    (a.produced ≡ b.produced) × (a.scrapped ≡ b.scrapped) × (a.reworked ≡ b.reworked + 1)
Outcome scrap b a =
    (a.produced ≡ b.produced) × (a.scrapped ≡ b.scrapped + 1) × (a.reworked ≡ b.reworked)
Outcome hold b a = (a.produced ≡ b.produced) × (a.scrapped ≡ b.scrapped) × (a.reworked ≡ b.reworked)

-- The scrap and rework counters after the loop over the stations, in which no product gets good.
abbrev Fate : ProductStatus → ℕ → ℕ → ℕ → ℕ → Type 0
Fate in_process s r s' r' = (s' ≡ s) × (r' ≡ r)
Fate good s r s' r' = ⊥
Fate rework s r s' r' = (s' ≡ s) × (r' ≡ r + 1)
Fate scrap s r s' r' = (s' ≡ s + 1) × (r' ≡ r)
Fate hold s r s' r' = (s' ≡ s) × (r' ≡ r)

abbrev pub counts : {F : Type 0} → Factory F → Counts
counts w = record {
  produced = w.total_produced;
  scrapped = w.scrap_count;
  reworked = w.rework_count;
}

module _ {F : Type 0} ⦃f : Float F⦄ where
  -- The loop over the stations touches neither stock nor orders.
  record IsPass (p q : Pass F) : Type 0 where
    stock : q.factory.fg_stock ≡ p.factory.fg_stock
    produced : q.factory.total_produced ≡ p.factory.total_produced
    orders : q.factory.orders ≡ p.factory.orders
    fate :
        Fate q.product.status p.factory.scrap_count p.factory.rework_count q.factory.scrap_count
          q.factory.rework_count

  -- An inspection changes none of these.
  record IsKept (p q : Pass F) : Type 0 where
    stock : q.factory.fg_stock ≡ p.factory.fg_stock
    produced : q.factory.total_produced ≡ p.factory.total_produced
    orders : q.factory.orders ≡ p.factory.orders
    scraps : q.factory.scrap_count ≡ p.factory.scrap_count
    reworks : q.factory.rework_count ≡ p.factory.rework_count
    status : q.product.status ≡ p.product.status

  inspect_lem :
      (d : Draws F) (shift : ShiftInfo F) (idx : ℕ) (s : WorkCenter F) (p : Pass F)
      → IsKept p (inspect d shift idx s p).2
  unfolding inspect log
  inspect_lem d shift idx s p = record {
    stock = refl;
    produced = refl;
    orders = refl;
    scraps = refl;
    reworks = refl;
    status = refl;
  }

  reject_lem : (d : Draws F) (idx : ℕ) (s : WorkCenter F) (p : Pass F) → IsPass p (reject d idx s p)
  unfolding reject log
  reject_lem d idx s p = elim (Bool-cases (f.lt d.repairable (f.lit 3 1))) [
    | inl again ↦
        rw (again, reject)
          (record { stock = refl; produced = refl; orders = refl; fate = (refl, refl) })
    | inr lost ↦
        rw (lost, reject)
          (record { stock = refl; produced = refl; orders = refl; fate = (refl, refl) })
  ]

  after_inspection : (p q r : Pass F) → IsKept p q → IsPass q r → IsPass p r
  after_inspection p q r k h = record {
    stock = h.stock ∙ k.stock;
    produced = h.produced ∙ k.produced;
    orders = h.orders ∙ k.orders;
    fate = rw (k.scraps, k.reworks) at h.fate;
  }

  pass_lem :
      (d : Draws F) (shift : ShiftInfo F) (idx : ℕ) (line : List (WorkCenter F)) (p : Pass F)
      → p.product.status ≡ in_process
      → IsPass p (pass d shift idx line p).1
  unfolding pass halt
  pass_lem d shift idx [] p going = record {
    stock = refl;
    produced = refl;
    orders = refl;
    fate = rw going (refl, refl);
  }
  pass_lem d shift idx (s ∷ rest) p going = elim (Bool-cases (is_down s.state)) [
    | inl down ↦
        rw (down, pass)
          (record { stock = refl; produced = refl; orders = refl; fate = (refl, refl) })
    | inr up ↦
        let (s', is_good, p') = inspect d shift idx s p in
        let k = inspect_lem d shift idx s p in
        elim (Bool-cases (not is_good && is_in_process p'.product.status)) [
          | inl bad ↦ rw (up, bad, pass) (after_inspection p p' _ k (reject_lem d idx s' p'))
          | inr fine ↦
              rw (up, fine, pass)
                (after_inspection p p' _ k (pass_lem d shift (idx + 1) rest p' (k.status ∙ going)))
        ]
  ]

  -- From the end of the loop to the end of the cycle.
  pub record IsCycle (w w' : Factory F) (status : ProductStatus) : Type 0 where
    pub outcome : Outcome status (counts w) (counts w')
    pub balance :
        w'.fg_stock + delivered_sum w'.orders + w.total_produced
        ≡ w.fg_stock + delivered_sum w.orders + w'.total_produced
    pub orders : All IsDelivered w'.orders

  finish_lem :
      (d : Draws F) (product : Product F) (w w' : Factory F) (status : ProductStatus)
      → w'.fg_stock ≡ w.fg_stock
      → w'.total_produced ≡ w.total_produced
      → w'.orders ≡ w.orders
      → product.status ≡ status
      → Fate status w.scrap_count w.rework_count w'.scrap_count w'.rework_count
      → All IsDelivered w.orders
      → let (done, last) = finish d product w' in IsCycle w last done.status
  unfolding finish log
  finish_lem d product w w' in_process stock produced orders e (scraps, reworks) h =
      let (kept, all) =
        process_shipments_lem d.shipped 0 (w'.fg_stock + 1) w'.orders (rw orders h) in
      let same = ap delivered_sum orders in
      rw (e, finish)
        (record {
          outcome = (omega (arith, produced), scraps, reworks);
          balance = omega (arith, kept, stock, produced, same);
          orders = all;
        })
  finish_lem d product w w' good stock produced orders e fate h = absurd fate
  finish_lem d product w w' rework stock produced orders e (scraps, reworks) h =
      let same = ap delivered_sum orders in
      rw (e, finish)
        (record {
          outcome = (produced, scraps, reworks);
          balance = omega (arith, stock, produced, same);
          orders = rw orders h;
        })
  finish_lem d product w w' scrap stock produced orders e (scraps, reworks) h =
      let same = ap delivered_sum orders in
      rw (e, finish)
        (record {
          outcome = (produced, scraps, reworks);
          balance = omega (arith, stock, produced, same);
          orders = rw orders h;
        })
  finish_lem d product w w' hold stock produced orders e (scraps, reworks) h =
      let same = ap delivered_sum orders in
      rw (e, finish)
        (record {
          outcome = (produced, scraps, reworks);
          balance = omega (arith, stock, produced, same);
          orders = rw orders h;
        })

  record_hourly_lem :
      (w w' : Factory F) (s : ProductStatus) → IsCycle w w' s → IsCycle w (record_hourly w') s
  unfolding record_hourly
  record_hourly_lem w w' s h = elim (Bool-cases (w'.cycle % 40 == 0)) [
    | inl hour ↦
        rw (hour, record_hourly)
          (record { outcome = h.outcome; balance = h.balance; orders = h.orders })
    | inr no_hour ↦ rw (no_hour, record_hourly) h
  ]

  record_hourly_current : (w : Factory F) → (record_hourly w).current_product ≡ w.current_product
  unfolding record_hourly
  record_hourly_current w = elim (Bool-cases (w.cycle % 40 == 0)) [
    | inl hour ↦ rw (hour, record_hourly) refl
    | inr no_hour ↦ rw (no_hour, record_hourly) refl
  ]

  -- A cycle of the factory ends with a product that is good, scrapped, up for rework or on hold, and
  -- the counters say which; what is made is in stock or delivered: the stock and the deliveries
  -- together grow by just the units that were produced; and no order gets more than its quantity, if
  -- none had.
  pub run_cycle_lem :
      (d : Draws F) (w : Factory F)
      → All IsDelivered w.orders
      → let (w', result) = run_cycle d w in
        IsCycle w w' result.product.status × (w'.current_product ≡ some result.product)
  unfolding run_cycle start log update_ambient
  run_cycle_lem d w h =
      let (product, begun) = start d w in
      let p0 : Pass F = record { factory = begun; product = product; readings = [] } in
      let (line, p) = pass d (current w.shift_mgr) 0 begun.line p0 in
      let r = pass_lem d (current w.shift_mgr) 0 begun.line p0 refl in
      let ready : Factory F = record p.factory { line = line } in
      let c =
        finish_lem d p.product w ready p.product.status r.stock r.produced r.orders refl r.fate h in
      let (done, finished) = finish d p.product ready in
      let stocked : Factory F = record finished {
        materials = consume_materials d.material 0 finished.materials;
        current_product = some done;
      } in
      (
        record_hourly_lem w stocked done.status
            (record { outcome = c.outcome; balance = c.balance; orders = c.orders }),
        record_hourly_current stocked,
      )
