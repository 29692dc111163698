-- ===== src/Domain/Inventory/Balance.antt =====
-- mas/domain/inventory.py: what came in, what went out and what is left.
use manufacturing_mas.Prelude.{
  ℕ, ◌+◌, ◌-◌, ◌≤◌, ◌<◌, ◌≡◌, refl, subst, ◌⊎◌, ◌↔◌, String, true, List, [], ◌∷◌, ◌++◌, arith, min,
  All, All-append,
}
use manufacturing_mas.Prelude.Int.{neg_part}
use manufacturing_mas.Float.{Float}
use manufacturing_mas.Domain.Inventory.{
  ShipmentRecord, FinishedGoodsWarehouse, receive, ship, recalculate_safety_stock, record_snapshot,
  ss_breach, stock_above_ss,
}

abbrev pub requested_sum : List ShipmentRecord → ℕ
requested_sum [] = 0
requested_sum (s ∷ ss) = s.requested + requested_sum ss

abbrev pub shipped_sum : List ShipmentRecord → ℕ
shipped_sum [] = 0
shipped_sum (s ∷ ss) = s.shipped + shipped_sum ss

requested_sum-append :
    (xs ys : List ShipmentRecord) → requested_sum (xs ++ ys) ≡ requested_sum xs + requested_sum ys
requested_sum-append [] ys = omega arith
requested_sum-append (x ∷ xs) ys = omega (arith, requested_sum-append xs ys)

shipped_sum-append :
    (xs ys : List ShipmentRecord) → shipped_sum (xs ++ ys) ≡ shipped_sum xs + shipped_sum ys
shipped_sum-append [] ys = omega arith
shipped_sum-append (x ∷ xs) ys = omega (arith, shipped_sum-append xs ys)

-- A request is met in full, or by all there is.
pub record IsHonest (s : ShipmentRecord) : Type 0 where
  pub split : s.shipped + s.shortfall ≡ s.requested

-- The books of a warehouse into which `came_in` units were put in all, the initial stock included.
pub record IsBalanced {F : Type 0} (came_in : ℕ) (w : FinishedGoodsWarehouse F) : Type 0 where
  pub conserved : w.stock + w.total_shipped ≡ came_in
  pub requests : requested_sum w.shipments ≡ w.total_requested
  pub shipped : shipped_sum w.shipments ≡ w.total_shipped
  pub no_more : w.total_shipped ≤ w.total_requested
  pub honest : All IsHonest w.shipments

-- The operations that a warehouse goes through.
pub data Operation : Type 0 where
  receives : ℕ → Operation
  ships : String → ℕ → ℕ → Operation
  recalculates snapshots : Operation

abbrev pub incoming : Operation → ℕ
incoming (receives qty) = qty
incoming _ = 0

abbrev pub incoming_sum : List Operation → ℕ
incoming_sum [] = 0
incoming_sum (o ∷ os) = incoming o + incoming_sum os

module _ {F : Type 0} ⦃f : Float F⦄ where
  abbrev pub run_operation : FinishedGoodsWarehouse F → Operation → FinishedGoodsWarehouse F
  run_operation w (receives qty) = receive w qty
  run_operation w (ships customer qty cycle) = (ship w customer qty cycle).0
  run_operation w recalculates = recalculate_safety_stock w
  run_operation w snapshots = record_snapshot w

  abbrev pub run_operations : FinishedGoodsWarehouse F → List Operation → FinishedGoodsWarehouse F
  run_operations w [] = w
  run_operations w (o ∷ os) = run_operations (run_operation w o) os

module _ {F : Type 0} where
  -- `ship` hands out what was asked for or, if that is less, all there is; it takes just that from the
  -- stock and adds it to the shipped units, and the whole request to the requested ones.
  pub ship_lem :
      (w : FinishedGoodsWarehouse F) (customer : String) (qty cycle : ℕ)
      → let (w', actual) = ship w customer qty cycle in
        (w'.stock + actual ≡ w.stock)
        × (w'.total_shipped ≡ w.total_shipped + actual)
        × (w'.total_requested ≡ w.total_requested + qty)
        × ((actual ≡ qty) ⊎ ((w'.stock ≡ 0) × (actual < qty)))
  unfolding ship
  ship_lem w customer qty cycle = ground arith

  ship-IsBalanced :
      (n : ℕ) (w : FinishedGoodsWarehouse F) (customer : String) (qty cycle : ℕ)
      → IsBalanced n w
      → IsBalanced n (ship w customer qty cycle).0
  unfolding ship
  ship-IsBalanced n w customer qty cycle v = record {
    conserved = omega (arith, v.conserved);
    requests = omega (arith, requested_sum-append w.shipments (entry ∷ []), v.requests);
    shipped = omega (arith, shipped_sum-append w.shipments (entry ∷ []), v.shipped);
    no_more = omega (arith, v.no_more);
    honest =
        All-append IsHonest w.shipments (entry ∷ []) v.honest (record { split = omega arith }, tt);
  }
    where
      entry : ShipmentRecord
      entry = record {
        cycle = cycle;
        customer = customer;
        requested = qty;
        shipped = min qty w.stock;
        shortfall = qty - min qty w.stock;
      }

module _ {F : Type 0} ⦃f : Float F⦄ where
  run_operation-IsBalanced :
      (n : ℕ) (w : FinishedGoodsWarehouse F) (o : Operation)
      → IsBalanced n w
      → IsBalanced (n + incoming o) (run_operation w o)
  unfolding receive recalculate_safety_stock record_snapshot
  run_operation-IsBalanced n w (receives qty) v = record {
    conserved = omega (arith, v.conserved);
    requests = v.requests;
    shipped = v.shipped;
    no_more = v.no_more;
    honest = v.honest;
  }
  run_operation-IsBalanced n w (ships customer qty cycle) v =
      let v' = ship-IsBalanced n w customer qty cycle v in
      record {
        conserved = omega (arith, v'.conserved);
        requests = v'.requests;
        shipped = v'.shipped;
        no_more = v'.no_more;
        honest = v'.honest;
      }
  run_operation-IsBalanced n w recalculates v = record {
    conserved = omega (arith, v.conserved);
    requests = v.requests;
    shipped = v.shipped;
    no_more = v.no_more;
    honest = v.honest;
  }
  run_operation-IsBalanced n w snapshots v = record {
    conserved = omega (arith, v.conserved);
    requests = v.requests;
    shipped = v.shipped;
    no_more = v.no_more;
    honest = v.honest;
  }

  -- However a warehouse is used, its books stay balanced: stock and shipped units add up to what came
  -- in, the totals are the sums over the shipment records, no more is shipped than requested, and every
  -- record splits its request into what was shipped and the shortfall.
  pub run_operations-IsBalanced :
      (n : ℕ) (w : FinishedGoodsWarehouse F) (os : List Operation)
      → IsBalanced n w
      → IsBalanced (n + incoming_sum os) (run_operations w os)
  run_operations-IsBalanced n w [] v = subst (λ m. IsBalanced m w) (omega arith) v
  run_operations-IsBalanced n w (o ∷ os) v =
      subst (λ m. IsBalanced m (run_operations (run_operation w o) os)) (omega arith)
        (run_operations-IsBalanced (n + incoming o) (run_operation w o) os
          (run_operation-IsBalanced n w o v))

  -- A recalculated safety stock is at least 5, and no other field changes. To recalculate once more
  -- changes nothing; and it is the same whether one recalculates before or after goods are received or
  -- shipped, for the stock that is left, for the books and for what is handed out.
  pub recalculate_lem :
      (w : FinishedGoodsWarehouse F) (customer : String) (qty cycle : ℕ)
      → let w' = recalculate_safety_stock w in
        (5 ≤ w'.safety_stock)
        × (w' ≡ record w { safety_stock = w'.safety_stock })
        × (recalculate_safety_stock w' ≡ w')
        × (recalculate_safety_stock (receive w qty) ≡ receive w' qty)
        × (recalculate_safety_stock (ship w customer qty cycle).0 ≡ (ship w' customer qty cycle).0)
        × ((ship w' customer qty cycle).1 ≡ (ship w customer qty cycle).1)
  unfolding recalculate_safety_stock receive ship
  recalculate_lem w customer qty cycle = (ground arith, refl, refl, refl, refl, refl)

-- The breach flag is raised exactly when the stock above the safety stock is negative.
pub ss_breach_iff :
    {F : Type 0} (w : FinishedGoodsWarehouse F)
    → (ss_breach w ≡ true) ↔ (0 < neg_part (stock_above_ss w))
unfolding ss_breach stock_above_ss
ss_breach_iff w = ground arith
