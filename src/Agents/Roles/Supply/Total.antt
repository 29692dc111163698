-- ===== src/Agents/Roles/Supply/Total.antt =====
-- mas/agents/supply_agent.py: a cycle raises nothing when the days of supply are known.
use manufacturing_mas.Prelude.{
  ℕ, ◌≡◌, refl, inl, inr, String, Option, some, List, [], ◌∷◌, arith, Bool-cases, All, ◌||◌,
}
use manufacturing_mas.Prelude.Int.{pos}
use manufacturing_mas.Prelude.Dict.{Dict, AllValues}
use manufacturing_mas.Float.{Float}
use manufacturing_mas.Domain.Plant.Snapshot.{MaterialView, Snapshot}
use manufacturing_mas.Agents.Roles.Alerts.{Formats}
use manufacturing_mas.Agents.Roles.Supply.{
  SupplyAgent, SupplyObs, SupplyDecision, Shortage, StockStatus, short, enough, reorder, caution,
  add_status, classify, track, shortage_of, sense_materials, sense, add_shortages, add_reorders,
  reason, with_reorder,
}

module _ {F : Type 0} where
  abbrev pub HasSupply : MaterialView F → Type 0
  HasSupply m = (dos : F) × (m.days_supply ≡ some dos)

  abbrev pub KnowsSupply : Shortage F → Type 0
  KnowsSupply s = (dos : F) × (s.days_supply ≡ some dos)

  add_status-All :
      (name : String) (status : StockStatus) (entry : Shortage F) (obs : SupplyObs F)
      → KnowsSupply entry
      → All KnowsSupply obs.reorder_needed
      → All KnowsSupply (add_status name status entry obs).reorder_needed
  unfolding add_status
  add_status-All name reorder entry obs h all = (h, all)
  add_status-All name short entry obs h all = all
  add_status-All name enough entry obs h all = all
  add_status-All name caution entry obs h all = all

module _ {F : Type 0} ⦃f : Float F⦄ where
  classify-Returns :
      (m : MaterialView F) → HasSupply m → (status : StockStatus) × (classify m ≡ some status)
  unfolding classify
  classify-Returns m (dos, e) =
      elim (Bool-cases
        (f.le (f.of_int (pos m.stock)) (f.mul (f.of_int (pos m.safety_stock)) (f.lit 5 1)))) [
          | inl h ↦ rw (h, classify) (_, refl)
          | inr h ↦
              elim (Bool-cases (
                m.needs_reorder || f.le (f.of_int (pos m.stock)) (f.of_int (pos m.safety_stock)))) [
                  | inl k ↦ rw (h, k, classify) (_, refl)
                  | inr k ↦ rw (h, k, e, classify) (_, refl)
                ]
        ]

  sense_materials-Returns :
      (history : Dict (List ℕ)) (materials : Dict (MaterialView F))
      → AllValues HasSupply materials
      → (final : Dict (List ℕ)) × (obs : SupplyObs F) × (sense_materials history materials
          ≡ some (final, obs))
        × All KnowsSupply obs.reorder_needed
  unfolding sense_materials
  sense_materials-Returns history [] h = (history, _, refl, tt)
  sense_materials-Returns history ((name, m) ∷ rest) (known, h) =
      let (status, found) = classify-Returns m known in
      let (final, obs, others, all) = sense_materials-Returns (track name m.stock history) rest h in
      let entry = shortage_of (track name m.stock history) name m in
      (
        final,
        add_status name status entry obs,
        ground (arith, found, others),
        add_status-All name status entry obs known all,
      )

  pub sense-Returns :
      (a : SupplyAgent F) (snapshot : Snapshot F)
      → AllValues HasSupply snapshot.materials
      → (a' : SupplyAgent F) × (obs : SupplyObs F) × (sense a snapshot ≡ some (a', obs))
        × All KnowsSupply obs.reorder_needed
  unfolding sense
  sense-Returns a snapshot h =
      let (final, obs, e, all) =
        sense_materials-Returns a.consumption_history snapshot.materials h in
      (record a { consumption_history = final }, obs, rw (e, sense) refl, all)

module _ {F : Type 0} (t : Formats F) where
  add_reorders-Returns :
      (rs : List (Shortage F)) (d : SupplyDecision)
      → All KnowsSupply rs
      → (d' : SupplyDecision) × (add_reorders t rs d ≡ some d')
  unfolding add_reorders
  add_reorders-Returns [] d h = (d, refl)
  add_reorders-Returns (s ∷ rest) d ((dos, e), h) =
      rw (e, add_reorders) (add_reorders-Returns rest (with_reorder t s dos d) h)

  pub reason-Returns :
      (obs : SupplyObs F)
      → All KnowsSupply obs.reorder_needed
      → (r : Option SupplyDecision) × (reason t obs ≡ some r)
  unfolding reason
  reason-Returns obs h =
      let start : SupplyDecision = record { reorders = []; alerts = []; priority = "LOW" } in
      let (d, e) =
        add_reorders-Returns obs.reorder_needed (add_shortages t obs.shortages start) h in
      rw (e, reason) (_, refl)
