-- ===== src/Domain/Machines/Fleet.antt =====
-- mas/domain/machines.py: the six stations of the line, over any use of them.
use manufacturing_mas.Prelude.{
  ℕ, zero, suc, ◌≡◌, refl, ap, sym, subst, inl, inr, ◌∙◌, String, some, List, [], ◌∷◌, map,
  get_elem?, All, arith, true, false,
}
use manufacturing_mas.Float.{Float}
use manufacturing_mas.Domain.Machines.Tool.{new_tool}
use manufacturing_mas.Domain.Machines.Sensor.{RealisticSensor}
use manufacturing_mas.Domain.Machines.WorkCenter.{WorkCenter, new_work_center, execute_cycle}
use manufacturing_mas.Domain.Machines.States.{
  IsValid, Action, act, cycles, judges, Reach, here, next, Reach-IsValid, is_stopped_lem,
}
use manufacturing_mas.Domain.Machines.Line.{create_production_line, station_ids}

get_elem?-All :
    {A : Type 0} (P : A → Type 0) (xs : List A) (i : ℕ) (x : A)
    → All P xs
    → get_elem? xs i ≡ some x
    → P x
get_elem?-All P [] i x h e = absurd (ground (arith, e))
get_elem?-All P (y ∷ ys) zero x h e = let same : y ≡ x = ground (arith, e) in subst P same h.0
get_elem?-All P (y ∷ ys) (suc i) x h e = get_elem?-All P ys i x h.1 e

get_elem?-map :
    {A B : Type 0} (g : A → B) (xs : List A) (i : ℕ) (x : A)
    → get_elem? xs i ≡ some x
    → get_elem? (map g xs) i ≡ some (g x)
get_elem?-map g [] i x e = absurd (ground (arith, e))
get_elem?-map g (y ∷ ys) zero x e =
    let same : y ≡ x = ground (arith, e) in ap (λ u. some (g u)) same
get_elem?-map g (y ∷ ys) (suc i) x e = get_elem?-map g ys i x e

module _ {F : Type 0} ⦃f : Float F⦄ where
  new-IsValid :
      (id name kind : String) (time : F) (sensors : List (String × RealisticSensor F)) (life : ℕ)
      → IsValid (new_work_center id name kind time sensors (new_tool life))
  unfolding new_work_center
  new-IsValid id name kind time sensors life = ground arith

line-IsValid :
    (F : Type 0) ⦃f : Float F⦄
    → All (λ (w : WorkCenter F). IsValid w) (create_production_line {F = F})
unfolding create_production_line
line-IsValid F = (
  new-IsValid _ _ _ _ _ _,
  (
    new-IsValid _ _ _ _ _ _,
    (
      new-IsValid _ _ _ _ _ _,
      (new-IsValid _ _ _ _ _ _, (new-IsValid _ _ _ _ _ _, (new-IsValid _ _ _ _ _ _, tt))),
    ),
  ),
)

line-station_ids :
    (F : Type 0) ⦃f : Float F⦄
    → map (λ (w : WorkCenter F). w.station_id) (create_production_line {F = F}) ≡ station_ids
unfolding create_production_line new_work_center
line-station_ids F = refl

module _ {F : Type 0} ⦃f : Float F⦄ where
  act-station_id : (w : WorkCenter F) (a : Action F) → (act w a).station_id ≡ w.station_id
  unfolding act execute_cycle
  act-station_id w (cycles gauss shift ambient) = elim (is_stopped_lem w.state) [
    | inl (stopped, _) ↦ rw (stopped, act, execute_cycle) refl
    | inr (live, _) ↦ rw (live, act, execute_cycle) refl
  ]
  act-station_id w (judges true) = refl
  act-station_id w (judges false) = refl
  act-station_id w _ = refl

  Reach-station_id : {w v : WorkCenter F} → Reach w v → v.station_id ≡ w.station_id
  Reach-station_id here = refl
  Reach-station_id (next {v = v} r a) = act-station_id v a ∙ Reach-station_id r

  -- However the stations of a new line are used, the station at each place keeps the identifier that
  -- `STATION_IDS` has at that place, and stays valid: its counters agree, its speed lies between 40
  -- and 110 percent, it is never in MAINTENANCE, and in breakdown it has a failure counted.
  pub Reach-create_production_line :
      (i : ℕ) (w v : WorkCenter F)
      → get_elem? create_production_line i ≡ some w
      → Reach w v
      → (get_elem? station_ids i ≡ some v.station_id) × IsValid v
  Reach-create_production_line i w v e r = (
    ap (λ ids. get_elem? ids i) (sym (line-station_ids F))
        ∙ get_elem?-map (λ (u : WorkCenter F). u.station_id) create_production_line i w e
        ∙ ap some (sym (Reach-station_id r)),
    Reach-IsValid r (get_elem?-All (λ u. IsValid u) create_production_line i w (line-IsValid F) e),
  )
