-- ===== src/Intelligence/Solver/Numbers.antt =====
-- mas/intelligence/optimization_engine.py: the language model does not touch the numbers.
use manufacturing_mas.Prelude.{
  ◌≡◌, refl, sym, ap, subst, ◌∙◌, inl, inr, String, Bool, true, false, Option, some, List, ◌∷◌,
  arith, str_eq, eq_iff, Bool-cases, Option-cases,
}
use manufacturing_mas.Prelude.Int.{ℤ, pos, ◌≤ℤ◌, max_ℤ, min_ℤ, max_ℤ-min_ℤ_bounds}
use manufacturing_mas.Float.{Float}
use manufacturing_mas.Protocol.Value.{
  Value, Fields, whole, real, get_or, text, end, field, get, has, put,
}
use manufacturing_mas.Protocol.Value.Entries.{get-put_other, has-put_other}
use manufacturing_mas.Intelligence.Solver.{
  is_numeric_key, setdefault, add_entries, merge_numeric_and_rationale, score_of, best_of, speed_of,
  mode_of, cnp_numeric_strategy,
}

module _ {F : Type 0} where
  -- `e` has the key, with the value that `d` gives it.
  abbrev Keeps : String → Fields F → Fields F → Type 0
  Keeps key d e = (has key e ≡ true) × (get key e ≡ get key d)

  setdefault-Keeps :
      (k key : String) (v : Value F) (d e : Fields F)
      → Keeps key d e
      → Keeps key d (setdefault k v e)
  unfolding setdefault
  setdefault-Keeps k key v d e (there, same) = elim (Bool-cases (has k e)) [
    | inl known ↦ rw known (there, same)
    | inr missing ↦
        let apart : str_eq k key ≡ false = ground (arith, missing, there, eq_iff k key) in
        rw missing (has-put_other k key v e there, get-put_other k key v e apart ∙ same)
  ]

  add_entries-Keeps :
      (key : String) (part d e : Fields F)
      → is_numeric_key key ≡ true
      → Keeps key d e
      → Keeps key d (add_entries part e)
  unfolding add_entries
  add_entries-Keeps key end d e numeric keeps = keeps
  add_entries-Keeps key (field k v rest) d e numeric (there, same) =
      elim (Bool-cases (is_numeric_key k)) [
        | inl skipped ↦ rw skipped (add_entries-Keeps key rest d e numeric (there, same))
        | inr added ↦
            let apart : str_eq k key ≡ false = ground (arith, numeric, added, eq_iff k key) in
            rw added (
              add_entries-Keeps key rest d (put k v e) numeric
                (has-put_other k key v e there, get-put_other k key v e apart ∙ same))
      ]

  merge_numeric_and_rationale-Keeps :
      (key : String) (numeric part : Fields F)
      → is_numeric_key key ≡ true
      → has key numeric ≡ true
      → Keeps key numeric (merge_numeric_and_rationale numeric part)
  unfolding merge_numeric_and_rationale
  merge_numeric_and_rationale-Keeps key numeric end named there =
      setdefault-Keeps "expected_ss_impact" key _ numeric _ (
        setdefault-Keeps "risk_assessment" key _ numeric _
          (setdefault-Keeps "rationale" key _ numeric numeric (there, refl)))
  merge_numeric_and_rationale-Keeps key numeric (field k v rest) named there =
      setdefault-Keeps "rationale" key _ numeric _
        (add_entries-Keeps key (field k v rest) numeric numeric named (there, refl))

  abbrev strategy_of : ℤ → String → Value F → F → Fields F
  strategy_of speed mode agent score =
      field "target_speed_pct" (whole (max_ℤ (pos 40) (min_ℤ (pos 100) speed))) (
        field "inspection_mode" (text mode) (
          field "best_agent" agent
            (field "best_score" (real score) (field "decision" (text "solver_first") end))))

  has_numeric :
      (key : String) (speed : ℤ) (mode : String) (agent : Value F) (score : F)
      → is_numeric_key key ≡ true
      → has key (strategy_of speed mode agent score) ≡ true
  unfolding has is_numeric_key
  has_numeric key speed mode agent score h = ground (arith, h)

module _ {F : Type 0} ⦃f : Float F⦄ (parse : String → Option F) (contains : String → String → Bool)
    (lower : String → String) where
  strategy_shape :
      (p : Fields F) (rest : List (Fields F)) (numeric : Fields F)
      → cnp_numeric_strategy parse contains lower (p ∷ rest) ≡ some numeric
      → (speed : ℤ) × (mode : String) × (agent : Value F) × (score : F) × (numeric
          ≡ strategy_of speed mode agent score)
  unfolding cnp_numeric_strategy
  strategy_shape p rest numeric e = elim (Option-cases (score_of parse p)) [
    | inl raised ↦ absurd (ground (arith, raised, e))
    | inr (first, h) ↦ elim (Option-cases (best_of parse p first rest)) [
      | inl raised ↦ absurd (ground (arith, h, raised, e))
      | inr ((best, score), h') ↦ elim (Option-cases (speed_of parse best)) [
        | inl raised ↦ absurd (ground (arith, h, h', raised, e))
        | inr (speed, h'') ↦ (
          speed,
          mode_of contains lower (get_or "inspection_mode" (text "standard") best),
          get_or "agent" (text "") best,
          score,
          ground (arith, h, h', h'', e),
        )
      ]
    ]
  ]

  -- If there is a proposal and the solver returns a strategy, then whatever the language model
  -- answers, the merged strategy has the solver's value at every numeric key, and its speed is an
  -- integer from 40 to 100.
  pub merge_numeric_and_rationale-cnp_numeric_strategy :
      (p : Fields F) (rest : List (Fields F)) (numeric answer : Fields F)
      → cnp_numeric_strategy parse contains lower (p ∷ rest) ≡ some numeric
      → ((key : String)
          → is_numeric_key key ≡ true
          → get key (merge_numeric_and_rationale numeric answer) ≡ get key numeric)
        × ((n : ℤ) × (get "target_speed_pct" (merge_numeric_and_rationale numeric answer) ≡ whole n)
            × (pos 40 ≤ℤ n)
            × (n ≤ℤ pos 100))
  unfolding get is_numeric_key
  merge_numeric_and_rationale-cnp_numeric_strategy p rest numeric answer e =
      let (speed, mode, agent, score, shape) = strategy_shape p rest numeric e in
      let kept : (key : String)
          → is_numeric_key key ≡ true
          → get key (merge_numeric_and_rationale numeric answer) ≡ get key numeric =
        λ key h.
          (merge_numeric_and_rationale-Keeps key numeric answer h (
            subst (λ d. has key d ≡ true) (sym shape)
              (has_numeric key speed mode agent score h))).1 in
      let (low, high) = max_ℤ-min_ℤ_bounds (pos 40) (pos 100) speed (omega arith) in
      (kept, (_, kept "target_speed_pct" refl ∙ ap (get "target_speed_pct") shape, low, high))
