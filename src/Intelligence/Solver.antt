-- ===== src/Intelligence/Solver.antt =====
-- mas/intelligence/optimization_engine.py: the numbers of a strategy come from the proposals, the
-- text from the language model. Where the code raises, the result is none. `float(s)` of a text is
-- `parse`. A score is no NaN, for which Python's sort has no order.
pub mod Numbers
use manufacturing_mas.Prelude.{
  ℕ, String, Bool, true, false, ◌||◌, Option, none, some, List, [], ◌∷◌, if◌then◌else◌, str_eq,
}
use manufacturing_mas.Prelude.Int.{ℤ, pos, max_ℤ, min_ℤ}
use manufacturing_mas.Float.{Float}
use manufacturing_mas.Protocol.Value.{
  Value, Fields, whole, real, text, list, nil, item, end, field, get, get_or, has, put, ◌or◌, Cast,
  cast, wrong, overflow, to_float, to_int,
}

-- `k in _NUMERIC_KEYS`
unfoldable pub is_numeric_key : String → Bool
is_numeric_key k =
    str_eq "target_speed_pct" k
    || str_eq "inspection_mode" k
    || str_eq "best_agent" k
    || str_eq "best_score" k
    || str_eq "decision" k

module _ {F : Type 0} ⦃f : Float F⦄ (parse : String → Option F) where
  -- `float(p.get("total_score", 0) or 0)`
  unfoldable pub score_of : Fields F → Option F
  unfolding get_or ◌or◌ to_float
  score_of p = elim (to_float parse (get_or "total_score" (whole (pos 0)) p or whole (pos 0))) [
    | cast x ↦ some x
    | _ ↦ none
  ]

  -- The first of the proposals with the highest score, which is what the stable sort puts first; every
  -- score is read.
  unfoldable pub best_of : Fields F → F → List (Fields F) → Option (Fields F × F)
  unfolding score_of
  best_of p score [] = some (p, score)
  best_of p score (q ∷ rest) = elim (score_of q) [
    | none ↦ none
    | some s ↦ if f.lt score s then best_of q s rest else best_of p score rest
  ]

  -- `int(float(...))`, where a value that is no number counts as 100; an infinite one raises.
  unfoldable pub speed_of : Fields F → Option ℤ
  unfolding get_or to_int
  speed_of best =
      elim (to_int parse
        (get_or "speed_recommendation" (get_or "target_speed_pct" (whole (pos 100)) best) best)) [
          | cast n ↦ some n
          | wrong ↦ some (pos 100)
          | overflow ↦ none
        ]

module _ {F : Type 0} where
  -- `d.setdefault(key, v)`
  unfoldable pub setdefault : String → Value F → Fields F → Fields F
  unfolding has put
  setdefault key v d = if has key d then d else put key v d

  -- The loop over the model's entries: those with a numeric key are left out.
  unfoldable pub add_entries : Fields F → Fields F → Fields F
  unfolding is_numeric_key put
  add_entries end out = out
  add_entries (field k v rest) out =
      if is_numeric_key k then add_entries rest out else add_entries rest (put k v out)

  -- No answer, or an empty one, is `end`.
  unfoldable pub merge_numeric_and_rationale : Fields F → Fields F → Fields F
  unfolding setdefault add_entries
  merge_numeric_and_rationale numeric end = setdefault "expected_ss_impact" (text "미평가") (
      setdefault "risk_assessment" (text "정보 부족 — 보수적 모니터링") (
        setdefault "rationale" (list (item (text "솔버 선정 결과에 따른 규칙 기반 근거( LLM 미사용 또는 실패 )") nil))
          numeric))
  merge_numeric_and_rationale numeric (field k v rest) =
      setdefault "rationale" (list (item (text "솔버 결정에 대한 서술적 보강") nil))
        (add_entries (field k v rest) numeric)

-- `contains a s` is `a in s`, and `lower` is `strip` and `lower`.
module _ {F : Type 0} (contains : String → String → Bool) (lower : String → String) where
  unfoldable pub mode_of : Value F → String
  mode_of (text s) =
      if contains "강화" s || contains "enhanced" (lower s)
      then "enhanced"
      else if contains "표준" s || contains "standard" (lower s)
      then "standard"
      else if str_eq s "standard" || str_eq s "enhanced"
      then s
      else "standard"
  mode_of _ = "standard"

module _ {F : Type 0} ⦃f : Float F⦄ (parse : String → Option F) (contains : String → String → Bool)
    (lower : String → String) where
  -- No proposals give an empty dictionary.
  unfoldable pub cnp_numeric_strategy : List (Fields F) → Option (Fields F)
  unfolding score_of best_of speed_of mode_of get_or
  cnp_numeric_strategy [] = some end
  cnp_numeric_strategy (p ∷ rest) = elim (score_of parse p) [
    | none ↦ none
    | some first ↦ elim (best_of parse p first rest) [
      | none ↦ none
      | some (best, score) ↦ elim (speed_of parse best) [
        | none ↦ none
        | some speed ↦ some (
            field "target_speed_pct" (whole (max_ℤ (pos 40) (min_ℤ (pos 100) speed))) (
              field "inspection_mode"
                (text (mode_of contains lower (get_or "inspection_mode" (text "standard") best)))
                (field "best_agent" (get_or "agent" (text "") best)
                  (field "best_score" (real score) (field "decision" (text "solver_first") end)))))
      ]
    ]
  ]
