-- ===== src/Agents/Planning/Evaluate.antt =====
-- mas/agents/planning_sub/constraint_evaluator.py and proposal_evaluator.py: the score of a proposal.
-- Where the code raises, the result is none.
use Prim.Native.String.{◌++◌ as append}
use manufacturing_mas.Prelude.{
  ◌+◌, String, Bool, true, false, Option, none, some, ◌==◌, if◌then◌else◌,
}
use manufacturing_mas.Prelude.Int.{ℤ, pos, pos_part, neg_part, ltb_ℤ}
use manufacturing_mas.Prelude.Decimal.{str_ℤ}
use manufacturing_mas.Float.{Float, fmin}
use manufacturing_mas.Protocol.Value.{
  Value, Fields, flag, whole, real, text, object, end, field, get, get_or, put, ◌or◌, Cast, cast,
  to_float, float_to_int,
}
use manufacturing_mas.Protocol.Comparison.{Comparison, sub_dict, normalize_comparison_metrics}
use manufacturing_mas.Protocol.Session.{CnpConstraints}

-- An evaluated proposal: its dictionary, and the scores that were put into it.
pub record Evaluated (F : Type 0) : Type 0 where
  pub body : Fields F
  pub business_score : F
  pub comparison_score : F
  pub constraint_penalty : F
  pub total_score : F

abbrev to_option : {A : Type 0} → Cast A → Option A
to_option (cast x) = some x
to_option _ = none

abbrev int_or : ℤ → ℤ → ℤ
int_or a default = if pos_part a + neg_part a == 0 then default else a

module _ {F : Type 0} where
  abbrev pub comparison_fields : Comparison F → Fields F
  comparison_fields c = field "candidate_action" c.candidate_action (
      field "expected_effect" (real c.expected_effect) (
        field "expected_cost" (real c.expected_cost) (
          field "quality_risk" (real c.quality_risk) (
            field "delivery_impact" (real c.delivery_impact) (
              field "material_impact" (real c.material_impact) (
                field "constraint_violation" (real c.constraint_violation) (
                  field "confidence" (real c.confidence)
                    (field "schema_version" (text "1.0") end))))))))

-- `float(s)` and `int(s)` of a text are `parse` and `parse_int`.
module _ {F : Type 0} ⦃f : Float F⦄ (parse : String → Option F)
    (parse_int : String → Option ℤ) where
  -- `int(v)`
  unfoldable pub int_of : Value F → Option ℤ
  unfolding float_to_int
  int_of (flag b) = some (if b then pos 1 else pos 0)
  int_of (whole n) = some n
  int_of (real x) = to_option (float_to_int parse x)
  int_of (text s) = parse_int s
  int_of _ = none

  abbrev real_or : F → F → F
  real_or x default = if f.is_zero x then default else x

  abbrev notes : Bool → Bool → ℤ → ℤ → String
  unfolding str_ℤ
  notes true true low high =
      append "속도<" (append (str_ℤ low) (append "%; 속도>" (append (str_ℤ high) "%")))
  notes true false low high = append "속도<" (append (str_ℤ low) "%")
  notes false true low high = append "속도>" (append (str_ℤ high) "%")
  notes false false low high = "ok"

  unfoldable pub score_against_constraints :
      Fields F → Comparison F → CnpConstraints F → Option (F × String)
  unfolding int_of get notes ◌or◌
  score_against_constraints proposal comp c =
      elim (int_of (
        get "speed_recommendation" proposal
        or get "target_speed_pct" proposal
        or whole (pos 100))) [
          | none ↦ none
          | some sp ↦
              let low = int_or c.speed_min_pct (pos 40) in
              let high = int_or c.speed_max_pct (pos 100) in
              let below = ltb_ℤ sp low in
              let above = ltb_ℤ high sp in
              let v1 = if below then f.add (f.lit 0 1) (f.lit 4 1) else f.lit 0 1 in
              let v2 = if above then f.add v1 (f.lit 4 1) else v1 in
              let v3 =
                f.add v2 (f.mul (real_or comp.constraint_violation (f.lit 0 1)) (f.lit 2 1)) in
              some (fmin (f.lit 10 1) v3, notes below above low high)
        ]

  -- `float(scores.get(key, 0.0)) * weight`, added to what came before.
  unfoldable pub add_score : Fields F → String → F → Option F → Option F
  unfolding to_float get_or
  add_score scores key weight none = none
  add_score scores key weight (some acc) =
      elim (to_float parse (get_or key (real (f.lit 0 1)) scores)) [
        | cast x ↦ some (f.add acc (f.mul x weight))
        | _ ↦ none
      ]

  unfoldable pub business_score : Fields F → Option F
  unfolding add_score
  business_score scores =
      let quality = add_score scores "quality" (f.lit 30 2) (some (f.lit 0 0)) in
      let delivery = add_score scores "delivery" (f.lit 25 2) quality in
      let cost = add_score scores "cost" (f.lit 25 2) delivery in
      add_score scores "safety" (f.lit 20 2) cost

  -- effect * confidence - 0.35 * cost - 0.25 * risk, where a 0 counts as not given.
  unfoldable pub comparison_score : Comparison F → F
  comparison_score c =
      let effect = real_or c.expected_effect (f.lit 5 1) in
      let cost = real_or c.expected_cost (f.lit 5 1) in
      let risk = real_or c.quality_risk (f.lit 3 1) in
      let confidence = real_or c.confidence (f.lit 7 1) in
      f.sub (f.sub (f.mul effect confidence) (f.mul (f.lit 35 2) cost)) (f.mul (f.lit 25 2) risk)

  -- The weights given to it and the default ones are the same.
  unfoldable pub evaluate_proposal : CnpConstraints F → Fields F → Option (Evaluated F)
  unfolding normalize_comparison_metrics business_score comparison_score score_against_constraints
      put sub_dict
  evaluate_proposal c proposal =
      let comp = normalize_comparison_metrics parse proposal in
      let out = put "comparison" (object (comparison_fields comp)) proposal in
      elim (business_score (sub_dict "scores" out)) [
        | none ↦ none
        | some business ↦ elim (score_against_constraints out comp c) [
          | none ↦ none
          | some (violation, note) ↦
              let compared = comparison_score comp in
              let final =
                f.sub (f.add (f.mul (f.lit 40 2) business) (f.mul (f.lit 60 2) compared))
                  (f.mul (f.lit 20 2) violation) in
              let b = f.round business 4 in
              let k = f.round compared 4 in
              let v = f.round violation 4 in
              let t = f.round final 4 in
              let d1 = put "business_score" (real b) out in
              let d2 = put "comparison_score" (real k) d1 in
              let d3 = put "constraint_penalty" (real v) d2 in
              let d4 = put "constraint_status" (text note) d3 in
              some (record {
                body = put "total_score" (real t) d4;
                business_score = b;
                comparison_score = k;
                constraint_penalty = v;
                total_score = t;
              })
        ]
      ]
