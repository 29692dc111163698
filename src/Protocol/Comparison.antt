-- ===== src/Protocol/Comparison.antt =====
-- mas/protocol/cnp_comparison.py: proposals on one scale. The action is kept as the value that `str`
-- turns into a text.
use manufacturing_mas.Prelude.{String, Option, if◌then◌else◌}
use manufacturing_mas.Float.{Float}
use manufacturing_mas.Protocol.Value.{
  Value, Fields, text, object, end, get, has, ◌or◌, cast, to_float,
}

pub record Comparison (F : Type 0) : Type 0 where
  pub candidate_action : Value F
  pub expected_effect : F
  pub expected_cost : F
  pub quality_risk : F
  pub delivery_impact : F
  pub material_impact : F
  pub constraint_violation : F
  pub confidence : F

module _ {F : Type 0} where
  -- The dictionary under a key, or the empty one.
  unfoldable pub sub_dict : String → Fields F → Fields F
  unfolding get
  sub_dict key d = elim (get key d) [ object fields ↦ fields | _ ↦ end ]

  -- A lookup in `{**pm, **comp}`: the second dictionary wins.
  unfoldable pub merged_get : Fields F → Fields F → String → Value F
  unfolding get has
  merged_get pm comp key = if has key comp then get key comp else get key pm

module _ {F : Type 0} ⦃f : Float F⦄ (parse : String → Option F) where
  -- `_f`: what is no number is the default.
  unfoldable pub number_or : F → Value F → F
  unfolding to_float
  number_or default v = elim (to_float parse v) [ cast x ↦ x | _ ↦ default ]

  unfoldable pub normalize_comparison_metrics : Fields F → Comparison F
  unfolding sub_dict merged_get number_or get ◌or◌
  normalize_comparison_metrics raw =
      let m = merged_get (sub_dict "proposal_metrics" raw) (sub_dict "comparison" raw) in
      record {
        candidate_action =
            m "candidate_action" or get "proposal" raw or m "action" or text "unspecified";
        expected_effect = number_or (f.lit 5 1) (m "expected_effect" or m "expected_benefit");
        expected_cost =
            number_or (f.lit 5 1)
              (m "expected_cost" or m "cost_estimate" or m "cost_estimate_norm");
        quality_risk = number_or (f.lit 3 1) (m "quality_risk");
        delivery_impact = number_or (f.lit 0 1) (m "delivery_impact");
        material_impact = number_or (f.lit 2 1) (m "material_impact");
        constraint_violation =
            number_or (f.lit 0 1) (m "constraint_violation" or m "constraint_violation_total");
        confidence = number_or (f.lit 7 1) (m "confidence" or m "recommendation_confidence");
      }
