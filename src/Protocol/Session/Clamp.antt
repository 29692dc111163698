-- ===== src/Protocol/Session/Clamp.antt =====
-- mas/protocol/cnp_session.py: what the clamp makes of any strategy.
use manufacturing_mas.Prelude.{
  ◌≡◌, refl, ◌∙◌, ◌⊎◌, inl, inr, String, true, ◌||◌, Option, none, some, ap,
}
use manufacturing_mas.Prelude.Int.{ℤ, pos, ◌≤ℤ◌, ltb_ℤ, max_ℤ-min_ℤ_bounds}
use manufacturing_mas.Float.{Float}
use manufacturing_mas.Protocol.Value.{
  Value, Fields, flag, whole, text, get, get_or, put, Cast, overflow, cast, wrong, to_int,
}
use manufacturing_mas.Protocol.Value.Entries.{get-put_self, get-put_other, get_or-put_other}
use manufacturing_mas.Protocol.Session.{
  CnpSession, protocol_version, clamp, clamp_strategy, apply_constraints, speed_or_100, is_full,
}

-- A strategy that respects the constraints of the session.
pub record IsClamped {F : Type 0} (lower : Value F → String) (s : CnpSession F)
    (strategy d : Fields F) : Type 0 where
  pub speed : ℤ
  pub is_speed : get "target_speed_pct" d ≡ whole speed
  pub low : s.constraints.speed_min_pct ≤ℤ speed
  pub high : speed ≤ℤ s.constraints.speed_max_pct
  pub approval :
      get "approval_required" d
      ≡ flag (ltb_ℤ speed (pos 70) || is_full (lower (get_or "inspection_mode" (text "") strategy)))
  pub conversation : get "conversation_id" d ≡ text s.conversation_id
  pub mode : get_or "inspection_mode" (text "") d ≡ get_or "inspection_mode" (text "") strategy

module _ {F : Type 0} (lower : Value F → String) where
  apply_constraints-IsClamped :
      (s : CnpSession F) (sp : ℤ) (strategy : Fields F)
      → s.constraints.speed_min_pct ≤ℤ sp
      → sp ≤ℤ s.constraints.speed_max_pct
      → IsClamped lower s strategy (apply_constraints lower s sp strategy)
  unfolding apply_constraints
  apply_constraints-IsClamped s sp strategy low high =
      let d1 = put "target_speed_pct" (whole sp) strategy in
      let d2 = put "constraints_applied" (flag true) d1 in
      let d3 = put "protocol_version" (text protocol_version) d2 in
      let d4 = put "conversation_id" (text s.conversation_id) d3 in
      let mode : get_or "inspection_mode" (text "") d4
          ≡ get_or "inspection_mode" (text "") strategy =
        get_or-put_other "conversation_id" "inspection_mode" _ _ d3 refl
        ∙ get_or-put_other "protocol_version" "inspection_mode" _ _ d2 refl
        ∙ get_or-put_other "constraints_applied" "inspection_mode" _ _ d1 refl
        ∙ get_or-put_other "target_speed_pct" "inspection_mode" _ _ strategy refl in
      record {
        speed = sp;
        is_speed =
            get-put_other "approval_required" "target_speed_pct" _ d4 refl
            ∙ get-put_other "conversation_id" "target_speed_pct" _ d3 refl
            ∙ get-put_other "protocol_version" "target_speed_pct" _ d2 refl
            ∙ get-put_other "constraints_applied" "target_speed_pct" _ d1 refl
            ∙ get-put_self "target_speed_pct" (whole sp) strategy;
        low = low;
        high = high;
        approval =
            get-put_self "approval_required" _ d4
            ∙ ap (λ v. flag (ltb_ℤ sp (pos 70) || is_full (lower v))) mode;
        conversation =
            get-put_other "approval_required" "conversation_id" _ d4 refl
            ∙ get-put_self "conversation_id" _ d3;
        mode = get_or-put_other "approval_required" "inspection_mode" _ _ d4 refl ∙ mode;
      }

module _ {F : Type 0} ⦃f : Float F⦄ (parse : String → Option F) (lower : Value F → String) where
  -- Whatever a strategy says, be it the rules' or the language model's, the clamp either raises, and
  -- then the speed is infinite, or returns a strategy whose speed lies within the session's limits,
  -- which asks for an approval exactly if that speed is below 70 or the inspection is full, and which
  -- carries the session's identifier.
  pub clamp_strategy_lem :
      (s : CnpSession F) (strategy : Fields F)
      → s.constraints.speed_min_pct ≤ℤ s.constraints.speed_max_pct
      → ((clamp_strategy parse lower s strategy ≡ none)
          × (to_int parse (get_or "target_speed_pct" (whole (pos 100)) strategy) ≡ overflow))
        ⊎ ((d : Fields F) × (clamp_strategy parse lower s strategy ≡ some d)
            × IsClamped lower s strategy d)
  unfolding clamp_strategy speed_or_100 clamp
  clamp_strategy_lem s strategy range =
      split (to_int parse (get_or "target_speed_pct" (whole (pos 100)) strategy)) refl
    where
      v : Value F
      v = get_or "target_speed_pct" (whole (pos 100)) strategy

      kept :
          (sp : ℤ)
          → speed_or_100 parse v ≡ some sp
          → ((clamp_strategy parse lower s strategy ≡ none) × (to_int parse v ≡ overflow))
            ⊎ ((d : Fields F) × (clamp_strategy parse lower s strategy ≡ some d)
                × IsClamped lower s strategy d)
      kept sp e =
          let (low, high) =
            max_ℤ-min_ℤ_bounds s.constraints.speed_min_pct s.constraints.speed_max_pct sp range in
          inr (
            apply_constraints lower s (clamp s.constraints sp) strategy,
            rw (e, clamp_strategy) refl,
            apply_constraints-IsClamped lower s (clamp s.constraints sp) strategy low high,
          )

      split :
          (c : Cast ℤ)
          → to_int parse v ≡ c
          → ((clamp_strategy parse lower s strategy ≡ none) × (to_int parse v ≡ overflow))
            ⊎ ((d : Fields F) × (clamp_strategy parse lower s strategy ≡ some d)
                × IsClamped lower s strategy d)
      split (cast sp) e = kept sp (rw (e, speed_or_100) refl)
      split wrong e = kept (pos 100) (rw (e, speed_or_100) refl)
      split overflow e =
          let raised : speed_or_100 parse v ≡ none = rw (e, speed_or_100) refl in
          inl (rw (raised, clamp_strategy) refl, e)
