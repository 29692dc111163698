-- ===== src/Protocol/Session.antt =====
-- mas/protocol/cnp_session.py: `CNPSession`.
pub mod Clamp
use manufacturing_mas.Prelude.{
  ℕ, ◌+◌, ◌≤◌, ◌≡◌, refl, ◌⊎◌, inl, inr, String, Bool, true, false, not, ◌&&◌, ◌||◌, Option, none,
  some, List, [], ◌∷◌, arith, str_eq, if◌then◌else◌,
}
use manufacturing_mas.Prelude.Int.{
  ℤ, pos, pos_part, neg_part, ◌≤ℤ◌, ltb_ℤ, leb_ℤ, max_ℤ, min_ℤ, max_ℤ-min_ℤ_bounds,
}
use manufacturing_mas.Float.{Float}
use manufacturing_mas.Protocol.Value.{
  Value, Fields, null, flag, whole, text, object, end, field, get, get_or, put, Cast, cast, wrong,
  overflow, to_int, real,
}

pub data CnpState : Type 0 where
  idle cfp_open collecting evaluating completed timeout cancelled : CnpState

abbrev pub protocol_version : String
protocol_version = "cnp/1"

pub record CnpConstraints (F : Type 0) : Type 0 where
  pub speed_min_pct : ℤ
  pub speed_max_pct : ℤ
  pub deadline_sec : F

pub record CnpSession (F : Type 0) : Type 0 where
  pub constraints : CnpConstraints F
  pub state : CnpState
  pub conversation_id : String
  pub started_at : F

module _ {F : Type 0} ⦃f : Float F⦄ where
  unfoldable pub default_constraints : CnpConstraints F
  default_constraints = record {
    speed_min_pct = pos 40;
    speed_max_pct = pos 100;
    deadline_sec = f.lit 450 1;
  }

  unfoldable pub new_session : CnpConstraints F → CnpSession F
  new_session constraints = record {
    constraints = constraints;
    state = idle;
    conversation_id = "";
    started_at = f.lit 0 1;
  }

  -- `id` is the new conversation's, `now` the time.
  unfoldable pub begin : String → F → CnpSession F → CnpSession F
  begin id now s = record s { conversation_id = id; started_at = now; state = cfp_open }

  unfoldable pub mark : CnpState → CnpSession F → CnpSession F
  mark state s = record s { state = state }

  unfoldable pub is_expired : F → CnpSession F → Bool
  is_expired now s =
      if f.le s.started_at (f.lit 0 0)
      then false
      else f.lt s.constraints.deadline_sec (f.sub now s.started_at)

  -- max(lo, min(hi, speed))
  unfoldable pub clamp : CnpConstraints F → ℤ → ℤ
  clamp c speed = max_ℤ c.speed_min_pct (min_ℤ c.speed_max_pct speed)

-- The inspection modes, in lower case, that need an approval. `lower` is `str(v).lower()`.
abbrev pub is_full : String → Bool
is_full mode = str_eq mode "all" || str_eq mode "full" || str_eq mode "전수"

module _ {F : Type 0} where
  unfoldable pub apply_constraints : (Value F → String) → CnpSession F → ℤ → Fields F → Fields F
  unfolding put get_or
  apply_constraints lower s sp strategy =
      let d1 = put "target_speed_pct" (whole sp) strategy in
      let d2 = put "constraints_applied" (flag true) d1 in
      let d3 = put "protocol_version" (text protocol_version) d2 in
      let d4 = put "conversation_id" (text s.conversation_id) d3 in
      put "approval_required"
        (flag (ltb_ℤ sp (pos 70) || is_full (lower (get_or "inspection_mode" (text "") d4)))) d4

module _ {F : Type 0} ⦃f : Float F⦄ (parse : String → Option F) where
  abbrev speed_of : Fields F → Value F
  unfolding get_or
  speed_of proposal =
      get_or "speed_recommendation" (get_or "target_speed_pct" (whole (pos 100)) proposal) proposal

  -- None stands for an exception: an infinite speed is an OverflowError, which is not caught.
  unfoldable pub validate_proposal : CnpSession F → Fields F → Option Bool
  unfolding to_int speed_of
  validate_proposal s proposal = elim (to_int parse (speed_of proposal)) [
    | cast sp ↦ some (leb_ℤ s.constraints.speed_min_pct sp && leb_ℤ sp s.constraints.speed_max_pct)
    | wrong ↦ some false
    | overflow ↦ none
  ]

  -- `int(float(v))` with 100 for what is no number.
  unfoldable pub speed_or_100 : Value F → Option ℤ
  unfolding to_int
  speed_or_100 v = elim (to_int parse v) [
    | cast sp ↦ some sp
    | wrong ↦ some (pos 100)
    | overflow ↦ none
  ]

  unfoldable pub clamp_strategy : (Value F → String) → CnpSession F → Fields F → Option (Fields F)
  unfolding speed_or_100 clamp apply_constraints get_or
  clamp_strategy lower s strategy =
      elim (speed_or_100 (get_or "target_speed_pct" (whole (pos 100)) strategy)) [
        | none ↦ none
        | some sp ↦ some (apply_constraints lower s (clamp s.constraints sp) strategy)
      ]

module _ {F : Type 0} where
  unfoldable pub to_cfp_body : CnpSession F → String → Fields F
  to_cfp_body s situation =
      let c = s.constraints in
      field "protocol_version" (text protocol_version) (
        field "conversation_id" (text s.conversation_id) (
          field "constraints"
            (object (
              field "speed_min_pct" (whole c.speed_min_pct) (
                field "speed_max_pct" (whole c.speed_max_pct)
                  (field "deadline_sec" (real c.deadline_sec) end))))
            (field "situation" (text situation) (field "summary" (text "CNP 입찰 요청 (CFP)") end))))
