-- ===== src/Intelligence/Router/Gate.antt =====
-- mas/intelligence/decision_router.py: when the language model is asked, and what becomes of its
-- answer.
use Prim.Native.String.{◌++◌ as append}
use manufacturing_mas.Prelude.{
  String, Bool, true, false, not, ◌&&◌, ◌||◌, Option, none, some, List, [], ◌∷◌, map, str_eq, leb,
  ltb, length, if◌then◌else◌,
}
use manufacturing_mas.Float.{Float}
use manufacturing_mas.Protocol.Actions.{Action, ThinkResult, log_action}
use manufacturing_mas.Protocol.Value.{
  Value, Fields, null, flag, text, list, object, end, field, get_or, ◌or◌,
}
use manufacturing_mas.Intelligence.Router.{
  Analysis, Llm, HybridDecisionRouter, Texts, SensedAlert, message, dict, other, Sensed, number,
}

abbrev is_role : String → Bool
is_role aid =
    str_eq aid "EA" || str_eq aid "QA" || str_eq aid "SA" || str_eq aid "DA" || str_eq aid "IA"

module _ {F : Type 0} where
  abbrev pub is_enabled : Option (Llm F) → Bool
  is_enabled none = false
  is_enabled (some llm) = llm.enabled

  -- `sensed.get("new_alerts") or sensed.get("alerts") or []`
  unfoldable pub alerts_of : Sensed F → List (SensedAlert F)
  alerts_of sensed = elim sensed.new_alerts [ [] ↦ sensed.alerts | a ∷ rest ↦ a ∷ rest ]

  -- The entry of the alert, or of the message's body; none for what is neither.
  unfoldable pub entry : String → SensedAlert F → Option (Value F)
  unfolding get_or
  entry key (message m) = some (get_or key (text "") m.body)
  entry key (dict d) = some (get_or key (text "") d)
  entry key other = none

  unfoldable pub alert_dicts : List (SensedAlert F) → List (Fields F)
  unfolding get_or
  alert_dicts [] = []
  alert_dicts (message m ∷ rest) =
      field "sender" (text m.header.sender) (
        field "type" (get_or "type" (text "") m.body)
          (field "summary" (get_or "summary" (text "") m.body) end))
      ∷ alert_dicts rest
  alert_dicts (dict d ∷ rest) = d ∷ alert_dicts rest
  alert_dicts (other ∷ rest) = alert_dicts rest

module _ {F : Type 0} ⦃f : Float F⦄ where
  abbrev same_number : Option F → Option F → Bool
  same_number (some a) (some b) = f.le a b && f.le b a
  same_number _ _ = false

  -- Equality of the values that a set can hold.
  unfoldable pub same_key : Value F → Value F → Bool
  unfolding number
  same_key null null = true
  same_key (text s) (text t) = str_eq s t
  same_key a b = same_number (number a) (number b)

  unfoldable pub in_set : Value F → List (Value F) → Bool
  unfolding same_key
  in_set v [] = false
  in_set v (w ∷ rest) = same_key v w || in_set v rest

  unfoldable pub add_type : Option (Value F) → List (Value F) → Option (List (Value F))
  unfolding in_set
  add_type none types = some types
  add_type (some (object d)) types = none
  add_type (some (list l)) types = none
  add_type (some v) types = some (if in_set v types then types else v ∷ types)

  -- The loop over the alerts; a dictionary or a list cannot be put into a set.
  unfoldable pub alert_types : List (SensedAlert F) → List (Value F) → Option (List (Value F))
  unfolding add_type entry
  alert_types [] types = some types
  alert_types (a ∷ rest) types = elim (add_type (entry "type" a) types) [
    | none ↦ none
    | some types' ↦ alert_types rest types'
  ]

  unfoldable pub should_use_llm_pa : Sensed F → Option Bool
  unfolding alerts_of alert_types
  should_use_llm_pa sensed =
      if ltb (length (alerts_of sensed)) 2
      then some false
      else elim (alert_types (alerts_of sensed) []) [
        | none ↦ none
        | some types ↦ some (leb 2 (length types))
      ]

  abbrev sev : Texts F → SensedAlert F → String
  unfolding entry ◌or◌
  sev t a = elim (entry "severity" a) [ none ↦ "" | some v ↦ t.upper (t.str (v or text "")) ]

  unfoldable pub any_severe : Texts F → List (SensedAlert F) → Bool
  unfolding sev
  any_severe t [] = false
  any_severe t (a ∷ rest) =
      str_eq (sev t a) "CRITICAL" || str_eq (sev t a) "HIGH" || any_severe t rest

  unfoldable pub should_use_llm_non_pa : Texts F → Sensed F → Bool
  unfolding alerts_of any_severe
  should_use_llm_non_pa t sensed =
      if ltb (length (alerts_of sensed)) 2
      then false
      else if any_severe t (alerts_of sensed)
      then true
      else leb 3 (length (alerts_of sensed))

  unfoldable pub should_route_to_llm :
      Texts F → HybridDecisionRouter F → String → Sensed F → Option Bool
  unfolding should_use_llm_pa should_use_llm_non_pa
  should_route_to_llm t r aid sensed =
      if not (is_enabled r.llm)
      then some false
      else if str_eq aid "PA"
      then should_use_llm_pa sensed
      else if not (str_eq r.llm_router_scope "all_gated") || not r.llm_per_agent_assist
      then some false
      else if not (is_role aid)
      then some false
      else some (should_use_llm_non_pa t sensed)

  abbrev is_nothing : Analysis F → Bool
  is_nothing a = elim a.body [
    | end ↦ elim a.immediate_actions [ [] ↦ true | _ ↦ false ]
    | _ ↦ false
  ]

  abbrev llm_action : Texts F → Value F → Action F
  llm_action t v = log_action (append "LLM → " (t.str v)) "INFO"

  abbrev think : Texts F → String → Analysis F → ThinkResult F
  unfolding get_or
  think t aid a = record {
    actions = map (llm_action t) a.immediate_actions;
    reasoning = append "[" (
        append aid (
          append "] LLM analysis: severity=" (
            append (t.str (get_or "severity" (text "MEDIUM") a.body)) (
              append ", CNP=" (
                append (t.str (get_or "should_initiate_cnp" (flag false) a.body))
                  (append ". " (t.str (get_or "reasoning" (text "") a.body))))))));
    decision_source = "llm";
  }

  unfoldable pub route_to_llm :
      Texts F → HybridDecisionRouter F → String → Sensed F → Fields F → Option (ThinkResult F)
  unfolding alerts_of alert_dicts think
  route_to_llm t r aid sensed snap = elim r.llm [
    | none ↦ none
    | some llm ↦
        if not llm.enabled
        then none
        else elim (llm.analyze_situation snap (alert_dicts (alerts_of sensed)) aid) [
          | none ↦ none
          | some a ↦ if is_nothing a then none else some (think t aid a)
        ]
  ]
