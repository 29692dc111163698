-- ===== src/Intelligence/Router.antt =====
-- mas/intelligence/decision_router.py: `HybridDecisionRouter`. Where the code raises, the result is
-- none. The language model's client is an argument, as are the clock's readings and Python's `str`,
-- `upper` and the formatting of a float with a number of decimals.
pub mod Unreached
pub mod Interlock
pub mod Accounting
pub mod Gate
pub mod Route
use Prim.Native.String.{◌++◌ as append}
use manufacturing_mas.Prelude.{
  ℕ, ◌+◌, String, Bool, true, false, not, ◌&&◌, ◌||◌, Option, none, some, List, [], ◌∷◌, map,
  str_eq, leb, ltb, length, push_capped, if◌then◌else◌,
}
use manufacturing_mas.Prelude.Int.{pos}
use manufacturing_mas.Float.{Float}
use manufacturing_mas.Messaging.Message.{AgentMessage}
use manufacturing_mas.Protocol.Actions.{ThinkResult, log_action}
use manufacturing_mas.Protocol.Value.{
  Value, Fields, null, flag, whole, real, text, object, end, field, get_or, ◌or◌,
}

pub record DecisionRecord (F : Type 0) : Type 0 where
  pub timestamp : F
  pub agent_id : String
  pub route : String
  pub rule_name : String
  pub reasoning : String
  pub latency_ms : F

pub record RouterMetrics (F : Type 0) : Type 0 where
  pub rule_decisions : ℕ
  pub llm_decisions : ℕ
  pub llm_fallbacks : ℕ
  pub total_latency_ms : F

-- What the model answers: a dictionary, whose list of actions stands apart. A missing list is empty.
pub record Analysis (F : Type 0) : Type 0 where
  pub body : Fields F
  pub immediate_actions : List (Value F)

pub record Llm (F : Type 0) : Type 0 where
  pub enabled : Bool
  pub analyze_situation : Fields F → List (Fields F) → String → Option (Analysis F)

pub record HybridDecisionRouter (F : Type 0) : Type 0 where
  pub llm : Option (Llm F)
  pub llm_router_scope : String
  pub llm_per_agent_assist : Bool
  pub metrics : RouterMetrics F
  pub decision_log : List (DecisionRecord F)

pub record Texts (F : Type 0) : Type 0 where
  pub str : Value F → String
  pub upper : String → String
  pub fixed : F → ℕ → String

pub record Clock (F : Type 0) : Type 0 where
  pub started : F
  pub finished : F
  pub now : F

-- What an agent has sensed, as far as the router reads it; a missing list is empty.
pub data SensedAlert (F : Type 0) : Type 0 where
  message : AgentMessage (Fields F) → SensedAlert F
  dict : Fields F → SensedAlert F
  other : SensedAlert F

pub record Sensed (F : Type 0) : Type 0 where
  pub new_alerts : List (SensedAlert F)
  pub alerts : List (SensedAlert F)

abbrev pub RuleResult : Type 0 → Type 0
RuleResult F = Option (Option (ThinkResult F))

module _ {F : Type 0} ⦃f : Float F⦄ where
  -- The counters start at zero and the log empty.
  unfoldable pub new_router : Option (Llm F) → String → Bool → HybridDecisionRouter F
  new_router llm scope assist = record {
    llm = llm;
    llm_router_scope = scope;
    llm_per_agent_assist = assist;
    metrics = record {
      rule_decisions = 0;
      llm_decisions = 0;
      llm_fallbacks = 0;
      total_latency_ms = f.lit 0 1;
    };
    decision_log = [];
  }

  -- The value of an entry that is compared with a number; on any other, the comparison raises.
  unfoldable pub number : Value F → Option F
  number (flag b) = some (if b then f.lit 1 0 else f.lit 0 0)
  number (whole n) = some (f.of_int n)
  number (real x) = some x
  number _ = none

  abbrev rule : String → String → ThinkResult F
  rule msg reasoning = record {
    actions = log_action msg "ALERT" ∷ [];
    reasoning = reasoning;
    decision_source = "rule";
  }

  unfoldable pub oil_rule : Texts F → F → Option (ThinkResult F)
  oil_rule t oil =
      if f.le (f.lit 750 1) oil
      then some (
          rule (append "[유온위험] " (append (t.fixed oil 0) "°C ≥ 75.0°C"))
            (append "Safety interlock: oil temp " (append (t.fixed oil 0) " >= critical")))
      else none

  unfoldable pub check_safety_rules : Texts F → Fields F → RuleResult F
  unfolding number get_or oil_rule
  check_safety_rules t snap = elim (number (get_or "vibration" (whole (pos 0)) snap)) [
    | none ↦ none
    | some vib ↦
        if f.le (f.lit 55 1) vib
        then some (
            some (
              rule (append "[비상정지] 진동 " (append (t.fixed vib 1) "mm/s ≥ 5.5")) (
                append "Safety interlock: vibration "
                  (append (t.fixed vib 1) " >= emergency threshold"))))
        else elim (number (get_or "oil_temp" (whole (pos 0)) snap)) [
          | none ↦ none
          | some oil ↦ some (oil_rule t oil)
        ]
  ]

  unfoldable pub ea_rules : Texts F → Fields F → RuleResult F
  unfolding number get_or
  ea_rules t snap = elim (number (get_or "vibration" (whole (pos 0)) snap)) [
    | none ↦ none
    | some vib ↦ some (
        if f.le (f.lit 45 1) vib
        then some (
            rule (append "Rule: 진동 " (append (t.fixed vib 1) " ≥ 4.5 → 즉시 감속")) (
              append "Threshold rule: vib "
                (append (t.fixed vib 1) " >= critical, force speed reduction")))
        else none)
  ]

  unfoldable pub sa_rules : Texts F → Fields F → RuleResult F
  unfolding number get_or
  sa_rules t snap = elim (number (get_or "material_buffer_hours" (whole (pos 99)) snap)) [
    | none ↦ none
    | some buf ↦ some (
        if f.lt buf (f.lit 10 1)
        then some (
            rule (append "Rule: 자재 버퍼 " (append (t.fixed buf 1) "h < 1.0h → 긴급 보충"))
              (append "Threshold rule: material buffer critical (" (append (t.fixed buf 1) "h)")))
        else none)
  ]

  unfoldable pub check_threshold_rules : Texts F → String → Fields F → RuleResult F
  unfolding ea_rules sa_rules
  check_threshold_rules t aid snap =
      if str_eq aid "EA"
      then ea_rules t snap
      else if str_eq aid "SA"
      then sa_rules t snap
      else some none
