-- ===== src/Agents/Planning/Alerts.antt =====
-- mas/agents/planning_sub/alert_collector.py and `reason` of mas/agents/planning_agent.py: from the
-- inbox to the decision to negotiate. The lines of the reasoning log are left out. `show` is `str` of a
-- value.
use Prim.Native.String.{◌++◌ as append}
use manufacturing_mas.Prelude.{
  ℕ, zero, suc, ◌+◌, ◌≤◌, ◌<◌, ◌≡◌, refl, ◌⊎◌, ◌↔◌, inl, inr, String, Bool, true, false, ◌&&◌, ◌||◌,
  Option, none, some, List, [], ◌∷◌, arith, leb, ltb, if◌then◌else◌, str_eq, length, Bool-cases,
}
use manufacturing_mas.Float.{Float}
use manufacturing_mas.Messaging.Message.{AgentMessage, Intent, alert, stock_alert, demand_change}
use manufacturing_mas.Protocol.Value.{Value, Fields, text, get_or}

-- The body of the message is kept in the message.
pub record Alert (F : Type 0) : Type 0 where
  pub sender : String
  pub intent : Intent
  pub severity : Value F
  pub summary : Value F
  pub body : Fields F

abbrev pub is_alert : Intent → Bool
is_alert alert = true
is_alert stock_alert = true
is_alert demand_change = true
is_alert _ = false

-- `s[:n]`
take_chars : ℕ → String → String
take_chars zero s = ""
take_chars (suc n) String.[] = ""
take_chars (suc n) (String.◌∷◌ c s) = String.◌∷◌ c (take_chars n s)

module _ {F : Type 0} where
  unfoldable pub collect_inbox_alerts : List (AgentMessage (Fields F)) → List (Alert F)
  unfolding get_or
  collect_inbox_alerts [] = []
  collect_inbox_alerts (msg ∷ rest) =
      let others = collect_inbox_alerts rest in
      if is_alert msg.intent
      then record {
        sender = msg.header.sender;
        intent = msg.intent;
        severity = get_or "severity" (text "LOW") msg.body;
        summary = get_or "summary" (text "") msg.body;
        body = msg.body;
      }
        ∷ others
      else others

  abbrev is_text : String → Value F → Bool
  is_text s (text t) = str_eq t s
  is_text s _ = false

  unfoldable pub count_severity : String → List (Alert F) → ℕ
  count_severity level [] = 0
  count_severity level (a ∷ rest) =
      let others = count_severity level rest in
      if is_text level a.severity then others + 1 else others

  summarize_part : (Value F → String) → Alert F → String
  unfolding take_chars
  summarize_part show a = append a.sender (append ": " (take_chars 40 (show a.summary)))

  -- At most three alerts, joined.
  unfoldable pub summarize_alerts : (Value F → String) → List (Alert F) → String
  unfolding summarize_part
  summarize_alerts show [] = "steady-state monitoring"
  summarize_alerts show (a ∷ []) = summarize_part show a
  summarize_alerts show (a ∷ b ∷ []) =
      append (summarize_part show a) (append " | " (summarize_part show b))
  summarize_alerts show (a ∷ b ∷ c ∷ _) =
      append (summarize_part show a)
        (append " | " (append (summarize_part show b) (append " | " (summarize_part show c))))

pub data Action : Type 0 where
  cnp adjust : Action

pub data Priority : Type 0 where
  medium high critical : Priority

pub record Decision : Type 0 where
  pub action : Action
  pub initiate_cnp : Bool
  pub alerts_processed : ℕ
  pub priority : Priority
  pub cnp_reason : Option String

abbrev is_empty : {A : Type 0} → List A → Bool
is_empty [] = true
is_empty _ = false

module _ {F : Type 0} ⦃f : Float F⦄ where
  -- The test for a negotiation, with the pause since the last one; `cycle - last > n` is over the
  -- integers.
  unfoldable pub should_cnp : ℕ → ℕ → F → List (Alert F) → Bool
  unfolding count_severity
  should_cnp last cycle avg_oee alerts =
      (leb 1 (count_severity "CRITICAL" alerts)
        || leb 2 (count_severity "HIGH" alerts)
        || (f.lt avg_oee (f.lit 65 2) && ltb (last + 30) cycle))
      && ltb (last + 10) cycle

  -- `last` is the cycle of the last negotiation.
  unfoldable pub reason : (Value F → String) → ℕ → ℕ → F → List (Alert F) → Option Decision
  unfolding should_cnp count_severity summarize_alerts
  reason show last cycle avg_oee alerts =
      if should_cnp last cycle avg_oee alerts
      then some (record {
        action = cnp;
        initiate_cnp = true;
        alerts_processed = length alerts;
        priority = if ltb 0 (count_severity "CRITICAL" alerts) then critical else high;
        cnp_reason = some (summarize_alerts show alerts);
      })
      else if is_empty alerts
      then none
      else some (record {
        action = adjust;
        initiate_cnp = false;
        alerts_processed = length alerts;
        priority = medium;
        cnp_reason = none;
      })

  is_empty_lem : (alerts : List (Alert F)) → is_empty alerts ≡ true → alerts ≡ []
  is_empty_lem [] h = refl
  is_empty_lem (a ∷ rest) h = absurd (ground (arith, h))

  not_empty : (alerts : List (Alert F)) → is_empty alerts ≡ false → 1 ≤ length alerts
  not_empty [] h = absurd (ground (arith, h))
  not_empty (a ∷ rest) h = omega arith

  -- What calls for a negotiation.
  abbrev pub IsCalledFor : ℕ → ℕ → F → List (Alert F) → Type 0
  IsCalledFor last cycle avg_oee alerts =
      (last + 10 < cycle)
      × ((1 ≤ count_severity "CRITICAL" alerts)
          ⊎ ((2 ≤ count_severity "HIGH" alerts)
              ⊎ ((f.lt avg_oee (f.lit 65 2) ≡ true) × (last + 30 < cycle))))

  should_cnp-IsCalledFor :
      (last cycle : ℕ) (avg_oee : F) (alerts : List (Alert F))
      → (should_cnp last cycle avg_oee alerts ≡ true) ↔ IsCalledFor last cycle avg_oee alerts
  unfolding should_cnp
  should_cnp-IsCalledFor last cycle avg_oee alerts =
      (λ h. ground (arith, h), λ h. ground (arith, h))

  uncalled :
      (last cycle : ℕ) (avg_oee : F) (alerts : List (Alert F))
      → should_cnp last cycle avg_oee alerts ≡ false
      → ¬ IsCalledFor last cycle avg_oee alerts
  uncalled last cycle avg_oee alerts h c =
      let yes = (should_cnp-IsCalledFor last cycle avg_oee alerts).1 c in ground (arith, h, yes)

  -- The planning agent opens a negotiation exactly if more than 10 cycles have passed since the last
  -- one, and there is a critical alert, or two of high severity, or the efficiency is below 0.65 and
  -- more than 30 cycles have passed. Else it does nothing without an alert, and with one it adjusts,
  -- without a negotiation. The priority of a negotiation is critical exactly with a critical alert.
  pub reason_lem :
      (show : Value F → String) (last cycle : ℕ) (avg_oee : F) (alerts : List (Alert F))
      → ((reason show last cycle avg_oee alerts ≡ none)
          × (alerts ≡ [])
          × ¬ IsCalledFor last cycle avg_oee alerts)
        ⊎ ((d : Decision) × (reason show last cycle avg_oee alerts ≡ some d)
            × (d.alerts_processed ≡ length alerts)
            × (((d.initiate_cnp ≡ true)
                  × (d.action ≡ cnp)
                  × IsCalledFor last cycle avg_oee alerts
                  × ((d.priority ≡ critical) ↔ (1 ≤ count_severity "CRITICAL" alerts)))
                ⊎ ((d.initiate_cnp ≡ false)
                    × (d.action ≡ adjust)
                    × (1 ≤ length alerts)
                    × ¬ IsCalledFor last cycle avg_oee alerts)))
  unfolding reason
  reason_lem show last cycle avg_oee alerts =
      let (called, calls) = should_cnp-IsCalledFor last cycle avg_oee alerts in
      elim (Bool-cases (should_cnp last cycle avg_oee alerts)) [
        | inl negotiate ↦
            let cause = called negotiate in
            rw (negotiate, reason)
              (inr (_, refl, refl, inl (refl, refl, cause, (ground arith, ground arith))))
        | inr wait ↦ elim (Bool-cases (is_empty alerts)) [
          | inl nothing ↦
              rw (wait, nothing, reason)
                (inl (refl, is_empty_lem alerts nothing, uncalled last cycle avg_oee alerts wait))
          | inr something ↦
              rw (wait, something, reason)
                (inr (
                  _,
                  refl,
                  refl,
                  inr (
                    refl,
                    refl,
                    not_empty alerts something,
                    uncalled last cycle avg_oee alerts wait,
                  ),
                ))
        ]
      ]
