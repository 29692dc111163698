-- ===== src/Agents/Roles/Alerts.antt =====
-- mas/agents: the alerts of a decision, and their way out of `act`, which is the same in the supply,
-- the demand, the inventory and, but for a text, the equipment agent.
pub mod Received
use Prim.Native.String.{◌++◌ as append}
use manufacturing_mas.Prelude.{ℕ, ◌+◌, String, List, [], ◌∷◌}
use manufacturing_mas.Messaging.Message.{AgentMessage, alert}
use manufacturing_mas.Protocol.Value.{Fields, Value, text, field, end}
use manufacturing_mas.Agents.Roles.Base.{BaseAgent, Stamps, send_message}

pub record RoleAlert : Type 0 where
  pub target : String
  pub severity : String
  pub message : String

-- The texts of numbers: `f"{x:.nf}"`, `f"{x:.n%}"`, `str` of a float and of a natural number.
pub record Formats (F : Type 0) : Type 0 where
  pub fixed : F → ℕ → String
  pub percent : F → ℕ → String
  pub str_F : F → String
  pub str_N : ℕ → String

module _ {F : Type 0} where
  -- The body of an alert, with the entry that the role adds.
  unfoldable pub alert_body : String → String → Value F → RoleAlert → Fields F
  alert_body source key extra a =
      field "source" (text source) (
        field "severity" (text a.severity) (field "summary" (text a.message) (field key extra end)))

  -- The loop over the alerts: alert `i` is stamped with `stamps i`; its action starts with `label`.
  unfoldable pub send_alerts :
      String
      → (ℕ → Stamps)
      → ℕ
      → String
      → Value F
      → BaseAgent (Fields F)
      → List RoleAlert
      → BaseAgent (Fields F) × List (AgentMessage (Fields F)) × List String
  unfolding send_message alert_body
  send_alerts label stamps i key extra base [] = (base, [], [])
  send_alerts label stamps i key extra base (a ∷ rest) =
      let (sender, msg) =
        send_message (stamps i) base a.target alert (alert_body base.agent_id key extra a) in
      let (final, msgs, actions) = send_alerts label stamps (i + 1) key extra sender rest in
      (final, msg ∷ msgs, append label a.message ∷ actions)
