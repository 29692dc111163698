-- ===== src/Agents/Roles/Alerts/Received.antt =====
-- mas/agents: what the planning agent collects of the alerts that another agent's `act` has sent.
use manufacturing_mas.Prelude.{
  ℕ, ◌+◌, ◌≡◌, refl, String, List, [], ◌∷◌, ◌++◌, arith, str_eq, if◌then◌else◌,
}
use manufacturing_mas.Messaging.Message.{alert}
use manufacturing_mas.Protocol.Value.{Fields, Value, get_or, get, has}
use manufacturing_mas.Agents.Planning.Alerts.{collect_inbox_alerts, count_severity}
use manufacturing_mas.Agents.Roles.Base.{BaseAgent, Stamps, send_message}
use manufacturing_mas.Agents.Roles.Alerts.{RoleAlert, alert_body, send_alerts}

-- The alerts of a severity.
abbrev pub severe : String → List RoleAlert → ℕ
severe level [] = 0
severe level (a ∷ rest) =
    let others = severe level rest in if str_eq a.severity level then others + 1 else others

pub severe-append :
    (level : String) (xs ys : List RoleAlert)
    → severe level (xs ++ ys) ≡ severe level xs + severe level ys
severe-append level [] ys = omega arith
severe-append level (x ∷ xs) ys = ground (arith, severe-append level xs ys)

module _ {F : Type 0} where
  -- Every alert arrives with its severity.
  pub count_severity-send_alerts :
      (level label : String) (stamps : ℕ → Stamps) (i : ℕ) (key : String) (extra : Value F)
      (base : BaseAgent (Fields F)) (alerts : List RoleAlert)
      → count_severity level
          (collect_inbox_alerts (send_alerts label stamps i key extra base alerts).1)
        ≡ severe level alerts
  unfolding send_alerts send_message alert_body collect_inbox_alerts count_severity get_or get has
  count_severity-send_alerts level label stamps i key extra base [] = refl
  count_severity-send_alerts level label stamps i key extra base (a ∷ rest) =
      let (sender, msg) =
        send_message (stamps i) base a.target alert (alert_body base.agent_id key extra a) in
      let later = count_severity-send_alerts level label stamps (i + 1) key extra sender rest in
      ground (arith, later)
