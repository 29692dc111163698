-- ===== src/Tests/Planning.antt =====
-- mas/agents/planning_agent.py and mas/protocol at concrete inputs.
use mathlib.Core.List.{Perm}
use manufacturing_mas.Prelude.{
  ◌+◌, ◌≤◌, ◌≡◌, ◌⊎◌, ◌↔◌, String, true, false, Option, some, none, List, [], ◌∷◌, arith, length,
}
use manufacturing_mas.Prelude.Int.{ℤ, pos}
use manufacturing_mas.Float.{Fixed, fixed_float, Fixed-IsOrdered}
use manufacturing_mas.Messaging.Message.{alert}
use manufacturing_mas.Protocol.Value.{
  Value, Fields, whole, text, end, field, get_or, overflow, to_int,
}
use manufacturing_mas.Protocol.Session.{
  CnpSession, default_constraints, new_session, clamp_strategy,
}
use manufacturing_mas.Protocol.Session.Clamp.{IsClamped, clamp_strategy_lem}
use manufacturing_mas.Agents.Planning.Evaluate.{Evaluated}
use manufacturing_mas.Agents.Planning.Rank.{
  evaluate_all, rank_proposals_by_comparison, IsRanked, rank_lem,
}
use manufacturing_mas.Agents.Planning.Alerts.{
  Alert, Decision, cnp, IsCalledFor, adjust, critical, reason, count_severity, reason_lem,
}
use manufacturing_mas.Agents.Planning.Round.{
  Bidder, offer, declined, PlanningAgent, World, initiate_cnp,
}

abbrev no_float : String → Option Fixed
no_float _ = none

abbrev no_int : String → Option ℤ
no_int _ = none

abbrev show_text : Value Fixed → String
show_text (text s) = s
show_text _ = "?"

abbrev session : CnpSession Fixed
unfolding new_session
session = new_session default_constraints

-- A speed far above the limit.
abbrev too_fast : Fields Fixed
too_fast = field "target_speed_pct" (whole (pos 250)) (field "inspection_mode" (text "full") end)

clamp_strategy_lem_example :
    ((clamp_strategy no_float show_text session too_fast ≡ none)
      × (to_int no_float (get_or "target_speed_pct" (whole (pos 100)) too_fast) ≡ overflow))
    ⊎ ((d : Fields Fixed) × (clamp_strategy no_float show_text session too_fast ≡ some d)
        × IsClamped show_text session too_fast d)
unfolding new_session default_constraints
clamp_strategy_lem_example = clamp_strategy_lem no_float show_text session too_fast (omega arith)

abbrev slow : Fields Fixed
slow = field "agent" (text "EA") (field "speed_recommendation" (whole (pos 60)) end)

abbrev evaluated : Fields Fixed → Evaluated Fixed
evaluated d = record {
  body = d;
  business_score = pos 0;
  comparison_score = pos 0;
  constraint_penalty = pos 0;
  total_score = pos 0;
}

abbrev proposals : List (Evaluated Fixed)
proposals = evaluated slow ∷ evaluated (field "agent" (text "QA") slow) ∷ []

rank_lem_example :
    ((evaluate_all no_float no_int default_constraints proposals ≡ none)
      × (rank_proposals_by_comparison no_float no_int default_constraints proposals ≡ none))
    ⊎ ((es : List (Evaluated Fixed)) × (ranked : List (Evaluated Fixed)) × (evaluate_all no_float
            no_int default_constraints proposals
          ≡ some es)
        × (rank_proposals_by_comparison no_float no_int default_constraints proposals ≡ some ranked)
        × Perm ranked es
        × IsRanked ranked)
rank_lem_example = rank_lem Fixed-IsOrdered no_float no_int default_constraints proposals

abbrev fire : Alert Fixed
fire = record {
  sender = "EA";
  intent = alert;
  severity = text "CRITICAL";
  summary = text "vibration";
  body = end;
}

reason_lem_example :
    ((reason show_text 0 20 (pos 9000) (fire ∷ []) ≡ none)
      × (fire ∷ [] ≡ [])
      × ¬ IsCalledFor 0 20 (pos 9000) (fire ∷ []))
    ⊎ ((d : Decision) × (reason show_text 0 20 (pos 9000) (fire ∷ []) ≡ some d)
        × (d.alerts_processed ≡ 1)
        × (((d.initiate_cnp ≡ true)
              × (d.action ≡ cnp)
              × IsCalledFor 0 20 (pos 9000) (fire ∷ [])
              × ((d.priority ≡ critical) ↔ (1 ≤ count_severity "CRITICAL" (fire ∷ []))))
            ⊎ ((d.initiate_cnp ≡ false)
                × (d.action ≡ adjust)
                × (1 ≤ length (fire ∷ []))
                × ¬ IsCalledFor 0 20 (pos 9000) (fire ∷ []))))
reason_lem_example = reason_lem show_text 0 20 (pos 9000) (fire ∷ [])

abbrev world : World Fixed
world = record {
  conversation_id = "c-1";
  started_at = pos 10000;
  now = λ n. pos (20000 + n);
  llm = some (λ _. some too_fast);
  parse = no_float;
  parse_int = no_int;
  show = show_text;
  lower = show_text;
}

abbrev planner : PlanningAgent Fixed
planner = record {
  cnp_count = 0;
  last_cnp_cycle = 0;
  strategy_log = [];
  pending_alerts = fire ∷ [];
}

abbrev bidders : List (Bidder Fixed)
bidders =
    record { agent_id = "EA"; handle_cfp = λ _. offer slow }
    ∷ record { agent_id = "PA"; handle_cfp = λ _. declined }
    ∷ []
