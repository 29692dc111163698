-- ===== src/Messaging/Topics.antt =====
-- mas/messaging/broker.py, the topics and their tables; the agents' identifiers are those of
-- mas/core/manufacturing_ids.py.
use manufacturing_mas.Prelude.{
  ℕ, String, Bool, Option, none, some, List, [], ◌∷◌, ◌==◌, str_eq, if◌then◌else◌,
}
use manufacturing_mas.Messaging.Message.{
  Intent, cfp, propose, accept_proposal, reject_proposal, inform, request, alert, acknowledge,
  confirm, demand_change, stock_alert, plan_update, tool_call, tool_result, accept_job, reject_job,
  status_report,
}

pub data Topic : Type 0 where
  equipment quality supply demand inventory planning broadcast alerts cnp : Topic

abbrev topic_code : Topic → ℕ
topic_code equipment = 0
topic_code quality = 1
topic_code supply = 2
topic_code demand = 3
topic_code inventory = 4
topic_code planning = 5
topic_code broadcast = 6
topic_code alerts = 7
topic_code cnp = 8

abbrev pub topic_eq : Topic → Topic → Bool
topic_eq a b = topic_code a == topic_code b

abbrev pub agent_ids : List String
agent_ids = "EA" ∷ "QA" ∷ "SA" ∷ "DA" ∷ "IA" ∷ "PA" ∷ []

unfoldable pub intent_topic : Intent → Topic
intent_topic cfp = cnp
intent_topic propose = cnp
intent_topic accept_proposal = cnp
intent_topic reject_proposal = cnp
intent_topic alert = alerts
intent_topic demand_change = demand
intent_topic stock_alert = inventory
intent_topic plan_update = planning
intent_topic inform = broadcast
intent_topic request = broadcast
intent_topic acknowledge = broadcast
intent_topic confirm = broadcast
intent_topic tool_call = broadcast
intent_topic tool_result = broadcast
intent_topic accept_job = cnp
intent_topic reject_job = cnp
intent_topic status_report = broadcast

unfoldable pub agent_default_topic : String → Option Topic
agent_default_topic aid =
    if str_eq aid "EA"
    then some equipment
    else if str_eq aid "QA"
    then some quality
    else if str_eq aid "SA"
    then some supply
    else if str_eq aid "DA"
    then some demand
    else if str_eq aid "IA"
    then some inventory
    else if str_eq aid "PA"
    then some planning
    else none
