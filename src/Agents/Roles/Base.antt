-- ===== src/Agents/Roles/Base.antt =====
-- mas/agents/base_agent.py: the mailboxes of an agent and its reasoning log. A new message's
-- conversation, time stamp and identifier are an argument.
pub mod Mailbox
use manufacturing_mas.Prelude.{String, none, List, [], ◌∷◌, ◌++◌, push_capped}
use manufacturing_mas.Messaging.Message.{AgentMessage, Intent, create}

pub record Stamps : Type 0 where
  pub conversation_id : String
  pub timestamp : String
  pub message_id : String

pub record BaseAgent (B : Type 0) : Type 0 where
  pub agent_id : String
  pub inbox : List (AgentMessage B)
  pub outbox : List (AgentMessage B)
  pub reasoning_log : List String

module _ {B : Type 0} where
  unfoldable pub new_agent : String → BaseAgent B
  new_agent agent_id = record { agent_id = agent_id; inbox = []; outbox = []; reasoning_log = [] }

  -- The agent after, and the message for the broker.
  unfoldable pub send_message :
      Stamps → BaseAgent B → String → Intent → B → BaseAgent B × AgentMessage B
  unfolding create
  send_message at a receiver intent body =
      let msg =
        create a.agent_id receiver intent body none at.conversation_id at.timestamp at.message_id in
      (record a { outbox = a.outbox ++ msg ∷ [] }, msg)

  unfoldable pub receive_message : BaseAgent B → AgentMessage B → BaseAgent B
  receive_message a msg = record a { inbox = a.inbox ++ msg ∷ [] }

  unfoldable pub pop_inbox : BaseAgent B → BaseAgent B × List (AgentMessage B)
  pop_inbox a = (record a { inbox = [] }, a.inbox)

  -- The last 50 lines are kept.
  unfoldable pub log_reasoning : BaseAgent B → String → BaseAgent B
  unfolding push_capped
  log_reasoning a line = record a { reasoning_log = push_capped 50 50 a.reasoning_log line }
