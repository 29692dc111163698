-- ===== src/Messaging/Message.antt =====
-- mas/messaging/message.py: intents, headers and messages. The body, a dict of any values, is a type
-- parameter. Identifiers from `uuid4` and time stamps come in as arguments.
pub mod Dictionary
use manufacturing_mas.Prelude.{String, Option, none, some, str_eq, if◌then◌else◌}

pub data Intent : Type 0 where
  cfp propose accept_proposal reject_proposal : Intent
  inform request alert acknowledge confirm : Intent
  demand_change stock_alert plan_update : Intent
  tool_call tool_result : Intent
  accept_job reject_job : Intent
  status_report : Intent

-- `intent.value`
unfoldable pub value : Intent → String
value cfp = "CFP"
value propose = "PROPOSE"
value accept_proposal = "ACCEPT_PROPOSAL"
value reject_proposal = "REJECT_PROPOSAL"
value inform = "INFORM"
value request = "REQUEST"
value alert = "ALERT"
value acknowledge = "ACKNOWLEDGE"
value confirm = "CONFIRM"
value demand_change = "DEMAND_CHANGE"
value stock_alert = "STOCK_ALERT"
value plan_update = "PLAN_UPDATE"
value tool_call = "TOOL_CALL"
value tool_result = "TOOL_RESULT"
value accept_job = "ACCEPT_JOB"
value reject_job = "REJECT_JOB"
value status_report = "STATUS_REPORT"

pub record MessageHeader : Type 0 where
  pub sender : String
  pub receiver : String
  pub conversation_id : String
  pub timestamp : String
  pub message_id : String
  pub protocol : String

pub record AgentMessage (B : Type 0) : Type 0 where
  pub header : MessageHeader
  pub intent : Intent
  pub body : B

module _ {B : Type 0} where
  -- `conversation_id or str(uuid.uuid4())[:8]`: an absent or an empty identifier is replaced.
  unfoldable pub create :
      String → String → Intent → B → Option String → (fresh stamp id : String) → AgentMessage B
  create sender receiver intent body conversation_id fresh stamp id = record {
    header = record {
      sender = sender;
      receiver = receiver;
      conversation_id = elim conversation_id [
        | none ↦ fresh
        | some c ↦ if str_eq c "" then fresh else c
      ];
      timestamp = stamp;
      message_id = id;
      protocol = "CNP";
    };
    intent = intent;
    body = body;
  }
