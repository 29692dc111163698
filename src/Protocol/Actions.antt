-- ===== src/Protocol/Actions.antt =====
-- mas/protocol/agentic_loop.py: the actions that a decision asks for.
use manufacturing_mas.Prelude.{String, Option, none, List}
use manufacturing_mas.Messaging.Message.{AgentMessage}
use manufacturing_mas.Protocol.Value.{Fields, end}

pub data ActionType : Type 0 where
  tool_call send_message update_state log noop : ActionType

pub record Action (F : Type 0) : Type 0 where
  pub type : ActionType
  pub tool_name : String
  pub tool_kwargs : Fields F
  pub message : Option (AgentMessage (Fields F))
  pub state_update : Fields F
  pub log_msg : String
  pub log_level : String

pub record ThinkResult (F : Type 0) : Type 0 where
  pub actions : List (Action F)
  pub reasoning : String
  pub decision_source : String

module _ {F : Type 0} where
  -- `Action(type=ActionType.LOG, log_msg=..., log_level=...)`
  abbrev pub log_action : String → String → Action F
  log_action msg level = record {
    type = log;
    tool_name = "";
    tool_kwargs = end;
    message = none;
    state_update = end;
    log_msg = msg;
    log_level = level;
  }
