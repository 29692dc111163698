-- ===== src/Messaging/Message/Dictionary.antt =====
-- mas/messaging/message.py: `to_dict`, and a reader of what it writes.
use manufacturing_mas.Prelude.{
  ◌≡◌, refl, String, Option, none, some, List, [], ◌∷◌, str_eq, if◌then◌else◌,
}
use manufacturing_mas.Protocol.Value.{Value, Fields, text, object, end, field, get}
use manufacturing_mas.Messaging.Message.{
  Intent, MessageHeader, AgentMessage, value, cfp, propose, accept_proposal, reject_proposal,
  inform, request, alert, acknowledge, confirm, demand_change, stock_alert, plan_update, tool_call,
  tool_result, accept_job, reject_job, status_report,
}

module _ {F : Type 0} where
  abbrev header_dict : MessageHeader → Fields F
  header_dict h = field "sender" (text h.sender) (
      field "receiver" (text h.receiver) (
        field "conversation_id" (text h.conversation_id) (
          field "timestamp" (text h.timestamp)
            (field "message_id" (text h.message_id) (field "protocol" (text h.protocol) end)))))

  unfoldable pub to_dict : AgentMessage (Fields F) → Fields F
  unfolding value
  to_dict m =
      field "header" (object (header_dict m.header))
        (field "intent" (text (value m.intent)) (field "body" (object m.body) end))

-- The intent of a text.
abbrev intents : List Intent
intents =
    cfp ∷ propose ∷ accept_proposal ∷ reject_proposal ∷ inform ∷ request ∷ alert ∷ acknowledge
    ∷ confirm ∷ demand_change ∷ stock_alert ∷ plan_update ∷ tool_call ∷ tool_result ∷ accept_job
    ∷ reject_job ∷ status_report ∷ []

unfoldable pub intent_of : String → List Intent → Option Intent
unfolding value
intent_of s [] = none
intent_of s (i ∷ rest) = if str_eq (value i) s then some i else intent_of s rest

intent_of-value : (i : Intent) → intent_of (value i) intents ≡ some i
unfolding intent_of value
intent_of-value cfp = refl
intent_of-value propose = refl
intent_of-value accept_proposal = refl
intent_of-value reject_proposal = refl
intent_of-value inform = refl
intent_of-value request = refl
intent_of-value alert = refl
intent_of-value acknowledge = refl
intent_of-value confirm = refl
intent_of-value demand_change = refl
intent_of-value stock_alert = refl
intent_of-value plan_update = refl
intent_of-value tool_call = refl
intent_of-value tool_result = refl
intent_of-value accept_job = refl
intent_of-value reject_job = refl
intent_of-value status_report = refl

module _ {F : Type 0} where
  abbrev as_text : Value F → Option String
  as_text (text s) = some s
  as_text _ = none

  abbrev as_object : Value F → Option (Fields F)
  as_object (object d) = some d
  as_object _ = none

  header_of : Fields F → Option MessageHeader
  unfolding get
  header_of d = elim (as_text (get "sender" d)) [
    | none ↦ none
    | some sender ↦ elim (as_text (get "receiver" d)) [
      | none ↦ none
      | some receiver ↦ elim (as_text (get "conversation_id" d)) [
        | none ↦ none
        | some conversation_id ↦ elim (as_text (get "timestamp" d)) [
          | none ↦ none
          | some timestamp ↦ elim (as_text (get "message_id" d)) [
            | none ↦ none
            | some message_id ↦ elim (as_text (get "protocol" d)) [
              | none ↦ none
              | some protocol ↦ some (record {
                sender = sender;
                receiver = receiver;
                conversation_id = conversation_id;
                timestamp = timestamp;
                message_id = message_id;
                protocol = protocol;
              })
            ]
          ]
        ]
      ]
    ]
  ]

  -- The message that such a dictionary stands for.
  unfoldable pub from_dict : Fields F → Option (AgentMessage (Fields F))
  unfolding get header_of intent_of
  from_dict d = elim (as_object (get "header" d)) [
    | none ↦ none
    | some h ↦ elim (header_of h) [
      | none ↦ none
      | some header ↦ elim (as_text (get "intent" d)) [
        | none ↦ none
        | some s ↦ elim (intent_of s intents) [
          | none ↦ none
          | some intent ↦ elim (as_object (get "body" d)) [
            | none ↦ none
            | some body ↦ some (record { header = header; intent = intent; body = body })
          ]
        ]
      ]
    ]
  ]

  -- The dictionary of a message determines it: the reader gives back every message with its header, its
  -- intent and its body.
  pub from_dict-to_dict : (m : AgentMessage (Fields F)) → from_dict (to_dict m) ≡ some m
  unfolding to_dict from_dict header_of get
  from_dict-to_dict m = rw (intent_of-value m.intent, from_dict) refl
