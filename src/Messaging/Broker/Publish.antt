-- ===== src/Messaging/Broker/Publish.antt =====
-- mas/messaging/broker.py: `publish`, `deliver` and `_enqueue`.
use manufacturing_mas.Prelude.{
  ℕ, ◌+◌, String, Bool, false, ◌||◌, Option, none, some, List, [], ◌∷◌, ◌++◌, map, ltb, leb, ◌==◌,
  if◌then◌else◌, str_eq, length, get_elem?, set, push_capped, drop,
}
use manufacturing_mas.Float.{Float}
use manufacturing_mas.Messaging.Message.{AgentMessage}
use manufacturing_mas.Messaging.Topics.{Topic, intent_topic}
use manufacturing_mas.Prelude.Dict.{lookup, insert}
use manufacturing_mas.Messaging.Broker.{
  Broker, MessageEnvelope, latency_ms, record_delivery, max_envelope_log, max_dlq,
}

module _ {B F : Type 0} where
  -- `Queue(maxsize=n)` is bounded for a positive n.
  abbrev pub has_room : Broker B F → List ℕ → Bool
  has_room b q = b.max_queue == 0 || ltb (length q) b.max_queue

  abbrev pub put : Broker B F → String → List ℕ → ℕ → Broker B F
  put b aid q h = record b { agent_queues = insert aid (q ++ h ∷ []) b.agent_queues }

  -- `agent_refs.get(aid)`, and `receive_message` of an agent that is there.
  unfoldable pub hand_over : Broker B F → String → AgentMessage B → Broker B F
  unfolding lookup insert
  hand_over b aid msg = elim (lookup aid b.inboxes) [
    | none ↦ b
    | some inbox ↦ record b { inboxes = insert aid (inbox ++ msg ∷ []) b.inboxes }
  ]

  -- A write through a reference.
  abbrev pub write : Broker B F → ℕ → MessageEnvelope B F → Broker B F
  write b h e = record b { store = set b.store h e }

  unfoldable pub bury : Broker B F → ℕ → Broker B F
  bury b h = record b {
    dlq = b.dlq ++ h ∷ [];
    metrics = record b.metrics { total_dlq = b.metrics.total_dlq + 1 };
  }

-- The topic given, or else that of the intent.
abbrev pub chosen : {B : Type 0} → AgentMessage B → Option Topic → Topic
chosen msg none = intent_topic msg.intent
chosen msg (some t) = t

module _ {B F : Type 0} ⦃f : Float F⦄ where
  unfoldable pub count_delivery : Broker B F → MessageEnvelope B F → Broker B F
  unfolding latency_ms record_delivery
  count_delivery b e = elim (latency_ms e) [
    | none ↦ b
    | some ms ↦ record b { metrics = record_delivery b.metrics ms }
  ]

  -- The second attempt, after the sleep: consumers have taken `freed` messages in the meantime.
  unfoldable pub retry : Broker B F → String → List ℕ → ℕ → MessageEnvelope B F → ℕ → Broker B F
  unfolding count_delivery
  retry b aid q h e freed =
      let left : List ℕ = drop freed q in
      let waited = record b { agent_queues = insert aid left b.agent_queues } in
      if has_room b left then count_delivery (put waited aid left h) e else waited

  unfoldable pub on_full : Broker B F → String → List ℕ → ℕ → MessageEnvelope B F → ℕ → Broker B F
  unfolding retry bury
  on_full b aid q h e freed =
      let e' = record e { retry_count = e.retry_count + 1 } in
      let b' = write b h e' in
      let tried = if ltb e'.retry_count e'.max_retries then retry b' aid q h e' freed else b' in
      if leb e'.max_retries e'.retry_count then bury tried h else tried

  unfoldable pub enqueue : (ℕ → F) → (String → ℕ) → Broker B F → String → ℕ → Broker B F
  unfolding lookup on_full count_delivery hand_over
  enqueue now freed b aid h = elim (lookup aid b.agent_queues) [
    | none ↦ b
    | some q ↦ elim (get_elem? b.store h) [
      | none ↦ b
      | some e ↦
          let e' = record e { delivered_at = some (now b.ticks) } in
          let b' = write (record b { ticks = b.ticks + 1 }) h e' in
          if has_room b q
          then hand_over (count_delivery (put b' aid q h) e') aid e.message
          else on_full b' aid q h e' (freed aid)
    ]
  ]

  -- The loop over the subscribers, in the order in which the set is walked.
  unfoldable pub fan_out :
      (ℕ → F) → (String → ℕ) → Broker B F → String → List String → ℕ → Broker B F
  unfolding enqueue
  fan_out now freed b sender [] h = b
  fan_out now freed b sender (aid ∷ aids) h =
      fan_out now freed (if str_eq aid sender then b else enqueue now freed b aid h) sender aids h

  unfoldable pub new_envelope : AgentMessage B → Topic → F → MessageEnvelope B F
  new_envelope msg topic t = record {
    message = msg;
    envelope_id = msg.header.message_id;
    topic = topic;
    published_at = t;
    delivered_at = none;
    acked = false;
    retry_count = 0;
    max_retries = 3;
  }

  -- The envelope is created, logged and counted.
  unfoldable pub log_envelope : (ℕ → F) → Broker B F → AgentMessage B → Topic → Broker B F
  unfolding new_envelope push_capped
  log_envelope now b msg topic = record b {
    store = b.store ++ new_envelope msg topic (now b.ticks) ∷ [];
    ticks = b.ticks + 1;
    envelope_log = push_capped max_envelope_log 1000 b.envelope_log (length b.store);
    metrics = record b.metrics { total_published = b.metrics.total_published + 1 };
  }

  -- An unknown receiver: here, and only here, the dead-letter queue is trimmed.
  unfoldable pub dead_letter : Broker B F → ℕ → Broker B F
  unfolding push_capped
  dead_letter b h = record b {
    dlq = push_capped max_dlq 250 b.dlq h;
    metrics = record b.metrics { total_dlq = b.metrics.total_dlq + 1 };
  }

  unfoldable pub dispatch :
      (ℕ → F) → (String → ℕ) → Broker B F → AgentMessage B → Topic → ℕ → Broker B F
  unfolding fan_out enqueue dead_letter lookup
  dispatch now freed b msg topic h =
      if str_eq msg.header.receiver "ALL"
      then fan_out now freed b msg.header.sender (b.subscriptions topic) h
      else elim (lookup msg.header.receiver b.agent_queues) [
        | some _ ↦ enqueue now freed b msg.header.receiver h
        | none ↦ dead_letter b h
      ]

  -- Callbacks see the envelope; what they raise is swallowed.
  abbrev notify : Broker B F → ℕ → Broker B F
  notify b h = record b { notified = b.notified ++ map (λ cb. (cb, h)) b.callbacks }

  -- The new state and the reference to the envelope.
  unfoldable pub publish :
      (ℕ → F) → (String → ℕ) → Broker B F → AgentMessage B → Option Topic → Broker B F × ℕ
  unfolding dispatch log_envelope
  publish now freed b msg topic =
      let t = chosen msg topic in
      let h = length b.store in
      (notify (dispatch now freed (log_envelope now b msg t) msg t h) h, h)

  unfoldable pub deliver : (ℕ → F) → (String → ℕ) → Broker B F → AgentMessage B → Broker B F
  unfolding publish
  deliver now freed b msg = (publish now freed b msg none).0
