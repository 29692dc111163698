-- ===== src/Messaging/Broker/Bounds/Routing.antt =====
-- mas/messaging/broker.py: whatever is published, the bounds of the broker hold.
use manufacturing_mas.Prelude.{
  ℕ, suc, ◌+◌, ◌<◌, refl, inl, inr, String, Option, some, List, [], ◌∷◌, arith, if◌then◌else◌,
  str_eq, Bool-cases, Option-cases, length, get_elem?, length-append, length-push_capped,
  All-push_capped,
}
use manufacturing_mas.Prelude.Dict.{lookup, AllValues-lookup, AllValues-map}
use manufacturing_mas.Float.{Float}
use manufacturing_mas.Messaging.Message.{AgentMessage}
use manufacturing_mas.Messaging.Topics.{Topic}
use manufacturing_mas.Messaging.Broker.{Broker, MessageEnvelope, init, max_envelope_log, max_dlq}
use manufacturing_mas.Messaging.Broker.Publish.{
  has_room, put, write, count_delivery, enqueue, fan_out, log_envelope, new_envelope, dead_letter,
  dispatch, publish, chosen,
}
use manufacturing_mas.Messaging.Broker.Bounds.{
  IsQueue, IsValid, Refs-suc, hand_over-IsValid, write-IsValid, put-IsValid, count_delivery-IsValid,
  on_full-IsValid,
}

module _ {B F : Type 0} ⦃f : Float F⦄ where
  arrived : (ℕ → F) → Broker B F → ℕ → MessageEnvelope B F → Broker B F
  arrived now b h e =
      write (record b { ticks = b.ticks + 1 }) h (record e { delivered_at = some (now b.ticks) })

  arrived-IsValid :
      (now : ℕ → F) (n : ℕ) (b : Broker B F) (h : ℕ) (e : MessageEnvelope B F)
      → IsValid n b
      → IsValid n (arrived now b h e)
  unfolding arrived
  arrived-IsValid now n b h e v =
      write-IsValid n (record b { ticks = b.ticks + 1 }) h
        (record e { delivered_at = some (now b.ticks) })
        (record {
          size = v.size;
          positive = v.positive;
          log_le = v.log_le;
          latencies_le = v.latencies_le;
          log_refs = v.log_refs;
          dlq_refs = v.dlq_refs;
          queues = v.queues;
        })

  enqueue-IsValid :
      (now : ℕ → F) (freed : String → ℕ) (n : ℕ) (b : Broker B F) (aid : String) (h : ℕ)
      → h < n
      → IsValid n b
      → IsValid n (enqueue now freed b aid h)
  unfolding enqueue arrived
  enqueue-IsValid now freed n b aid h p v = elim (Option-cases (lookup aid b.agent_queues)) [
    | inl e ↦ rw (e, enqueue) v
    | inr (q, e) ↦ elim (Option-cases (get_elem? b.store h)) [
      | inl missing ↦ rw (e, missing, enqueue) v
      | inr (env, found) ↦
          let ok : IsQueue n b.max_queue q =
            AllValues-lookup (IsQueue n b.max_queue) aid b.agent_queues q v.queues e in
          let b' : Broker B F = arrived now b h env in
          let env' : MessageEnvelope B F = record env { delivered_at = some (now b.ticks) } in
          elim (Bool-cases (has_room b q)) [
            | inl room ↦
                rw (e, found, room, enqueue)
                  (hand_over-IsValid n (count_delivery (put b' aid q h) env') aid env.message (
                    count_delivery-IsValid n (put b' aid q h) env'
                      (put-IsValid n b' aid q h p room ok (arrived-IsValid now n b h env v))))
            | inr full ↦
                rw (e, found, full, enqueue)
                  (on_full-IsValid n b' aid q h env' (freed aid) p ok
                    (arrived-IsValid now n b h env v))
          ]
    ]
  ]

  fan_out-IsValid :
      (now : ℕ → F) (freed : String → ℕ) (n : ℕ) (b : Broker B F) (sender : String)
      (aids : List String) (h : ℕ)
      → h < n
      → IsValid n b
      → IsValid n (fan_out now freed b sender aids h)
  unfolding fan_out
  fan_out-IsValid now freed n b sender [] h p v = v
  fan_out-IsValid now freed n b sender (aid ∷ aids) h p v =
      fan_out-IsValid now freed n (if str_eq aid sender then b else enqueue now freed b aid h)
        sender aids h p
        (elim (Bool-cases (str_eq aid sender)) [
          | inl own ↦ rw own v
          | inr other ↦ rw other (enqueue-IsValid now freed n b aid h p v)
        ])

  log_envelope-IsValid :
      (now : ℕ → F) (n : ℕ) (b : Broker B F) (msg : AgentMessage B) (topic : Topic)
      → IsValid n b
      → IsValid (suc n) (log_envelope now b msg topic)
  unfolding log_envelope
  log_envelope-IsValid now n b msg topic v = record {
    size = omega (arith, length-append b.store (new_envelope msg topic (now b.ticks) ∷ []), v.size);
    positive = v.positive;
    log_le = length-push_capped max_envelope_log 1000 b.envelope_log (length b.store) (omega arith);
    latencies_le = v.latencies_le;
    log_refs =
        All-push_capped (λ k. k < suc n) max_envelope_log 1000 b.envelope_log (length b.store)
          (Refs-suc n b.envelope_log v.log_refs) (omega (arith, v.size));
    dlq_refs = Refs-suc n b.dlq v.dlq_refs;
    queues =
        AllValues-map (IsQueue n b.max_queue) (IsQueue (suc n) b.max_queue) b.agent_queues
          (λ q ok. (ok.0, Refs-suc n q ok.1)) v.queues;
  }

  dead_letter-IsValid :
      (n : ℕ) (b : Broker B F) (h : ℕ) → h < n → IsValid n b → IsValid n (dead_letter b h)
  unfolding dead_letter
  dead_letter-IsValid n b h p v = record {
    size = v.size;
    positive = v.positive;
    log_le = v.log_le;
    latencies_le = v.latencies_le;
    log_refs = v.log_refs;
    dlq_refs = All-push_capped (λ k. k < n) max_dlq 250 b.dlq h v.dlq_refs p;
    queues = v.queues;
  }

  dispatch-IsValid :
      (now : ℕ → F) (freed : String → ℕ) (n : ℕ) (b : Broker B F) (msg : AgentMessage B)
      (topic : Topic) (h : ℕ)
      → h < n
      → IsValid n b
      → IsValid n (dispatch now freed b msg topic h)
  unfolding dispatch
  dispatch-IsValid now freed n b msg topic h p v =
      elim (Bool-cases (str_eq msg.header.receiver "ALL")) [
        | inl everyone ↦
            rw (everyone, dispatch)
              (fan_out-IsValid now freed n b msg.header.sender (b.subscriptions topic) h p v)
        | inr one ↦ elim (Option-cases (lookup msg.header.receiver b.agent_queues)) [
          | inl e ↦ rw (one, e, dispatch) (dead_letter-IsValid n b h p v)
          | inr (q, e) ↦
              rw (one, e, dispatch) (enqueue-IsValid now freed n b msg.header.receiver h p v)
        ]
      ]

  -- Whatever the message, its topic, the clock and what consumers take meanwhile, `publish` keeps the
  -- broker valid and stores one more envelope: the log holds at most 2000 envelopes, every queue at
  -- most `max_queue`, the latency window at most 500, and every reference in the log, in the
  -- dead-letter queue and in the queues is one of a stored envelope.
  pub publish-IsValid :
      (now : ℕ → F) (freed : String → ℕ) (n : ℕ) (b : Broker B F) (msg : AgentMessage B)
      (topic : Option Topic)
      → IsValid n b
      → IsValid (suc n) (publish now freed b msg topic).0
  unfolding publish
  publish-IsValid now freed n b msg topic v = record {
    size = done.size;
    positive = done.positive;
    log_le = done.log_le;
    latencies_le = done.latencies_le;
    log_refs = done.log_refs;
    dlq_refs = done.dlq_refs;
    queues = done.queues;
  }
    where
      t : Topic
      t = chosen msg topic

      done : IsValid (suc n) (dispatch now freed (log_envelope now b msg t) msg t (length b.store))
      done =
          dispatch-IsValid now freed (suc n) (log_envelope now b msg t) msg t (length b.store)
            (omega (arith, v.size)) (log_envelope-IsValid now n b msg t v)

  -- A new broker with a bounded queue is valid.
  pub init-IsValid : (cap : ℕ) → 0 < cap → IsValid 0 (init {B = B} {F = F} cap)
  unfolding init
  init-IsValid cap h = record {
    size = refl;
    positive = h;
    log_le = omega arith;
    latencies_le = omega arith;
    log_refs = tt;
    dlq_refs = tt;
    queues = tt;
  }
