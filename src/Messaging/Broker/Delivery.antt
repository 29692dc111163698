-- ===== src/Messaging/Broker/Delivery.antt =====
-- mas/messaging/broker.py: what a published message does to the queues and to the agents' inboxes.
use mathlib.Core.Option
use manufacturing_mas.Prelude.{
  ℕ, ◌+◌, ◌≤◌, ◌<◌, ◌≡◌, refl, inl, inr, String, true, false, Option, none, some, List, [], ◌∷◌,
  ◌++◌, arith, if◌then◌else◌, str_eq, Bool-cases, Option-cases, length, get_elem?, drop,
  get_elem?-append_last, get_elem?-set_self, push_capped, ap, length-push_capped, ltb, leb,
}
use manufacturing_mas.Prelude.Dict.{lookup, insert, lookup-insert}
use manufacturing_mas.Float.{Float}
use manufacturing_mas.Messaging.Message.{AgentMessage}
use manufacturing_mas.Messaging.Topics.{Topic}
use manufacturing_mas.Messaging.Broker.{Broker, MessageEnvelope, latency_ms, max_dlq}
use manufacturing_mas.Messaging.Broker.Publish.{
  has_room, put, hand_over, write, count_delivery, retry, on_full, enqueue, new_envelope,
  log_envelope, dead_letter, dispatch, publish, chosen,
}

-- Nothing but the metrics changes when a delivery is counted.
record IsCounted {B F : Type 0} (b b' : Broker B F) : Type 0 where
  same_queues : b'.agent_queues ≡ b.agent_queues
  same_inboxes : b'.inboxes ≡ b.inboxes
  same_dlq : b'.dlq ≡ b.dlq
  same_total_dlq : b'.metrics.total_dlq ≡ b.metrics.total_dlq
  same_store : b'.store ≡ b.store
  same_cap : b'.max_queue ≡ b.max_queue

-- The agent's own entry after a delivery, and everybody else's.
abbrev pub with_item : {V : Type 0} → String → V → List (String × List V) → String → Option (List V)
with_item aid x m j =
    if str_eq aid j then Option.map (λ l. l ++ x ∷ []) (lookup aid m) else lookup j m

-- The envelope behind a reference carries this message.
abbrev pub IsStored : {B F : Type 0} → Broker B F → ℕ → AgentMessage B → Type 0
IsStored {F = F} b h msg =
    (e : MessageEnvelope _ F) × (get_elem? b.store h ≡ some e) × (e.message ≡ msg)

pub record IsDelivered {B F : Type 0} (b b' : Broker B F) (aid : String) (h : ℕ)
    (msg : AgentMessage B) : Type 0 where
  pub queues : (j : String) → lookup j b'.agent_queues ≡ with_item aid h b.agent_queues j
  pub inboxes : (j : String) → lookup j b'.inboxes ≡ with_item aid msg b.inboxes j
  pub dlq : b'.dlq ≡ b.dlq
  pub total_dlq : b'.metrics.total_dlq ≡ b.metrics.total_dlq
  pub cap : b'.max_queue ≡ b.max_queue
  pub stored : IsStored b' h msg

module _ {B F : Type 0} ⦃f : Float F⦄ where
  count_delivery_lem : (b : Broker B F) (e : MessageEnvelope B F) → IsCounted b (count_delivery b e)
  unfolding count_delivery
  count_delivery_lem b e = elim (Option-cases (latency_ms e)) [
    | inl p ↦
        rw (p, count_delivery)
          (record {
            same_queues = refl;
            same_inboxes = refl;
            same_dlq = refl;
            same_total_dlq = refl;
            same_store = refl;
            same_cap = refl;
          })
    | inr (ms, p) ↦
        rw (p, count_delivery)
          (record {
            same_queues = refl;
            same_inboxes = refl;
            same_dlq = refl;
            same_total_dlq = refl;
            same_store = refl;
            same_cap = refl;
          })
  ]

  pub enqueue_room :
      (now : ℕ → F) (freed : String → ℕ) (b : Broker B F) (aid : String) (h : ℕ) (q : List ℕ)
      (inbox : List (AgentMessage B)) (e : MessageEnvelope B F)
      → lookup aid b.agent_queues ≡ some q
      → lookup aid b.inboxes ≡ some inbox
      → get_elem? b.store h ≡ some e
      → has_room b q ≡ true
      → IsDelivered b (enqueue now freed b aid h) aid h e.message
  unfolding enqueue hand_over
  enqueue_room now freed b aid h q inbox e eq ei es room =
      let e' : MessageEnvelope B F = record e { delivered_at = some (now b.ticks) } in
      let b' : Broker B F = put (write (record b { ticks = b.ticks + 1 }) h e') aid q h in
      let c = count_delivery_lem b' e' in
      let there : lookup aid (count_delivery b' e').inboxes ≡ some inbox =
        rw (ap (lookup aid) c.same_inboxes) ei in
      rw (eq, es, room, enqueue)
        (rw (there, hand_over)
          (record {
            queues =
                λ j. rw c.same_queues (rw eq (lookup-insert aid j (q ++ h ∷ []) b.agent_queues));
            inboxes = λ j.
                rw c.same_inboxes (rw ei (lookup-insert aid j (inbox ++ e.message ∷ []) b.inboxes));
            dlq = c.same_dlq;
            total_dlq = c.same_total_dlq;
            cap = c.same_cap;
            stored = (e', rw c.same_store (get_elem?-set_self b.store h e' e es), refl);
          }))

  -- A message to a registered agent with room in its queue: its reference goes to the end of that
  -- queue and the message to the end of that agent's inbox, every other queue and inbox and the
  -- dead-letter queue stay as they were.
  pub publish_direct :
      (now : ℕ → F) (freed : String → ℕ) (b : Broker B F) (msg : AgentMessage B)
      (topic : Option Topic) (q : List ℕ) (inbox : List (AgentMessage B))
      → str_eq msg.header.receiver "ALL" ≡ false
      → lookup msg.header.receiver b.agent_queues ≡ some q
      → lookup msg.header.receiver b.inboxes ≡ some inbox
      → has_room b q ≡ true
      → IsDelivered b (publish now freed b msg topic).0 msg.header.receiver (length b.store) msg
  unfolding publish log_envelope
  publish_direct now freed b msg topic q inbox one eq ei room =
      let env = new_envelope msg (chosen msg topic) (now b.ticks) in
      let d =
        enqueue_room now freed (log_envelope now b msg (chosen msg topic)) msg.header.receiver
          (length b.store) q inbox env eq ei (get_elem?-append_last b.store env) room in
      rw (one, eq, dispatch)
        (record {
          queues = d.queues;
          inboxes = d.inboxes;
          dlq = d.dlq;
          total_dlq = d.total_dlq;
          cap = d.cap;
          stored = d.stored;
        })

  -- A message to an agent that nobody registered goes to the dead-letter queue, which is counted and
  -- stays within 500; no queue and no inbox changes.
  pub publish_unknown :
      (now : ℕ → F) (freed : String → ℕ) (b : Broker B F) (msg : AgentMessage B)
      (topic : Option Topic)
      → str_eq msg.header.receiver "ALL" ≡ false
      → lookup msg.header.receiver b.agent_queues ≡ none
      → let b' = (publish now freed b msg topic).0 in
        (b'.dlq ≡ push_capped max_dlq 250 b.dlq (length b.store))
        × (length b'.dlq ≤ max_dlq)
        × (b'.metrics.total_dlq ≡ b.metrics.total_dlq + 1)
        × (b'.agent_queues ≡ b.agent_queues)
        × (b'.inboxes ≡ b.inboxes)
  unfolding publish log_envelope dead_letter
  publish_unknown now freed b msg topic one missing =
      rw (one, missing, dispatch)
        (
          refl,
          length-push_capped max_dlq 250 b.dlq (length b.store) (omega arith),
          refl,
          refl,
          refl,
        )

  -- The queue of the receiver after a second attempt that finds `left` in it.
  abbrev pub second_try : Broker B F → List ℕ → ℕ → List ℕ
  second_try b left h = if has_room b left then left ++ h ∷ [] else left

  retry_lem :
      (b : Broker B F) (aid : String) (q : List ℕ) (h : ℕ) (e : MessageEnvelope B F) (freed : ℕ)
      → let b' = retry b aid q h e freed in
        ((j : String)
          → lookup j b'.agent_queues ≡ (
              if str_eq aid j
              then some (second_try b (drop freed q) h)
              else lookup j b.agent_queues))
        × (b'.inboxes ≡ b.inboxes)
        × (b'.dlq ≡ b.dlq)
        × (b'.metrics.total_dlq ≡ b.metrics.total_dlq)
  unfolding retry
  retry_lem b aid q h e freed =
      let left : List ℕ = drop freed q in
      let waited : Broker B F = record b { agent_queues = insert aid left b.agent_queues } in
      elim (Bool-cases (has_room b left)) [
        | inl room ↦
            let c = count_delivery_lem (put waited aid left h) e in
            rw (room, retry)
              (
                λ j. rw c.same_queues (simp (lookup-insert) (ground arith)),
                c.same_inboxes,
                c.same_dlq,
                c.same_total_dlq,
              )
        | inr full ↦
            rw (full, retry) (λ j. lookup-insert aid j left b.agent_queues, refl, refl, refl)
      ]

  pub enqueue_full :
      (now : ℕ → F) (freed : String → ℕ) (b : Broker B F) (aid : String) (h : ℕ) (q : List ℕ)
      (e : MessageEnvelope B F)
      → lookup aid b.agent_queues ≡ some q
      → get_elem? b.store h ≡ some e
      → has_room b q ≡ false
      → e.retry_count + 1 < e.max_retries
      → let b' = enqueue now freed b aid h in
        (b'.inboxes ≡ b.inboxes)
        × (b'.dlq ≡ b.dlq)
        × (b'.metrics.total_dlq ≡ b.metrics.total_dlq)
        × ((j : String)
            → lookup j b'.agent_queues ≡ (
                if str_eq aid j
                then some (second_try b (drop (freed aid) q) h)
                else lookup j b.agent_queues))
  unfolding enqueue
  enqueue_full now freed b aid h q e eq es full more =
      let e' : MessageEnvelope B F = record e { delivered_at = some (now b.ticks) } in
      let e'' : MessageEnvelope B F = record e' { retry_count = e.retry_count + 1 } in
      let b1 : Broker B F = write (record b { ticks = b.ticks + 1 }) h e' in
      let (queues, inboxes, dlq, total) = retry_lem (write b1 h e'') aid q h e'' (freed aid) in
      let again : ltb (e.retry_count + 1) e.max_retries ≡ true = ground arith in
      let on : leb e.max_retries (e.retry_count + 1) ≡ false = ground arith in
      rw (eq, es, full, enqueue) (rw (again, on_full) (rw on (inboxes, dlq, total, queues)))

  -- A message to an agent whose queue is full never reaches that agent's inbox, and never the
  -- dead-letter queue either: the one retry may still queue it, if consumers made room meanwhile, and
  -- otherwise it is gone.
  pub publish_full :
      (now : ℕ → F) (freed : String → ℕ) (b : Broker B F) (msg : AgentMessage B)
      (topic : Option Topic) (q : List ℕ)
      → str_eq msg.header.receiver "ALL" ≡ false
      → lookup msg.header.receiver b.agent_queues ≡ some q
      → has_room b q ≡ false
      → let b' = (publish now freed b msg topic).0 in
        let left = drop (freed msg.header.receiver) q in
        (b'.inboxes ≡ b.inboxes)
        × (b'.dlq ≡ b.dlq)
        × (b'.metrics.total_dlq ≡ b.metrics.total_dlq)
        × ((j : String)
            → lookup j b'.agent_queues ≡ (
                if str_eq msg.header.receiver j
                then some (second_try b left (length b.store))
                else lookup j b.agent_queues))
  unfolding publish log_envelope new_envelope
  publish_full now freed b msg topic q one eq full =
      let env = new_envelope msg (chosen msg topic) (now b.ticks) in
      rw (one, eq, dispatch)
        (enqueue_full now freed (log_envelope now b msg (chosen msg topic)) msg.header.receiver
          (length b.store) q env eq (get_elem?-append_last b.store env) full (omega arith))
