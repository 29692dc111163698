-- ===== src/Messaging/Broker/Broadcast.antt =====
-- mas/messaging/broker.py: a message to "ALL".
use mathlib.Core.Option
use manufacturing_mas.Prelude.{
  ℕ, ◌≡◌, refl, ◌∙◌, inl, inr, String, true, false, not, ◌&&◌, Option, some, List, [], ◌∷◌, ◌++◌,
  arith, if◌then◌else◌, str_eq, eq_iff, Bool-cases, length, get_elem?-append_last,
}
use manufacturing_mas.Prelude.Dict.{lookup}
use manufacturing_mas.Float.{Float}
use manufacturing_mas.Messaging.Message.{AgentMessage}
use manufacturing_mas.Messaging.Topics.{Topic}
use manufacturing_mas.Messaging.Broker.{Broker, contains}
use manufacturing_mas.Messaging.Broker.Publish.{
  has_room, enqueue, fan_out, new_envelope, log_envelope, dispatch, publish, chosen,
}
use manufacturing_mas.Messaging.Broker.Delivery.{IsDelivered, IsStored, enqueue_room}

-- No text stands twice in the list.
abbrev pub IsDistinct : List String → Type 0
IsDistinct [] = Unit
IsDistinct (a ∷ rest) = (contains rest a ≡ false) × IsDistinct rest

-- A registered agent with room in its queue.
abbrev pub IsReady : {B F : Type 0} → Broker B F → String → Type 0
IsReady {B = B} b aid =
    (q : List ℕ) × (inbox : List (AgentMessage B)) × (lookup aid b.agent_queues ≡ some q)
    × (lookup aid b.inboxes ≡ some inbox)
    × (has_room b q ≡ true)

-- One more item for the listed agents other than the sender.
abbrev pub for_others :
    {V : Type 0} → List String → String → V → List (String × List V) → String → Option (List V)
for_others aids sender x m j =
    if contains aids j && not (str_eq j sender)
    then Option.map (λ l. l ++ x ∷ []) (lookup j m)
    else lookup j m

-- From `b` to `b'` every listed agent but the sender got the message, once, and nobody else did.
pub record IsBroadcast {B F : Type 0} (b b' : Broker B F) (sender : String) (aids : List String)
    (h : ℕ) (msg : AgentMessage B) : Type 0 where
  pub queues : (j : String) → lookup j b'.agent_queues ≡ for_others aids sender h b.agent_queues j
  pub inboxes : (j : String) → lookup j b'.inboxes ≡ for_others aids sender msg b.inboxes j
  pub dlq : b'.dlq ≡ b.dlq
  pub total_dlq : b'.metrics.total_dlq ≡ b.metrics.total_dlq

module _ {B F : Type 0} ⦃f : Float F⦄ (now : ℕ → F) (freed : String → ℕ) where
  IsReady-kept :
      (b b' : Broker B F) (aid j : String) (h : ℕ) (msg : AgentMessage B)
      → IsDelivered b b' aid h msg
      → str_eq aid j ≡ false
      → IsReady b j
      → IsReady b' j
  IsReady-kept b b' aid j h msg d other (q, inbox, eq, ei, room) =
      (q, inbox, rw (d.queues j) (rw other eq), rw (d.inboxes j) (rw other ei), rw d.cap room)

  fan_out_lem :
      (b : Broker B F) (sender : String) (aids : List String) (h : ℕ) (msg : AgentMessage B)
      → IsDistinct aids
      → IsStored b h msg
      → ((j : String) → contains aids j ≡ true → str_eq j sender ≡ false → IsReady b j)
      → IsBroadcast b (fan_out now freed b sender aids h) sender aids h msg
  unfolding fan_out contains
  fan_out_lem b sender [] h msg distinct stored ready = record {
    queues = λ j. refl;
    inboxes = λ j. refl;
    dlq = refl;
    total_dlq = refl;
  }
  fan_out_lem b sender (aid ∷ aids) h msg (fresh, distinct) stored ready =
      elim (Bool-cases (str_eq aid sender)) [
        | inl own ↦
            let rest =
              fan_out_lem b sender aids h msg distinct stored
                (λ j listed other. ready j (ground arith) other) in
            rw own (record {
              queues = λ j.
                  ground (arith, rest.queues j, eq_iff aid j, eq_iff aid sender, eq_iff j sender);
              inboxes = λ j.
                  ground (arith, rest.inboxes j, eq_iff aid j, eq_iff aid sender, eq_iff j sender);
              dlq = rest.dlq;
              total_dlq = rest.total_dlq;
            })
        | inr other ↦
            let (e, es, em) = stored in
            let (q, inbox, eq, ei, room) = ready aid (ground (arith, eq_iff aid aid)) other in
            let b' : Broker B F = enqueue now freed b aid h in
            let d : IsDelivered b b' aid h msg =
              rw em at (enqueue_room now freed b aid h q inbox e eq ei es room) in
            let rest = fan_out_lem b' sender aids h msg distinct d.stored (λ j listed others.
              IsReady-kept b b' aid j h msg d (ground (arith, eq_iff aid j))
                (ready j (ground arith) others)) in
            rw other (record {
              queues = λ j. ground (
                arith,
                rest.queues j,
                d.queues j,
                eq_iff aid j,
                eq_iff aid sender,
                eq_iff j sender,
              );
              inboxes = λ j. ground (
                arith,
                rest.inboxes j,
                d.inboxes j,
                eq_iff aid j,
                eq_iff aid sender,
                eq_iff j sender,
              );
              dlq = rest.dlq ∙ d.dlq;
              total_dlq = rest.total_dlq ∙ d.total_dlq;
            })
      ]

  -- A message to "ALL", when the subscribers of its topic are distinct and those other than the sender
  -- are registered with room in their queues: each subscriber but the sender gets the reference at the
  -- end of its queue and the message at the end of its inbox, exactly once; no other queue or inbox
  -- and not the dead-letter queue changes.
  pub publish_all :
      (b : Broker B F) (msg : AgentMessage B) (topic : Option Topic)
      → str_eq msg.header.receiver "ALL" ≡ true
      → IsDistinct (b.subscriptions (chosen msg topic))
      → ((j : String)
          → contains (b.subscriptions (chosen msg topic)) j ≡ true
          → str_eq j msg.header.sender ≡ false
          → IsReady b j)
      → IsBroadcast b
          (publish now freed b msg topic).0
          msg.header.sender
          (b.subscriptions (chosen msg topic))
          (length b.store)
          msg
  unfolding publish log_envelope
  publish_all b msg topic everyone distinct ready =
      let env = new_envelope msg (chosen msg topic) (now b.ticks) in
      let r =
        fan_out_lem (log_envelope now b msg (chosen msg topic)) msg.header.sender
          (b.subscriptions (chosen msg topic)) (length b.store) msg distinct
          (env, get_elem?-append_last b.store env, refl) ready in
      rw (everyone, dispatch)
        (record { queues = r.queues; inboxes = r.inboxes; dlq = r.dlq; total_dlq = r.total_dlq })
