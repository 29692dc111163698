-- ===== src/Messaging/Broker/Bounds.antt =====
-- mas/messaging/broker.py: bounds of the log, the queues and the latency window, and references that
-- stay inside the store, whatever is published.
pub mod Routing
use native.Mathlib.Nat.{le_trans}
use manufacturing_mas.Prelude.{
  ℕ, suc, ◌+◌, ◌≤◌, ◌<◌, ◌≡◌, refl, ◌⊎◌, inl, inr, String, Bool, true, false, Option, none, some,
  List, [], ◌∷◌, ◌++◌, arith, ltb, leb, ◌==◌, if◌then◌else◌, str_eq, Bool-cases, Option-cases,
  length, get_elem?, set, drop, length-append, length-set, length-drop, length-push_capped,
  All-push_capped, All, All-append, All-drop, All-map, push_capped,
}
use manufacturing_mas.Prelude.Dict.{
  lookup, insert, AllValues, AllValues-lookup, AllValues-insert, AllValues-map,
}
use manufacturing_mas.Float.{Float}
use manufacturing_mas.Messaging.Message.{AgentMessage}
use manufacturing_mas.Messaging.Topics.{Topic, intent_topic}
use manufacturing_mas.Messaging.Broker.{
  Broker, MessageEnvelope, latency_ms, init, max_envelope_log, max_dlq,
}
use manufacturing_mas.Messaging.Broker.Publish.{
  has_room, put, hand_over, write, bury, count_delivery, retry, on_full, enqueue, fan_out,
  log_envelope, new_envelope, dead_letter, dispatch, publish,
}

abbrev pub Refs : ℕ → List ℕ → Type 0
Refs n = All (λ h. h < n)

abbrev pub IsQueue : ℕ → ℕ → List ℕ → Type 0
IsQueue n cap q = (length q ≤ cap) × Refs n q

-- `n` envelopes were published.
pub record IsValid {B F : Type 0} (n : ℕ) (b : Broker B F) : Type 0 where
  pub size : length b.store ≡ n
  pub positive : 0 < b.max_queue
  pub log_le : length b.envelope_log ≤ max_envelope_log
  pub latencies_le : length b.metrics.latencies ≤ 500
  pub log_refs : Refs n b.envelope_log
  pub dlq_refs : Refs n b.dlq
  pub queues : AllValues (IsQueue n b.max_queue) b.agent_queues

pub Refs-suc : (n : ℕ) (hs : List ℕ) → Refs n hs → Refs (suc n) hs
Refs-suc n hs = All-map (λ h. h < n) (λ h. h < suc n) hs (λ h p. omega arith)

module _ {B F : Type 0} (n : ℕ) (b : Broker B F) where
  pub hand_over-IsValid :
      (aid : String) (msg : AgentMessage B) → IsValid n b → IsValid n (hand_over b aid msg)
  unfolding hand_over
  hand_over-IsValid aid msg v = elim (Option-cases (lookup aid b.inboxes)) [
    | inl e ↦ rw (e, hand_over) v
    | inr (inbox, e) ↦
        rw (e, hand_over)
          (record {
            size = v.size;
            positive = v.positive;
            log_le = v.log_le;
            latencies_le = v.latencies_le;
            log_refs = v.log_refs;
            dlq_refs = v.dlq_refs;
            queues = v.queues;
          })
  ]

  pub write-IsValid : (h : ℕ) (e : MessageEnvelope B F) → IsValid n b → IsValid n (write b h e)
  write-IsValid h e v = record {
    size = omega (arith, length-set b.store h e, v.size);
    positive = v.positive;
    log_le = v.log_le;
    latencies_le = v.latencies_le;
    log_refs = v.log_refs;
    dlq_refs = v.dlq_refs;
    queues = v.queues;
  }

  bury-IsValid : (h : ℕ) → h < n → IsValid n b → IsValid n (bury b h)
  unfolding bury
  bury-IsValid h p v = record {
    size = v.size;
    positive = v.positive;
    log_le = v.log_le;
    latencies_le = v.latencies_le;
    log_refs = v.log_refs;
    dlq_refs = All-append (λ k. k < n) b.dlq (h ∷ []) v.dlq_refs (p, tt);
    queues = v.queues;
  }

  queue-IsValid :
      (aid : String) (q : List ℕ)
      → IsQueue n b.max_queue q
      → IsValid n b
      → IsValid n (record b { agent_queues = insert aid q b.agent_queues })
  queue-IsValid aid q p v = record {
    size = v.size;
    positive = v.positive;
    log_le = v.log_le;
    latencies_le = v.latencies_le;
    log_refs = v.log_refs;
    dlq_refs = v.dlq_refs;
    queues = AllValues-insert (IsQueue n b.max_queue) aid q b.agent_queues p v.queues;
  }

  pub put-IsValid :
      (aid : String) (q : List ℕ) (h : ℕ)
      → h < n
      → has_room b q ≡ true
      → IsQueue n b.max_queue q
      → IsValid n b
      → IsValid n (put b aid q h)
  put-IsValid aid q h p room (len, refs) v =
      queue-IsValid aid (q ++ h ∷ [])
        (
          ground (arith, length-append q (h ∷ []), v.positive),
          All-append (λ k. k < n) q (h ∷ []) refs (p, tt),
        )
        v

module _ {B F : Type 0} ⦃f : Float F⦄ where
  pub count_delivery-IsValid :
      (n : ℕ) (b : Broker B F) (e : MessageEnvelope B F)
      → IsValid n b
      → IsValid n (count_delivery b e)
  unfolding count_delivery
  count_delivery-IsValid n b e v = elim (Option-cases (latency_ms e)) [
    | inl p ↦ rw (p, count_delivery) v
    | inr (ms, p) ↦
        rw (p, count_delivery)
          (record {
            size = v.size;
            positive = v.positive;
            log_le = v.log_le;
            latencies_le = length-push_capped 500 250 b.metrics.latencies ms (omega arith);
            log_refs = v.log_refs;
            dlq_refs = v.dlq_refs;
            queues = v.queues;
          })
  ]

  retry-IsValid :
      (n : ℕ) (b : Broker B F) (aid : String) (q : List ℕ) (h : ℕ) (e : MessageEnvelope B F)
      (freed : ℕ)
      → h < n
      → IsQueue n b.max_queue q
      → IsValid n b
      → IsValid n (retry b aid q h e freed)
  unfolding retry
  retry-IsValid n b aid q h e freed p (len, refs) v = elim (Bool-cases (has_room b left)) [
    | inl room ↦
        rw (room, retry)
          (count_delivery-IsValid n (put waited aid left h) e
            (put-IsValid n waited aid left h p room ok kept))
    | inr full ↦ rw (full, retry) kept
  ]
    where
      left : List ℕ
      left = drop freed q

      waited : Broker B F
      waited = record b { agent_queues = insert aid left b.agent_queues }

      ok : IsQueue n b.max_queue left
      ok = (omega (arith, length-drop freed q), All-drop (λ k. k < n) freed q refs)

      kept : IsValid n waited
      kept = queue-IsValid n b aid left ok v

  pub on_full-IsValid :
      (n : ℕ) (b : Broker B F) (aid : String) (q : List ℕ) (h : ℕ) (e : MessageEnvelope B F)
      (freed : ℕ)
      → h < n
      → IsQueue n b.max_queue q
      → IsValid n b
      → IsValid n (on_full b aid q h e freed)
  unfolding on_full
  on_full-IsValid n b aid q h e freed p ok v =
      elim (Bool-cases (leb e'.max_retries e'.retry_count)) [
        | inl last ↦ rw (last, on_full) (bury-IsValid n tried h p kept)
        | inr more ↦ rw (more, on_full) kept
      ]
    where
      e' : MessageEnvelope B F
      e' = record e { retry_count = e.retry_count + 1 }

      b' : Broker B F
      b' = write b h e'

      tried : Broker B F
      tried = if ltb e'.retry_count e'.max_retries then retry b' aid q h e' freed else b'

      written : IsValid n b'
      written = write-IsValid n b h e' v

      kept : IsValid n tried
      kept = elim (Bool-cases (ltb e'.retry_count e'.max_retries)) [
        | inl again ↦ rw again (retry-IsValid n b' aid q h e' freed p ok written)
        | inr no_more ↦ rw no_more written
      ]
