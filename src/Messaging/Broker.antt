-- ===== src/Messaging/Broker.antt =====
-- mas/messaging/broker.py: envelopes, metrics and `MessageBroker`. Envelopes are shared objects: the
-- log, the queues and the dead-letter queue hold references, here indices into `store`. `time.time()`
-- reads the stream `now`. What consumers take from a full queue while `_enqueue` sleeps is the
-- argument `freed`. Agents are known by their inboxes. Locks are not modelled: an operation is one
-- step, but for that sleep.
pub mod Publish
pub mod Consume
pub mod Bounds
pub mod Delivery
pub mod Broadcast
pub mod Subscriptions
pub mod Acks
use manufacturing_mas.Prelude.{
  ℕ, ◌+◌, ◌-◌, String, Bool, true, false, not, ◌&&◌, Option, none, some, List, [], ◌∷◌, ◌++◌, map,
  suc, ltb, leb, ◌==◌, if◌then◌else◌, str_eq, length, get_elem?, set, last_n, push_capped, drop,
}
use manufacturing_mas.Prelude.Dict.{lookup, insert}
use manufacturing_mas.Float.{Float, fmax}
use manufacturing_mas.Prelude.Int.{pos}
use manufacturing_mas.Messaging.Message.{AgentMessage}
use manufacturing_mas.Messaging.Topics.{
  Topic, broadcast, alerts, cnp, topic_eq, intent_topic, agent_default_topic,
}

abbrev pub max_envelope_log : ℕ
max_envelope_log = 2000

abbrev pub max_dlq : ℕ
max_dlq = 500

pub record MessageEnvelope (B F : Type 0) : Type 0 where
  pub message : AgentMessage B
  pub envelope_id : String
  pub topic : Topic
  pub published_at : F
  pub delivered_at : Option F
  pub acked : Bool
  pub retry_count : ℕ
  pub max_retries : ℕ

pub record BrokerMetrics (F : Type 0) : Type 0 where
  pub total_published : ℕ
  pub total_delivered : ℕ
  pub total_acked : ℕ
  pub total_dlq : ℕ
  pub avg_latency_ms : F
  pub peak_latency_ms : F
  pub latencies : List F

-- `ticks` counts the readings of the clock.
pub record Broker (B F : Type 0) : Type 0 where
  pub max_queue : ℕ
  pub store : List (MessageEnvelope B F)
  pub agent_queues : List (String × List ℕ)
  pub inboxes : List (String × List (AgentMessage B))
  pub subscriptions : Topic → List String
  pub envelope_log : List ℕ
  pub dlq : List ℕ
  pub metrics : BrokerMetrics F
  pub callbacks : List ℕ
  pub notified : List (ℕ × ℕ)
  pub ticks : ℕ

unfoldable pub contains : List String → String → Bool
contains [] a = false
contains (x ∷ xs) a = if str_eq x a then true else contains xs a

-- `set.add` and `set.discard`
unfoldable pub add : String → List String → List String
unfolding contains
add a xs = if contains xs a then xs else xs ++ a ∷ []

unfoldable pub discard : String → List String → List String
discard a [] = []
discard a (x ∷ xs) = if str_eq x a then discard a xs else x ∷ discard a xs

module _ {B F : Type 0} ⦃f : Float F⦄ where
  -- `if self.delivered_at:` is false for `None` and for 0.0.
  unfoldable pub latency_ms : MessageEnvelope B F → Option F
  latency_ms e = elim e.delivered_at [
    | none ↦ none
    | some d ↦
        if f.is_zero d
        then none
        else some (f.round (f.mul (f.sub d e.published_at) (f.lit 1000 0)) 2)
  ]

module _ {F : Type 0} ⦃f : Float F⦄ where
  sum : F → List F → F
  sum acc [] = acc
  sum acc (x ∷ xs) = sum (f.add acc x) xs

  abbrev mean : List F → F
  mean xs = f.div (sum (f.lit 0 0) xs) (f.of_int (pos (length xs)))

  unfoldable pub record_delivery : BrokerMetrics F → F → BrokerMetrics F
  unfolding sum
  record_delivery m latency =
      let kept : List F = push_capped 500 250 m.latencies latency in
      record m {
        total_delivered = m.total_delivered + 1;
        latencies = kept;
        avg_latency_ms = f.round (mean kept) 2;
        peak_latency_ms = fmax m.peak_latency_ms latency;
      }

  abbrev no_metrics : BrokerMetrics F
  no_metrics = record {
    total_published = 0;
    total_delivered = 0;
    total_acked = 0;
    total_dlq = 0;
    avg_latency_ms = f.lit 0 0;
    peak_latency_ms = f.lit 0 0;
    latencies = [];
  }

module _ {B F : Type 0} ⦃f : Float F⦄ where
  unfoldable pub init : ℕ → Broker B F
  init max_queue_size = record {
    max_queue = max_queue_size;
    store = [];
    agent_queues = [];
    inboxes = [];
    subscriptions = λ _. [];
    envelope_log = [];
    dlq = [];
    metrics = no_metrics;
    callbacks = [];
    notified = [];
    ticks = 0;
  }

module _ {B F : Type 0} where
  unfoldable pub subscribe : Broker B F → String → Topic → Broker B F
  unfolding add contains
  subscribe b aid topic = record b {
    subscriptions =
        λ t. if topic_eq t topic then add aid (b.subscriptions t) else b.subscriptions t;
  }

  unfoldable pub unsubscribe : Broker B F → String → Topic → Broker B F
  unfolding discard
  unsubscribe b aid topic = record b {
    subscriptions =
        λ t. if topic_eq t topic then discard aid (b.subscriptions t) else b.subscriptions t;
  }

  abbrev pub subscribe_all : Broker B F → String → List Topic → Broker B F
  subscribe_all b aid [] = b
  subscribe_all b aid (t ∷ ts) = subscribe_all (subscribe b aid t) aid ts

  -- A new, empty queue, also for an agent that was registered before.
  unfoldable pub register : Broker B F → String → List (AgentMessage B) → List Topic → Broker B F
  unfolding insert subscribe agent_default_topic
  register b aid inbox extra_topics =
      let base : List Topic = broadcast ∷ alerts ∷ cnp ∷ [] in
      let own : List Topic = elim (agent_default_topic aid) [ none ↦ [] | some t ↦ t ∷ [] ] in
      subscribe_all
        (record b {
          agent_queues = insert aid [] b.agent_queues;
          inboxes = insert aid inbox b.inboxes;
        })
        aid (base ++ (own ++ extra_topics))

  unfoldable pub on_message : Broker B F → ℕ → Broker B F
  on_message b callback = record b { callbacks = b.callbacks ++ callback ∷ [] }

  unfoldable pub get_queue_depth : Broker B F → String → ℕ
  unfolding lookup
  get_queue_depth b aid = elim (lookup aid b.agent_queues) [ none ↦ 0 | some q ↦ length q ]
