-- ===== src/Messaging/Broker/Consume.antt =====
-- mas/messaging/broker.py: consumption and acknowledgement.
use mathlib.Core.List.{reverse}
use manufacturing_mas.Prelude.{
  ℕ, ◌+◌, String, Bool, true, false, ◌&&◌, not, Option, none, some, List, [], ◌∷◌, if◌then◌else◌,
  str_eq, get_elem?, set, last_n,
}
use manufacturing_mas.Prelude.Dict.{lookup, insert}
use manufacturing_mas.Messaging.Broker.{Broker, MessageEnvelope}

module _ {B F : Type 0} where
  -- `q.get(timeout=…)` returns the oldest message, or times out on an empty queue.
  unfoldable pub consume : Broker B F → String → Broker B F × Option ℕ
  unfolding lookup insert
  consume b aid = elim (lookup aid b.agent_queues) [
    | none ↦ (b, none)
    | some q ↦ elim q [
      | [] ↦ (b, none)
      | h ∷ rest ↦ (record b { agent_queues = insert aid rest b.agent_queues }, some h)
    ]
  ]

  -- The loop `while not q.empty()` ends when the queue is empty: one round for each message.
  unfoldable pub consume_all : Broker B F → String → Broker B F × List ℕ
  unfolding lookup insert
  consume_all b aid = elim (lookup aid b.agent_queues) [
    | none ↦ (b, [])
    | some q ↦ (record b { agent_queues = insert aid [] b.agent_queues }, q)
  ]

  abbrev pub matches : String → MessageEnvelope B F → Bool
  matches id e = str_eq e.envelope_id id && not e.acked

  -- The first of the references whose envelope matches.
  unfoldable pub find_unacked : List (MessageEnvelope B F) → String → List ℕ → Option ℕ
  find_unacked store id [] = none
  find_unacked store id (h ∷ hs) =
      if elim (get_elem? store h) [ none ↦ false | some e ↦ matches id e ]
      then some h
      else find_unacked store id hs

  abbrev pub mark_acked : List (MessageEnvelope B F) → ℕ → List (MessageEnvelope B F)
  mark_acked store h = elim (get_elem? store h) [
    | none ↦ store
    | some e ↦ set store h (record e { acked = true })
  ]

  -- The counter rises whether or not an envelope is found.
  unfoldable pub acknowledge : Broker B F → String → Broker B F × Bool
  unfolding find_unacked
  acknowledge b id =
      let counted = record b {
        metrics = record b.metrics { total_acked = b.metrics.total_acked + 1 };
      } in
      elim (find_unacked b.store id (reverse (last_n 200 b.envelope_log))) [
        | none ↦ (counted, false)
        | some h ↦ (record counted { store = mark_acked b.store h }, true)
      ]
