-- ===== src/Messaging/Broker/Acks.antt =====
-- mas/messaging/broker.py: `acknowledge`, `consume` and `consume_all`.
use mathlib.Core.List.{reverse}
use manufacturing_mas.Prelude.{
  ℕ, suc, ◌+◌, ◌≡◌, refl, ◌⊎◌, inl, inr, String, Bool, true, false, none, some, List, [], ◌∷◌,
  arith, if◌then◌else◌, str_eq, Bool-cases, Option-cases, get_elem?, set, All, last_n, drop, subst,
  eq_iff,
}
use manufacturing_mas.Prelude.Dict.{lookup, lookup-insert}
use manufacturing_mas.Messaging.Broker.{Broker, MessageEnvelope}
use manufacturing_mas.Messaging.Broker.Consume.{
  consume, consume_all, matches, find_unacked, mark_acked, acknowledge,
}

module _ {B F : Type 0} where
  abbrev pub is_match : List (MessageEnvelope B F) → String → ℕ → Bool
  is_match store id h = elim (get_elem? store h) [ none ↦ false | some e ↦ matches id e ]

  find_unacked-matches :
      (store : List (MessageEnvelope B F)) (id : String) (hs : List ℕ) (h : ℕ)
      → find_unacked store id hs ≡ some h
      → is_match store id h ≡ true
  unfolding find_unacked
  find_unacked-matches store id [] h e = cc
  find_unacked-matches store id (k ∷ hs) h e = elim (Bool-cases (is_match store id k)) [
    | inl yes_match ↦ let same : k ≡ h = ground (arith, yes_match) in rw (← same) yes_match
    | inr no_match ↦ find_unacked-matches store id hs h (ground (arith, no_match))
  ]

  find_unacked-index :
      (store : List (MessageEnvelope B F)) (id : String) (hs : List ℕ) (h : ℕ)
      → find_unacked store id hs ≡ some h
      → (i : ℕ) × (get_elem? hs i ≡ some h)
  unfolding find_unacked
  find_unacked-index store id [] h e = cc
  find_unacked-index store id (k ∷ hs) h e = elim (Bool-cases (is_match store id k)) [
    | inl yes_match ↦ (0, ground (arith, e, yes_match))
    | inr no_match ↦
        let (i, at_i) = find_unacked-index store id hs h (ground (arith, e, no_match)) in
        (suc i, at_i)
  ]

  find_unacked-absent :
      (store : List (MessageEnvelope B F)) (id : String) (hs : List ℕ)
      → find_unacked store id hs ≡ none
      → All (λ h. is_match store id h ≡ false) hs
  unfolding find_unacked
  find_unacked-absent store id [] e = tt
  find_unacked-absent store id (k ∷ hs) e =
      (ground arith, find_unacked-absent store id hs (ground arith))

  -- `acknowledge` either finds, among the last 200 logged envelopes, one with this identifier that is
  -- not acknowledged yet, marks that one alone and returns true; or there is none, it returns false and
  -- leaves the envelopes as they are. The counter `total_acked` rises by one in both cases.
  pub acknowledge_lem :
      (b : Broker B F) (id : String)
      → let (b', found) = acknowledge b id in
        (b'.metrics.total_acked ≡ b.metrics.total_acked + 1)
        × (((h i : ℕ) × (e : MessageEnvelope B F) × (found ≡ true)
              × (get_elem? (reverse (last_n 200 b.envelope_log)) i ≡ some h)
              × (get_elem? b.store h ≡ some e)
              × (str_eq e.envelope_id id ≡ true)
              × (e.acked ≡ false)
              × (b'.store ≡ set b.store h (record e { acked = true })))
            ⊎ ((found ≡ false)
                × (b'.store ≡ b.store)
                × All (λ h. is_match b.store id h ≡ false) (reverse (last_n 200 b.envelope_log))))
  unfolding acknowledge
  acknowledge_lem b id = elim (Option-cases (find_unacked b.store id recent)) [
    | inl none_left ↦
        rw (none_left, acknowledge)
          (refl, inr (refl, refl, find_unacked-absent b.store id recent none_left))
    | inr (h, hit) ↦
        let m = find_unacked-matches b.store id recent h hit in
        let (i, at_i) = find_unacked-index b.store id recent h hit in
        elim (Option-cases (get_elem? b.store h)) [
          | inl missing ↦ absurd (bad h m missing)
          | inr (e, es) ↦
              let p : matches id e ≡ true = rw (es, is_match) at m in
              rw (hit, acknowledge)
                (
                  refl,
                  inl (
                    h,
                    i,
                    e,
                    refl,
                    at_i,
                    es,
                    ground (arith, p),
                    ground (arith, p),
                    rw (es, mark_acked),
                  ),
                )
        ]
  ]
    where
      recent : List ℕ
      recent = reverse (last_n 200 b.envelope_log)

      bad : (h : ℕ) → is_match b.store id h ≡ true → get_elem? b.store h ≡ none → ⊥
      bad h m missing = ground (arith, m, missing)

  unchanged :
      (b : Broker B F) (aid j : String)
      → lookup aid b.agent_queues ≡ some []
      → lookup j b.agent_queues ≡ (if str_eq aid j then some [] else lookup j b.agent_queues)
  unchanged b aid j e = elim (Bool-cases (str_eq aid j)) [
    | inl same ↦ rw same (subst (λ x. lookup x b.agent_queues ≡ some []) ((eq_iff aid j).0 same) e)
    | inr apart ↦ rw apart refl
  ]

  -- Of an agent's queue, `consume` takes the first message and leaves the rest; of an empty queue it
  -- takes nothing. Other queues stay. `consume_all` takes the whole queue in order and empties it.
  pub consume_lem :
      (b : Broker B F) (aid j : String) (q : List ℕ)
      → lookup aid b.agent_queues ≡ some q
      → ((consume b aid).1 ≡ get_elem? q 0)
        × (lookup j (consume b aid).0.agent_queues
            ≡ (if str_eq aid j then some (drop 1 q) else lookup j b.agent_queues))
        × ((consume_all b aid).1 ≡ q)
        × (lookup j (consume_all b aid).0.agent_queues
            ≡ (if str_eq aid j then some [] else lookup j b.agent_queues))
  unfolding consume consume_all
  consume_lem b aid j [] e =
      rw (e, consume, consume_all)
        (refl, unchanged b aid j e, refl, lookup-insert aid j [] b.agent_queues)
  consume_lem b aid j (h ∷ rest) e =
      rw (e, consume, consume_all)
        (refl, lookup-insert aid j rest b.agent_queues, refl, lookup-insert aid j [] b.agent_queues)
