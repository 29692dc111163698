-- ===== src/Messaging/Broker/Subscriptions.antt =====
-- mas/messaging/broker.py: `register`, `subscribe`, `unsubscribe`.
use manufacturing_mas.Prelude.{
  ◌≡◌, refl, inl, inr, String, Bool, false, not, ◌&&◌, ◌||◌, none, some, List, [], ◌∷◌, ◌++◌, arith,
  if◌then◌else◌, str_eq, eq_iff, Bool-cases,
}
use manufacturing_mas.Prelude.Dict.{lookup, insert, lookup-insert}
use manufacturing_mas.Messaging.Message.{AgentMessage}
use manufacturing_mas.Messaging.Topics.{
  Topic, broadcast, alerts, cnp, topic_eq, agent_default_topic,
}
use manufacturing_mas.Messaging.Broker.{
  Broker, contains, add, discard, subscribe, unsubscribe, subscribe_all, register,
}
use manufacturing_mas.Messaging.Broker.Broadcast.{IsDistinct}

contains-append :
    (xs : List String) (a j : String) → contains (xs ++ a ∷ []) j ≡ (contains xs j || str_eq a j)
unfolding contains
contains-append [] a j = ground arith
contains-append (x ∷ xs) a j = ground (arith, contains-append xs a j)

contains-add :
    (a j : String) (xs : List String) → contains (add a xs) j ≡ (str_eq a j || contains xs j)
unfolding add
contains-add a j xs = ground (arith, contains-append xs a j, eq_iff a j)

contains-discard :
    (a j : String) (xs : List String)
    → contains (discard a xs) j ≡ (not (str_eq a j) && contains xs j)
unfolding discard contains
contains-discard a j [] = ground arith
contains-discard a j (x ∷ xs) =
    ground (arith, contains-discard a j xs, eq_iff a j, eq_iff x a, eq_iff x j)

append-IsDistinct :
    (xs : List String) (a : String)
    → IsDistinct xs
    → contains xs a ≡ false
    → IsDistinct (xs ++ a ∷ [])
unfolding contains
append-IsDistinct [] a d h = (refl, tt)
append-IsDistinct (x ∷ xs) a (fresh, d) h = (
  ground (arith, contains-append xs a x, eq_iff x a, eq_iff a x),
  append-IsDistinct xs a d (ground arith),
)

add-IsDistinct : (a : String) (xs : List String) → IsDistinct xs → IsDistinct (add a xs)
unfolding add
add-IsDistinct a xs d = elim (Bool-cases (contains xs a)) [
  | inl old ↦ rw old d
  | inr new ↦ rw new (append-IsDistinct xs a d new)
]

discard-IsDistinct : (a : String) (xs : List String) → IsDistinct xs → IsDistinct (discard a xs)
unfolding discard
discard-IsDistinct a [] d = tt
discard-IsDistinct a (x ∷ xs) (fresh, d) = elim (Bool-cases (str_eq x a)) [
  | inl same ↦ rw same (discard-IsDistinct a xs d)
  | inr other ↦ rw other (ground (arith, contains-discard a x xs), discard-IsDistinct a xs d)
]

module _ {B F : Type 0} (b : Broker B F) where
  -- `unsubscribe` after `subscribe`, and both: the agent is in, or out of, the topic's subscribers, and
  -- nobody else and no other topic is touched.
  pub subscribe_lem :
      (aid j : String) (topic t : Topic)
      → (contains ((subscribe b aid topic).subscriptions t) j
          ≡ ((topic_eq t topic && str_eq aid j) || contains (b.subscriptions t) j))
        × (contains ((unsubscribe b aid topic).subscriptions t) j
            ≡ (not (topic_eq t topic && str_eq aid j) && contains (b.subscriptions t) j))
  unfolding subscribe unsubscribe
  subscribe_lem aid j topic t = (
    ground (arith, contains-add aid j (b.subscriptions t)),
    ground (arith, contains-discard aid j (b.subscriptions t)),
  )

pub has_topic : List Topic → Topic → Bool
has_topic [] t = false
has_topic (x ∷ xs) t = topic_eq t x || has_topic xs t

has_topic-append :
    (xs ys : List Topic) (t : Topic) → has_topic (xs ++ ys) t ≡ (has_topic xs t || has_topic ys t)
unfolding has_topic
has_topic-append [] ys t = refl
has_topic-append (x ∷ xs) ys t = ground (arith, has_topic-append xs ys t)

-- The topic of the agent's role.
abbrev pub is_default : String → Topic → Bool
is_default aid t = elim (agent_default_topic aid) [ none ↦ false | some own ↦ topic_eq t own ]

module _ {B F : Type 0} where
  subscribe_all_lem :
      (b : Broker B F) (aid j : String) (ts : List Topic) (t : Topic)
      → (contains ((subscribe_all b aid ts).subscriptions t) j
          ≡ ((has_topic ts t && str_eq aid j) || contains (b.subscriptions t) j))
        × ((subscribe_all b aid ts).agent_queues ≡ b.agent_queues)
        × ((subscribe_all b aid ts).inboxes ≡ b.inboxes)
  unfolding subscribe has_topic
  subscribe_all_lem b aid j [] t = (refl, refl, refl)
  subscribe_all_lem b aid j (topic ∷ ts) t =
      let (members, q, i) = subscribe_all_lem (subscribe b aid topic) aid j ts t in
      (ground (arith, members, (subscribe_lem b aid j topic t).0), q, i)

  subscribe_all-IsDistinct :
      (b : Broker B F) (aid : String) (ts : List Topic)
      → ((t : Topic) → IsDistinct (b.subscriptions t))
      → (t : Topic) → IsDistinct ((subscribe_all b aid ts).subscriptions t)
  unfolding subscribe
  subscribe_all-IsDistinct b aid [] d t = d t
  subscribe_all-IsDistinct b aid (topic ∷ ts) d t =
      subscribe_all-IsDistinct (subscribe b aid topic) aid ts
        (λ s. elim (Bool-cases (topic_eq s topic)) [
          | inl same ↦ rw same (add-IsDistinct aid (b.subscriptions s) (d s))
          | inr other ↦ rw other (d s)
        ])
        t

  -- After `register` the agent has an empty queue and its own inbox, every other agent's queue and
  -- inbox is as before; to the subscribers of each topic the agent is added just if the topic is
  -- BROADCAST, ALERTS, CNP, the one of its role or one of the extra ones, and nobody is removed; and
  -- subscribers stay distinct if they were.
  pub register_lem :
      (b : Broker B F) (aid : String) (inbox : List (AgentMessage B)) (extra : List Topic)
      → ((t : Topic) → IsDistinct (b.subscriptions t))
      → let b' = register b aid inbox extra in
        ((j : String)
          → lookup j b'.agent_queues ≡ (if str_eq aid j then some [] else lookup j b.agent_queues))
        × ((j : String)
            → lookup j b'.inboxes ≡ (if str_eq aid j then some inbox else lookup j b.inboxes))
        × ((t : Topic) (j : String)
            → contains (b'.subscriptions t) j ≡ (
                ((topic_eq t broadcast
                    || topic_eq t alerts
                    || topic_eq t cnp
                    || is_default aid t
                    || has_topic extra t)
                  && str_eq aid j)
                || contains (b.subscriptions t) j))
        × ((t : Topic) → IsDistinct (b'.subscriptions t))
  unfolding register has_topic
  register_lem b aid inbox extra d = (
    λ j. rw (kept broadcast j).1 (lookup-insert aid j [] b.agent_queues),
    λ j. rw (kept broadcast j).2 (lookup-insert aid j inbox b.inboxes),
    λ t j. ground (arith, (kept t j).0, has_topic-append own extra t),
    subscribe_all-IsDistinct b0 aid ts d,
  )
    where
      b0 : Broker B F
      b0 = record b {
        agent_queues = insert aid [] b.agent_queues;
        inboxes = insert aid inbox b.inboxes;
      }

      own : List Topic
      own = elim (agent_default_topic aid) [ none ↦ [] | some t ↦ t ∷ [] ]

      ts : List Topic
      ts = broadcast ∷ alerts ∷ cnp ∷ (own ++ extra)

      kept :
          (t : Topic) (j : String)
          → (contains ((subscribe_all b0 aid ts).subscriptions t) j
              ≡ ((has_topic ts t && str_eq aid j) || contains (b.subscriptions t) j))
            × ((subscribe_all b0 aid ts).agent_queues ≡ insert aid [] b.agent_queues)
            × ((subscribe_all b0 aid ts).inboxes ≡ insert aid inbox b.inboxes)
      kept t j = subscribe_all_lem b0 aid j ts t
