-- ===== src/Tests/Broker.antt =====
-- mas/messaging/broker.py at concrete inputs.
use mathlib.Core.List.{reverse}
use manufacturing_mas.Prelude.{
  ℕ, ◌+◌, ◌≡◌, refl, subst, ◌⊎◌, inl, inr, ◌≤◌, String, true, false, ◌&&◌, ◌||◌, none, some, List,
  [], ◌∷◌, arith, str_eq, eq_iff, Bool-cases, if◌then◌else◌, length, get_elem?, set, drop, last_n,
  All, push_capped,
}
use manufacturing_mas.Prelude.Dict.{lookup}
use manufacturing_mas.Prelude.Int.{pos}
use manufacturing_mas.Float.{Fixed, fixed_float}
use manufacturing_mas.Messaging.Message.{AgentMessage, inform, create}
use manufacturing_mas.Messaging.Topics.{
  Topic, equipment, quality, supply, demand, inventory, planning, broadcast, alerts, cnp, topic_eq,
  intent_topic, agent_default_topic,
}
use manufacturing_mas.Messaging.Broker.{
  Broker, MessageEnvelope, init, register, contains, max_dlq, subscribe,
}
use manufacturing_mas.Messaging.Broker.Publish.{publish, chosen}
use manufacturing_mas.Messaging.Broker.Consume.{acknowledge, consume, consume_all}
use manufacturing_mas.Messaging.Broker.Bounds.{IsValid}
use manufacturing_mas.Messaging.Broker.Bounds.Routing.{publish-IsValid, init-IsValid}
use manufacturing_mas.Messaging.Broker.Delivery.{
  IsDelivered, publish_direct, publish_unknown, publish_full, second_try,
}
use manufacturing_mas.Messaging.Broker.Broadcast.{IsDistinct, IsReady, IsBroadcast, publish_all}
use manufacturing_mas.Messaging.Broker.Subscriptions.{register_lem, has_topic, is_default}
use manufacturing_mas.Messaging.Broker.Acks.{acknowledge_lem, consume_lem, is_match}

abbrev clock : ℕ → Fixed
clock n = pos (n + 1)

abbrev nobody : String → ℕ
nobody _ = 0

-- Queues of one message, two agents.
abbrev two_agents : Broker ℕ Fixed
unfolding init register subscribe
two_agents = register (register (init 1) "EA" [] []) "QA" [] []

abbrev direct : AgentMessage ℕ
unfolding create
direct = create "EA" "QA" inform 7 none "c1" "10:00" "m1"

abbrev unknown : AgentMessage ℕ
unfolding create
unknown = create "EA" "PA" inform 7 none "c1" "10:00" "m2"

abbrev everyone : AgentMessage ℕ
unfolding create
everyone = create "EA" "ALL" inform 7 (some "c2") "c1" "10:00" "m3"

-- The queue of QA is full.
abbrev busy : Broker ℕ Fixed
unfolding publish
busy = (publish clock nobody two_agents direct none).0

init-IsValid_example : IsValid 0 (init {B = ℕ} {F = Fixed} 500)
init-IsValid_example = init-IsValid 500 (omega arith)

two_agents-IsValid : IsValid 0 two_agents
unfolding init register subscribe
two_agents-IsValid = record {
  size = refl;
  positive = omega arith;
  log_le = omega arith;
  latencies_le = omega arith;
  log_refs = tt;
  dlq_refs = tt;
  queues = ground arith;
}

publish-IsValid_example : IsValid 1 (publish clock nobody two_agents direct none).0
publish-IsValid_example = publish-IsValid clock nobody 0 two_agents direct none two_agents-IsValid

publish_direct_example :
    IsDelivered two_agents (publish clock nobody two_agents direct none).0 "QA" 0 direct
unfolding init register subscribe create lookup
publish_direct_example =
    publish_direct clock nobody two_agents direct none [] [] refl refl refl refl

publish_unknown_example :
    let b' = (publish clock nobody two_agents unknown none).0 in
    (b'.dlq ≡ push_capped max_dlq 250 [] 0)
    × (length b'.dlq ≤ max_dlq)
    × (b'.metrics.total_dlq ≡ 1)
    × (b'.agent_queues ≡ two_agents.agent_queues)
    × (b'.inboxes ≡ two_agents.inboxes)
unfolding init register subscribe create lookup
publish_unknown_example = publish_unknown clock nobody two_agents unknown none refl refl

publish_full_example :
    let b' = (publish clock nobody busy direct none).0 in
    let left : List ℕ = drop (nobody direct.header.receiver) (0 ∷ []) in
    (b'.inboxes ≡ busy.inboxes)
    × (b'.dlq ≡ busy.dlq)
    × (b'.metrics.total_dlq ≡ busy.metrics.total_dlq)
    × ((j : String)
        → lookup j b'.agent_queues ≡ (
            if str_eq direct.header.receiver j
            then some (second_try busy left (length busy.store))
            else lookup j busy.agent_queues))
unfolding init register subscribe create publish lookup
publish_full_example = publish_full clock nobody busy direct none (0 ∷ []) refl refl refl

two_agents-IsReady : IsReady two_agents "QA"
unfolding init register subscribe lookup
two_agents-IsReady = ([], [], refl, refl, refl)

subscribers-IsReady :
    (j : String)
    → contains (two_agents.subscriptions (chosen everyone none)) j ≡ true
    → str_eq j "EA" ≡ false
    → IsReady two_agents j
unfolding init register subscribe create contains intent_topic
subscribers-IsReady j listed other = elim (Bool-cases (str_eq "QA" j)) [
  | inl qa ↦ subst (IsReady two_agents) ((eq_iff "QA" j).0 qa) two_agents-IsReady
  | inr no_qa ↦ absurd (ground (arith, listed, other, no_qa, eq_iff "EA" j, eq_iff j "EA"))
]

publish_all_example :
    IsBroadcast two_agents
      (publish clock nobody two_agents everyone none).0
      "EA"
      ("EA" ∷ "QA" ∷ [])
      0
      everyone
unfolding init register subscribe create contains intent_topic
publish_all_example =
    publish_all clock nobody two_agents everyone none refl (refl, (refl, tt)) subscribers-IsReady

two_agents-IsDistinct : (t : Topic) → IsDistinct (two_agents.subscriptions t)
unfolding init register subscribe contains agent_default_topic
two_agents-IsDistinct equipment = (refl, tt)
two_agents-IsDistinct quality = (refl, tt)
two_agents-IsDistinct supply = tt
two_agents-IsDistinct demand = tt
two_agents-IsDistinct inventory = tt
two_agents-IsDistinct planning = tt
two_agents-IsDistinct broadcast = (refl, (refl, tt))
two_agents-IsDistinct alerts = (refl, (refl, tt))
two_agents-IsDistinct cnp = (refl, (refl, tt))

register_lem_example :
    let b' = register two_agents "PA" [] (quality ∷ []) in
    ((j : String)
      → lookup j b'.agent_queues
        ≡ (if str_eq "PA" j then some [] else lookup j two_agents.agent_queues))
    × ((j : String)
        → lookup j b'.inboxes ≡ (if str_eq "PA" j then some [] else lookup j two_agents.inboxes))
    × ((t : Topic) (j : String)
        → contains (b'.subscriptions t) j ≡ (
            ((topic_eq t broadcast
                || topic_eq t alerts
                || topic_eq t cnp
                || is_default "PA" t
                || has_topic (quality ∷ []) t)
              && str_eq "PA" j)
            || contains (two_agents.subscriptions t) j))
    × ((t : Topic) → IsDistinct (b'.subscriptions t))
register_lem_example = register_lem two_agents "PA" [] (quality ∷ []) two_agents-IsDistinct

acknowledge_lem_example :
    let (b', found) = acknowledge busy "m1" in
    (b'.metrics.total_acked ≡ busy.metrics.total_acked + 1)
    × (((h i : ℕ) × (e : MessageEnvelope ℕ Fixed) × (found ≡ true)
          × (get_elem? (reverse (last_n 200 busy.envelope_log)) i ≡ some h)
          × (get_elem? busy.store h ≡ some e)
          × (str_eq e.envelope_id "m1" ≡ true)
          × (e.acked ≡ false)
          × (b'.store ≡ set busy.store h (record e { acked = true })))
        ⊎ ((found ≡ false)
            × (b'.store ≡ busy.store)
            × All
                (λ h. is_match busy.store "m1" h ≡ false)
                (reverse (last_n 200 busy.envelope_log))))
acknowledge_lem_example = acknowledge_lem busy "m1"

consume_lem_example :
    ((consume busy "QA").1 ≡ some 0)
    × (lookup "EA" (consume busy "QA").0.agent_queues
        ≡ (if str_eq "QA" "EA" then some [] else lookup "EA" busy.agent_queues))
    × ((consume_all busy "QA").1 ≡ 0 ∷ [])
    × (lookup "EA" (consume_all busy "QA").0.agent_queues
        ≡ (if str_eq "QA" "EA" then some [] else lookup "EA" busy.agent_queues))
unfolding init register subscribe create publish lookup
consume_lem_example = consume_lem busy "QA" "EA" (0 ∷ []) refl
