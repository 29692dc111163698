-- ===== src/Protocol/Sra.antt =====
-- mas/protocol/agent_protocol.py, mas/protocol/sra_langgraph.py and the common part of
-- mas/agents/base_agent.py: one cycle of sense, route, reason and act. What the roles' own methods,
-- the router and the enrichment of snapshots do is a record of functions; any of the methods may raise.
pub mod Equivalence
use manufacturing_mas.Prelude.{
  ℕ, ◌+◌, ◌≡◌, Bool, true, false, Option, none, some, List, [], ◌∷◌, ◌++◌, if◌then◌else◌,
  push_capped, String, str_eq, ◌==◌, ◌&&◌,
}

pub data AgentState : Type 0 where
  idle sensing reasoning acting negotiating error : AgentState

pub data Result (R : Type 0) : Type 0 where
  returned : R → Result R
  raised : Result R

-- The fields of `BaseAgent` that a cycle changes; `own` is what a role adds, `outside` the broker, the
-- logs and the factory.
pub record Agent (Snapshot Decision Own Outside : Type 0) : Type 0 where
  pub state : AgentState
  pub snapshot : Option Snapshot
  pub cycle_count : ℕ
  pub decisions : List Decision
  pub own : Own
  pub outside : Outside

-- `route` is none without a router; it includes the actions of the result. `mark_alerts` copies the
-- alerts of the observations to "new_alerts". `no_observations` and `no_enriched` are the empty
-- dictionary, and `or_empty` and `or_empty_enriched` put it in the place of a falsy value: `… or {}`.
pub record Methods (Snapshot Observations Decision Own Outside : Type 0) : Type 0 where
  pub enrich_for_agents : Snapshot → Snapshot
  pub enrich_for_router : Snapshot → Snapshot
  pub no_observations : Observations
  pub mark_alerts : Observations → Observations
  pub or_empty : Observations → Observations
  pub no_enriched : Snapshot
  pub or_empty_enriched : Snapshot → Snapshot
  pub sense : Snapshot → Own → Outside → Own × Outside × Result Observations
  pub route : Option (Observations → Snapshot → Own → Outside → Own × Outside × Result Unit)
  pub reason : Observations → Own → Outside → Own × Outside × Result (Option Decision)
  pub act : Option Decision → Own → Outside → Own × Outside × Result Unit

-- The state of the graph.
pub record SraState (Snapshot Observations Decision : Type 0) : Type 0 where
  pub snapshot : Snapshot
  pub observations : Option Observations
  pub enriched : Option Snapshot
  pub decision : Option Decision

-- The key of a graph in the cache: the agent's identifier, and the identities of the router, the
-- broker and the log function, 0 for None.
pub record GraphKey : Type 0 where
  pub agent_id : String
  pub router : ℕ
  pub broker : ℕ
  pub log_fn : ℕ

unfoldable pub same_key : GraphKey → GraphKey → Bool
same_key k l =
    str_eq k.agent_id l.agent_id
    && (k.router == l.router)
    && (k.broker == l.broker)
    && (k.log_fn == l.log_fn)

-- A step on a state, which may raise and keeps the state it reached.
abbrev pub Run : Type 0 → Type 0 → Type 0
Run A R = A → A × Result R

-- What follows, unless an exception was raised.
unfoldable pub continue : {A R T : Type 0} → A × Result R → (R → Run A T) → A × Result T
continue (a, raised) k = (a, raised)
continue (a, returned x) k = k x a

module _ {S D O W : Type 0} where
  -- A method of the role.
  unfoldable pub call : {R : Type 0} → (O → W → O × W × Result R) → Run (Agent S D O W) R
  call method a =
      let (own, outside, result) = method a.own a.outside in
      (record a { own = own; outside = outside }, result)

  abbrev pub enter : AgentState → Agent S D O W → Agent S D O W
  enter state a = record a { state = state }

  -- The last 100 decisions are kept; None is not recorded.
  unfoldable pub record_decision : Option D → Agent S D O W → Agent S D O W
  unfolding push_capped
  record_decision none a = a
  record_decision (some d) a = record a { decisions = push_capped 100 100 a.decisions d }

  unfoldable pub begin_cycle : S → Agent S D O W → Agent S D O W
  begin_cycle snapshot a = record a {
    snapshot = some snapshot;
    cycle_count = a.cycle_count + 1;
    state = sensing;
  }

module _ {S Obs D O W : Type 0} (m : Methods S Obs D O W) where
  unfoldable pub route : Obs → S → Run (Agent S D O W) Unit
  unfolding call
  route observations enriched a = elim m.route [
    | none ↦ (a, returned tt)
    | some router ↦ call (router observations enriched) a
  ]

  -- From the decision on.
  unfoldable pub finish : Option D → Run (Agent S D O W) (Option D)
  unfolding continue call
  finish decision a =
      continue (call (m.act decision) (enter acting a)) (λ _ b. (enter idle b, returned decision))

  -- `run_cycle` of the agent itself, without a router.
  unfoldable pub run_cycle : S → Run (Agent S D O W) (Option D)
  unfolding continue call begin_cycle record_decision finish
  run_cycle snapshot a =
      continue (call (m.sense snapshot) (begin_cycle snapshot a)) (λ observations b.
        continue (call (m.reason observations) (enter reasoning b))
          (λ decision c. finish decision (record_decision decision c)))

  -- `_run_sra_sequential`
  unfoldable pub run_sra_sequential : S → Run (Agent S D O W) (Option D)
  unfolding continue call begin_cycle route record_decision finish
  run_sra_sequential snapshot a =
      let snap = m.enrich_for_agents snapshot in
      continue (call (m.sense snap) (begin_cycle snap a)) (λ seen b.
        let observations = m.mark_alerts seen in
        let enriched = m.enrich_for_router snap in
        continue (route observations enriched (enter reasoning b)) (λ _ c.
          continue (call (m.reason observations) c)
            (λ decision d. finish decision (record_decision decision d))))

  abbrev pub Node : Type 0
  Node = SraState S Obs D → Run (Agent S D O W) (SraState S Obs D)

  abbrev observed : SraState S Obs D → Obs
  observed st = elim st.observations [ none ↦ m.no_observations | some o ↦ m.or_empty o ]

  unfoldable pub node_sense : Node
  unfolding continue call begin_cycle
  node_sense st a =
      continue (call (m.sense st.snapshot) (begin_cycle st.snapshot a))
        (λ seen b. (b, returned (record st { observations = some (m.mark_alerts seen) })))

  unfoldable pub node_enrich : Node
  node_enrich st a = (a, returned (record st { enriched = some (m.enrich_for_router st.snapshot) }))

  unfoldable pub node_router : Node
  unfolding continue route
  node_router st a =
      let enriched : S = elim st.enriched [
        | none ↦ m.no_enriched
        | some e ↦ m.or_empty_enriched e
      ] in
      continue (route (observed st) enriched (enter reasoning a)) (λ _ b. (b, returned st))

  unfoldable pub node_reason : Node
  unfolding continue call record_decision
  node_reason st a =
      continue (call (m.reason (observed st)) a)
        (λ decision b. (record_decision decision b, returned (record st { decision = decision })))

  unfoldable pub node_act : Node
  unfolding continue call
  node_act st a =
      continue (call (m.act st.decision) (enter acting a)) (λ _ b. (enter idle b, returned st))

  -- The graph is a chain from START to END.
  unfoldable pub build_graph : List Node
  unfolding node_sense node_enrich node_router node_reason node_act
  build_graph = node_sense ∷ node_enrich ∷ node_router ∷ node_reason ∷ node_act ∷ []

  -- The graphs that were built, by key. A graph closes over the agent, the router, the broker and the
  -- log function that it was built with: for others, its nodes are other functions.
  abbrev pub GraphCache : Type 0
  GraphCache = List (GraphKey × List Node)

  unfoldable pub find_graph : GraphKey → GraphCache → Option (List Node)
  unfolding same_key
  find_graph key [] = none
  find_graph key ((k, graph) ∷ rest) = if same_key k key then some graph else find_graph key rest

  -- The graph of the key, which is built if the cache has none, and the cache after.
  unfoldable pub cached_graph : GraphKey → GraphCache → GraphCache × List Node
  unfolding find_graph build_graph
  cached_graph key cache = elim (find_graph key cache) [
    | none ↦ ((key, build_graph) ∷ cache, build_graph)
    | some graph ↦ (cache, graph)
  ]

  unfoldable pub clear_sra_graph_cache : GraphCache → GraphCache
  clear_sra_graph_cache cache = []

  -- `invoke` is the graph library's, `key` the key of the arguments.
  unfoldable pub invoke_sra_graph :
      (List Node → Node)
      → GraphKey
      → GraphCache
      → S
      → Agent S D O W
      → GraphCache × (Agent S D O W × Result (Option D))
  unfolding continue cached_graph
  invoke_sra_graph invoke key cache snapshot a =
      let (kept, graph) = cached_graph key cache in
      (
        kept,
        continue
            (invoke graph
              (record {
                snapshot = m.enrich_for_agents snapshot;
                observations = none;
                enriched = none;
                decision = none;
              })
              a)
            (λ st b. (b, returned st.decision)),
      )

  -- An exception in the graph leads to a second, sequential run, from the state that the first one
  -- left.
  unfoldable pub or_sequential :
      S → Agent S D O W × Result (Option D) → Agent S D O W × Result (Option D)
  unfolding run_sra_sequential
  or_sequential snapshot (b, returned decision) = (b, returned decision)
  or_sequential snapshot (b, raised) = run_sra_sequential snapshot b

  unfoldable pub run_cycle_with_router :
      (List Node → Node)
      → Bool
      → GraphKey
      → GraphCache
      → S
      → Agent S D O W
      → GraphCache × (Agent S D O W × Result (Option D))
  unfolding invoke_sra_graph run_sra_sequential or_sequential
  run_cycle_with_router invoke use_langgraph key cache snapshot a =
      let (kept, outcome) = invoke_sra_graph invoke key cache snapshot a in
      if use_langgraph
      then (kept, or_sequential snapshot outcome)
      else (cache, run_sra_sequential snapshot a)
