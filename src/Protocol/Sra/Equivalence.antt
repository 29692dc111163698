-- ===== src/Protocol/Sra/Equivalence.antt =====
-- mas/protocol: the graph and the sequential code do the same, and what a failure repeats.
use manufacturing_mas.Prelude.{ℕ, ◌≡◌, Option, none, some, List, [], ◌∷◌, ◌⊎◌}
use manufacturing_mas.Protocol.Sra.{
  GraphKey, GraphCache, find_graph, Agent, reasoning, Methods, SraState, Run, Result, returned,
  continue, call, enter, record_decision, route, finish, Node, build_graph,
}

-- What the program relies on in the graph library: the nodes of a chain run one after another, each on
-- the state that the one before returned, until one raises.
pub record IsChainRunner {S Obs D O W : Type 0} (m : Methods S Obs D O W)
    (invoke : List (Node m) → Node m) : Type 0 where
  pub ends : (st : SraState S Obs D) (a : Agent S D O W) → invoke [] st a ≡ (a, returned st)
  pub steps :
      (node : Node m) (rest : List (Node m)) (st : SraState S Obs D) (a : Agent S D O W)
      → invoke (node ∷ rest) st a ≡ continue (node st a) (invoke rest)

-- What the program relies on in its own methods: observations with the entry "new_alerts" and an
-- enriched snapshot, with its three entries, are no empty dictionaries.
pub record IsFilled {S Obs D O W : Type 0} (m : Methods S Obs D O W) : Type 0 where
  pub observations : (o : Obs) → m.or_empty (m.mark_alerts o) ≡ m.mark_alerts o
  pub enriched : (s : S) → m.or_empty_enriched (m.enrich_for_router s) ≡ m.enrich_for_router s

-- The cache has no other graph under the key than this agent's own: no other agent has used the key.
abbrev pub IsOwnKey :
    {S Obs D O W : Type 0} (m : Methods S Obs D O W) → GraphKey → GraphCache m → Type 0
IsOwnKey m key cache =
    (find_graph m key cache ≡ none) ⊎ (find_graph m key cache ≡ some (build_graph m))

module _ {S Obs D O W : Type 0} (m : Methods S Obs D O W) where
  chain : List (Node m) → Node m
  unfolding continue
  chain [] st a = (a, returned st)
  chain (node ∷ rest) st a = continue (node st a) (chain rest)

  abbrev result_of : SraState S Obs D → Run (Agent S D O W) (Option D)
  result_of st b = (b, returned st.decision)

  -- The sequential code from the router on.
  abbrev from_route : Obs → S → Run (Agent S D O W) (Option D)
  from_route o s a =
      continue (route m o s (enter reasoning a))
        (λ _ c. continue (call (m.reason o) c) (λ d e. finish m d (record_decision d e)))

module _ {S D O W : Type 0} where
  abbrev count_of : {R : Type 0} → Agent S D O W × Result R → ℕ
  count_of p = p.0.cycle_count
