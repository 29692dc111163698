-- ===== src/Tests/Sra.antt =====
-- mas/protocol/agent_protocol.py and sra_langgraph.py at concrete inputs.
use manufacturing_mas.Prelude.{ℕ, ◌+◌, none, List, [], ◌∷◌}
use manufacturing_mas.Protocol.Sra.{
  GraphKey, Agent, Methods, Node, idle, returned, raised, continue,
}

-- A role that counts its senses, and that raises when it reasons.
abbrev fragile : Methods ℕ ℕ ℕ ℕ ℕ
fragile = record {
  enrich_for_agents = λ s. s;
  enrich_for_router = λ s. s;
  no_observations = 0;
  mark_alerts = λ o. o + 1;
  or_empty = λ o. o;
  no_enriched = 0;
  or_empty_enriched = λ s. s;
  sense = λ s own outside. (own + 1, outside, returned s);
  route = none;
  reason = λ o own outside. (own, outside, raised);
  act = λ d own outside. (own, outside, returned tt);
}

abbrev agent : Agent ℕ ℕ ℕ ℕ
agent = record {
  state = idle;
  snapshot = none;
  cycle_count = 0;
  decisions = [];
  own = 0;
  outside = 0;
}

unfoldable run_nodes : List (Node fragile) → Node fragile
unfolding continue
run_nodes [] st a = (a, returned st)
run_nodes (node ∷ rest) st a = continue (node st a) (run_nodes rest)

abbrev key : GraphKey
key = record { agent_id = "QA"; router = 0; broker = 7; log_fn = 0 }
