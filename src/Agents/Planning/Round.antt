-- ===== src/Agents/Planning/Round.antt =====
-- mas/agents/planning_agent.py: `initiate_cnp`, one round of the Contract Net, and what it calls. The
-- other agents are known by their identifier and their answer to a call for proposals; what they do
-- with an accepted proposal is the list of executions. The card and the report lines for readers are
-- left out of the strategy, as is the broadcast of the call on the broker.
pub mod Safety
use manufacturing_mas.Prelude.{
  ℕ, ◌+◌, String, Bool, true, false, Option, none, some, List, [], ◌∷◌, ◌++◌, if◌then◌else◌, str_eq,
  length,
}
use manufacturing_mas.Prelude.Int.{ℤ, pos}
use manufacturing_mas.Float.{Float}
use manufacturing_mas.Protocol.Value.{
  Value, Fields, null, whole, real, text, object, end, field, get, get_or, put,
}
use manufacturing_mas.Protocol.Session.{
  CnpSession, CnpConstraints, CnpState, protocol_version, collecting, evaluating, completed,
  timeout, default_constraints, new_session, begin, mark, is_expired, clamp, speed_or_100,
  clamp_strategy,
}
use manufacturing_mas.Agents.Planning.Evaluate.{Evaluated, evaluate_proposal}
use manufacturing_mas.Agents.Planning.Rank.{rank_proposals_by_comparison}
use manufacturing_mas.Agents.Planning.Alerts.{Alert, summarize_alerts}

-- `handle_cfp` raises, returns nothing (None or an empty dictionary), or returns a proposal.
pub data Reply (F : Type 0) : Type 0 where
  raised declined : Reply F
  offer : Fields F → Reply F

pub record Bidder (F : Type 0) : Type 0 where
  pub agent_id : String
  pub handle_cfp : Fields F → Reply F

pub record PlanningAgent (F : Type 0) : Type 0 where
  pub cnp_count : ℕ
  pub last_cnp_cycle : ℕ
  pub strategy_log : List (Fields F)
  pub pending_alerts : List (Alert F)

-- What a round takes from outside: the identifier of the conversation, the clock, the language model
-- (none if it is not enabled; its result is none if it raises or is empty), and Python's conversions.
pub record World (F : Type 0) : Type 0 where
  pub conversation_id : String
  pub started_at : F
  pub now : ℕ → F
  pub llm : Option (List (Evaluated F) → Option (Fields F))
  pub parse : String → Option F
  pub parse_int : String → Option ℤ
  pub show : Value F → String
  pub lower : Value F → String

-- How a round ends.
pub data Ending (F : Type 0) : Type 0 where
  failed : Ending F
  no_deal : CnpSession F → Ending F
  deal : CnpSession F → Fields F → List (Evaluated F) → List (String × Evaluated F) → Ending F

abbrev pub own_id : String
own_id = "PA"

module _ {F : Type 0} ⦃f : Float F⦄ where
  -- The proposal of one agent with its speed brought into the limits, evaluated; none if the agent
  -- raises, declines, or if the proposal cannot be evaluated.
  unfoldable pub collect_from : World F → Fields F → CnpSession F → Bidder F → Option (Evaluated F)
  unfolding speed_or_100 get_or put clamp evaluate_proposal
  collect_from w cfp s agent = elim (agent.handle_cfp cfp) [
    | raised ↦ none
    | declined ↦ none
    | offer raw ↦
        elim (speed_or_100 w.parse
          (get_or "speed_recommendation" (get_or "target_speed_pct" (whole (pos 100)) raw) raw)) [
            | none ↦ none
            | some speed ↦
                evaluate_proposal w.parse w.parse_int s.constraints
                  (put "speed_recommendation" (whole (clamp s.constraints speed)) raw)
          ]
  ]

  -- The loop over the agents; `k` counts the readings of the clock. None stands for a timeout, which
  -- drops what was collected.
  unfoldable pub collect_proposals :
      World F
      → Fields F
      → CnpSession F
      → ℕ
      → List (Bidder F)
      → List (Evaluated F)
      → Option (List (Evaluated F))
  unfolding collect_from is_expired
  collect_proposals w cfp s k [] found = some found
  collect_proposals w cfp s k (agent ∷ rest) found =
      let skip = collect_proposals w cfp s k rest found in
      let next =
        collect_proposals w cfp s (k + 1) rest
          (elim (collect_from w cfp s agent) [ none ↦ found | some e ↦ found ++ e ∷ [] ]) in
      if str_eq agent.agent_id own_id then skip else if is_expired (w.now k) s then none else next

  unfoldable pub build_strategy_rules : ℕ → Evaluated F → List (Evaluated F) → Fields F
  unfolding get_or
  build_strategy_rules cnp_id best proposals = field "cnp_id" (whole (pos cnp_id)) (
      field "decision" (text "rule_based") (
        field "target_speed_pct" (get_or "speed_recommendation" (whole (pos 100)) best.body) (
          field "inspection_mode" (get_or "inspection_mode" (text "standard") best.body) (
            field "best_agent" (get_or "agent" (text "") best.body) (
              field "best_score" (real best.total_score) (
                field "comparison_score" (real best.comparison_score) (
                  field "business_score" (real best.business_score) (
                    field "constraint_penalty" (real best.constraint_penalty) (
                      field "proposals_count" (whole (pos (length proposals))) (
                        field "rationale" (text "rule-ranked manufacturing proposal selected")
                          end))))))))))

  unfoldable pub build_strategy : World F → ℕ → Evaluated F → List (Evaluated F) → Fields F
  unfolding build_strategy_rules put
  build_strategy w cnp_id best proposals =
      let rules = build_strategy_rules cnp_id best proposals in
      elim w.llm [
        | none ↦ rules
        | some evaluate ↦ elim (evaluate proposals) [
          | none ↦ rules
          | some result ↦ put "cnp_id" (whole (pos cnp_id)) result
        ]
      ]

  abbrev is_from : String → Value F → Bool
  is_from aid (text s) = str_eq s aid
  is_from aid _ = false

  -- The first proposal that names the agent.
  unfoldable pub first_of : String → List (Evaluated F) → Option (Evaluated F)
  unfolding get
  first_of aid [] = none
  first_of aid (p ∷ rest) =
      let later = first_of aid rest in if is_from aid (get "agent" p.body) then some p else later

  -- The agents whose proposals are carried out, in order; an exception of one does not stop the rest.
  unfoldable pub executions : List (Bidder F) → List (Evaluated F) → List (String × Evaluated F)
  unfolding first_of
  executions [] proposals = []
  executions (agent ∷ rest) proposals =
      let later = executions rest proposals in
      if str_eq agent.agent_id own_id then later else elim (first_of agent.agent_id proposals) [
        | none ↦ later
        | some p ↦ (agent.agent_id, p) ∷ later
      ]

  unfoldable pub constraint_fields : CnpConstraints F → Fields F
  constraint_fields c = field "speed_min_pct" (whole c.speed_min_pct) (
      field "speed_max_pct" (whole c.speed_max_pct)
        (field "deadline_sec" (real c.deadline_sec) end))

  -- `summary` is the excerpt of the snapshot.
  unfoldable pub cfp_data : World F → PlanningAgent F → Fields F → CnpConstraints F → Fields F
  unfolding summarize_alerts constraint_fields
  cfp_data w pa summary c = field "initiator" (text own_id) (
      field "cnp_id" (whole (pos pa.cnp_count)) (
        field "protocol_version" (text protocol_version) (
          field "conversation_id" (text w.conversation_id) (
            field "situation" (text (summarize_alerts w.show pa.pending_alerts)) (
              field "snapshot_summary" (object summary)
                (field "constraints" (object (constraint_fields c)) end))))))

  -- From the ranked proposals on.
  unfoldable pub conclude :
      World F
      → PlanningAgent F
      → CnpSession F
      → List (Bidder F)
      → List (Evaluated F)
      → PlanningAgent F × Ending F
  unfolding build_strategy clamp_strategy executions mark
  conclude w pa s agents [] = (pa, no_deal (mark timeout s))
  conclude w pa s agents (best ∷ rest) =
      let ranked = best ∷ rest in
      elim (clamp_strategy w.parse w.lower s (build_strategy w pa.cnp_count best ranked)) [
        | none ↦ (pa, failed)
        | some strategy ↦ (
          record pa { strategy_log = pa.strategy_log ++ strategy ∷ [] },
          deal (mark completed s) strategy ranked (executions agents ranked),
        )
      ]

  -- Ranking and conclusion of what was collected; without a proposal the session times out.
  unfoldable pub evaluate_round :
      World F
      → PlanningAgent F
      → CnpSession F
      → List (Bidder F)
      → Option (List (Evaluated F))
      → PlanningAgent F × Ending F
  unfolding rank_proposals_by_comparison conclude mark
  evaluate_round w pa s agents none = (pa, no_deal (mark timeout s))
  evaluate_round w pa s agents (some []) = (pa, no_deal (mark timeout s))
  evaluate_round w pa s agents (some (p ∷ rest)) =
      elim (rank_proposals_by_comparison w.parse w.parse_int s.constraints (p ∷ rest)) [
        | none ↦ (pa, failed)
        | some ranked ↦ conclude w pa (mark evaluating s) agents ranked
      ]

  unfoldable pub initiate_cnp :
      World F → PlanningAgent F → List (Bidder F) → ℕ → Fields F → PlanningAgent F × Ending F
  unfolding new_session default_constraints begin mark cfp_data collect_proposals evaluate_round
  initiate_cnp w pa agents cycle summary =
      let counted = record pa { cnp_count = pa.cnp_count + 1; last_cnp_cycle = cycle } in
      let s = begin w.conversation_id w.started_at (new_session default_constraints) in
      let open_session = mark collecting s in
      let cfp = cfp_data w counted summary open_session.constraints in
      evaluate_round w counted open_session agents
        (collect_proposals w cfp open_session 0 agents [])
