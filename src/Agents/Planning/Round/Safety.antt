-- ===== src/Agents/Planning/Round/Safety.antt =====
-- mas/agents/planning_agent.py: what holds after a round, whatever agents and language model answer.
use manufacturing_mas.Prelude.{
  ◌≡◌, String, true, false, some, List, [], ◌∷◌, ◌++◌, str_eq, All, ◌||◌,
}
use manufacturing_mas.Prelude.Int.{ℤ, pos, ltb_ℤ}
use manufacturing_mas.Float.{Float}
use manufacturing_mas.Protocol.Value.{Fields, get, get_or, flag, whole, text}
use manufacturing_mas.Protocol.Session.{
  completed, timeout, default_constraints, clamp_strategy, is_full,
}
use manufacturing_mas.Protocol.Session.Clamp.{IsClamped}
use manufacturing_mas.Agents.Planning.Evaluate.{Evaluated}
use manufacturing_mas.Agents.Planning.Round.{
  PlanningAgent, World, Ending, failed, no_deal, deal, own_id, is_from, build_strategy,
}

module _ {F : Type 0} ⦃f : Float F⦄ where
  -- An execution goes to another agent than the planner, which made the proposal.
  abbrev pub IsOwn : String × Evaluated F → Type 0
  IsOwn x = (str_eq x.0 own_id ≡ false) × (is_from x.0 (get "agent" x.1.body) ≡ true)

  -- The strategy itself asks for an approval exactly if its own speed is below 70 or its own inspection
  -- is full.
  abbrev pub IsApproved : World F → Fields F → Type 0
  IsApproved w strategy =
      (speed : ℤ) × (get "target_speed_pct" strategy ≡ whole speed)
      × (get "approval_required" strategy
          ≡ flag (
              ltb_ℤ speed (pos 70)
              || is_full (w.lower (get_or "inspection_mode" (text "") strategy))))

  -- How a round may end for the planning agent with this log of strategies.
  abbrev pub IsEnding : World F → List (Fields F) → PlanningAgent F → Ending F → Type 0
  IsEnding w log pa' failed = pa'.strategy_log ≡ log
  IsEnding w log pa' (no_deal s) = (s.state ≡ timeout) × (pa'.strategy_log ≡ log)
  IsEnding w log pa' (deal s strategy ranked executed) =
      (s.state ≡ completed)
      × (pa'.strategy_log ≡ log ++ strategy ∷ [])
      × ((best : Evaluated F) × (rest : List (Evaluated F)) × (ranked ≡ best ∷ rest)
          × (clamp_strategy w.parse w.lower s (build_strategy w pa'.cnp_count best ranked)
              ≡ some strategy)
          × IsClamped w.lower s (build_strategy w pa'.cnp_count best ranked) strategy)
      × IsApproved w strategy
      × (s.constraints ≡ default_constraints)
      × All IsOwn executed
