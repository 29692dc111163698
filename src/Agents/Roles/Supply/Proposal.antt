-- ===== src/Agents/Roles/Supply/Proposal.antt =====
-- mas/agents/supply_agent.py: `handle_cfp`.
use manufacturing_mas.Prelude.{List, [], ◌∷◌, length, str_eq, last_n, if◌then◌else◌}
use manufacturing_mas.Prelude.Int.{pos}
use manufacturing_mas.Float.{Float, fmin}
use manufacturing_mas.Protocol.Value.{Fields, whole, real, text, list, object, field, end}
use manufacturing_mas.Agents.Roles.Supply.{Reorder, SupplyAgent, reorder_items}

unfoldable pub emergencies : List Reorder → List Reorder
emergencies [] = []
emergencies (r ∷ rest) =
    let later = emergencies rest in if str_eq r.type "긴급발주" then r ∷ later else later

module _ {F : Type 0} ⦃f : Float F⦄ where
  abbrev violation : List Reorder → List Reorder → F
  violation (r ∷ rest) _ = f.lit 10 1
  violation [] (r ∷ rest) = f.lit 4 1
  violation [] [] = f.lit 0 1

  unfoldable pub handle_cfp : SupplyAgent F → Fields F
  unfolding emergencies
  handle_cfp a =
      let critical = emergencies (last_n 5 a.reorder_log) in
      let cost = fmin (f.lit 10 1) (
        f.add (f.mul (f.lit 2 1) (f.of_int (pos (length critical))))
          (f.mul (f.lit 5 2) (f.of_int (pos (length (last_n 10 a.reorder_log)))))) in
      field "agent" (text a.base.agent_id) (
        field "proposal" (text "자재 관점 대응") (
          field "critical_materials" (list (reorder_items critical)) (
            field "reorder_pending" (whole (pos (length a.reorder_log))) (
              field "scores"
                (object (
                  field "quality" (real (f.lit 5 1)) (
                    field "delivery" (real (f.lit 8 1))
                      (field "cost" (real (f.lit 6 1)) (field "safety" (real (f.lit 6 1)) end)))))
                (field "proposal_metrics"
                  (object (
                    field "cost_estimate" (real (f.round cost 4)) (
                      field "constraint_violation_total" (real (violation critical a.reorder_log))
                        (field "critical_material_n" (whole (pos (length critical))) end))))
                  end)))))
