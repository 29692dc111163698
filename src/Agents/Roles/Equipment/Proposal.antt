-- ===== src/Agents/Roles/Equipment/Proposal.antt =====
-- mas/agents/equipment_agent.py: `handle_cfp`, with the comparison that
-- mas/protocol/cnp_comparison.py adds to it. `float(s)` of a text is `parse`.
use manufacturing_mas.Prelude.{String, Option, List, [], ◌∷◌, if◌then◌else◌}
use manufacturing_mas.Prelude.Int.{pos}
use manufacturing_mas.Prelude.Dict.{Dict}
use manufacturing_mas.Float.{Float, fmax, fmin}
use manufacturing_mas.Protocol.Value.{
  Fields, Items, whole, real, text, list, object, nil, item, field, end, put,
}
use manufacturing_mas.Protocol.Comparison.{normalize_comparison_metrics}
use manufacturing_mas.Agents.Planning.Evaluate.{comparison_fields}
use manufacturing_mas.Agents.Roles.Equipment.{EquipmentAgent, MaintenanceAction}

module _ {F : Type 0} where
  abbrev action_items : List MaintenanceAction → Items F
  action_items [] = nil
  action_items (m ∷ rest) =
      item
        (object (
          field "station" (text m.station)
            (field "action" (text m.action) (field "reason" (text m.reason) end))))
        (action_items rest)

module _ {F : Type 0} ⦃f : Float F⦄ where
  -- The first of the least estimates.
  unfoldable pub worst : F → Dict F → F
  worst least [] = least
  worst least ((sid, rul) ∷ rest) = worst (fmin least rul) rest

  -- The least estimate, or 999 if there is none.
  unfoldable pub worst_rul : Dict F → F
  unfolding worst
  worst_rul [] = f.lit 9990 1
  worst_rul ((sid, rul) ∷ rest) = worst rul rest

  abbrev health_summary : Dict F → Fields F
  health_summary [] = end
  health_summary ((sid, rul) ∷ rest) = field sid (real (f.round rul 1)) (health_summary rest)

module _ {F : Type 0} ⦃f : Float F⦄ (parse : String → Option F) where
  unfoldable pub merge_into_proposal : Fields F → Fields F
  unfolding normalize_comparison_metrics put
  merge_into_proposal proposal =
      put "comparison" (object (comparison_fields (normalize_comparison_metrics parse proposal)))
        proposal

  unfoldable pub handle_cfp : EquipmentAgent F → Fields F
  unfolding worst_rul merge_into_proposal
  handle_cfp a =
      let wr = worst_rul a.rul_estimates in
      let cost =
        fmax (f.lit 0 1) (
          fmin (f.lit 10 1) (f.sub (f.lit 10 1) (f.div (fmin wr (f.lit 1200 1)) (f.lit 1200 1)))) in
      let viol =
        if f.lt wr (f.of_int (pos 4))
        then f.lit 10 1
        else if f.lt wr (f.of_int (pos 8))
        then f.lit 5 1
        else f.lit 0 1 in
      merge_into_proposal (
        field "agent" (text a.base.agent_id) (
          field "proposal" (text "설비 관점 대응") (
            field "speed_recommendation"
              (whole (if f.lt wr (f.of_int (pos 8)) then pos 80 else pos 100))
              (field "maintenance_needed" (list (action_items a.maintenance_queue)) (
                field "health_summary" (object (health_summary a.rul_estimates)) (
                  field "scores"
                    (object (
                      field "quality" (real (f.lit 7 1)) (
                        field "delivery" (real (f.lit 6 1)) (
                          field "cost" (real (f.lit 5 1))
                            (field "safety" (real (f.lit 9 1)) end)))))
                    (field "proposal_metrics"
                      (object (
                        field "cost_estimate" (real (f.round cost 4)) (
                          field "constraint_violation_total" (real viol) (
                            field "rul_worst_hours" (real (f.round wr 2)) (
                              field "expected_effect" (real (f.round (f.sub (f.lit 10 1) cost) 4)) (
                                field "quality_risk" (real (f.lit 35 2)) (
                                  field "delivery_impact" (real (f.lit 1 1)) (
                                    field "material_impact" (real (f.lit 15 2))
                                      (field "confidence" (real (f.lit 75 2)) end)))))))))
                      end)))))))
