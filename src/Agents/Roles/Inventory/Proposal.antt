-- ===== src/Agents/Roles/Inventory/Proposal.antt =====
-- mas/agents/inventory_agent.py: `handle_cfp`.
use manufacturing_mas.Prelude.{
  ℕ, String, Bool, false, Option, none, some, List, ◌∷◌, [], ltb, str_eq, if◌then◌else◌,
}
use manufacturing_mas.Prelude.Int.{pos}
use manufacturing_mas.Float.{Float, fmin}
use manufacturing_mas.Protocol.Value.{Fields, real, text, object, field, end}
use manufacturing_mas.Agents.Roles.Inventory.{InventoryAgent, station_value}

-- The last of the counts is above the one before, and there are three at least.
unfoldable pub is_rising : List ℕ → Bool
is_rising (x ∷ y ∷ z ∷ rest) = last_rises (y ∷ z ∷ rest)
  where
    last_rises : List ℕ → Bool
    last_rises (a ∷ b ∷ []) = ltb a b
    last_rises (a ∷ b ∷ c ∷ more) = last_rises (b ∷ c ∷ more)
    last_rises _ = false
is_rising _ = false

module _ {F : Type 0} ⦃f : Float F⦄ where
  abbrev delay : Option String → F
  delay none = f.lit 0 1
  delay (some s) = if str_eq s "" then f.lit 0 1 else f.lit 45 2

  unfoldable pub handle_cfp : InventoryAgent F → Fields F
  unfolding is_rising
  handle_cfp a =
      let trend_up = is_rising a.throughput_history in
      let viol = fmin (f.lit 10 1) (
        f.add (f.mul (f.lit 35 2) (f.of_int (pos a.last_wip_alert_n)))
          (delay a.bottleneck_station)) in
      let cost = fmin (f.lit 10 1) (
        f.add (f.mul a.last_scrap_rate (f.lit 80 1))
          (if trend_up then f.lit 12 2 else f.lit 0 1)) in
      field "agent" (text a.base.agent_id) (
        field "proposal" (text "물류 관점 대응") (
          field "bottleneck" (station_value a.bottleneck_station) (
            field "throughput_trend" (text (if trend_up then "상승" else "정체")) (
              field "scores"
                (object (
                  field "quality" (real (f.lit 6 1)) (
                    field "delivery" (real (f.lit 7 1))
                      (field "cost" (real (f.lit 7 1)) (field "safety" (real (f.lit 5 1)) end)))))
                (field "proposal_metrics"
                  (object (
                    field "cost_estimate" (real (f.round cost 4)) (
                      field "constraint_violation_total" (real viol)
                        (field "bottleneck_station" (station_value a.bottleneck_station) end))))
                  end)))))
