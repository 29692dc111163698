-- ===== src/Agents/Roles/Quality/Decide.antt =====
-- mas/agents/quality_agent.py: `reason`, `act`, the proposal and its execution. `float(s)` of a text is
-- `parse`.
use Prim.Native.String.{◌++◌ as append}
use manufacturing_mas.Prelude.{
  ℕ, ◌+◌, String, Bool, true, false, not, ◌&&◌, ◌||◌, Option, none, some, List, [], ◌∷◌, ◌++◌,
  if◌then◌else◌, str_eq, length,
}
use manufacturing_mas.Prelude.Int.{pos}
use manufacturing_mas.Prelude.Dict.{Dict}
use manufacturing_mas.Float.{Float, fmax, fmin}
use manufacturing_mas.Messaging.Message.{AgentMessage, alert}
use manufacturing_mas.Protocol.Value.{Fields, whole, real, text, object, field, end}
use manufacturing_mas.Agents.Roles.Base.{Stamps, send_message}
use manufacturing_mas.Agents.Roles.Alerts.{RoleAlert, Formats}
use manufacturing_mas.Agents.Roles.Equipment.Proposal.{merge_into_proposal}
use manufacturing_mas.Agents.Roles.Quality.{
  QualityAgent, QualityObs, CpkInfo, Violation, RiskStation,
}

pub record QualityAction : Type 0 where
  pub action : String
  pub station : String
  pub reason : String

pub record QualityDecision : Type 0 where
  pub inspection_mode : String
  pub alerts : List RoleAlert
  pub actions : List QualityAction
  pub priority : String

abbrev to_pa : String → String → RoleAlert
to_pa severity message = record { target = "PA"; severity = severity; message = message }

module _ {F : Type 0} where
  abbrev pub is_critical : CpkInfo F → Bool
  is_critical info = str_eq info.status "위험" || (str_eq info.status "주의" && str_eq info.trend "하강")

  unfoldable pub critical_cpk : Dict (CpkInfo F) → Dict (CpkInfo F)
  critical_cpk [] = []
  critical_cpk ((key, info) ∷ rest) =
      let others = critical_cpk rest in if is_critical info then (key, info) ∷ others else others

  abbrev cpk_alerts : Formats F → Dict (CpkInfo F) → List RoleAlert
  cpk_alerts t [] = []
  cpk_alerts t ((key, info) ∷ rest) =
      to_pa "HIGH" (
        append "Cpk 위험: " (
          append key
            (append " = " (append (t.fixed info.cpk 2) (append " (" (append info.trend ")"))))))
      ∷ cpk_alerts t rest

  abbrev risk_actions : Formats F → List (RiskStation F) → List QualityAction
  risk_actions t [] = []
  risk_actions t (r ∷ rest) =
      record {
        action = "품질강화";
        station = r.station;
        reason = append "수율 " (append (t.percent r.quality_rate 1) " — 전수검사 권장");
      }
      ∷ risk_actions t rest

abbrev violation_alerts : List Violation → List RoleAlert
violation_alerts [] = []
violation_alerts (v ∷ rest) =
    to_pa "MEDIUM"
      (append "관리도 위반: " (append v.station (append " " (append v.sensor (append " — " v.rule)))))
    ∷ violation_alerts rest

-- Each violation raises the priority from LOW.
abbrev raised_by : List Violation → String → String
raised_by [] priority = priority
raised_by (v ∷ rest) priority = if str_eq priority "LOW" then "MEDIUM" else priority

unfoldable pub is_quiet : QualityDecision → Bool
is_quiet d = elim d.alerts [ (_ ∷ _) ↦ false | [] ↦ elim d.actions [ (_ ∷ _) ↦ false | [] ↦ true ] ]

module _ {F : Type 0} ⦃f : Float F⦄ where
  abbrev least_cpk : F → Dict (CpkInfo F) → F
  least_cpk least [] = least
  least_cpk least ((key, info) ∷ rest) = least_cpk (fmin least info.cpk) rest

  -- The least of the values, or 2.0 if there is none.
  abbrev best_cpk : Dict (CpkInfo F) → F
  best_cpk [] = f.lit 20 1
  best_cpk ((key, info) ∷ rest) = least_cpk info.cpk rest

  -- The decision before it is tested for having alerts or actions.
  unfoldable pub assess : Formats F → String → QualityObs F → QualityDecision
  unfolding critical_cpk
  assess t mode obs =
      let critical = critical_cpk obs.cpk_status in
      let mode1 = elim critical as (λ _. String) [ [] ↦ mode | (_ ∷ _) ↦ "강화" ] in
      let priority1 = elim critical as (λ _. String) [ [] ↦ "LOW" | (_ ∷ _) ↦ "HIGH" ] in
      let alerts1 = cpk_alerts t critical ++ violation_alerts obs.spc_violations in
      let actions = risk_actions t obs.quality_risk_stations in
      if str_eq obs.defect_trend "악화"
      then record {
        inspection_mode = "전수";
        alerts =
            alerts1
            ++ to_pa "CRITICAL" (
                append "품질 악화 추세 — 전수검사 전환 ("
                  (append (t.str_N (length obs.quality_risk_stations)) "개 공정)"))
              ∷ [];
        actions = actions;
        priority = "CRITICAL";
      }
      else record {
        inspection_mode = mode1;
        alerts = alerts1;
        actions = actions;
        priority = raised_by obs.spc_violations priority1;
      }

  -- A quiet decision is none, and then the inspection goes back to normal if the capability is good.
  unfoldable pub reason :
      Formats F → QualityAgent F → QualityObs F → QualityAgent F × Option QualityDecision
  unfolding assess is_quiet
  reason t a obs =
      let d = assess t a.inspection_mode obs in
      let calm =
        not (str_eq d.inspection_mode "표준") && f.le (f.lit 133 2) (best_cpk obs.cpk_status) in
      if is_quiet d
      then (record a { inspection_mode = if calm then "표준" else d.inspection_mode }, none)
      else (record a { inspection_mode = d.inspection_mode }, some d)

  abbrev last_of : List F → Option F
  last_of [] = none
  last_of (x ∷ []) = some x
  last_of (x ∷ y ∷ rest) = last_of (y ∷ rest)

  -- `{k: v[-1] if v else 0 ...}`
  abbrev summary : Dict (List F) → Fields F
  summary [] = end
  summary ((key, xs) ∷ rest) =
      field key (elim (last_of xs) [ none ↦ whole (pos 0) | some x ↦ real x ]) (summary rest)

  abbrev body_of : QualityAgent F → RoleAlert → Fields F
  body_of a alarm = field "source" (text a.base.agent_id) (
      field "severity" (text alarm.severity) (
        field "summary" (text alarm.message) (
          field "inspection_mode" (text a.inspection_mode)
            (field "cpk_summary" (object (summary a.cpk_history)) end))))

  -- The loop over the alerts: alert `i` is stamped with `stamps i`.
  unfoldable pub act_alerts :
      (ℕ → Stamps)
      → ℕ
      → QualityAgent F
      → List RoleAlert
      → QualityAgent F × List (AgentMessage (Fields F)) × List String
  unfolding send_message
  act_alerts stamps i a [] = (a, [], [])
  act_alerts stamps i a (alarm ∷ rest) =
      let (base, msg) = send_message (stamps i) a.base alarm.target alert (body_of a alarm) in
      let (final, msgs, actions) = act_alerts stamps (i + 1) (record a { base = base }) rest in
      (final, msg ∷ msgs, append "경보: " alarm.message ∷ actions)

  unfoldable pub act :
      (ℕ → Stamps)
      → QualityAgent F
      → Option QualityDecision
      → QualityAgent F × List (AgentMessage (Fields F)) × List String
  unfolding act_alerts
  act stamps a none = (a, [], [])
  act stamps a (some d) = act_alerts stamps 0 a d.alerts

  -- The least of the last values, from `least` on; none has been seen yet if it is none.
  abbrev worst_cpk : Option F → Dict (List F) → F
  worst_cpk none [] = f.lit 20 1
  worst_cpk (some least) [] = least
  worst_cpk seen ((key, xs) ∷ rest) = elim (last_of xs) [
    | none ↦ worst_cpk seen rest
    | some x ↦
        worst_cpk (some (elim seen as (λ _. F) [ none ↦ x | some least ↦ fmin least x ])) rest
  ]

  abbrev rounded : Dict (List F) → Fields F
  rounded [] = end
  rounded ((key, xs) ∷ rest) = elim (last_of xs) [
    | none ↦ rounded rest
    | some x ↦ field key (real (f.round x 2)) (rounded rest)
  ]

  abbrev metrics : F → Fields F
  metrics worst =
      let good = f.lit 133 2 in
      let cost =
        if f.lt worst good
        then fmax (f.lit 0 1) (fmin (f.lit 10 1) (f.div (f.sub good worst) good))
        else f.lit 0 1 in
      let viol =
        if f.lt worst (f.lit 10 1)
        then f.lit 10 1
        else if f.lt worst good
        then f.lit 5 1
        else f.lit 0 1 in
      let effect = f.add (f.lit 5 1) (f.mul (f.lit 5 1) (f.div worst (fmax good (f.lit 1 2)))) in
      let risk = f.sub (f.lit 10 1) (fmin (f.lit 10 1) (f.div worst good)) in
      field "cost_estimate" (real (f.round cost 4)) (
        field "constraint_violation_total" (real viol) (
          field "worst_cpk" (real (f.round worst 3)) (
            field "expected_effect" (real (f.round effect 4)) (
              field "quality_risk" (real (f.round risk 4)) (
                field "delivery_impact" (real (f.lit 2 1)) (
                  field "material_impact" (real (f.lit 1 1))
                    (field "confidence" (real (f.lit 82 2)) end)))))))

  unfoldable pub handle_cfp : (String → Option F) → QualityAgent F → Fields F
  unfolding merge_into_proposal
  handle_cfp parse a =
      let worst = worst_cpk none a.cpk_history in
      let poor = f.lt worst (f.lit 10 1) in
      merge_into_proposal parse (
        field "agent" (text a.base.agent_id) (
          field "proposal" (text "품질 관점 대응") (
            field "inspection_mode" (text (if poor then "전수" else "강화")) (
              field "speed_recommendation" (whole (if poor then pos 70 else pos 90)) (
                field "cpk_summary" (object (rounded a.cpk_history)) (
                  field "scores"
                    (object (
                      field "quality" (real (f.lit 9 1)) (
                        field "delivery" (real (f.lit 5 1)) (
                          field "cost" (real (f.lit 4 1))
                            (field "safety" (real (f.lit 8 1)) end)))))
                    (field "proposal_metrics" (object (metrics worst)) end)))))))

module _ {F : Type 0} where
  -- The mode of the accepted proposal, if it has one.
  unfoldable pub execute_accepted_proposal : QualityAgent F → Option String → QualityAgent F
  execute_accepted_proposal a none = a
  execute_accepted_proposal a (some mode) = record a { inspection_mode = mode }
