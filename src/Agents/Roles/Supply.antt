-- ===== src/Agents/Roles/Supply.antt =====
-- mas/agents/supply_agent.py. The lines of the reasoning log are left out, and so are the views for the
-- dashboard. Where the code raises, the result is none.
pub mod Escalation
pub mod Proposal
pub mod Total
use Prim.Native.String.{◌++◌ as append}
use manufacturing_mas.Prelude.{
  ℕ, ◌+◌, ◌-◌, String, Bool, true, false, ◌||◌, Option, none, some, List, [], ◌∷◌, ◌++◌, ltb, ◌==◌,
  if◌then◌else◌, length, push_capped, str_eq, last_n,
}
use manufacturing_mas.Prelude.Int.{pos}
use manufacturing_mas.Prelude.Dict.{Dict, lookup, insert}
use manufacturing_mas.Float.{Float, fmin}
use manufacturing_mas.Messaging.Message.{AgentMessage}
use manufacturing_mas.Protocol.Value.{
  Value, Fields, Items, whole, real, text, list, object, nil, item, field, end,
}
use manufacturing_mas.Domain.Plant.Snapshot.{MaterialView, Snapshot}
use manufacturing_mas.Agents.Roles.Base.{BaseAgent, Stamps, new_agent}
use manufacturing_mas.Agents.Roles.Alerts.{RoleAlert, Formats, send_alerts}

pub record Reorder : Type 0 where
  pub material : String
  pub type : String
  pub reason : String

pub record SupplyAgent (F : Type 0) : Type 0 where
  pub base : BaseAgent (Fields F)
  pub consumption_history : Dict (List ℕ)
  pub reorder_log : List Reorder

-- An entry of `shortages` and of `reorder_needed`; the rate is read of the latter.
pub record Shortage (F : Type 0) : Type 0 where
  pub material : String
  pub stock : ℕ
  pub safety_stock : ℕ
  pub days_supply : Option F
  pub consumption_rate : F

pub data StockStatus : Type 0 where
  enough short reorder caution : StockStatus

pub record SupplyObs (F : Type 0) : Type 0 where
  pub material_status : Dict StockStatus
  pub shortages : List (Shortage F)
  pub reorder_needed : List (Shortage F)

pub record SupplyDecision : Type 0 where
  pub reorders : List Reorder
  pub alerts : List RoleAlert
  pub priority : String

-- The last 100 stocks are kept.
unfoldable pub track : String → ℕ → Dict (List ℕ) → Dict (List ℕ)
unfolding lookup insert push_capped
track name stock history =
    let known : List ℕ = elim (lookup name history) [ none ↦ [] | some xs ↦ xs ] in
    insert name (push_capped 100 100 known stock) history

module _ {F : Type 0} where
  unfoldable pub new_supply_agent : SupplyAgent F
  unfolding new_agent
  new_supply_agent = record { base = new_agent "SA"; consumption_history = []; reorder_log = [] }

  -- The entry joins the list that its status names.
  unfoldable pub add_status : String → StockStatus → Shortage F → SupplyObs F → SupplyObs F
  add_status name status entry obs = record {
    material_status = (name, status) ∷ obs.material_status;
    shortages = elim status [ short ↦ entry ∷ obs.shortages | _ ↦ obs.shortages ];
    reorder_needed = elim status [ reorder ↦ entry ∷ obs.reorder_needed | _ ↦ obs.reorder_needed ];
  }

-- The falls between neighbours, added up, and their number.
unfoldable pub falls : List ℕ → ℕ × ℕ
falls [] = (0, 0)
falls (x ∷ []) = (0, 0)
falls (x ∷ y ∷ rest) =
    let (total, count) = falls (y ∷ rest) in
    if ltb y x then (x - y + total, count + 1) else (total, count)

module _ {F : Type 0} ⦃f : Float F⦄ where
  unfoldable pub calc_consumption_rate : Dict (List ℕ) → String → F
  unfolding lookup falls
  calc_consumption_rate history name =
      let stocks : List ℕ = elim (lookup name history) [ none ↦ [] | some xs ↦ xs ] in
      let (total, count) = falls stocks in
      if ltb (length stocks) 3 || count == 0
      then f.lit 0 1
      else f.div (f.of_int (pos total)) (f.of_int (pos count))

  abbrev pub shortage_of : Dict (List ℕ) → String → MaterialView F → Shortage F
  shortage_of history name m = record {
    material = name;
    stock = m.stock;
    safety_stock = m.safety_stock;
    days_supply = m.days_supply;
    consumption_rate = f.round (calc_consumption_rate history name) 1;
  }

  -- A supply of None is compared with 3 only if no test before holds.
  unfoldable pub classify : MaterialView F → Option StockStatus
  classify m =
      if f.le (f.of_int (pos m.stock)) (f.mul (f.of_int (pos m.safety_stock)) (f.lit 5 1))
      then some short
      else if m.needs_reorder || f.le (f.of_int (pos m.stock)) (f.of_int (pos m.safety_stock))
      then some reorder
      else elim m.days_supply [
        | none ↦ none
        | some dos ↦ some (if f.lt dos (f.lit 3 0) then caution else enough)
      ]

  -- The loop over the materials.
  unfoldable pub sense_materials :
      Dict (List ℕ) → Dict (MaterialView F) → Option (Dict (List ℕ) × SupplyObs F)
  unfolding track calc_consumption_rate classify add_status
  sense_materials history [] =
      some (history, record { material_status = []; shortages = []; reorder_needed = [] })
  sense_materials history ((name, m) ∷ rest) =
      let history' = track name m.stock history in
      let entry = shortage_of history' name m in
      let others = sense_materials history' rest in
      elim (classify m) [
        | none ↦ none
        | some status ↦ elim others [
          | none ↦ none
          | some (final, obs) ↦ some (final, add_status name status entry obs)
        ]
      ]

  unfoldable pub sense : SupplyAgent F → Snapshot F → Option (SupplyAgent F × SupplyObs F)
  unfolding sense_materials
  sense a snapshot = elim (sense_materials a.consumption_history snapshot.materials) [
    | none ↦ none
    | some (history, obs) ↦ some (record a { consumption_history = history }, obs)
  ]

-- A decision without orders and alerts is none.
abbrev settle : SupplyDecision → Option SupplyDecision
settle d = elim d.reorders [
  | (_ ∷ _) ↦ some d
  | [] ↦ elim d.alerts [ [] ↦ none | (_ ∷ _) ↦ some d ]
]

module _ {F : Type 0} (t : Formats F) where
  abbrev pub emergency : Shortage F → Reorder
  emergency s = record {
    material = s.material;
    type = "긴급발주";
    reason = append "재고 " (append (t.str_N s.stock) "개 < 안전재고 50%");
  }

  abbrev pub shortage_alert : Shortage F → RoleAlert
  shortage_alert s = record {
    target = "PA";
    severity = "CRITICAL";
    message = append "자재 부족 위험: " (
        append s.material (
          append " (재고 "
            (append (t.str_N s.stock) (append ", 안전재고 " (append (t.str_N s.safety_stock) ")")))));
  }

  abbrev pub with_shortage : Shortage F → SupplyDecision → SupplyDecision
  with_shortage s d = record d {
    priority = "CRITICAL";
    reorders = d.reorders ++ emergency s ∷ [];
    alerts = d.alerts ++ shortage_alert s ∷ [];
  }

  unfoldable pub add_shortages : List (Shortage F) → SupplyDecision → SupplyDecision
  add_shortages [] d = d
  add_shortages (s ∷ rest) d = add_shortages rest (with_shortage s d)

  abbrev pub with_reorder : Shortage F → F → SupplyDecision → SupplyDecision
  with_reorder s dos d = record d {
    priority = if str_eq d.priority "CRITICAL" then d.priority else "MEDIUM";
    reorders =
        d.reorders
        ++ record {
          material = s.material;
          type = "정기발주";
          reason = append "잔여 " (append (t.fixed dos 1) "일분");
        }
          ∷ [];
  }

  -- The days of supply are formatted as a number, which None is not.
  unfoldable pub add_reorders : List (Shortage F) → SupplyDecision → Option SupplyDecision
  add_reorders [] d = some d
  add_reorders (s ∷ rest) d = elim s.days_supply [
    | none ↦ none
    | some dos ↦ add_reorders rest (with_reorder s dos d)
  ]

  unfoldable pub reason : SupplyObs F → Option (Option SupplyDecision)
  unfolding add_shortages add_reorders
  reason obs =
      let start : SupplyDecision = record { reorders = []; alerts = []; priority = "LOW" } in
      elim (add_reorders obs.reorder_needed (add_shortages obs.shortages start)) [
        | none ↦ none
        | some d ↦ some (settle d)
      ]

abbrev order_lines : List Reorder → List String
order_lines [] = []
order_lines (r ∷ rest) =
    append "발주: " (append r.material (append " (" (append r.type ")"))) ∷ order_lines rest

module _ {F : Type 0} where
  abbrev pub reorder_items : List Reorder → Items F
  reorder_items [] = nil
  reorder_items (r ∷ rest) =
      item
        (object (
          field "material" (text r.material)
            (field "type" (text r.type) (field "reason" (text r.reason) end))))
        (reorder_items rest)

  -- The agent after, the messages for the broker and the actions.
  unfoldable pub act :
      (ℕ → Stamps)
      → SupplyAgent F
      → Option SupplyDecision
      → SupplyAgent F × List (AgentMessage (Fields F)) × List String
  unfolding send_alerts
  act stamps a none = (a, [], [])
  act stamps a (some d) =
      let (base, msgs, actions) =
        send_alerts "경보: " stamps 0 "reorder_list" (list (reorder_items d.reorders)) a.base
          d.alerts in
      (
        record a { base = base; reorder_log = a.reorder_log ++ d.reorders },
        msgs,
        actions ++ order_lines d.reorders,
      )
