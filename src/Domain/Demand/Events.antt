-- ===== src/Domain/Demand/Events.antt =====
-- mas/domain/demand.py: scheduled events and the totals over the orders.
use mathlib.Core.List.{Perm, perm_middle, append_assoc, append-nil}
use mathlib.Core.List.Perm
use manufacturing_mas.Prelude.{
  ℕ, ◌+◌, ◌≤◌, ◌≡◌, ◌≢◌, refl, sym, ◌∙◌, inl, inr, false, none, some, List, [], ◌∷◌, ◌++◌, arith,
  ◌==◌, str_eq, if◌then◌else◌, Bool-cases, Option-cases, All, ap,
}
use manufacturing_mas.Domain.Demand.{
  OrderStatus, CustomerOrder, DemandEvent, DemandModel, remaining, quantity_sum, remaining_sum,
  filter_open, is_open, at_cycle, not_at_cycle, event_orders, add_order, apply_events, check_events,
  total_demand, total_remaining, open_orders,
}
use manufacturing_mas.Domain.Demand.Orders.{IsCoherent}

at_cycle-All : (c : ℕ) (es : List DemandEvent) → All (λ e. e.trigger_cycle ≡ c) (at_cycle c es)
unfolding at_cycle
at_cycle-All c [] = tt
at_cycle-All c (e ∷ es) = elim (Bool-cases (e.trigger_cycle == c)) [
  | inl now ↦ rw now (ground arith, at_cycle-All c es)
  | inr later ↦ rw later (at_cycle-All c es)
]

not_at_cycle-All :
    (c : ℕ) (es : List DemandEvent) → All (λ e. e.trigger_cycle ≢ c) (not_at_cycle c es)
unfolding not_at_cycle
not_at_cycle-All c [] = tt
not_at_cycle-All c (e ∷ es) = elim (Bool-cases (e.trigger_cycle == c)) [
  | inl now ↦ rw now (not_at_cycle-All c es)
  | inr later ↦ rw later (λ p. ground (arith, p), not_at_cycle-All c es)
]

at_cycle-Perm : (c : ℕ) (es : List DemandEvent) → Perm (at_cycle c es ++ not_at_cycle c es) es
unfolding at_cycle not_at_cycle
at_cycle-Perm c [] = Perm.refl []
at_cycle-Perm c (e ∷ es) = elim (Bool-cases (e.trigger_cycle == c)) [
  | inl now ↦ rw now (Perm.cons e (at_cycle-Perm c es))
  | inr later ↦ rw later (
      Perm.trans (perm_middle (at_cycle c es) (not_at_cycle c es))
        (Perm.cons e (at_cycle-Perm c es)))
]

at_cycle-not_at_cycle : (c : ℕ) (es : List DemandEvent) → at_cycle c (not_at_cycle c es) ≡ []
unfolding at_cycle not_at_cycle
at_cycle-not_at_cycle c [] = refl
at_cycle-not_at_cycle c (e ∷ es) = ground (arith, at_cycle-not_at_cycle c es)

-- The orders that the events bring, in their order.
abbrev pub orders_of : List DemandEvent → List CustomerOrder
orders_of [] = []
orders_of (e ∷ es) = event_orders e ++ orders_of es

module _ {F : Type 0} where
  apply_event : DemandModel F → DemandEvent → DemandModel F
  unfolding add_order
  apply_event d e =
      if str_eq e.event_type "new_order"
      then elim e.order [ none ↦ d | some o ↦ add_order d o ]
      else d

  apply_event_lem :
      (d : DemandModel F) (e : DemandEvent)
      → ((apply_event d e).orders ≡ d.orders ++ event_orders e)
        × ((apply_event d e).events ≡ d.events)
  unfolding apply_event
  apply_event_lem d e = elim (Bool-cases (str_eq e.event_type "new_order")) [
    | inr other ↦ rw (other, apply_event) (sym (append-nil d.orders), refl)
    | inl new ↦ elim (Option-cases e.order) [
      | inl absent ↦ rw (new, absent, apply_event) (sym (append-nil d.orders), refl)
      | inr (o, given) ↦ rw (new, given, apply_event) (refl, refl)
    ]
  ]

  apply_events_lem :
      (d : DemandModel F) (es : List DemandEvent)
      → ((apply_events d es).orders ≡ d.orders ++ orders_of es)
        × ((apply_events d es).events ≡ d.events)
  unfolding apply_events apply_event
  apply_events_lem d [] = (sym (append-nil d.orders), refl)
  apply_events_lem d (e ∷ es) =
      let (orders, events) = apply_events_lem (apply_event d e) es in
      let (step_orders, step_events) = apply_event_lem d e in
      (
        orders
            ∙ ap (λ os. os ++ orders_of es) step_orders
            ∙ append_assoc d.orders (event_orders e) (orders_of es),
        events ∙ step_events,
      )

  -- `check_events` returns the events of this cycle and keeps the others, so that together they are the
  -- events that were scheduled; it appends the orders which the returned events bring, in their order;
  -- and a second check at the same cycle returns nothing: an event fires once.
  pub check_events_lem :
      (d : DemandModel F) (cycle : ℕ)
      → let (d', triggered) = check_events d cycle in
        All (λ e. e.trigger_cycle ≡ cycle) triggered
        × All (λ e. e.trigger_cycle ≢ cycle) d'.events
        × Perm (triggered ++ d'.events) d.events
        × (d'.orders ≡ d.orders ++ orders_of triggered)
        × ((check_events d' cycle).1 ≡ [])
  unfolding check_events
  check_events_lem d cycle =
      let left = record d { events = not_at_cycle cycle d.events } in
      let (orders, events) = apply_events_lem left (at_cycle cycle d.events) in
      (
        at_cycle-All cycle d.events,
        rw events (not_at_cycle-All cycle d.events),
        rw events (at_cycle-Perm cycle d.events),
        orders,
        rw events (at_cycle-not_at_cycle cycle d.events),
      )

remaining_sum-le : (os : List CustomerOrder) → remaining_sum os ≤ quantity_sum os
unfolding remaining_sum quantity_sum
remaining_sum-le [] = omega arith
remaining_sum-le (o ∷ os) = omega (arith, remaining_sum-le os)

closed_remaining :
    (o : CustomerOrder)
    → IsCoherent o
    → o.status ≢ OrderStatus.late
    → is_open o ≡ false
    → remaining o ≡ 0
unfolding is_open remaining
closed_remaining o c known closed = ground (arith, c.agrees)

remaining_sum-filter_open :
    (os : List CustomerOrder)
    → All (λ o. IsCoherent o × (o.status ≢ OrderStatus.late)) os
    → remaining_sum (filter_open os) ≡ remaining_sum os
unfolding remaining_sum filter_open
remaining_sum-filter_open [] h = refl
remaining_sum-filter_open (o ∷ os) ((c, known), h) = elim (Bool-cases (is_open o)) [
  | inl still ↦ rw still (ap (λ n. remaining o + n) (remaining_sum-filter_open os h))
  | inr closed ↦
      rw closed (omega (arith, closed_remaining o c known closed, remaining_sum-filter_open os h))
]

-- For coherent orders of which none is LATE, a status that the code never sets, all that remains to be
-- delivered is in the open orders, and it is no more than the total demand.
pub open_orders_lem :
    {F : Type 0} (d : DemandModel F)
    → All (λ o. IsCoherent o × (o.status ≢ OrderStatus.late)) d.orders
    → (remaining_sum (open_orders d) ≡ total_remaining d) × (total_remaining d ≤ total_demand d)
unfolding open_orders total_remaining total_demand
open_orders_lem d h = (remaining_sum-filter_open d.orders h, remaining_sum-le d.orders)
