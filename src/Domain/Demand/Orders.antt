-- ===== src/Domain/Demand/Orders.antt =====
-- mas/domain/demand.py: the life of a customer order.
use manufacturing_mas.Prelude.{ℕ, ◌+◌, ◌≤◌, ◌<◌, ◌≡◌, refl, ◌↔◌, arith}
use manufacturing_mas.Domain.Demand.{OrderStatus, CustomerOrder, remaining, ship}

-- The status tells what the counters say.
abbrev pub Agrees : OrderStatus → ℕ → ℕ → Type 0
Agrees OrderStatus.«open» done quantity = done ≡ 0
Agrees OrderStatus.partial done quantity = (0 < done) × (done < quantity)
Agrees OrderStatus.fulfilled done quantity = done ≡ quantity
Agrees OrderStatus.late done quantity = done ≤ quantity

pub record IsCoherent (o : CustomerOrder) : Type 0 where
  pub fulfilled_le : o.fulfilled ≤ o.quantity
  pub agrees : Agrees o.status o.fulfilled o.quantity

-- Shipping against a coherent order keeps it coherent, ships no more than asked and no more than what
-- is missing, lowers what remains by just that much, and closes the order exactly when nothing remains.
pub ship-IsCoherent :
    (o : CustomerOrder) (qty : ℕ)
    → IsCoherent o
    → let (o', actual) = ship o qty in
      IsCoherent o'
      × (actual ≤ qty)
      × (remaining o' + actual ≡ remaining o)
      × (o'.quantity ≡ o.quantity)
      × ((o'.status ≡ OrderStatus.fulfilled) ↔ (remaining o' ≡ 0))
unfolding ship
ship-IsCoherent o qty c = (
  record { fulfilled_le = omega (arith, c.fulfilled_le); agrees = agrees' },
  omega arith,
  omega arith,
  refl,
  ground (arith, c.fulfilled_le, c.agrees),
)
  where
    agrees' : Agrees (ship o qty).0.status (ship o qty).0.fulfilled o.quantity
    agrees' = ground (arith, c.fulfilled_le, c.agrees)
