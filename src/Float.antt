-- ===== src/Float.antt =====
-- Python's `float` as far as the program uses it: decimal literals, arithmetic, comparisons, `round`,
-- `int`, `math`'s functions. The type and its operations are a parameter of the model, and what a
-- theorem needs of the order is a record of hypotheses, which comparison meets for values that are no
-- NaN.
use manufacturing_mas.Prelude.{
  ℕ, ◌+◌, ◌*◌, ◌/◌, ◌^◌, ◌≡◌, Bool, true, not, ◌⊎◌, arith, if◌then◌else◌, ◌==◌,
}
use manufacturing_mas.Prelude.Int.{ℤ, pos, pos_part, neg_part, ◌+ℤ◌, ◌-ℤ◌, ◌*ℤ◌, ◌/ℤ◌, ltb_ℤ, leb_ℤ}

pub record Float (F : Type 0) : Type 0 where
  -- `lit m d` is the literal m / 10^d.
  pub lit : ℕ → ℕ → F
  pub of_int : ℤ → F
  pub add : F → F → F
  pub sub : F → F → F
  pub mul : F → F → F
  pub div : F → F → F
  pub lt : F → F → Bool
  pub le : F → F → Bool
  -- `round(x, d)`
  pub round : F → ℕ → F
  -- `int(x)`, for a finite x
  pub int : F → ℤ
  -- `round(x)`, an integer
  pub round_int : F → ℤ
  pub sqrt : F → F
  pub log : F → F
  -- `math.isfinite`
  pub is_finite : F → Bool
  pub abs : F → F
  pub infinity : F
  -- `x == 0.0`
  pub is_zero : F → Bool

module _ {F : Type 0} ⦃f : Float F⦄ where
  abbrev pub neg : F → F
  neg x = f.sub (f.lit 0 0) x

  -- `max(a, b)` keeps its first argument unless the second is greater; `min` likewise.
  abbrev pub fmax : F → F → F
  fmax a b = if f.lt a b then b else a

  abbrev pub fmin : F → F → F
  fmin a b = if f.lt b a then b else a

-- The order of the values that are no NaN.
pub record IsOrdered (F : Type 0) ⦃f : Float F⦄ : Type 0 where
  pub le_refl : (x : F) → f.le x x ≡ true
  pub le_trans : (x y z : F) → f.le x y ≡ true → f.le y z ≡ true → f.le x z ≡ true
  pub lt-eq-not-le : (x y : F) → f.lt x y ≡ not (f.le y x)
  pub le_total : (x y : F) → (f.le x y ≡ true) ⊎ (f.le y x ≡ true)

-- `max(lo, min(x, hi))` and `max(lo, min(hi, x))` lie in the range.
pub clamp_bounds :
    {F : Type 0} ⦃f : Float F⦄ (laws : IsOrdered F) (lo hi x : F)
    → f.le lo hi ≡ true
    → (f.le lo (fmax lo (fmin x hi)) ≡ true)
      × (f.le (fmax lo (fmin x hi)) hi ≡ true)
      × (f.le lo (fmax lo (fmin hi x)) ≡ true)
      × (f.le (fmax lo (fmin hi x)) hi ≡ true)
clamp_bounds ⦃f⦄ laws lo hi x h = ground (
  arith,
  laws.le_refl lo,
  laws.le_refl hi,
  laws.lt-eq-not-le hi x,
  laws.lt-eq-not-le x hi,
  laws.lt-eq-not-le lo hi,
  laws.lt-eq-not-le lo x,
  laws.le_total lo x,
  laws.le_total lo hi,
  laws.le_total hi x,
)

-- The laws can be met: fixed point with four decimals.
abbrev pub Fixed : Type 0
Fixed = ℤ

abbrev scale : ℤ
scale = pos 10_000

instance abbrev pub fixed_float : Float Fixed
fixed_float = record {
  lit = λ m d. pos (m * 10_000 / 10 ^ d);
  of_int = λ n. n *ℤ scale;
  add = λ a b. a +ℤ b;
  sub = λ a b. a -ℤ b;
  mul = λ a b. a *ℤ b /ℤ scale;
  div = λ a b. a *ℤ scale /ℤ b;
  lt = ltb_ℤ;
  le = leb_ℤ;
  round = λ a d. a;
  int = λ a. a /ℤ scale;
  round_int = λ a. a /ℤ scale;
  sqrt = λ a. a;
  log = λ a. a;
  is_finite = λ a. true;
  abs = λ a. if ltb_ℤ a (pos 0) then pos 0 -ℤ a else a;
  infinity = pos (10 ^ 30);
  is_zero = λ a. pos_part a + neg_part a == 0;
}

pub Fixed-IsOrdered : IsOrdered Fixed
Fixed-IsOrdered = record {
  le_refl = λ x. ground arith;
  le_trans = λ x y z h k. ground arith;
  lt-eq-not-le = λ x y. ground arith;
  le_total = λ x y. ground arith;
}
