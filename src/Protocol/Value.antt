-- ===== src/Protocol/Value.antt =====
-- Python values in the dictionaries that agents exchange, with the conversions that the negotiation
-- uses. Reading a number from a text, `float(s)`, is the argument `parse`.
pub mod Entries
use manufacturing_mas.Prelude.{
  ℕ, ◌+◌, String, Bool, true, false, not, ◌||◌, Option, none, some, ◌==◌, str_eq, if◌then◌else◌,
}
use manufacturing_mas.Prelude.Int.{ℤ, pos, pos_part, neg_part}
use manufacturing_mas.Float.{Float}

mutual
  pub data Value (F : Type 0) : Type 0 where
    null : Value F
    flag : Bool → Value F
    whole : ℤ → Value F
    real : F → Value F
    text : String → Value F
    list : Items F → Value F
    object : Fields F → Value F

  pub data Items (F : Type 0) : Type 0 where
    nil : Items F
    item : Value F → Items F → Items F

  pub data Fields (F : Type 0) : Type 0 where
    end : Fields F
    field : String → Value F → Fields F → Fields F

module _ {F : Type 0} where
  -- `d.get(key)`, with None for a missing key.
  unfoldable pub get : String → Fields F → Value F
  get key end = null
  get key (field k v rest) = if str_eq k key then v else get key rest

  unfoldable pub has : String → Fields F → Bool
  has key end = false
  has key (field k v rest) = if str_eq k key then true else has key rest

  -- `d.get(key, default)`
  unfoldable pub get_or : String → Value F → Fields F → Value F
  unfolding get has
  get_or key default d = if has key d then get key d else default

  unfoldable pub put : String → Value F → Fields F → Fields F
  put key v end = field key v end
  put key v (field k w rest) = if str_eq k key then field key v rest else field k w (put key v rest)

module _ {F : Type 0} ⦃f : Float F⦄ where
  unfoldable pub truthy : Value F → Bool
  truthy null = false
  truthy (flag b) = b
  truthy (whole n) = not (pos_part n + neg_part n == 0)
  truthy (real x) = not (f.is_zero x)
  truthy (text s) = not (str_eq s "")
  truthy (list nil) = false
  truthy (list (item v rest)) = true
  truthy (object end) = false
  truthy (object (field k v rest)) = true

  infixr 40 ◌or◌
  -- `a or b`
  unfoldable pub ◌or◌ : Value F → Value F → Value F
  unfolding truthy
  a or b = if truthy a then a else b

-- The outcome of a conversion: a value, a TypeError or ValueError, or an OverflowError.
pub data Cast (A : Type 0) : Type 0 where
  cast : A → Cast A
  wrong : Cast A
  overflow : Cast A

module _ {F : Type 0} ⦃f : Float F⦄ (parse : String → Option F) where
  -- `float(v)`
  unfoldable pub to_float : Value F → Cast F
  to_float null = wrong
  to_float (flag b) = cast (if b then f.lit 1 0 else f.lit 0 0)
  to_float (whole n) = cast (f.of_int n)
  to_float (real x) = cast x
  to_float (text s) = elim (parse s) [ none ↦ wrong | some x ↦ cast x ]
  to_float (list l) = wrong
  to_float (object d) = wrong

  -- `int(x)` for a float: a NaN, which is not below itself, is a ValueError, an infinity overflows.
  unfoldable pub float_to_int : F → Cast ℤ
  float_to_int x = if f.is_finite x then cast (f.int x) else if f.le x x then overflow else wrong

  -- `int(float(v))`
  unfoldable pub to_int : Value F → Cast ℤ
  unfolding to_float float_to_int
  to_int v = elim (to_float v) [ cast x ↦ float_to_int x | wrong ↦ wrong | overflow ↦ overflow ]
