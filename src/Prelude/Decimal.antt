-- ===== src/Prelude/Decimal.antt =====
-- Python's `str(n)` for an integer `n`, and `f"{n:06d}"` for a natural one.
use Prim.Native.Nat.{ℕ, zero, suc, ◌+◌, ◌-◌, ◌/◌, ◌%◌}
use Prim.Native.String.{String, ◌++◌, count, slice}
use manufacturing_mas.Prelude.Int.{ℤ, pos, negsuc}
use manufacturing_mas.Prelude.Tests.{ltb, if◌then◌else◌}

-- For `n` below 10.
abbrev digit : ℕ → String
digit n = slice "0123456789" n (n + 1)

-- The fuel bounds the number of digits, of which `n` has at most `n + 1`.
digits : ℕ → ℕ → String
digits zero n = ""
digits (suc fuel) n =
    let front = digits fuel (n / 10) in if ltb n 10 then digit n else front ++ digit (n % 10)

zeros : ℕ → String
zeros zero = ""
zeros (suc n) = "0" ++ zeros n

unfoldable pub str : ℕ → String
unfolding digits
str n = digits (n + 1) n

unfoldable pub zero_padded : ℕ → ℕ → String
unfolding str zeros
zero_padded width n = zeros (width - count (str n)) ++ str n

unfoldable pub str_ℤ : ℤ → String
unfolding str
str_ℤ (pos n) = str n
str_ℤ (negsuc n) = "-" ++ str (n + 1)
