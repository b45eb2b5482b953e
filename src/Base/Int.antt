-- ===== src/Base/Int.antt =====
-- Signed integers over the native numbers: `negsuc n` is -(n + 1).
use Prim.Native.Nat.{ℕ, zero, suc, ◌+◌, ◌/◌, ◌%◌}
use mathlib.Core.List.{[], ◌∷◌, ◌++◌}
use eventnative.Base.Tests.{ltb, if◌then◌else◌}
use eventnative.Base.Text.{Text}

pub data ℤ : Type 0 where
  pos : ℕ → ℤ
  negsuc : ℕ → ℤ

-- Decimal digits of a number below `10 ^ fuel`.
digits_of : ℕ → ℕ → Text
digits_of zero n = []
digits_of (suc fuel) n =
    let rest = digits_of fuel (n / 10) in
    if ltb n 10 then (b'0' + n) ∷ [] else rest ++ (b'0' + n % 10) ∷ []

-- `strconv.FormatInt(v, 10)`. An int64 has at most nineteen digits.
unfoldable pub format_int : ℤ → Text
unfolding digits_of
format_int (pos n) = digits_of 20 n
format_int (negsuc n) = b'-' ∷ digits_of 20 (n + 1)
