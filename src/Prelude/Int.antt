-- ===== src/Prelude/Int.antt =====
-- Go's `int`, for what the program does with one: it reads it and tests whether it is positive.
use Prim.Native.Nat.{ℕ, zero, suc, ◌+◌, ◌-◌, ◌*◌}
use mathlib.Core.Bool.{Bool, true, false}
use mathlib.Core.Option.{Option, none, some}
use mathlib.Core.List.{[], ◌∷◌}
use giti.Prelude.Tests.{ltb, leb, ◌==◌, if◌then◌else◌, within}
use giti.Prelude.Bytes.{Text}

-- `negsuc n` is -(n + 1).
pub data ℤ : Type 0 where
  pos : ℕ → ℤ
  negsuc : ℕ → ℤ

-- The value of a text of digits, most significant first.
unfoldable pub digits_from : ℕ → Text → Option ℕ
digits_from n [] = some n
digits_from n (c ∷ s) =
    let rest = digits_from (n * 10 + (c - b'0')) s in if within b'0' b'9' c then rest else none

unfoldable pub digits : Text → Option ℕ
unfolding digits_from
digits [] = none
digits (c ∷ s) = digits_from 0 (c ∷ s)

-- 2 ^ 63
abbrev pub int_limit : ℕ
int_limit = 9223372036854775808

unfoldable pub to_positive : Option ℕ → Option ℤ
to_positive none = none
to_positive (some n) = if ltb n int_limit then some (pos n) else none

unfoldable pub negate : ℕ → ℤ
negate zero = pos zero
negate (suc n) = negsuc n

unfoldable pub to_negative : Option ℕ → Option ℤ
unfolding negate
to_negative none = none
to_negative (some n) = if leb n int_limit then some (negate n) else none

-- `strconv.Atoi`: a sign, then digits, within the range of an `int`.
unfoldable pub atoi : Text → Option ℤ
unfolding digits to_positive to_negative
atoi [] = none
atoi (c ∷ s) =
    if c == b'-'
    then to_negative (digits s)
    else if c == b'+'
    then to_positive (digits s)
    else to_positive (digits (c ∷ s))

-- `<` and `==` on integers.
unfoldable pub ltb_int : ℤ → ℤ → Bool
ltb_int (pos m) (pos n) = ltb m n
ltb_int (pos m) (negsuc n) = false
ltb_int (negsuc m) (pos n) = true
ltb_int (negsuc m) (negsuc n) = ltb n m

unfoldable pub eq_int : ℤ → ℤ → Bool
eq_int (pos m) (pos n) = m == n
eq_int (negsuc m) (negsuc n) = m == n
eq_int _ _ = false
