-- ===== src/Wfs/Locks/Expiry.antt =====
-- When a lock expires.
use giti.Prelude.{
  ℕ, ◌+◌, ◌*◌, ◌≤◌, ◌<◌, ◌≡◌, ap, sym, subst, ◌∙◌, ◌==◌, pos, negsuc, arith, ℤ, if◌then◌else◌,
}
use native.Mathlib.Nat.{mod-eq_of_lt}
use giti.Wfs.Locks.{minutes, lock_expiry, add_duration}

one_or_five : (n : ℕ) → 1 ≤ (if n == 0 then 5 else n)
one_or_five n = ground arith

minutes_positive : (min : ℤ) → 1 ≤ minutes min
unfolding minutes
minutes_positive (pos n) = one_or_five n
minutes_positive (negsuc n) = omega arith

small : (time d : ℕ) → d < 9223372036854775808 → add_duration time d ≡ time + d
unfolding add_duration
small time d h = ground arith

-- A number of minutes up to 153722867 does not overflow: the lock expires after so many minutes, and
-- not before one.
pub add_duration-lock_expiry :
    (time : ℕ) (min : ℤ)
    → minutes min ≤ 153722867
    → (add_duration time (lock_expiry min) ≡ time + minutes min * 60000000000)
      × (time + 60000000000 ≤ add_duration time (lock_expiry min))
unfolding lock_expiry
add_duration-lock_expiry time min h =
    let one = minutes_positive min in
    let d = minutes min * 60000000000 in
    let whole : lock_expiry min ≡ d = mod-eq_of_lt (omega arith) in
    let sum : add_duration time (lock_expiry min) ≡ time + d =
      ap (add_duration time) whole ∙ small time d (omega arith) in
    (sum, subst (λ (t : ℕ). time + 60000000000 ≤ t) (sym sum) (omega arith))
