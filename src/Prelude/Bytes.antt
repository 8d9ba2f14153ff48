-- ===== src/Prelude/Bytes.antt =====
-- Go strings as lists of bytes. The case mappings are those of ASCII: `strings.ToUpper`,
-- `strings.ToLower` and `strings.EqualFold` on texts whose letters are ASCII.
use Prim.Native.Char.{code}
use Prim.Native.String.{String}
use Prim.Native.Nat.{ℕ, zero, suc, ◌+◌, ◌-◌, ◌/◌, ◌%◌}
use mathlib.Core.Path.{◌≡◌, refl, sym, subst}
use mathlib.Core.Logic.{◌↔◌, inl, inr}
use mathlib.Core.Bool.{Bool, true, false, ◌&&◌, ◌||◌}
use mathlib.Core.List.{List, [], ◌∷◌, ◌++◌, map}
use native.Mathlib.Omega.{arith}
use giti.Prelude.Tests.{ltb, ◌==◌, if◌then◌else◌, within, Bool-cases}
use giti.Prelude.Lists.{All, all_of, all_of-append}

abbrev pub Text : Type 0
Text = List ℕ

abbrev pub codes : String → Text
codes String.[] = []
codes (String.◌∷◌ c s) = code c ∷ codes s

-- `a == b` on strings.
unfoldable pub text_eq : Text → Text → Bool
text_eq [] [] = true
text_eq (x ∷ xs) (y ∷ ys) = x == y && text_eq xs ys
text_eq _ _ = false

pub text_eq_iff : (a b : Text) → (text_eq a b ≡ true) ↔ (a ≡ b)
unfolding text_eq
text_eq_iff (x ∷ a) (y ∷ b) = ground (arith, text_eq_iff a b)
text_eq_iff _ _ = ground arith

-- Membership in a table of strings: a Go `map[string]bool` literal.
unfoldable pub one_of : Text → List Text → Bool
unfolding text_eq
one_of t [] = false
one_of t (k ∷ ks) = text_eq t k || one_of t ks

-- What holds of each entry of a table holds of a text that is found in it.
pub one_of-All {ℓ} :
    (P : Text → Type ℓ) (t : Text) (ks : List Text) → All P ks → one_of t ks ≡ true → P t
unfolding one_of
one_of-All P t [] h e = cc
one_of-All P t (k ∷ ks) h e = elim (Bool-cases (text_eq t k)) [
  | inl here ↦ subst P (sym ((text_eq_iff t k).0 here)) h.0
  | inr later ↦ one_of-All P t ks h.1 (rw later at e)
]

unfoldable pub upper_byte : ℕ → ℕ
upper_byte c = if within b'a' b'z' c then c - 32 else c

unfoldable pub lower_byte : ℕ → ℕ
lower_byte c = if within b'A' b'Z' c then c + 32 else c

-- `strings.ToUpper`, `strings.ToLower`
unfoldable pub to_upper : Text → Text
unfolding upper_byte
to_upper = map upper_byte

unfoldable pub to_lower : Text → Text
unfolding lower_byte
to_lower = map lower_byte

-- `strings.EqualFold`
unfoldable pub equal_fold : Text → Text → Bool
unfolding to_lower text_eq
equal_fold a b = text_eq (to_lower a) (to_lower b)

lower_byte-upper_byte : (c : ℕ) → lower_byte (upper_byte c) ≡ lower_byte c
unfolding lower_byte upper_byte
lower_byte-upper_byte c = ground arith

pub to_lower-to_upper : (t : Text) → to_lower (to_upper t) ≡ to_lower t
unfolding to_lower to_upper
to_lower-to_upper [] = refl
to_lower-to_upper (c ∷ t) =
    let ih : map lower_byte (map upper_byte t) ≡ map lower_byte t = to_lower-to_upper t in
    cc (lower_byte-upper_byte c, ih)

-- `fmt.Sprintf("%d", n)` of a natural number.
decimal_on : ℕ → ℕ → Text
decimal_on zero n = []
decimal_on (suc f) n =
    let front = decimal_on f (n / 10) in
    if ltb n 10 then (48 + n) ∷ [] else front ++ ((48 + n % 10) ∷ [])

unfoldable pub decimal : ℕ → Text
unfolding decimal_on
decimal n = decimal_on (suc n) n

decimal_on_bytes :
    (p : ℕ → Bool)
    → ((c : ℕ) → ltb c 10 ≡ true → p (48 + c) ≡ true)
    → (f n : ℕ) → all_of p (decimal_on f n) ≡ true
unfolding decimal_on
decimal_on_bytes p h zero n = refl
decimal_on_bytes p h (suc f) n = elim (Bool-cases (ltb n 10)) [
  | inl small ↦ rw small (rw (h n small))
  | inr large ↦
      rw large
        (all_of-append p _ _ (decimal_on_bytes p h f (n / 10)) (rw (h (n % 10) (ground arith))))
]

-- What holds of the ten digits holds of every byte of a printed number.
pub decimal_bytes :
    (p : ℕ → Bool)
    → ((c : ℕ) → ltb c 10 ≡ true → p (48 + c) ≡ true)
    → (n : ℕ) → all_of p (decimal n) ≡ true
unfolding decimal
decimal_bytes p h n = decimal_on_bytes p h (suc n) n

-- `strings.Join(parts, sep)`
unfoldable pub join : Text → List Text → Text
join sep [] = []
join sep (p ∷ []) = p
join sep (p ∷ q ∷ ps) = p ++ (sep ++ join sep (q ∷ ps))
