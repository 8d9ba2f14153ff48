-- ===== src/Ows/Negotiate.antt =====
-- libs/ogc-kit/ows/negotiate.go. A version is read as the list of its characters, and a component
-- of it as a 64-bit `int`: a number below 2 ^ 64 in two's complement.
pub mod Choice
use Prim.Native.Nat.{compare, Ordering}
use giti.Prelude.{
  Option, ℕ, ◌+◌, ◌-◌, ◌*◌, ◌%◌, Bool, true, false, none, some, List, [], ◌∷◌, text_eq, to_upper,
  ◌==◌, if◌then◌else◌, Text, codes,
}
use giti.Ows.Request.{Table, find}

abbrev pub versions : Table (List Text)
versions =
    (codes "WMS", codes "1.3.0" ∷ codes "1.1.1" ∷ [])
    ∷ (codes "WFS", codes "2.0.0" ∷ codes "1.1.0" ∷ codes "1.0.0" ∷ [])
    ∷ (codes "WMTS", codes "1.0.0" ∷ [])
    ∷ (codes "WPS", codes "1.0.0" ∷ [])
    ∷ (codes "CSW", codes "2.0.2" ∷ [])
    ∷ (codes "WCS", codes "2.0.1" ∷ codes "2.0.0" ∷ [])
    ∷ []

abbrev pub word : ℕ
word = 18446744073709551616

-- `a < b` on two's complement is `a + 2 ^ 63 < b + 2 ^ 63` on the bits.
unfoldable pub compare_int : ℕ → ℕ → Ordering
compare_int a b = compare ((a + 9223372036854775808) % word) ((b + 9223372036854775808) % word)

-- `av = av*10 + int(ch-'0')`, over the characters of a component.
unfoldable pub component_from : ℕ → Text → ℕ
component_from av [] = av
component_from av (ch ∷ s) = component_from ((av * 10 + ch + (word - 48)) % word) s

unfoldable pub component : Text → ℕ
unfolding component_from
component s = component_from 0 s

-- Puts a character in front of the first of the parts.
unfoldable pub extend : ℕ → List Text → List Text
extend c [] = (c ∷ []) ∷ []
extend c (p ∷ ps) = (c ∷ p) ∷ ps

-- `strings.Split(s, sep)` for a separator of one byte.
unfoldable pub split : ℕ → Text → List Text
unfolding extend
split sep [] = [] ∷ []
split sep (c ∷ s) = let rest = split sep s in if c == sep then [] ∷ rest else extend c rest

-- The loop of `cmpVer`: a missing component counts as 0.
unfoldable pub cmp_parts : List Text → List Text → Ordering
unfolding compare_int component
cmp_parts [] [] = Ordering.eq
cmp_parts (a ∷ va) [] =
    let rest = cmp_parts va [] in elim (compare_int (component a) 0) [ Ordering.eq ↦ rest | o ↦ o ]
cmp_parts [] (b ∷ vb) =
    let rest = cmp_parts [] vb in elim (compare_int 0 (component b)) [ Ordering.eq ↦ rest | o ↦ o ]
cmp_parts (a ∷ va) (b ∷ vb) =
    let rest = cmp_parts va vb in
    elim (compare_int (component a) (component b)) [ Ordering.eq ↦ rest | o ↦ o ]

unfoldable pub cmp_ver : Text → Text → Ordering
unfolding cmp_parts split
cmp_ver a b = cmp_parts (split b'.' a) (split b'.' b)

-- `cmpVer(a, b) <= 0`
unfoldable pub at_most : Text → Text → Bool
unfolding cmp_ver
at_most a b = elim (cmp_ver a b) [ Ordering.gt ↦ false | o ↦ true ]

-- The loop over the supported versions, newest first, and the return that follows it.
unfoldable pub pick : List Text → Text → Text
unfolding at_most
pick [] requested = []
pick (v ∷ []) requested = v
pick (v ∷ u ∷ vs) requested =
    let older = pick (u ∷ vs) requested in if at_most v requested then v else older

unfoldable pub newest : List Text → Text
newest [] = []
newest (v ∷ vs) = v

unfoldable pub choose : Option (List Text) → Text → Text
unfolding pick newest text_eq
choose none requested = []
choose (some supported) requested =
    if text_eq requested [] then newest supported else pick supported requested

unfoldable pub negotiate : Text → Text → Text
unfolding choose find to_upper
negotiate service requested = choose (find (to_upper service) versions) requested
