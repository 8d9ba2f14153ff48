-- ===== src/Prelude/Cut.antt =====
-- Texts taken apart at a byte.
use Prim.Native.Nat.{ℕ}
use mathlib.Core.Option.{Option, none, some}
use mathlib.Core.List.{[], ◌∷◌}
use giti.Prelude.Tests.{◌==◌, if◌then◌else◌}
use giti.Prelude.Bytes.{Text}

unfoldable pub prepend_byte : ℕ → Option (Text × Text) → Option (Text × Text)
prepend_byte c none = none
prepend_byte c (some (a, b)) = some (c ∷ a, b)

-- What stands before and behind the first separator, where there is one.
unfoldable pub cut_first : ℕ → Text → Option (Text × Text)
unfolding prepend_byte
cut_first sep [] = none
cut_first sep (c ∷ s) =
    let rest = cut_first sep s in if c == sep then some ([], s) else prepend_byte c rest

unfoldable pub later_cut : ℕ → ℕ → Text → Option (Text × Text) → Option (Text × Text)
later_cut sep c s none = if c == sep then some ([], s) else none
later_cut sep c s (some (a, b)) = some (c ∷ a, b)

-- What stands before and behind the last separator.
unfoldable pub cut_last : ℕ → Text → Option (Text × Text)
unfolding later_cut
cut_last sep [] = none
cut_last sep (c ∷ s) = later_cut sep c s (cut_last sep s)
