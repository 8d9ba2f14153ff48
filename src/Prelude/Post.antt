-- ===== src/Prelude/Post.antt =====
-- What is true of the value of a result, if it is no error.
use mathlib.Core.Path.{◌≡◌, refl, subst}
use mathlib.Core.Bool.{Bool, true, false}
use giti.Prelude.Tests.{if◌then◌else◌}
use giti.Prelude.Outcome.{Result, ok, err, bind}

pub data Holds {E A : Type 0} (P : A → Type 0) : Result E A → Type 0 where
  returns : {a : A} → P a → Holds P (ok a)
  raises : {e : E} → Holds P (err e)

module _ {E A : Type 0} (P : A → Type 0) where
  pub Holds-if :
      (c : Bool) (m n : Result E A) → Holds P m → Holds P n → Holds P (if c then m else n)
  Holds-if true m n h k = h
  Holds-if false m n h k = k

  pub Holds-bind :
      {B : Type 0} (Q : B → Type 0) (m : Result E B) (f : B → Result E A)
      → Holds Q m
      → ((b : B) → Q b → Holds P (f b))
      → Holds P (bind m f)
  Holds-bind Q (ok a) f (returns h) k = k a h
  Holds-bind Q (err e) f h k = raises

  pub Holds-bind_any :
      {B : Type 0} (m : Result E B) (f : B → Result E A)
      → ((b : B) → Holds P (f b))
      → Holds P (bind m f)
  Holds-bind_any (ok a) f k = k a
  Holds-bind_any (err e) f k = raises

  -- What holds of a result holds of the value that it is known to have.
  pub Holds-eq : (m : Result E A) (a : A) → Holds P m → m ≡ ok a → P a
  Holds-eq (ok x) a (returns h) e = let same : x ≡ a = cc in subst P same h
  Holds-eq (err x) a h e = cc

  pub Holds-from : (m : Result E A) → ((a : A) → m ≡ ok a → P a) → Holds P m
  Holds-from (ok a) h = returns (h a refl)
  Holds-from (err e) h = raises
