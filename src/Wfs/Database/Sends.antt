-- ===== src/Wfs/Database/Sends.antt =====
-- Actions that send none but harmless statements, whatever the database answers.
use giti.Prelude.{
  ℕ, ◌≡◌, refl, Bool, true, false, ◌||◌, List, [], ◌∷◌, ◌++◌, ◌==◌, Text, Result, ok, err, All,
  all_of, all_of-append, if◌then◌else◌, arith, join,
}
use giti.Filter.Ast.{Value}
use giti.Filter.Sql.SafeText.{IsSafe, is_sql_byte}
use giti.Ows.Request.{Table}
use giti.Wfs.Model.{WfsError}
use giti.Wfs.Database.{
  Statement, Shared, LockEntry, World, Action, pure, raise, lift, resume, recover, attempt, ◌>>=◌,
  send, now, set_locks, get_locks,
}

-- The harmless bytes of a condition, and the star and the colon of `count(*)` and `::text`. No byte
-- that ends a string or a statement, and no slash or dash that begins a comment.
unfoldable pub is_statement_byte : ℕ → Bool
unfolding is_sql_byte
is_statement_byte c = is_sql_byte c || c == b'*' || c == b':'

pub record IsStatement (t : Text) : Type 0 where
  pub bytes : all_of is_statement_byte t ≡ true

pub IsStatement-bytes : {t : Text} → all_of is_statement_byte t ≡ true → IsStatement t
IsStatement-bytes h = record { bytes = h }

pub IsStatement-append : (a b : Text) → IsStatement a → IsStatement b → IsStatement (a ++ b)
IsStatement-append a b h k = record { bytes = all_of-append is_statement_byte a b h.bytes k.bytes }

pub IsStatement-join :
    (sep : Text) (ps : List Text) → IsStatement sep → All IsStatement ps → IsStatement (join sep ps)
unfolding join
IsStatement-join sep [] h k = IsStatement-bytes refl
IsStatement-join sep (p ∷ []) h k = k.0
IsStatement-join sep (p ∷ q ∷ ps) h k =
    IsStatement-append p _ k.0 (IsStatement-append sep _ h (IsStatement-join sep (q ∷ ps) h k.1))

byte_weakens : (c : ℕ) → is_sql_byte c ≡ true → is_statement_byte c ≡ true
unfolding is_statement_byte
byte_weakens c h = rw h

bytes_weaken : (t : Text) → all_of is_sql_byte t ≡ true → all_of is_statement_byte t ≡ true
bytes_weaken [] h = refl
bytes_weaken (c ∷ t) h = ground (arith, byte_weakens c, bytes_weaken t)

pub IsSafe-IsStatement : {t : Text} → IsSafe t → IsStatement t
IsSafe-IsStatement {t} h = record { bytes = bytes_weaken t h.bytes }

module _ {F : Type 0} where
  pub IsHarmless : Statement F → Type 0
  IsHarmless s = IsStatement s.sql

  pub record Sends {A : Type 0} (m : Action F A) : Type 0 where
    pub keeps : (s : Shared F) → All IsHarmless s.sent → All IsHarmless (m s).1.sent

  module _ {A : Type 0} where
    pub Sends-pure : (a : A) → Sends (pure a)
    Sends-pure a = record { keeps = λ s h. h }

    pub Sends-raise : (e : WfsError) → Sends {A = A} (raise e)
    Sends-raise e = record { keeps = λ s h. h }

    pub Sends-lift : (r : Result WfsError A) → Sends (lift r)
    Sends-lift r = record { keeps = λ s h. h }

    pub Sends-if : (c : Bool) (m n : Action F A) → Sends m → Sends n → Sends (if c then m else n)
    Sends-if true m n h k = h
    Sends-if false m n h k = k

  module _ {A B : Type 0} where
    resume_keeps :
        (r : Result WfsError A) (s : Shared F) (k : A → Action F B)
        → ((a : A) → r ≡ ok a → Sends (k a))
        → All IsHarmless s.sent
        → All IsHarmless (resume (r, s) k).1.sent
    unfolding resume
    resume_keeps (ok a) s k g h = (g a refl).keeps s h
    resume_keeps (err e) s k g h = h

    recover_keeps :
        (f : WfsError → B) (r : Result WfsError A) (s : Shared F) (k : A → Action F B)
        → ((a : A) → r ≡ ok a → Sends (k a))
        → All IsHarmless s.sent
        → All IsHarmless (recover f (r, s) k).1.sent
    unfolding recover
    recover_keeps f (ok a) s k g h = (g a refl).keeps s h
    recover_keeps f (err e) s k g h = h

    pub Sends-attempt :
        (f : WfsError → B) (m : Action F A) (k : A → Action F B)
        → Sends m
        → ((a : A) → Sends (k a))
        → Sends (attempt f m k)
    Sends-attempt f m k hm hk = record {
      keeps = λ s h. recover_keeps f (m s).0 (m s).1 k (λ a e. hk a) (hm.keeps s h);
    }

    pub Sends-attempt_after :
        (f : WfsError → B) (r : Result WfsError A) (k : A → Action F B)
        → ((a : A) → r ≡ ok a → Sends (k a))
        → Sends (attempt f (lift r) k)
    Sends-attempt_after f r k g = record { keeps = λ s h. recover_keeps f r s k g h }

    pub Sends-bind :
        (m : Action F A) (k : A → Action F B) → Sends m → ((a : A) → Sends (k a)) → Sends (m >>= k)
    Sends-bind m k hm hk = record {
      keeps = λ s h. resume_keeps (m s).0 (m s).1 k (λ a e. hk a) (hm.keeps s h);
    }

    -- Behind a computation that sends nothing, its result is known.
    pub Sends-after :
        (r : Result WfsError A) (k : A → Action F B)
        → ((a : A) → r ≡ ok a → Sends (k a))
        → Sends (lift r >>= k)
    Sends-after r k g = record { keeps = λ s h. resume_keeps r s k g h }

  pub Sends-now : {V : Type 0} (world : World F V) → Sends (now world)
  unfolding now
  Sends-now world = record { keeps = λ s h. h }

  pub Sends-get_locks : Sends get_locks
  unfolding get_locks
  Sends-get_locks = record { keeps = λ s h. h }

  pub Sends-set_locks : (locks : Table LockEntry) → Sends {A = Unit} (set_locks locks)
  unfolding set_locks
  Sends-set_locks locks = record { keeps = λ s h. h }

  pub Sends-send :
      {V : Type 0} (world : World F V) (sql : Text) (args : List (Value F))
      → IsStatement sql
      → Sends (send world sql args)
  unfolding send IsHarmless
  Sends-send world sql args k = record { keeps = λ s h. (k, h) }
