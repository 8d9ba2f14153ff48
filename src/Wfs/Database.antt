-- ===== src/Wfs/Database.antt =====
-- The handlers of services/wfs as actions: what they share is the database behind a layer, of which
-- the statements on its features that were sent to it are kept, and the store of the locks. What
-- services/wfs/internal/meta/meta.go asks the catalog and the database to describe a layer is not
-- in this log: see Wfs/Meta.
pub mod Sends
use giti.Prelude.{ℕ, Option, none, some, List, [], ◌∷◌, Text, Result, ok, err, bind}
use giti.Filter.Ast.{Value}
use giti.Ows.Request.{Table}
use giti.Wfs.Model.{WfsError, database}

-- A statement with its arguments.
pub record Statement (F : Type 0) : Type 0 where
  pub sql : Text
  pub args : List (Value F)

-- What PostgreSQL returns: rows of columns that may be NULL, the number that `count(*)` or the
-- command tag holds, and the error that ends the rows.
pub record Reply (V : Type 0) : Type 0 where
  pub rows : List (List (Option V))
  pub number : ℕ
  pub end_error : Option Text

-- `lockEntry`. Times are nanoseconds.
pub record LockEntry : Type 0 where
  pub table : Text
  pub ids : List Text
  pub expires : ℕ

-- The statements on features that were sent, the latest first, and `lockStore`.
pub record Shared (F : Type 0) : Type 0 where
  pub sent : List (Statement F)
  pub locks : Table LockEntry

-- What lies outside: PostgreSQL, whose answer depends on all that was sent before, the clock, the
-- random identifiers, `%v` of a value and `json.Marshal` of a map.
pub record World (F V : Type 0) : Type 0 where
  pub answer : List (Statement F) → Statement F → Result Text (Reply V)
  pub clock : List (Statement F) → ℕ
  pub new_lock_id : List (Statement F) → Text
  pub show : V → Text
  pub json_object : Table (Option V) → Text

-- An action: what was sent stays sent where it fails.
abbrev pub Action : Type 0 → Type 0 → Type 0
Action F A = Shared F → Result WfsError A × Shared F

module _ {F A : Type 0} where
  abbrev pub pure : A → Action F A
  pure a s = (ok a, s)

  abbrev pub raise : WfsError → Action F A
  raise e s = (err e, s)

  abbrev pub lift : Result WfsError A → Action F A
  lift r s = (r, s)

unfoldable pub resume :
    {F A B : Type 0}
    → Result WfsError A × Shared F
    → (A → Action F B)
    → Result WfsError B × Shared F
resume (ok a, s) k = k a s
resume (err e, s) k = (err e, s)

-- `if err != nil { … return }`: what is made of the error is the result.
unfoldable pub recover :
    {F A B : Type 0}
    → (WfsError → B)
    → Result WfsError A × Shared F
    → (A → Action F B)
    → Result WfsError B × Shared F
recover f (ok a, s) k = k a s
recover f (err e, s) k = (ok (f e), s)

abbrev pub attempt : {F A B : Type 0} → (WfsError → B) → Action F A → (A → Action F B) → Action F B
attempt f m k s = recover f (m s) k

infixl 5 ◌>>=◌
abbrev pub ◌>>=◌ : {F A B : Type 0} → Action F A → (A → Action F B) → Action F B
◌>>=◌ m k s = resume (m s) k

unfoldable pub database_error : {A : Type 0} → Result Text A → Result WfsError A
database_error (ok a) = ok a
database_error (err e) = err (database e)

module _ {F V : Type 0} (world : World F V) where
  -- `Conn.Query` and `Conn.Exec`
  unfoldable pub send : Text → List (Value F) → Action F (Reply V)
  unfolding database_error
  send sql args s =
      let statement : Statement F = record { sql = sql; args = args } in
      (
        database_error (world.answer s.sent statement),
        record { sent = statement ∷ s.sent; locks = s.locks },
      )

  unfoldable pub now : Action F ℕ
  now s = (ok (world.clock s.sent), s)

module _ {F : Type 0} where
  unfoldable pub get_locks : Action F (Table LockEntry)
  get_locks s = (ok s.locks, s)

  unfoldable pub set_locks : Table LockEntry → Action F Unit
  set_locks locks s = (ok tt, record { sent = s.sent; locks = locks })
