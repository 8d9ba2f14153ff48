-- ===== src/Wfs/Locks.antt =====
-- services/wfs/internal/wfs/stored_lock.go: the locks on features. The store is a list in the order
-- in which a loop over the map meets its entries; the code holds `lockMu` around each use.
pub mod Rules
pub mod Expiry
use giti.Prelude.{
  ℕ, ◌+◌, ◌-◌, ◌*◌, ◌%◌, Bool, true, false, ◌&&◌, ◌||◌, not, Option, none, some, List, [], ◌∷◌,
  ◌++◌, ltb, ◌==◌, if◌then◌else◌, Text, text_eq, codes, decimal, one_of, ℤ, pos, negsuc, Result, ok,
  err,
}
use giti.Filter.Ast.{Value}
use giti.Ows.Request.{Table, Request, put, get}
use giti.Gateway.Http.{HttpRequest}
use giti.Wfs.Model.{Layer, Tools, WfsError, locked}
use giti.Wfs.Database.{
  LockEntry, Shared, World, Reply, Action, pure, raise, lift, attempt, recover, resume, ◌>>=◌, send,
  now, get_locks, set_locks,
}
use giti.Wfs.Statements.{ids_sql}
use giti.Wfs.Encode.{cell_text}
use giti.Wfs.Stream.{Answer, document, with_features}

-- A time before another.
unfoldable pub expired : ℕ → LockEntry → Bool
expired time e = ltb e.expires time

-- The loop over the targets: the first that the entry holds.
unfoldable pub held : List Text → List Text → Option Text
unfolding one_of
held ids [] = none
held ids (t ∷ target) = let rest = held ids target in if one_of t ids then some t else rest

module _ (time : ℕ) (tx_lock_id table : Text) (target : List Text) where
  -- A refusal: the feature and the lock. The entries that the loop has not reached stay.
  unfoldable pub check_entry :
      Text
      → LockEntry
      → Table LockEntry
      → Option Text
      → Option (Text × Text) × Table LockEntry
      → Option (Text × Text) × Table LockEntry
  check_entry id e store (some t) rest = (some (t, id), (id, e) ∷ store)
  check_entry id e store none (hit, kept) = (hit, (id, e) ∷ kept)

  -- `id == txLockID || e.table != l.Table`
  unfoldable pub passes : Text → LockEntry → Bool
  unfolding text_eq
  passes id e = text_eq id tx_lock_id || not (text_eq e.table table)

  -- The loop of `enforceLocks`, which deletes the entries that have expired.
  unfoldable pub enforce_from : Table LockEntry → Option (Text × Text) × Table LockEntry
  unfolding expired held check_entry passes
  enforce_from [] = (none, [])
  enforce_from ((id, e) ∷ store) =
      let rest = enforce_from store in
      if expired time e
      then rest
      else check_entry id e store (if passes id e then none else held e.ids target) rest

-- The identifiers that the rows hold; a NULL and a row that does not scan are passed over.
unfoldable pub row_ids : {V : Type 0} → (V → Text) → List (List (Option V)) → List Text
row_ids show [] = []
row_ids show ((some v ∷ []) ∷ rows) = show v ∷ row_ids show rows
row_ids show (row ∷ rows) = row_ids show rows

unfoldable pub no_ids : WfsError → List Text
no_ids e = []

module _ {F V : Type 0} (world : World F V) where
  -- `lockedIDs`: no identifier where the query fails.
  unfoldable pub locked_ids : Layer → Text → List (Value F) → Action F (List Text)
  unfolding ids_sql send row_ids no_ids
  locked_ids l cond args =
      attempt no_ids (lift (ids_sql l cond) >>= λ sql. send world sql args)
        λ r. pure (row_ids world.show r.rows)

  unfoldable pub refusal : Layer → Option (Text × Text) → Action F Unit
  refusal l none = pure tt
  refusal l (some (t, id)) = raise (locked l.table t id)

  unfoldable pub enforce_target : Layer → Text → List Text → Action F Unit
  unfolding now get_locks set_locks enforce_from refusal
  enforce_target l tx_lock_id [] = pure tt
  enforce_target l tx_lock_id (t ∷ target) = now world >>= λ time. get_locks >>= λ store.
      let (hit, kept) = enforce_from time tx_lock_id l.table (t ∷ target) store in
      set_locks kept >>= λ done. refusal l hit

  unfoldable pub enforce_locks : Layer → Text → List (Value F) → Text → Action F Unit
  unfolding locked_ids enforce_target
  enforce_locks l cond args tx_lock_id =
      locked_ids l cond args >>= λ target. enforce_target l tx_lock_id target

-- A number of minutes, five where it is not positive.
unfoldable pub minutes : ℤ → ℕ
minutes (pos n) = if n == 0 then 5 else n
minutes (negsuc n) = 5

-- `lockExpiry`: a `time.Duration` is an int64 of nanoseconds.
abbrev pub duration_limit : ℕ
duration_limit = 18446744073709551616

unfoldable pub lock_expiry : ℤ → ℕ
unfolding minutes
lock_expiry min = (minutes min * 60000000000) % duration_limit

-- `time.Add`: the greater half of the durations is negative.
unfoldable pub add_duration : ℕ → ℕ → ℕ
add_duration time d = if ltb d 9223372036854775808 then time + d else time - (duration_limit - d)

-- `exp := 5; if v != "" { fmt.Sscanf(v, "%d", &exp) }`
unfoldable pub expiry_of : Option ℤ → Text → ℤ
expiry_of scanned [] = pos 5
expiry_of none (c ∷ v) = pos 5
expiry_of (some n) (c ∷ v) = n

unfoldable pub lock_body : Text → ℕ → Text
unfolding decimal
lock_body id matched =
    codes
      "<?xml version=\"1.0\" encoding=\"UTF-8\"?>\n<wfs:LockFeatureResponse xmlns:wfs=\"http://www.opengis.net/wfs/2.0\" lockId=\""
    ++ (id
        ++ (codes "\" numberLocked=\""
            ++ (decimal matched ++ codes "\"><wfs:FeaturesLocked/></wfs:LockFeatureResponse>")))

module _ {F V : Type 0} (world : World F V) where
  unfoldable pub new_lock_id : Action F Text
  new_lock_id s = (ok (world.new_lock_id s.sent), s)

  -- The entry replaces one under the same identifier.
  unfoldable pub store_lock : Text → Text → List Text → ℤ → Action F Unit
  unfolding now get_locks set_locks put add_duration lock_expiry
  store_lock id table ids min = now world >>= λ time. get_locks >>= λ store. set_locks (
      put id record { table = table; ids = ids; expires = add_duration time (lock_expiry min) }
        store)

  unfoldable pub lock_matched :
      Tools F → Request → Layer → Text × List (Value F) → ℕ → Action F Answer
  unfolding new_lock_id locked_ids store_lock expiry_of lock_body get
  lock_matched tools req layer (cond, args) matched =
      let v = get req (codes "expiry") in
      new_lock_id >>= λ id. locked_ids world layer cond args >>= λ ids.
      store_lock id layer.table ids (expiry_of (tools.scan_int v) v) >>= λ done.
      pure (document (codes "application/xml") (lock_body id matched) none)

  unfoldable pub lock_feature : Tools F → HttpRequest → Request → Action F Answer
  unfolding with_features lock_matched
  lock_feature tools r req =
      with_features world tools r req λ p w matched. lock_matched tools req p.layer w matched
