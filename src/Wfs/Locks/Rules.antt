-- ===== src/Wfs/Locks/Rules.antt =====
-- services/wfs/internal/wfs/stored_lock.go: whom the loop of enforceLocks refuses, against a
-- description of the entries in terms of their fields.
use giti.Prelude.{
  one_of, ltb, sym, All, ◌<◌, ℕ, ◌≤◌, ◌≡◌, refl, ap, ◌∙◌, Bool, true, false, ◌&&◌, ◌||◌, not,
  Option, none, some, List, [], ◌∷◌, if◌then◌else◌, Text, text_eq, text_eq_iff, Bool-cases,
  Option-cases, inl, inr, arith, ok, ℤ,
}
use giti.Ows.Request.{Table, put}
use giti.Wfs.Model.{Layer}
use giti.Wfs.Database.{LockEntry, Shared, World, set_locks, get_locks, now, resume}
use giti.Wfs.Locks.{
  expired, held, check_entry, passes, enforce_from, enforce_target, refusal, store_lock,
  lock_expiry, add_duration,
}

unfoldable pub is_some : {A : Type 0} → Option A → Bool
is_some none = false
is_some (some a) = true

unfoldable pub shares : List Text → List Text → Bool
unfolding one_of
shares ids [] = false
shares ids (t ∷ target) = one_of t ids || shares ids target

-- The description: an entry whose time is not over, under another identifier, of the table, that
-- holds one of the targets.
unfoldable pub blocks : ℕ → Text → Text → List Text → Text → LockEntry → Bool
unfolding text_eq shares
blocks time tx_lock_id table target id e =
    not (ltb e.expires time)
    && (not (text_eq id tx_lock_id) && (text_eq e.table table && shares e.ids target))

unfoldable pub blocked : ℕ → Text → Text → List Text → Table LockEntry → Bool
unfolding blocks
blocked time tx_lock_id table target [] = false
blocked time tx_lock_id table target ((id, e) ∷ store) =
    blocks time tx_lock_id table target id e || blocked time tx_lock_id table target store

held-shares : (ids target : List Text) → is_some (held ids target) ≡ shares ids target
unfolding held shares is_some
held-shares ids [] = refl
held-shares ids (t ∷ target) = elim (Bool-cases (one_of t ids)) [
  | inl h ↦ rw h refl
  | inr h ↦ rw h (held-shares ids target)
]

module _ (time : ℕ) (tx_lock_id table : Text) (target : List Text) where
  entry-blocks :
      (id : Text) (e : LockEntry)
      → (not (expired time e)
          && is_some (if passes time tx_lock_id table target id e then none else held e.ids target))
        ≡ blocks time tx_lock_id table target id e
  unfolding blocks expired passes is_some
  entry-blocks id e =
      let h = held-shares e.ids target in
      elim (Bool-cases (text_eq id tx_lock_id)) [
        | inl x ↦ rw x refl
        | inr x ↦ rw x (elim (Bool-cases (text_eq e.table table)) [
          | inl y ↦ rw y (rw h refl)
          | inr y ↦ rw y refl
        ])
      ]

  step-blocks :
      (id : Text) (e : LockEntry) (store : Table LockEntry)
      → is_some (enforce_from time tx_lock_id table target ((id, e) ∷ store)).0 ≡ (
          (not (expired time e)
            && is_some
                (if passes time tx_lock_id table target id e then none else held e.ids target))
          || is_some (enforce_from time tx_lock_id table target store).0)
  unfolding enforce_from is_some check_entry
  step-blocks id e store = elim (Bool-cases (expired time e)) [
    | inl x ↦ rw x refl
    | inr x ↦
        rw x
          (elim (Option-cases
            (if passes time tx_lock_id table target id e then none else held e.ids target)) [
              | inl h ↦ rw h refl
              | inr (t, h) ↦ rw h refl
            ])
  ]

  -- The loop refuses exactly where the store has an entry whose time is not over, under another
  -- identifier than the one given and of the table of the edit, that holds one of the targets, in
  -- whatever order the loop meets the entries.
  pub enforce_from-blocked :
      (store : Table LockEntry)
      → is_some (enforce_from time tx_lock_id table target store).0
        ≡ blocked time tx_lock_id table target store
  unfolding enforce_from blocked is_some
  enforce_from-blocked [] = refl
  enforce_from-blocked ((id, e) ∷ store) =
      step-blocks id e store
      ∙ ap (λ b. b || is_some (enforce_from time tx_lock_id table target store).0)
          (entry-blocks id e)
      ∙ ap (λ b. blocks time tx_lock_id table target id e || b) (enforce_from-blocked store)

or_true : (a : Bool) {b : Bool} → b ≡ true → (a || b) ≡ true
or_true a h = ground arith

blocked-put :
    (time : ℕ) (tx_lock_id table : Text) (target : List Text) (id : Text) (e : LockEntry)
    (store : Table LockEntry)
    → blocks time tx_lock_id table target id e ≡ true
    → blocked time tx_lock_id table target (put id e store) ≡ true
unfolding put blocked
blocked-put time tx table target id e [] h = rw h refl
blocked-put time tx table target id e ((k, v) ∷ store) h = elim (Bool-cases (text_eq id k)) [
  | inl y ↦ rw y (rw h refl)
  | inr n ↦ rw n (or_true _ (blocked-put time tx table target id e store h))
]

-- Until it expires, a lock that was taken refuses every edit of one of its features that does not
-- name it, whatever other locks there are.
pub store_lock-blocks :
    {F V : Type 0} (world : World F V) (id table : Text) (ids : List Text) (min : ℤ) (s : Shared F)
    (time : ℕ) (tx_lock_id : Text) (target : List Text) (t : Text)
    → time ≤ add_duration (world.clock s.sent) (lock_expiry min)
    → text_eq id tx_lock_id ≡ false
    → held ids target ≡ some t
    → is_some
        (enforce_from time tx_lock_id table target (store_lock world id table ids min s).1.locks).0
      ≡ true
unfolding store_lock resume now get_locks set_locks blocks is_some expired passes
store_lock-blocks world id table ids min s time tx target t h n k =
    let e : LockEntry = record {
      table = table;
      ids = ids;
      expires = add_duration (world.clock s.sent) (lock_expiry min);
    } in
    let fresh : ltb e.expires time ≡ false = ground arith in
    let some_held : shares ids target ≡ true = sym (held-shares ids target) ∙ ap is_some k in
    enforce_from-blocked time tx table target (put id e s.locks)
    ∙ blocked-put time tx table target id e s.locks
        (rw fresh (rw n (rw ((text_eq_iff table table).1 refl) some_held)))

Over : ℕ → Text × LockEntry → Type 0
Over time (id, e) = e.expires < time

swept :
    (time : ℕ) (tx_lock_id table : Text) (target : List Text) (store : Table LockEntry)
    → All (Over time) store
    → enforce_from time tx_lock_id table target store ≡ (none, [])
unfolding enforce_from expired Over
swept time tx table target [] h = refl
swept time tx table target ((id, e) ∷ store) h =
    let over : ltb e.expires time ≡ true = ground (arith, h.0) in
    rw over (swept time tx table target store h.1)

put-Over :
    (time : ℕ) (id : Text) (e : LockEntry) (store : Table LockEntry)
    → e.expires < time
    → All (Over time) store
    → All (Over time) (put id e store)
unfolding put Over
put-Over time id e [] h k = (h, tt)
put-Over time id e ((i, v) ∷ store) h k = elim (Bool-cases (text_eq id i)) [
  | inl y ↦ rw y (h, k.1)
  | inr n ↦ rw n (k.0, put-Over time id e store h k.1)
]

-- A lock that was taken refuses no more once its time is over: where the clock of a later edit has
-- passed the time at which the lock was taken by more than its duration, and the times at which
-- the other locks end, an edit that selects a feature passes, whatever lock it names, and leaves no
-- lock behind.
pub store_lock-passes :
    {F V : Type 0} (world : World F V) (id table : Text) (ids : List Text) (min : ℤ) (s : Shared F)
    (l : Layer) (tx_lock_id t : Text) (target : List Text) (s' : Shared F)
    → s'.locks ≡ (store_lock world id table ids min s).1.locks
    → add_duration (world.clock s.sent) (lock_expiry min) < world.clock s'.sent
    → All (λ e. e.1.expires < world.clock s'.sent) s.locks
    → enforce_target world l tx_lock_id (t ∷ target) s'
      ≡ (ok tt, record { sent = s'.sent; locks = [] })
unfolding store_lock enforce_target resume now get_locks set_locks refusal Over
store_lock-passes world id table ids min s l tx t target s' h late others =
    let gone : enforce_from (world.clock s'.sent) tx l.table (t ∷ target) s'.locks ≡ (none, []) =
      rw h (
        swept (world.clock s'.sent) tx l.table (t ∷ target) _
          (put-Over (world.clock s'.sent) id _ s.locks late others)) in
    rw gone refl
