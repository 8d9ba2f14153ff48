-- ===== src/Wfs/Transaction/Locked.antt =====
-- Updates and deletions of locked features.
use giti.Prelude.{
  ◌≡◌, refl, ap, sym, ◌∙◌, subst, true, List, ◌∷◌, Text, codes, Result, ok, err, Option-cases, inl,
  inr,
}
use giti.Filter.Ast.{Value}
use giti.Filter.Xml.Tree.{Node}
use giti.Gateway.Http.{HttpRequest}
use giti.Ows.Request.{Table}
use giti.Wfs.Model.{Layer, Tools, WfsError, locked}
use giti.Wfs.Database.{
  LockEntry, Shared, World, Action, lift, ◌>>=◌, resume, now, get_locks, set_locks,
}
use giti.Wfs.Locks.{locked_ids, enforce_from, refusal, enforce_target, enforce_locks}
use giti.Wfs.Locks.Rules.{blocked, is_some, enforce_from-blocked}
use giti.Wfs.Statements.{qi}
use giti.Wfs.Xml.{attr, tx_filter_where}
use giti.Wfs.Transaction.{
  resolve_tx_layer, enforce_if, update_rows, exec, delete_sql, do_update, do_delete,
}

-- The operation ended in the refusal of a locked feature, and sent nothing more.
pub data IsRefused {F A : Type 0} (l : Layer) (s : Shared F)
    : Result WfsError A × Shared F → Type 0 where
  refused :
      {t id : Text} {store : Table LockEntry}
      → IsRefused l s (err (locked l.table t id), record { sent = s.sent; locks = store })

module _ {F V : Type 0} (world : World F V) (l : Layer) (tx_lock_id : Text) where
  enforce_target-IsRefused :
      (t : Text) (target : List Text) (s : Shared F)
      → blocked (world.clock s.sent) tx_lock_id l.table (t ∷ target) s.locks ≡ true
      → IsRefused l s (enforce_target world l tx_lock_id (t ∷ target) s)
  unfolding enforce_target resume now get_locks set_locks refusal is_some
  enforce_target-IsRefused t target s h =
      let hit = (enforce_from (world.clock s.sent) tx_lock_id l.table (t ∷ target) s.locks).0 in
      let found : is_some hit ≡ true =
        enforce_from-blocked (world.clock s.sent) tx_lock_id l.table (t ∷ target) s.locks ∙ h in
      elim (Option-cases hit) [ inl n ↦ cc (rw n at found) | inr (p, y) ↦ rw y refused ]

  enforce_locks-IsRefused :
      (cond : Text) (args : List (Value F)) (t : Text) (target : List Text) (s s' : Shared F)
      → locked_ids world l cond args s ≡ (ok (t ∷ target), s')
      → blocked (world.clock s'.sent) tx_lock_id l.table (t ∷ target) s'.locks ≡ true
      → IsRefused l s' (enforce_locks world l cond args tx_lock_id s)
  unfolding enforce_locks resume
  enforce_locks-IsRefused cond args t target s s' e h =
      rw e (enforce_target-IsRefused t target s' h)

resume-IsRefused :
    {F A B : Type 0} (l : Layer) (s : Shared F) (r : Result WfsError A × Shared F)
    (k : A → Action F B)
    → IsRefused l s r
    → IsRefused l s (resume r k)
unfolding resume
resume-IsRefused l s r k refused = refused

past :
    {F A B : Type 0} (m : Result WfsError A) (x : A) (k : A → Action F B) (s : Shared F)
    → m ≡ ok x
    → (lift m >>= k) s ≡ k x s
unfolding resume
past m x k s h = rw h refl

module _ {F V : Type 0} where
  module _ (tools : Tools F) (world : World F V) (r : HttpRequest) (op : Node) (tx_lock_id : Text)
      (layer : Layer) (table : Text) (w : Text × List (Value F)) (s : Shared F)
      (a : resolve_tx_layer tools world (attr (codes "typeName") op) ≡ ok layer)
      (b : qi layer.table ≡ ok table) (c : tx_filter_where tools r op 1 ≡ ok w) where
    delete_steps :
        do_delete tools world r op tx_lock_id s
        ≡ resume
            (enforce_locks world layer w.0 w.1 tx_lock_id s)
            λ done. exec tools world (delete_sql table w.0) w.1
    unfolding do_delete resume
    delete_steps =
        past (resolve_tx_layer tools world (attr (codes "typeName") op)) layer _ s a
        ∙ past (qi layer.table) table _ s b
        ∙ past (tx_filter_where tools r op 1) w _ s c

    update_steps :
        do_update tools world r op tx_lock_id s
        ≡ resume
            (enforce_locks world layer w.0 w.1 tx_lock_id s)
            λ done. update_rows tools world r op table
    unfolding do_update resume enforce_if
    update_steps =
        past (resolve_tx_layer tools world (attr (codes "typeName") op)) layer _ s a
        ∙ past (qi layer.table) table _ s b
        ∙ ap
            (λ v.
              resume (enforce_if tools world layer tx_lock_id v s)
                λ done. update_rows tools world r op table)
            c

  -- Where the filter of an update or of a deletion selects features of which a live lock of another
  -- identifier holds one, the operation is refused, and no UPDATE or DELETE is sent: nothing is but
  -- the question for the features.
  pub edits-IsRefused :
      (tools : Tools F) (world : World F V) (r : HttpRequest) (op : Node) (tx_lock_id : Text)
      (layer : Layer) (table : Text) (w : Text × List (Value F)) (t : Text) (target : List Text)
      (s s' : Shared F)
      → resolve_tx_layer tools world (attr (codes "typeName") op) ≡ ok layer
      → qi layer.table ≡ ok table
      → tx_filter_where tools r op 1 ≡ ok w
      → locked_ids world layer w.0 w.1 s ≡ (ok (t ∷ target), s')
      → blocked (world.clock s'.sent) tx_lock_id layer.table (t ∷ target) s'.locks ≡ true
      → IsRefused layer s' (do_update tools world r op tx_lock_id s)
        × IsRefused layer s' (do_delete tools world r op tx_lock_id s)
  edits-IsRefused tools world r op tx layer table w t target s s' a b c d h =
      let stop = enforce_locks-IsRefused world layer tx w.0 w.1 t target s s' d h in
      (
        subst (IsRefused layer s') (sym (update_steps tools world r op tx layer table w s a b c))
            (resume-IsRefused layer s' _ (λ done. update_rows tools world r op table) stop),
        subst (IsRefused layer s') (sym (delete_steps tools world r op tx layer table w s a b c)) (
            resume-IsRefused layer s' _ (λ done. exec tools world (delete_sql table w.0) w.1) stop),
      )
