-- ===== src/Wfs/Transaction/Harmless.antt =====
-- The statements that a transaction sends to the database of a layer.
use giti.Prelude.{
  ℕ, ◌+◌, ◌≡◌, refl, Option, none, some, List, [], ◌∷◌, Text, text_eq, codes, length, Result, ok,
  err, Holds-eq,
}
use giti.Filter.Ast.{Value}
use giti.Filter.Xml.Tree.{Node, Nodes, node, leaf, child}
use giti.Gateway.Http.{HttpRequest}
use giti.Wfs.Model.{Layer, Tools, WfsError}
use giti.Wfs.Database.{now, get_locks, set_locks, World, Action, lift, ◌>>=◌, send}
use giti.Wfs.Database.Sends.{
  IsStatement, IsSafe-IsStatement, Sends, Sends-pure, Sends-raise, Sends-lift, Sends-if, Sends-bind,
  Sends-after, Sends-attempt, Sends-attempt_after, Sends-send, Sends-now, Sends-get_locks,
  Sends-set_locks,
}
use giti.Wfs.Locks.{
  locked_ids, no_ids, row_ids, enforce_from, refusal, enforce_target, enforce_locks,
}
use giti.Wfs.Statements.{qi, ids_sql}
use giti.Wfs.Statements.Harmless.{qi-IsStatement, ids_sql-IsStatement}
use giti.Wfs.Xml.{attr, kids_of, decode_body, tx_filter_where}
use giti.Wfs.Xml.Edits.{tx_filter_where-IsSafe}
use giti.Wfs.Transaction.{
  insert_parts, set_parts, resolve_tx_layer, exec, insert_feature, insert_all, do_insert,
  enforce_if, update_rows, do_update, do_delete, tx_error, run_operations, transaction,
}
use giti.Wfs.Transaction.Statements.{
  AreParts, AreSets, insert_parts-AreParts, set_parts-AreSets, insert_sql-IsStatement,
  update_sql-IsStatement, delete_sql-IsStatement,
}

module _ {F V : Type 0} (tools : Tools F) (world : World F V) where
  exec-Sends :
      (sql : Text) (args : List (Value F)) → IsStatement sql → Sends (exec tools world sql args)
  unfolding exec
  exec-Sends sql args h =
      Sends-bind (send world sql args) _ (Sends-send world sql args h) λ r. Sends-pure r.number

  -- A quoted name.
  quoted :
      {A : Type 0} (name : Text) (k : Text → Action F A)
      → ((q : Text) → IsStatement q → Sends (k q))
      → Sends (lift (qi name) >>= k)
  quoted name k g =
      Sends-after (qi name) k λ q e. g q (Holds-eq IsStatement (qi name) q (qi-IsStatement name) e)

  insert_feature-Sends : (n : Node) → Sends (insert_feature tools world n)
  unfolding insert_feature AreParts
  insert_feature-Sends (node name attrs kids text) =
      Sends-bind (lift (resolve_tx_layer tools world name)) _ (Sends-lift _) λ layer.
        quoted layer.table _ λ table h. Sends-after (insert_parts layer 1 kids) _ λ parts e.
          let good =
            Holds-eq AreParts (insert_parts layer 1 kids) parts (insert_parts-AreParts layer 1 kids)
              e in
          exec-Sends _ parts.2 (insert_sql-IsStatement table parts.0 parts.1 h good.0 good.1)

  insert_all-Sends : (ns : Nodes) → Sends (insert_all tools world ns)
  unfolding insert_all
  insert_all-Sends leaf = Sends-pure 0
  insert_all-Sends (child n ns) =
      Sends-bind (insert_feature tools world n) _ (insert_feature-Sends n) λ done.
        Sends-bind (insert_all tools world ns) _ (insert_all-Sends ns)
          λ count. Sends-pure (count + 1)

  locked_ids-Sends :
      (l : Layer) (cond : Text) (args : List (Value F))
      → IsStatement cond
      → Sends (locked_ids world l cond args)
  unfolding locked_ids
  locked_ids-Sends l cond args k =
      Sends-attempt no_ids (lift (ids_sql l cond) >>= λ sql. send world sql args) _
        (Sends-after (ids_sql l cond) _ λ sql e.
          Sends-send world sql args
            (Holds-eq IsStatement (ids_sql l cond) sql (ids_sql-IsStatement l cond k) e))
        λ r. Sends-pure (row_ids world.show r.rows)

  refusal-Sends : (l : Layer) (hit : Option (Text × Text)) → Sends (refusal world l hit)
  unfolding refusal
  refusal-Sends l none = Sends-pure tt
  refusal-Sends l (some (t, id)) = Sends-raise _

  enforce_target-Sends :
      (l : Layer) (tx_lock_id : Text) (target : List Text)
      → Sends (enforce_target world l tx_lock_id target)
  unfolding enforce_target
  enforce_target-Sends l tx [] = Sends-pure tt
  enforce_target-Sends l tx (t ∷ target) = Sends-bind (now world) _ (Sends-now world) λ time.
      Sends-bind get_locks _ Sends-get_locks λ store.
        let result = enforce_from time tx l.table (t ∷ target) store in
        Sends-bind (set_locks result.1) _ (Sends-set_locks result.1)
          λ done. refusal-Sends l result.0

  enforce_locks-Sends :
      (l : Layer) (cond : Text) (args : List (Value F)) (tx_lock_id : Text)
      → IsStatement cond
      → Sends (enforce_locks world l cond args tx_lock_id)
  unfolding enforce_locks
  enforce_locks-Sends l cond args tx k =
      Sends-bind (locked_ids world l cond args) _ (locked_ids-Sends l cond args k)
        λ target. enforce_target-Sends l tx target

  module _ (r : HttpRequest) where
    conditioned :
        {A : Type 0} (op : Node) (start : ℕ) (k : Text × List (Value F) → Action F A)
        → ((w : Text × List (Value F)) → IsStatement w.0 → Sends (k w))
        → Sends (lift (tx_filter_where tools r op start) >>= k)
    conditioned op start k g =
        Sends-after (tx_filter_where tools r op start) k
          λ w e. g w (IsSafe-IsStatement (tx_filter_where-IsSafe tools r op start w.0 w.1 e))

    do_delete-Sends :
        (op : Node) (tx_lock_id : Text) → Sends (do_delete tools world r op tx_lock_id)
    unfolding do_delete
    do_delete-Sends op tx =
        Sends-bind (lift (resolve_tx_layer tools world (attr (codes "typeName") op))) _
          (Sends-lift _)
          λ layer. quoted layer.table _ λ table h. conditioned op 1 _ λ w k.
            Sends-bind (enforce_locks world layer w.0 w.1 tx) _
              (enforce_locks-Sends layer w.0 w.1 tx k)
              λ done. exec-Sends _ w.1 (delete_sql-IsStatement table w.0 h k)

    enforce_if-Sends :
        (op : Node) (layer : Layer) (tx : Text) (w : Result WfsError (Text × List (Value F)))
        → ((v : Text × List (Value F)) → w ≡ ok v → IsStatement v.0)
        → Sends (enforce_if tools world layer tx w)
    unfolding enforce_if
    enforce_if-Sends op layer tx (ok (cond, args)) g =
        enforce_locks-Sends layer cond args tx (g (cond, args) refl)
    enforce_if-Sends op layer tx (err e) g = Sends-pure tt

    update_rows-Sends :
        (op : Node) (table : Text) → IsStatement table → Sends (update_rows tools world r op table)
    unfolding update_rows AreSets
    update_rows-Sends op table h = Sends-after (set_parts 1 (kids_of op)) _ λ sets e.
        let good =
          Holds-eq AreSets (set_parts 1 (kids_of op)) sets (set_parts-AreSets 1 (kids_of op)) e in
        conditioned op (length sets.0 + 1) _
          λ w k. exec-Sends _ _ (update_sql-IsStatement table sets.0 w.0 h good k)

    do_update-Sends :
        (op : Node) (tx_lock_id : Text) → Sends (do_update tools world r op tx_lock_id)
    unfolding do_update
    do_update-Sends op tx =
        Sends-bind (lift (resolve_tx_layer tools world (attr (codes "typeName") op))) _
          (Sends-lift _)
          λ layer. quoted layer.table _ λ table h.
            Sends-bind (enforce_if tools world layer tx (tx_filter_where tools r op 1)) _
              (enforce_if-Sends op layer tx (tx_filter_where tools r op 1)
                λ w e. IsSafe-IsStatement (tx_filter_where-IsSafe tools r op 1 w.0 w.1 e))
              λ done. update_rows-Sends op table h

    run_operations-Sends :
        (tx_lock_id : Text) (ops : Nodes) (i u d : ℕ)
        → Sends (run_operations tools world r tx_lock_id ops i u d)
    unfolding run_operations do_insert
    run_operations-Sends tx leaf i u d = Sends-pure _
    run_operations-Sends tx (child (node name attrs kids text) ops) i u d =
        let op = node name attrs kids text in
        Sends-if (text_eq name (codes "Insert")) _ _
          (Sends-attempt _ (insert_all tools world kids) _ (insert_all-Sends kids)
            λ n. run_operations-Sends tx ops (i + n) u d)
          (Sends-if (text_eq name (codes "Update")) _ _
            (Sends-attempt _ (do_update tools world r op tx) _ (do_update-Sends op tx)
              λ n. run_operations-Sends tx ops i (u + n) d)
            (Sends-if (text_eq name (codes "Delete")) _ _
              (Sends-attempt _ (do_delete tools world r op tx) _ (do_delete-Sends op tx)
                λ n. run_operations-Sends tx ops i u (d + n))
              (run_operations-Sends tx ops i u d)))

    -- Whatever a transaction holds and the database answers, every statement that it sends to the
    -- database of a layer for the features, to find the locked ones or to insert, update or delete, is
    -- made of harmless bytes, if those were that were sent before: it holds no single quote,
    -- semicolon, dash, slash or backslash. The constant statements with which Resolve reads the
    -- description of a layer are not among them.
    pub transaction-Sends : (body : Text) → Sends (transaction tools world r body)
    unfolding transaction
    transaction-Sends body =
        Sends-attempt_after (tx_error tools world []) (decode_body tools body) _
          λ root e. run_operations-Sends (attr (codes "lockId") root) (kids_of root) 0 0 0
