-- ===== src/Wfs/Transaction.antt =====
-- services/wfs/internal/wfs/transaction.go: the handler of transactions. Each operation is carried out
-- on its own: what was sent before an error stays done.
pub mod Statements
pub mod Harmless
pub mod Locked
use giti.Prelude.{
  ℕ, ◌+◌, ◌==◌, Bool, ◌&&◌, ◌||◌, Option, none, some, List, [], ◌∷◌, ◌++◌, if◌then◌else◌, Text,
  text_eq, codes, decimal, join, length, Result, ok, err, bind, prepend_byte, cut_first,
}
use giti.Filter.Ast.{Value, string}
use giti.Filter.Xml.Tree.{Node, Nodes, node, leaf, child, trim_space}
use giti.Gateway.Http.{HttpRequest}
use giti.Wfs.Meta.{introspect}
use giti.Wfs.Model.{Layer, Tools, WfsError, invalid_geometry}
use giti.Wfs.Database.{World, Reply, Shared, Action, pure, lift, resume, ◌>>=◌, attempt, send}
use giti.Wfs.Statements.{qi}
use giti.Wfs.Stream.{Answer, exception, document}
use giti.Wfs.Locks.{enforce_locks}
use giti.Wfs.Xml.{attr, kids_of, decode_body, gml_node_to_wkt, tx_filter_where}

-- `strings.Index(s, "--")`, and the parts around it.
unfoldable pub cut_dashes : Text → Option (Text × Text)
unfolding prepend_byte
cut_dashes [] = none
cut_dashes (c ∷ []) = none
cut_dashes (c ∷ d ∷ s) =
    let rest = cut_dashes (d ∷ s) in
    if c == b'-' && d == b'-' then some ([], s) else prepend_byte c rest

unfoldable pub tx_name : Text → Option (Text × Text) → Option (Text × Text) → Text × Text
tx_name s (some parts) colon = parts
tx_name s none (some parts) = parts
tx_name s none none = ([], s)

-- `fmt.Sprintf("$%d", argn)`
unfoldable pub dollar : ℕ → Text
unfolding decimal
dollar argn = b'$' ∷ decimal argn

-- A property of a feature: its placeholder and its argument.
unfoldable pub geometry_value :
    {F : Type 0} → Text → ℕ → Option Text → Result WfsError (Text × Value F)
unfolding dollar
geometry_value col argn none = err (invalid_geometry col)
geometry_value col argn (some wkt) =
    ok (codes "ST_GeomFromText(" ++ (dollar argn ++ codes ", 4326)"), string wkt)

unfoldable pub insert_value : {F : Type 0} → Layer → ℕ → Node → Result WfsError (Text × Value F)
unfolding geometry_value gml_node_to_wkt dollar trim_space text_eq
insert_value layer argn (node col attrs kids text) =
    if text_eq col layer.geom_col
    then geometry_value col argn (gml_node_to_wkt kids)
    else ok (dollar argn, string (trim_space text))

unfoldable pub name_of : Node → Text
name_of (node name attrs kids text) = name

-- The loop over the properties of a feature: names, placeholders and arguments.
unfoldable pub insert_parts :
    {F : Type 0} → Layer → ℕ → Nodes → Result WfsError (List Text × List Text × List (Value F))
unfolding qi insert_value name_of
insert_parts layer argn leaf = ok ([], [], [])
insert_parts layer argn (child prop ns) = bind (qi (name_of prop)) λ q.
    bind (insert_value layer argn prop) λ v.
      bind (insert_parts layer (argn + 1) ns) λ rest. ok (q ∷ rest.0, v.0 ∷ rest.1, v.1 ∷ rest.2)

unfoldable pub insert_sql : Text → List Text → List Text → Text
unfolding join
insert_sql table names placeholders =
    codes "INSERT INTO "
    ++ (table
        ++ (codes " ("
            ++ (join (codes ", ") names
                ++ (codes ") VALUES (" ++ (join (codes ", ") placeholders ++ codes ")")))))

-- The last name and the last value of a `Property`.
unfoldable pub read_property : Text → Text → Nodes → Text × Text
unfolding trim_space text_eq
read_property name value leaf = (name, value)
read_property name value (child (node n attrs kids text) ns) =
    read_property
      (if text_eq n (codes "Name") || text_eq n (codes "ValueReference")
        then trim_space text
        else name)
      (if text_eq n (codes "Value") then trim_space text else value) ns

-- The loop over the properties of an update: the assignments and their arguments.
unfoldable pub set_parts : {F : Type 0} → ℕ → Nodes → Result WfsError (List Text × List (Value F))
unfolding read_property qi dollar text_eq
set_parts argn leaf = ok ([], [])
set_parts argn (child (node n attrs kids text) ns) =
    let (name, value) = read_property [] [] kids in
    let skipped = set_parts argn ns in
    let later = set_parts (argn + 1) ns in
    if text_eq n (codes "Property")
    then (bind (qi name) λ q.
        bind later λ rest. ok ((q ++ (codes " = " ++ dollar argn)) ∷ rest.0, string value ∷ rest.1))
    else skipped

unfoldable pub update_sql : Text → List Text → Text → Text
unfolding join
update_sql table sets cond =
    codes "UPDATE " ++ (table ++ (codes " SET " ++ (join (codes ", ") sets ++ cond)))

unfoldable pub delete_sql : Text → Text → Text
delete_sql table cond = codes "DELETE FROM " ++ (table ++ cond)

module _ {F V : Type 0} (tools : Tools F) (world : World F V) where
  unfoldable pub resolve_tx_layer : Text → Result WfsError Layer
  unfolding tx_name cut_dashes cut_first introspect
  resolve_tx_layer s =
      let (ws, name) = tx_name s (cut_dashes s) (cut_first b':' s) in
      introspect tools.catalog ws name

  -- `RowsAffected`
  unfoldable pub exec : Text → List (Value F) → Action F ℕ
  unfolding send
  exec sql args = send world sql args >>= λ r. pure r.number

  unfoldable pub insert_feature : Node → Action F ℕ
  unfolding resolve_tx_layer qi insert_parts insert_sql exec
  insert_feature (node name attrs kids text) = lift (resolve_tx_layer name) >>= λ layer.
      lift (qi layer.table) >>= λ table.
      lift (insert_parts layer 1 kids) >>= λ parts. exec (insert_sql table parts.0 parts.1) parts.2

  unfoldable pub insert_all : Nodes → Action F ℕ
  unfolding insert_feature
  insert_all leaf = pure 0
  insert_all (child n ns) = insert_feature n >>= λ done. insert_all ns >>= λ count. pure (count + 1)

  unfoldable pub do_insert : Node → Action F ℕ
  unfolding insert_all kids_of
  do_insert op = insert_all (kids_of op)

  -- The locks are enforced where the filter compiles with its own numbering.
  unfoldable pub enforce_if : Layer → Text → Result WfsError (Text × List (Value F)) → Action F Unit
  unfolding enforce_locks
  enforce_if layer tx_lock_id (ok (cond, args)) = enforce_locks world layer cond args tx_lock_id
  enforce_if layer tx_lock_id (err e) = pure tt

  -- The assignments and the condition, once the locks let the update pass.
  unfoldable pub update_rows : HttpRequest → Node → Text → Action F ℕ
  unfolding tx_filter_where set_parts update_sql exec kids_of
  update_rows r op table = lift (set_parts 1 (kids_of op)) >>= λ sets.
      lift (tx_filter_where tools r op (length sets.0 + 1)) >>= λ w.
      exec (update_sql table sets.0 w.0) (sets.1 ++ w.1)

  unfoldable pub do_update : HttpRequest → Node → Text → Action F ℕ
  unfolding resolve_tx_layer attr qi enforce_if tx_filter_where update_rows
  do_update r op tx_lock_id = lift (resolve_tx_layer (attr (codes "typeName") op)) >>= λ layer.
      lift (qi layer.table) >>= λ table.
      enforce_if layer tx_lock_id (tx_filter_where tools r op 1) >>= λ done. update_rows r op table

  unfoldable pub do_delete : HttpRequest → Node → Text → Action F ℕ
  unfolding resolve_tx_layer attr qi enforce_locks tx_filter_where delete_sql exec
  do_delete r op tx_lock_id = lift (resolve_tx_layer (attr (codes "typeName") op)) >>= λ layer.
      lift (qi layer.table) >>= λ table. lift (tx_filter_where tools r op 1) >>= λ w.
      enforce_locks world layer w.0 w.1 tx_lock_id >>= λ done. exec (delete_sql table w.0) w.1

  unfoldable pub summary : ℕ → ℕ → ℕ → Text
  unfolding decimal
  summary inserted updated deleted =
      codes
        "<?xml version=\"1.0\" encoding=\"UTF-8\"?>\n<wfs:TransactionResponse xmlns:wfs=\"http://www.opengis.net/wfs\"><wfs:TransactionSummary><wfs:totalInserted>"
      ++ (decimal inserted
          ++ (codes "</wfs:totalInserted><wfs:totalUpdated>"
              ++ (decimal updated
                  ++ (codes "</wfs:totalUpdated><wfs:totalDeleted>"
                      ++ (decimal deleted
                          ++ codes
                              "</wfs:totalDeleted></wfs:TransactionSummary></wfs:TransactionResponse>")))))

  unfoldable pub tx_error : Text → WfsError → Answer
  tx_error locator e = exception (codes "NoApplicableCode") locator e 400

  -- The loop over the operations; elements of another name are passed over.
  unfoldable pub run_operations : HttpRequest → Text → Nodes → ℕ → ℕ → ℕ → Action F Answer
  unfolding do_insert do_update do_delete summary tx_error text_eq
  run_operations r tx_lock_id leaf inserted updated deleted =
      pure (document (codes "text/xml") (summary inserted updated deleted) none)
  run_operations r tx_lock_id (child (node name attrs kids text) ops) inserted updated deleted =
      let op = node name attrs kids text in
      let after_insert =
        λ (n : ℕ). run_operations r tx_lock_id ops (inserted + n) updated deleted in
      let after_update =
        λ (n : ℕ). run_operations r tx_lock_id ops inserted (updated + n) deleted in
      let after_delete =
        λ (n : ℕ). run_operations r tx_lock_id ops inserted updated (deleted + n) in
      let skipped = run_operations r tx_lock_id ops inserted updated deleted in
      if text_eq name (codes "Insert")
      then attempt (tx_error name) (do_insert op) after_insert
      else if text_eq name (codes "Update")
      then attempt (tx_error name) (do_update r op tx_lock_id) after_update
      else if text_eq name (codes "Delete")
      then attempt (tx_error name) (do_delete r op tx_lock_id) after_delete
      else skipped

  unfoldable pub transaction : HttpRequest → Text → Action F Answer
  unfolding decode_body tx_error attr run_operations kids_of
  transaction r body =
      attempt (tx_error []) (lift (decode_body tools body))
        λ root. run_operations r (attr (codes "lockId") root) (kids_of root) 0 0 0
