-- ===== src/Catalog/Rest/Workspaces.antt =====
-- services/catalog/internal/rest: workspaces.go and stores.go.
use giti.Prelude.{
  Option, none, some, List, [], ◌∷◌, ◌++◌, map, Text, codes, text_eq, if◌then◌else◌, Result, ok,
  err,
}
use giti.Rows.{StoreError, conflict}
use giti.Ows.Request.{Table, put, find}
use giti.Gateway.Http.{HttpRequest}
use giti.Catalog.Model.{Workspace, Store, CatalogDb}
use giti.Catalog.Stores.{
  create_workspace, get_workspace, update_workspace, delete_workspace, create_store, get_store,
  update_store, delete_store, list_workspaces, list_stores,
}
use giti.Catalog.Rest.{
  WorkspaceBody, StoreBody, Wire, names, workspaces_xml, workspace_doc, data_store_doc,
  coverage_store_doc, Body, empty_body, plain, decode_error, Reply, reply, Event, Catalog,
  trim_format, write_two, write_payload, read_payload, recurse_of, conclude, show, in_workspace,
}

abbrev pub workspace_event : Text → Text → Event
workspace_event subject name = record { subject = subject; name = name; workspace = none }

-- The workspace of a request; the error's text is that of the decoder, or the one for a missing name.
unfoldable pub workspace_of : Option (WorkspaceBody × WorkspaceBody) → Result Body Workspace
unfolding text_eq
workspace_of none = err decode_error
workspace_of (some (x, j)) =
    if text_eq j.name []
    then if text_eq x.name []
      then err (plain (codes "workspace name required"))
      else ok record { name = x.name; isolated = x.isolated; namespace_uri = [] }
    else ok record { name = j.name; isolated = j.isolated; namespace_uri = [] }

unfoldable pub create_read : Catalog → Result Body Workspace → Reply × Catalog
unfolding create_workspace conclude
create_read c (err e) = (reply 400 e, c)
create_read c (ok w) =
    conclude (reply 201 (plain w.name))
      (workspace_event (codes "catalog.workspace.created") w.name ∷ []) c (create_workspace w c.db)

unfoldable pub update_read : Text → Catalog → Result Body Workspace → Reply × Catalog
unfolding update_workspace conclude
update_read name c (err e) = (reply 400 e, c)
update_read name c (ok w) =
    conclude (reply 200 empty_body)
      (workspace_event (codes "catalog.workspace.updated") w.name ∷ []) c
      (update_workspace name w c.db)

-- A workspace that is not empty is answered with a status of its own.
unfoldable pub conclude_deleted : Text → Catalog → Result StoreError CatalogDb → Reply × Catalog
unfolding conclude
conclude_deleted name c (err conflict) = (reply 403 (plain (codes "workspace not empty")), c)
conclude_deleted name c m =
    conclude (reply 200 empty_body) (workspace_event (codes "catalog.workspace.deleted") name ∷ [])
      c m

abbrev pub datastore : Text
datastore = codes "datastore"

-- The loop over the connection parameters.
unfoldable pub connection_of : Table Text → List (Text × Text) → Table Text
unfolding put
connection_of m [] = m
connection_of m ((k, v) ∷ es) = connection_of (put k v m) es

unfoldable pub store_from : Text → StoreBody → Store
unfolding connection_of text_eq
store_from kind b = record {
  name = b.name;
  workspace = [];
  kind = kind;
  type = b.type;
  enabled = b.enabled;
  description = b.description;
  connection =
      if text_eq kind datastore then connection_of [] b.params else (codes "url", b.url) ∷ [];
}

-- Where the JSON has no name, the XML is taken, also if it was not read.
unfoldable pub store_of : Text → Option (StoreBody × StoreBody) → Option Store
unfolding store_from text_eq
store_of kind none = none
store_of kind (some (x, j)) =
    if text_eq j.name [] then some (store_from kind x) else some (store_from kind j)

unfoldable pub read_store : Wire → Text → HttpRequest → Option Store
unfolding store_of read_payload text_eq
read_store w kind r =
    if text_eq kind datastore
    then store_of kind (read_payload w.data_store r)
    else store_of kind (read_payload w.coverage_store r)

-- What the connector of the type says, where there is one.
unfoldable pub refusal : Option (Store → Option Text) → Store → Option Text
refusal none s = none
refusal (some validate) s = validate s

unfoldable pub create_valid : Store → Catalog → Option Text → Reply × Catalog
unfolding create_store conclude
create_valid s c (some e) = (reply 400 (plain (codes "store validation failed: " ++ e)), c)
create_valid s c none =
    conclude (reply 201 (plain s.name))
      (in_workspace (codes "catalog.store.created") s.name s.workspace ∷ []) c (create_store s c.db)

unfoldable pub create_named : Wire → Text → Catalog → Option Store → Reply × Catalog
unfolding create_valid refusal text_eq
create_named w ws c none = (reply 400 (plain (codes "invalid store body")), c)
create_named w ws c (some s) =
    let placed = record s { workspace = ws } in
    if text_eq s.name []
    then (reply 400 (plain (codes "invalid store body")), c)
    else create_valid placed c (refusal (w.connector s.type) placed)

unfoldable pub update_named : Text → Text → Catalog → Option Store → Reply × Catalog
unfolding update_store conclude
update_named ws name c none = (reply 400 decode_error, c)
update_named ws name c (some s) =
    conclude (reply 200 empty_body) (in_workspace (codes "catalog.store.updated") name ws ∷ []) c
      (update_store ws name s c.db)

-- `st.Connection["url"]`
unfoldable pub url_of : Option Text → Text
url_of none = []
url_of (some u) = u

unfoldable pub write_store : HttpRequest → Store → Reply
unfolding write_payload url_of find text_eq
write_store r s =
    if text_eq s.kind (codes "coveragestore")
    then write_payload r (coverage_store_doc s (url_of (find (codes "url") s.connection)))
    else write_payload r (data_store_doc s)

module _ (w : Wire) (r : HttpRequest) where
  unfoldable pub list_workspaces_h : Catalog → Reply
  unfolding list_workspaces write_two
  list_workspaces_h c =
      let list = list_workspaces w.collate c.db in
      write_two r (workspaces_xml list)
        (names (codes "workspaces") (codes "workspace") (map (λ (v : Workspace). v.name) list))

  unfoldable pub create_workspace_h : Catalog → Reply × Catalog
  unfolding create_read workspace_of read_payload
  create_workspace_h c = create_read c (workspace_of (read_payload w.workspace r))

  unfoldable pub get_workspace_h : Text → Catalog → Reply
  unfolding get_workspace trim_format show write_payload
  get_workspace_h ws c =
      show (λ (v : Workspace). write_payload r (workspace_doc v))
        (get_workspace (trim_format ws) c.db)

  unfoldable pub update_workspace_h : Text → Catalog → Reply × Catalog
  unfolding update_read workspace_of read_payload trim_format
  update_workspace_h ws c =
      update_read (trim_format ws) c (workspace_of (read_payload w.workspace r))

  unfoldable pub delete_workspace_h : Text → Catalog → Reply × Catalog
  unfolding delete_workspace conclude_deleted recurse_of trim_format
  delete_workspace_h ws c =
      conclude_deleted (trim_format ws) c (delete_workspace (trim_format ws) (recurse_of r) c.db)

  unfoldable pub create_store_h : Text → Text → Catalog → Reply × Catalog
  unfolding create_named read_store
  create_store_h kind ws c = create_named w ws c (read_store w kind r)

  unfoldable pub get_store_h : Text → Text → Text → Catalog → Reply
  unfolding get_store trim_format show write_store
  get_store_h kind ws name c = show (write_store r) (get_store ws (trim_format name) kind c.db)

  unfoldable pub list_stores_h : Text → Text → Catalog → Reply
  unfolding list_stores trim_format write_payload text_eq
  list_stores_h kind ws c =
      let list = map (λ (s : Store). s.name) (list_stores w.collate (trim_format ws) kind c.db) in
      if text_eq kind (codes "coveragestore")
      then write_payload r (names (codes "coverageStores") (codes "coverageStore") list)
      else write_payload r (names (codes "dataStores") (codes "dataStore") list)

  unfoldable pub update_store_h : Text → Text → Text → Catalog → Reply × Catalog
  unfolding update_named read_store trim_format
  update_store_h kind ws name c = update_named ws (trim_format name) c (read_store w kind r)

  -- The same for data stores and coverage stores.
  unfoldable pub delete_store_h : Text → Text → Catalog → Reply × Catalog
  unfolding delete_store conclude recurse_of trim_format
  delete_store_h ws name c =
      conclude (reply 200 empty_body)
        (in_workspace (codes "catalog.store.deleted") (trim_format name) ws ∷ []) c
        (delete_store ws (trim_format name) (recurse_of r) c.db)
