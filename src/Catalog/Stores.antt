-- ===== src/Catalog/Stores.antt =====
-- services/catalog/internal/store/store.go: workspaces and stores. A statement is answered; a lost
-- connection is not modelled. `collate` is the order of texts in the database.
use giti.Prelude.{
  Bool, true, ◌&&◌, ◌||◌, List, Text, codes, text_eq, if◌then◌else◌, Result, ok, err,
}
use giti.Rows.{
  unique_violation, foreign_key_violation, StoreError, not_found, conflict, map_err, any_row, keep,
  drop_rows, update_rows, insert_row, insert_checked, has_key, same_key, has_pair, order_by, saved,
  affected, query_row,
}
use giti.Rows.Links.{same_pair, refers}
use giti.Catalog.Model.{
  Workspace, Store, CatalogDb, workspace_name, store_workspace, store_name, resource_workspace,
  resource_store, layer_workspace,
}

unfoldable pub create_workspace : Workspace → CatalogDb → Result StoreError CatalogDb
unfolding insert_row same_key saved
create_workspace w db =
    saved (λ (rows : List Workspace). record db { workspaces = rows })
      (insert_row (same_key workspace_name) true w db.workspaces)

unfoldable pub get_workspace : Text → CatalogDb → Result StoreError Workspace
unfolding query_row keep has_key
get_workspace name db = query_row (keep (has_key workspace_name name) db.workspaces)

-- `SET name=$2, isolated=$3`
unfoldable pub set_workspace : Workspace → Workspace → Workspace
set_workspace w row = record row { name = w.name; isolated = w.isolated }

-- Stores and layers that refer to a workspace keep it from being renamed.
unfoldable pub is_referred : Text → CatalogDb → Bool
unfolding any_row has_key
is_referred name db =
    any_row (has_key store_workspace name) db.stores
    || any_row (has_key layer_workspace name) db.layers

unfoldable pub update_workspace : Text → Workspace → CatalogDb → Result StoreError CatalogDb
unfolding update_rows any_row has_key set_workspace is_referred map_err
update_workspace name w db =
    let updated = record db {
      workspaces = update_rows (has_key workspace_name name) (set_workspace w) db.workspaces;
    } in
    if any_row (has_key workspace_name name) db.workspaces
    then if text_eq w.name name
      then ok updated
      else if any_row (has_key workspace_name w.name) db.workspaces
      then err (map_err unique_violation)
      else if is_referred name db
      then err (map_err foreign_key_violation)
      else ok updated
    else err not_found

-- The stores of a workspace go with it, with them their resources, and its layers.
unfoldable pub without_workspace : Text → CatalogDb → CatalogDb
unfolding drop_rows has_key
without_workspace name db = record db {
  workspaces = drop_rows (has_key workspace_name name) db.workspaces;
  stores = drop_rows (has_key store_workspace name) db.stores;
  resources = drop_rows (has_key resource_workspace name) db.resources;
  layers = drop_rows (has_key layer_workspace name) db.layers;
}

unfoldable pub delete_workspace : Text → Bool → CatalogDb → Result StoreError CatalogDb
unfolding any_row has_key affected without_workspace
delete_workspace name recurse db =
    let deleted =
      affected (any_row (has_key workspace_name name) db.workspaces) (without_workspace name db) in
    if recurse
    then deleted
    else if any_row (has_key store_workspace name) db.stores
    then err conflict
    else deleted

-- CHECK of the column `kind`.
unfoldable pub is_store_kind : Text → Bool
unfolding text_eq
is_store_kind k = text_eq k (codes "datastore") || text_eq k (codes "coveragestore")

unfoldable pub create_store : Store → CatalogDb → Result StoreError CatalogDb
unfolding insert_checked is_store_kind same_pair refers saved
create_store s db =
    saved (λ (rows : List Store). record db { stores = rows })
      (insert_checked (is_store_kind s.kind) (same_pair store_workspace store_name)
        (refers workspace_name db.workspaces s.workspace) s db.stores)

-- A store under its key, of a kind.
unfoldable pub is_store : Text → Text → Text → Store → Bool
unfolding has_pair text_eq
is_store ws name kind s = has_pair store_workspace store_name ws name s && text_eq s.kind kind

unfoldable pub get_store : Text → Text → Text → CatalogDb → Result StoreError Store
unfolding query_row keep is_store
get_store ws name kind db = query_row (keep (is_store ws name kind) db.stores)

-- `SET type=$4, enabled=$5, description=$6, connection=$7`
unfoldable pub set_store : Store → Store → Store
set_store s row = record row {
  type = s.type;
  enabled = s.enabled;
  description = s.description;
  connection = s.connection;
}

unfoldable pub update_store : Text → Text → Store → CatalogDb → Result StoreError CatalogDb
unfolding update_rows any_row is_store set_store affected
update_store ws name s db =
    affected (any_row (is_store ws name s.kind) db.stores)
      (record db { stores = update_rows (is_store ws name s.kind) (set_store s) db.stores })

unfoldable pub without_store : Text → Text → CatalogDb → CatalogDb
unfolding drop_rows has_pair
without_store ws name db = record db {
  stores = drop_rows (has_pair store_workspace store_name ws name) db.stores;
  resources = drop_rows (has_pair resource_workspace resource_store ws name) db.resources;
}

unfoldable pub delete_store : Text → Text → Bool → CatalogDb → Result StoreError CatalogDb
unfolding any_row has_pair affected without_store
delete_store ws name recurse db =
    let deleted =
      affected (any_row (has_pair store_workspace store_name ws name) db.stores)
        (without_store ws name db) in
    if recurse
    then deleted
    else if any_row (has_pair resource_workspace resource_store ws name) db.resources
    then err conflict
    else deleted

-- ORDER BY workspace, name
unfoldable pub pair_precedes :
    {A : Type 0} → (Text → Text → Bool) → (A → Text) → (A → Text) → A → A → Bool
unfolding text_eq
pair_precedes collate left right x y =
    if text_eq (left x) (left y) then collate (right x) (right y) else collate (left x) (left y)

module _ (collate : Text → Text → Bool) where
  unfoldable pub list_workspaces : CatalogDb → List Workspace
  unfolding order_by
  list_workspaces db = order_by (λ (v w : Workspace). collate v.name w.name) db.workspaces

  unfoldable pub list_stores : Text → Text → CatalogDb → List Store
  unfolding order_by keep has_pair
  list_stores ws kind db =
      order_by (λ (s t : Store). collate s.name t.name)
        (keep (has_pair store_workspace (λ (s : Store). s.kind) ws kind) db.stores)

  unfoldable pub list_all_stores : CatalogDb → List Store
  unfolding order_by pair_precedes
  list_all_stores db = order_by (pair_precedes collate store_workspace store_name) db.stores
