-- ===== src/Catalog/Intact/Deletions.antt =====
-- services/catalog/internal/store/store.go: the deletion of workspaces, and stores.
use giti.Prelude.{
  ◌≡◌, refl, ap, ◌∙◌, Bool, true, false, not, ◌&&◌, List, Text, text_eq, text_eq_iff, ok, inl, inr,
  Bool-cases, and-eq-true, ◌⊎◌,
}
use giti.Rows.{any_row, drop_rows, update_rows, has_key, same_key, has_pair}
use giti.Rows.Laws.{unique-keep, all_of-keep}
use giti.Rows.Inserts.{
  insert_row-unique, insert_row-all_of, insert_row-any_row, insert_checked-eq, saved-eq,
  affected-eq,
}
use giti.Rows.Updates.{any_row-update_rows, unique-update_rows, all_of-update_rows}
use giti.Rows.Cascade.{all_of-cascade, all_of-cascade_by}
use giti.Rows.Links.{same_pair, same_pair_sym, refers}
use giti.Catalog.Model.{
  Workspace, Store, Resource, Layer, CatalogDb, workspace_name, store_workspace, store_name,
  resource_workspace, resource_store, layer_workspace, layer_name,
}
use giti.Catalog.Stores.{
  without_workspace, delete_workspace, is_store_kind, create_store, is_store, set_store,
  update_store, without_store, delete_store,
}
use giti.Catalog.Layers.{same_resource, in_store}
use giti.Catalog.Intact.{IsCatalog, with_stores}

-- A resource outside a workspace is in a store outside it, and one outside a store in another store.
in_store-workspace :
    (name : Text) (r : Resource) (s : Store)
    → in_store r s ≡ true
    → has_key resource_workspace name r ≡ false
    → has_key store_workspace name s ≡ false
unfolding in_store has_pair has_key
in_store-workspace name r s e other =
    let (ws, st) = and-eq-true (text_eq s.workspace (resource_workspace r)) _ e in
    ap (λ (t : Text). text_eq t name) ((text_eq_iff s.workspace (resource_workspace r)).0 ws)
    ∙ other

in_store-pair :
    (ws name : Text) (r : Resource) (s : Store)
    → in_store r s ≡ true
    → has_pair resource_workspace resource_store ws name r ≡ false
    → has_pair store_workspace store_name ws name s ≡ false
unfolding in_store has_pair
in_store-pair ws name r s e other =
    let (w, n) = and-eq-true (text_eq s.workspace (resource_workspace r)) _ e in
    ap (λ (t : Text). text_eq t ws && text_eq s.name name)
      ((text_eq_iff s.workspace (resource_workspace r)).0 w)
    ∙ ap (λ (t : Text). text_eq (resource_workspace r) ws && text_eq t name)
        ((text_eq_iff s.name (resource_store r)).0 n)
    ∙ other

-- With a workspace go all that refer to it, so that no reference is left without its row.
without_workspace-IsCatalog :
    (name : Text) (db : CatalogDb) → IsCatalog db → IsCatalog (without_workspace name db)
unfolding without_workspace drop_rows
without_workspace-IsCatalog name db h = record {
  workspaces_key =
      unique-keep (same_key workspace_name) (λ (w : Workspace). not (has_key workspace_name name w))
        db.workspaces h.workspaces_key;
  stores_key =
      unique-keep (same_pair store_workspace store_name)
        (λ (s : Store). not (has_key store_workspace name s)) db.stores h.stores_key;
  stores_in =
      all_of-cascade workspace_name store_workspace name db.workspaces db.stores h.stores_in;
  resources_key =
      unique-keep same_resource (λ (r : Resource). not (has_key resource_workspace name r))
        db.resources h.resources_key;
  resources_in =
      all_of-cascade_by in_store (has_key store_workspace name) (has_key resource_workspace name)
        (in_store-workspace name) db.stores db.resources h.resources_in;
  layers_key =
      unique-keep (same_pair layer_workspace layer_name)
        (λ (l : Layer). not (has_key layer_workspace name l)) db.layers h.layers_key;
  layers_in =
      all_of-cascade workspace_name layer_workspace name db.workspaces db.layers h.layers_in;
  styles_key = h.styles_key;
  groups_key = h.groups_key;
}

pub delete_workspace-eq :
    (name : Text) (recurse : Bool) (db db' : CatalogDb)
    → delete_workspace name recurse db ≡ ok db'
    → (db' ≡ without_workspace name db)
      × ((recurse ≡ true) ⊎ (any_row (has_key store_workspace name) db.stores ≡ false))
unfolding delete_workspace
delete_workspace-eq name true db db' e = (
  (affected-eq (any_row (has_key workspace_name name) db.workspaces) (without_workspace name db) db'
      e).1,
  inl refl,
)
delete_workspace-eq name false db db' e =
    elim (Bool-cases (any_row (has_key store_workspace name) db.stores)) [
      | inl stores ↦ cc (rw stores at e)
      | inr empty ↦ (
        (affected-eq (any_row (has_key workspace_name name) db.workspaces)
            (without_workspace name db) db' (rw empty at e)).1,
        inr empty,
      )
    ]

pub delete_workspace-IsCatalog :
    (name : Text) (recurse : Bool) (db db' : CatalogDb)
    → delete_workspace name recurse db ≡ ok db'
    → IsCatalog db
    → IsCatalog db'
delete_workspace-IsCatalog name recurse db db' e h =
    rw (delete_workspace-eq name recurse db db' e).0 (without_workspace-IsCatalog name db h)

pub create_store-IsCatalog :
    (s : Store) (db db' : CatalogDb) → create_store s db ≡ ok db' → IsCatalog db → IsCatalog db'
unfolding create_store refers
create_store-IsCatalog s db db' e h =
    let (rows, (done, same)) =
      saved-eq (λ (rows : List Store). record db { stores = rows }) _ db' e in
    let there = any_row (has_key workspace_name s.workspace) db.workspaces in
    let key = same_pair store_workspace store_name in
    let plain = insert_checked-eq (is_store_kind s.kind) key there s db.stores rows done in
    rw same (
      with_stores db h rows
        (insert_row-unique key (same_pair_sym store_workspace store_name) there s db.stores rows
          h.stores_key plain)
        (insert_row-all_of key
          (λ (x : Store). any_row (has_key workspace_name x.workspace) db.workspaces) there s
          db.stores rows (λ e. e) h.stores_in plain)
        (λ r found.
          insert_row-any_row key (in_store r) there s db.stores rows plain ∙ rw found refl))

pub update_store-IsCatalog :
    (ws name : Text) (s : Store) (db db' : CatalogDb)
    → update_store ws name s db ≡ ok db'
    → IsCatalog db
    → IsCatalog db'
unfolding update_store set_store same_pair in_store has_pair
update_store-IsCatalog ws name s db db' e h =
    let p = is_store ws name s.kind in
    let (found, same) =
      affected-eq (any_row p db.stores)
        (record db { stores = update_rows p (set_store s) db.stores }) db' e in
    rw same (
      with_stores db h (update_rows p (set_store s) db.stores)
        (unique-update_rows p (set_store s) (same_pair store_workspace store_name) (λ x y. refl)
          (λ x y. refl) db.stores h.stores_key)
        (all_of-update_rows p (set_store s)
          (λ (x : Store). any_row (has_key workspace_name x.workspace) db.workspaces) (λ x. refl)
          db.stores h.stores_in)
        (λ r there.
          any_row-update_rows p (set_store s) (in_store r) (λ x e. refl) db.stores ∙ there))

without_store-IsCatalog :
    (ws name : Text) (db : CatalogDb) → IsCatalog db → IsCatalog (without_store ws name db)
unfolding without_store drop_rows
without_store-IsCatalog ws name db h =
    let here = has_pair store_workspace store_name ws name in
    let its = has_pair resource_workspace resource_store ws name in
    record {
      workspaces_key = h.workspaces_key;
      stores_key =
          unique-keep (same_pair store_workspace store_name) (λ (s : Store). not (here s)) db.stores
            h.stores_key;
      stores_in =
          all_of-keep (λ (s : Store). any_row (has_key workspace_name s.workspace) db.workspaces)
            (λ (s : Store). not (here s)) db.stores h.stores_in;
      resources_key =
          unique-keep same_resource (λ (r : Resource). not (its r)) db.resources h.resources_key;
      resources_in =
          all_of-cascade_by in_store here its (in_store-pair ws name) db.stores db.resources
            h.resources_in;
      layers_key = h.layers_key;
      layers_in = h.layers_in;
      styles_key = h.styles_key;
      groups_key = h.groups_key;
    }

pub delete_store-eq :
    (ws name : Text) (recurse : Bool) (db db' : CatalogDb)
    → delete_store ws name recurse db ≡ ok db'
    → (db' ≡ without_store ws name db)
      × ((recurse ≡ true)
          ⊎ (any_row (has_pair resource_workspace resource_store ws name) db.resources ≡ false))
unfolding delete_store
delete_store-eq ws name true db db' e = (
  (affected-eq (any_row (has_pair store_workspace store_name ws name) db.stores)
      (without_store ws name db) db' e).1,
  inl refl,
)
delete_store-eq ws name false db db' e =
    elim (Bool-cases (any_row (has_pair resource_workspace resource_store ws name) db.resources)) [
      | inl used ↦ cc (rw used at e)
      | inr empty ↦ (
        (affected-eq (any_row (has_pair store_workspace store_name ws name) db.stores)
            (without_store ws name db) db' (rw empty at e)).1,
        inr empty,
      )
    ]

pub delete_store-IsCatalog :
    (ws name : Text) (recurse : Bool) (db db' : CatalogDb)
    → delete_store ws name recurse db ≡ ok db'
    → IsCatalog db
    → IsCatalog db'
delete_store-IsCatalog ws name recurse db db' e h =
    rw (delete_store-eq ws name recurse db db' e).0 (without_store-IsCatalog ws name db h)
