-- ===== src/Catalog/Rest/Served/Workspaces.antt =====
-- services/catalog/internal/rest: workspaces.go and stores.go.
use giti.Prelude.{
  ◌≡◌, refl, true, Option, none, some, [], Text, codes, text_eq, ltb, Result, ok, err, inl, inr,
  Bool-cases,
}
use giti.Rows.{StoreError, not_found, conflict, passed}
use giti.Gateway.Http.{HttpRequest}
use giti.Catalog.Model.{Workspace, Store, CatalogDb}
use giti.Catalog.Stores.{create_workspace, update_workspace, create_store, update_store, get_store}
use giti.Catalog.Layers.{}
use giti.Catalog.Styles.{}
use giti.Catalog.Intact.Changes.{
  CatalogChange, creates_workspace, updates_workspace, deletes_workspace, creates_store,
  updates_store, deletes_store,
}
use giti.Catalog.Rest.{Wire, Body, empty_body, reply, Catalog, recurse_of, trim_format}
use giti.Catalog.Rest.Workspaces.{
  workspace_event, create_read, update_read, conclude_deleted, create_valid, create_named,
  update_named, refusal, write_store, list_workspaces_h, create_workspace_h, get_workspace_h,
  update_workspace_h, delete_workspace_h, create_store_h, get_store_h, list_stores_h,
  update_store_h, delete_store_h,
}
use giti.Catalog.Rest.Resources.{}
use giti.Catalog.Rest.Layers.{}
use giti.Catalog.Rest.Styles.{}
use giti.Catalog.Rest.Served.{
  IsServed, unchanged, refuses, answers, conclude-IsServed, show-IsServed, write_two-answered,
  write_payload-answered,
}

create_read-IsServed : (c : Catalog) (m : Result Body Workspace) → IsServed c (create_read c m)
unfolding create_read
create_read-IsServed c (err e) = refuses refl unchanged
create_read-IsServed c (ok w) =
    conclude-IsServed c c.db _ _ [] (create_workspace w c.db) refl unchanged
      (λ db e. creates_workspace w e)

update_read-IsServed :
    (name : Text) (c : Catalog) (m : Result Body Workspace) → IsServed c (update_read name c m)
unfolding update_read
update_read-IsServed name c (err e) = refuses refl unchanged
update_read-IsServed name c (ok w) =
    conclude-IsServed c c.db _ _ [] (update_workspace name w c.db) refl unchanged
      (λ db e. updates_workspace name w e)

conclude_deleted-IsServed :
    (name : Text) (c : Catalog) (m : Result StoreError CatalogDb)
    → ((db : CatalogDb) → m ≡ ok db → CatalogChange c.db db)
    → IsServed c (conclude_deleted name c m)
unfolding conclude_deleted
conclude_deleted-IsServed name c (err conflict) change = refuses refl unchanged
conclude_deleted-IsServed name c (err not_found) change =
    conclude-IsServed c c.db (reply 200 empty_body)
      (workspace_event (codes "catalog.workspace.deleted") name) [] (err not_found) refl unchanged
      change
conclude_deleted-IsServed name c (err (passed e)) change =
    conclude-IsServed c c.db (reply 200 empty_body)
      (workspace_event (codes "catalog.workspace.deleted") name) [] (err (passed e)) refl unchanged
      change
conclude_deleted-IsServed name c (ok db) change =
    conclude-IsServed c c.db _ _ [] (ok db) refl unchanged change

create_valid-IsServed :
    (s : Store) (c : Catalog) (refused : Option Text) → IsServed c (create_valid s c refused)
unfolding create_valid
create_valid-IsServed s c (some e) = refuses refl unchanged
create_valid-IsServed s c none =
    conclude-IsServed c c.db _ _ [] (create_store s c.db) refl unchanged (λ db e. creates_store s e)

create_named-IsServed :
    (w : Wire) (ws : Text) (c : Catalog) (s : Option Store) → IsServed c (create_named w ws c s)
unfolding create_named
create_named-IsServed w ws c none = refuses refl unchanged
create_named-IsServed w ws c (some s) =
    let placed = record s { workspace = ws } in
    elim (Bool-cases (text_eq s.name [])) [
      | inl nameless ↦ rw nameless (refuses refl unchanged)
      | inr named ↦ rw named (create_valid-IsServed placed c (refusal (w.connector s.type) placed))
    ]

update_named-IsServed :
    (ws name : Text) (c : Catalog) (s : Option Store) → IsServed c (update_named ws name c s)
unfolding update_named
update_named-IsServed ws name c none = refuses refl unchanged
update_named-IsServed ws name c (some s) =
    conclude-IsServed c c.db _ _ [] (update_store ws name s c.db) refl unchanged
      (λ db e. updates_store ws name s e)

write_store-answered : (r : HttpRequest) (s : Store) → ltb (write_store r s).status 300 ≡ true
unfolding write_store
write_store-answered r s = elim (Bool-cases (text_eq s.kind (codes "coveragestore"))) [
  | inl is_coverage ↦ rw is_coverage (write_payload-answered r _)
  | inr is_data ↦ rw is_data (write_payload-answered r _)
]

module _ (w : Wire) (r : HttpRequest) (c : Catalog) where
  pub list_workspaces-IsServed : IsServed c (list_workspaces_h w r c, c)
  unfolding list_workspaces_h
  list_workspaces-IsServed = answers (write_two-answered r _ _)

  pub create_workspace-IsServed : IsServed c (create_workspace_h w r c)
  unfolding create_workspace_h
  create_workspace-IsServed = create_read-IsServed c _

  pub get_workspace-IsServed : (ws : Text) → IsServed c (get_workspace_h w r ws c, c)
  unfolding get_workspace_h
  get_workspace-IsServed ws = show-IsServed c _ _ (λ v. write_payload-answered r _)

  pub update_workspace-IsServed : (ws : Text) → IsServed c (update_workspace_h w r ws c)
  unfolding update_workspace_h
  update_workspace-IsServed ws = update_read-IsServed (trim_format ws) c _

  pub delete_workspace-IsServed : (ws : Text) → IsServed c (delete_workspace_h w r ws c)
  unfolding delete_workspace_h
  delete_workspace-IsServed ws =
      conclude_deleted-IsServed (trim_format ws) c _
        (λ db e. deletes_workspace (trim_format ws) (recurse_of r) e)

  pub create_store-IsServed : (kind ws : Text) → IsServed c (create_store_h w r kind ws c)
  unfolding create_store_h
  create_store-IsServed kind ws = create_named-IsServed w ws c _

  pub get_store-IsServed : (kind ws name : Text) → IsServed c (get_store_h w r kind ws name c, c)
  unfolding get_store_h
  get_store-IsServed kind ws name =
      show-IsServed c (write_store r) (get_store ws (trim_format name) kind c.db)
        (write_store-answered r)

  pub list_stores-IsServed : (kind ws : Text) → IsServed c (list_stores_h w r kind ws c, c)
  unfolding list_stores_h
  list_stores-IsServed kind ws = elim (Bool-cases (text_eq kind (codes "coveragestore"))) [
    | inl is_coverage ↦ rw is_coverage (answers (write_payload-answered r _))
    | inr is_data ↦ rw is_data (answers (write_payload-answered r _))
  ]

  pub update_store-IsServed : (kind ws name : Text) → IsServed c (update_store_h w r kind ws name c)
  unfolding update_store_h
  update_store-IsServed kind ws name = update_named-IsServed ws (trim_format name) c _

  pub delete_store-IsServed : (ws name : Text) → IsServed c (delete_store_h w r ws name c)
  unfolding delete_store_h
  delete_store-IsServed ws name =
      conclude-IsServed c c.db _ _ [] _ refl unchanged
        (λ db e. deletes_store ws (trim_format name) (recurse_of r) e)
