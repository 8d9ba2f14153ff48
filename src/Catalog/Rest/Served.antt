-- ===== src/Catalog/Rest/Served.antt =====
-- services/catalog/internal/rest: what a request under /rest leaves of the catalog, and what it publishes.
pub mod Workspaces
pub mod Layers
pub mod Styles
pub mod Requests
use giti.Prelude.{
  ◌≡◌, refl, ap, sym, ℕ, Bool, true, false, Option, none, some, List, [], ◌∷◌, ◌++◌, Text, codes,
  text_eq, leb, ltb, if◌then◌else◌, Result, ok, err, inl, inr, Bool-cases,
}
use giti.Rows.{StoreError, not_found, conflict, passed}
use giti.Gateway.Http.{HttpRequest}
use giti.Catalog.Model.{Workspace, Store, FeatureType, Resource, Layer, Style, CatalogDb}
use giti.Catalog.Stores.{
  create_workspace, update_workspace, delete_workspace, create_store, update_store, delete_store,
  get_workspace, get_store,
}
use giti.Catalog.Layers.{
  create_resource, delete_resource, create_layer, update_layer, delete_layer, get_layer,
  get_resource,
}
use giti.Catalog.Styles.{
  create_style, update_style, delete_style, create_layer_group, delete_layer_group, get_style,
  get_layer_group,
}
use giti.Catalog.Intact.{IsCatalog}
use giti.Catalog.Intact.Changes.{
  CatalogChange, creates_workspace, updates_workspace, deletes_workspace, creates_store,
  updates_store, deletes_store, creates_resource, deletes_resource, creates_layer, updates_layer,
  deletes_layer, creates_style, updates_style, deletes_style, creates_layer_group,
  deletes_layer_group, CatalogChange-IsCatalog,
}
use giti.Catalog.Rest.{
  WorkspaceBody, StoreBody, ResourceBody, StyleBody, GroupBody, Wire, Payload, Body, plain,
  decode_error, Reply, reply, Event, Catalog, http_err, wants_json, write_two, write_payload,
  read_payload, recurse_of, trim_format, trim_suffix, has_suffix, conclude, show,
}
use giti.Catalog.Rest.Workspaces.{
  workspace_of, create_read, update_read, conclude_deleted, store_of, read_store, create_valid,
  create_named, update_named, refusal, write_store, list_workspaces_h, create_workspace_h,
  get_workspace_h, update_workspace_h, delete_workspace_h, create_store_h, get_store_h,
  list_stores_h, update_store_h, delete_store_h,
}
use giti.Catalog.Rest.Resources.{
  ResourceKind, feature_type_kind, coverage_kind, resource_from, chosen_body, layer_of,
  publish_layer, create_from, or_same, delete_named, create_feature_type_h, get_feature_type_h,
  list_feature_types_h, delete_feature_type_h, create_coverage_h, get_coverage_h, delete_coverage_h,
}
use giti.Catalog.Rest.Layers.{
  split_layer, with_style, restyle, update_styled, group_from, create_grouped, get_layer_h,
  list_layers_h, update_layer_h, delete_layer_h, create_layer_group_h, get_layer_group_h,
  delete_layer_group_h,
}
use giti.Catalog.Rest.Styles.{
  is_sld_upload, save_style, upload_style, style_from, describe_style, rewrite, create_style_h,
  get_style_h, list_styles_h, update_style_h, delete_style_h,
}

-- The methods of the store that a request calls, one after the other.
pub data Changed : CatalogDb → CatalogDb → Type 0 where
  unchanged : {db : CatalogDb} → Changed db db
  then_change : {a b c : CatalogDb} → Changed a b → CatalogChange b c → Changed a c

-- A request that changes the catalog and succeeds publishes an event; one that fails publishes none,
-- and one that reads changes nothing.
pub data IsServed (c : Catalog) : Reply × Catalog → Type 0 where
  refuses :
      {r : Reply} {db : CatalogDb}
      → leb 400 r.status ≡ true
      → Changed c.db db
      → IsServed c (r, record c { db = db })
  answers : {r : Reply} → ltb r.status 300 ≡ true → IsServed c (r, c)
  publishes :
      {r : Reply} {db : CatalogDb}
      → ltb r.status 300 ≡ true
      → Changed c.db db
      → (e : Event) (es : List Event)
      → IsServed c (r, record { db = db; events = c.events ++ (e ∷ es) })

Changed-IsCatalog : {db db' : CatalogDb} → Changed db db' → IsCatalog db → IsCatalog db'
Changed-IsCatalog unchanged h = h
Changed-IsCatalog (then_change a b) h = CatalogChange-IsCatalog b (Changed-IsCatalog a h)

pub IsServed-IsCatalog :
    {c : Catalog} {out : Reply × Catalog} → IsServed c out → IsCatalog c.db → IsCatalog out.1.db
IsServed-IsCatalog (refuses e a) h = Changed-IsCatalog a h
IsServed-IsCatalog (answers e) h = h
IsServed-IsCatalog (publishes e a _ _) h = Changed-IsCatalog a h

pub http_err-refused : (e : StoreError) → leb 400 (http_err e).status ≡ true
unfolding http_err
http_err-refused not_found = refl
http_err-refused conflict = refl
http_err-refused (passed e) = refl

-- The last method of a request.
pub conclude-IsServed :
    (c : Catalog) (db : CatalogDb) (done : Reply) (e : Event) (es : List Event)
    (m : Result StoreError CatalogDb)
    → ltb done.status 300 ≡ true
    → Changed c.db db
    → ((db' : CatalogDb) → m ≡ ok db' → CatalogChange db db')
    → IsServed c (conclude done (e ∷ es) (record c { db = db }) m)
unfolding conclude
conclude-IsServed c db done e es (ok db') h before change =
    publishes h (then_change before (change db' refl)) e es
conclude-IsServed c db done e es (err x) h before change = refuses (http_err-refused x) before

pub show-IsServed :
    {A : Type 0} (c : Catalog) (f : A → Reply) (m : Result StoreError A)
    → ((a : A) → ltb (f a).status 300 ≡ true)
    → IsServed c (show f m, c)
unfolding show
show-IsServed c f (ok a) h = answers (h a)
show-IsServed c f (err e) h = refuses (http_err-refused e) unchanged

pub write_two-answered : (r : HttpRequest) (x j : Payload) → ltb (write_two r x j).status 300 ≡ true
unfolding write_two
write_two-answered r x j = elim (Bool-cases (wants_json r)) [
  | inl as_json ↦ rw as_json refl
  | inr as_xml ↦ rw as_xml refl
]

pub write_payload-answered :
    (r : HttpRequest) (p : Payload) → ltb (write_payload r p).status 300 ≡ true
unfolding write_payload
write_payload-answered r p = write_two-answered r p p
