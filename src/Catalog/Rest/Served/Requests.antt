-- ===== src/Catalog/Rest/Served/Requests.antt =====
-- services/catalog/internal/rest: any request under /rest, and the requests that publish a resource.
use giti.Prelude.{
  ◌≡◌, refl, ap, ◌∙◌, ℕ, Bool, true, false, some, List, [], ◌∷◌, ◌++◌, Text, text_eq, ◌==◌, leb,
  not, all_of, Result, ok, err, inl, inr, Bool-cases, arith, and-eq-true,
}
use giti.Rows.{StoreError, any_row, insert_row}
use giti.Rows.Laws.{text_eq_refl}
use giti.Rows.Inserts.{saved-eq, insert_row-any_row, insert_checked-eq}
use giti.Rows.Links.{same_pair, refers}
use giti.Gateway.Http.{HttpRequest}
use giti.Auth.Check.{cut_colon, prepend}
use giti.Catalog.Model.{
  FeatureType, Resource, Layer, CatalogDb, workspace_name, layer_workspace, layer_name,
  resource_workspace, resource_store, resource_name,
}
use giti.Catalog.Layers.{same_resource, in_store, create_resource, create_layer, is_layer_type}
use giti.Catalog.Intact.{IsCatalog}
use giti.Catalog.Rest.{ResourceBody, Wire, Reply, Catalog, Event, http_err, conclude, trim_format}
use giti.Catalog.Rest.Resources.{
  ResourceKind, resource_from, chosen_body, layer_of, publish_layer, create_from,
}
use giti.Catalog.Rest.Layers.{split_at, split_layer, qualified_name}
use giti.Catalog.Rest.Routes.{
  Route, get_workspaces, post_workspaces, get_workspace_at, put_workspace_at, delete_workspace_at,
  get_stores, post_stores, get_store_at, put_store_at, delete_store_at, post_feature_types,
  get_feature_types, get_feature_type_at, delete_feature_type_at, post_coverages, get_coverage_at,
  delete_coverage_at, get_layers, get_layer_at, put_layer_at, delete_layer_at, post_styles,
  get_styles, get_style_at, put_style_at, delete_style_at, post_groups, get_group_at,
  delete_group_at, handle,
}
use giti.Catalog.Rest.Served.{IsServed, IsServed-IsCatalog, http_err-refused}
use giti.Catalog.Rest.Served.Workspaces.{
  list_workspaces-IsServed, create_workspace-IsServed, get_workspace-IsServed,
  update_workspace-IsServed, delete_workspace-IsServed, create_store-IsServed, get_store-IsServed,
  list_stores-IsServed, update_store-IsServed, delete_store-IsServed,
}
use giti.Catalog.Rest.Served.Layers.{
  create_feature_type-IsServed, get_feature_type-IsServed, list_feature_types-IsServed,
  delete_feature_type-IsServed, create_coverage-IsServed, get_coverage-IsServed,
  delete_coverage-IsServed, get_layer-IsServed, list_layers-IsServed, update_layer-IsServed,
  delete_layer-IsServed, create_layer_group-IsServed, get_layer_group-IsServed,
  delete_layer_group-IsServed,
}
use giti.Catalog.Rest.Served.Styles.{
  create_style-IsServed, get_style-IsServed, list_styles-IsServed, update_style-IsServed,
  delete_style-IsServed,
}

-- Every request of a pattern under /rest, for workspaces, stores, feature types, coverages, layers,
-- styles and layer groups (those of workspaceRoutes, storeRoutes and layerRoutes, not the routes
-- under /api/v1, which change the same tables): one that succeeds with a status below 300 changes nothing or publishes an event, one
-- that fails with a status from 400 on publishes none, and what either changed it changed by methods
-- of the store.
pub handle-IsServed :
    (w : Wire) (r : HttpRequest) (route : Route) (c : Catalog) → IsServed c (handle w r route c)
unfolding handle
handle-IsServed w r get_workspaces c = list_workspaces-IsServed w r c
handle-IsServed w r post_workspaces c = create_workspace-IsServed w r c
handle-IsServed w r (get_workspace_at ws) c = get_workspace-IsServed w r c ws
handle-IsServed w r (put_workspace_at ws) c = update_workspace-IsServed w r c ws
handle-IsServed w r (delete_workspace_at ws) c = delete_workspace-IsServed w r c ws
handle-IsServed w r (get_stores kind ws) c = list_stores-IsServed w r c kind ws
handle-IsServed w r (post_stores kind ws) c = create_store-IsServed w r c kind ws
handle-IsServed w r (get_store_at kind ws name) c = get_store-IsServed w r c kind ws name
handle-IsServed w r (put_store_at kind ws name) c = update_store-IsServed w r c kind ws name
handle-IsServed w r (delete_store_at kind ws name) c = delete_store-IsServed w r c ws name
handle-IsServed w r (post_feature_types ws ds) c = create_feature_type-IsServed w r c ws ds
handle-IsServed w r (get_feature_types ws ds) c = list_feature_types-IsServed w r c ws ds
handle-IsServed w r (get_feature_type_at ws ds ft) c = get_feature_type-IsServed w r c ws ds ft
handle-IsServed w r (delete_feature_type_at ws ds ft) c =
    delete_feature_type-IsServed w r c ws ds ft
handle-IsServed w r (post_coverages ws cs) c = create_coverage-IsServed w r c ws cs
handle-IsServed w r (get_coverage_at ws cs v) c = get_coverage-IsServed w r c ws cs v
handle-IsServed w r (delete_coverage_at ws cs v) c = delete_coverage-IsServed w r c ws cs v
handle-IsServed w r get_layers c = list_layers-IsServed w r c
handle-IsServed w r (get_layer_at layer) c = get_layer-IsServed w r c layer
handle-IsServed w r (put_layer_at layer) c = update_layer-IsServed w r c layer
handle-IsServed w r (delete_layer_at layer) c = delete_layer-IsServed w r c layer
handle-IsServed w r (post_styles ws) c = create_style-IsServed w r c ws
handle-IsServed w r get_styles c = list_styles-IsServed w r c []
handle-IsServed w r (get_style_at ws s) c = get_style-IsServed w r c ws s
handle-IsServed w r (put_style_at s) c = update_style-IsServed w r c [] s
handle-IsServed w r (delete_style_at s) c = delete_style-IsServed w r c [] s
handle-IsServed w r (post_groups ws) c = create_layer_group-IsServed w r c ws
handle-IsServed w r (get_group_at ws lg) c = get_layer_group-IsServed w r c ws lg
handle-IsServed w r (delete_group_at ws lg) c = delete_layer_group-IsServed w r c ws lg

-- The keys and references of the catalog hold after every request.
pub handle-IsCatalog :
    (w : Wire) (r : HttpRequest) (route : Route) (c : Catalog)
    → IsCatalog c.db
    → IsCatalog (handle w r route c).1.db
handle-IsCatalog w r route c h = IsServed-IsCatalog (handle-IsServed w r route c) h

resource_there :
    (r : Resource) (db db' : CatalogDb)
    → create_resource r db ≡ ok db'
    → any_row (same_resource r) db'.resources ≡ true
unfolding create_resource same_resource same_pair
resource_there r db db' e =
    let (rows, (done, same)) =
      saved-eq (λ (rows : List Resource). record db { resources = rows })
        (insert_row same_resource (any_row (in_store r) db.stores) r db.resources) db' e in
    rw same (
      insert_row-any_row same_resource (same_resource r) (any_row (in_store r) db.stores) r
        db.resources rows done
      ∙ rw
          (
            text_eq_refl (resource_workspace r),
            text_eq_refl (resource_store r),
            text_eq_refl (resource_name r),
          )
          (ground arith))

-- What the success of a publication leaves.
pub record IsPublished (k : ResourceKind) (ft : FeatureType) (c' : Catalog) : Type 0 where
  pub resource :
      any_row (same_resource record { kind = k.kind; columns = ft }) c'.db.resources ≡ true
  pub layer : any_row (same_pair layer_workspace layer_name (layer_of k ft)) c'.db.layers ≡ true

layer_there :
    (l : Layer) (db db' : CatalogDb)
    → create_layer l db ≡ ok db'
    → (any_row (same_pair layer_workspace layer_name l) db'.layers ≡ true)
      × (db'.resources ≡ db.resources)
unfolding create_layer same_pair
layer_there l db db' e =
    let there = refers workspace_name db.workspaces l.workspace in
    let key = same_pair layer_workspace layer_name in
    let (rows, (done, same)) =
      saved-eq (λ (rows : List Layer). record db { layers = rows }) _ db' e in
    let plain = insert_checked-eq (is_layer_type l.type) key there l db.layers rows done in
    rw same (
      insert_row-any_row key (key l) there l db.layers rows plain
          ∙ rw (text_eq_refl l.workspace, text_eq_refl l.name) (ground arith),
      refl,
    )

-- A status of an error is not 201.
refused-created : {A : Type 0} (status : ℕ) → leb 400 status ≡ true → status ≡ 201 → A
refused-created status h e = let low : leb 400 status ≡ false = ap (leb 400) e in cc (low, h)

concluded :
    (k : ResourceKind) (ft : FeatureType) (c : Catalog) (db : CatalogDb)
    → any_row (same_resource record { kind = k.kind; columns = ft }) db.resources ≡ true
    → (done : Reply) (es : List Event) (m : Result StoreError CatalogDb)
    → create_layer (layer_of k ft) db ≡ m
    → (conclude done es (record c { db = db }) m).0.status ≡ 201
    → IsPublished k ft (conclude done es (record c { db = db }) m).1
unfolding conclude
concluded k ft c db there done es (err e) made h =
    refused-created (http_err e).status (http_err-refused e) h
concluded k ft c db there done es (ok db') made h =
    let (layer, kept) = layer_there (layer_of k ft) db db' made in
    record {
      resource = ap (any_row (same_resource record { kind = k.kind; columns = ft })) kept ∙ there;
      layer = layer;
    }

publish_layer-IsPublished :
    (k : ResourceKind) (ft : FeatureType) (c : Catalog) (m : Result StoreError CatalogDb)
    → ((db : CatalogDb)
        → m ≡ ok db
        → any_row (same_resource record { kind = k.kind; columns = ft }) db.resources ≡ true)
    → (publish_layer k ft c m).0.status ≡ 201
    → IsPublished k ft (publish_layer k ft c m).1
unfolding publish_layer
publish_layer-IsPublished k ft c (err e) there h =
    refused-created (http_err e).status (http_err-refused e) h
publish_layer-IsPublished k ft c (ok db) there h =
    concluded k ft c db (there db refl) _ _ (create_layer (layer_of k ft) db) refl h

-- A feature type or coverage whose creation is answered with 201 is in the catalog under its store,
-- and so is the layer of its name.
pub create_from-IsPublished :
    (k : ResourceKind) (ws st : Text) (c : Catalog) (b : ResourceBody × ResourceBody)
    → (create_from k ws st c (some b)).0.status ≡ 201
    → IsPublished k (resource_from ws st (chosen_body b)) (create_from k ws st c (some b)).1
unfolding create_from
create_from-IsPublished k ws st c b h =
    let ft = resource_from ws st (chosen_body b) in
    elim (Bool-cases (text_eq ft.name [])) [
      | inl nameless ↦ refused-created 400 refl (rw nameless at h)
      | inr named ↦ rw named (
          publish_layer-IsPublished k ft c
            (create_resource (record { kind = k.kind; columns = ft }) c.db)
            (λ db e. resource_there (record { kind = k.kind; columns = ft }) c.db db e)
            (rw named at h))
    ]

-- A byte that is no colon.
unfoldable pub is_plain_byte : ℕ → Bool
is_plain_byte c = not (c == b':')

cut_colon-append :
    (ws name : Text)
    → all_of is_plain_byte ws ≡ true
    → cut_colon (ws ++ (b':' ∷ name)) ≡ some (ws, name)
unfolding cut_colon prepend is_plain_byte
cut_colon-append [] name h = refl
cut_colon-append (c ∷ ws) name h =
    let (here, rest) = and-eq-true (not (c == b':')) (all_of is_plain_byte ws) h in
    let other : (c == b':') ≡ false = ground (arith, here) in
    rw (other, cut_colon-append ws name rest) refl

-- The name under which a layer is listed leads back to its workspace and its name, where the
-- workspace has a name without a colon and the layer's name does not end in .json or .xml.
pub split_layer-qualified_name :
    (l : Layer)
    → text_eq l.workspace [] ≡ false
    → all_of is_plain_byte l.workspace ≡ true
    → trim_format (qualified_name l) ≡ qualified_name l
    → split_layer (qualified_name l) ≡ (l.workspace, l.name)
unfolding split_layer split_at qualified_name
split_layer-qualified_name l named plain whole =
    let spelled : qualified_name l ≡ l.workspace ++ (b':' ∷ l.name) = rw named refl in
    ap (λ (t : Text). split_at t (cut_colon t)) (whole ∙ spelled)
    ∙ rw (cut_colon-append l.workspace l.name plain) refl
