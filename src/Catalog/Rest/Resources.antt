-- ===== src/Catalog/Rest/Resources.antt =====
-- services/catalog/internal/rest/layers.go: feature types and coverages, whose handlers differ in the
-- words of `ResourceKind`; `create_resource` and `delete_resource` are the methods of either kind.
use giti.Prelude.{
  Bool, true, Option, none, some, [], ◌∷◌, map, Text, codes, text_eq, if◌then◌else◌, Result, ok,
  err,
}
use giti.Rows.{StoreError}
use giti.Gateway.Http.{HttpRequest}
use giti.Catalog.Model.{FeatureType, Layer, CatalogDb}
use giti.Catalog.Layers.{
  featuretype, coverage, create_resource, get_feature_type, get_coverage, delete_resource,
  create_layer, delete_layer, list_feature_types,
}
use giti.Catalog.Rest.{
  ResourceBody, Wire, names, feature_type_doc, coverage_doc, empty_body, plain, decode_error, Reply,
  reply, Catalog, http_err, trim_format, write_payload, read_payload, recurse_of, conclude, show,
  in_workspace,
}

-- The kind of the resource, the type and the style of its layer, and what is said and published.
pub record ResourceKind : Type 0 where
  pub kind : Text
  pub layer_type : Text
  pub default_style : Text
  pub required : Text
  pub created : Text
  pub deleted : Text

abbrev pub feature_type_kind : ResourceKind
feature_type_kind = record {
  kind = featuretype;
  layer_type = codes "VECTOR";
  default_style = codes "generic";
  required = codes "featureType name required";
  created = codes "catalog.featuretype.created";
  deleted = codes "catalog.featuretype.deleted";
}

abbrev pub coverage_kind : ResourceKind
coverage_kind = record {
  kind = coverage;
  layer_type = codes "RASTER";
  default_style = codes "raster";
  required = codes "coverage name required";
  created = codes "catalog.coverage.created";
  deleted = codes "catalog.coverage.deleted";
}

-- `if s == "" { s = other }`
unfoldable pub or_else : Text → Text → Text
or_else [] other = other
or_else (c ∷ s) other = c ∷ s

-- The JSON body is taken where it has a name.
unfoldable pub resource_from : Text → Text → ResourceBody → FeatureType
unfolding or_else
resource_from ws st b = record {
  name = b.name;
  native_name = or_else b.native_name b.name;
  workspace = ws;
  store = st;
  title = b.title;
  srs = or_else b.srs (codes "EPSG:4326");
  enabled = b.enabled;
}

unfoldable pub chosen_body : ResourceBody × ResourceBody → ResourceBody
unfolding text_eq
chosen_body (x, j) = if text_eq j.name [] then x else j

-- The layer that is published for a resource.
unfoldable pub layer_of : ResourceKind → FeatureType → Layer
layer_of k ft = record {
  name = ft.name;
  workspace = ft.workspace;
  type = k.layer_type;
  resource_name = ft.name;
  default_style = k.default_style;
  enabled = true;
}

-- The second statement. Where it fails the resource stays, without an event.
unfoldable pub publish_layer :
    ResourceKind → FeatureType → Catalog → Result StoreError CatalogDb → Reply × Catalog
unfolding create_layer layer_of conclude http_err
publish_layer k ft c (err e) = (http_err e, c)
publish_layer k ft c (ok db) =
    conclude (reply 201 (plain ft.name))
      (in_workspace k.created ft.name ft.workspace
        ∷ in_workspace (codes "catalog.layer.created") ft.name ft.workspace
        ∷ [])
      (record c { db = db }) (create_layer (layer_of k ft) db)

unfoldable pub create_from :
    ResourceKind → Text → Text → Catalog → Option (ResourceBody × ResourceBody) → Reply × Catalog
unfolding publish_layer create_resource resource_from chosen_body text_eq
create_from k ws st c none = (reply 400 decode_error, c)
create_from k ws st c (some b) =
    let ft = resource_from ws st (chosen_body b) in
    if text_eq ft.name []
    then (reply 400 (plain k.required), c)
    else publish_layer k ft c (create_resource (record { kind = k.kind; columns = ft }) c.db)

-- What DeleteLayer leaves, whose error is not looked at.
unfoldable pub or_same : CatalogDb → Result StoreError CatalogDb → CatalogDb
or_same db (ok db') = db'
or_same db (err e) = db

unfoldable pub delete_named : ResourceKind → Text → Text → Text → Bool → Catalog → Reply × Catalog
unfolding delete_resource delete_layer conclude or_same
delete_named k ws st name recurse c =
    let kept = if recurse then or_same c.db (delete_layer ws name c.db) else c.db in
    conclude (reply 200 empty_body) (in_workspace k.deleted name ws ∷ []) (record c { db = kept })
      (delete_resource k.kind ws st name kept)

module _ (w : Wire) (r : HttpRequest) where
  unfoldable pub create_feature_type_h : Text → Text → Catalog → Reply × Catalog
  unfolding create_from read_payload
  create_feature_type_h ws ds c =
      create_from feature_type_kind ws ds c (read_payload w.feature_type r)

  unfoldable pub get_feature_type_h : Text → Text → Text → Catalog → Reply
  unfolding get_feature_type trim_format show write_payload
  get_feature_type_h ws ds name c =
      show (λ (ft : FeatureType). write_payload r (feature_type_doc ft))
        (get_feature_type ws ds (trim_format name) c.db)

  unfoldable pub list_feature_types_h : Text → Text → Catalog → Reply
  unfolding list_feature_types trim_format write_payload
  list_feature_types_h ws ds c = write_payload r (
      names (codes "featureTypes") (codes "featureType") (
        map (λ (ft : FeatureType). ft.name)
          (list_feature_types w.collate ws (trim_format ds) c.db)))

  unfoldable pub delete_feature_type_h : Text → Text → Text → Catalog → Reply × Catalog
  unfolding delete_named recurse_of trim_format
  delete_feature_type_h ws ds name c =
      delete_named feature_type_kind ws ds (trim_format name) (recurse_of r) c

  unfoldable pub create_coverage_h : Text → Text → Catalog → Reply × Catalog
  unfolding create_from read_payload
  create_coverage_h ws cs c = create_from coverage_kind ws cs c (read_payload w.coverage r)

  unfoldable pub get_coverage_h : Text → Text → Text → Catalog → Reply
  unfolding get_coverage trim_format show write_payload
  get_coverage_h ws cs name c =
      show (λ (v : FeatureType). write_payload r (coverage_doc v))
        (get_coverage ws cs (trim_format name) c.db)

  unfoldable pub delete_coverage_h : Text → Text → Text → Catalog → Reply × Catalog
  unfolding delete_named recurse_of trim_format
  delete_coverage_h ws cs name c =
      delete_named coverage_kind ws cs (trim_format name) (recurse_of r) c
