-- ===== src/Catalog/Tests.antt =====
-- The catalog with two workspaces.
use giti.Prelude.{
  ◌≡◌, refl, Bool, true, false, none, some, [], ◌∷◌, Text, codes, ltb, ◌==◌, if◌then◌else◌, text_eq,
  ok,
}
use giti.Rows.{
  any_row, keep, drop_rows, unique, insert_row, insert_checked, has_key, same_key, has_pair, saved,
  affected,
}
use giti.Rows.Links.{same_pair, refers}
use giti.Gateway.Http.{HttpRequest}
use giti.Catalog.Model.{FeatureType, CatalogDb}
use giti.Catalog.Stores.{delete_workspace, without_workspace}
use giti.Catalog.Layers.{same_resource, in_store, create_resource, create_layer, is_layer_type}
use giti.Catalog.Intact.{IsCatalog}
use giti.Catalog.Intact.Changes.{deletes_workspace, CatalogChange-IsCatalog}
use giti.Catalog.Intact.Removed.{IsGone, delete_workspace-IsGone, delete_workspace-kept}
use giti.Catalog.Rest.{Codec, ResourceBody, Wire, Catalog, conclude, http_err}
use giti.Catalog.Rest.Resources.{
  feature_type_kind, or_else, resource_from, chosen_body, layer_of, publish_layer, create_from,
}
use giti.Catalog.Rest.Routes.{delete_workspace_at, handle}
use giti.Catalog.Rest.Served.{IsServed}
use giti.Catalog.Rest.Served.Requests.{IsPublished, handle-IsServed, create_from-IsPublished}

abbrev before : Text → Text → Bool
before [] t = true
before (x ∷ s) [] = false
before (x ∷ s) (y ∷ t) = let rest = before s t in if x == y then rest else ltb x y

abbrev roads : FeatureType
roads = record {
  name = codes "roads";
  native_name = codes "roads";
  workspace = codes "city";
  store = codes "pg";
  title = [];
  srs = codes "EPSG:4326";
  enabled = true;
}

abbrev small : CatalogDb
small = record {
  workspaces =
      record { name = codes "city"; isolated = false; namespace_uri = [] }
      ∷ record { name = codes "empty"; isolated = false; namespace_uri = [] }
      ∷ [];
  stores =
      record {
        name = codes "pg";
        workspace = codes "city";
        kind = codes "datastore";
        type = codes "PostGIS";
        enabled = true;
        description = [];
        connection = [];
      }
      ∷ [];
  resources = record { kind = codes "featuretype"; columns = roads } ∷ [];
  layers =
      record {
        name = codes "roads";
        workspace = codes "city";
        type = codes "VECTOR";
        resource_name = codes "roads";
        default_style = codes "generic";
        enabled = true;
      }
      ∷ [];
  styles = [];
  layer_groups = [];
}

abbrev without_city : CatalogDb
without_city = record {
  workspaces = record { name = codes "empty"; isolated = false; namespace_uri = [] } ∷ [];
  stores = [];
  resources = [];
  layers = [];
  styles = [];
  layer_groups = [];
}

abbrev without_empty : CatalogDb
without_empty = record small {
  workspaces = record { name = codes "city"; isolated = false; namespace_uri = [] } ∷ [];
}

small-IsCatalog : IsCatalog small
unfolding unique any_row has_key same_key same_pair same_resource in_store has_pair text_eq
small-IsCatalog = record {
  workspaces_key = refl;
  stores_key = refl;
  stores_in = refl;
  resources_key = refl;
  resources_in = refl;
  layers_key = refl;
  layers_in = refl;
  styles_key = refl;
  groups_key = refl;
}

city-deleted : delete_workspace (codes "city") true small ≡ ok without_city
unfolding delete_workspace without_workspace affected any_row has_key drop_rows keep text_eq
city-deleted = refl

empty-deleted : delete_workspace (codes "empty") false small ≡ ok without_empty
unfolding delete_workspace without_workspace affected any_row has_key drop_rows keep text_eq
empty-deleted = refl

abbrev unread : {X : Type 0} → X → Codec X
unread x = record { zero_value = x; from_xml = λ t. none; from_json = λ t. none }

abbrev no_resource : ResourceBody
no_resource = record { name = []; native_name = []; title = []; srs = []; enabled = false }

abbrev wire : Wire
wire = record {
  workspace = unread (record { name = []; isolated = false });
  data_store =
      unread
        (record { name = []; type = []; enabled = false; description = []; url = []; params = [] });
  coverage_store =
      unread
        (record { name = []; type = []; enabled = false; description = []; url = []; params = [] });
  feature_type = unread no_resource;
  coverage = unread no_resource;
  layer_style = unread [];
  style = unread (record { name = []; format = []; filename = [] });
  group = unread (record { name = []; mode = []; layers = [] });
  connector = λ t. none;
  collate = before;
}

abbrev request : HttpRequest
request = record {
  method = codes "DELETE";
  path = codes "/rest/workspaces/city";
  query = (codes "recurse", codes "true" ∷ []) ∷ [];
  header = [];
  body = [];
  remote = [];
}

abbrev catalog : Catalog
catalog = record { db = small; events = [] }

abbrev parcels : ResourceBody × ResourceBody
parcels = (
  record { name = codes "parcels"; native_name = []; title = []; srs = []; enabled = true },
  no_resource,
)

parcels-created :
    (create_from feature_type_kind (codes "city") (codes "pg") catalog (some parcels)).0.status
    ≡ 201
unfolding create_from resource_from chosen_body or_else publish_layer create_resource create_layer
    layer_of conclude http_err saved insert_checked insert_row is_layer_type refers any_row has_key
    has_pair same_pair same_resource in_store text_eq
parcels-created = refl

CatalogChange-IsCatalog_example : IsCatalog without_city
CatalogChange-IsCatalog_example =
    CatalogChange-IsCatalog (deletes_workspace (codes "city") true city-deleted) small-IsCatalog

delete_workspace-IsGone_example : IsGone (codes "city") small without_city
delete_workspace-IsGone_example =
    delete_workspace-IsGone (codes "city") true small without_city city-deleted

delete_workspace-kept_example :
    (without_empty.stores ≡ small.stores) × (without_empty.resources ≡ small.resources)
delete_workspace-kept_example =
    delete_workspace-kept (codes "empty") small without_empty small-IsCatalog empty-deleted

handle-IsServed_example :
    IsServed catalog (handle wire request (delete_workspace_at (codes "city")) catalog)
handle-IsServed_example = handle-IsServed wire request (delete_workspace_at (codes "city")) catalog

create_from-IsPublished_example :
    IsPublished feature_type_kind
      (resource_from (codes "city") (codes "pg") (chosen_body parcels))
      (create_from feature_type_kind (codes "city") (codes "pg") catalog (some parcels)).1
create_from-IsPublished_example =
    create_from-IsPublished feature_type_kind (codes "city") (codes "pg") catalog parcels
      parcels-created
