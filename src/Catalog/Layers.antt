-- ===== src/Catalog/Layers.antt =====
-- services/catalog/internal/store/store.go: feature types and coverages, which are the two kinds of
-- resources, and layers.
use giti.Prelude.{Bool, ◌&&◌, ◌||◌, List, Text, codes, text_eq, map, Result}
use giti.Rows.{
  StoreError, any_row, keep, drop_rows, update_rows, insert_row, insert_checked, has_pair, order_by,
  saved, affected, query_row,
}
use giti.Rows.Links.{same_pair, refers}
use giti.Catalog.Model.{
  FeatureType, Coverage, Resource, Layer, Store, CatalogDb, workspace_name, store_workspace,
  store_name, resource_workspace, resource_store, resource_name, layer_workspace, layer_name,
}
use giti.Catalog.Stores.{pair_precedes}

-- PRIMARY KEY (workspace, store, name)
unfoldable pub same_resource : Resource → Resource → Bool
unfolding same_pair text_eq
same_resource r s =
    same_pair resource_workspace resource_store r s && text_eq (resource_name r) (resource_name s)

-- FOREIGN KEY (workspace, store)
unfoldable pub in_store : Resource → Store → Bool
unfolding has_pair
in_store r s = has_pair store_workspace store_name (resource_workspace r) (resource_store r) s

unfoldable pub create_resource : Resource → CatalogDb → Result StoreError CatalogDb
unfolding insert_row same_resource any_row in_store saved
create_resource r db =
    saved (λ (rows : List Resource). record db { resources = rows })
      (insert_row same_resource (any_row (in_store r) db.stores) r db.resources)

unfoldable pub is_resource_of : Text → Text → Text → Resource → Bool
unfolding has_pair text_eq
is_resource_of kind ws st r =
    has_pair resource_workspace resource_store ws st r && text_eq r.kind kind

unfoldable pub is_resource : Text → Text → Text → Text → Resource → Bool
unfolding is_resource_of text_eq
is_resource kind ws st name r = is_resource_of kind ws st r && text_eq (resource_name r) name

unfoldable pub get_resource : Text → Text → Text → Text → CatalogDb → Result StoreError FeatureType
unfolding query_row keep is_resource
get_resource kind ws st name db =
    query_row (map (λ (r : Resource). r.columns) (keep (is_resource kind ws st name) db.resources))

unfoldable pub delete_resource : Text → Text → Text → Text → CatalogDb → Result StoreError CatalogDb
unfolding drop_rows any_row is_resource affected
delete_resource kind ws st name db =
    affected (any_row (is_resource kind ws st name) db.resources)
      (record db { resources = drop_rows (is_resource kind ws st name) db.resources })

abbrev pub featuretype : Text
featuretype = codes "featuretype"

abbrev pub coverage : Text
coverage = codes "coverage"

unfoldable pub create_feature_type : FeatureType → CatalogDb → Result StoreError CatalogDb
unfolding create_resource
create_feature_type ft db = create_resource (record { kind = featuretype; columns = ft }) db

unfoldable pub get_feature_type : Text → Text → Text → CatalogDb → Result StoreError FeatureType
unfolding get_resource
get_feature_type ws st name db = get_resource featuretype ws st name db

unfoldable pub delete_feature_type : Text → Text → Text → CatalogDb → Result StoreError CatalogDb
unfolding delete_resource
delete_feature_type ws st name db = delete_resource featuretype ws st name db

unfoldable pub create_coverage : Coverage → CatalogDb → Result StoreError CatalogDb
unfolding create_resource
create_coverage c db = create_resource (record { kind = coverage; columns = c }) db

unfoldable pub get_coverage : Text → Text → Text → CatalogDb → Result StoreError Coverage
unfolding get_resource
get_coverage ws st name db = get_resource coverage ws st name db

unfoldable pub delete_coverage : Text → Text → Text → CatalogDb → Result StoreError CatalogDb
unfolding delete_resource
delete_coverage ws st name db = delete_resource coverage ws st name db

-- CHECK of the column `type`.
unfoldable pub is_layer_type : Text → Bool
unfolding text_eq
is_layer_type t = text_eq t (codes "VECTOR") || text_eq t (codes "RASTER")

unfoldable pub create_layer : Layer → CatalogDb → Result StoreError CatalogDb
unfolding insert_checked is_layer_type same_pair refers saved
create_layer l db =
    saved (λ (rows : List Layer). record db { layers = rows })
      (insert_checked (is_layer_type l.type) (same_pair layer_workspace layer_name)
        (refers workspace_name db.workspaces l.workspace) l db.layers)

unfoldable pub get_layer : Text → Text → CatalogDb → Result StoreError Layer
unfolding query_row keep has_pair
get_layer ws name db = query_row (keep (has_pair layer_workspace layer_name ws name) db.layers)

-- `SET default_style=$3, enabled=$4`
unfoldable pub set_layer : Layer → Layer → Layer
set_layer l row = record row { default_style = l.default_style; enabled = l.enabled }

unfoldable pub update_layer : Text → Text → Layer → CatalogDb → Result StoreError CatalogDb
unfolding update_rows any_row has_pair set_layer affected
update_layer ws name l db =
    let chosen = has_pair layer_workspace layer_name ws name in
    affected (any_row chosen db.layers)
      (record db { layers = update_rows chosen (set_layer l) db.layers })

unfoldable pub delete_layer : Text → Text → CatalogDb → Result StoreError CatalogDb
unfolding drop_rows any_row has_pair affected
delete_layer ws name db =
    let chosen = has_pair layer_workspace layer_name ws name in
    affected (any_row chosen db.layers) (record db { layers = drop_rows chosen db.layers })

module _ (collate : Text → Text → Bool) where
  unfoldable pub list_resources : Text → Text → Text → CatalogDb → List FeatureType
  unfolding order_by keep is_resource_of
  list_resources kind ws st db =
      order_by (λ (x y : FeatureType). collate x.name y.name)
        (map (λ (r : Resource). r.columns) (keep (is_resource_of kind ws st) db.resources))

  unfoldable pub list_feature_types : Text → Text → CatalogDb → List FeatureType
  unfolding list_resources
  list_feature_types ws st db = list_resources featuretype ws st db

  unfoldable pub list_coverages : Text → Text → CatalogDb → List Coverage
  unfolding list_resources
  list_coverages ws st db = list_resources coverage ws st db

  unfoldable pub list_layers : CatalogDb → List Layer
  unfolding order_by pair_precedes
  list_layers db = order_by (pair_precedes collate layer_workspace layer_name) db.layers
