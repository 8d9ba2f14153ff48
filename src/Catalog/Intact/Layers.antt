-- ===== src/Catalog/Intact/Layers.antt =====
-- services/catalog/internal/store/store.go: resources, layers, styles and layer groups.
use giti.Prelude.{◌≡◌, refl, true, not, List, Text, ok}
use giti.Rows.{any_row, drop_rows, update_rows, insert_row, has_key, has_pair}
use giti.Rows.Laws.{text_eq_sym, unique-keep, all_of-keep}
use giti.Rows.Inserts.{
  insert_row-unique, insert_row-all_of, insert_checked-eq, saved-eq, affected-eq,
}
use giti.Rows.Updates.{unique-update_rows, all_of-update_rows}
use giti.Rows.Links.{same_pair, same_pair_sym, refers}
use giti.Catalog.Model.{
  Resource, Layer, Style, LayerGroup, CatalogDb, workspace_name, resource_workspace, resource_store,
  resource_name, layer_workspace, layer_name, style_workspace, style_name, group_workspace,
  group_name,
}
use giti.Catalog.Layers.{
  same_resource, in_store, create_resource, is_resource, delete_resource, create_layer, set_layer,
  update_layer, delete_layer, is_layer_type,
}
use giti.Catalog.Styles.{
  create_style, update_style, set_style, delete_style, create_layer_group, delete_layer_group,
}
use giti.Catalog.Intact.{IsCatalog, with_resources, with_layers, with_styles_and_groups}

same_resource_sym : (r s : Resource) → same_resource r s ≡ same_resource s r
unfolding same_resource
same_resource_sym r s = cc (
  same_pair_sym resource_workspace resource_store r s,
  text_eq_sym (resource_name r) (resource_name s),
)

pub create_resource-IsCatalog :
    (r : Resource) (db db' : CatalogDb)
    → create_resource r db ≡ ok db'
    → IsCatalog db
    → IsCatalog db'
unfolding create_resource
create_resource-IsCatalog r db db' e h =
    let there = any_row (in_store r) db.stores in
    let (rows, (done, same)) =
      saved-eq (λ (rows : List Resource). record db { resources = rows })
        (insert_row same_resource there r db.resources) db' e in
    rw same (
      with_resources db h rows
        (insert_row-unique same_resource same_resource_sym there r db.resources rows h.resources_key
          done)
        (insert_row-all_of same_resource (λ (x : Resource). any_row (in_store x) db.stores) there r
          db.resources rows (λ e. e) h.resources_in done))

pub delete_resource-IsCatalog :
    (kind ws st name : Text) (db db' : CatalogDb)
    → delete_resource kind ws st name db ≡ ok db'
    → IsCatalog db
    → IsCatalog db'
unfolding delete_resource drop_rows
delete_resource-IsCatalog kind ws st name db db' e h =
    let p = is_resource kind ws st name in
    let (found, same) =
      affected-eq (any_row p db.resources) (record db { resources = drop_rows p db.resources }) db'
        e in
    rw same (
      with_resources db h (drop_rows p db.resources)
        (unique-keep same_resource (λ (r : Resource). not (p r)) db.resources h.resources_key)
        (all_of-keep (λ (r : Resource). any_row (in_store r) db.stores)
          (λ (r : Resource). not (p r)) db.resources h.resources_in))

pub create_layer-IsCatalog :
    (l : Layer) (db db' : CatalogDb) → create_layer l db ≡ ok db' → IsCatalog db → IsCatalog db'
unfolding create_layer refers
create_layer-IsCatalog l db db' e h =
    let (rows, (done, same)) =
      saved-eq (λ (rows : List Layer). record db { layers = rows }) _ db' e in
    let there = any_row (has_key workspace_name l.workspace) db.workspaces in
    let key = same_pair layer_workspace layer_name in
    let plain = insert_checked-eq (is_layer_type l.type) key there l db.layers rows done in
    rw same (
      with_layers db h rows
        (insert_row-unique key (same_pair_sym layer_workspace layer_name) there l db.layers rows
          h.layers_key plain)
        (insert_row-all_of key
          (λ (x : Layer). any_row (has_key workspace_name x.workspace) db.workspaces) there l
          db.layers rows (λ e. e) h.layers_in plain))

pub update_layer-IsCatalog :
    (ws name : Text) (l : Layer) (db db' : CatalogDb)
    → update_layer ws name l db ≡ ok db'
    → IsCatalog db
    → IsCatalog db'
unfolding update_layer set_layer same_pair
update_layer-IsCatalog ws name l db db' e h =
    let p = has_pair layer_workspace layer_name ws name in
    let (found, same) =
      affected-eq (any_row p db.layers)
        (record db { layers = update_rows p (set_layer l) db.layers }) db' e in
    rw same (
      with_layers db h (update_rows p (set_layer l) db.layers)
        (unique-update_rows p (set_layer l) (same_pair layer_workspace layer_name) (λ x y. refl)
          (λ x y. refl) db.layers h.layers_key)
        (all_of-update_rows p (set_layer l)
          (λ (x : Layer). any_row (has_key workspace_name x.workspace) db.workspaces) (λ x. refl)
          db.layers h.layers_in))

pub delete_layer-IsCatalog :
    (ws name : Text) (db db' : CatalogDb)
    → delete_layer ws name db ≡ ok db'
    → IsCatalog db
    → IsCatalog db'
unfolding delete_layer drop_rows
delete_layer-IsCatalog ws name db db' e h =
    let p = has_pair layer_workspace layer_name ws name in
    let (found, same) =
      affected-eq (any_row p db.layers) (record db { layers = drop_rows p db.layers }) db' e in
    rw same (
      with_layers db h (drop_rows p db.layers)
        (unique-keep (same_pair layer_workspace layer_name) (λ (l : Layer). not (p l)) db.layers
          h.layers_key)
        (all_of-keep (λ (x : Layer). any_row (has_key workspace_name x.workspace) db.workspaces)
          (λ (l : Layer). not (p l)) db.layers h.layers_in))

pub create_style-IsCatalog :
    (s : Style) (db db' : CatalogDb) → create_style s db ≡ ok db' → IsCatalog db → IsCatalog db'
unfolding create_style
create_style-IsCatalog s db db' e h =
    let (rows, (done, same)) =
      saved-eq (λ (rows : List Style). record db { styles = rows }) _ db' e in
    rw same (
      with_styles_and_groups db h rows db.layer_groups
        (insert_row-unique (same_pair style_workspace style_name)
          (same_pair_sym style_workspace style_name) true _ db.styles rows h.styles_key done)
        h.groups_key)

pub update_style-IsCatalog :
    (ws name : Text) (s : Style) (db db' : CatalogDb)
    → update_style ws name s db ≡ ok db'
    → IsCatalog db
    → IsCatalog db'
unfolding update_style set_style same_pair
update_style-IsCatalog ws name s db db' e h =
    let p = has_pair style_workspace style_name ws name in
    let (found, same) =
      affected-eq (any_row p db.styles)
        (record db { styles = update_rows p (set_style s) db.styles }) db' e in
    rw same (
      with_styles_and_groups db h (update_rows p (set_style s) db.styles) db.layer_groups
        (unique-update_rows p (set_style s) (same_pair style_workspace style_name) (λ x y. refl)
          (λ x y. refl) db.styles h.styles_key)
        h.groups_key)

pub delete_style-IsCatalog :
    (ws name : Text) (db db' : CatalogDb)
    → delete_style ws name db ≡ ok db'
    → IsCatalog db
    → IsCatalog db'
unfolding delete_style drop_rows
delete_style-IsCatalog ws name db db' e h =
    let p = has_pair style_workspace style_name ws name in
    let (found, same) =
      affected-eq (any_row p db.styles) (record db { styles = drop_rows p db.styles }) db' e in
    rw same (
      with_styles_and_groups db h (drop_rows p db.styles) db.layer_groups
        (unique-keep (same_pair style_workspace style_name) (λ (s : Style). not (p s)) db.styles
          h.styles_key)
        h.groups_key)

pub create_layer_group-IsCatalog :
    (g : LayerGroup) (db db' : CatalogDb)
    → create_layer_group g db ≡ ok db'
    → IsCatalog db
    → IsCatalog db'
unfolding create_layer_group
create_layer_group-IsCatalog g db db' e h =
    let (rows, (done, same)) =
      saved-eq (λ (rows : List LayerGroup). record db { layer_groups = rows }) _ db' e in
    rw same (
      with_styles_and_groups db h db.styles rows h.styles_key (
        insert_row-unique (same_pair group_workspace group_name)
          (same_pair_sym group_workspace group_name) true g db.layer_groups rows h.groups_key done))

pub delete_layer_group-IsCatalog :
    (ws name : Text) (db db' : CatalogDb)
    → delete_layer_group ws name db ≡ ok db'
    → IsCatalog db
    → IsCatalog db'
unfolding delete_layer_group drop_rows
delete_layer_group-IsCatalog ws name db db' e h =
    let p = has_pair group_workspace group_name ws name in
    let (found, same) =
      affected-eq (any_row p db.layer_groups)
        (record db { layer_groups = drop_rows p db.layer_groups }) db' e in
    rw same (
      with_styles_and_groups db h db.styles (drop_rows p db.layer_groups) h.styles_key (
        unique-keep (same_pair group_workspace group_name) (λ (g : LayerGroup). not (p g))
          db.layer_groups h.groups_key))
