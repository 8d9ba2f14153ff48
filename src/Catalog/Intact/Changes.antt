-- ===== src/Catalog/Intact/Changes.antt =====
-- services/catalog/internal/store/store.go: the methods that write, as the steps of the database.
use giti.Prelude.{◌≡◌, Bool, Text, ok}
use giti.Rows.{}
use giti.Catalog.Model.{Workspace, Store, Resource, Layer, Style, LayerGroup, CatalogDb}
use giti.Catalog.Stores.{
  create_workspace, update_workspace, delete_workspace, create_store, update_store, delete_store,
}
use giti.Catalog.Layers.{create_resource, delete_resource, create_layer, update_layer, delete_layer}
use giti.Catalog.Styles.{
  create_style, update_style, delete_style, create_layer_group, delete_layer_group,
}
use giti.Catalog.Intact.{IsCatalog}
use giti.Catalog.Intact.Stores.{create_workspace-IsCatalog, update_workspace-IsCatalog}
use giti.Catalog.Intact.Deletions.{
  delete_workspace-IsCatalog, create_store-IsCatalog, update_store-IsCatalog,
  delete_store-IsCatalog,
}
use giti.Catalog.Intact.Layers.{
  create_resource-IsCatalog, delete_resource-IsCatalog, create_layer-IsCatalog,
  update_layer-IsCatalog, delete_layer-IsCatalog, create_style-IsCatalog, update_style-IsCatalog,
  delete_style-IsCatalog, create_layer_group-IsCatalog, delete_layer_group-IsCatalog,
}

-- A method that returned no error.
pub data CatalogChange : CatalogDb → CatalogDb → Type 0 where
  creates_workspace :
      {db db' : CatalogDb} (w : Workspace) → create_workspace w db ≡ ok db' → CatalogChange db db'
  updates_workspace :
      {db db' : CatalogDb} (name : Text) (w : Workspace)
      → update_workspace name w db ≡ ok db'
      → CatalogChange db db'
  deletes_workspace :
      {db db' : CatalogDb} (name : Text) (recurse : Bool)
      → delete_workspace name recurse db ≡ ok db'
      → CatalogChange db db'
  creates_store :
      {db db' : CatalogDb} (s : Store) → create_store s db ≡ ok db' → CatalogChange db db'
  updates_store :
      {db db' : CatalogDb} (ws name : Text) (s : Store)
      → update_store ws name s db ≡ ok db'
      → CatalogChange db db'
  deletes_store :
      {db db' : CatalogDb} (ws name : Text) (recurse : Bool)
      → delete_store ws name recurse db ≡ ok db'
      → CatalogChange db db'
  creates_resource :
      {db db' : CatalogDb} (r : Resource) → create_resource r db ≡ ok db' → CatalogChange db db'
  deletes_resource :
      {db db' : CatalogDb} (kind ws st name : Text)
      → delete_resource kind ws st name db ≡ ok db'
      → CatalogChange db db'
  creates_layer :
      {db db' : CatalogDb} (l : Layer) → create_layer l db ≡ ok db' → CatalogChange db db'
  updates_layer :
      {db db' : CatalogDb} (ws name : Text) (l : Layer)
      → update_layer ws name l db ≡ ok db'
      → CatalogChange db db'
  deletes_layer :
      {db db' : CatalogDb} (ws name : Text)
      → delete_layer ws name db ≡ ok db'
      → CatalogChange db db'
  creates_style :
      {db db' : CatalogDb} (s : Style) → create_style s db ≡ ok db' → CatalogChange db db'
  updates_style :
      {db db' : CatalogDb} (ws name : Text) (s : Style)
      → update_style ws name s db ≡ ok db'
      → CatalogChange db db'
  deletes_style :
      {db db' : CatalogDb} (ws name : Text)
      → delete_style ws name db ≡ ok db'
      → CatalogChange db db'
  creates_layer_group :
      {db db' : CatalogDb} (g : LayerGroup)
      → create_layer_group g db ≡ ok db'
      → CatalogChange db db'
  deletes_layer_group :
      {db db' : CatalogDb} (ws name : Text)
      → delete_layer_group ws name db ≡ ok db'
      → CatalogChange db db'

-- Where keys are unique, every store and layer has its workspace and every feature type and coverage
-- its store, this holds after every change of the catalog, renamings and deletions that cascade
-- included.
pub CatalogChange-IsCatalog :
    {db db' : CatalogDb} → CatalogChange db db' → IsCatalog db → IsCatalog db'
CatalogChange-IsCatalog (creates_workspace w e) h = create_workspace-IsCatalog w _ _ e h
CatalogChange-IsCatalog (updates_workspace name w e) h = update_workspace-IsCatalog name w _ _ e h
CatalogChange-IsCatalog (deletes_workspace name b e) h = delete_workspace-IsCatalog name b _ _ e h
CatalogChange-IsCatalog (creates_store s e) h = create_store-IsCatalog s _ _ e h
CatalogChange-IsCatalog (updates_store ws name s e) h = update_store-IsCatalog ws name s _ _ e h
CatalogChange-IsCatalog (deletes_store ws name b e) h = delete_store-IsCatalog ws name b _ _ e h
CatalogChange-IsCatalog (creates_resource r e) h = create_resource-IsCatalog r _ _ e h
CatalogChange-IsCatalog (deletes_resource kind ws st name e) h =
    delete_resource-IsCatalog kind ws st name _ _ e h
CatalogChange-IsCatalog (creates_layer l e) h = create_layer-IsCatalog l _ _ e h
CatalogChange-IsCatalog (updates_layer ws name l e) h = update_layer-IsCatalog ws name l _ _ e h
CatalogChange-IsCatalog (deletes_layer ws name e) h = delete_layer-IsCatalog ws name _ _ e h
CatalogChange-IsCatalog (creates_style s e) h = create_style-IsCatalog s _ _ e h
CatalogChange-IsCatalog (updates_style ws name s e) h = update_style-IsCatalog ws name s _ _ e h
CatalogChange-IsCatalog (deletes_style ws name e) h = delete_style-IsCatalog ws name _ _ e h
CatalogChange-IsCatalog (creates_layer_group g e) h = create_layer_group-IsCatalog g _ _ e h
CatalogChange-IsCatalog (deletes_layer_group ws name e) h =
    delete_layer_group-IsCatalog ws name _ _ e h
