-- ===== src/Catalog/Intact.antt =====
-- services/catalog/internal/store/store.go: the keys and references of the tables, and what a change of
-- one table leaves to be shown.
pub mod Stores
pub mod Deletions
pub mod Layers
pub mod Changes
pub mod Removed
use giti.Prelude.{◌≡◌, Bool, true, List, Text, all_of}
use giti.Rows.{any_row, unique, has_key, same_key}
use giti.Rows.Links.{same_pair}
use giti.Rows.Cascade.{all_of-grown}
use giti.Rows.Laws.{all_of-weaken}
use giti.Catalog.Model.{
  Workspace, Store, Resource, Layer, Style, LayerGroup, CatalogDb, workspace_name, store_workspace,
  store_name, layer_workspace, layer_name, style_workspace, style_name, group_workspace, group_name,
}
use giti.Catalog.Layers.{same_resource, in_store}

-- Every key stands once, a store and a layer are in a workspace that is there, and a resource in a
-- store that is there.
pub record IsCatalog (db : CatalogDb) : Type 0 where
  pub workspaces_key : unique (same_key workspace_name) db.workspaces ≡ true
  pub stores_key : unique (same_pair store_workspace store_name) db.stores ≡ true
  pub stores_in :
      all_of (λ (s : Store). any_row (has_key workspace_name s.workspace) db.workspaces) db.stores
      ≡ true
  pub resources_key : unique same_resource db.resources ≡ true
  pub resources_in : all_of (λ (r : Resource). any_row (in_store r) db.stores) db.resources ≡ true
  pub layers_key : unique (same_pair layer_workspace layer_name) db.layers ≡ true
  pub layers_in :
      all_of (λ (l : Layer). any_row (has_key workspace_name l.workspace) db.workspaces) db.layers
      ≡ true
  pub styles_key : unique (same_pair style_workspace style_name) db.styles ≡ true
  pub groups_key : unique (same_pair group_workspace group_name) db.layer_groups ≡ true

module _ (db : CatalogDb) (h : IsCatalog db) where
  pub with_workspaces :
      (ws : List Workspace)
      → unique (same_key workspace_name) ws ≡ true
      → all_of (λ (s : Store). any_row (has_key workspace_name s.workspace) ws) db.stores ≡ true
      → all_of (λ (l : Layer). any_row (has_key workspace_name l.workspace) ws) db.layers ≡ true
      → IsCatalog (record db { workspaces = ws })
  with_workspaces ws key s l = record {
    workspaces_key = key;
    stores_key = h.stores_key;
    stores_in = s;
    resources_key = h.resources_key;
    resources_in = h.resources_in;
    layers_key = h.layers_key;
    layers_in = l;
    styles_key = h.styles_key;
    groups_key = h.groups_key;
  }

  -- More workspaces than before.
  pub with_more_workspaces :
      (ws : List Workspace)
      → unique (same_key workspace_name) ws ≡ true
      → ((k : Text)
          → any_row (has_key workspace_name k) db.workspaces ≡ true
          → any_row (has_key workspace_name k) ws ≡ true)
      → IsCatalog (record db { workspaces = ws })
  with_more_workspaces ws key grows =
      with_workspaces ws key
        (all_of-grown workspace_name store_workspace db.workspaces ws grows db.stores h.stores_in)
        (all_of-grown workspace_name layer_workspace db.workspaces ws grows db.layers h.layers_in)

  pub with_stores :
      (ss : List Store)
      → unique (same_pair store_workspace store_name) ss ≡ true
      → all_of (λ (s : Store). any_row (has_key workspace_name s.workspace) db.workspaces) ss ≡ true
      → ((r : Resource) → any_row (in_store r) db.stores ≡ true → any_row (in_store r) ss ≡ true)
      → IsCatalog (record db { stores = ss })
  with_stores ss key s grows = record {
    workspaces_key = h.workspaces_key;
    stores_key = key;
    stores_in = s;
    resources_key = h.resources_key;
    resources_in =
        all_of-weaken (λ (r : Resource). any_row (in_store r) db.stores)
          (λ (r : Resource). any_row (in_store r) ss) grows db.resources h.resources_in;
    layers_key = h.layers_key;
    layers_in = h.layers_in;
    styles_key = h.styles_key;
    groups_key = h.groups_key;
  }

  pub with_resources :
      (rs : List Resource)
      → unique same_resource rs ≡ true
      → all_of (λ (r : Resource). any_row (in_store r) db.stores) rs ≡ true
      → IsCatalog (record db { resources = rs })
  with_resources rs key r = record {
    workspaces_key = h.workspaces_key;
    stores_key = h.stores_key;
    stores_in = h.stores_in;
    resources_key = key;
    resources_in = r;
    layers_key = h.layers_key;
    layers_in = h.layers_in;
    styles_key = h.styles_key;
    groups_key = h.groups_key;
  }

  pub with_layers :
      (ls : List Layer)
      → unique (same_pair layer_workspace layer_name) ls ≡ true
      → all_of (λ (l : Layer). any_row (has_key workspace_name l.workspace) db.workspaces) ls ≡ true
      → IsCatalog (record db { layers = ls })
  with_layers ls key l = record {
    workspaces_key = h.workspaces_key;
    stores_key = h.stores_key;
    stores_in = h.stores_in;
    resources_key = h.resources_key;
    resources_in = h.resources_in;
    layers_key = key;
    layers_in = l;
    styles_key = h.styles_key;
    groups_key = h.groups_key;
  }

  -- Styles and layer groups refer to nothing.
  pub with_styles_and_groups :
      (ss : List Style) (gs : List LayerGroup)
      → unique (same_pair style_workspace style_name) ss ≡ true
      → unique (same_pair group_workspace group_name) gs ≡ true
      → IsCatalog (record db { styles = ss; layer_groups = gs })
  with_styles_and_groups ss gs s g = record {
    workspaces_key = h.workspaces_key;
    stores_key = h.stores_key;
    stores_in = h.stores_in;
    resources_key = h.resources_key;
    resources_in = h.resources_in;
    layers_key = h.layers_key;
    layers_in = h.layers_in;
    styles_key = s;
    groups_key = g;
  }
