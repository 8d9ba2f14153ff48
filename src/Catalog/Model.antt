-- ===== src/Catalog/Model.antt =====
-- services/catalog/internal/model/model.go, and the tables of internal/store/migrations with the
-- columns that store.go writes. `connection` stands for a jsonb object as an association list.
use giti.Prelude.{Bool, Option, List, Text}
use giti.Ows.Request.{Table}

pub record Workspace : Type 0 where
  pub name : Text
  pub isolated : Bool
  pub namespace_uri : Text

pub record Store : Type 0 where
  pub name : Text
  pub workspace : Text
  pub kind : Text
  pub type : Text
  pub enabled : Bool
  pub description : Text
  pub connection : Table Text

pub record FeatureType : Type 0 where
  pub name : Text
  pub native_name : Text
  pub workspace : Text
  pub store : Text
  pub title : Text
  pub srs : Text
  pub enabled : Bool

-- `Coverage` has the same fields.
abbrev pub Coverage : Type 0
Coverage = FeatureType

-- A row of `resources`: a feature type or a coverage, as `kind` says.
pub record Resource : Type 0 where
  pub kind : Text
  pub columns : FeatureType

pub record Layer : Type 0 where
  pub name : Text
  pub workspace : Text
  pub type : Text
  pub resource_name : Text
  pub default_style : Text
  pub enabled : Bool

-- `model` is a column that may be NULL.
pub record Style : Type 0 where
  pub name : Text
  pub workspace : Text
  pub format : Text
  pub filename : Text
  pub body : Text
  pub model : Option Text

pub record LayerGroup : Type 0 where
  pub name : Text
  pub workspace : Text
  pub mode : Text
  pub layers : List Text

pub record CatalogDb : Type 0 where
  pub workspaces : List Workspace
  pub stores : List Store
  pub resources : List Resource
  pub layers : List Layer
  pub styles : List Style
  pub layer_groups : List LayerGroup

-- The columns that are keys.
abbrev pub workspace_name : Workspace → Text
workspace_name w = w.name

abbrev pub store_workspace : Store → Text
store_workspace s = s.workspace

abbrev pub store_name : Store → Text
store_name s = s.name

abbrev pub resource_workspace : Resource → Text
resource_workspace r = r.columns.workspace

abbrev pub resource_store : Resource → Text
resource_store r = r.columns.store

abbrev pub resource_name : Resource → Text
resource_name r = r.columns.name

abbrev pub layer_workspace : Layer → Text
layer_workspace l = l.workspace

abbrev pub layer_name : Layer → Text
layer_name l = l.name

abbrev pub style_workspace : Style → Text
style_workspace s = s.workspace

abbrev pub style_name : Style → Text
style_name s = s.name

abbrev pub group_workspace : LayerGroup → Text
group_workspace g = g.workspace

abbrev pub group_name : LayerGroup → Text
group_name g = g.name
