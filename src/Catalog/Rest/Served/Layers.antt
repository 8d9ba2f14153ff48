-- ===== src/Catalog/Rest/Served/Layers.antt =====
-- services/catalog/internal/rest/layers.go: feature types, coverages, layers and layer groups.
use giti.Prelude.{
  ◌≡◌, refl, Bool, true, false, Option, none, some, [], ◌∷◌, Text, codes, text_eq, Result, ok, err,
  inl, inr, Bool-cases,
}
use giti.Rows.{StoreError}
use giti.Gateway.Http.{HttpRequest}
use giti.Catalog.Model.{FeatureType, Layer, CatalogDb}
use giti.Catalog.Stores.{}
use giti.Catalog.Layers.{create_layer, delete_layer}
use giti.Catalog.Styles.{create_layer_group, delete_layer_group}
use giti.Catalog.Intact.Changes.{
  CatalogChange, creates_resource, deletes_resource, creates_layer, updates_layer, deletes_layer,
  creates_layer_group, deletes_layer_group,
}
use giti.Catalog.Rest.{
  ResourceBody, GroupBody, Wire, empty_body, in_workspace, reply, Catalog, trim_format,
}
use giti.Catalog.Rest.Workspaces.{}
use giti.Catalog.Rest.Resources.{
  ResourceKind, feature_type_kind, coverage_kind, resource_from, chosen_body, layer_of,
  publish_layer, create_from, or_same, delete_named, create_feature_type_h, get_feature_type_h,
  list_feature_types_h, delete_feature_type_h, create_coverage_h, get_coverage_h, delete_coverage_h,
}
use giti.Catalog.Rest.Layers.{
  split_layer, with_style, restyle, update_styled, group_from, create_grouped, get_layer_h,
  list_layers_h, update_layer_h, delete_layer_h, create_layer_group_h, get_layer_group_h,
  delete_layer_group_h,
}
use giti.Catalog.Rest.Styles.{}
use giti.Catalog.Rest.Served.{
  IsServed, Changed, unchanged, then_change, refuses, answers, http_err-refused, conclude-IsServed,
  show-IsServed, write_payload-answered,
}

publish_layer-IsServed :
    (k : ResourceKind) (ft : FeatureType) (c : Catalog) (m : Result StoreError CatalogDb)
    → ((db : CatalogDb) → m ≡ ok db → CatalogChange c.db db)
    → IsServed c (publish_layer k ft c m)
unfolding publish_layer
publish_layer-IsServed k ft c (err e) change = refuses (http_err-refused e) unchanged
publish_layer-IsServed k ft c (ok db) change =
    conclude-IsServed c db _ _ (_ ∷ []) (create_layer (layer_of k ft) db) refl
      (then_change unchanged (change db refl)) (λ db' e. creates_layer (layer_of k ft) e)

create_from-IsServed :
    (k : ResourceKind) (ws st : Text) (c : Catalog) (b : Option (ResourceBody × ResourceBody))
    → IsServed c (create_from k ws st c b)
unfolding create_from
create_from-IsServed k ws st c none = refuses refl unchanged
create_from-IsServed k ws st c (some b) =
    let ft = resource_from ws st (chosen_body b) in
    elim (Bool-cases (text_eq ft.name [])) [
      | inl nameless ↦ rw nameless (refuses refl unchanged)
      | inr named ↦ rw named (
          publish_layer-IsServed k ft c _
            (λ db e. creates_resource (record { kind = k.kind; columns = ft }) e))
    ]

or_same-Changed :
    (ws name : Text) (db : CatalogDb) (m : Result StoreError CatalogDb)
    → delete_layer ws name db ≡ m
    → Changed db (or_same db m)
unfolding or_same
or_same-Changed ws name db (ok db') e = then_change unchanged (deletes_layer ws name e)
or_same-Changed ws name db (err x) e = unchanged

delete_named-IsServed :
    (k : ResourceKind) (ws st name : Text) (recurse : Bool) (c : Catalog)
    → IsServed c (delete_named k ws st name recurse c)
unfolding delete_named
delete_named-IsServed k ws st name true c =
    conclude-IsServed c _ _ _ [] _ refl (or_same-Changed ws name c.db _ refl)
      (λ db e. deletes_resource k.kind ws st name e)
delete_named-IsServed k ws st name false c =
    conclude-IsServed c c.db _ _ [] _ refl unchanged (λ db e. deletes_resource k.kind ws st name e)

restyle-IsServed :
    (ws name : Text) (b : Text × Text) (c : Catalog) (m : Result StoreError Layer)
    → IsServed c (restyle ws name b c m)
unfolding restyle
restyle-IsServed ws name b c (err e) = refuses (http_err-refused e) unchanged
restyle-IsServed ws name b c (ok cur) =
    conclude-IsServed c c.db _ _ [] _ refl unchanged
      (λ db e. updates_layer ws name (with_style cur b) e)

update_styled-IsServed :
    (ws name : Text) (c : Catalog) (b : Option (Text × Text))
    → IsServed c (update_styled ws name c b)
unfolding update_styled
update_styled-IsServed ws name c none = refuses refl unchanged
update_styled-IsServed ws name c (some b) = restyle-IsServed ws name b c _

create_grouped-IsServed :
    (ws : Text) (c : Catalog) (b : Option (GroupBody × GroupBody))
    → IsServed c (create_grouped ws c b)
unfolding create_grouped
create_grouped-IsServed ws c none = refuses refl unchanged
create_grouped-IsServed ws c (some b) =
    let g = group_from ws b in
    elim (Bool-cases (text_eq g.name [])) [
      | inl nameless ↦ rw nameless (refuses refl unchanged)
      | inr named ↦ rw named (
          conclude-IsServed c c.db _ _ [] (create_layer_group g c.db) refl unchanged
            (λ db e. creates_layer_group g e))
    ]

module _ (w : Wire) (r : HttpRequest) (c : Catalog) where
  pub create_feature_type-IsServed : (ws ds : Text) → IsServed c (create_feature_type_h w r ws ds c)
  unfolding create_feature_type_h
  create_feature_type-IsServed ws ds = create_from-IsServed feature_type_kind ws ds c _

  pub get_feature_type-IsServed :
      (ws ds name : Text) → IsServed c (get_feature_type_h w r ws ds name c, c)
  unfolding get_feature_type_h
  get_feature_type-IsServed ws ds name = show-IsServed c _ _ (λ v. write_payload-answered r _)

  pub list_feature_types-IsServed :
      (ws ds : Text) → IsServed c (list_feature_types_h w r ws ds c, c)
  unfolding list_feature_types_h
  list_feature_types-IsServed ws ds = answers (write_payload-answered r _)

  pub delete_feature_type-IsServed :
      (ws ds name : Text) → IsServed c (delete_feature_type_h w r ws ds name c)
  unfolding delete_feature_type_h
  delete_feature_type-IsServed ws ds name = delete_named-IsServed feature_type_kind ws ds _ _ c

  pub create_coverage-IsServed : (ws cs : Text) → IsServed c (create_coverage_h w r ws cs c)
  unfolding create_coverage_h
  create_coverage-IsServed ws cs = create_from-IsServed coverage_kind ws cs c _

  pub get_coverage-IsServed : (ws cs name : Text) → IsServed c (get_coverage_h w r ws cs name c, c)
  unfolding get_coverage_h
  get_coverage-IsServed ws cs name = show-IsServed c _ _ (λ v. write_payload-answered r _)

  pub delete_coverage-IsServed :
      (ws cs name : Text) → IsServed c (delete_coverage_h w r ws cs name c)
  unfolding delete_coverage_h
  delete_coverage-IsServed ws cs name = delete_named-IsServed coverage_kind ws cs _ _ c

  pub get_layer-IsServed : (layer : Text) → IsServed c (get_layer_h w r layer c, c)
  unfolding get_layer_h
  get_layer-IsServed layer = show-IsServed c _ _ (λ v. write_payload-answered r _)

  pub list_layers-IsServed : IsServed c (list_layers_h w r c, c)
  unfolding list_layers_h
  list_layers-IsServed = answers (write_payload-answered r _)

  pub update_layer-IsServed : (layer : Text) → IsServed c (update_layer_h w r layer c)
  unfolding update_layer_h
  update_layer-IsServed layer = update_styled-IsServed _ _ c _

  pub delete_layer-IsServed : (layer : Text) → IsServed c (delete_layer_h w r layer c)
  unfolding delete_layer_h
  delete_layer-IsServed layer =
      let (ws, name) = split_layer layer in
      conclude-IsServed c c.db (reply 200 empty_body)
        (in_workspace (codes "catalog.layer.deleted") name ws) [] (delete_layer ws name c.db) refl
        unchanged (λ db e. deletes_layer ws name e)

  pub create_layer_group-IsServed : (ws : Text) → IsServed c (create_layer_group_h w r ws c)
  unfolding create_layer_group_h
  create_layer_group-IsServed ws = create_grouped-IsServed ws c _

  pub get_layer_group-IsServed : (ws name : Text) → IsServed c (get_layer_group_h w r ws name c, c)
  unfolding get_layer_group_h
  get_layer_group-IsServed ws name = show-IsServed c _ _ (λ v. write_payload-answered r _)

  pub delete_layer_group-IsServed :
      (ws name : Text) → IsServed c (delete_layer_group_h w r ws name c)
  unfolding delete_layer_group_h
  delete_layer_group-IsServed ws name =
      conclude-IsServed c c.db (reply 200 empty_body)
        (in_workspace (codes "catalog.layergroup.deleted") (trim_format name) ws) []
        (delete_layer_group ws (trim_format name) c.db) refl unchanged
        (λ db e. deletes_layer_group ws (trim_format name) e)
