-- ===== src/Catalog/Rest/Layers.antt =====
-- services/catalog/internal/rest/layers.go: layers under their qualified names, and layer groups.
use giti.Prelude.{
  Option, none, some, [], ◌∷◌, ◌++◌, map, Text, codes, text_eq, if◌then◌else◌, Result, ok, err,
}
use giti.Rows.{StoreError}
use giti.Gateway.Http.{HttpRequest}
use giti.Auth.Check.{cut_colon}
use giti.Catalog.Model.{Layer, LayerGroup}
use giti.Catalog.Layers.{get_layer, list_layers, update_layer, delete_layer}
use giti.Catalog.Styles.{create_layer_group, get_layer_group, delete_layer_group}
use giti.Catalog.Rest.{
  GroupBody, Wire, names, layer_doc, group_doc, empty_body, plain, decode_error, Reply, reply,
  Catalog, http_err, trim_format, write_payload, read_payload, conclude, show, in_workspace,
}
use giti.Catalog.Rest.Resources.{or_else}

-- `ws:name`, or a name alone.
unfoldable pub split_at : Text → Option (Text × Text) → Text × Text
split_at name none = ([], name)
split_at name (some (ws, rest)) = (ws, rest)

unfoldable pub split_layer : Text → Text × Text
unfolding split_at cut_colon trim_format
split_layer qualified = let name = trim_format qualified in split_at name (cut_colon name)

-- The name under which a layer is listed.
unfoldable pub qualified_name : Layer → Text
unfolding text_eq
qualified_name l = if text_eq l.workspace [] then l.name else l.workspace ++ (b':' ∷ l.name)

-- The style of the XML is taken where it has a name, and then that of the JSON.
unfoldable pub with_style : Layer → Text × Text → Layer
unfolding or_else
with_style cur (x, j) = record cur { default_style = or_else j (or_else x cur.default_style) }

unfoldable pub restyle :
    Text → Text → Text × Text → Catalog → Result StoreError Layer → Reply × Catalog
unfolding update_layer with_style conclude http_err
restyle ws name b c (err e) = (http_err e, c)
restyle ws name b c (ok cur) =
    conclude (reply 200 empty_body) (in_workspace (codes "catalog.layer.updated") name ws ∷ []) c
      (update_layer ws name (with_style cur b) c.db)

unfoldable pub update_styled : Text → Text → Catalog → Option (Text × Text) → Reply × Catalog
unfolding restyle get_layer
update_styled ws name c none = (reply 400 decode_error, c)
update_styled ws name c (some b) = restyle ws name b c (get_layer ws name c.db)

unfoldable pub group_from : Text → GroupBody × GroupBody → LayerGroup
unfolding text_eq or_else
group_from ws (x, j) =
    let b = if text_eq j.name [] then x else j in
    record {
      name = b.name;
      workspace = ws;
      mode = or_else b.mode (codes "SINGLE");
      layers = b.layers;
    }

unfoldable pub create_grouped : Text → Catalog → Option (GroupBody × GroupBody) → Reply × Catalog
unfolding create_layer_group group_from conclude text_eq
create_grouped ws c none = (reply 400 decode_error, c)
create_grouped ws c (some b) =
    let g = group_from ws b in
    if text_eq g.name []
    then (reply 400 (plain (codes "layerGroup name required")), c)
    else conclude (reply 201 (plain g.name))
        (in_workspace (codes "catalog.layergroup.created") g.name ws ∷ []) c
        (create_layer_group g c.db)

module _ (w : Wire) (r : HttpRequest) where
  unfoldable pub get_layer_h : Text → Catalog → Reply
  unfolding get_layer split_layer show write_payload
  get_layer_h layer c =
      let (ws, name) = split_layer layer in
      show (λ (l : Layer). write_payload r (layer_doc l)) (get_layer ws name c.db)

  unfoldable pub list_layers_h : Catalog → Reply
  unfolding list_layers qualified_name write_payload
  list_layers_h c =
      write_payload r
        (names (codes "layers") (codes "layer") (map qualified_name (list_layers w.collate c.db)))

  unfoldable pub update_layer_h : Text → Catalog → Reply × Catalog
  unfolding update_styled split_layer read_payload
  update_layer_h layer c =
      let (ws, name) = split_layer layer in update_styled ws name c (read_payload w.layer_style r)

  unfoldable pub delete_layer_h : Text → Catalog → Reply × Catalog
  unfolding delete_layer split_layer conclude
  delete_layer_h layer c =
      let (ws, name) = split_layer layer in
      conclude (reply 200 empty_body) (in_workspace (codes "catalog.layer.deleted") name ws ∷ []) c
        (delete_layer ws name c.db)

  -- For a workspace, or for `ws` empty.
  unfoldable pub create_layer_group_h : Text → Catalog → Reply × Catalog
  unfolding create_grouped read_payload
  create_layer_group_h ws c = create_grouped ws c (read_payload w.group r)

  unfoldable pub get_layer_group_h : Text → Text → Catalog → Reply
  unfolding get_layer_group trim_format show write_payload
  get_layer_group_h ws name c =
      show (λ (g : LayerGroup). write_payload r (group_doc g))
        (get_layer_group ws (trim_format name) c.db)

  unfoldable pub delete_layer_group_h : Text → Text → Catalog → Reply × Catalog
  unfolding delete_layer_group trim_format conclude
  delete_layer_group_h ws name c =
      conclude (reply 200 empty_body)
        (in_workspace (codes "catalog.layergroup.deleted") (trim_format name) ws ∷ []) c
        (delete_layer_group ws (trim_format name) c.db)
