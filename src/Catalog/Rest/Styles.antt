-- ===== src/Catalog/Rest/Styles.antt =====
-- services/catalog/internal/rest/layers.go: styles, of a workspace or, for `ws` empty, of none.
use giti.Prelude.{
  Bool, not, ◌&&◌, ◌||◌, Option, none, some, [], ◌∷◌, ◌++◌, map, Text, codes, text_eq,
  if◌then◌else◌, Result, ok, err,
}
use giti.Rows.{StoreError}
use giti.Ows.Request.{first}
use giti.Ows.Exception.{contains}
use giti.Gateway.Http.{HttpRequest, get_header}
use giti.Catalog.Model.{Style}
use giti.Catalog.Styles.{create_style, get_style, list_styles, update_style, delete_style}
use giti.Catalog.Rest.{
  StyleBody, Wire, names, style_doc, empty_body, plain, decode_error, Reply, reply, Catalog,
  http_err, has_suffix, trim_suffix, trim_format, write_payload, read_payload, conclude, show,
  in_workspace,
}
use giti.Catalog.Rest.Resources.{or_else}

unfoldable pub is_sld_upload : HttpRequest → Bool
unfolding contains get_header first text_eq
is_sld_upload r =
    let ct = get_header (codes "Content-Type") r.header in
    contains ct (codes "sld")
    || (contains ct (codes "application/xml") && not (text_eq (first r.query (codes "name")) []))

unfoldable pub save_style : Style → Catalog → Reply × Catalog
unfolding create_style conclude
save_style s c =
    conclude (reply 201 (plain s.name))
      (in_workspace (codes "catalog.style.created") s.name s.workspace ∷ []) c (create_style s c.db)

unfoldable pub upload_style : Text → Text → Text → Catalog → Reply × Catalog
unfolding save_style text_eq
upload_style ws name body c =
    if text_eq name []
    then (reply 400 (plain (codes "name query param required for SLD upload")), c)
    else save_style
        (record {
          name = name;
          workspace = ws;
          format = codes "sld";
          filename = name ++ codes ".sld";
          body = body;
          model = none;
        })
        c

unfoldable pub style_from : Text → StyleBody × StyleBody → Style
unfolding text_eq or_else
style_from ws (x, j) =
    let b = if text_eq j.name [] then x else j in
    record {
      name = b.name;
      workspace = ws;
      format = or_else b.format (codes "sld");
      filename = b.filename;
      body = [];
      model = none;
    }

unfoldable pub describe_style : Text → Catalog → Option (StyleBody × StyleBody) → Reply × Catalog
unfolding save_style style_from text_eq
describe_style ws c none = (reply 400 decode_error, c)
describe_style ws c (some b) =
    let s = style_from ws b in
    if text_eq s.name []
    then (reply 400 (plain (codes "style name required")), c)
    else save_style s c

-- The style with another body, as it was read: its other columns are written back.
unfoldable pub rewrite : Text → Text → Text → Catalog → Result StoreError Style → Reply × Catalog
unfolding update_style conclude http_err
rewrite ws name body c (err e) = (http_err e, c)
rewrite ws name body c (ok cur) =
    conclude (reply 200 empty_body) (in_workspace (codes "catalog.style.updated") name ws ∷ []) c
      (update_style ws name (record cur { body = body }) c.db)

module _ (w : Wire) (r : HttpRequest) where
  unfoldable pub create_style_h : Text → Catalog → Reply × Catalog
  unfolding is_sld_upload upload_style describe_style read_payload first
  create_style_h ws c =
      if is_sld_upload r
      then upload_style ws (first r.query (codes "name")) r.body c
      else describe_style ws c (read_payload w.style r)

  unfoldable pub get_style_h : Text → Text → Catalog → Reply
  unfolding get_style has_suffix trim_suffix trim_format show write_payload
  get_style_h ws raw c =
      if has_suffix raw (codes ".sld")
      then show (λ (s : Style). reply 200 (plain s.body))
          (get_style ws (trim_suffix raw (codes ".sld")) c.db)
      else show (λ (s : Style). write_payload r (style_doc s)) (get_style ws (trim_format raw) c.db)

  unfoldable pub list_styles_h : Text → Catalog → Reply
  unfolding list_styles write_payload
  list_styles_h ws c = write_payload r (
      names (codes "styles") (codes "style")
        (map (λ (s : Style). s.name) (list_styles w.collate ws c.db)))

  unfoldable pub update_style_h : Text → Text → Catalog → Reply × Catalog
  unfolding rewrite get_style trim_format trim_suffix
  update_style_h ws raw c =
      let name = trim_format (trim_suffix raw (codes ".sld")) in
      rewrite ws name r.body c (get_style ws name c.db)

  unfoldable pub delete_style_h : Text → Text → Catalog → Reply × Catalog
  unfolding delete_style trim_format conclude
  delete_style_h ws raw c =
      let name = trim_format raw in
      conclude (reply 200 empty_body) (in_workspace (codes "catalog.style.deleted") name ws ∷ []) c
        (delete_style ws name c.db)
