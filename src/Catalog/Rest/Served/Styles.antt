-- ===== src/Catalog/Rest/Served/Styles.antt =====
-- services/catalog/internal/rest/layers.go: styles.
use giti.Prelude.{
  refl, Option, none, some, [], ◌++◌, Text, codes, text_eq, Result, ok, err, inl, inr, Bool-cases,
}
use giti.Rows.{StoreError}
use giti.Gateway.Http.{HttpRequest}
use giti.Catalog.Model.{Style}
use giti.Catalog.Stores.{}
use giti.Catalog.Layers.{}
use giti.Catalog.Styles.{delete_style, get_style}
use giti.Catalog.Intact.Changes.{creates_style, updates_style, deletes_style}
use giti.Catalog.Rest.{
  StyleBody, Wire, plain, empty_body, in_workspace, style_doc, reply, Catalog, write_payload,
  trim_format, trim_suffix, has_suffix,
}
use giti.Catalog.Rest.Workspaces.{}
use giti.Catalog.Rest.Resources.{}
use giti.Catalog.Rest.Layers.{}
use giti.Catalog.Rest.Styles.{
  is_sld_upload, save_style, upload_style, style_from, describe_style, rewrite, create_style_h,
  get_style_h, list_styles_h, update_style_h, delete_style_h,
}
use giti.Ows.Request.{first}
use giti.Catalog.Rest.Served.{
  IsServed, unchanged, refuses, answers, http_err-refused, conclude-IsServed, show-IsServed,
  write_payload-answered,
}

save_style-IsServed : (s : Style) (c : Catalog) → IsServed c (save_style s c)
unfolding save_style
save_style-IsServed s c =
    conclude-IsServed c c.db _ _ [] _ refl unchanged (λ db e. creates_style s e)

upload_style-IsServed :
    (ws name body : Text) (c : Catalog) → IsServed c (upload_style ws name body c)
unfolding upload_style
upload_style-IsServed ws name body c = elim (Bool-cases (text_eq name [])) [
  | inl nameless ↦ rw nameless (refuses refl unchanged)
  | inr named ↦ rw named (
      save_style-IsServed
        (record {
          name = name;
          workspace = ws;
          format = codes "sld";
          filename = name ++ codes ".sld";
          body = body;
          model = none;
        })
        c)
]

describe_style-IsServed :
    (ws : Text) (c : Catalog) (b : Option (StyleBody × StyleBody))
    → IsServed c (describe_style ws c b)
unfolding describe_style
describe_style-IsServed ws c none = refuses refl unchanged
describe_style-IsServed ws c (some b) = elim (Bool-cases (text_eq (style_from ws b).name [])) [
  | inl nameless ↦ rw nameless (refuses refl unchanged)
  | inr named ↦ rw named (save_style-IsServed (style_from ws b) c)
]

rewrite-IsServed :
    (ws name body : Text) (c : Catalog) (m : Result StoreError Style)
    → IsServed c (rewrite ws name body c m)
unfolding rewrite
rewrite-IsServed ws name body c (err e) = refuses (http_err-refused e) unchanged
rewrite-IsServed ws name body c (ok cur) =
    conclude-IsServed c c.db _ _ [] _ refl unchanged
      (λ db e. updates_style ws name (record cur { body = body }) e)

module _ (w : Wire) (r : HttpRequest) (c : Catalog) where
  pub create_style-IsServed : (ws : Text) → IsServed c (create_style_h w r ws c)
  unfolding create_style_h
  create_style-IsServed ws = elim (Bool-cases (is_sld_upload r)) [
    | inl uploaded ↦ rw uploaded (upload_style-IsServed ws (first r.query (codes "name")) r.body c)
    | inr described ↦ rw described (describe_style-IsServed ws c _)
  ]

  pub get_style-IsServed : (ws raw : Text) → IsServed c (get_style_h w r ws raw c, c)
  unfolding get_style_h
  get_style-IsServed ws raw = elim (Bool-cases (has_suffix raw (codes ".sld"))) [
    | inl is_body ↦ rw is_body (
        show-IsServed c (λ (s : Style). reply 200 (plain s.body))
          (get_style ws (trim_suffix raw (codes ".sld")) c.db) (λ s. refl))
    | inr is_doc ↦ rw is_doc (
        show-IsServed c (λ (s : Style). write_payload r (style_doc s))
          (get_style ws (trim_format raw) c.db) (λ s. write_payload-answered r _))
  ]

  pub list_styles-IsServed : (ws : Text) → IsServed c (list_styles_h w r ws c, c)
  unfolding list_styles_h
  list_styles-IsServed ws = answers (write_payload-answered r _)

  pub update_style-IsServed : (ws raw : Text) → IsServed c (update_style_h w r ws raw c)
  unfolding update_style_h
  update_style-IsServed ws raw = rewrite-IsServed ws _ r.body c _

  pub delete_style-IsServed : (ws raw : Text) → IsServed c (delete_style_h w r ws raw c)
  unfolding delete_style_h
  delete_style-IsServed ws raw =
      conclude-IsServed c c.db (reply 200 empty_body)
        (in_workspace (codes "catalog.style.deleted") (trim_format raw) ws) []
        (delete_style ws (trim_format raw) c.db) refl unchanged
        (λ db e. deletes_style ws (trim_format raw) e)
