-- ===== src/Wfs/Statements.antt =====
-- The statements of services/wfs/internal/wfs/encode.go, transaction.go and stored_lock.go that
-- read features.
pub mod Harmless
use giti.Prelude.{
  ℕ, Bool, ◌&&◌, ◌||◌, not, List, [], ◌∷◌, ◌++◌, ltb, ◌==◌, if◌then◌else◌, Text, text_eq, codes,
  to_lower, decimal, join, ℤ, pos, negsuc, Result, ok, err, bind,
}
use giti.Filter.Sql.{ident_matches}
use giti.Ows.Exception.{contains, has_prefix}
use giti.Wfs.Model.{Layer, Column, WfsError, invalid_ident}
use giti.Wfs.Params.{GfParams}

-- `qi`; `identRe` is the expression of the filters.
unfoldable pub qi : Text → Result WfsError Text
unfolding ident_matches
qi name = if ident_matches name then ok (b'"' ∷ (name ++ (b'"' ∷ []))) else err (invalid_ident name)

unfoldable pub wire_format : Text → Text → Text
unfolding contains has_prefix to_lower text_eq
wire_format output_format version =
    let of = to_lower output_format in
    if contains of (codes "json")
    then codes "geojson"
    else if contains of (codes "csv")
    then codes "csv"
    else if contains of (codes "gml2")
        || (text_eq of (codes "gml") && has_prefix version (codes "1.0"))
    then codes "gml2"
    else if has_prefix version (codes "1.0")
    then codes "gml2"
    else if has_prefix version (codes "1.1")
    then codes "gml3"
    else codes "gml32"

-- The quoted names of the columns, in order.
unfoldable pub quoted_columns : List Column → Result WfsError (List Text)
unfolding qi
quoted_columns [] = ok []
quoted_columns (c ∷ cols) = bind (qi c.name) λ q. bind (quoted_columns cols) λ qs. ok (q ∷ qs)

unfoldable pub count_sql : Layer → Text → Result WfsError Text
unfolding qi
count_sql l cond = bind (qi l.table) λ table. ok (codes "SELECT count(*) FROM " ++ (table ++ cond))

unfoldable pub ids_sql : Layer → Text → Result WfsError Text
unfolding qi
ids_sql l cond = bind (qi l.table) λ table. ok (codes "SELECT id::text FROM " ++ (table ++ cond))

-- ` OFFSET %d` and ` LIMIT %d` of a number that is positive.
unfoldable pub bounded : Text → ℤ → Text
unfolding decimal
bounded word (pos n) = if ltb 0 n then word ++ decimal n else []
bounded word (negsuc n) = []

unfoldable pub order_by : Result WfsError Text → Text → Text
order_by (ok q) dir = codes " ORDER BY " ++ (q ++ (codes " " ++ dir))
order_by (err e) dir = []

unfoldable pub csv_text : Text → Text
csv_text geom = codes "ST_AsText(" ++ (geom ++ codes ")")

unfoldable pub gml_dim : ℕ → ℕ
gml_dim gml_ver = if gml_ver == 32 || gml_ver == 3 then 3 else 2

module _ {F : Type 0} where
  unfoldable pub order_limit_offset : GfParams F → Text
  unfolding qi order_by bounded text_eq
  order_limit_offset p =
      let order = if text_eq p.sort_col [] then [] else order_by (qi p.sort_col) p.sort_dir in
      order ++ (bounded (codes " OFFSET ") p.offset ++ bounded (codes " LIMIT ") p.limit)

  unfoldable pub geom_expr : GfParams F → Text → Text
  unfolding decimal
  geom_expr p geom =
      if ltb 0 p.out_srid && not (p.out_srid == p.layer.srid)
      then codes "ST_Transform(" ++ (geom ++ (codes ", " ++ (decimal p.out_srid ++ codes ")")))
      else geom

  -- The table, the geometry and the columns, in the order in which the code quotes them.
  unfoldable pub select_sql : GfParams F → List Column → Text → (Text → Text) → Result WfsError Text
  unfolding qi quoted_columns order_limit_offset join
  select_sql p cols cond geom_text = bind (qi p.layer.table) λ table.
      bind (qi p.layer.geom_col) λ geom. bind (quoted_columns cols) λ sel. ok (
        codes "SELECT "
        ++ (join (codes ", ") sel
            ++ (codes ", "
                ++ (geom_text geom
                    ++ (codes " FROM " ++ (table ++ (cond ++ order_limit_offset p)))))))

  unfoldable pub geojson_text : GfParams F → Text → Text
  unfolding geom_expr
  geojson_text p geom = codes "ST_AsGeoJSON(" ++ (geom_expr p geom ++ codes ")")

  unfoldable pub gml_text : ℕ → GfParams F → Text → Text
  unfolding gml_dim geom_expr decimal
  gml_text gml_ver p geom =
      codes "ST_AsGML("
      ++ (decimal (gml_dim gml_ver) ++ (codes ", " ++ (geom_expr p geom ++ codes ", 8)")))

  unfoldable pub values_sql : GfParams F → Text → Result WfsError Text
  unfolding qi order_limit_offset
  values_sql p cond = bind (qi p.layer.table) λ table. bind (qi p.value_ref) λ col. ok (
      codes "SELECT "
      ++ (col ++ (codes "::text FROM " ++ (table ++ (cond ++ order_limit_offset p)))))
