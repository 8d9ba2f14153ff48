-- ===== src/Wfs/GetFeature.antt =====
-- services/wfs/internal/wfs/getfeature.go: parseGetFeature and whereClause.
pub mod Filters
pub mod Steps
pub mod Constrained
use giti.Prelude.{
  ℕ, ◌+◌, Bool, true, false, ◌&&◌, ◌||◌, not, Option, none, some, List, [], ◌∷◌, ◌++◌, map, text_eq,
  equal_fold, ltb, ◌==◌, if◌then◌else◌, Text, codes, Result, ok, err, bind, ℤ, pos, cut_last,
}
use giti.Filter.Ast.{Value, Expr, bbox}
use giti.Filter.Error.{Error}
use giti.Filter.Parser.{parse_cql}
use giti.Filter.Xml.Tree.{trim_space, fields}
use giti.Filter.Xml.Convert.{parse_filter_xml}
use giti.Filter.Sql.{to_sql}
use giti.Ows.Exception.{contains}
use giti.Ows.Negotiate.{split}
use giti.Ows.Request.{Request, get}
use giti.Gateway.Http.{HttpRequest, get_header}
use giti.Wfs.Meta.{introspect}
use giti.Wfs.Model.{
  Layer, Tools, WfsError, requires_id, malformed_id, requires_type_names, invalid_cql,
  invalid_filter, four_numbers, invalid_number, panicked, uncompilable,
}
use giti.Wfs.Params.{GfParams, split_type_name, srid_of, and_expr, atoi_default, feature_id_filter}

-- An error of a library, in the words of the service.
unfoldable pub lift_error : {E A : Type 0} → (E → WfsError) → Result E A → Result WfsError A
lift_error f (ok a) = ok a
lift_error f (err e) = err (f e)

unfoldable pub number_or : {F : Type 0} → Text → Option F → Result WfsError F
number_or t none = err (invalid_number t)
number_or t (some v) = ok v

unfoldable pub number_of : {F : Type 0} → (Text → Option F) → Text → Result WfsError F
unfolding number_or trim_space
number_of parse_float t = number_or t (parse_float (trim_space t))

-- `parseBBox`: the first four parts; those behind them are not read.
unfoldable pub bbox_of :
    {F : Type 0} → (Text → Option F) → Text → List Text → Result WfsError (Expr F)
unfolding number_of
bbox_of parse_float geom_col (a ∷ b ∷ c ∷ d ∷ parts) = bind (number_of parse_float a) λ x.
    bind (number_of parse_float b) λ y.
      bind (number_of parse_float c)
        λ z. bind (number_of parse_float d) λ w. ok (bbox geom_col x y z w [])
bbox_of parse_float geom_col parts = err four_numbers

unfoldable pub parse_bbox_param :
    {F : Type 0} → (Text → Option F) → Text → Text → Result WfsError (Expr F)
unfolding bbox_of split
parse_bbox_param parse_float raw geom_col = bbox_of parse_float geom_col (split b',' raw)

-- `if v := …; v != "" { e, err := parse(v); …; combined = andExpr(combined, e) }`
unfoldable pub with_filter :
    {F : Type 0}
    → Text
    → (Text → Result WfsError (Expr F))
    → Option (Expr F)
    → Result WfsError (Option (Expr F))
unfolding and_expr
with_filter [] parse combined = ok combined
with_filter (c ∷ raw) parse combined = bind (parse (c ∷ raw)) λ e. ok (and_expr combined (some e))

-- The constraint of the authorization, which is left out where it does not parse.
unfoldable pub with_constraint :
    {F : Type 0} → Result Error (Expr F) → Option (Expr F) → Option (Expr F)
unfolding and_expr
with_constraint (ok e) combined = and_expr combined (some e)
with_constraint (err x) combined = combined

unfoldable pub constrain_by :
    {F : Type 0} → (Text → Option F) → Text → Option (Expr F) → Option (Expr F)
unfolding with_constraint
constrain_by parse_float [] combined = combined
constrain_by parse_float (c ∷ cql) combined =
    with_constraint (parse_cql parse_float (c ∷ cql)) combined

-- The type name and the identifier of a stored query.
unfoldable pub stored_parts : Option (Text × Text) → Result WfsError (Text × Text)
stored_parts none = err malformed_id
stored_parts (some parts) = ok parts

unfoldable pub stored_query : Text → Text → Text → Result WfsError (Text × Text)
unfolding contains stored_parts cut_last text_eq
stored_query query_id id tn =
    if contains query_id (codes "GetFeatureById")
    then (if text_eq id [] then err requires_id else stored_parts (cut_last b'.' id))
    else ok (tn, [])

unfoldable pub either_of : Text → Text → Text
either_of [] b = b
either_of (c ∷ a) b = c ∷ a

unfoldable pub sort_column : List Text → Result WfsError (Text × Text)
unfolding equal_fold
sort_column [] = err panicked
sort_column (col ∷ []) = ok (col, codes "ASC")
sort_column (col ∷ dir ∷ rest) = ok (
  col,
  if equal_fold dir (codes "D") || equal_fold dir (codes "DESC") then codes "DESC" else codes "ASC",
)

-- `strings.ReplaceAll(sb, "+", " ")`
unfoldable pub plus_to_space : Text → Text
plus_to_space [] = []
plus_to_space (c ∷ s) = (if c == b'+' then b' ' else c) ∷ plus_to_space s

unfoldable pub sort_of : Text → Result WfsError (Text × Text)
unfolding sort_column plus_to_space fields
sort_of [] = ok ([], [])
sort_of (c ∷ sb) = sort_column (fields (plus_to_space (c ∷ sb)))

unfoldable pub props_of : Text → Text → List Text
unfolding trim_space split
props_of [] [] = []
props_of (c ∷ names) [] = map trim_space (split b',' (c ∷ names))
props_of names (c ∷ ref) = trim_space (c ∷ ref) ∷ []

module _ {F : Type 0} (tools : Tools F) where
  unfoldable pub by_cql : Text → Option (Expr F) → Result WfsError (Option (Expr F))
  unfolding with_filter lift_error
  by_cql text f = with_filter text (λ t. lift_error invalid_cql (parse_cql tools.parse_float t)) f

  unfoldable pub by_xml : Text → Option (Expr F) → Result WfsError (Option (Expr F))
  unfolding with_filter lift_error parse_filter_xml
  by_xml text f =
      let parse = parse_filter_xml tools.scan_float tools.print_float in
      with_filter text (λ t. lift_error invalid_filter (parse (tools.xml_tokens t))) f

  unfoldable pub by_box : Text → Text → Option (Expr F) → Result WfsError (Option (Expr F))
  unfolding with_filter parse_bbox_param
  by_box geom_col text f = with_filter text (λ t. parse_bbox_param tools.parse_float t geom_col) f

  unfoldable pub by_id : Text → Option (Expr F) → Result WfsError (Option (Expr F))
  unfolding with_filter feature_id_filter
  by_id text f = with_filter text (λ t. ok (feature_id_filter tools.parse_float t)) f

  -- The filters of the request in order: CQL, XML, the box, the identifiers and the constraint.
  unfoldable pub combined_filter :
      HttpRequest → Request → Layer → Text → Result WfsError (Option (Expr F))
  unfolding by_cql by_xml by_box by_id constrain_by get get_header
  combined_filter r req layer stored_fid = bind (by_cql (get req (codes "CQL_FILTER")) none) λ a.
      bind (by_xml (get req (codes "FILTER")) a) λ b.
        bind (by_box layer.geom_col (get req (codes "BBOX")) b) λ c.
          bind (by_id (get req (codes "featureID")) c) λ d. bind (by_id stored_fid d) λ e.
            ok (constrain_by tools.parse_float (get_header (codes "X-Giti-CQL-Read") r.header) e)

  -- The rest of the parameters, once the layer and the filter are there.
  unfoldable pub finish_params : Request → Layer → Option (Expr F) → Result WfsError (GfParams F)
  unfolding get props_of sort_of either_of atoi_default srid_of equal_fold trim_space
  finish_params req layer filter = bind (sort_of (get req (codes "sortBy"))) λ (col, dir).
      ok record {
        layer = layer;
        filter = filter;
        props = props_of (get req (codes "propertyName")) (get req (codes "valueReference"));
        sort_col = col;
        sort_dir = dir;
        offset = atoi_default (get req (codes "startIndex")) (pos 0);
        limit =
            atoi_default (either_of (get req (codes "count")) (get req (codes "maxFeatures")))
              (pos 0);
        count_only = equal_fold (get req (codes "resultType")) (codes "hits");
        format = get req (codes "outputFormat");
        out_srid = srid_of (get req (codes "srsName"));
        value_ref = trim_space (get req (codes "valueReference"));
      }

  unfoldable pub with_layer : HttpRequest → Request → Text → Layer → Result WfsError (GfParams F)
  unfolding combined_filter finish_params
  with_layer r req stored_fid layer =
      bind (combined_filter r req layer stored_fid) λ filter. finish_params req layer filter

  unfoldable pub with_type : HttpRequest → Request → Text × Text → Result WfsError (GfParams F)
  unfolding with_layer split_type_name get_header text_eq introspect
  with_type r req (tn, stored_fid) =
      let (ws, name) = split_type_name tn (get_header (codes "X-Giti-Workspace") r.header) in
      if text_eq tn []
      then err requires_type_names
      else bind (introspect tools.catalog ws name) λ layer. with_layer r req stored_fid layer

  unfoldable pub parse_get_feature : HttpRequest → Request → Result WfsError (GfParams F)
  unfolding stored_query with_type get either_of
  parse_get_feature r req =
      bind
        (stored_query (get req (codes "STOREDQUERY_ID")) (get req (codes "ID"))
          (either_of (get req (codes "typeNames")) (get req (codes "typeName"))))
        λ parts. with_type r req parts

unfoldable pub prefix_where : {F : Type 0} → Text × List (Value F) → Text × List (Value F)
prefix_where (sql, args) = (codes " WHERE " ++ sql, args)

unfoldable pub where_clause :
    {F : Type 0} → Option (Expr F) → ℕ → Result WfsError (Text × List (Value F))
unfolding lift_error prefix_where
where_clause none start = ok ([], [])
where_clause (some e) start =
    bind (lift_error uncompilable (to_sql e start)) λ w. ok (prefix_where w)
