-- ===== src/Wfs/Stream.antt =====
-- services/wfs/internal/wfs/getfeature.go: getFeature, with countMatched and the streams of
-- encode.go, transaction.go and stored_lock.go.
pub mod Harmless
use giti.Prelude.{
  ℕ, Bool, not, Option, none, some, List, [], ◌++◌, text_eq, if◌then◌else◌, Text, codes, decimal,
  Result, ok, err,
}
use giti.Filter.Ast.{Value}
use giti.Ows.Request.{Request}
use giti.Ows.Exception.{has_prefix}
use giti.Gateway.Http.{HttpRequest}
use giti.Wfs.Model.{Layer, Column, Tools, WfsError, database}
use giti.Wfs.Params.{GfParams, select_columns}
use giti.Wfs.Database.{World, Reply, Action, pure, lift, ◌>>=◌, attempt, send}
use giti.Wfs.GetFeature.{parse_get_feature, where_clause}
use giti.Wfs.Statements.{
  wire_format, count_sql, select_sql, values_sql, geojson_text, csv_text, gml_text,
}
use giti.Wfs.Encode.{geojson_body, csv_body}
use giti.Wfs.Encode.Gml.{gml_body, values_body}

-- A response: an exception report, or a document with the error that is written behind it.
pub data Answer : Type 0 where
  exception : Text → Text → WfsError → ℕ → Answer
  document : Text → Text → Option WfsError → Answer

unfoldable pub param_error : Text → WfsError → Answer
param_error locator e = exception (codes "InvalidParameterValue") locator e 400

unfoldable pub server_error : WfsError → Answer
server_error e = exception (codes "NoApplicableCode") (codes "") e 500

-- `writeHits`
unfoldable pub hits_body : Text → ℕ → Text
unfolding has_prefix decimal
hits_body version matched =
    codes "<?xml version=\"1.0\" encoding=\"UTF-8\"?>"
    ++ (if has_prefix version (codes "2.")
        then codes
            "<wfs:FeatureCollection xmlns:wfs=\"http://www.opengis.net/wfs/2.0\" numberMatched=\""
          ++ (decimal matched ++ codes "\" numberReturned=\"0\"/>")
        else codes
            "<wfs:FeatureCollection xmlns:wfs=\"http://www.opengis.net/wfs\" numberOfFeatures=\""
          ++ (decimal matched ++ codes "\"/>"))

-- `QueryRow(…).Scan(&n)`
unfoldable pub scan_count : {V : Type 0} → Reply V → Result WfsError ℕ
scan_count r = elim r.end_error [ none ↦ ok r.number | some e ↦ err (database e) ]

unfoldable pub row_error : Option Text → Option WfsError
row_error none = none
row_error (some e) = some (database e)

unfoldable pub stream_error : WfsError → Answer
stream_error e = document [] [] (some e)

module _ {F V : Type 0} (world : World F V) where
  unfoldable pub count_matched : Layer → Text → List (Value F) → Action F ℕ
  unfolding count_sql send scan_count
  count_matched l cond args =
      lift (count_sql l cond) >>= λ sql. send world sql args >>= λ r. lift (scan_count r)

  module _ (quote : Text → Text) (p : GfParams F) (args : List (Value F)) where
    unfoldable pub stream_values : Text → ℕ → Action F Answer
    unfolding values_sql send values_body
    stream_values cond matched = lift (values_sql p cond) >>= λ sql. send world sql args >>= λ r.
        pure (document (codes "application/xml") (values_body world quote p matched r.rows) none)

    unfoldable pub stream_geojson : List Column → Text → ℕ → Action F Answer
    unfolding select_sql geojson_text send geojson_body row_error
    stream_geojson cols cond matched = lift (select_sql p cols cond (geojson_text p)) >>= λ sql.
        send world sql args >>= λ r. pure (
          document (codes "application/json") (geojson_body world quote p cols matched r)
            (row_error r.end_error))

    unfoldable pub stream_csv : List Column → Text → Action F Answer
    unfolding select_sql csv_text send csv_body row_error
    stream_csv cols cond = lift (select_sql p cols cond csv_text) >>= λ sql.
        send world sql args >>= λ r.
        pure (document (codes "text/csv") (csv_body world quote p cols r) (row_error r.end_error))

    unfoldable pub stream_gml : List Column → Text → ℕ → Text → ℕ → Action F Answer
    unfolding select_sql gml_text send gml_body row_error
    stream_gml cols cond matched version gml_ver =
        lift (select_sql p cols cond (gml_text gml_ver p)) >>= λ sql. send world sql args >>= λ r.
        pure (
          document (codes "text/xml")
            (gml_body world quote p version cols matched r.rows r.end_error)
            (row_error r.end_error))

    -- The switch on `wireFormat`.
    unfoldable pub stream : Text → List Column → Text → ℕ → Text → Action F Answer
    unfolding stream_geojson stream_csv stream_gml text_eq
    stream format cols cond matched version =
        if text_eq format (codes "geojson")
        then stream_geojson cols cond matched
        else if text_eq format (codes "csv")
        then stream_csv cols cond
        else if text_eq format (codes "gml2")
        then stream_gml cols cond matched version 2
        else if text_eq format (codes "gml3")
        then stream_gml cols cond matched version 3
        else stream_gml cols cond matched version 32

  unfoldable pub answer_features :
      (Text → Text) → GfParams F → Text × List (Value F) → Text → ℕ → Action F Answer
  unfolding hits_body stream_values server_error stream stream_error wire_format select_columns
      text_eq
  answer_features quote p (cond, args) version matched =
      if p.count_only
      then pure (document (codes "text/xml") (hits_body version matched) none)
      else if not (text_eq p.value_ref [])
      then attempt server_error (stream_values quote p args cond matched) pure
      else attempt stream_error
          (stream quote p args (wire_format p.format version) (select_columns p.layer p.props) cond
            matched version)
          pure

  -- The steps that getFeature and lockFeature share: the parameters, the condition and the count.
  unfoldable pub with_features :
      Tools F
      → HttpRequest
      → Request
      → (GfParams F → Text × List (Value F) → ℕ → Action F Answer)
      → Action F Answer
  unfolding parse_get_feature where_clause count_matched param_error server_error
  with_features tools r req k =
      attempt (param_error (codes "typeNames")) (lift (parse_get_feature tools r req)) λ p.
        attempt (param_error (codes "filter")) (lift (where_clause p.filter 1))
          λ w. attempt server_error (count_matched p.layer w.0 w.1) λ matched. k p w matched

  unfoldable pub get_feature : Tools F → HttpRequest → Request → Text → Action F Answer
  unfolding with_features answer_features
  get_feature tools r req version =
      with_features tools r req λ p w matched. answer_features tools.quote p w version matched
