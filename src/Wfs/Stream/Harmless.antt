-- ===== src/Wfs/Stream/Harmless.antt =====
-- The statements that GetFeature sends to the database of a layer.
use giti.Prelude.{ℕ, not, List, [], Text, text_eq, codes, Result, Holds, Holds-eq}
use giti.Filter.Ast.{Value}
use giti.Ows.Request.{Request}
use giti.Gateway.Http.{HttpRequest}
use giti.Wfs.Model.{Layer, Column, Tools, WfsError}
use giti.Wfs.Params.{GfParams, select_columns}
use giti.Wfs.Database.{World, Reply, Action, pure, lift, ◌>>=◌, send}
use giti.Wfs.Database.Sends.{
  IsStatement, IsSafe-IsStatement, Sends, Sends-pure, Sends-lift, Sends-if, Sends-bind, Sends-after,
  Sends-attempt, Sends-attempt_after, Sends-send,
}
use giti.Wfs.GetFeature.{parse_get_feature, where_clause}
use giti.Wfs.GetFeature.Constrained.{parse_get_feature-where_clause-IsSafe}
use giti.Wfs.GetFeature.Steps.{parse_get_feature-IsSorted}
use giti.Wfs.Statements.{wire_format, count_sql, select_sql, values_sql}
use giti.Wfs.Statements.Harmless.{
  count_sql-IsStatement, select_sql-IsStatement, values_sql-IsStatement, geojson_text-IsStatement,
  gml_text-IsStatement, csv_text-IsStatement,
}
use giti.Wfs.Stream.{
  Answer, server_error, stream_error, scan_count, count_matched, stream_values, stream_geojson,
  stream_csv, stream_gml, stream, answer_features, with_features, get_feature,
}

module _ {F V : Type 0} (world : World F V) where
  -- A statement that is built first, and what is made of the reply.
  pub Sends-built :
      {A : Type 0} (built : Result WfsError Text) (args : List (Value F)) (k : Reply V → Action F A)
      → Holds IsStatement built
      → ((r : Reply V) → Sends (k r))
      → Sends (lift built >>= λ sql. send world sql args >>= k)
  Sends-built built args k h g = Sends-after built _ λ sql e.
      Sends-bind (send world sql args) k
        (Sends-send world sql args (Holds-eq IsStatement built sql h e)) g

  pub count_matched-Sends :
      (l : Layer) (cond : Text) (args : List (Value F))
      → IsStatement cond
      → Sends (count_matched world l cond args)
  unfolding count_matched
  count_matched-Sends l cond args k =
      Sends-built (count_sql l cond) args _ (count_sql-IsStatement l cond k)
        λ r. Sends-lift (scan_count r)

  module _ (quote : Text → Text) (p : GfParams F) (args : List (Value F))
      (dir : IsStatement p.sort_dir) (cond : Text) (k : IsStatement cond) where
    stream_values-Sends : (matched : ℕ) → Sends (stream_values world quote p args cond matched)
    unfolding stream_values
    stream_values-Sends matched =
        Sends-built (values_sql p cond) args _ (values_sql-IsStatement p dir cond k)
          λ r. Sends-pure _

    module _ (cols : List Column) where
      selected :
          {A : Type 0} (geom_text : Text → Text) (f : Reply V → A)
          → ((g : Text) → IsStatement g → IsStatement (geom_text g))
          → Sends (
              lift (select_sql p cols cond geom_text) >>= λ sql.
              send world sql args >>= λ r. pure (f r))
      selected geom_text f g =
          Sends-built (select_sql p cols cond geom_text) args _
            (select_sql-IsStatement p dir cols cond geom_text k g) λ r. Sends-pure (f r)

      gml-Sends :
          (matched : ℕ) (version : Text) (gml_ver : ℕ)
          → Sends (stream_gml world quote p args cols cond matched version gml_ver)
      unfolding stream_gml
      gml-Sends matched version gml_ver = selected _ _ (gml_text-IsStatement p gml_ver)

      stream-Sends :
          (format : Text) (matched : ℕ) (version : Text)
          → Sends (stream world quote p args format cols cond matched version)
      unfolding stream stream_geojson stream_csv
      stream-Sends format matched version =
          Sends-if (text_eq format (codes "geojson")) _ _
            (selected _ _ (geojson_text-IsStatement p))
            (Sends-if (text_eq format (codes "csv")) _ _ (selected _ _ csv_text-IsStatement) (
              Sends-if (text_eq format (codes "gml2")) _ _ (gml-Sends matched version 2) (
                Sends-if (text_eq format (codes "gml3")) _ _ (gml-Sends matched version 3)
                  (gml-Sends matched version 32))))

    answer_features-Sends :
        (version : Text) (matched : ℕ)
        → Sends (answer_features world quote p (cond, args) version matched)
    unfolding answer_features
    answer_features-Sends version matched = Sends-if p.count_only _ _ (Sends-pure _) (
        Sends-if (not (text_eq p.value_ref [])) _ _
          (Sends-attempt server_error _ pure (stream_values-Sends matched) Sends-pure)
          (Sends-attempt stream_error _ pure
            (stream-Sends (select_columns p.layer p.props) (wire_format p.format version) matched
              version)
            Sends-pure))

  module _ (tools : Tools F) (r : HttpRequest) (req : Request) where
    pub with_features-Sends :
        (k : GfParams F → Text × List (Value F) → ℕ → Action F Answer)
        → ((p : GfParams F) (w : Text × List (Value F)) (matched : ℕ)
            → IsStatement p.sort_dir
            → IsStatement w.0
            → Sends (k p w matched))
        → Sends (with_features world tools r req k)
    unfolding with_features
    with_features-Sends k g = Sends-attempt_after _ (parse_get_feature tools r req) _ λ p hp.
        Sends-attempt_after _ (where_clause p.filter 1) _ λ w hw.
          let harmless =
            IsSafe-IsStatement
              (parse_get_feature-where_clause-IsSafe tools r req p 1 w.0 w.1 hp hw) in
          Sends-attempt server_error (count_matched world p.layer w.0 w.1) _
            (count_matched-Sends p.layer w.0 w.1 harmless)
            λ matched. g p w matched (parse_get_feature-IsSorted tools r req p hp) harmless

    -- Whatever a request asks for and the database answers, every statement that GetFeature sends to
    -- the database of a layer for the features, to count or to select them, is made of harmless bytes,
    -- if those were that were sent before: it holds no single quote, semicolon, dash, slash or
    -- backslash. The constant statements with which Resolve reads the description of a layer are not
    -- among them.
    pub get_feature-Sends : (version : Text) → Sends (get_feature world tools r req version)
    unfolding get_feature
    get_feature-Sends version =
        with_features-Sends _
          λ p w matched dir k. answer_features-Sends tools.quote p w.1 dir w.0 k version matched
