-- ===== src/Wfs/GetFeature/Filters.antt =====
-- The filters that the parameters of GetFeature make: what is true of the filter that combines them.
use giti.Prelude.{
  ℕ, ◌≡◌, refl, Option, none, List, [], ◌∷◌, Text, codes, Result, ok, err, Holds, returns, raises,
  Holds-bind, Holds-bind_any,
}
use giti.Filter.Ast.{Expr}
use giti.Filter.Error.{Error}
use giti.Filter.Parser.{parse_cql}
use giti.Filter.Parser.Grammar.{IsParsed, box}
use giti.Filter.Parser.Total.{parse_cql-IsParsed}
use giti.Filter.Xml.Grammar.{parse_filter_xml-IsParsed}
use giti.Ows.Negotiate.{split}
use giti.Ows.Request.{Request, get}
use giti.Gateway.Http.{HttpRequest, get_header}
use giti.Wfs.Model.{Layer, Tools, WfsError, invalid_cql, invalid_filter}
use giti.Wfs.Meaning.{
  IsConstrained, IsGrammatical, absent, and_expr-IsConstrained, and_expr-IsGrammatical,
  feature_id_filter-IsParsed,
}
use giti.Wfs.GetFeature.{
  lift_error, number_of, bbox_of, parse_bbox_param, with_filter, with_constraint, constrain_by,
  by_cql, by_xml, by_box, by_id, combined_filter,
}

pub lift_error-Holds :
    {E A : Type 0} (P : A → Type 0) (f : E → WfsError) (m : Result E A)
    → ((a : A) → m ≡ ok a → P a)
    → Holds P (lift_error f m)
unfolding lift_error
lift_error-Holds P f (ok e) h = returns (h e refl)
lift_error-Holds P f (err x) h = raises

module _ {F : Type 0} where
  with_filter-Holds :
      (raw : Text) (parse : Text → Result WfsError (Expr F)) (f : Option (Expr F))
      → ((t : Text) → Holds IsParsed (parse t))
      → IsGrammatical f
      → Holds IsGrammatical (with_filter raw parse f)
  unfolding with_filter
  with_filter-Holds [] parse f h k = returns k
  with_filter-Holds (c ∷ raw) parse f h k =
      Holds-bind _ IsParsed _ _ (h (c ∷ raw)) λ e p. returns (and_expr-IsGrammatical f e k p)

  bbox_of-Holds :
      (parse_float : Text → Option F) (geom_col : Text) (parts : List Text)
      → Holds IsParsed (bbox_of parse_float geom_col parts)
  unfolding bbox_of
  bbox_of-Holds pf g [] = raises
  bbox_of-Holds pf g (a ∷ []) = raises
  bbox_of-Holds pf g (a ∷ b ∷ []) = raises
  bbox_of-Holds pf g (a ∷ b ∷ c ∷ []) = raises
  bbox_of-Holds pf g (a ∷ b ∷ c ∷ d ∷ parts) = Holds-bind_any _ (number_of pf a) _ λ x.
      Holds-bind_any _ (number_of pf b) _ λ y.
        Holds-bind_any _ (number_of pf c) _
          λ z. Holds-bind_any _ (number_of pf d) _ λ w. returns box

  with_constraint-IsGrammatical :
      (m : Result Error (Expr F)) (f : Option (Expr F))
      → ((e : Expr F) → m ≡ ok e → IsParsed e)
      → IsGrammatical f
      → IsGrammatical (with_constraint m f)
  unfolding with_constraint
  with_constraint-IsGrammatical (ok e) f h k = and_expr-IsGrammatical f e k (h e refl)
  with_constraint-IsGrammatical (err x) f h k = k

  pub constrain_by-IsGrammatical :
      (parse_float : Text → Option F) (cql : Text) (f : Option (Expr F))
      → IsGrammatical f
      → IsGrammatical (constrain_by parse_float cql f)
  unfolding constrain_by
  constrain_by-IsGrammatical pf [] f k = k
  constrain_by-IsGrammatical pf (c ∷ cql) f k =
      with_constraint-IsGrammatical _ f (parse_cql-IsParsed pf (c ∷ cql)) k

  pub constrain_by-IsConstrained :
      (parse_float : Text → Option F) (c : ℕ) (cs : Text) (e : Expr F) (f : Option (Expr F))
      → parse_cql parse_float (c ∷ cs) ≡ ok e
      → IsConstrained e (constrain_by parse_float (c ∷ cs) f)
  unfolding constrain_by with_constraint
  constrain_by-IsConstrained pf c cs e f h = rw h (and_expr-IsConstrained e f)

  module _ (tools : Tools F) where
    by_cql-Holds :
        (t : Text) (f : Option (Expr F)) → IsGrammatical f → Holds IsGrammatical (by_cql tools t f)
    unfolding by_cql
    by_cql-Holds t f =
        with_filter-Holds t _ f
          λ u. lift_error-Holds IsParsed invalid_cql _ (parse_cql-IsParsed tools.parse_float u)

    by_xml-Holds :
        (t : Text) (f : Option (Expr F)) → IsGrammatical f → Holds IsGrammatical (by_xml tools t f)
    unfolding by_xml
    by_xml-Holds t f = with_filter-Holds t _ f λ u.
        lift_error-Holds IsParsed invalid_filter _
          (parse_filter_xml-IsParsed tools.scan_float tools.print_float (tools.xml_tokens u))

    by_box-Holds :
        (g t : Text) (f : Option (Expr F))
        → IsGrammatical f
        → Holds IsGrammatical (by_box tools g t f)
    unfolding by_box parse_bbox_param
    by_box-Holds g t f =
        with_filter-Holds t _ f λ u. bbox_of-Holds tools.parse_float g (split b',' u)

    by_id-Holds :
        (t : Text) (f : Option (Expr F)) → IsGrammatical f → Holds IsGrammatical (by_id tools t f)
    unfolding by_id
    by_id-Holds t f =
        with_filter-Holds t _ f λ u. returns (feature_id_filter-IsParsed tools.parse_float u)

    module _ (r : HttpRequest) (req : Request) (layer : Layer) (fid : Text) where
      pub combined_filter-IsGrammatical :
          Holds IsGrammatical (combined_filter tools r req layer fid)
      unfolding combined_filter
      combined_filter-IsGrammatical =
          let q : Text → Text = λ k. get req k in
          Holds-bind _ IsGrammatical (by_cql tools (q (codes "CQL_FILTER")) none) _
            (by_cql-Holds _ none absent)
            λ a ha.
              Holds-bind _ IsGrammatical (by_xml tools (q (codes "FILTER")) a) _
                (by_xml-Holds _ a ha)
                λ b hb.
                  Holds-bind _ IsGrammatical (by_box tools layer.geom_col (q (codes "BBOX")) b) _
                    (by_box-Holds layer.geom_col (q (codes "BBOX")) b hb)
                    λ c hc.
                      Holds-bind _ IsGrammatical (by_id tools (q (codes "featureID")) c) _
                        (by_id-Holds _ c hc)
                        λ d hd.
                          Holds-bind _ IsGrammatical (by_id tools fid d) _ (by_id-Holds _ d hd)
                            λ e he. returns (constrain_by-IsGrammatical tools.parse_float _ e he)

      pub combined_filter-IsConstrained :
          (c : ℕ) (cs : Text) (e : Expr F)
          → get_header (codes "X-Giti-CQL-Read") r.header ≡ c ∷ cs
          → parse_cql tools.parse_float (c ∷ cs) ≡ ok e
          → Holds (IsConstrained e) (combined_filter tools r req layer fid)
      unfolding combined_filter
      combined_filter-IsConstrained c cs e h k =
          let q : Text → Text = λ k. get req k in
          Holds-bind_any _ (by_cql tools (q (codes "CQL_FILTER")) none) _ λ v.
            Holds-bind_any _ (by_xml tools (q (codes "FILTER")) v) _ λ w.
              Holds-bind_any _ (by_box tools layer.geom_col (q (codes "BBOX")) w) _ λ x.
                Holds-bind_any _ (by_id tools (q (codes "featureID")) x) _ λ y.
                  Holds-bind_any _ (by_id tools fid y) _
                    λ f. returns (rw h (constrain_by-IsConstrained tools.parse_float c cs e f k))
