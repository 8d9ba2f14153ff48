-- ===== src/Wfs/GetFeature/Constrained.antt =====
-- The filter of GetFeature: the constraint of the authorization holds of every row that it
-- selects, and its SQL is made of harmless bytes.
use giti.Prelude.{
  ℕ, ◌≡◌, refl, Option, none, some, List, ◌∷◌, Text, codes, ok, Holds, returns, Holds-bind,
  Holds-eq,
}
use giti.Filter.Ast.{Value, Expr}
use giti.Filter.Parser.{parse_cql}
use giti.Filter.Sql.Safe.{to_sql-IsSafe}
use giti.Filter.Sql.SafeText.{IsSafe, IsSafe-append, by_bytes, is_sql_byte}
use giti.Ows.Request.{Request}
use giti.Gateway.Http.{HttpRequest, get_header}
use giti.Wfs.Model.{Tools}
use giti.Wfs.Params.{GfParams}
use giti.Wfs.Meaning.{IsConstrained, IsGrammatical, absent, present}
use giti.Wfs.GetFeature.{parse_get_feature, prefix_where, where_clause}
use giti.Wfs.GetFeature.Filters.{
  lift_error-Holds, combined_filter-IsGrammatical, combined_filter-IsConstrained,
}
use giti.Wfs.GetFeature.Steps.{parse_get_feature-filter}

module _ {F : Type 0} where
  IsSafeClause : Text × List (Value F) → Type 0
  IsSafeClause w = IsSafe w.0

  where_clause-Holds :
      (f : Option (Expr F)) (start : ℕ)
      → IsGrammatical f
      → Holds IsSafeClause (where_clause f start)
  unfolding where_clause prefix_where IsSafeClause is_sql_byte
  where_clause-Holds none start absent = returns (by_bytes refl)
  where_clause-Holds (some f) start (present k) =
      Holds-bind _ IsSafeClause _ _
        (lift_error-Holds IsSafeClause _ _ λ w h. to_sql-IsSafe f start w.0 w.1 k h)
        λ w h. returns (IsSafe-append (codes " WHERE ") w.0 (by_bytes refl) h)

  pub where_clause-IsSafe :
      (f : Option (Expr F)) (start : ℕ) (w : Text) (args : List (Value F))
      → IsGrammatical f
      → where_clause f start ≡ ok (w, args)
      → IsSafe w
  unfolding IsSafeClause
  where_clause-IsSafe f start w args k h =
      Holds-eq IsSafeClause _ (w, args) (where_clause-Holds f start k) h

  -- Where the gateway sends a constraint that parses, the parameters of GetFeature have a filter, and
  -- every row that satisfies it satisfies the constraint, whatever the request asks for.
  pub parse_get_feature-IsConstrained :
      (tools : Tools F) (r : HttpRequest) (req : Request) (c : ℕ) (cs : Text) (e : Expr F)
      (p : GfParams F)
      → get_header (codes "X-Giti-CQL-Read") r.header ≡ c ∷ cs
      → parse_cql tools.parse_float (c ∷ cs) ≡ ok e
      → parse_get_feature tools r req ≡ ok p
      → IsConstrained e p.filter
  parse_get_feature-IsConstrained tools r req c cs e p h k q =
      parse_get_feature-filter tools r req (IsConstrained e)
        (λ layer fid. combined_filter-IsConstrained tools r req layer fid c cs e h k) p q

  pub parse_get_feature-IsGrammatical :
      (tools : Tools F) (r : HttpRequest) (req : Request) (p : GfParams F)
      → parse_get_feature tools r req ≡ ok p
      → IsGrammatical p.filter
  parse_get_feature-IsGrammatical tools r req p h =
      parse_get_feature-filter tools r req IsGrammatical (combined_filter-IsGrammatical tools r req)
        p h

  -- The WHERE clause of every request that GetFeature accepts is made of harmless bytes, from
  -- whichever of its five parameters and of the constraint the filter comes.
  pub parse_get_feature-where_clause-IsSafe :
      (tools : Tools F) (r : HttpRequest) (req : Request) (p : GfParams F) (start : ℕ) (w : Text)
      (args : List (Value F))
      → parse_get_feature tools r req ≡ ok p
      → where_clause p.filter start ≡ ok (w, args)
      → IsSafe w
  parse_get_feature-where_clause-IsSafe tools r req p start w args h =
      where_clause-IsSafe p.filter start w args (parse_get_feature-IsGrammatical tools r req p h)
