-- ===== src/Wfs/Meaning.antt =====
-- What a filter of GetFeature or of a transaction promises: it lies in the grammar of CQL, and it
-- selects no more than the constraint of the authorization does.
use giti.Prelude.{
  Bool, true, false, ◌&&◌, ◌||◌, not, ◌≡◌, refl, Option, none, some, if◌then◌else◌, text_eq, Text,
  codes, one_of, and-eq-true,
}
use giti.Filter.Ast.{Expr, Exprs, logic, negation, include_all, nil, cons}
use giti.Filter.Parser.Grammar.{IsParsed, comparison, conjunction, value}
use giti.Wfs.Params.{and_expr, id_filter, feature_id_filter}

module _ {F : Type 0} where
  -- The truth of a filter on a row, from that of its conditions: the meaning of the connectives.
  unfoldable mutual
    unfolding text_eq

    pub satisfies : (Expr F → Bool) → Expr F → Bool
    satisfies atom (logic op es) =
        if text_eq op (codes "AND") then satisfies_all atom es else satisfies_any atom es
    satisfies atom (negation e) = not (satisfies atom e)
    satisfies atom include_all = true
    satisfies atom e = atom e

    pub satisfies_all : (Expr F → Bool) → Exprs F → Bool
    satisfies_all atom nil = true
    satisfies_all atom (cons e es) = satisfies atom e && satisfies_all atom es

    pub satisfies_any : (Expr F → Bool) → Exprs F → Bool
    satisfies_any atom nil = false
    satisfies_any atom (cons e es) = satisfies atom e || satisfies_any atom es

  -- There is a filter, and every row that it selects satisfies the constraint.
  pub data IsConstrained (c : Expr F) : Option (Expr F) → Type 0 where
    constrained :
        {f : Expr F}
        → ((atom : Expr F → Bool) → satisfies atom f ≡ true → satisfies atom c ≡ true)
        → IsConstrained c (some f)

  -- There is no filter, or one of the grammar.
  pub data IsGrammatical : Option (Expr F) → Type 0 where
    absent : IsGrammatical none
    present : {f : Expr F} → IsParsed f → IsGrammatical (some f)

  pub and_expr-IsConstrained :
      (c : Expr F) (f : Option (Expr F)) → IsConstrained c (and_expr f (some c))
  unfolding and_expr satisfies satisfies_all text_eq
  and_expr-IsConstrained c none = constrained λ atom h. h
  and_expr-IsConstrained c (some f) =
      constrained
        λ atom h. (and-eq-true (satisfies atom c) true (and-eq-true (satisfies atom f) _ h).1).0

  pub and_expr-IsGrammatical :
      (f : Option (Expr F)) (e : Expr F)
      → IsGrammatical f
      → IsParsed e
      → IsGrammatical (and_expr f (some e))
  unfolding and_expr
  and_expr-IsGrammatical none e absent k = present k
  and_expr-IsGrammatical (some f) e (present h) k = present (conjunction h k)

  pub feature_id_filter-IsParsed :
      (parse_float : Text → Option F) (fid : Text) → IsParsed (feature_id_filter parse_float fid)
  unfolding feature_id_filter id_filter one_of
  feature_id_filter-IsParsed parse_float fid = comparison refl value
