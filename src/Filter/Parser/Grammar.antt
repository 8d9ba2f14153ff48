-- ===== src/Filter/Parser/Grammar.antt =====
-- The expressions that CQL text can denote: a declarative grammar of what the parser builds.
use giti.Prelude.{Bool, true, ◌≡◌, Text, codes, one_of}
use giti.Filter.Ast.{
  Value, Expr, Exprs, property, literal, compare, logic, negation, like, in_list, between, is_null,
  bbox, spatial, dwithin, include_all, nil, cons, pair, snoc,
}
use giti.Filter.Lexer.Progress.{compare_ops}
use giti.Filter.Parser.Leaf.{spatial_ops}

module _ {F : Type 0} where
  -- `valueExpr`: a literal or the name of a property.
  pub data IsOperand : Expr F → Type 0 where
    value : {v : Value F} → IsOperand (literal v)
    column : {t : Text} → IsOperand (property t)

  pub data IsOperands : Exprs F → Type 0 where
    none_left : IsOperands nil
    one_more : {e : Expr F} {es : Exprs F} → IsOperand e → IsOperands es → IsOperands (cons e es)

  -- Every predicate has a property on its left; the operators are those of the language.
  pub data IsParsed : Expr F → Type 0 where
    comparison :
        {op t : Text} {r : Expr F}
        → one_of op compare_ops ≡ true
        → IsOperand r
        → IsParsed (compare op (property t) r)
    conjunction :
        {a b : Expr F} → IsParsed a → IsParsed b → IsParsed (logic (codes "AND") (pair a b))
    disjunction :
        {a b : Expr F} → IsParsed a → IsParsed b → IsParsed (logic (codes "OR") (pair a b))
    negated : {e : Expr F} → IsParsed e → IsParsed (negation e)
    pattern_test : {t s : Text} {ci n : Bool} → IsParsed (like (property t) s ci n)
    membership :
        {t : Text} {es : Exprs F} {n : Bool} → IsOperands es → IsParsed (in_list (property t) es n)
    range :
        {t : Text} {lo hi : Expr F} {n : Bool}
        → IsOperand lo
        → IsOperand hi
        → IsParsed (between (property t) lo hi n)
    null_test : {t : Text} {n : Bool} → IsParsed (is_null (property t) n)
    box : {t srs : Text} {a b c d : F} → IsParsed (bbox t a b c d srs)
    relation : {op t wkt : Text} → one_of op spatial_ops ≡ true → IsParsed (spatial op t wkt)
    distance : {t wkt units : Text} {d : F} {n : Bool} → IsParsed (dwithin t wkt d units n)
    everything : IsParsed include_all

  pub snoc-IsOperands :
      {es : Exprs F} {e : Expr F} → IsOperands es → IsOperand e → IsOperands (snoc es e)
  unfolding snoc
  snoc-IsOperands none_left h = one_more h none_left
  snoc-IsOperands (one_more g gs) h = one_more g (snoc-IsOperands gs h)
