-- ===== src/Filter/Xml/Forms.antt =====
-- The expressions that an XML filter can denote: fewer than those of CQL.
use giti.Prelude.{true, false, ◌≡◌, Text, codes, one_of}
use giti.Filter.Ast.{
  Value, Expr, property, literal, compare, logic, negation, like, between, is_null, bbox, spatial,
  pair,
}
use giti.Filter.Lexer.Progress.{compare_ops}
use giti.Filter.Parser.Leaf.{spatial_ops}
use giti.Filter.Parser.Grammar.{
  IsParsed, comparison, conjunction, disjunction, negated, pattern_test, range, null_test, box,
  relation, value,
}

module _ {F : Type 0} where
  -- A property on the left and a literal, never a property, on the right; the tests for a pattern,
  -- a range and NULL have no negated form of their own.
  pub data IsXmlFilter : Expr F → Type 0 where
    compares :
        {op t : Text} {v : Value F}
        → one_of op compare_ops ≡ true
        → IsXmlFilter (compare op (property t) (literal v))
    all_of :
        {a b : Expr F}
        → IsXmlFilter a
        → IsXmlFilter b
        → IsXmlFilter (logic (codes "AND") (pair a b))
    any_of :
        {a b : Expr F} → IsXmlFilter a → IsXmlFilter b → IsXmlFilter (logic (codes "OR") (pair a b))
    none_of : {e : Expr F} → IsXmlFilter e → IsXmlFilter (negation e)
    matches : {t s : Text} → IsXmlFilter (like (property t) s false false)
    spans :
        {t : Text} {lo hi : Value F}
        → IsXmlFilter (between (property t) (literal lo) (literal hi) false)
    lacks : {t : Text} → IsXmlFilter (is_null (property t) false)
    covers : {t srs : Text} {a b c d : F} → IsXmlFilter (bbox t a b c d srs)
    relates : {op t wkt : Text} → one_of op spatial_ops ≡ true → IsXmlFilter (spatial op t wkt)

  pub IsXmlFilter-IsParsed : {e : Expr F} → IsXmlFilter e → IsParsed e
  IsXmlFilter-IsParsed (compares known) = comparison known value
  IsXmlFilter-IsParsed (all_of f g) = conjunction (IsXmlFilter-IsParsed f) (IsXmlFilter-IsParsed g)
  IsXmlFilter-IsParsed (any_of f g) = disjunction (IsXmlFilter-IsParsed f) (IsXmlFilter-IsParsed g)
  IsXmlFilter-IsParsed (none_of f) = negated (IsXmlFilter-IsParsed f)
  IsXmlFilter-IsParsed matches = pattern_test
  IsXmlFilter-IsParsed spans = range value value
  IsXmlFilter-IsParsed lacks = null_test
  IsXmlFilter-IsParsed covers = box
  IsXmlFilter-IsParsed (relates known) = relation known
