-- ===== src/Filter/Xml/Shape.antt =====
-- The shape of the expressions that come from XML.
use giti.Prelude.{Bool, true, false, ◌&&◌, ◌||◌, Option, List, ◌≡◌, refl, text_eq, Text, codes, ok}
use giti.Filter.Ast.{Expr, logic, negation, nil, cons}
use giti.Filter.Parser.Grammar.{
  IsParsed, comparison, conjunction, disjunction, negated, pattern_test, membership, range,
  null_test, box, relation, distance, everything,
}
use giti.Filter.Xml.Tree.{XmlToken}
use giti.Filter.Xml.Convert.{parse_filter_xml}
use giti.Filter.Xml.Grammar.{parse_filter_xml-IsParsed}

unfoldable is_logic_op : Text → Bool
is_logic_op op = text_eq op (codes "AND") || text_eq op (codes "OR")

-- Every conjunction and disjunction has two operands, and every negation one.
unfoldable pub is_binary : {F : Type 0} → Expr F → Bool
unfolding is_logic_op
is_binary (logic op (cons a (cons b nil))) = is_logic_op op && (is_binary a && is_binary b)
is_binary (logic op es) = false
is_binary (negation e) = is_binary e
is_binary _ = true

IsParsed-is_binary : {F : Type 0} {e : Expr F} → IsParsed e → is_binary e ≡ true
unfolding is_binary text_eq
IsParsed-is_binary (comparison k o) = refl
IsParsed-is_binary (conjunction a b) = rw (IsParsed-is_binary a) (IsParsed-is_binary b)
IsParsed-is_binary (disjunction a b) = rw (IsParsed-is_binary a) (IsParsed-is_binary b)
IsParsed-is_binary (negated a) = IsParsed-is_binary a
IsParsed-is_binary pattern_test = refl
IsParsed-is_binary (membership os) = refl
IsParsed-is_binary (range lo hi) = refl
IsParsed-is_binary null_test = refl
IsParsed-is_binary box = refl
IsParsed-is_binary (relation k) = refl
IsParsed-is_binary distance = refl
IsParsed-is_binary everything = refl

-- Every expression that an XML filter is read as has conjunctions and disjunctions of exactly two
-- operands, named AND and OR, however many operands their elements have.
pub parse_filter_xml-is_binary :
    {F : Type 0} (scan : Text → Option F) (print : F → Text) (tokens : List XmlToken × Text)
    (e : Expr F)
    → parse_filter_xml scan print tokens ≡ ok e
    → is_binary e ≡ true
parse_filter_xml-is_binary scan print tokens e h =
    IsParsed-is_binary (parse_filter_xml-IsParsed scan print tokens e h)
