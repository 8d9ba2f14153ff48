-- ===== src/Wfs/Xml/Edits.antt =====
-- The filter of an update or a deletion: the constraint of the authorization holds of every row that
-- it selects, and its SQL is made of harmless bytes.
use giti.Prelude.{
  ℕ, ◌≡◌, Option, none, some, List, [], ◌∷◌, Text, codes, ok, bind-eq-ok, Holds, returns,
  Holds-bind, Holds-bind_any, Holds-eq,
}
use giti.Filter.Ast.{Value, Expr}
use giti.Filter.Parser.{parse_cql}
use giti.Filter.Parser.Grammar.{IsParsed}
use giti.Filter.Sql.SafeText.{IsSafe}
use giti.Filter.Xml.Grammar.{parse_filter_xml-IsParsed}
use giti.Filter.Xml.Tree.{Node, Nodes, node, leaf, child}
use giti.Gateway.Http.{HttpRequest, get_header}
use giti.Wfs.Model.{Tools, invalid_filter}
use giti.Wfs.Meaning.{IsConstrained, IsGrammatical, absent, present, feature_id_filter-IsParsed}
use giti.Wfs.GetFeature.Filters.{
  lift_error-Holds, constrain_by-IsGrammatical, constrain_by-IsConstrained,
}
use giti.Wfs.GetFeature.Constrained.{where_clause-IsSafe}
use giti.Wfs.Xml.{
  raw_id, id_or_later, feature_id_from_filter, parsed_filter, some_ok, op_filter, find_child,
  kids_of, tx_filter, tx_filter_where, reserialize,
}

module _ {F : Type 0} where
  id_or_later-IsGrammatical :
      (pf : Text → Option F) (raw : Text) (rest : Option (Expr F))
      → IsGrammatical rest
      → IsGrammatical (id_or_later pf raw rest)
  unfolding id_or_later
  id_or_later-IsGrammatical pf [] rest h = h
  id_or_later-IsGrammatical pf (c ∷ raw) rest h = present (feature_id_filter-IsParsed pf (c ∷ raw))

  feature_id-IsGrammatical :
      (pf : Text → Option F) (ns : Nodes) → IsGrammatical (feature_id_from_filter pf ns)
  unfolding feature_id_from_filter
  feature_id-IsGrammatical pf leaf = absent
  feature_id-IsGrammatical pf (child (node name attrs kids text) ns) =
      id_or_later-IsGrammatical pf (raw_id name (node name attrs kids text)) _
        (feature_id-IsGrammatical pf ns)

  module _ (tools : Tools F) where
    parsed_filter-IsGrammatical :
        (fnode : Node) (f : Option (Expr F))
        → IsGrammatical f
        → Holds IsGrammatical (parsed_filter tools fnode f)
    unfolding parsed_filter some_ok
    parsed_filter-IsGrammatical fnode (some e) h = returns h
    parsed_filter-IsGrammatical fnode none h =
        Holds-bind _ IsParsed _ _
          (lift_error-Holds IsParsed invalid_filter _ (
            parse_filter_xml-IsParsed tools.scan_float tools.print_float
              (tools.xml_tokens (reserialize tools.quote fnode))))
          λ e k. returns (present k)

    op_filter-IsGrammatical : (n : Option Node) → Holds IsGrammatical (op_filter tools n)
    unfolding op_filter
    op_filter-IsGrammatical none = returns absent
    op_filter-IsGrammatical (some fnode) =
        parsed_filter-IsGrammatical fnode _
          (feature_id-IsGrammatical tools.parse_float (kids_of fnode))

    module _ (r : HttpRequest) (op : Node) where
      tx_filter-IsGrammatical : Holds IsGrammatical (tx_filter tools r op)
      unfolding tx_filter
      tx_filter-IsGrammatical =
          Holds-bind IsGrammatical IsGrammatical
            (op_filter tools (find_child (codes "Filter") (kids_of op))) _
            (op_filter-IsGrammatical (find_child (codes "Filter") (kids_of op)))
            λ f h. returns (constrain_by-IsGrammatical tools.parse_float _ f h)

      -- Where the gateway sends a constraint on writing that parses, an update or a deletion whose
      -- filter is read selects no row but those that satisfy it.
      pub tx_filter-IsConstrained :
          (c : ℕ) (cs : Text) (e : Expr F) (f : Option (Expr F))
          → get_header (codes "X-Giti-CQL-Write") r.header ≡ c ∷ cs
          → parse_cql tools.parse_float (c ∷ cs) ≡ ok e
          → tx_filter tools r op ≡ ok f
          → IsConstrained e f
      unfolding tx_filter
      tx_filter-IsConstrained c cs e f h k q =
          Holds-eq (IsConstrained e) (tx_filter tools r op) f
            (Holds-bind_any (IsConstrained e)
              (op_filter tools (find_child (codes "Filter") (kids_of op))) _
              λ g. returns (rw h (constrain_by-IsConstrained tools.parse_float c cs e g k)))
            q

      pub tx_filter_where-IsSafe :
          (start : ℕ) (w : Text) (args : List (Value F))
          → tx_filter_where tools r op start ≡ ok (w, args)
          → IsSafe w
      unfolding tx_filter_where
      tx_filter_where-IsSafe start w args q =
          let (f, done, h) = bind-eq-ok (tx_filter tools r op) _ q in
          where_clause-IsSafe f start w args
            (Holds-eq IsGrammatical (tx_filter tools r op) f tx_filter-IsGrammatical done) h
