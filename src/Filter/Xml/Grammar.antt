-- ===== src/Filter/Xml/Grammar.antt =====
-- What XML filters are read as.
use giti.Prelude.{
  subst, one_of, Option-cases, All, Holds, returns, raises, Holds-if, Holds-bind, Holds-bind_any,
  Holds-eq, Bool, true, false, ◌||◌, Option, none, some, List, [], ◌≡◌, refl, sym, text_eq,
  text_eq_iff, to_upper, Text, codes, Result, ok, err, Bool-cases, inl, inr, ap,
}
use giti.Filter.Ast.{Expr, Exprs, property, logic, like, between, is_null, nil, cons, pair}
use giti.Filter.Xml.Tree.{XmlError, Node, Nodes, node, leaf, child, decode_tree, XmlToken}
use giti.Ows.Request.{Table, find}
use giti.Ows.Request.Params.{find-All}
use giti.Filter.Xml.Convert.{
  xml_compare_ops, xml_spatial_ops, prop_of, literal_text, text_literal, boundary, box_of,
  first_box, convert_bbox, spatial_or, first_geometry, convert_spatial, convert_compare, fold_logic,
  combine, negate_one, convert_leaf, convert_named, convert_op, convert, convert_all, convert_root,
  parse_filter_xml,
}
use giti.Filter.Parser.Grammar.{IsParsed}
use giti.Filter.Xml.Forms.{
  IsXmlFilter, IsXmlFilter-IsParsed, compares, all_of, any_of, none_of, matches, spans, lacks,
  covers, relates,
}
use giti.Filter.Lexer.Progress.{compare_ops}
use giti.Filter.Parser.Leaf.{spatial_ops}

unfoldable is_logic_op : Text → Bool
is_logic_op op = text_eq op (codes "AND") || text_eq op (codes "OR")

unfoldable AllParsed : {F : Type 0} → Exprs F → Type 0
AllParsed nil = Unit
AllParsed (cons e es) = IsXmlFilter e × AllParsed es

-- What a table of operators yields is one of them.
abbrev Known : List Text → Option Text → Type 0
Known ops none = Unit
Known ops (some op) = one_of op ops ≡ true

find-Known :
    (ops : List Text) (name : Text) (t : Table Text)
    → All (λ e. one_of e.1 ops ≡ true) t
    → Known ops (find name t)
find-Known ops name t h = elim (Option-cases (find name t)) [
  | inl missing ↦ rw missing tt
  | inr (op, found) ↦ rw found (find-All (λ v. one_of v ops ≡ true) name t h found)
]

compare_table : All (λ e. one_of e.1 compare_ops ≡ true) xml_compare_ops
unfolding one_of
compare_table = (refl, (refl, (refl, (refl, (refl, (refl, tt))))))

spatial_table : All (λ e. one_of e.1 spatial_ops ≡ true) xml_spatial_ops
unfolding one_of
spatial_table = (refl, (refl, (refl, (refl, (refl, (refl, (refl, (refl, tt))))))))

module _ {F : Type 0} (scan : Text → Option F) (print : F → Text) where
  abbrev Parsed : Result XmlError (Expr F) → Type 0
  Parsed m = Holds IsXmlFilter m

  box_of-Parsed :
      (prop srs : Text) (lo hi : Option (F × F)) → Parsed (box_of scan print prop srs lo hi)
  unfolding box_of
  box_of-Parsed prop srs (some (lx, ly)) (some (ux, uy)) = returns covers
  box_of-Parsed prop srs (some l) none = raises
  box_of-Parsed prop srs none _ = raises

  first_box-Parsed : (prop : Text) (ns : Nodes) → Parsed (first_box scan print prop ns)
  unfolding first_box
  first_box-Parsed prop leaf = raises
  first_box-Parsed prop (child (node name attrs kids text) ns) =
      Holds-if _ _ _ _ (box_of-Parsed prop _ _ _) (first_box-Parsed prop ns)

  spatial_or-Parsed :
      (op prop : Text) (wkt : Option Text) (rest : Result XmlError (Expr F))
      → one_of op spatial_ops ≡ true
      → Parsed rest
      → Parsed (spatial_or scan print op prop wkt rest)
  unfolding spatial_or
  spatial_or-Parsed op prop (some wkt) rest known h = returns (relates known)
  spatial_or-Parsed op prop none rest known h = h

  first_geometry-Parsed :
      (owner op prop : Text) (ns : Nodes)
      → one_of op spatial_ops ≡ true
      → Parsed (first_geometry scan print owner op prop ns)
  unfolding first_geometry
  first_geometry-Parsed owner op prop leaf known = raises
  first_geometry-Parsed owner op prop (child n ns) known =
      spatial_or-Parsed op prop _ _ known (first_geometry-Parsed owner op prop ns known)

  range_of : Text → Nodes → Expr F
  range_of p kids =
      between (property p) (text_literal scan print (boundary (codes "LowerBoundary") kids []))
        (text_literal scan print (boundary (codes "UpperBoundary") kids [])) false

  convert_leaf-Parsed : (name : Text) (kids : Nodes) → Parsed (convert_leaf scan print name kids)
  unfolding convert_leaf convert_bbox range_of text_literal
  convert_leaf-Parsed name kids =
      let prop = prop_of name kids in
      Holds-if IsXmlFilter (text_eq name (codes "PropertyIsLike")) _ _
        (Holds-bind_any IsXmlFilter prop
          (λ p. ok (like (property p) (literal_text kids) false false)) λ p. returns matches)
        (Holds-if IsXmlFilter (text_eq name (codes "PropertyIsNull")) _ _
          (Holds-bind_any IsXmlFilter prop (λ p. ok (is_null (property p) false))
            λ p. returns lacks)
          (Holds-if IsXmlFilter (text_eq name (codes "PropertyIsBetween")) _ _
            (Holds-bind_any IsXmlFilter prop (λ p. ok (range_of p kids)) λ p. returns spans)
            (Holds-if IsXmlFilter (text_eq name (codes "BBOX")) _ _
              (Holds-bind_any IsXmlFilter prop (λ p. first_box scan print p kids)
                λ p. first_box-Parsed p kids)
              raises)))

  connective :
      (op : Text) (a b : Expr F)
      → is_logic_op op ≡ true
      → IsXmlFilter a
      → IsXmlFilter b
      → IsXmlFilter (logic op (pair a b))
  unfolding is_logic_op
  connective op a b h ha hb = elim (Bool-cases (text_eq op (codes "AND"))) [
    | inl e ↦
        subst (λ o. IsXmlFilter (logic o (pair a b))) (sym ((text_eq_iff op (codes "AND")).0 e))
          (all_of ha hb)
    | inr n ↦
        subst (λ o. IsXmlFilter (logic o (pair a b)))
          (sym ((text_eq_iff op (codes "OR")).0 (rw n at h))) (any_of ha hb)
  ]

  fold_logic-IsXmlFilter :
      (op : Text) (acc : Expr F) (es : Exprs F)
      → is_logic_op op ≡ true
      → IsXmlFilter acc
      → AllParsed es
      → IsXmlFilter (fold_logic scan print op acc es)
  unfolding fold_logic AllParsed
  fold_logic-IsXmlFilter op acc nil ho ha he = ha
  fold_logic-IsXmlFilter op acc (cons e es) ho ha he =
      fold_logic-IsXmlFilter op (logic op (pair acc e)) es ho (connective op acc e ho ha he.0) he.1

  combine-Parsed :
      (name : Text) (es : Exprs F)
      → is_logic_op (to_upper name) ≡ true
      → AllParsed es
      → Parsed (combine scan print name es)
  unfolding combine AllParsed
  combine-Parsed name (cons a (cons b es)) ho he =
      returns (fold_logic-IsXmlFilter _ _ es ho (connective _ a b ho he.0 he.1.0) he.1.1)
  combine-Parsed name nil ho he = raises
  combine-Parsed name (cons a nil) ho he = raises

  negate_one-Parsed :
      (kids : Nodes) (m : Result XmlError (Exprs F))
      → Holds AllParsed m
      → Parsed (negate_one scan print kids m)
  unfolding negate_one AllParsed
  negate_one-Parsed (child n leaf) (ok (cons e es)) (returns h) = returns (none_of h.0)
  negate_one-Parsed (child n leaf) (ok nil) h = raises
  negate_one-Parsed (child n leaf) (err e) h = raises
  negate_one-Parsed leaf m h = raises
  negate_one-Parsed (child n (child k ns)) m h = raises

  logic_name :
      (name : Text)
      → (text_eq name (codes "And") || text_eq name (codes "Or")) ≡ true
      → is_logic_op (to_upper name) ≡ true
  unfolding is_logic_op to_upper text_eq
  logic_name name h = elim (Bool-cases (text_eq name (codes "And"))) [
    | inl a ↦ ap (λ n. is_logic_op (to_upper n)) ((text_eq_iff name (codes "And")).0 a)
    | inr o ↦ ap (λ n. is_logic_op (to_upper n)) ((text_eq_iff name (codes "Or")).0 (rw o at h))
  ]

  convert_named-Parsed :
      (name : Text) (kids : Nodes) (m : Result XmlError (Exprs F))
      → Holds AllParsed m
      → Parsed (convert_named scan print name kids m)
  unfolding convert_named
  convert_named-Parsed name kids m h =
      elim (Bool-cases (text_eq name (codes "And") || text_eq name (codes "Or"))) [
        | inl l ↦
            rw l
              (Holds-bind _ AllParsed m _ h λ es he. combine-Parsed name es (logic_name name l) he)
        | inr n ↦
            rw n (Holds-if _ _ _ _ (negate_one-Parsed kids m h) (convert_leaf-Parsed name kids))
      ]

  convert_op-Parsed :
      (o s : Option Text) (name : Text) (kids : Nodes) (m : Result XmlError (Exprs F))
      → Known compare_ops o
      → Known spatial_ops s
      → Holds AllParsed m
      → Parsed (convert_op scan print o s name kids m)
  unfolding convert_op convert_compare convert_spatial text_literal
  convert_op-Parsed (some op) s name kids m ho hs h =
      Holds-bind_any _ _ _ λ prop. returns (compares ho)
  convert_op-Parsed none (some op) name kids m ho hs h =
      Holds-bind_any _ _ _ λ prop. first_geometry-Parsed name op prop kids hs
  convert_op-Parsed none none name kids m ho hs h = convert_named-Parsed name kids m h

  mutual
    unfolding convert AllParsed

    convert-Parsed : (n : Node) → Parsed (convert scan print n)
    convert-Parsed (node name attrs kids text) =
        convert_op-Parsed _ _ name kids (convert_all scan print kids)
          (find-Known compare_ops name xml_compare_ops compare_table)
          (find-Known spatial_ops name xml_spatial_ops spatial_table) (convert_all-Parsed kids)

    convert_all-Parsed : (ns : Nodes) → Holds AllParsed (convert_all scan print ns)
    convert_all-Parsed leaf = returns tt
    convert_all-Parsed (child n ns) =
        Holds-bind _ IsXmlFilter _ _ (convert-Parsed n)
          λ e he. Holds-bind _ AllParsed _ _ (convert_all-Parsed ns) λ es hes. returns (he, hes)

  root-Parsed : (n : Node) → Parsed (convert_root scan print n)
  unfolding convert_root
  root-Parsed (node name attrs leaf text) = Holds-if _ _ _ _ (raises) (raises)
  root-Parsed (node name attrs (child n ns) text) = Holds-if _ _ _ _ (convert-Parsed n) (raises)

  -- Every expression that an XML filter is read as is a combination by AND, OR and NOT of tests of
  -- one property: a comparison, by an operator of CQL, with a literal, never with a property; a
  -- pattern; a range between two literals; NULL; a box; a spatial relation of CQL to a geometry.
  pub parse_filter_xml-IsXmlFilter :
      (tokens : List XmlToken × Text) (e : Expr F)
      → parse_filter_xml scan print tokens ≡ ok e
      → IsXmlFilter e
  unfolding parse_filter_xml
  parse_filter_xml-IsXmlFilter tokens e h =
      Holds-eq IsXmlFilter (parse_filter_xml scan print tokens) e
        (Holds-bind_any _ (decode_tree tokens) _ λ n. root-Parsed n) h

  pub parse_filter_xml-IsParsed :
      (tokens : List XmlToken × Text) (e : Expr F)
      → parse_filter_xml scan print tokens ≡ ok e
      → IsParsed e
  parse_filter_xml-IsParsed tokens e h =
      IsXmlFilter-IsParsed (parse_filter_xml-IsXmlFilter tokens e h)
