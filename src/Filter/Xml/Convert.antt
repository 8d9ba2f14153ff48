-- ===== src/Filter/Xml/Convert.antt =====
-- `ParseFilterXML`, `convert` and its helpers.
use giti.Prelude.{
  Bool, false, ◌||◌, Option, none, some, List, [], ◌∷◌, text_eq, to_upper, if◌then◌else◌, Text,
  codes, Result, ok, err, bind,
}
use giti.Ows.Request.{Table, find}
use giti.Filter.Ast.{
  Expr, Exprs, string, property, literal, compare, logic, negation, like, between, is_null, bbox,
  spatial, nil, cons, pair,
}
use giti.Filter.Parser.Leaf.{strip_prefix}
use giti.Filter.Xml.Tree.{
  XmlError, too_few_operands, not_one_operand, unsupported_element, missing_property,
  missing_geometry, invalid_corners, missing_envelope, wrong_root, empty_element, Node, Nodes, node,
  leaf, child, XmlToken, decode_tree, trim_space, fields, commas_to_spaces,
}
use giti.Filter.Xml.Geometry.{gml_to_wkt, two_floats}

abbrev pub xml_compare_ops : Table Text
xml_compare_ops =
    (codes "PropertyIsEqualTo", codes "=")
    ∷ (codes "PropertyIsNotEqualTo", codes "<>")
    ∷ (codes "PropertyIsLessThan", codes "<")
    ∷ (codes "PropertyIsLessThanOrEqualTo", codes "<=")
    ∷ (codes "PropertyIsGreaterThan", codes ">")
    ∷ (codes "PropertyIsGreaterThanOrEqualTo", codes ">=")
    ∷ []

abbrev pub xml_spatial_ops : Table Text
xml_spatial_ops =
    (codes "Intersects", codes "INTERSECTS")
    ∷ (codes "Within", codes "WITHIN")
    ∷ (codes "Contains", codes "CONTAINS")
    ∷ (codes "Disjoint", codes "DISJOINT")
    ∷ (codes "Touches", codes "TOUCHES")
    ∷ (codes "Crosses", codes "CROSSES")
    ∷ (codes "Overlaps", codes "OVERLAPS")
    ∷ (codes "Equals", codes "EQUALS")
    ∷ []

unfoldable pub is_prop_name : Text → Bool
unfolding text_eq
is_prop_name name = text_eq name (codes "PropertyName") || text_eq name (codes "ValueReference")

-- The first property name among the children of the element `owner`.
unfoldable pub prop_of : Text → Nodes → Result XmlError Text
unfolding is_prop_name strip_prefix trim_space
prop_of owner leaf = err (missing_property owner)
prop_of owner (child (node name attrs kids text) ns) =
    let rest = prop_of owner ns in
    if is_prop_name name then ok (strip_prefix (trim_space text)) else rest

-- The first literal among the children, or else what the caller falls back on.
unfoldable pub literal_or : Text → Nodes → Text
unfolding trim_space text_eq
literal_or fallback leaf = fallback
literal_or fallback (child (node name attrs kids text) ns) =
    let rest = literal_or fallback ns in
    if text_eq name (codes "Literal") then trim_space text else rest

unfoldable pub literal_text : Nodes → Text
unfolding literal_or
literal_text kids = literal_or [] kids

unfoldable pub first_literal : Node → Text
unfolding literal_or trim_space
first_literal (node name attrs kids text) = literal_or (trim_space text) kids

-- The last boundary of a name, as the loop of `PropertyIsBetween` leaves it.
unfoldable pub boundary : Text → Nodes → Text → Text
unfolding first_literal text_eq
boundary name leaf found = found
boundary name (child (node n attrs kids text) ns) found =
    boundary name ns (if text_eq n name then first_literal (node n attrs kids text) else found)

-- The corners of an envelope: the loop of `convertBBox` over its children.
unfoldable pub coordinate_corners : List Text → Text × Text → Text × Text
unfolding commas_to_spaces
coordinate_corners (a ∷ b ∷ []) found = (commas_to_spaces a, commas_to_spaces b)
coordinate_corners _ found = found

unfoldable pub corners : Nodes → Text × Text → Text × Text
unfolding trim_space fields coordinate_corners text_eq
corners leaf found = found
corners (child (node name attrs kids text) ns) found = corners ns (
    if text_eq name (codes "lowerCorner")
    then (trim_space text, found.1)
    else if text_eq name (codes "upperCorner")
    then (found.0, trim_space text)
    else if text_eq name (codes "coordinates")
    then coordinate_corners (fields (trim_space text)) found
    else found)

-- `c.Attrs[name]`
unfoldable pub attr : Text → Table Text → Text
unfolding find
attr name attrs = elim (find name attrs) [ some v ↦ v | none ↦ [] ]

module _ {F : Type 0} (scan : Text → Option F) (print : F → Text) where
  unfoldable pub text_literal : Text → Expr F
  text_literal t = literal (string t)

  unfoldable pub box_of : Text → Text → Option (F × F) → Option (F × F) → Result XmlError (Expr F)
  box_of prop srs (some (lx, ly)) (some (ux, uy)) = ok (bbox prop lx ly ux uy srs)
  box_of prop srs _ _ = err invalid_corners

  unfoldable pub first_box : Text → Nodes → Result XmlError (Expr F)
  unfolding box_of two_floats corners attr text_eq
  first_box prop leaf = err missing_envelope
  first_box prop (child (node name attrs kids text) ns) =
      let rest = first_box prop ns in
      let found = corners kids ([], []) in
      if text_eq name (codes "Envelope") || text_eq name (codes "Box")
      then box_of prop (attr (codes "srsName") attrs) (two_floats scan print found.0)
          (two_floats scan print found.1)
      else rest

  unfoldable pub convert_bbox : Text → Nodes → Result XmlError (Expr F)
  unfolding prop_of first_box
  convert_bbox name kids = bind (prop_of name kids) λ prop. first_box prop kids

  unfoldable pub spatial_or :
      Text → Text → Option Text → Result XmlError (Expr F) → Result XmlError (Expr F)
  spatial_or op prop (some wkt) rest = ok (spatial op prop wkt)
  spatial_or op prop none rest = rest

  unfoldable pub first_geometry : Text → Text → Text → Nodes → Result XmlError (Expr F)
  unfolding spatial_or gml_to_wkt
  first_geometry owner op prop leaf = err (missing_geometry owner)
  first_geometry owner op prop (child n ns) =
      spatial_or op prop (gml_to_wkt scan print n) (first_geometry owner op prop ns)

  unfoldable pub convert_spatial : Text → Text → Nodes → Result XmlError (Expr F)
  unfolding prop_of first_geometry
  convert_spatial name op kids = bind (prop_of name kids) λ prop. first_geometry name op prop kids

  unfoldable pub convert_compare : Text → Text → Nodes → Result XmlError (Expr F)
  unfolding prop_of literal_text text_literal
  convert_compare name op kids =
      bind (prop_of name kids)
        λ prop. ok (compare op (property prop) (text_literal (literal_text kids)))

  -- The fold of three and more operands to the left.
  unfoldable pub fold_logic : Text → Expr F → Exprs F → Expr F
  fold_logic op acc nil = acc
  fold_logic op acc (cons e es) = fold_logic op (logic op (pair acc e)) es

  unfoldable pub combine : Text → Exprs F → Result XmlError (Expr F)
  unfolding fold_logic to_upper
  combine name (cons a (cons b es)) =
      ok (fold_logic (to_upper name) (logic (to_upper name) (pair a b)) es)
  combine name _ = err (too_few_operands name)

  -- `len(kids) != 1`, then the conversion of that one.
  unfoldable pub negate_one : Nodes → Result XmlError (Exprs F) → Result XmlError (Expr F)
  negate_one (child n leaf) (ok (cons e es)) = ok (negation e)
  negate_one (child n leaf) (err e) = err e
  negate_one _ _ = err not_one_operand

  -- The elements that hold no expressions.
  unfoldable pub convert_leaf : Text → Nodes → Result XmlError (Expr F)
  unfolding prop_of literal_text boundary text_literal convert_bbox text_eq
  convert_leaf name kids =
      if text_eq name (codes "PropertyIsLike")
      then (bind (prop_of name kids)
          λ prop. ok (like (property prop) (literal_text kids) false false))
      else if text_eq name (codes "PropertyIsNull")
      then (bind (prop_of name kids) λ prop. ok (is_null (property prop) false))
      else if text_eq name (codes "PropertyIsBetween")
      then (bind (prop_of name kids) λ prop. ok (
          between (property prop) (text_literal (boundary (codes "LowerBoundary") kids []))
            (text_literal (boundary (codes "UpperBoundary") kids [])) false))
      else if text_eq name (codes "BBOX")
      then convert_bbox name kids
      else err (unsupported_element name)

  -- The `switch` of `convert`, given the conversion of the children, which only some cases use.
  unfoldable pub convert_named : Text → Nodes → Result XmlError (Exprs F) → Result XmlError (Expr F)
  unfolding combine negate_one convert_leaf text_eq
  convert_named name kids converted =
      if text_eq name (codes "And") || text_eq name (codes "Or")
      then bind converted (combine name)
      else if text_eq name (codes "Not")
      then negate_one kids converted
      else convert_leaf name kids

  -- The two tables of operators, before the `switch`.
  unfoldable pub convert_op :
      Option Text
      → Option Text
      → Text
      → Nodes
      → Result XmlError (Exprs F)
      → Result XmlError (Expr F)
  unfolding convert_compare convert_spatial convert_named
  convert_op (some op) spatial_op name kids converted = convert_compare name op kids
  convert_op none (some op) name kids converted = convert_spatial name op kids
  convert_op none none name kids converted = convert_named name kids converted

  unfoldable mutual
    unfolding find

    pub convert : Node → Result XmlError (Expr F)
    convert (node name attrs kids text) =
        convert_op (find name xml_compare_ops) (find name xml_spatial_ops) name kids
          (convert_all kids)

    pub convert_all : Nodes → Result XmlError (Exprs F)
    convert_all leaf = ok nil
    convert_all (child n ns) = bind (convert n) λ e. bind (convert_all ns) λ es. ok (cons e es)

  unfoldable pub convert_root : Node → Result XmlError (Expr F)
  unfolding convert text_eq
  convert_root (node name attrs leaf text) =
      if text_eq name (codes "Filter") then err empty_element else err (wrong_root name)
  convert_root (node name attrs (child n ns) text) =
      if text_eq name (codes "Filter") then convert n else err (wrong_root name)

  unfoldable pub parse_filter_xml : List XmlToken × Text → Result XmlError (Expr F)
  unfolding decode_tree convert_root
  parse_filter_xml tokens = bind (decode_tree tokens) convert_root
