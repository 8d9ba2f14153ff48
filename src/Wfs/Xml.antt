-- ===== src/Wfs/Xml.antt =====
-- services/wfs/internal/wfs/xmltree.go: the trees of transactions. `decodeXMLTree` is the decoder of
-- the filters, element for element, so that its trees are theirs.
pub mod Edits
use giti.Prelude.{
  ℕ, Bool, ◌||◌, Option, none, some, List, [], ◌∷◌, ◌++◌, map, if◌then◌else◌, Text, text_eq, codes,
  join, Result, ok, err, bind,
}
use giti.Filter.Ast.{Value, Expr}
use giti.Filter.Xml.Tree.{
  Node, Nodes, node, leaf, child, decode_tree, trim_space, fields, commas_to_spaces,
}
use giti.Filter.Xml.Geometry.{point_pairs}
use giti.Filter.Xml.Convert.{parse_filter_xml}
use giti.Ows.Request.{Table, find}
use giti.Ows.Exception.{contains}
use giti.Gateway.Http.{HttpRequest, get_header}
use giti.Wfs.Model.{Tools, WfsError, invalid_filter, malformed_tree}
use giti.Wfs.Params.{feature_id_filter}
use giti.Wfs.GetFeature.{lift_error, constrain_by, where_clause}

unfoldable pub or_empty : Option Text → Text
or_empty none = []
or_empty (some t) = t

-- `n.attrs[name]`
unfoldable pub attr : Text → Node → Text
unfolding find or_empty
attr name (node n attrs kids text) = or_empty (find name attrs)

unfoldable pub kids_of : Node → Nodes
kids_of (node name attrs kids text) = kids

unfoldable pub find_child : Text → Nodes → Option Node
unfolding text_eq
find_child name leaf = none
find_child name (child (node n attrs kids text) ns) =
    let rest = find_child name ns in if text_eq n name then some (node n attrs kids text) else rest

unfoldable pub attr_texts : (Text → Text) → Table Text → Text
attr_texts quote [] = []
attr_texts quote ((k, v) ∷ attrs) =
    codes " " ++ (k ++ (codes "=" ++ (quote v ++ attr_texts quote attrs)))

unfoldable pub own_text : Nodes → Text → Text
own_text leaf text = text
own_text (child n ns) text = []

-- `reserialize`; the attributes are in the order of the table.
unfoldable mutual
  unfolding attr_texts own_text

  pub reserialize : (Text → Text) → Node → Text
  reserialize quote (node name attrs kids text) =
      codes "<"
      ++ (name
          ++ (attr_texts quote attrs
              ++ (codes ">"
                  ++ (own_text kids text
                      ++ (reserialize_all quote kids ++ (codes "</" ++ (name ++ codes ">")))))))

  pub reserialize_all : (Text → Text) → Nodes → Text
  reserialize_all quote leaf = []
  reserialize_all quote (child n ns) = reserialize quote n ++ reserialize_all quote ns

unfoldable pub nonempty_or : Text → Text → Text
nonempty_or [] b = b
nonempty_or (c ∷ a) b = c ∷ a

-- `coordText`: the first text of coordinates, in document order.
unfoldable pub coord_text : Nodes → Text
unfolding trim_space text_eq nonempty_or
coord_text leaf = []
coord_text (child (node name attrs kids text) ns) =
    let inner = coord_text kids in
    let rest = coord_text ns in
    if text_eq name (codes "coordinates")
      || text_eq name (codes "pos")
      || text_eq name (codes "posList")
    then trim_space text
    else nonempty_or inner rest

unfoldable pub first_two : List Text → Option (Text × Text)
first_two (x ∷ y ∷ rest) = some (x, y)
first_two _ = none

unfoldable pub two_coord : Nodes → Option (Text × Text)
unfolding coord_text commas_to_spaces fields first_two
two_coord kids = first_two (fields (commas_to_spaces (coord_text kids)))

unfoldable pub joined : List Text → Option Text
unfolding join
joined [] = none
joined (p ∷ pts) = some (join (codes ", ") (p ∷ pts))

unfoldable pub coord_list : Nodes → Option Text
unfolding coord_text contains fields point_pairs joined commas_to_spaces join text_eq
coord_list kids =
    let t = coord_text kids in
    if text_eq t []
    then none
    else if contains t (codes ",")
    then some (join (codes ", ") (map commas_to_spaces (fields t)))
    else joined (point_pairs (fields t))

unfoldable pub point_text : Option (Text × Text) → Option Text
point_text none = none
point_text (some (x, y)) = some (codes "POINT(" ++ (x ++ (codes " " ++ (y ++ codes ")"))))

unfoldable pub wrapped : Text → Text → Option Text → Option Text
wrapped before behind none = none
wrapped before behind (some pts) = some (before ++ (pts ++ behind))

unfoldable pub geometry_of : Text → Nodes → Option Text
unfolding point_text two_coord wrapped coord_list text_eq
geometry_of name kids =
    if text_eq name (codes "Point")
    then point_text (two_coord kids)
    else if text_eq name (codes "LineString")
    then wrapped (codes "LINESTRING(") (codes ")") (coord_list kids)
    else if text_eq name (codes "Polygon")
    then wrapped (codes "POLYGON((") (codes "))") (coord_list kids)
    else none

unfoldable pub or_later : {A : Type 0} → Option A → Option A → Option A
or_later none b = b
or_later (some a) b = some a

-- `gmlNodeToWKT`, on the children of the property.
unfoldable pub gml_node_to_wkt : Nodes → Option Text
unfolding geometry_of or_later
gml_node_to_wkt leaf = none
gml_node_to_wkt (child (node name attrs kids text) ns) =
    or_later (geometry_of name kids) (gml_node_to_wkt ns)

unfoldable pub raw_id : Text → Node → Text
unfolding attr text_eq
raw_id name n =
    if text_eq name (codes "FeatureId")
    then attr (codes "fid") n
    else if text_eq name (codes "ResourceId")
    then attr (codes "rid") n
    else []

unfoldable pub id_or_later :
    {F : Type 0} → (Text → Option F) → Text → Option (Expr F) → Option (Expr F)
unfolding feature_id_filter
id_or_later parse_float [] rest = rest
id_or_later parse_float (c ∷ raw) rest = some (feature_id_filter parse_float (c ∷ raw))

unfoldable pub feature_id_from_filter : {F : Type 0} → (Text → Option F) → Nodes → Option (Expr F)
unfolding raw_id id_or_later
feature_id_from_filter parse_float leaf = none
feature_id_from_filter parse_float (child (node name attrs kids text) ns) =
    id_or_later parse_float (raw_id name (node name attrs kids text))
      (feature_id_from_filter parse_float ns)

unfoldable pub some_ok : {A : Type 0} → Result WfsError A → Result WfsError (Option A)
some_ok r = bind r λ a. ok (some a)

module _ {F : Type 0} (tools : Tools F) where
  unfoldable pub decode_body : Text → Result WfsError Node
  unfolding lift_error decode_tree
  decode_body body = lift_error malformed_tree (decode_tree (tools.xml_tokens body))

  unfoldable pub parsed_filter : Node → Option (Expr F) → Result WfsError (Option (Expr F))
  unfolding some_ok lift_error parse_filter_xml reserialize
  parsed_filter fnode (some e) = ok (some e)
  parsed_filter fnode none = some_ok (
      lift_error invalid_filter (
        parse_filter_xml tools.scan_float tools.print_float
          (tools.xml_tokens (reserialize tools.quote fnode))))

  unfoldable pub op_filter : Option Node → Result WfsError (Option (Expr F))
  unfolding parsed_filter feature_id_from_filter kids_of
  op_filter none = ok none
  op_filter (some fnode) =
      parsed_filter fnode (feature_id_from_filter tools.parse_float (kids_of fnode))

  -- The filter of an update or a deletion, and the constraint of the authorization.
  unfoldable pub tx_filter : HttpRequest → Node → Result WfsError (Option (Expr F))
  unfolding op_filter find_child kids_of constrain_by get_header
  tx_filter r op =
      bind (op_filter (find_child (codes "Filter") (kids_of op)))
        λ f. ok (constrain_by tools.parse_float (get_header (codes "X-Giti-CQL-Write") r.header) f)

  unfoldable pub tx_filter_where : HttpRequest → Node → ℕ → Result WfsError (Text × List (Value F))
  unfolding tx_filter where_clause
  tx_filter_where r op start = bind (tx_filter r op) λ f. where_clause f start
