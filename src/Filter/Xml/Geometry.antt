-- ===== src/Filter/Xml/Geometry.antt =====
-- GML geometries as WKT. `scan` stands for `fmt.Sscan` of a `float64` and `print` for its `%f`.
use giti.Prelude.{
  ℕ, ◌||◌, Option, none, some, List, [], ◌∷◌, ◌++◌, text_eq, ◌==◌, if◌then◌else◌, Text, codes, join,
  map,
}
use giti.Ows.Exception.{contains}
use giti.Filter.Xml.Tree.{Node, Nodes, node, leaf, child, trim_space, fields, commas_to_spaces}

-- `for _, c := range n.elements() { if c.Name == name { text = strings.TrimSpace(c.Text) } }`
unfoldable pub last_text : Text → Nodes → Text → Text
unfolding trim_space text_eq
last_text name leaf found = found
last_text name (child (node n attrs kids text) ns) found =
    last_text name ns (if text_eq n name then trim_space text else found)

-- `strings.TrimRight(s, c)` for one byte.
unfoldable pub keep_unless : ℕ → ℕ → Text → Text
keep_unless b c [] = if c == b then [] else c ∷ []
keep_unless b c (x ∷ s) = c ∷ x ∷ s

unfoldable pub trim_byte : ℕ → Text → Text
unfolding keep_unless
trim_byte b [] = []
trim_byte b (c ∷ s) = keep_unless b c (trim_byte b s)

-- `walk`, into the children: the last list of coordinates, in document order.
unfoldable mutual
  unfolding trim_space text_eq

  pub walk : Node → Text → Text
  walk (node name attrs kids text) found = walk_all kids (
      if text_eq name (codes "posList") || text_eq name (codes "coordinates")
      then trim_space text
      else found)

  pub walk_all : Nodes → Text → Text
  walk_all leaf found = found
  walk_all (child n ns) found = walk_all ns (walk n found)

-- The loop over the numbers of a list, two at a time.
unfoldable pub point_pairs : List Text → List Text
point_pairs [] = []
point_pairs (x ∷ []) = []
point_pairs (x ∷ y ∷ nums) = (x ++ (b' ' ∷ y)) ∷ point_pairs nums

unfoldable pub ring_points : Text → Text
unfolding contains commas_to_spaces fields point_pairs join
ring_points text =
    if contains text (codes ",")
    then join (codes ", ") (map commas_to_spaces (fields text))
    else join (codes ", ") (point_pairs (fields text))

unfoldable pub polygon_ring : Node → Option Text
unfolding walk ring_points text_eq
polygon_ring n = let text = walk n [] in if text_eq text [] then none else some (ring_points text)

module _ {F : Type 0} (scan : Text → Option F) (print : F → Text) where
  unfoldable pub both_floats : Option F → Option F → Option (F × F)
  both_floats (some x) (some y) = some (x, y)
  both_floats _ _ = none

  unfoldable pub two_fields : List Text → Option (F × F)
  unfolding both_floats
  two_fields (x ∷ y ∷ []) = both_floats (scan x) (scan y)
  two_fields _ = none

  unfoldable pub two_floats : Text → Option (F × F)
  unfolding two_fields fields
  two_floats s = two_fields (fields s)

  unfoldable pub trim_float : F → Text
  unfolding trim_byte
  trim_float f = trim_byte b'.' (trim_byte b'0' (print f))

  unfoldable pub point_coords : Nodes → Option (F × F)
  unfolding two_floats trim_space commas_to_spaces text_eq
  point_coords leaf = none
  point_coords (child (node name attrs kids text) ns) =
      let rest = point_coords ns in
      if text_eq name (codes "pos")
      then two_floats (trim_space text)
      else if text_eq name (codes "coordinates")
      then two_floats (commas_to_spaces (trim_space text))
      else rest

  unfoldable pub spaced_pair : F → F → Text
  unfolding trim_float
  spaced_pair x y = trim_float x ++ (b' ' ∷ trim_float y)

  unfoldable pub point_wkt : Option (F × F) → Option Text
  unfolding spaced_pair
  point_wkt none = none
  point_wkt (some (x, y)) = some (codes "POINT(" ++ (spaced_pair x y ++ codes ")"))

  unfoldable pub polygon_wkt : Option Text → Option Text
  polygon_wkt none = none
  polygon_wkt (some ring) = some (codes "POLYGON((" ++ (ring ++ codes "))"))

  unfoldable pub envelope_wkt : Option (F × F) → Option (F × F) → Option Text
  unfolding spaced_pair join
  envelope_wkt (some (lx, ly)) (some (ux, uy)) = some (
      codes "POLYGON(("
      ++ (join (codes ", ") (
            spaced_pair lx ly
            ∷ spaced_pair ux ly
            ∷ spaced_pair ux uy
            ∷ spaced_pair lx uy
            ∷ spaced_pair lx ly
            ∷ [])
          ++ codes "))"))
  envelope_wkt _ _ = none

  unfoldable pub gml_to_wkt : Node → Option Text
  unfolding point_wkt point_coords polygon_wkt polygon_ring envelope_wkt two_floats last_text
      text_eq
  gml_to_wkt (node name attrs kids text) =
      if text_eq name (codes "Point")
      then point_wkt (point_coords kids)
      else if text_eq name (codes "Polygon")
      then polygon_wkt (polygon_ring (node name attrs kids text))
      else if text_eq name (codes "Envelope")
      then envelope_wkt (two_floats (last_text (codes "lowerCorner") kids []))
          (two_floats (last_text (codes "upperCorner") kids []))
      else none
