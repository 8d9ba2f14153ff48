-- ===== src/Filter/Parser/Spatial.antt =====
-- The methods of `cqlParser` for boxes, well-known text and spatial tests.
use giti.Prelude.{
  ℕ, zero, suc, ◌+◌, ◌-◌, Bool, true, false, ◌&&◌, Option, List, [], ◌∷◌, ◌++◌, ◌==◌, one_of,
  if◌then◌else◌, Text, codes, ok, err, bind,
}
use giti.Filter.Ast.{Expr, bbox, spatial, dwithin}
use giti.Filter.Error.{
  requires_property, bbox_srs_string, expected_wkt, wkt_requires_lparen, unterminated_wkt,
  requires_units, out_of_fuel,
}
use giti.Filter.Lexer.{tok_eof, tok_ident, tok_string, Token}
use giti.Filter.Parser.State.{
  M, pure, ◌>>=◌, ◌>>◌, run, current, require, advance, is_kind, is_punct, expect,
}
use giti.Filter.Parser.Leaf.{strip_prefix, parse_num}

abbrev pub geom_keywords : List Text
geom_keywords =
    codes "POINT"
    ∷ codes "LINESTRING"
    ∷ codes "POLYGON"
    ∷ codes "MULTIPOINT"
    ∷ codes "MULTILINESTRING"
    ∷ codes "MULTIPOLYGON"
    ∷ codes "GEOMETRYCOLLECTION"
    ∷ []

module _ {F : Type 0} (parse_float : Text → Option F) where
  -- One round of the loop over `nums`.
  unfoldable pub comma_num : M F
  unfolding parse_num expect
  comma_num = do expect ","; parse_num parse_float

  -- `, 'srs'`, if a comma follows; otherwise the empty text.
  unfoldable pub parse_srs : M Text
  unfolding advance is_kind is_punct
  parse_srs p =
      if is_punct "," p
      then run p (do
        advance
        require (is_kind tok_string) bbox_srs_string
        t ← current
        advance
        pure t.text)
      else ok ([], p)

  -- The property name that stands first behind the parenthesis.
  unfoldable pub parse_prop : Text → M Text
  unfolding advance is_kind strip_prefix
  parse_prop op = do
    t ← current
    require (is_kind tok_ident) (requires_property op)
    advance
    pure (strip_prefix t.text)

  unfoldable pub parse_bbox : M (Expr F)
  unfolding comma_num parse_srs parse_prop
  parse_bbox = do
    advance
    expect "("
    name ← parse_prop (codes "BBOX")
    minx ← comma_num
    miny ← comma_num
    maxx ← comma_num
    maxy ← comma_num
    srs ← parse_srs
    expect ")"
    pure (bbox name minx miny maxx maxy srs)

  -- One token of the loop of `parseWKT`: the text, the depth and `first` behind it.
  unfoldable pub wkt_write : Bool → Bool → Bool → Token → Text → ℕ → Bool → Text × ℕ × Bool
  wkt_write lparen rparen comma t b depth first =
      if lparen
      then (b ++ codes "(", depth + 1, true)
      else if rparen
      then (b ++ codes ")", depth - 1, first)
      else if comma
      then (b ++ codes ", ", depth, true)
      else ((if first then b else b ++ codes " ") ++ t.text, depth, false)

  unfoldable pub wkt_loop : ℕ → Text → ℕ → Bool → M Text
  unfolding wkt_write is_kind is_punct
  wkt_loop zero b depth first p = err out_of_fuel
  wkt_loop (suc f) b depth first p =
      let (b', depth', first') =
        wkt_write (is_punct "(" p) (is_punct ")" p) (is_punct "," p) p.tok b depth first in
      let more = bind (advance p) λ (_, q). wkt_loop f b' depth' first' q in
      if is_kind tok_eof p then err unterminated_wkt else if depth' == 0 then ok (b', p) else more

  unfoldable pub parse_wkt : ℕ → M Text
  unfolding wkt_loop one_of
  parse_wkt f p =
      if is_kind tok_ident p && one_of p.tok.up geom_keywords
      then run p (do
        advance
        require (is_punct "(") wkt_requires_lparen
        advance
        wkt ← wkt_loop f (p.tok.up ++ codes "(") 1 true
        advance
        pure wkt)
      else err (expected_wkt p.tok.text)

  unfoldable pub parse_spatial : ℕ → Text → M (Expr F)
  unfolding parse_wkt parse_prop
  parse_spatial f op = do
    advance
    expect "("
    name ← parse_prop op
    expect ","
    wkt ← parse_wkt f
    expect ")"
    pure (spatial op name wkt)

  unfoldable pub parse_dwithin : ℕ → Bool → M (Expr F)
  unfolding parse_wkt parse_prop comma_num
  parse_dwithin f beyond = do
    advance
    expect "("
    name ← parse_prop (codes "DWITHIN")
    expect ","
    wkt ← parse_wkt f
    dist ← comma_num
    expect ","
    require (is_kind tok_ident) requires_units
    t ← current
    advance
    expect ")"
    pure (dwithin name wkt dist t.text beyond)
