-- ===== src/Filter/Parser.antt =====
-- The recursive-descent parser of libs/ogc-kit/filter/cql.go. A method of `cqlParser` is a function
-- of the parser's state into an error or a value and the next state. `strconv.ParseFloat` is the
-- parameter `parse_float`. What loops or recurs takes fuel; Parser/Total shows that it is enough.
pub mod State
pub mod Leaf
pub mod Spatial
pub mod Grammar
mod Rules
mod LeafRules
mod SpatialRules
pub mod Total
use giti.Prelude.{
  ℕ, zero, suc, ◌+◌, ◌*◌, Bool, true, false, ◌||◌, Option, [], ◌∷◌, text_eq, one_of, if◌then◌else◌,
  Text, codes, length, Result, ok, err, bind,
}
use giti.Filter.Ast.{Expr, logic, negation, include_all, pair}
use giti.Filter.Error.{
  Error, expected_rparen, expected_identifier, empty_filter, unexpected_at_end, out_of_fuel,
}
use giti.Filter.Lexer.{TokKind, tok_eof, tok_ident}
use State.{
  Parser, M, pure, ◌>>=◌, ◌>>◌, run, fail, require, advance, initial, is_kind, is_word, is_punct,
}
use Leaf.{spatial_ops, parse_predicate}
use Spatial.{parse_bbox, parse_spatial, parse_dwithin}

module _ {F : Type 0} (parse_float : Text → Option F) where
  -- `parsePrimary` at an identifier.
  unfoldable pub parse_named : ℕ → M (Expr F)
  unfolding parse_bbox parse_spatial parse_dwithin parse_predicate one_of
  parse_named f p =
      let up = p.tok.up in
      if text_eq up (codes "INCLUDE")
      then run p (do advance; pure include_all)
      else if text_eq up (codes "EXCLUDE")
      then run p (do advance; pure (negation include_all))
      else if text_eq up (codes "BBOX")
      then parse_bbox parse_float p
      else if one_of up spatial_ops
      then parse_spatial parse_float f up p
      else if text_eq up (codes "DWITHIN") || text_eq up (codes "BEYOND")
      then parse_dwithin parse_float f (text_eq up (codes "BEYOND")) p
      else parse_predicate parse_float f p

  unfoldable mutual
    unfolding advance is_kind is_word is_punct parse_named

    pub parse_or : ℕ → M (Expr F)
    parse_or zero p = err out_of_fuel
    parse_or (suc f) p = run p (do left ← parse_and f; or_loop f left)

    pub or_loop : ℕ → Expr F → M (Expr F)
    or_loop zero left p = err out_of_fuel
    or_loop (suc f) left p =
        let more =
          run p
            (do advance; right ← parse_and f; or_loop f (logic (codes "OR") (pair left right))) in
        if is_word "OR" p then more else ok (left, p)

    pub parse_and : ℕ → M (Expr F)
    parse_and zero p = err out_of_fuel
    parse_and (suc f) p = run p (do left ← parse_unary f; and_loop f left)

    pub and_loop : ℕ → Expr F → M (Expr F)
    and_loop zero left p = err out_of_fuel
    and_loop (suc f) left p =
        let more =
          run p (do
            advance
            right ← parse_unary f
            and_loop f (logic (codes "AND") (pair left right))) in
        if is_word "AND" p then more else ok (left, p)

    pub parse_unary : ℕ → M (Expr F)
    parse_unary zero p = err out_of_fuel
    parse_unary (suc f) p =
        let negated = run p (do advance; e ← parse_unary f; pure (negation e)) in
        let primary = parse_primary f p in if is_word "NOT" p then negated else primary

    pub parse_primary : ℕ → M (Expr F)
    parse_primary zero p = err out_of_fuel
    parse_primary (suc f) p =
        let grouped =
          run p
            (do advance; e ← parse_or f; require (is_punct ")") expected_rparen; advance; pure e) in
        if is_punct "(" p
        then grouped
        else if is_kind tok_ident p
        then parse_named f p
        else err (expected_identifier p.tok.text)

  -- Calls go through `parse_or`, `parse_and`, `parse_unary` and `parse_primary` before a byte is
  -- read, and a loop takes one more: four units for each byte of the text, and four more.
  unfoldable pub cql_fuel : Text → ℕ
  cql_fuel s = 4 * length s + 4

  unfoldable pub finish : Expr F → Parser → Result Error (Expr F)
  unfolding is_kind
  finish e p = if is_kind tok_eof p then ok e else err (unexpected_at_end p.tok.text)

  unfoldable pub parse_cql : Text → Result Error (Expr F)
  unfolding cql_fuel advance is_kind parse_or finish
  parse_cql s = bind (advance (initial s)) λ (_, p).
      if is_kind tok_eof p
      then err empty_filter
      else bind (parse_or (cql_fuel s) p) λ (e, q). finish e q
