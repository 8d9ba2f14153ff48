-- ===== src/Filter/Parser/SpatialRules.antt =====
-- The postconditions of the methods for boxes and spatial tests.
use giti.Prelude.{
  ℕ, zero, suc, ◌<◌, ◌≡◌, refl, Bool, true, ◌&&◌, Option, arith, ◌==◌, Text, codes, one_of,
}
use giti.Filter.Lexer.{tok_eof, tok_ident, tok_string}
use giti.Filter.Parser.State.{Parser, is_kind, is_punct}
use giti.Filter.Parser.Leaf.{spatial_ops}
use giti.Filter.Parser.Spatial.{
  geom_keywords, parse_srs, parse_prop, parse_bbox, wkt_write, wkt_loop, parse_wkt, parse_spatial,
  parse_dwithin,
}
use giti.Filter.Parser.Grammar.{IsParsed, box, relation, distance}
use giti.Filter.Parser.LeafRules.{comma_num-Parses}
use giti.Filter.Parser.Rules.{
  size, Fits, Parses, parsed, rejected, Any, Parses-le, Parses-if, Parses-require, Parses-bind,
  advance_rest, advance-Parses, expect-Parses, not_eof_size,
}

module _ {F : Type 0} (parse_float : Text → Option F) where
  parse_srs-Parses : {n : ℕ} (p : Parser) → Fits n p → Parses Any n (parse_srs parse_float p)
  unfolding parse_srs
  parse_srs-Parses p f =
      Parses-if (is_punct "," p)
        (λ _. Parses-bind (advance-Parses p f) λ (_, q) _ fq.
          Parses-require (is_kind tok_string q) _ _ refl
            λ _. Parses-bind (advance-Parses q fq) λ (_, r) _ fr. parsed tt fr)
        (λ _. parsed tt f)

  parse_prop-Parses :
      {n : ℕ} (op : Text) (p : Parser) → Fits n p → Parses Any n (parse_prop parse_float op p)
  unfolding parse_prop
  parse_prop-Parses op p f =
      Parses-require (is_kind tok_ident p) _ _ refl
        λ _. Parses-bind (advance-Parses p f) λ (_, q) _ fq. parsed tt fq

  pub parse_bbox-Parses :
      {n : ℕ} (p : Parser) → Fits n p → Parses IsParsed n (parse_bbox parse_float p)
  unfolding parse_bbox
  parse_bbox-Parses p f = Parses-bind (advance-Parses p f) λ (_, q) _ fq.
      Parses-bind (expect-Parses "(" q fq) λ (_, q) _ fq.
        Parses-bind (parse_prop-Parses (codes "BBOX") q fq) λ (_, q) _ fq.
          Parses-bind (comma_num-Parses parse_float q fq) λ (_, q) _ fq.
            Parses-bind (comma_num-Parses parse_float q fq) λ (_, q) _ fq.
              Parses-bind (comma_num-Parses parse_float q fq) λ (_, q) _ fq.
                Parses-bind (comma_num-Parses parse_float q fq) λ (_, q) _ fq.
                  Parses-bind (parse_srs-Parses q fq)
                    λ (_, q) _ fq. Parses-bind (expect-Parses ")" q fq) λ (_, q) _ fq. parsed box fq

  -- Each round that goes on reads a token that is not the end of the text.
  wkt_loop-Parses :
      {n : ℕ} (f : ℕ) (b : Text) (depth : ℕ) (first : Bool) (p : Parser)
      → Fits n p
      → size p < f
      → Parses Any n (wkt_loop parse_float f b depth first p)
  unfolding wkt_loop
  wkt_loop-Parses zero b depth first p h s = absurd (omega arith)
  wkt_loop-Parses (suc f) b depth first p h s =
      let w : Text × ℕ × Bool =
        wkt_write parse_float (is_punct "(" p) (is_punct ")" p) (is_punct "," p) p.tok b depth
          first in
      Parses-if (is_kind tok_eof p) (λ _. rejected refl)
        (λ k.
          Parses-if (w.1 == 0) (λ _. parsed tt h)
            (λ _. Parses-bind (advance_rest p) λ (_, q) _ fq.
              Parses-le (omega (arith, h.0))
                (wkt_loop-Parses f w.0 w.1 w.2 q fq (omega (arith, not_eof_size p k, fq.0)))))

  parse_wkt-Parses :
      {n : ℕ} (f : ℕ) (p : Parser) → Fits n p → n < f → Parses Any n (parse_wkt parse_float f p)
  unfolding parse_wkt
  parse_wkt-Parses f p h b =
      Parses-if (is_kind tok_ident p && one_of p.tok.up geom_keywords)
        (λ _. Parses-bind (advance-Parses p h) λ (_, q) _ fq.
          Parses-require (is_punct "(" q) _ _ refl λ _.
            Parses-bind (advance-Parses q fq) λ (_, r) _ fr.
              Parses-bind (wkt_loop-Parses f _ 1 true r fr (omega (arith, fr.0)))
                λ (_, s) _ fs. Parses-bind (advance-Parses s fs) λ (_, u) _ fu. parsed tt fu)
        (λ _. rejected refl)

  pub parse_spatial-Parses :
      {n : ℕ} (f : ℕ) (op : Text) (p : Parser)
      → one_of op spatial_ops ≡ true
      → Fits n p
      → n < f
      → Parses IsParsed n (parse_spatial parse_float f op p)
  unfolding parse_spatial
  parse_spatial-Parses f op p k h b = Parses-bind (advance-Parses p h) λ (_, q) _ fq.
      Parses-bind (expect-Parses "(" q fq) λ (_, q) _ fq.
        Parses-bind (parse_prop-Parses op q fq) λ (_, q) _ fq.
          Parses-bind (expect-Parses "," q fq) λ (_, q) _ fq.
            Parses-bind (parse_wkt-Parses f q fq b) λ (_, q) _ fq.
              Parses-bind (expect-Parses ")" q fq) λ (_, q) _ fq. parsed (relation k) fq

  pub parse_dwithin-Parses :
      {n : ℕ} (f : ℕ) (beyond : Bool) (p : Parser)
      → Fits n p
      → n < f
      → Parses IsParsed n (parse_dwithin parse_float f beyond p)
  unfolding parse_dwithin
  parse_dwithin-Parses f beyond p h b = Parses-bind (advance-Parses p h) λ (_, q) _ fq.
      Parses-bind (expect-Parses "(" q fq) λ (_, q) _ fq.
        Parses-bind (parse_prop-Parses (codes "DWITHIN") q fq) λ (_, q) _ fq.
          Parses-bind (expect-Parses "," q fq) λ (_, q) _ fq.
            Parses-bind (parse_wkt-Parses f q fq b) λ (_, q) _ fq.
              Parses-bind (comma_num-Parses parse_float q fq) λ (_, q) _ fq.
                Parses-bind (expect-Parses "," q fq) λ (_, q) _ fq.
                  Parses-require (is_kind tok_ident q) _ _ refl λ _.
                    Parses-bind (advance-Parses q fq) λ (_, r) _ fr.
                      Parses-bind (expect-Parses ")" r fr) λ (_, s) _ fs. parsed distance fs
