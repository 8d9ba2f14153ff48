-- ===== src/Filter/Parser/Total.antt =====
-- The parser always ends within the fuel that `parse_cql` hands out, and what it returns is an
-- expression of the grammar.
use mathlib.Core.Path.{subst}
use giti.Prelude.{
  ℕ, zero, suc, ◌+◌, ◌*◌, ◌≤◌, ◌<◌, ◌≡◌, ◌≢◌, refl, Bool, true, false, ◌||◌, Option, arith,
  if◌then◌else◌, Text, codes, text_eq, one_of, Result, ok, err, bind,
}
use giti.Filter.Ast.{Expr}
use giti.Filter.Error.{Error, out_of_fuel}
use giti.Filter.Lexer.{tok_eof, tok_ident}
use giti.Filter.Lexer.Progress.{is_fuel}
use giti.Filter.Parser.State.{Parser, initial, is_kind, is_word, is_punct}
use giti.Filter.Parser.Leaf.{spatial_ops}
use giti.Filter.Parser.{
  parse_named, parse_or, or_loop, parse_and, and_loop, parse_unary, parse_primary, cql_fuel, finish,
  parse_cql,
}
use giti.Filter.Parser.Grammar.{IsParsed, conjunction, disjunction, negated, everything}
use giti.Filter.Parser.LeafRules.{parse_predicate-Parses}
use giti.Filter.Parser.Rules.{
  size, Fits, Parses, parsed, rejected, Parses-le, Parses-if, Parses-require, Parses-bind,
  advance_rest, advance-Parses, is_punct-size, is_word-size, is_ident_size,
}
use giti.Filter.Parser.SpatialRules.{parse_bbox-Parses, parse_spatial-Parses, parse_dwithin-Parses}

module _ {F : Type 0} (parse_float : Text → Option F) where
  parse_named-Parses :
      {n : ℕ} (f : ℕ) (p : Parser)
      → Fits n p
      → n < f
      → Parses IsParsed n (parse_named parse_float f p)
  unfolding parse_named
  parse_named-Parses f p h b =
      Parses-if (text_eq p.tok.up (codes "INCLUDE"))
        (λ _. Parses-bind (advance-Parses p h) λ (_, q) _ fq. parsed everything fq)
        (λ _.
          Parses-if (text_eq p.tok.up (codes "EXCLUDE"))
            (λ _. Parses-bind (advance-Parses p h) λ (_, q) _ fq. parsed (negated everything) fq)
            (λ _.
              Parses-if (text_eq p.tok.up (codes "BBOX")) (λ _. parse_bbox-Parses parse_float p h)
                (λ _.
                  Parses-if (one_of p.tok.up spatial_ops)
                    (λ k. parse_spatial-Parses parse_float f p.tok.up p k h b)
                    (λ _.
                      Parses-if
                        (text_eq p.tok.up (codes "DWITHIN") || text_eq p.tok.up (codes "BEYOND"))
                        (λ _. parse_dwithin-Parses parse_float f _ p h b)
                        (λ _. parse_predicate-Parses parse_float f p h b)))))

  -- The state at hand bounds what is left, and fuel is counted in fours of it.
  abbrev Ready : ℕ → ℕ → Parser → Type 0
  Ready c f p = Fits (size p) p × (4 * size p + c ≤ f)

  mutual
    unfolding parse_or

    parse_or-Parses :
        (f : ℕ) (p : Parser) → Ready 4 f p → Parses IsParsed (size p) (parse_or parse_float f p)
    parse_or-Parses zero p h = absurd (omega (arith, h.1))
    parse_or-Parses (suc f) p h =
        Parses-bind (parse_and-Parses f p (h.0, omega (arith, h.1))) λ (left, q) l fq.
          Parses-le fq.0 (or_loop-Parses f left q l ((omega arith, fq.1), omega (arith, h.1, fq.0)))

    or_loop-Parses :
        (f : ℕ) (left : Expr F) (p : Parser)
        → IsParsed left
        → Ready 1 f p
        → Parses IsParsed (size p) (or_loop parse_float f left p)
    or_loop-Parses zero left p l h = absurd (omega (arith, h.1))
    or_loop-Parses (suc f) left p l h =
        Parses-if (is_word "OR" p)
          (λ w. Parses-bind (advance_rest p) λ (_, q) _ fq.
            Parses-bind
              (parse_and-Parses f q
                ((omega arith, fq.1), omega (arith, h.1, fq.0, is_word-size "OR" p w)))
              λ (right, r) k fr. Parses-le (omega (arith, fq.0, fr.0, is_word-size "OR" p w)) (
                or_loop-Parses f _ r (disjunction l k)
                  ((omega arith, fr.1), omega (arith, h.1, fq.0, fr.0, is_word-size "OR" p w))))
          (λ _. parsed l h.0)

    parse_and-Parses :
        (f : ℕ) (p : Parser) → Ready 3 f p → Parses IsParsed (size p) (parse_and parse_float f p)
    parse_and-Parses zero p h = absurd (omega (arith, h.1))
    parse_and-Parses (suc f) p h =
        Parses-bind (parse_unary-Parses f p (h.0, omega (arith, h.1))) λ (left, q) l fq.
          Parses-le fq.0
            (and_loop-Parses f left q l ((omega arith, fq.1), omega (arith, h.1, fq.0)))

    and_loop-Parses :
        (f : ℕ) (left : Expr F) (p : Parser)
        → IsParsed left
        → Ready 1 f p
        → Parses IsParsed (size p) (and_loop parse_float f left p)
    and_loop-Parses zero left p l h = absurd (omega (arith, h.1))
    and_loop-Parses (suc f) left p l h =
        Parses-if (is_word "AND" p)
          (λ w. Parses-bind (advance_rest p) λ (_, q) _ fq.
            Parses-bind
              (parse_unary-Parses f q
                ((omega arith, fq.1), omega (arith, h.1, fq.0, is_word-size "AND" p w)))
              λ (right, r) k fr. Parses-le (omega (arith, fq.0, fr.0, is_word-size "AND" p w)) (
                and_loop-Parses f _ r (conjunction l k)
                  ((omega arith, fr.1), omega (arith, h.1, fq.0, fr.0, is_word-size "AND" p w))))
          (λ _. parsed l h.0)

    parse_unary-Parses :
        (f : ℕ) (p : Parser) → Ready 2 f p → Parses IsParsed (size p) (parse_unary parse_float f p)
    parse_unary-Parses zero p h = absurd (omega (arith, h.1))
    parse_unary-Parses (suc f) p h =
        Parses-if (is_word "NOT" p)
          (λ w. Parses-bind (advance_rest p) λ (_, q) _ fq.
            Parses-bind
              (parse_unary-Parses f q
                ((omega arith, fq.1), omega (arith, h.1, fq.0, is_word-size "NOT" p w)))
              λ (e, r) k fr.
                parsed (negated k) (omega (arith, fq.0, fr.0, is_word-size "NOT" p w), fr.1))
          (λ _. parse_primary-Parses f p (h.0, omega (arith, h.1)))

    parse_primary-Parses :
        (f : ℕ) (p : Parser)
        → Ready 1 f p
        → Parses IsParsed (size p) (parse_primary parse_float f p)
    parse_primary-Parses zero p h = absurd (omega (arith, h.1))
    parse_primary-Parses (suc f) p h =
        Parses-if (is_punct "(" p)
          (λ w. Parses-bind (advance_rest p) λ (_, q) _ fq.
            Parses-bind
              (parse_or-Parses f q
                ((omega arith, fq.1), omega (arith, h.1, fq.0, is_punct-size "(" p w)))
              λ (e, r) k fr. Parses-require (is_punct ")" r) _ _ refl λ _.
                Parses-bind (advance-Parses r fr)
                  λ (_, s) _ fs. parsed k (omega (arith, fq.0, fs.0, is_punct-size "(" p w), fs.1))
          (λ _.
            Parses-if (is_kind tok_ident p)
              (λ k. parse_named-Parses f p h.0 (omega (arith, h.1, is_ident_size p k)))
              (λ _. rejected refl))

  -- A whole text: an expression of the grammar, or an error of the program's.
  pub data Accepts : Result Error (Expr F) → Type 0 where
    accepted : {e : Expr F} → IsParsed e → Accepts (ok e)
    declined : {e : Error} → is_fuel e ≡ false → Accepts (err e)

  Accepts-if :
      (b : Bool) {x y : Result Error (Expr F)}
      → (b ≡ true → Accepts x)
      → (b ≡ false → Accepts y)
      → Accepts (if b then x else y)
  Accepts-if true hx hy = hx refl
  Accepts-if false hx hy = hy refl

  Accepts-bind :
      {A : Type 0} {R : A → Type 0} {n : ℕ} {r : Result Error (A × Parser)}
      {f : A × Parser → Result Error (Expr F)}
      → Parses R n r
      → ((x : A × Parser) → R x.0 → Fits n x.1 → Accepts (f x))
      → Accepts (bind r f)
  Accepts-bind (parsed {a} {q} h g) m = m (a, q) h g
  Accepts-bind (rejected e) m = declined e

  finish-Accepts : (e : Expr F) (p : Parser) → IsParsed e → Accepts (finish parse_float e p)
  unfolding finish
  finish-Accepts e p h = Accepts-if (is_kind tok_eof p) (λ _. accepted h) (λ _. declined refl)

  pub parse_cql-Accepts : (s : Text) → Accepts (parse_cql parse_float s)
  unfolding parse_cql
  parse_cql-Accepts s = Accepts-bind (advance_rest (initial s)) λ (_, p) _ fp.
      Accepts-if (is_kind tok_eof p) (λ _. declined refl)
        (λ _.
          Accepts-bind
            (parse_or-Parses (cql_fuel parse_float s) p ((omega arith, fp.1), omega (arith, fp.0)))
            λ (e, q) h _. finish-Accepts e q h)

  Accepts-ok : {r : Result Error (Expr F)} {e : Expr F} → Accepts r → r ≡ ok e → IsParsed e
  Accepts-ok (accepted h) p = subst IsParsed (cc) h
  Accepts-ok (declined h) p = cc

  Accepts-ne_fuel : {r : Result Error (Expr F)} → Accepts r → r ≢ err out_of_fuel
  Accepts-ne_fuel (accepted h) p = cc
  Accepts-ne_fuel (declined h) p = ground arith

  -- For every text the parser returns an expression or one of the program's own errors: its loops
  -- and recursion never outrun the fuel, which is counted from the length of the text.
  pub parse_cql-ne_fuel : (s : Text) → parse_cql parse_float s ≢ err out_of_fuel
  parse_cql-ne_fuel s = Accepts-ne_fuel (parse_cql-Accepts s)

  -- An expression that `ParseCQL` returns is one of the grammar: each comparison is by one of the six
  -- operators between a property and an operand, each connective is a binary AND or OR, each
  -- spatial test is one of the eight, and a list or range holds operands only.
  pub parse_cql-IsParsed : (s : Text) (e : Expr F) → parse_cql parse_float s ≡ ok e → IsParsed e
  parse_cql-IsParsed s e = Accepts-ok (parse_cql-Accepts s)
