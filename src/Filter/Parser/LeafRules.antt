-- ===== src/Filter/Parser/LeafRules.antt =====
-- The postconditions of the methods in Leaf: what they build, what they leave, and that their
-- loops end within the fuel.
use giti.Prelude.{
  ℕ, zero, suc, ◌<◌, ◌≡◌, refl, Bool, true, false, ◌||◌, not, Option, none, some, arith, length,
  Text, codes, text_eq, one_of, Result, bind,
}
use giti.Filter.Ast.{Exprs, property, nil, snoc}
use giti.Filter.Error.{Error}
use giti.Filter.Lexer.{TokKind, tok_ident, tok_string, tok_number, tok_op}
use giti.Filter.Lexer.Progress.{token_ok, compare_ops}
use giti.Filter.Parser.State.{Parser, is_kind, is_word, is_punct}
use giti.Filter.Parser.Leaf.{
  strip_prefix, float_or, float_of, value_at, parse_value, parse_num, in_loop, parse_like, parse_in,
  parse_between, optional_not, parse_null, predicate_at, predicate_behind, parse_predicate,
}
use giti.Filter.Parser.Spatial.{comma_num}
use giti.Filter.Parser.Grammar.{
  IsOperand, value, column, IsOperands, none_left, snoc-IsOperands, IsParsed, comparison,
  pattern_test, membership, range, null_test,
}
use giti.Filter.Parser.Rules.{
  Fits, Parses, parsed, rejected, Any, Parses-le, Parses-if, Parses-require, Parses-bind,
  advance_rest, advance-Parses, expect-Parses, is_punct-size,
}

module _ {F : Type 0} (parse_float : Text → Option F) where
  float_or-Parses :
      {A : Type 0} {R : A → Type 0} {n : ℕ} (t : Text) (o : Option F)
      {f : F → Result Error (A × Parser)}
      → ((x : F) → Parses R n (f x))
      → Parses R n (bind (float_or t o) f)
  unfolding float_or
  float_or-Parses t (some x) h = h x
  float_or-Parses t none h = rejected refl

  value_at-Parses :
      (k : TokKind) (p : Parser) → Parses IsOperand (length p.rest) (value_at parse_float k p)
  unfolding value_at
  value_at-Parses tok_string p = Parses-bind (advance_rest p) λ (_, q) _ f. parsed value f
  value_at-Parses tok_number p =
      float_or-Parses p.tok.text (parse_float p.tok.text)
        λ x. Parses-bind (advance_rest p) λ (_, q) _ f. parsed value f
  value_at-Parses tok_ident p =
      Parses-if (text_eq p.tok.up (codes "TRUE") || text_eq p.tok.up (codes "FALSE"))
        (λ _. Parses-bind (advance_rest p) λ (_, q) _ f. parsed value f)
        (λ _. Parses-bind (advance_rest p) λ (_, q) _ f. parsed column f)
  value_at-Parses _ p = rejected refl

  parse_value-Parses :
      {n : ℕ} (p : Parser) → Fits n p → Parses IsOperand n (parse_value parse_float p)
  unfolding parse_value
  parse_value-Parses p f = Parses-le (omega (arith, f.0)) (value_at-Parses p.tok.kind p)

  parse_num-Parses : {n : ℕ} (p : Parser) → Fits n p → Parses Any n (parse_num parse_float p)
  unfolding parse_num float_of
  parse_num-Parses p f =
      Parses-if (is_kind tok_number p)
        (λ _.
          float_or-Parses p.tok.text (parse_float p.tok.text)
            λ x. Parses-bind (advance-Parses p f) λ (_, q) _ g. parsed tt g)
        (λ _. rejected refl)

  in_loop-Parses :
      (f : ℕ) (vals : Exprs F) (p : Parser)
      → length p.rest < f
      → IsOperands vals
      → Parses IsOperands (length p.rest) (in_loop parse_float f vals p)
  unfolding in_loop
  in_loop-Parses zero vals p h g = absurd (omega arith)
  in_loop-Parses (suc f) vals p h g = Parses-bind (advance_rest p) λ (_, q) _ fq.
      Parses-bind (parse_value-Parses q fq) λ (v, r) ov fr.
        Parses-if (is_punct "," r)
          (λ c. Parses-le (omega (arith, is_punct-size "," r c, fr.0)) (
            in_loop-Parses f (snoc vals v) r (omega (arith, is_punct-size "," r c, fr.0))
              (snoc-IsOperands g ov)))
          (λ _. parsed (snoc-IsOperands g ov) fr)

  parse_like-Parses :
      {n : ℕ} (t : Text) (negate : Bool) (p : Parser)
      → Fits n p
      → Parses (IsParsed {F = F}) n (parse_like parse_float (property t) negate p)
  unfolding parse_like
  parse_like-Parses t negate p f = Parses-bind (advance-Parses p f) λ (_, q) _ fq.
      Parses-require (is_kind tok_string q) _ _ refl
        λ _. Parses-bind (advance-Parses q fq) λ (_, r) _ fr. parsed pattern_test fr

  parse_in-Parses :
      {n : ℕ} (f : ℕ) (t : Text) (negate : Bool) (p : Parser)
      → Fits n p
      → n < f
      → Parses IsParsed n (parse_in parse_float f (property t) negate p)
  unfolding parse_in
  parse_in-Parses f t negate p h b = Parses-bind (advance-Parses p h) λ (_, q) _ fq.
      Parses-require (is_punct "(" q) _ _ refl λ _.
        Parses-bind
          (Parses-le (omega (arith, fq.0)) (in_loop-Parses f nil q (omega (arith, fq.0)) none_left))
          λ (vals, r) ov fr.
            Parses-require (is_punct ")" r) _ _ refl
              λ _. Parses-bind (advance-Parses r fr) λ (_, s) _ fs. parsed (membership ov) fs

  parse_between-Parses :
      {n : ℕ} (t : Text) (negate : Bool) (p : Parser)
      → Fits n p
      → Parses IsParsed n (parse_between parse_float (property t) negate p)
  unfolding parse_between
  parse_between-Parses t negate p f = Parses-bind (advance-Parses p f) λ (_, q) _ fq.
      Parses-bind (parse_value-Parses q fq) λ (lo, r) ol fr.
        Parses-require (is_word "AND" r) _ _ refl λ _.
          Parses-bind (advance-Parses r fr) λ (_, s) _ fs.
            Parses-bind (parse_value-Parses s fs) λ (hi, u) oh fu. parsed (range ol oh) fu

  optional_not-Parses : {n : ℕ} (p : Parser) → Fits n p → Parses Any n (optional_not parse_float p)
  unfolding optional_not
  optional_not-Parses p f =
      Parses-if (is_word "NOT" p) (λ _. Parses-bind (advance-Parses p f) λ (_, q) _ g. parsed tt g)
        (λ _. parsed tt f)

  parse_null-Parses :
      {n : ℕ} (t : Text) (p : Parser)
      → Fits n p
      → Parses (IsParsed {F = F}) n (parse_null parse_float (property t) p)
  unfolding parse_null
  parse_null-Parses t p f = Parses-bind (advance-Parses p f) λ (_, q) _ fq.
      Parses-bind (optional_not-Parses q fq) λ (negate, r) _ fr.
        Parses-require (is_word "NULL" r) _ _ refl
          λ _. Parses-bind (advance-Parses r fr) λ (_, s) _ fs. parsed null_test fs

  predicate_at-Parses :
      {n : ℕ} (f : ℕ) (t : Text) (negate : Bool) (p : Parser)
      → Fits n p
      → n < f
      → Parses IsParsed n (predicate_at parse_float f (property t) negate p)
  unfolding predicate_at
  predicate_at-Parses f t negate p h b =
      Parses-if (text_eq p.tok.up (codes "LIKE") || text_eq p.tok.up (codes "ILIKE"))
        (λ _. parse_like-Parses t negate p h)
        (λ _.
          Parses-if (text_eq p.tok.up (codes "IN")) (λ _. parse_in-Parses f t negate p h b)
            (λ _.
              Parses-if (text_eq p.tok.up (codes "BETWEEN"))
                (λ _. parse_between-Parses t negate p h)
                (λ _.
                  Parses-if (text_eq p.tok.up (codes "IS"))
                    (λ _. Parses-if negate (λ _. rejected refl) (λ _. parse_null-Parses t p h))
                    (λ _. rejected refl))))

  op_known :
      (p : Parser)
      → token_ok p.tok ≡ true
      → is_kind tok_op p ≡ true
      → one_of p.tok.text compare_ops ≡ true
  unfolding is_kind
  op_known p k h = rw h at k

  predicate_behind-Parses :
      {n : ℕ} (f : ℕ) (t : Text) (p : Parser)
      → Fits n p
      → n < f
      → Parses IsParsed n (predicate_behind parse_float f t p)
  unfolding predicate_behind
  predicate_behind-Parses f t p h b =
      Parses-if (is_kind tok_op p)
        (λ k. Parses-bind (advance-Parses p h) λ (_, q) _ fq.
          Parses-bind (parse_value-Parses q fq)
            λ (v, r) ov fr. parsed (comparison (op_known p h.1 k) ov) fr)
        (λ _.
          Parses-if (not (is_kind tok_ident p)) (λ _. rejected refl)
            (λ _.
              Parses-if (text_eq p.tok.up (codes "NOT"))
                (λ _. Parses-bind (advance-Parses p h) λ (_, q) _ fq.
                  Parses-require (is_kind tok_ident q) _ _ refl
                    λ _. predicate_at-Parses f t true q fq b)
                (λ _. predicate_at-Parses f t false p h b)))

  pub parse_predicate-Parses :
      {n : ℕ} (f : ℕ) (p : Parser)
      → Fits n p
      → n < f
      → Parses IsParsed n (parse_predicate parse_float f p)
  unfolding parse_predicate
  parse_predicate-Parses f p h b =
      Parses-bind (advance-Parses p h)
        λ (_, q) _ fq. predicate_behind-Parses f (strip_prefix p.tok.text) q fq b

  pub comma_num-Parses : {n : ℕ} (p : Parser) → Fits n p → Parses Any n (comma_num parse_float p)
  unfolding comma_num
  comma_num-Parses p f = Parses-bind (expect-Parses "," p f) λ (_, q) _ g. parse_num-Parses q g
