-- ===== src/Filter/Parser/Leaf.antt =====
-- The methods of `cqlParser` for what holds no further filter: values and predicates.
use giti.Prelude.{
  ℕ, zero, suc, Bool, true, false, not, ◌||◌, Option, none, some, List, [], ◌∷◌, ◌==◌, text_eq,
  if◌then◌else◌, Text, codes, Result, ok, err, bind,
}
use giti.Filter.Ast.{
  Expr, Exprs, string, float, boolean, property, literal, compare, like, in_list, between, is_null,
  nil, snoc,
}
use giti.Filter.Error.{
  Error, expected_operator, expected_after_not, like_requires_string, in_requires_lparen,
  in_requires_rparen, between_requires_and, unexpected_not, expected_null, unexpected_token,
  expected_value, parse_float_failed, expected_number, out_of_fuel,
}
use giti.Filter.Lexer.{TokKind, tok_ident, tok_string, tok_number, tok_op}
use giti.Filter.Parser.State.{
  Parser, M, pure, ◌>>=◌, ◌>>◌, run, current, require, advance, is_kind, is_word, is_punct,
}

abbrev pub spatial_ops : List Text
spatial_ops =
    codes "INTERSECTS"
    ∷ codes "WITHIN"
    ∷ codes "CONTAINS"
    ∷ codes "DISJOINT"
    ∷ codes "TOUCHES"
    ∷ codes "CROSSES"
    ∷ codes "OVERLAPS"
    ∷ codes "EQUALS"
    ∷ []

-- What stands behind the first colon, if there is one.
after_colon : Text → Option Text
after_colon [] = none
after_colon (c ∷ cs) = if c == b':' then some cs else after_colon cs

unfoldable pub strip_prefix : Text → Text
unfolding after_colon
strip_prefix name = elim (after_colon name) [ some t ↦ t | none ↦ name ]

unfoldable pub float_or : {F : Type 0} → Text → Option F → Result Error F
float_or t (some x) = ok x
float_or t none = err (parse_float_failed t)

module _ {F : Type 0} (parse_float : Text → Option F) where
  -- `strconv.ParseFloat(text, 64)`
  unfoldable pub float_of : Text → Result Error F
  unfolding float_or
  float_of t = float_or t (parse_float t)

  -- The `switch p.tok.kind` of `parseValue`.
  unfoldable pub value_at : TokKind → Parser → Result Error (Expr F × Parser)
  unfolding float_of strip_prefix advance
  value_at tok_string p = run p (do advance; pure (literal (string p.tok.text)))
  value_at tok_number p =
      bind (float_of p.tok.text) λ x. run p (do advance; pure (literal (float x)))
  value_at tok_ident p =
      let up = p.tok.up in
      if text_eq up (codes "TRUE") || text_eq up (codes "FALSE")
      then run p (do advance; pure (literal (boolean (text_eq up (codes "TRUE")))))
      else run p (do advance; pure (property (strip_prefix p.tok.text)))
  value_at _ p = err (expected_value p.tok.text)

  unfoldable pub parse_value : M (Expr F)
  unfolding value_at
  parse_value p = value_at p.tok.kind p

  unfoldable pub parse_num : M F
  unfolding float_of advance is_kind
  parse_num p =
      if is_kind tok_number p
      then bind (float_of p.tok.text) (λ x. run p (do advance; pure x))
      else err (expected_number p.tok.text)

  -- The loop behind `IN (`: at the opening parenthesis or at a comma.
  unfoldable pub in_loop : ℕ → Exprs F → M (Exprs F)
  unfolding parse_value snoc is_punct
  in_loop zero vals p = err out_of_fuel
  in_loop (suc f) vals p = bind (advance p) λ (_, q). bind (parse_value q) λ (v, r).
      let more = in_loop f (snoc vals v) r in if is_punct "," r then more else ok (snoc vals v, r)

  unfoldable pub parse_like : Expr F → Bool → M (Expr F)
  unfolding advance is_kind text_eq
  parse_like prop negate p =
      let ci = text_eq p.tok.up (codes "ILIKE") in
      run p (do
        advance
        require (is_kind tok_string) like_requires_string
        t ← current
        advance
        pure (like prop t.text ci negate))

  unfoldable pub parse_in : ℕ → Expr F → Bool → M (Expr F)
  unfolding in_loop
  parse_in f prop negate = do
    advance
    require (is_punct "(") in_requires_lparen
    vals ← in_loop f nil
    require (is_punct ")") in_requires_rparen
    advance
    pure (in_list prop vals negate)

  unfoldable pub parse_between : Expr F → Bool → M (Expr F)
  unfolding parse_value is_word
  parse_between prop negate = do
    advance
    lo ← parse_value
    require (is_word "AND") between_requires_and
    advance
    hi ← parse_value
    pure (between prop lo hi negate)

  unfoldable pub optional_not : M Bool
  unfolding advance is_word
  optional_not p = if is_word "NOT" p then run p (do advance; pure true) else ok (false, p)

  -- `IS [NOT] NULL`
  unfoldable pub parse_null : Expr F → M (Expr F)
  unfolding optional_not
  parse_null prop = do
    advance
    negate ← optional_not
    require (is_word "NULL") expected_null
    advance
    pure (is_null prop negate)

  -- The `switch p.tok.up` of `parsePredicate`.
  unfoldable pub predicate_at : ℕ → Expr F → Bool → M (Expr F)
  unfolding parse_like parse_in parse_between parse_null
  predicate_at f prop negate p =
      let up = p.tok.up in
      if text_eq up (codes "LIKE") || text_eq up (codes "ILIKE")
      then parse_like prop negate p
      else if text_eq up (codes "IN")
      then parse_in f prop negate p
      else if text_eq up (codes "BETWEEN")
      then parse_between prop negate p
      else if text_eq up (codes "IS")
      then (if negate then err unexpected_not else parse_null prop p)
      else err (unexpected_token p.tok.text)

  -- Behind the property: a comparison, or an optional NOT and a keyword.
  unfoldable pub predicate_behind : ℕ → Text → M (Expr F)
  unfolding predicate_at
  predicate_behind f name p =
      let prop = property name in
      if is_kind tok_op p
      then run p (do advance; val ← parse_value; pure (compare p.tok.text prop val))
      else if not (is_kind tok_ident p)
      then err (expected_operator name)
      else if text_eq p.tok.up (codes "NOT")
      then run p
          (do advance; require (is_kind tok_ident) expected_after_not; predicate_at f prop true)
      else predicate_at f prop false p

  unfoldable pub parse_predicate : ℕ → M (Expr F)
  unfolding predicate_behind strip_prefix
  parse_predicate f p = run p (do advance; predicate_behind f (strip_prefix p.tok.text))
