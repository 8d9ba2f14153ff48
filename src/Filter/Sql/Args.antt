-- ===== src/Filter/Sql/Args.antt =====
-- The bound values of a compiled filter, and the indices of its placeholders.
use giti.Prelude.{ℕ, ◌≡◌, List, [], ◌∷◌, ◌++◌, Text, ok, bind-eq-ok}
use giti.Filter.Ast.{
  Value, Expr, Exprs, string, float, property, literal, compare, logic, negation, like, in_list,
  between, is_null, bbox, spatial, dwithin, include_all, nil, cons,
}
use giti.Filter.Sql.{Argctr, emit, emit_all, quote_ident, to_sql}
use giti.Filter.Sql.Literals.{literals, literals_all}
use giti.Filter.Sql.Rules.{
  Emits, failed, Emits-give, Emits-bind, Emits-last, Emits-placeholder, Emits-lift, Emits-lift_last,
  Emits-ok, Emits-lit, Emits-right, Emits-values,
}

abbrev Some : {A : Type 0} → A → Type 0
Some a = Unit

module _ {F : Type 0} where
  mutual
    unfolding emit literals

    emit-Emits : (e : Expr F) (ac : Argctr F) → Emits Some (literals e) ac (emit e ac)
    emit-Emits include_all ac = Emits-give _ ac tt
    emit-Emits (property name) ac = Emits-lift_last ac (quote_ident name) λ _ _. tt
    emit-Emits (compare op l r) ac = Emits-bind (emit-Emits l ac) λ (left, ac') _.
        Emits-last _ (Emits-right r (emit r) ac' (λ n. tt) (emit-Emits r ac')) λ _ _. tt
    emit-Emits (logic op es) ac = Emits-last _ (emit_all-Emits es ac) λ _ _. tt
    emit-Emits (negation e) ac = Emits-last _ (emit-Emits e ac) λ _ _. tt
    emit-Emits (like prop pattern ci negate) ac = Emits-bind (emit-Emits prop ac) λ (col, ac') _.
        Emits-last _ (Emits-placeholder {R = Some} (string pattern) ac' tt) λ _ _. tt
    emit-Emits (in_list prop values negate) ac =
        Emits-bind (emit-Emits prop ac)
          λ (col, ac') _. Emits-last _ (Emits-values {R = Some} values ac' (λ n. tt)) λ _ _. tt
    emit-Emits (between prop lo hi negate) ac = Emits-bind (emit-Emits prop ac) λ (col, ac') _.
        Emits-lit (λ l. l ++ literals hi) lo _
          λ a.
            Emits-lit (λ l. a ∷ l) hi _
              λ b.
                Emits-bind (Emits-placeholder {R = Some} a ac' tt)
                  λ (p, ac'') _. Emits-last _ (Emits-placeholder {R = Some} b ac'' tt) λ _ _. tt
    emit-Emits (is_null prop negate) ac = Emits-last _ (emit-Emits prop ac) λ _ _. tt
    emit-Emits (bbox prop minx miny maxx maxy srs) ac = Emits-lift (quote_ident prop) _ λ col _.
        Emits-bind (Emits-placeholder {R = Some} (float minx) ac tt) λ (_, ac) _.
          Emits-bind (Emits-placeholder {R = Some} (float miny) ac tt) λ (_, ac) _.
            Emits-bind (Emits-placeholder {R = Some} (float maxx) ac tt)
              λ (_, ac) _. Emits-last _ (Emits-placeholder {R = Some} (float maxy) ac tt) λ _ _. tt
    emit-Emits (spatial op prop wkt) ac =
        Emits-lift (quote_ident prop) _
          λ col _. Emits-last _ (Emits-placeholder {R = Some} (string wkt) ac tt) λ _ _. tt
    emit-Emits (dwithin prop wkt distance units beyond) ac =
        Emits-lift (quote_ident prop) _ λ col _.
          Emits-bind (Emits-placeholder {R = Some} (string wkt) ac tt) λ (_, ac) _.
            Emits-last _ (Emits-placeholder {R = Some} (float distance) ac tt) λ _ _. tt
    emit-Emits (literal v) ac = failed

    emit_all-Emits :
        (es : Exprs F) (ac : Argctr F) → Emits Some (literals_all es) ac (emit_all es ac)
    emit_all-Emits nil ac = Emits-give [] ac tt
    emit_all-Emits (cons e es) ac =
        Emits-bind (emit-Emits e ac) λ (s, ac') _. Emits-last _ (emit_all-Emits es ac') λ _ _. tt

  -- A compiled filter binds exactly the values of the expression, in their order from left to
  -- right, whatever the first index.
  pub to_sql-args :
      (e : Expr F) (start : ℕ) (sql : Text) (args : List (Value F))
      → to_sql e start ≡ ok (sql, args)
      → args ≡ literals e
  unfolding to_sql
  to_sql-args e start sql args p =
      let ac : Argctr F = record { n = start; args = [] } in
      let (x, done, q) = bind-eq-ok (emit e ac) _ p in
      let (_, bound) = Emits-ok x (emit-Emits e ac) done in cc bound.1
