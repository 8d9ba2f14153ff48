-- ===== src/Filter/Sql/Safe.antt =====
-- The SQL text of a parsed filter is made of harmless bytes.
use mathlib.Core.Path.{subst}
use giti.Prelude.{
  ℕ, ◌≡◌, refl, ap, Option, List, [], ◌∷◌, ◌++◌, Text, codes, ok, bind-eq-ok, ok-injective, All,
}
use giti.Filter.Ast.{Value, Expr, string, float, property, logic, pair}
use giti.Filter.Parser.{parse_cql}
use giti.Filter.Parser.Grammar.{
  IsOperand, value, column, IsParsed, comparison, conjunction, disjunction, negated, pattern_test,
  membership, range, null_test, box, relation, distance, everything,
}
use giti.Filter.Parser.Total.{parse_cql-IsParsed}
use giti.Filter.Sql.{Argctr, emit, quote_ident, right_side, to_sql}
use giti.Filter.Sql.Literals.{literals}
use giti.Filter.Sql.Rules.{
  Emits, Emits-give, Emits-bind, Emits-last, Emits-placeholder, Emits-lift, Emits-lift_last,
  Emits-lit, Emits-right, Emits-values, Emits-ok,
}
use giti.Filter.Sql.SafeText.{
  IsSafe, IsSafe-append, IsSafe-join, between-IsSafe, by_bytes, compare-IsSafe, in-IsSafe,
  is_sql_byte, like-IsSafe, not-IsSafe, null-IsSafe, placeholder-IsSafe, quote_ident-IsSafe,
  title-IsSafe,
}

module _ {F : Type 0} where
  operand-Emits :
      {r : Expr F} (ac : Argctr F)
      → IsOperand r
      → Emits IsSafe (literals r) ac (right_side r (emit r) ac)
  unfolding emit right_side literals
  operand-Emits ac value = Emits-placeholder _ ac (placeholder-IsSafe ac.n)
  operand-Emits ac (column {t}) =
      Emits-right (property t) (emit (property t)) ac placeholder-IsSafe
        (Emits-lift_last ac (quote_ident t) (quote_ident-IsSafe t))

  column-Emits : (t : Text) (ac : Argctr F) → Emits IsSafe [] ac (emit {F = F} (property t) ac)
  unfolding emit
  column-Emits t ac = Emits-lift_last ac (quote_ident t) (quote_ident-IsSafe t)

  -- The two sides of a connective, and the text that joins them.
  pair-Emits :
      (a b : Expr F) (op : Text) (ac : Argctr F)
      → ((ac : Argctr F) → Emits IsSafe (literals a) ac (emit a ac))
      → ((ac : Argctr F) → Emits IsSafe (literals b) ac (emit b ac))
      → IsSafe (b' ' ∷ (op ++ codes " "))
      → Emits IsSafe (literals (logic op (pair a b))) ac (emit (logic op (pair a b)) ac)
  unfolding emit literals is_sql_byte
  pair-Emits a b op ac ha hb ho =
      Emits-last {R = All IsSafe} _
        (Emits-bind (ha ac) λ (s, ac') hs.
          Emits-last {R = All IsSafe} {S = All IsSafe} (λ us. s ∷ us)
            (Emits-bind (hb ac') λ (t, ac'') ht.
              Emits-last {R = All IsSafe} {S = All IsSafe} (λ us. t ∷ us) (Emits-give [] ac'' tt)
                λ us hus. (ht, hus))
            λ ts hts. (hs, hts))
        λ parts h.
          IsSafe-append (codes "(") _ (by_bytes refl)
            (IsSafe-append _ _ (IsSafe-join _ parts ho h) (by_bytes refl))

  parsed-Emits :
      {e : Expr F} → IsParsed e → (ac : Argctr F) → Emits IsSafe (literals e) ac (emit e ac)
  unfolding emit literals is_sql_byte
  parsed-Emits (comparison {op} {t} {r} k o) ac = Emits-bind (column-Emits t ac) λ (left, ac') h.
      Emits-last _ (operand-Emits ac' o)
        λ right hr. IsSafe-join _ _ (by_bytes refl) (h, (compare-IsSafe op k, (hr, tt)))
  parsed-Emits (conjunction {a} {b} h k) ac =
      pair-Emits a b (codes "AND") ac (parsed-Emits h) (parsed-Emits k) (by_bytes refl)
  parsed-Emits (disjunction {a} {b} h k) ac =
      pair-Emits a b (codes "OR") ac (parsed-Emits h) (parsed-Emits k) (by_bytes refl)
  parsed-Emits (negated h) ac =
      Emits-last _ (parsed-Emits h ac) λ s hs.
        IsSafe-append (codes "NOT (") _ (by_bytes refl) (IsSafe-append s _ hs (by_bytes refl))
  parsed-Emits (pattern_test {t} {s} {ci} {n}) ac = Emits-bind (column-Emits t ac) λ (col, ac') h.
      Emits-last _ (Emits-placeholder (string s) ac' (placeholder-IsSafe ac'.n))
        λ p hp. IsSafe-join _ _ (by_bytes refl) (h, (like-IsSafe ci n, (hp, tt)))
  parsed-Emits (membership {t} {es} {n} os) ac = Emits-bind (column-Emits t ac) λ (col, ac') h.
      Emits-last _ (Emits-values es ac' placeholder-IsSafe) λ ps hps.
        IsSafe-join _ _ (by_bytes refl) (
          h,
          (
            in-IsSafe n,
            (
              IsSafe-append (codes "(") _ (by_bytes refl)
                  (IsSafe-append _ _ (IsSafe-join _ ps (by_bytes refl) hps) (by_bytes refl)),
              tt,
            ),
          ),
        )
  parsed-Emits (range {t} {lo} {hi} {n} a b) ac = Emits-bind (column-Emits t ac) λ (col, ac') h.
      Emits-lit (λ l. l ++ literals hi) lo _
        λ v.
          Emits-lit (λ l. v ∷ l) hi _
            λ w. Emits-bind (Emits-placeholder v ac' (placeholder-IsSafe ac'.n)) λ (p, ac'') hp.
              Emits-last _ (Emits-placeholder w ac'' (placeholder-IsSafe ac''.n)) λ q hq.
                IsSafe-join _ _ (by_bytes refl)
                  (h, (between-IsSafe n, (hp, (by_bytes refl, (hq, tt)))))
  parsed-Emits (null_test {t} {n}) ac =
      Emits-last _ (column-Emits t ac) λ col h. null-IsSafe n col h
  parsed-Emits (box {t} {srs} {a} {b} {c} {d}) ac = Emits-lift (quote_ident t) _ λ col k.
      Emits-bind (Emits-placeholder (float a) ac (placeholder-IsSafe ac.n)) λ (p, ac) hp.
        Emits-bind (Emits-placeholder (float b) ac (placeholder-IsSafe ac.n)) λ (q, ac) hq.
          Emits-bind (Emits-placeholder (float c) ac (placeholder-IsSafe ac.n)) λ (r, ac) hr.
            Emits-last _ (Emits-placeholder (float d) ac (placeholder-IsSafe ac.n)) λ s hs.
              IsSafe-append col _ (quote_ident-IsSafe t col k) (
                IsSafe-append (codes " && ST_MakeEnvelope(") _ (by_bytes refl) (
                  IsSafe-append _ _ (IsSafe-join _ _ (by_bytes refl) (hp, (hq, (hr, (hs, tt)))))
                    (by_bytes refl)))
  parsed-Emits (relation {op} {t} {wkt} m) ac = Emits-lift (quote_ident t) _ λ col k.
      Emits-last _ (Emits-placeholder (string wkt) ac (placeholder-IsSafe ac.n)) λ p hp.
        IsSafe-append (codes "ST_") _ (by_bytes refl) (
          IsSafe-append _ _ (title-IsSafe op m) (
            IsSafe-append (codes "(") _ (by_bytes refl) (
              IsSafe-append col _ (quote_ident-IsSafe t col k) (
                IsSafe-append (codes ", ST_GeomFromText(") _ (by_bytes refl)
                  (IsSafe-append p _ hp (by_bytes refl))))))
  parsed-Emits (distance {t} {wkt} {units} {d} {n}) ac = Emits-lift (quote_ident t) _ λ col k.
      Emits-bind (Emits-placeholder (string wkt) ac (placeholder-IsSafe ac.n)) λ (p, ac) hp.
        Emits-last _ (Emits-placeholder (float d) ac (placeholder-IsSafe ac.n)) λ q hq.
          not-IsSafe n (
            IsSafe-append (codes "ST_DWithin(") _ (by_bytes refl) (
              IsSafe-append col _ (quote_ident-IsSafe t col k) (
                IsSafe-append (codes ", ST_GeomFromText(") _ (by_bytes refl) (
                  IsSafe-append p _ hp (
                    IsSafe-append (codes "), ") _ (by_bytes refl)
                      (IsSafe-append q _ hq (by_bytes refl)))))))
  parsed-Emits everything ac = Emits-give _ ac (by_bytes refl)

-- An expression of the grammar compiles to harmless bytes.
pub to_sql-IsSafe :
    {F : Type 0} (e : Expr F) (start : ℕ) (sql : Text) (args : List (Value F))
    → IsParsed e
    → to_sql e start ≡ ok (sql, args)
    → IsSafe sql
unfolding to_sql
to_sql-IsSafe {F} e start sql args h q =
    let ac : Argctr F = record { n = start; args = [] } in
    let (x, done, r) = bind-eq-ok (emit e ac) _ q in
    let (safe, _) = Emits-ok x (parsed-Emits h ac) done in
    subst IsSafe (ap (λ (y : Text × List (Value F)). y.0) (ok-injective r)) safe

-- Whatever text `ParseCQL` accepts, the SQL that `ToSQL` makes of the filter consists of harmless
-- bytes: it holds no single quote, semicolon, dash, slash, star or backslash.
pub parse_cql-to_sql-IsSafe :
    {F : Type 0} (parse_float : Text → Option F) (s : Text) (e : Expr F) (start : ℕ) (sql : Text)
    (args : List (Value F))
    → parse_cql parse_float s ≡ ok e
    → to_sql e start ≡ ok (sql, args)
    → IsSafe sql
parse_cql-to_sql-IsSafe parse_float s e start sql args p q =
    to_sql-IsSafe e start sql args (parse_cql-IsParsed parse_float s e p) q
