-- ===== src/Filter/Sql/Shape.antt =====
-- The SQL text does not depend on the values.
use giti.Prelude.{
  ℕ, ◌+◌, ◌≡◌, refl, sym, ap, Option, none, some, List, ◌∷◌, Text, decimal, Result, ok, err, bind,
}
use giti.Filter.Ast.{
  Value, Expr, Exprs, string, float, property, literal, compare, logic, negation, like, in_list,
  between, is_null, bbox, spatial, dwithin, include_all, nil, cons,
}
use giti.Filter.Error.{Error}
use giti.Filter.Sql.{
  Argctr, Emit, placeholder, emit, emit_all, quote_ident, lit_value, or_literal, right_side,
  emit_values, to_sql,
}

-- A change of values: of literals, of the texts that are bound, and of coordinates.
pub record Change (F G : Type 0) : Type 0 where
  pub value : Value F → Value G
  pub bound : Text → Text
  pub number : F → G

module _ {F G : Type 0} where
  unfoldable mutual
    pub relabel : Change F G → Expr F → Expr G
    relabel c (property name) = property name
    relabel c (literal v) = literal (c.value v)
    relabel c (compare op l r) = compare op (relabel c l) (relabel c r)
    relabel c (logic op es) = logic op (relabel_all c es)
    relabel c (negation e) = negation (relabel c e)
    relabel c (like prop pattern ci negate) = like (relabel c prop) (c.bound pattern) ci negate
    relabel c (in_list prop values negate) = in_list (relabel c prop) (relabel_all c values) negate
    relabel c (between prop lo hi negate) =
        between (relabel c prop) (relabel c lo) (relabel c hi) negate
    relabel c (is_null prop negate) = is_null (relabel c prop) negate
    relabel c (bbox prop minx miny maxx maxy srs) =
        bbox prop (c.number minx) (c.number miny) (c.number maxx) (c.number maxy) srs
    relabel c (spatial op prop wkt) = spatial op prop (c.bound wkt)
    relabel c (dwithin prop wkt distance units beyond) =
        dwithin prop (c.bound wkt) (c.number distance) units beyond
    relabel c include_all = include_all

    pub relabel_all : Change F G → Exprs F → Exprs G
    relabel_all c nil = nil
    relabel_all c (cons e es) = cons (relabel c e) (relabel_all c es)

  -- Two emissions with one result and one index behind it, or with an error each.
  data Same {A : Type 0} : Result Error (A × Argctr F) → Result Error (A × Argctr G) → Type 0 where
    both_ok :
        {a b : A} {ac : Argctr F} {bc : Argctr G}
        → a ≡ b
        → ac.n ≡ bc.n
        → Same (ok (a, ac)) (ok (b, bc))
    both_err : {d e : Error} → Same (err d) (err e)

  module _ {A B : Type 0} where
    Same-bind :
        {r : Result Error (A × Argctr F)} {s : Result Error (A × Argctr G)}
        {f : A × Argctr F → Result Error (B × Argctr F)}
        {g : A × Argctr G → Result Error (B × Argctr G)}
        → Same r s
        → ((x : A × Argctr F) (y : A × Argctr G) → x.0 ≡ y.0 → x.1.n ≡ y.1.n → Same (f x) (g y))
        → Same (bind r f) (bind s g)
    Same-bind (both_ok {a} {b} {ac} {bc} e h) k = k (a, ac) (b, bc) e h
    Same-bind both_err k = both_err

    Same-last :
        {r : Result Error (A × Argctr F)} {s : Result Error (A × Argctr G)} (f g : A → B)
        → Same r s
        → ((a b : A) → a ≡ b → f a ≡ g b)
        → Same (bind r λ (a, ac). ok (f a, ac)) (bind s λ (b, bc). ok (g b, bc))
    Same-last f g (both_ok {a} {b} e h) k = both_ok (k a b e) h
    Same-last f g both_err k = both_err

  Same-lift :
      {A B : Type 0} {ac : Argctr F} {bc : Argctr G} (r : Result Error A)
      (f : A × Argctr F → Result Error (B × Argctr F))
      (g : A × Argctr G → Result Error (B × Argctr G))
      → ((a : A) → Same (f (a, ac)) (g (a, bc)))
      → Same (bind (bind r λ a. ok (a, ac)) f) (bind (bind r λ a. ok (a, bc)) g)
  Same-lift (ok a) f g k = k a
  Same-lift (err e) f g k = both_err

  Same-lift_last :
      {A : Type 0} (ac : Argctr F) (bc : Argctr G) (r : Result Error A)
      → ac.n ≡ bc.n
      → Same (bind r λ a. ok (a, ac)) (bind r λ a. ok (a, bc))
  Same-lift_last ac bc (ok a) h = both_ok refl h
  Same-lift_last ac bc (err e) h = both_err

  Same-placeholder :
      (v : Value F) (w : Value G) (ac : Argctr F) (bc : Argctr G)
      → ac.n ≡ bc.n
      → Same (placeholder v ac) (placeholder w bc)
  unfolding placeholder
  Same-placeholder v w ac bc h = both_ok (ap (λ n. b'$' ∷ decimal n) h) (ap (λ n. n + 1) h)

  Same-or_literal :
      {r : Result Error (Text × Argctr F)} {s : Result Error (Text × Argctr G)}
      → Same r s
      → Same (or_literal r) (or_literal s)
  unfolding or_literal
  Same-or_literal (both_ok e h) = both_ok e h
  Same-or_literal both_err = both_err

  module _ (c : Change F G) where
    Same-lit :
        {B : Type 0} {ac : Argctr F} {bc : Argctr G} (e : Expr F)
        (f : Value F × Argctr F → Result Error (B × Argctr F))
        (g : Value G × Argctr G → Result Error (B × Argctr G))
        → ((v : Value F) → Same (f (v, ac)) (g (c.value v, bc)))
        → Same
            (bind (bind (lit_value e) λ a. ok (a, ac)) f)
            (bind (bind (lit_value (relabel c e)) λ a. ok (a, bc)) g)
    unfolding lit_value relabel
    Same-lit (literal v) f g k = k v
    Same-lit _ f g k = both_err

    Same-right :
        (r : Expr F) (f : Emit F Text) (g : Emit G Text) (ac : Argctr F) (bc : Argctr G)
        → ac.n ≡ bc.n
        → Same (f ac) (g bc)
        → Same (right_side r f ac) (right_side (relabel c r) g bc)
    unfolding right_side relabel
    Same-right (literal v) f g ac bc h k = Same-placeholder v (c.value v) ac bc h
    Same-right _ f g ac bc h k = Same-or_literal k

    Same-values :
        (es : Exprs F) (ac : Argctr F) (bc : Argctr G)
        → ac.n ≡ bc.n
        → Same (emit_values es ac) (emit_values (relabel_all c es) bc)
    unfolding emit_values relabel
    Same-values nil ac bc h = both_ok refl h
    Same-values (cons e es) ac bc h = Same-lit e _ _ λ v.
        Same-bind (Same-placeholder v (c.value v) ac bc h)
          λ (p, ac') (q, bc') e h'. Same-last _ _ (Same-values es ac' bc' h') λ ps qs es. cc

    mutual
      unfolding emit relabel

      emit-Same :
          (e : Expr F) (ac : Argctr F) (bc : Argctr G)
          → ac.n ≡ bc.n
          → Same (emit e ac) (emit (relabel c e) bc)
      emit-Same include_all ac bc h = both_ok refl h
      emit-Same (property name) ac bc h = Same-lift_last ac bc (quote_ident name) h
      emit-Same (compare op l r) ac bc h = Same-bind (emit-Same l ac bc h) λ (a, ac') (b, bc') e h'.
          Same-last _ _ (Same-right r _ _ ac' bc' h' (emit-Same r ac' bc' h')) λ x y p. cc
      emit-Same (logic op es) ac bc h = Same-last _ _ (emit_all-Same es ac bc h) λ x y p. cc
      emit-Same (negation e) ac bc h = Same-last _ _ (emit-Same e ac bc h) λ x y p. cc
      emit-Same (like prop pattern ci negate) ac bc h =
          Same-bind (emit-Same prop ac bc h)
            λ (a, ac') (b, bc') e h'. Same-last _ _ (Same-placeholder _ _ ac' bc' h') λ x y p. cc
      emit-Same (in_list prop values negate) ac bc h =
          Same-bind (emit-Same prop ac bc h)
            λ (a, ac') (b, bc') e h'. Same-last _ _ (Same-values values ac' bc' h') λ x y p. cc
      emit-Same (between prop lo hi negate) ac bc h =
          Same-bind (emit-Same prop ac bc h) λ (a, ac') (b, bc') e h'. Same-lit lo _ _ λ v.
            Same-lit hi _ _ λ w.
              Same-bind (Same-placeholder v (c.value v) ac' bc' h') λ (p, ac'') (q, bc'') d h''.
                Same-last _ _ (Same-placeholder w (c.value w) ac'' bc'' h'') λ x y p. cc
      emit-Same (is_null prop negate) ac bc h = Same-last _ _ (emit-Same prop ac bc h) λ x y p. cc
      emit-Same (bbox prop minx miny maxx maxy srs) ac bc h =
          Same-lift (quote_ident prop) _ _ λ col.
            Same-bind (Same-placeholder (float minx) _ ac bc h) λ (_, ac) (_, bc) d h.
              Same-bind (Same-placeholder (float miny) _ ac bc h) λ (_, ac) (_, bc) e h.
                Same-bind (Same-placeholder (float maxx) _ ac bc h) λ (_, ac) (_, bc) f h.
                  Same-last _ _ (Same-placeholder (float maxy) _ ac bc h) λ x y p. cc
      emit-Same (spatial op prop wkt) ac bc h =
          Same-lift (quote_ident prop) _ _
            λ col. Same-last _ _ (Same-placeholder (string wkt) _ ac bc h) λ x y p. cc
      emit-Same (dwithin prop wkt distance units beyond) ac bc h =
          Same-lift (quote_ident prop) _ _ λ col.
            Same-bind (Same-placeholder (string wkt) _ ac bc h) λ (_, ac) (_, bc) d h.
              Same-last _ _ (Same-placeholder (float distance) _ ac bc h) λ x y p. cc
      emit-Same (literal v) ac bc h = both_err

      emit_all-Same :
          (es : Exprs F) (ac : Argctr F) (bc : Argctr G)
          → ac.n ≡ bc.n
          → Same (emit_all es ac) (emit_all (relabel_all c es) bc)
      emit_all-Same nil ac bc h = both_ok refl h
      emit_all-Same (cons e es) ac bc h =
          Same-bind (emit-Same e ac bc h)
            λ (a, ac') (b, bc') d h'. Same-last _ _ (emit_all-Same es ac' bc' h') λ x y p. cc

-- The SQL text of a compiled filter, if it compiles.
unfoldable pub sql_text : {F : Type 0} → Result Error (Text × List (Value F)) → Option Text
sql_text (ok (sql, args)) = some sql
sql_text (err e) = none

text_of :
    {F G : Type 0} {r : Result Error (Text × Argctr F)} {s : Result Error (Text × Argctr G)}
    → Same r s
    → sql_text (bind r λ (t, ac). ok (t, ac.args)) ≡ sql_text (bind s λ (t, bc). ok (t, bc.args))
unfolding sql_text
text_of (both_ok e h) = ap some e
text_of both_err = refl

-- Whatever the values of an expression are changed into, it compiles to the same SQL text, or is
-- refused, as before: no literal, pattern, geometry or coordinate reaches the text.
pub to_sql-relabel :
    {F G : Type 0} (c : Change F G) (e : Expr F) (start : ℕ)
    → sql_text (to_sql (relabel c e) start) ≡ sql_text (to_sql e start)
unfolding to_sql
to_sql-relabel c e start = sym (text_of (emit-Same c e _ _ refl))
