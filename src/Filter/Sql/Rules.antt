-- ===== src/Filter/Sql/Rules.antt =====
-- Postconditions of emissions: what holds of the result, and which values are bound on the way.
use mathlib.Core.Path.{subst}
use giti.Prelude.{
  ok-injective, ℕ, ◌+◌, ◌≡◌, refl, sym, ap, ◌∙◌, List, [], ◌∷◌, ◌++◌, arith, length, length-append,
  append-nil, append_assoc, Text, decimal, Result, ok, err, bind, All,
}
use giti.Filter.Ast.{Value, Expr, Exprs, literal, nil, cons}
use giti.Filter.Error.{Error}
use giti.Filter.Sql.{Argctr, Emit, placeholder, lit_value, or_literal, right_side, emit_values}
use giti.Filter.Sql.Literals.{literals, literals_all}

-- The counter has moved past `vs`, which are bound in this order.
abbrev pub Binds : {F : Type 0} → List (Value F) → Argctr F → Argctr F → Type 0
Binds vs ac ac' = (ac'.n ≡ ac.n + length vs) × (ac'.args ≡ ac.args ++ vs)

Binds-append :
    {F : Type 0} (vs ws : List (Value F)) (a b c : Argctr F)
    → Binds vs a b
    → Binds ws b c
    → Binds (vs ++ ws) a c
Binds-append vs ws a b c h k = (
  omega (arith, h.0, k.0, length-append vs ws),
  k.1 ∙ ap (λ l. l ++ ws) h.1 ∙ append_assoc a.args vs ws,
)

module _ {F : Type 0} where
  -- An error, or a result of which `R` holds and behind which `vs` are bound.
  pub data Emits {A : Type 0} (R : A → Type 0) (vs : List (Value F)) (ac : Argctr F)
      : Result Error (A × Argctr F) → Type 0 where
    emitted : {a : A} {ac' : Argctr F} → R a → Binds vs ac ac' → Emits R vs ac (ok (a, ac'))
    failed : {e : Error} → Emits R vs ac (err e)

  pub Emits-give :
      {A : Type 0} {R : A → Type 0} (a : A) (ac : Argctr F) → R a → Emits R [] ac (ok (a, ac))
  Emits-give a ac h = emitted h (omega arith, sym (append-nil ac.args))

  -- A step from a counter that has moved past `vs`.
  Emits-after :
      {B : Type 0} {S : B → Type 0} (vs : List (Value F)) {ws : List (Value F)} {ac ac' : Argctr F}
      {r : Result Error (B × Argctr F)}
      → Binds vs ac ac'
      → Emits S ws ac' r
      → Emits S (vs ++ ws) ac r
  Emits-after vs {ws = ws} {ac = ac} {ac' = b} h (emitted {ac' = c} s k) =
      emitted s (Binds-append vs ws ac b c h k)
  Emits-after vs h failed = failed

  module _ {A B : Type 0} {R : A → Type 0} {S : B → Type 0} {vs : List (Value F)}
      {ac : Argctr F} where
    pub Emits-bind :
        {ws : List (Value F)} {r : Result Error (A × Argctr F)}
        {f : A × Argctr F → Result Error (B × Argctr F)}
        → Emits R vs ac r
        → ((x : A × Argctr F) → R x.0 → Emits S ws x.1 (f x))
        → Emits S (vs ++ ws) ac (bind r f)
    Emits-bind (emitted {a} {ac'} h b) k = Emits-after vs b (k (a, ac') h)
    Emits-bind failed k = failed

    -- The last step, which binds nothing more.
    pub Emits-last :
        {r : Result Error (A × Argctr F)} (g : A → B)
        → Emits R vs ac r
        → ((a : A) → R a → S (g a))
        → Emits S vs ac (bind r λ (a, ac'). ok (g a, ac'))
    Emits-last g (emitted {a} h b) k = emitted (k a h) b
    Emits-last g failed k = failed

  pub Emits-placeholder :
      {R : Text → Type 0} (v : Value F) (ac : Argctr F)
      → R (b'$' ∷ decimal ac.n)
      → Emits R (v ∷ []) ac (placeholder v ac)
  unfolding placeholder
  Emits-placeholder v ac h = emitted h (refl, refl)

  -- A result that binds nothing.
  pub Emits-lift :
      {A B : Type 0} {S : B → Type 0} {ws : List (Value F)} {ac : Argctr F} (r : Result Error A)
      (f : A × Argctr F → Result Error (B × Argctr F))
      → ((a : A) → r ≡ ok a → Emits S ws ac (f (a, ac)))
      → Emits S ws ac (bind (bind r λ a. ok (a, ac)) f)
  Emits-lift (ok a) f k = k a refl
  Emits-lift (err e) f k = failed

  pub Emits-lift_last :
      {A : Type 0} {R : A → Type 0} (ac : Argctr F) (r : Result Error A)
      → ((a : A) → r ≡ ok a → R a)
      → Emits R [] ac (bind r λ a. ok (a, ac))
  Emits-lift_last ac (ok a) k = Emits-give a ac (k a refl)
  Emits-lift_last ac (err e) k = failed

  pub Emits-ok :
      {A : Type 0} {R : A → Type 0} {vs : List (Value F)} {ac : Argctr F}
      {r : Result Error (A × Argctr F)} (x : A × Argctr F)
      → Emits R vs ac r
      → r ≡ ok x
      → R x.0 × Binds vs ac x.1
  Emits-ok {R = R} {vs = vs} {ac = ac} x (emitted {a} {ac'} h b) p =
      subst (λ (y : _ × Argctr F). R y.0 × Binds vs ac y.1) (ok-injective p) (h, b)
  Emits-ok x failed p = cc

  -- A literal, which is bound later on.
  pub Emits-lit :
      {B : Type 0} {S : B → Type 0} (around : List (Value F) → List (Value F)) {ac : Argctr F}
      (e : Expr F) (f : Value F × Argctr F → Result Error (B × Argctr F))
      → ((v : Value F) → Emits S (around (v ∷ [])) ac (f (v, ac)))
      → Emits S (around (literals e)) ac (bind (bind (lit_value e) λ a. ok (a, ac)) f)
  unfolding lit_value literals
  Emits-lit around (literal v) f k = k v
  Emits-lit around _ f k = failed

  Emits-or_literal :
      {R : Text → Type 0} {vs : List (Value F)} {ac : Argctr F} {r : Result Error (Text × Argctr F)}
      → Emits R vs ac r
      → Emits R vs ac (or_literal r)
  unfolding or_literal
  Emits-or_literal (emitted h b) = emitted h b
  Emits-or_literal failed = failed

  pub Emits-right :
      {R : Text → Type 0} (r : Expr F) (other : Emit F Text) (ac : Argctr F)
      → ((n : ℕ) → R (b'$' ∷ decimal n))
      → Emits R (literals r) ac (other ac)
      → Emits R (literals r) ac (right_side r other ac)
  unfolding right_side literals
  Emits-right (literal v) other ac h k = Emits-placeholder v ac (h ac.n)
  Emits-right _ other ac h k = Emits-or_literal k

  -- Each value of an IN list becomes a placeholder.
  pub Emits-values :
      {R : Text → Type 0} (es : Exprs F) (ac : Argctr F)
      → ((n : ℕ) → R (b'$' ∷ decimal n))
      → Emits (All R) (literals_all es) ac (emit_values es ac)
  unfolding emit_values literals
  Emits-values nil ac h = Emits-give [] ac tt
  Emits-values (cons e es) ac h =
      Emits-lit (λ l. l ++ literals_all es) e _
        λ v.
          Emits-bind (Emits-placeholder v ac (h ac.n))
            λ (p, ac') hp. Emits-last (λ ps. p ∷ ps) (Emits-values es ac' h) λ ps hps. (hp, hps)
