-- ===== src/Ows/Negotiate/Choice.antt =====
-- What version negotiation promises a client.
use giti.Prelude.{
  Bool, true, false, not, ◌&&◌, ◌||◌, some, List, [], ◌∷◌, ◌≡◌, refl, sym, ap, ◌∙◌, arith, inl, inr,
  subst, text_eq, text_eq_iff, one_of, one_of-All, to_upper, Text, Bool-cases, and-eq-true,
  false≢true, all_of, All,
}
use giti.Ows.Request.{find}
use giti.Ows.Request.Params.{find-All}
use giti.Ows.Negotiate.{versions, at_most, pick, newest, choose, negotiate}

-- Each version is at least as new as itself and as those after it.
unfoldable pub is_descending : List Text → Bool
unfolding at_most
is_descending [] = true
is_descending (v ∷ vs) = all_of (λ u. at_most u v) (v ∷ vs) && is_descending vs

-- The last of the versions.
unfoldable pub oldest : List Text → Text
oldest [] = []
oldest (v ∷ []) = v
oldest (v ∷ u ∷ vs) = oldest (u ∷ vs)

one_of-all_of :
    (p : Text → Bool) (u : Text) (vs : List Text)
    → all_of p vs ≡ true
    → one_of u vs ≡ true
    → p u ≡ true
unfolding one_of
one_of-all_of p u [] h m = cc
one_of-all_of p u (v ∷ vs) h m =
    let both = and-eq-true (p v) (all_of p vs) h in
    elim (Bool-cases (text_eq u v)) [
      | inl same ↦ ap p ((text_eq_iff u v).0 same) ∙ both.0
      | inr other ↦ one_of-all_of p u vs both.1 (rw other at m)
    ]

or-right : (a b : Bool) → b ≡ true → (a || b) ≡ true
or-right a b h = ground (arith, h)

one_of_later : (x v : Text) (vs : List Text) → one_of x vs ≡ true → one_of x (v ∷ vs) ≡ true
unfolding one_of
one_of_later x v vs h = or-right (text_eq x v) (one_of x vs) h

one_of-pick : (v : Text) (vs : List Text) (r : Text) → one_of (pick (v ∷ vs) r) (v ∷ vs) ≡ true
unfolding pick one_of
one_of-pick v [] r = rw ((text_eq_iff v v).1 refl)
one_of-pick v (u ∷ vs) r = elim (Bool-cases (at_most v r)) [
  | inl new ↦ rw new (rw ((text_eq_iff v v).1 refl))
  | inr old ↦
      let older : pick (v ∷ u ∷ vs) r ≡ pick (u ∷ vs) r = rw old refl in
      ap (λ x. one_of x (v ∷ u ∷ vs)) older ∙ one_of_later _ v (u ∷ vs) (one_of-pick u vs r)
]

one_of-pick_any :
    (vs : List Text) → one_of (newest vs) vs ≡ true → (r : Text) → one_of (pick vs r) vs ≡ true
unfolding one_of
one_of-pick_any [] h r = absurd (false≢true h)
one_of-pick_any (v ∷ vs) h r = one_of-pick v vs r

pick-highest :
    (u : Text) (vs : List Text) (r : Text)
    → is_descending vs ≡ true
    → one_of u vs ≡ true
    → at_most u r ≡ true
    → (at_most (pick vs r) r ≡ true) × (at_most u (pick vs r) ≡ true)
unfolding pick is_descending one_of
pick-highest u [] r d m h = absurd (false≢true m)
pick-highest u (v ∷ []) r d m h = elim (Bool-cases (text_eq u v)) [
  | inl same ↦
      let here : u ≡ v = (text_eq_iff u v).0 same in
      let self : at_most v v ≡ true = (and-eq-true (at_most v v) true (and-eq-true _ true d).0).0 in
      (ap (λ x. at_most x r) (sym here) ∙ h, ap (λ x. at_most x v) here ∙ self)
  | inr other ↦ absurd (false≢true (rw other at m))
]
pick-highest u (v ∷ w ∷ vs) r d m h =
    let both = and-eq-true (all_of (λ x. at_most x v) (v ∷ w ∷ vs)) (is_descending (w ∷ vs)) d in
    elim (Bool-cases (at_most v r)) [
      | inl new ↦ rw new (new, one_of-all_of (λ x. at_most x v) u (v ∷ w ∷ vs) both.0 m)
      | inr old ↦
          let apart : text_eq u v ≡ true → ⊥ = λ same.
            false≢true (sym old ∙ ap (λ x. at_most x r) (sym ((text_eq_iff u v).0 same)) ∙ h) in
          elim (Bool-cases (text_eq u v)) [
            | inl same ↦ absurd (apart same)
            | inr other ↦ rw old (pick-highest u (w ∷ vs) r both.1 (rw other at m) h)
          ]
    ]

pick-oldest :
    (vs : List Text) (r : Text) → all_of (λ v. not (at_most v r)) vs ≡ true → pick vs r ≡ oldest vs
unfolding pick oldest
pick-oldest [] r h = refl
pick-oldest (v ∷ []) r h = refl
pick-oldest (v ∷ w ∷ vs) r h =
    let both = and-eq-true (not (at_most v r)) (all_of (λ x. not (at_most x r)) (w ∷ vs)) h in
    let old : at_most v r ≡ false = ground (arith, both.0) in rw old (pick-oldest (w ∷ vs) r both.1)

-- What the tables of all services satisfy.
abbrev IsTable : List Text → Type 0
IsTable vs =
    (is_descending vs ≡ true)
    × (one_of (newest vs) vs ≡ true)
    × All (λ u. (text_eq u [] ≡ false) × (pick vs u ≡ u)) vs

versions-IsTable : All (λ e. IsTable e.1) versions
unfolding is_descending newest pick one_of at_most
versions-IsTable = (
  (refl, refl, ((refl, refl), ((refl, refl), tt))),
  (
    (refl, refl, ((refl, refl), ((refl, refl), ((refl, refl), tt)))),
    (
      (refl, refl, ((refl, refl), tt)),
      (
        (refl, refl, ((refl, refl), tt)),
        ((refl, refl, ((refl, refl), tt)), ((refl, refl, ((refl, refl), ((refl, refl), tt))), tt)),
      ),
    ),
  ),
)

module _ (service : Text) (vs : List Text)
    (known : find (to_upper service) versions ≡ some vs) where
  table : IsTable vs
  table = find-All IsTable (to_upper service) versions versions-IsTable known

  asked-pick :
      (requested : Text)
      → text_eq requested [] ≡ false
      → negotiate service requested ≡ pick vs requested
  unfolding negotiate choose
  asked-pick requested asked = ap (λ o. choose o requested) known ∙ rw asked refl

  unasked-newest :
      (requested : Text) → text_eq requested [] ≡ true → negotiate service requested ≡ newest vs
  unfolding negotiate choose
  unasked-newest requested unasked = ap (λ o. choose o requested) known ∙ rw unasked refl

  -- The version that a known service answers with is one that it supports, whatever is requested.
  pub negotiate-supported : (requested : Text) → one_of (negotiate service requested) vs ≡ true
  negotiate-supported requested = elim (Bool-cases (text_eq requested [])) [
    | inl unasked ↦ ap (λ v. one_of v vs) (unasked-newest requested unasked) ∙ table.1
    | inr asked ↦
        ap (λ v. one_of v vs) (asked-pick requested asked) ∙ one_of-pick_any vs table.1 requested
  ]

  -- A supported version that is requested is the one that is used.
  pub negotiate-exact : (u : Text) → one_of u vs ≡ true → negotiate service u ≡ u
  negotiate-exact u m =
      let entry = one_of-All (λ x. (text_eq x [] ≡ false) × (pick vs x ≡ x)) u vs table.2 m in
      asked-pick u entry.0 ∙ entry.1

  -- Where a service supports a version that is at most the requested one, the version that is used
  -- is at most the requested one too, and at least as new as each such version.
  pub negotiate-highest :
      (requested u : Text)
      → text_eq requested [] ≡ false
      → one_of u vs ≡ true
      → at_most u requested ≡ true
      → (at_most (negotiate service requested) requested ≡ true)
        × (at_most u (negotiate service requested) ≡ true)
  negotiate-highest requested u asked m h =
      subst (λ v. (at_most v requested ≡ true) × (at_most u v ≡ true))
        (sym (asked-pick requested asked)) (pick-highest u vs requested table.0 m h)

  -- Where all supported versions are newer than the requested one, the oldest of them is used.
  pub negotiate-oldest :
      (requested : Text)
      → text_eq requested [] ≡ false
      → all_of (λ v. not (at_most v requested)) vs ≡ true
      → negotiate service requested ≡ oldest vs
  negotiate-oldest requested asked h = asked-pick requested asked ∙ pick-oldest vs requested h
