-- ===== src/Rows/Sorted.antt =====
-- ORDER BY puts the same rows in order, and selecting before it or after it is the same.
use giti.Prelude.{
  ◌≡◌, refl, sym, ap, ◌∙◌, Bool, true, false, not, ◌&&◌, ◌||◌, List, [], ◌∷◌, ◌++◌, Text, text_eq,
  one_of, all_of, arith, inl, inr, Bool-cases, and-eq-true,
}
use giti.Rows.{any_row, keep, place, order_by}
use giti.Rows.Laws.{all_of-weaken}

module _ {A : Type 0} where
  -- Each row comes before all that follow it.
  unfoldable pub sorted : (A → A → Bool) → List A → Bool
  sorted precedes [] = true
  sorted precedes (x ∷ xs) = all_of (precedes x) xs && sorted precedes xs

  any_row-place :
      (q : A → Bool) (p : A → A → Bool) (x : A) (xs : List A)
      → any_row q (place p x xs) ≡ (q x || any_row q xs)
  unfolding any_row place
  any_row-place q p x [] = refl
  any_row-place q p x (y ∷ ys) =
      let ih : any_row q (place p x ys) ≡ (q x || any_row q ys) = any_row-place q p x ys in
      elim (Bool-cases (p x y)) [
        | inl first ↦ rw first refl
        | inr later ↦ rw later (ground (arith, ih))
      ]

  pub any_row-order_by :
      (q : A → Bool) (p : A → A → Bool) (xs : List A) → any_row q (order_by p xs) ≡ any_row q xs
  unfolding any_row order_by
  any_row-order_by q p [] = refl
  any_row-order_by q p (x ∷ xs) =
      any_row-place q p x (order_by p xs) ∙ ap (λ (b : Bool). q x || b) (any_row-order_by q p xs)

  all_of-place :
      (q : A → Bool) (p : A → A → Bool) (x : A) (xs : List A)
      → all_of q (place p x xs) ≡ (q x && all_of q xs)
  unfolding place
  all_of-place q p x [] = refl
  all_of-place q p x (y ∷ ys) =
      let ih : all_of q (place p x ys) ≡ (q x && all_of q ys) = all_of-place q p x ys in
      elim (Bool-cases (p x y)) [
        | inl first ↦ rw first refl
        | inr later ↦ rw later (ground (arith, ih))
      ]

  pub all_of-order_by :
      (q : A → Bool) (p : A → A → Bool) (xs : List A) → all_of q (order_by p xs) ≡ all_of q xs
  unfolding order_by
  all_of-order_by q p [] = refl
  all_of-order_by q p (x ∷ xs) =
      all_of-place q p x (order_by p xs) ∙ ap (λ (b : Bool). q x && b) (all_of-order_by q p xs)

  place-first :
      (p : A → A → Bool) (x : A) (xs : List A) → all_of (p x) xs ≡ true → place p x xs ≡ x ∷ xs
  unfolding place
  place-first p x [] h = refl
  place-first p x (y ∷ ys) h = rw ((and-eq-true (p x y) (all_of (p x) ys) h).0) refl

  all_of-keep_any :
      (p q : A → Bool) (xs : List A) → all_of p xs ≡ true → all_of p (keep q xs) ≡ true
  unfolding keep
  all_of-keep_any p q [] h = refl
  all_of-keep_any p q (x ∷ xs) h =
      let ih : all_of p xs ≡ true → all_of p (keep q xs) ≡ true = all_of-keep_any p q xs in
      ground (arith, ih)

  -- A row that comes before each of a list stands first.
  pub order_by-append_first :
      (p : A → A → Bool) (x : A) (xs : List A)
      → all_of (λ (y : A). not (p y x)) xs ≡ true
      → order_by p (xs ++ (x ∷ [])) ≡ x ∷ order_by p xs
  unfolding order_by place
  order_by-append_first p x [] h = refl
  order_by-append_first p x (y ∷ ys) h =
      let (here, rest) = and-eq-true (not (p y x)) (all_of (λ (z : A). not (p z x)) ys) h in
      let after : p y x ≡ false = ground (arith, here) in
      ap (place p y) (order_by-append_first p x ys rest) ∙ rw after refl

-- The rows in an order that compares any two.
module _ {A : Type 0} (p : A → A → Bool) (total : (x y : A) → p x y ≡ false → p y x ≡ true)
    (trans : (x y z : A) → p x y ≡ true → p y z ≡ true → p x z ≡ true) where
  place-sorted : (x : A) (xs : List A) → sorted p xs ≡ true → sorted p (place p x xs) ≡ true
  unfolding sorted place
  place-sorted x [] h = refl
  place-sorted x (y ∷ ys) h =
      let (below, rest) = and-eq-true (all_of (p y) ys) (sorted p ys) h in
      elim (Bool-cases (p x y)) [
        | inl first ↦
            let above : all_of (p x) ys ≡ true =
              all_of-weaken (p y) (p x) (λ (z : A) e. trans x y z first e) ys below in
            rw (first, first, above, below, rest) refl
        | inr later ↦
            let turned : p y x ≡ true = total x y later in
            let all : all_of (p y) (place p x ys) ≡ (p y x && all_of (p y) ys) =
              all_of-place (p y) p x ys in
            rw (later, all, turned, below, place-sorted x ys rest) refl
      ]

  pub order_by-sorted : (xs : List A) → sorted p (order_by p xs) ≡ true
  unfolding sorted order_by
  order_by-sorted [] = refl
  order_by-sorted (x ∷ xs) = place-sorted x (order_by p xs) (order_by-sorted xs)

  keep-place :
      (q : A → Bool) (x : A) (xs : List A)
      → sorted p xs ≡ true
      → q x ≡ true
      → keep q (place p x xs) ≡ place p x (keep q xs)
  unfolding sorted place keep
  keep-place q x [] h e = rw e refl
  keep-place q x (y ∷ ys) h e =
      let (below, rest) = and-eq-true (all_of (p y) ys) (sorted p ys) h in
      let ih = keep-place q x ys rest e in
      elim (Bool-cases (p x y)) [
        | inl first ↦
            let above : all_of (p x) ys ≡ true =
              all_of-weaken (p y) (p x) (λ (z : A) f. trans x y z first f) ys below in
            let whole : all_of (p x) (y ∷ ys) ≡ true = rw (first, above) refl in
            rw (first, e)
              (sym (place-first p x (keep q (y ∷ ys)) (all_of-keep_any (p x) q (y ∷ ys) whole)))
        | inr later ↦ elim (Bool-cases (q y)) [
          | inl chosen ↦ rw (later, chosen, later, ih) refl
          | inr passed ↦ rw (later, passed, ih) refl
        ]
      ]

  keep-place_none :
      (q : A → Bool) (x : A) (xs : List A) → q x ≡ false → keep q (place p x xs) ≡ keep q xs
  unfolding place keep
  keep-place_none q x [] e = rw e refl
  keep-place_none q x (y ∷ ys) e =
      let ih = keep-place_none q x ys e in
      elim (Bool-cases (p x y)) [ inl first ↦ rw (first, e) refl | inr later ↦ rw (later, ih) refl ]

  pub keep-order_by : (q : A → Bool) (xs : List A) → keep q (order_by p xs) ≡ order_by p (keep q xs)
  unfolding keep order_by
  keep-order_by q [] = refl
  keep-order_by q (x ∷ xs) = elim (Bool-cases (q x)) [
    | inl chosen ↦
        keep-place q x (order_by p xs) (order_by-sorted xs) chosen
        ∙ rw chosen (ap (place p x) (keep-order_by q xs))
    | inr passed ↦ keep-place_none q x (order_by p xs) passed ∙ rw passed (keep-order_by q xs)
  ]

pub one_of-any_row : (t : Text) (ts : List Text) → one_of t ts ≡ any_row (text_eq t) ts
unfolding one_of any_row
one_of-any_row t [] = refl
one_of-any_row t (k ∷ ks) = ap (λ (b : Bool). text_eq t k || b) (one_of-any_row t ks)
