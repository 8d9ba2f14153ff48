-- ===== src/Rows/Updates.antt =====
-- UPDATE: what holds of the rows after it.
use giti.Prelude.{
  all_of, ◌≡◌, refl, ◌∙◌, Bool, true, false, not, List, [], ◌∷◌, Text, text_eq, text_eq_iff, arith,
  inl, inr, Bool-cases, and-eq-true,
}
use giti.Rows.{any_row, update_rows, unique, has_key, same_key}
use giti.Rows.Laws.{text_eq_sym, any_row-eq}

module _ {A : Type 0} (p : A → Bool) (f : A → A) where
  -- An update that leaves what a test reads leaves its answer.
  pub any_row-update_rows :
      (q : A → Bool)
      → ((x : A) → p x ≡ true → q (f x) ≡ q x)
      → (xs : List A) → any_row q (update_rows p f xs) ≡ any_row q xs
  unfolding any_row update_rows
  any_row-update_rows q h [] = refl
  any_row-update_rows q h (x ∷ xs) =
      let ih : any_row q (update_rows p f xs) ≡ any_row q xs = any_row-update_rows q h xs in
      elim (Bool-cases (p x)) [
        | inl changed ↦ rw (changed, h x changed, ih) refl
        | inr kept ↦ rw (kept, ih) refl
      ]

  pub unique-update_rows :
      (same : A → A → Bool)
      → ((x y : A) → same x (f y) ≡ same x y)
      → ((x y : A) → same (f x) y ≡ same x y)
      → (xs : List A) → unique same xs ≡ true
      → unique same (update_rows p f xs) ≡ true
  unfolding unique update_rows
  unique-update_rows same r l [] h = refl
  unique-update_rows same r l (x ∷ xs) h =
      let ih : unique same xs ≡ true → unique same (update_rows p f xs) ≡ true =
        unique-update_rows same r l xs in
      let there : any_row (same x) (update_rows p f xs) ≡ any_row (same x) xs =
        any_row-update_rows (same x) (λ y e. r x y) xs in
      let changed : any_row (same (f x)) (update_rows p f xs) ≡ any_row (same (f x)) xs =
        any_row-update_rows (same (f x)) (λ y e. r (f x) y) xs in
      let turn : any_row (same (f x)) xs ≡ any_row (same x) xs =
        any_row-eq (same (f x)) (same x) (l x) xs in
      elim (Bool-cases (p x)) [
        | inl set ↦ rw set (ground (arith, ih, changed, turn))
        | inr kept ↦ rw kept (ground (arith, ih, there))
      ]

  -- A test that neither the rows nor the new ones pass.
  pub any_row-update_rows_none :
      (q : A → Bool)
      → ((x : A) → q (f x) ≡ false)
      → (xs : List A) → any_row q xs ≡ false
      → any_row q (update_rows p f xs) ≡ false
  unfolding any_row update_rows
  any_row-update_rows_none q h [] e = refl
  any_row-update_rows_none q h (x ∷ xs) e =
      let ih : any_row q xs ≡ false → any_row q (update_rows p f xs) ≡ false =
        any_row-update_rows_none q h xs in
      elim (Bool-cases (p x)) [
        | inl changed ↦ rw (changed, h x) (ground (arith, ih))
        | inr kept ↦ rw kept (ground (arith, ih))
      ]

  pub update_rows-none : (xs : List A) → any_row p xs ≡ false → update_rows p f xs ≡ xs
  unfolding any_row update_rows
  update_rows-none [] h = refl
  update_rows-none (x ∷ xs) h =
      let kept : p x ≡ false = ground (arith, h) in
      let rest : any_row p xs ≡ false = ground (arith, h) in
      rw (kept, update_rows-none xs rest) refl

module _ {A : Type 0} (key : A → Text) (k k' : Text) (f : A → A)
    (renames : (x : A) → key (f x) ≡ k') where
  turned : (x y : A) → text_eq (key x) k ≡ true → has_key key k y ≡ same_key key x y
  unfolding has_key same_key
  turned x y chosen =
      let at_k : key x ≡ k = (text_eq_iff (key x) k).0 chosen in rw at_k (text_eq_sym (key y) k)

  new : (x y : A) → same_key key (f x) y ≡ has_key key k' y
  unfolding has_key same_key
  new x y = rw (renames x) (text_eq_sym k' (key y))

  -- Rows with different keys still have such where one gets a key that is not there.
  pub unique-renamed :
      (xs : List A)
      → unique (same_key key) xs ≡ true
      → any_row (has_key key k') xs ≡ false
      → unique (same_key key) (update_rows (has_key key k) f xs) ≡ true
  unfolding unique update_rows any_row has_key same_key
  unique-renamed [] u n = refl
  unique-renamed (x ∷ xs) u n =
      let (alone, rest) =
        and-eq-true (not (any_row (same_key key x) xs)) (unique (same_key key) xs) u in
      let single : any_row (same_key key x) xs ≡ false = ground (arith, alone) in
      let absent : any_row (has_key key k') xs ≡ false = ground (arith, n) in
      let other : text_eq (key x) k' ≡ false = ground (arith, n) in
      let ih = unique-renamed xs rest absent in
      elim (Bool-cases (text_eq (key x) k)) [
        | inl chosen ↦
            let none_left : any_row (has_key key k) xs ≡ false =
              any_row-eq (has_key key k) (same_key key x) (λ (y : A). turned x y chosen) xs
              ∙ single in
            let same_rows = update_rows-none (has_key key k) f xs none_left in
            let fresh : any_row (same_key key (f x)) xs ≡ false =
              any_row-eq (same_key key (f x)) (has_key key k') (λ (y : A). new x y) xs ∙ absent in
            rw chosen (rw same_rows (rw fresh rest))
        | inr kept ↦
            let far : any_row (same_key key x) (update_rows (has_key key k) f xs) ≡ false =
              any_row-update_rows_none (has_key key k) f (same_key key x)
                (λ (y : A). rw (renames y) other) xs single in
            rw kept (rw far ih)
      ]

pub all_of-update_rows :
    {A : Type 0} (p : A → Bool) (f : A → A) (q : A → Bool)
    → ((x : A) → q (f x) ≡ q x)
    → (xs : List A) → all_of q xs ≡ true
    → all_of q (update_rows p f xs) ≡ true
unfolding update_rows
all_of-update_rows p f q h [] e = refl
all_of-update_rows p f q h (x ∷ xs) e =
    let ih : all_of q xs ≡ true → all_of q (update_rows p f xs) ≡ true =
      all_of-update_rows p f q h xs in
    elim (Bool-cases (p x)) [
      | inl changed ↦ rw (changed, h x) (ground (arith, ih))
      | inr kept ↦ rw kept (ground (arith, ih))
    ]
