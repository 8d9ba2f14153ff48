-- ===== src/Rows/Laws.antt =====
-- Rows that are kept, and the keys that are left.
use giti.Prelude.{
  ◌≡◌, refl, Bool, true, false, not, ◌||◌, List, [], ◌∷◌, ◌++◌, Text, text_eq, text_eq_iff, all_of,
  arith,
}
use giti.Rows.{any_row, keep, drop_rows, unique, has_key, same_key}

pub text_eq_refl : (a : Text) → text_eq a a ≡ true
text_eq_refl a = (text_eq_iff a a).1 refl

pub text_eq_sym : (a b : Text) → text_eq a b ≡ text_eq b a
unfolding text_eq
text_eq_sym [] [] = refl
text_eq_sym [] (y ∷ b) = refl
text_eq_sym (x ∷ a) [] = refl
text_eq_sym (x ∷ a) (y ∷ b) = ground (arith, text_eq_sym a b)

module _ {A : Type 0} where
  pub any_row-append :
      (p : A → Bool) (xs ys : List A) → any_row p (xs ++ ys) ≡ (any_row p xs || any_row p ys)
  unfolding any_row
  any_row-append p [] ys = refl
  any_row-append p (x ∷ xs) ys = ground (arith, any_row-append p xs ys)

  pub any_row-keep :
      (p q : A → Bool) (xs : List A) → any_row p xs ≡ false → any_row p (keep q xs) ≡ false
  unfolding any_row keep
  any_row-keep p q [] h = refl
  any_row-keep p q (x ∷ xs) h =
      let ih : any_row p xs ≡ false → any_row p (keep q xs) ≡ false = any_row-keep p q xs in
      ground (arith, ih)

  -- A row that passes both tests is still there.
  pub any_row-keep_found :
      (p q : A → Bool)
      → ((x : A) → p x ≡ true → q x ≡ true)
      → (xs : List A) → any_row p (keep q xs) ≡ any_row p xs
  unfolding any_row keep
  any_row-keep_found p q h [] = refl
  any_row-keep_found p q h (x ∷ xs) =
      let ih : any_row p (keep q xs) ≡ any_row p xs = any_row-keep_found p q h xs in
      let here : p x ≡ true → q x ≡ true = h x in ground (arith, here, ih)

  -- No row is left that the test refuses.
  pub any_row-keep_none :
      (p q : A → Bool)
      → ((x : A) → p x ≡ true → q x ≡ false)
      → (xs : List A) → any_row p (keep q xs) ≡ false
  unfolding any_row keep
  any_row-keep_none p q h [] = refl
  any_row-keep_none p q h (x ∷ xs) =
      let ih : any_row p (keep q xs) ≡ false = any_row-keep_none p q h xs in
      let here : p x ≡ true → q x ≡ false = h x in ground (arith, here, ih)

  pub all_of-keep :
      (p q : A → Bool) (xs : List A) → all_of p xs ≡ true → all_of p (keep q xs) ≡ true
  unfolding keep
  all_of-keep p q [] h = refl
  all_of-keep p q (x ∷ xs) h =
      let ih : all_of p xs ≡ true → all_of p (keep q xs) ≡ true = all_of-keep p q xs in
      ground (arith, ih)

  pub all_of-weaken :
      (p q : A → Bool)
      → ((x : A) → p x ≡ true → q x ≡ true)
      → (xs : List A) → all_of p xs ≡ true
      → all_of q xs ≡ true
  all_of-weaken p q h [] e = refl
  all_of-weaken p q h (x ∷ xs) e =
      let ih : all_of p xs ≡ true → all_of q xs ≡ true = all_of-weaken p q h xs in
      let here : p x ≡ true → q x ≡ true = h x in ground (arith, here, ih)

  -- What holds of the rows that are kept, from what holds of all of them and of the test.
  pub all_of-keep_weaken :
      (p q r : A → Bool)
      → ((x : A) → p x ≡ true → q x ≡ true → r x ≡ true)
      → (xs : List A) → all_of p xs ≡ true
      → all_of r (keep q xs) ≡ true
  unfolding keep
  all_of-keep_weaken p q r h [] e = refl
  all_of-keep_weaken p q r h (x ∷ xs) e =
      let ih : all_of p xs ≡ true → all_of r (keep q xs) ≡ true = all_of-keep_weaken p q r h xs in
      let here : p x ≡ true → q x ≡ true → r x ≡ true = h x in ground (arith, here, ih)

  pub unique-keep :
      (same : A → A → Bool) (q : A → Bool) (xs : List A)
      → unique same xs ≡ true
      → unique same (keep q xs) ≡ true
  unfolding unique keep
  unique-keep same q [] h = refl
  unique-keep same q (x ∷ xs) h =
      let ih : unique same xs ≡ true → unique same (keep q xs) ≡ true = unique-keep same q xs in
      let out : any_row (same x) xs ≡ false → any_row (same x) (keep q xs) ≡ false =
        any_row-keep (same x) q xs in
      ground (arith, ih, out)

  pub unique-append :
      (same : A → A → Bool)
      → ((x y : A) → same x y ≡ same y x)
      → (x : A) (xs : List A) → unique same xs ≡ true
      → any_row (same x) xs ≡ false
      → unique same (xs ++ (x ∷ [])) ≡ true
  unfolding unique any_row
  unique-append same h x [] e n = refl
  unique-append same h x (y ∷ ys) e n =
      let ih : unique same ys ≡ true
          → any_row (same x) ys ≡ false
          → unique same (ys ++ (x ∷ [])) ≡ true =
        unique-append same h x ys in
      let more : any_row (same y) (ys ++ (x ∷ [])) ≡ (any_row (same y) ys || (same y x || false)) =
        any_row-append (same y) ys (x ∷ []) in
      let turn : same y x ≡ same x y = h y x in ground (arith, ih, more, turn)

  pub same_key_sym : (key : A → Text) (x y : A) → same_key key x y ≡ same_key key y x
  unfolding same_key
  same_key_sym key x y = text_eq_sym (key x) (key y)

  -- A reference to another key than the one that is deleted still finds its row.
  pub any_row-drop_rows :
      (key : A → Text) (a k : Text)
      → text_eq a k ≡ false
      → (xs : List A)
      → any_row (has_key key a) (drop_rows (has_key key k) xs) ≡ any_row (has_key key a) xs
  unfolding drop_rows has_key
  any_row-drop_rows key a k differs xs =
      any_row-keep_found (has_key key a) (λ (x : A). not (has_key key k x))
        (λ (x : A) same.
          let key_x : key x ≡ a = (text_eq_iff (key x) a).0 same in rw key_x (rw differs refl))
        xs

  pub any_row-drop_rows_none : (p : A → Bool) (xs : List A) → any_row p (drop_rows p xs) ≡ false
  unfolding drop_rows
  any_row-drop_rows_none p xs =
      any_row-keep_none p (λ (x : A). not (p x)) (λ (x : A) h. rw h refl) xs

pub any_row-eq :
    {A : Type 0} (p q : A → Bool)
    → ((x : A) → p x ≡ q x)
    → (xs : List A) → any_row p xs ≡ any_row q xs
unfolding any_row
any_row-eq p q h [] = refl
any_row-eq p q h (x ∷ xs) = cc (h x, any_row-eq p q h xs)
