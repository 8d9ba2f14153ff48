-- ===== src/Rows/Inserts.antt =====
-- INSERT: what holds of the rows after it.
use giti.Prelude.{
  ◌≡◌, refl, sym, ◌∙◌, ◌⊎◌, Bool, true, false, ◌||◌, List, [], ◌∷◌, ◌++◌, Result, ok, err, all_of,
  all_of-append, arith, inl, inr, Bool-cases, ok-injective,
}
use giti.Rows.{SqlError, any_row, unique, insert_row, insert_new, insert_checked, saved, affected}
use giti.Rows.Laws.{any_row-append, unique-append}

module _ {A : Type 0} where
  pub insert_row-eq :
      (same : A → A → Bool) (refers : Bool) (x : A) (xs ys : List A)
      → insert_row same refers x xs ≡ ok ys
      → (any_row (same x) xs ≡ false) × (refers ≡ true) × (ys ≡ xs ++ (x ∷ []))
  unfolding insert_row
  insert_row-eq same refers x xs ys h = elim (Bool-cases (any_row (same x) xs)) [
    | inl there ↦ cc (rw there at h)
    | inr absent ↦ elim (Bool-cases refers) [
      | inl referred ↦ (absent, referred, sym (ok-injective (rw (absent, referred) at h)))
      | inr dangling ↦ cc (rw (absent, dangling) at h)
    ]
  ]

  -- An insertion that finds its key does nothing; any other is the plain one.
  insert_new-eq :
      (same : A → A → Bool) (refers : Bool) (x : A) (xs ys : List A)
      → insert_new same refers x xs ≡ ok ys
      → (ys ≡ xs) ⊎ (insert_row same refers x xs ≡ ok ys)
  unfolding insert_new insert_row
  insert_new-eq same refers x xs ys h = elim (Bool-cases (any_row (same x) xs)) [
    | inl there ↦ inl (sym (ok-injective (rw there at h)))
    | inr absent ↦ inr (rw absent (rw absent at h))
  ]

  pub insert_row-unique :
      (same : A → A → Bool)
      → ((x y : A) → same x y ≡ same y x)
      → (refers : Bool) (x : A) (xs ys : List A) → unique same xs ≡ true
      → insert_row same refers x xs ≡ ok ys
      → unique same ys ≡ true
  insert_row-unique same turn refers x xs ys u h =
      let (absent, referred, whole) = insert_row-eq same refers x xs ys h in
      rw whole (unique-append same turn x xs u absent)

  pub insert_row-all_of :
      (same : A → A → Bool) (p : A → Bool) (refers : Bool) (x : A) (xs ys : List A)
      → (refers ≡ true → p x ≡ true)
      → all_of p xs ≡ true
      → insert_row same refers x xs ≡ ok ys
      → all_of p ys ≡ true
  insert_row-all_of same p refers x xs ys new e h =
      let (absent, referred, whole) = insert_row-eq same refers x xs ys h in
      rw whole (all_of-append p xs (x ∷ []) e (rw (new referred) refl))

  pub insert_row-any_row :
      (same : A → A → Bool) (p : A → Bool) (refers : Bool) (x : A) (xs ys : List A)
      → insert_row same refers x xs ≡ ok ys
      → any_row p ys ≡ (any_row p xs || p x)
  unfolding any_row
  insert_row-any_row same p refers x xs ys h =
      let (absent, referred, whole) = insert_row-eq same refers x xs ys h in
      let more : any_row p (xs ++ (x ∷ [])) ≡ (any_row p xs || (p x || false)) =
        any_row-append p xs (x ∷ []) in
      rw whole (rw more (ground arith))

  pub insert_new-unique :
      (same : A → A → Bool)
      → ((x y : A) → same x y ≡ same y x)
      → (refers : Bool) (x : A) (xs ys : List A) → unique same xs ≡ true
      → insert_new same refers x xs ≡ ok ys
      → unique same ys ≡ true
  insert_new-unique same turn refers x xs ys u h = elim (insert_new-eq same refers x xs ys h) [
    | inl kept ↦ rw kept u
    | inr added ↦ insert_row-unique same turn refers x xs ys u added
  ]

  pub insert_new-all_of :
      (same : A → A → Bool) (p : A → Bool) (refers : Bool) (x : A) (xs ys : List A)
      → (refers ≡ true → p x ≡ true)
      → all_of p xs ≡ true
      → insert_new same refers x xs ≡ ok ys
      → all_of p ys ≡ true
  insert_new-all_of same p refers x xs ys new e h = elim (insert_new-eq same refers x xs ys h) [
    | inl kept ↦ rw kept e
    | inr added ↦ insert_row-all_of same p refers x xs ys new e added
  ]

  -- A row is there after the insertion, whether it was there before or not.
  pub insert_new-there :
      (same : A → A → Bool)
      → ((y : A) → same y y ≡ true)
      → (refers : Bool) (x : A) (xs ys : List A) → insert_new same refers x xs ≡ ok ys
      → any_row (same x) ys ≡ true
  unfolding insert_new insert_row
  insert_new-there same self refers x xs ys h = elim (Bool-cases (any_row (same x) xs)) [
    | inl there ↦ rw (sym (ok-injective (rw there at h))) there
    | inr absent ↦
        let added : insert_row same refers x xs ≡ ok ys = rw absent (rw absent at h) in
        insert_row-any_row same (same x) refers x xs ys added ∙ rw (absent, self x) refl
  ]

pub saved-eq :
    {A D : Type 0} (f : A → D) (m : Result SqlError A) (d : D)
    → saved f m ≡ ok d
    → (a : A) × ((m ≡ ok a) × (d ≡ f a))
unfolding saved
saved-eq f (ok a) d h = (a, (refl, sym (ok-injective h)))
saved-eq f (err e) d h = cc

pub affected-eq :
    {D : Type 0} (any : Bool) (d d' : D) → affected any d ≡ ok d' → (any ≡ true) × (d' ≡ d)
unfolding affected
affected-eq true d d' h = (refl, sym (ok-injective h))
affected-eq false d d' h = cc

pub insert_checked-eq :
    {A : Type 0} (check : Bool) (same : A → A → Bool) (refers : Bool) (x : A) (xs ys : List A)
    → insert_checked check same refers x xs ≡ ok ys
    → insert_row same refers x xs ≡ ok ys
unfolding insert_checked
insert_checked-eq true same refers x xs ys h = h
insert_checked-eq false same refers x xs ys h = cc
