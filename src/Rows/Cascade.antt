-- ===== src/Rows/Cascade.antt =====
-- References to a table that shrinks or grows.
use giti.Prelude.{
  ◌≡◌, refl, ◌∙◌, Bool, true, false, not, List, [], ◌∷◌, Text, text_eq, all_of, arith,
}
use giti.Rows.{any_row, drop_rows, has_key}
use giti.Rows.Laws.{any_row-keep_found, all_of-weaken, all_of-keep_weaken, any_row-drop_rows}

module _ {A B : Type 0} where
  -- ON DELETE CASCADE: the rows that are left refer to rows that are left.
  pub all_of-cascade :
      (key : A → Text) (ref : B → Text) (k : Text) (ts : List A) (rs : List B)
      → all_of (λ (r : B). any_row (has_key key (ref r)) ts) rs ≡ true
      → all_of
          (λ (r : B). any_row (has_key key (ref r)) (drop_rows (has_key key k) ts))
          (drop_rows (has_key ref k) rs)
        ≡ true
  unfolding drop_rows has_key
  all_of-cascade key ref k ts rs h =
      all_of-keep_weaken (λ (r : B). any_row (has_key key (ref r)) ts)
        (λ (r : B). not (has_key ref k r))
        (λ (r : B). any_row (has_key key (ref r)) (drop_rows (has_key key k) ts))
        (λ (r : B) found other.
          let differs : text_eq (ref r) k ≡ false = ground (arith, other) in
          any_row-drop_rows key (ref r) k differs ts ∙ found)
        rs h

  -- A table that grows keeps what refers to it.
  pub all_of-grown :
      (key : A → Text) (ref : B → Text) (ts us : List A)
      → ((k : Text) → any_row (has_key key k) ts ≡ true → any_row (has_key key k) us ≡ true)
      → (rs : List B) → all_of (λ (r : B). any_row (has_key key (ref r)) ts) rs ≡ true
      → all_of (λ (r : B). any_row (has_key key (ref r)) us) rs ≡ true
  all_of-grown key ref ts us grown rs h =
      all_of-weaken (λ (r : B). any_row (has_key key (ref r)) ts)
        (λ (r : B). any_row (has_key key (ref r)) us) (λ (r : B). grown (ref r)) rs h

module _ {A B : Type 0} (refs : B → A → Bool) (p : A → Bool) (q : B → Bool)
    (follows : (r : B) (t : A) → refs r t ≡ true → q r ≡ false → p t ≡ false) where
  -- ON DELETE CASCADE, whatever the columns of the reference.
  pub all_of-cascade_by :
      (ts : List A) (rs : List B)
      → all_of (λ (r : B). any_row (refs r) ts) rs ≡ true
      → all_of (λ (r : B). any_row (refs r) (drop_rows p ts)) (drop_rows q rs) ≡ true
  unfolding drop_rows
  all_of-cascade_by ts rs h =
      all_of-keep_weaken (λ (r : B). any_row (refs r) ts) (λ (r : B). not (q r))
        (λ (r : B). any_row (refs r) (drop_rows p ts))
        (λ (r : B) found other.
          let left : q r ≡ false = ground (arith, other) in
          any_row-keep_found (refs r) (λ (t : A). not (p t))
            (λ (t : A) e. rw (follows r t e left) refl) ts
          ∙ found)
        rs h

-- What the rows that do not pass a test have to be shown.
pub all_of-weaken_absent :
    {A : Type 0} (p q a : A → Bool)
    → ((x : A) → p x ≡ true → a x ≡ false → q x ≡ true)
    → (xs : List A) → all_of p xs ≡ true
    → any_row a xs ≡ false
    → all_of q xs ≡ true
unfolding any_row
all_of-weaken_absent p q a h [] e n = refl
all_of-weaken_absent p q a h (x ∷ xs) e n =
    let ih : all_of p xs ≡ true → any_row a xs ≡ false → all_of q xs ≡ true =
      all_of-weaken_absent p q a h xs in
    let here : p x ≡ true → a x ≡ false → q x ≡ true = h x in ground (arith, here, ih)
