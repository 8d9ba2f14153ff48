-- ===== src/Rows/Links.antt =====
-- A table whose rows join the rows of two others, with ON DELETE CASCADE on both sides.
use giti.Prelude.{◌≡◌, Bool, true, not, ◌&&◌, List, Text, text_eq, ok, all_of, and-eq-true}
use giti.Rows.{any_row, drop_rows, unique, insert_new, has_key}
use giti.Rows.Laws.{text_eq_sym, unique-keep, all_of-keep}
use giti.Rows.Inserts.{insert_new-unique, insert_new-all_of}
use giti.Rows.Cascade.{all_of-cascade, all_of-grown}

-- PRIMARY KEY of two columns.
unfoldable pub same_pair : {R : Type 0} → (R → Text) → (R → Text) → R → R → Bool
same_pair left right x y = text_eq (left x) (left y) && text_eq (right x) (right y)

pub same_pair_sym :
    {R : Type 0} (left right : R → Text) (x y : R)
    → same_pair left right x y ≡ same_pair left right y x
unfolding same_pair
same_pair_sym left right x y = cc (text_eq_sym (left x) (left y), text_eq_sym (right x) (right y))

-- REFERENCES
unfoldable pub refers : {A : Type 0} → (A → Text) → List A → Text → Bool
unfolding any_row
refers key ts k = any_row (has_key key k) ts

-- No row stands twice, and each refers to a row of either table.
pub record IsLinked {A B R : Type 0} (a : A → Text) (b : B → Text) (left right : R → Text)
    (as_rows : List A) (bs : List B) (rs : List R) : Type 0 where
  pub distinct : unique (same_pair left right) rs ≡ true
  pub lefts : all_of (λ (r : R). any_row (has_key a (left r)) as_rows) rs ≡ true
  pub rights : all_of (λ (r : R). any_row (has_key b (right r)) bs) rs ≡ true

module _ {A B R : Type 0} (a : A → Text) (b : B → Text) (left right : R → Text) where
  pub IsLinked-grown :
      (xs xs' : List A) (ys ys' : List B) (rs : List R)
      → ((k : Text) → any_row (has_key a k) xs ≡ true → any_row (has_key a k) xs' ≡ true)
      → ((k : Text) → any_row (has_key b k) ys ≡ true → any_row (has_key b k) ys' ≡ true)
      → IsLinked a b left right xs ys rs
      → IsLinked a b left right xs' ys' rs
  IsLinked-grown xs xs' ys ys' rs f g h = record {
    distinct = h.distinct;
    lefts = all_of-grown a left xs xs' f rs h.lefts;
    rights = all_of-grown b right ys ys' g rs h.rights;
  }

  pub IsLinked-drop_left :
      (k : Text) (xs : List A) (ys : List B) (rs : List R)
      → IsLinked a b left right xs ys rs
      → IsLinked a b left right (drop_rows (has_key a k) xs) ys (drop_rows (has_key left k) rs)
  unfolding drop_rows
  IsLinked-drop_left k xs ys rs h = record {
    distinct = unique-keep (same_pair left right) (λ (r : R). not (has_key left k r)) rs h.distinct;
    lefts = all_of-cascade a left k xs rs h.lefts;
    rights =
        all_of-keep (λ (r : R). any_row (has_key b (right r)) ys)
          (λ (r : R). not (has_key left k r)) rs h.rights;
  }

  pub IsLinked-drop_right :
      (k : Text) (xs : List A) (ys : List B) (rs : List R)
      → IsLinked a b left right xs ys rs
      → IsLinked a b left right xs (drop_rows (has_key b k) ys) (drop_rows (has_key right k) rs)
  unfolding drop_rows
  IsLinked-drop_right k xs ys rs h = record {
    distinct =
        unique-keep (same_pair left right) (λ (r : R). not (has_key right k r)) rs h.distinct;
    lefts =
        all_of-keep (λ (r : R). any_row (has_key a (left r)) xs)
          (λ (r : R). not (has_key right k r)) rs h.lefts;
    rights = all_of-cascade b right k ys rs h.rights;
  }

  pub IsLinked-insert :
      (xs : List A) (ys : List B) (r : R) (rs rs' : List R)
      → insert_new (same_pair left right) (refers a xs (left r) && refers b ys (right r)) r rs
        ≡ ok rs'
      → IsLinked a b left right xs ys rs
      → IsLinked a b left right xs ys rs'
  unfolding refers
  IsLinked-insert xs ys r rs rs' done h =
      let both = and-eq-true (any_row (has_key a (left r)) xs) (any_row (has_key b (right r)) ys) in
      let linked = any_row (has_key a (left r)) xs && any_row (has_key b (right r)) ys in
      record {
        distinct =
            insert_new-unique (same_pair left right) (same_pair_sym left right) linked r rs rs'
              h.distinct done;
        lefts =
            insert_new-all_of (same_pair left right) (λ (x : R). any_row (has_key a (left x)) xs)
              linked r rs rs' (λ e. (both e).0) h.lefts done;
        rights =
            insert_new-all_of (same_pair left right) (λ (x : R). any_row (has_key b (right x)) ys)
              linked r rs rs' (λ e. (both e).1) h.rights done;
      }
