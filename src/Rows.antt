-- ===== src/Rows.antt =====
-- What the SQL statements of the stores do with the rows of a table, as PostgreSQL documents it. A
-- table is the list of its rows; the keys, references and checks are those of the migrations.
pub mod Laws
pub mod Inserts
pub mod Updates
pub mod Cascade
pub mod Links
pub mod Sorted
use giti.Prelude.{
  Bool, true, false, not, ◌&&◌, ◌||◌, List, [], ◌∷◌, ◌++◌, Text, text_eq, if◌then◌else◌, Result, ok,
  err,
}

-- The errors of PostgreSQL that the stores meet: SQLSTATE 23505, 23503 and 23514, and
-- `pgx.ErrNoRows` of a query for one row.
pub data SqlError : Type 0 where
  unique_violation : SqlError
  foreign_key_violation : SqlError
  check_violation : SqlError
  no_rows : SqlError

-- The errors of a store: its own two, and those that it passes on.
pub data StoreError : Type 0 where
  not_found : StoreError
  conflict : StoreError
  passed : SqlError → StoreError

unfoldable pub map_err : SqlError → StoreError
map_err unique_violation = conflict
map_err no_rows = not_found
map_err e = passed e

module _ {A : Type 0} where
  -- EXISTS
  unfoldable pub any_row : (A → Bool) → List A → Bool
  any_row p [] = false
  any_row p (x ∷ xs) = p x || any_row p xs

  -- SELECT ... WHERE
  unfoldable pub keep : (A → Bool) → List A → List A
  keep p [] = []
  keep p (x ∷ xs) = let rest = keep p xs in if p x then x ∷ rest else rest

  -- DELETE ... WHERE
  unfoldable pub drop_rows : (A → Bool) → List A → List A
  unfolding keep
  drop_rows p xs = keep (λ (x : A). not (p x)) xs

  -- UPDATE ... SET ... WHERE
  unfoldable pub update_rows : (A → Bool) → (A → A) → List A → List A
  update_rows p f [] = []
  update_rows p f (x ∷ xs) = let rest = update_rows p f xs in (if p x then f x else x) ∷ rest

  -- The rows differ from each other under a key.
  unfoldable pub unique : (A → A → Bool) → List A → Bool
  unfolding any_row
  unique same [] = true
  unique same (x ∷ xs) = not (any_row (same x) xs) && unique same xs

  -- INSERT of a row whose references are there or not. The key is looked at before the references.
  unfoldable pub insert_row : (A → A → Bool) → Bool → A → List A → Result SqlError (List A)
  unfolding any_row
  insert_row same refers x xs =
      if any_row (same x) xs
      then err unique_violation
      else if refers
      then ok (xs ++ (x ∷ []))
      else err foreign_key_violation

  -- INSERT ... ON CONFLICT DO NOTHING
  unfoldable pub insert_new : (A → A → Bool) → Bool → A → List A → Result SqlError (List A)
  unfolding any_row
  insert_new same refers x xs =
      if any_row (same x) xs
      then ok xs
      else if refers
      then ok (xs ++ (x ∷ []))
      else err foreign_key_violation

  -- The rows with a key.
  unfoldable pub has_key : (A → Text) → Text → A → Bool
  unfolding text_eq
  has_key key k x = text_eq (key x) k

  unfoldable pub same_key : (A → Text) → A → A → Bool
  unfolding text_eq
  same_key key x y = text_eq (key x) (key y)

  -- ORDER BY: `precedes` is the order of the columns named.
  unfoldable pub place : (A → A → Bool) → A → List A → List A
  place precedes x [] = x ∷ []
  place precedes x (y ∷ ys) =
      let rest = place precedes x ys in if precedes x y then x ∷ y ∷ ys else y ∷ rest

  unfoldable pub order_by : (A → A → Bool) → List A → List A
  unfolding place
  order_by precedes [] = []
  order_by precedes (x ∷ xs) = place precedes x (order_by precedes xs)

-- A statement's error, as the store returns it.
unfoldable pub saved : {A D : Type 0} → (A → D) → Result SqlError A → Result StoreError D
unfolding map_err
saved f (ok a) = ok (f a)
saved f (err e) = err (map_err e)

-- `tag.RowsAffected() == 0` after a DELETE or an UPDATE.
unfoldable pub affected : {D : Type 0} → Bool → D → Result StoreError D
affected any d = if any then ok d else err not_found

-- `QueryRow(...).Scan(...)`
unfoldable pub query_row : {A : Type 0} → List A → Result StoreError A
unfolding map_err
query_row [] = err (map_err no_rows)
query_row (x ∷ xs) = ok x

-- An INSERT whose row meets a CHECK or not, which is looked at first.
unfoldable pub insert_checked :
    {A : Type 0} → Bool → (A → A → Bool) → Bool → A → List A → Result SqlError (List A)
unfolding insert_row
insert_checked check same refers x xs =
    if check then insert_row same refers x xs else err check_violation

-- The rows whose two columns have two values.
unfoldable pub has_pair : {A : Type 0} → (A → Text) → (A → Text) → Text → Text → A → Bool
unfolding text_eq
has_pair left right a b x = text_eq (left x) a && text_eq (right x) b
