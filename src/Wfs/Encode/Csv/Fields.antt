-- ===== src/Wfs/Encode/Csv/Fields.antt =====
-- What the reader of CSV makes of a field and of a row that the program writes.
use giti.Prelude.{
  ℕ, ◌≡◌, refl, sym, ap, ◌∙◌, Bool, true, false, List, [], ◌∷◌, ◌++◌, append-nil, append_assoc,
  ◌==◌, if◌then◌else◌, Text, join, ==_iff, Bool-cases, inl, inr, arith,
}
use giti.Wfs.Encode.{needs_quotes, double_quotes, csv_field, csv_row}
use giti.Wfs.Encode.Csv.{
  field_start, bare, quoted, closing, effect, plain_effect, next_mode, plain_mode, continue,
  read_from,
}

plain_first :
    (c : ℕ) (f : Text)
    → needs_quotes (c ∷ f) ≡ false
    → ((c == b',') ≡ false)
      × ((c == b'"') ≡ false)
      × ((c == b'\n') ≡ false)
      × (needs_quotes f ≡ false)
unfolding needs_quotes
plain_first c f h = ground arith

push : (field : Text) (c : ℕ) (f : Text) → (field ++ (c ∷ [])) ++ f ≡ field ++ (c ∷ f)
push field c f = append_assoc field (c ∷ []) f

module _ (row : List Text) where
  bare_step :
      (field : Text) (c : ℕ) (s : Text)
      → (c == b',') ≡ false
      → (c == b'\n') ≡ false
      → read_from bare field row (c ∷ s) ≡ read_from bare (field ++ (c ∷ [])) row s
  unfolding read_from next_mode effect plain_effect plain_mode continue
  bare_step field c s h k = rw h (rw k refl)

  bare_read :
      (field f t : Text)
      → needs_quotes f ≡ false
      → read_from bare field row (f ++ t) ≡ read_from bare (field ++ f) row t
  unfolding needs_quotes
  bare_read field [] t h = ap (λ w. read_from bare w row t) (sym (append-nil field))
  bare_read field (c ∷ f) t h =
      let (u, q, n, y) = plain_first c f h in
      bare_step field c (f ++ t) u n
      ∙ bare_read (field ++ (c ∷ [])) f t y
      ∙ ap (λ w. read_from bare w row t) (push field c f)

  quoted_step :
      (field : Text) (c : ℕ) (s : Text)
      → (c == b'"') ≡ false
      → read_from quoted field row (c ∷ s) ≡ read_from quoted (field ++ (c ∷ [])) row s
  unfolding read_from next_mode effect continue
  quoted_step field c s h = rw h refl

  doubled_step :
      (field s : Text)
      → read_from quoted field row (b'"' ∷ b'"' ∷ s) ≡ read_from quoted (field ++ (b'"' ∷ [])) row s
  unfolding read_from next_mode effect continue
  doubled_step field s = refl

  double_step :
      (field : Text) (c : ℕ) (s : Text)
      → read_from quoted field row (if c == b'"' then b'"' ∷ b'"' ∷ s else c ∷ s)
        ≡ read_from quoted (field ++ (c ∷ [])) row s
  double_step field c s = elim (Bool-cases (c == b'"')) [
    | inl e ↦ rw e (
        doubled_step field s
        ∙ ap (λ (b : ℕ). read_from quoted (field ++ (b ∷ [])) row s) (sym ((==_iff c b'"').0 e)))
    | inr e ↦ rw e (quoted_step field c s e)
  ]

  closed : (field t : Text) → read_from quoted field row (b'"' ∷ t) ≡ read_from closing field row t
  unfolding read_from next_mode effect continue
  closed field t = refl

append_if : (b : Bool) (x y t : Text) → (if b then x else y) ++ t ≡ (if b then x ++ t else y ++ t)
append_if true x y t = refl
append_if false x y t = refl

quoted_read :
    (row : List Text) (field f t : Text)
    → read_from quoted field row (double_quotes f ++ (b'"' ∷ t))
      ≡ read_from closing (field ++ f) row t
unfolding double_quotes
quoted_read row field [] t =
    closed row field t ∙ ap (λ w. read_from closing w row t) (sym (append-nil field))
quoted_read row field (c ∷ f) t =
    ap (read_from quoted field row) (append_if (c == b'"') _ _ (b'"' ∷ t))
    ∙ double_step row field c (double_quotes f ++ (b'"' ∷ t))
    ∙ quoted_read row (field ++ (c ∷ [])) f t
    ∙ ap (λ w. read_from closing w row t) (push field c f)

-- What stands behind a field of a row, and the rows that are read of both.
data Follows (row : List Text) (f : Text) : Text → List (List Text) → Type 0 where
  comma : {u : Text} → Follows row f (b',' ∷ u) (read_from field_start [] (row ++ (f ∷ [])) u)
  line_end :
      {u : Text} → Follows row f (b'\n' ∷ u) ((row ++ (f ∷ [])) ∷ read_from field_start [] [] u)

module _ (row : List Text) where
  bare_end :
      (f : Text) {t : Text} {rs : List (List Text)}
      → Follows row f t rs
      → read_from bare f row t ≡ rs
  unfolding read_from effect plain_effect next_mode plain_mode continue
  bare_end f comma = refl
  bare_end f line_end = refl

  closing_end :
      (f : Text) {t : Text} {rs : List (List Text)}
      → Follows row f t rs
      → read_from closing f row t ≡ rs
  unfolding read_from effect plain_effect next_mode plain_mode continue
  closing_end f comma = refl
  closing_end f line_end = refl

  empty_end :
      {t : Text} {rs : List (List Text)} → Follows row [] t rs → read_from field_start [] row t ≡ rs
  unfolding read_from effect plain_effect next_mode plain_mode continue
  empty_end comma = refl
  empty_end line_end = refl

  first_step :
      (c : ℕ) (s : Text)
      → (c == b',') ≡ false
      → (c == b'"') ≡ false
      → (c == b'\n') ≡ false
      → read_from field_start [] row (c ∷ s) ≡ read_from bare (c ∷ []) row s
  unfolding read_from effect plain_effect next_mode plain_mode continue
  first_step c s h k n = rw h (rw k (rw n refl))

  plain_read :
      (f : Text) {t : Text} {rs : List (List Text)}
      → needs_quotes f ≡ false
      → Follows row f t rs
      → read_from field_start [] row (f ++ t) ≡ rs
  unfolding needs_quotes
  plain_read [] h k = empty_end k
  plain_read (c ∷ f) {t} h k =
      let (u, q, n, y) = plain_first c f h in
      first_step c (f ++ t) u q n ∙ bare_read row (c ∷ []) f t y ∙ bare_end (c ∷ f) k

  opened : (s : Text) → read_from field_start [] row (b'"' ∷ s) ≡ read_from quoted [] row s
  unfolding read_from effect next_mode continue
  opened s = refl

  field_read :
      (f : Text) {t : Text} {rs : List (List Text)}
      → Follows row f t rs
      → read_from field_start [] row (csv_field f ++ t) ≡ rs
  unfolding csv_field
  field_read f {t} k = elim (Bool-cases (needs_quotes f)) [
    | inl h ↦ rw h (
        opened _
        ∙ ap (read_from quoted [] row) (append_assoc (double_quotes f) (b'"' ∷ []) t)
        ∙ quoted_read row [] f t
        ∙ closing_end f k)
    | inr h ↦ rw h (plain_read f h k)
  ]

-- A row that is written, with its line end, is read behind the fields that were read before it.
pub row_read :
    (row : List Text) (f : Text) (fs : List Text) (u : Text)
    → read_from field_start [] row (csv_row (f ∷ fs) ++ (b'\n' ∷ u))
      ≡ (row ++ (f ∷ fs)) ∷ read_from field_start [] [] u
unfolding csv_row join
row_read row f [] u = field_read row f line_end
row_read row f (g ∷ fs) u =
    ap (read_from field_start [] row)
      (append_assoc (csv_field f) (b',' ∷ csv_row (g ∷ fs)) (b'\n' ∷ u))
    ∙ field_read row f comma
    ∙ row_read (row ++ (f ∷ [])) g fs u
    ∙ ap (λ r. r ∷ read_from field_start [] [] u) (append_assoc row (f ∷ []) (g ∷ fs))
