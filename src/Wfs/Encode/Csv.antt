-- ===== src/Wfs/Encode/Csv.antt =====
-- A reader of CSV documents, which is not of the program: it is the description that the rows that
-- the program writes are held to. Fields end at commas, rows at line feeds, a field may stand in
-- quotes, and a quote within is doubled.
pub mod Fields
pub mod Document
use giti.Prelude.{ℕ, List, [], ◌∷◌, ◌++◌, ◌==◌, if◌then◌else◌, Text}

pub data Mode : Type 0 where
  field_start bare quoted closing : Mode

-- What a character does: it belongs to the field, it is a mark of quotation, or it ends something.
pub data Effect : Type 0 where
  keeps drops ends_field ends_row : Effect

unfoldable pub plain_effect : ℕ → Effect
plain_effect c = if c == b',' then ends_field else if c == b'\n' then ends_row else keeps

unfoldable pub effect : Mode → ℕ → Effect
unfolding plain_effect
effect quoted c = if c == b'"' then drops else keeps
effect field_start c = if c == b'"' then drops else plain_effect c
effect bare c = plain_effect c
effect closing c = if c == b'"' then keeps else plain_effect c

unfoldable pub plain_mode : ℕ → Mode
plain_mode c = if c == b',' then field_start else if c == b'\n' then field_start else bare

unfoldable pub next_mode : Mode → ℕ → Mode
unfolding plain_mode
next_mode quoted c = if c == b'"' then closing else quoted
next_mode field_start c = if c == b'"' then quoted else plain_mode c
next_mode bare c = plain_mode c
next_mode closing c = if c == b'"' then quoted else plain_mode c

-- The rest of the document is read with the field and the row that were begun.
unfoldable pub continue :
    Effect → ℕ → Text → List Text → (Text → List Text → List (List Text)) → List (List Text)
continue keeps c field row read = read (field ++ (c ∷ [])) row
continue drops c field row read = read field row
continue ends_field c field row read = read [] (row ++ (field ∷ []))
continue ends_row c field row read = (row ++ (field ∷ [])) ∷ read [] []

-- A row without a line end after it is read too, where it has anything.
unfoldable pub last_row : Mode → Text → List Text → List (List Text)
last_row field_start [] [] = []
last_row mode field row = (row ++ (field ∷ [])) ∷ []

unfoldable pub read_from : Mode → Text → List Text → Text → List (List Text)
unfolding effect next_mode continue last_row
read_from mode field row [] = last_row mode field row
read_from mode field row (c ∷ s) =
    continue (effect mode c) c field row λ f r. read_from (next_mode mode c) f r s

unfoldable pub read_document : Text → List (List Text)
unfolding read_from
read_document s = read_from field_start [] [] s
