-- ===== src/Filter/Sql/SafeText.antt =====
-- Harmless bytes, and the texts of SQL that are made of them.
use mathlib.Core.Path.{subst}
use giti.Prelude.{
  ℕ, ◌+◌, ◌≡◌, refl, Bool, true, false, ◌||◌, List, [], ◌∷◌, ◌++◌, arith, ◌==◌, ltb, if◌then◌else◌,
  Text, codes, one_of, one_of-All, to_lower, decimal, decimal_bytes, join, ok, ok-injective, All,
  all_of, all_of-append, Bool-cases, inl, inr,
}
use giti.Filter.Lexer.Progress.{compare_ops}
use giti.Filter.Parser.Leaf.{spatial_ops}
use giti.Filter.Parser.Grammar.{}
use giti.Filter.Sql.{quote_ident, ident_matches, is_name_byte, title}
use giti.Filter.Sql.Rules.{}

-- Letters, digits, the underscore, and `"$(),<=>&` and the space. The bytes that end a string or a
-- statement or begin a comment in SQL, `'`, `;`, `-`, `/`, `*` and the backslash, are not among them.
unfoldable pub is_sql_byte : ℕ → Bool
unfolding is_name_byte
is_sql_byte c =
    is_name_byte c
    || c == b' '
    || c == b'"'
    || c == b'$'
    || c == b'('
    || c == b')'
    || c == b','
    || c == b'<'
    || c == b'='
    || c == b'>'
    || c == b'&'

pub record IsSafe (t : Text) : Type 0 where
  pub bytes : all_of is_sql_byte t ≡ true

pub by_bytes : {t : Text} → all_of is_sql_byte t ≡ true → IsSafe t
by_bytes h = record { bytes = h }

pub IsSafe-append : (a b : Text) → IsSafe a → IsSafe b → IsSafe (a ++ b)
IsSafe-append a b h k = record { bytes = all_of-append is_sql_byte a b h.bytes k.bytes }

pub IsSafe-join : (sep : Text) (ps : List Text) → IsSafe sep → All IsSafe ps → IsSafe (join sep ps)
unfolding join
IsSafe-join sep [] h k = by_bytes refl
IsSafe-join sep (p ∷ []) h k = k.0
IsSafe-join sep (p ∷ q ∷ ps) h k =
    IsSafe-append p _ k.0 (IsSafe-append sep _ h (IsSafe-join sep (q ∷ ps) h k.1))

pub digit_safe : (c : ℕ) → (ltb c 10) ≡ true → is_sql_byte (48 + c) ≡ true
unfolding is_sql_byte
digit_safe c h = ground arith

pub placeholder-IsSafe : (n : ℕ) → IsSafe (b'$' ∷ decimal n)
unfolding is_sql_byte
placeholder-IsSafe n = record { bytes = decimal_bytes is_sql_byte digit_safe n }

pub name_safe : (c : ℕ) → is_name_byte c ≡ true → is_sql_byte c ≡ true
unfolding is_sql_byte
name_safe c h = rw h

pub names_safe : (t : Text) → all_of is_name_byte t ≡ true → all_of is_sql_byte t ≡ true
names_safe [] h = refl
names_safe (c ∷ t) h = ground (arith, name_safe c, names_safe t)

pub ident_safe : (t : Text) → ident_matches t ≡ true → all_of is_sql_byte t ≡ true
unfolding ident_matches is_name_byte
ident_safe [] h = cc
ident_safe (c ∷ t) h = ground (arith, name_safe c, names_safe t)

-- A quoted identifier holds what matched, between double quotes.
pub quote_ident-IsSafe : (name a : Text) → quote_ident name ≡ ok a → IsSafe a
unfolding quote_ident is_sql_byte
quote_ident-IsSafe name a h = elim (Bool-cases (ident_matches name)) [
  | inl m ↦
      subst IsSafe (ok-injective (rw m at h))
        (record { bytes = all_of-append is_sql_byte name (b'"' ∷ []) (ident_safe name m) refl })
  | inr m ↦ cc (rw m at h)
]

pub compare-IsSafe : (op : Text) → one_of op compare_ops ≡ true → IsSafe op
unfolding is_sql_byte
compare-IsSafe op = one_of-All IsSafe op compare_ops (
  by_bytes refl,
  (by_bytes refl, (by_bytes refl, (by_bytes refl, (by_bytes refl, (by_bytes refl, tt))))),
)

-- The function name that is formed from each of the eight spatial operators.
pub title-IsSafe : (op : Text) → one_of op spatial_ops ≡ true → IsSafe (title (to_lower op))
unfolding is_sql_byte title to_lower
title-IsSafe op =
    one_of-All (λ t. IsSafe (title (to_lower t))) op spatial_ops
      (
        by_bytes refl,
        (
          by_bytes refl,
          (
            by_bytes refl,
            (by_bytes refl, (by_bytes refl, (by_bytes refl, (by_bytes refl, (by_bytes refl, tt))))),
          ),
        ),
      )

pub like-IsSafe :
    (ci negate : Bool)
    → let op = if ci then codes "ILIKE" else codes "LIKE" in
      IsSafe (if negate then codes "NOT " ++ op else op)
unfolding is_sql_byte
like-IsSafe true true = by_bytes refl
like-IsSafe true false = by_bytes refl
like-IsSafe false true = by_bytes refl
like-IsSafe false false = by_bytes refl

pub in-IsSafe : (negate : Bool) → IsSafe (if negate then codes "NOT IN" else codes "IN")
unfolding is_sql_byte
in-IsSafe true = by_bytes refl
in-IsSafe false = by_bytes refl

pub between-IsSafe :
    (negate : Bool) → IsSafe (if negate then codes "NOT BETWEEN" else codes "BETWEEN")
unfolding is_sql_byte
between-IsSafe true = by_bytes refl
between-IsSafe false = by_bytes refl

pub null-IsSafe :
    (negate : Bool) (col : Text)
    → IsSafe col
    → IsSafe (if negate then col ++ codes " IS NOT NULL" else col ++ codes " IS NULL")
unfolding is_sql_byte
null-IsSafe true col h = IsSafe-append col _ h (by_bytes refl)
null-IsSafe false col h = IsSafe-append col _ h (by_bytes refl)

pub not-IsSafe :
    (beyond : Bool) {test : Text}
    → IsSafe test
    → IsSafe (if beyond then codes "NOT " ++ test else test)
unfolding is_sql_byte
not-IsSafe true h = IsSafe-append (codes "NOT ") _ (by_bytes refl) h
not-IsSafe false h = h
