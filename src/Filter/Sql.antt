-- ===== src/Filter/Sql.antt =====
-- libs/ogc-kit/filter/sql.go: expressions to parameterised WHERE fragments. `startArg` and the
-- running index are natural numbers: the callers pass 1, or a count plus 1.
mod Rules
pub mod Literals
pub mod Args
pub mod Shape
pub mod SafeText
pub mod Safe
use giti.Prelude.{
  ℕ, ◌+◌, Bool, true, false, ◌&&◌, ◌||◌, not, List, [], ◌∷◌, ◌++◌, within, if◌then◌else◌, Text,
  codes, to_lower, upper_byte, decimal, join, Result, ok, err, bind, all_of,
}
use giti.Filter.Ast.{
  Value, Expr, Exprs, string, float, property, literal, compare, logic, negation, like, in_list,
  between, is_null, bbox, spatial, dwithin, include_all, nil, cons,
}
use giti.Filter.Error.{Error, invalid_identifier, expected_literal, cannot_compile}
use giti.Filter.Lexer.{is_ident_start}

-- A byte of `[A-Za-z0-9_]`.
unfoldable pub is_name_byte : ℕ → Bool
unfolding is_ident_start
is_name_byte c = is_ident_start c || within b'0' b'9' c

-- `identRe`: `^[A-Za-z_][A-Za-z0-9_]*$`
unfoldable pub ident_matches : Text → Bool
unfolding is_name_byte is_ident_start
ident_matches [] = false
ident_matches (c ∷ cs) = is_ident_start c && all_of is_name_byte cs

unfoldable pub quote_ident : Text → Result Error Text
unfolding ident_matches
quote_ident name =
    if ident_matches name then ok (b'"' ∷ (name ++ (b'"' ∷ []))) else err (invalid_identifier name)

-- `strings.Title`: a byte behind a separator, or at the start, is put in upper case.
title_on : Bool → Text → Text
unfolding is_name_byte upper_byte
title_on sep [] = []
title_on sep (c ∷ cs) = (if sep then upper_byte c else c) ∷ title_on (not (is_name_byte c)) cs

unfoldable pub title : Text → Text
unfolding title_on
title = title_on true

-- `argctr`: the index of the next placeholder, and the values bound so far.
pub record Argctr (F : Type 0) : Type 0 where
  pub n : ℕ
  pub args : List (Value F)

-- An emission: an error, or a result and the counter behind it.
abbrev pub Emit : Type 0 → Type 0 → Type 0
Emit F A = Argctr F → Result Error (A × Argctr F)

module _ {F A B : Type 0} where
  infixl 5 ◌>>=◌
  abbrev pub ◌>>=◌ : Emit F A → (A → Emit F B) → Emit F B
  ◌>>=◌ m f ac = bind (m ac) λ (a, ac'). f a ac'

module _ {F A : Type 0} where
  abbrev pub give : A → Emit F A
  give a ac = ok (a, ac)

  -- A result that does not touch the counter.
  abbrev pub lift : Result Error A → Emit F A
  lift r ac = bind r λ a. ok (a, ac)

-- The words of a fragment, as `"%s %s %s"` writes them.
abbrev pub spaced : List Text → Text
spaced = join (codes " ")

module _ {F : Type 0} where
  unfoldable pub placeholder : Value F → Emit F Text
  unfolding decimal
  placeholder v ac = ok (b'$' ∷ decimal ac.n, record { n = ac.n + 1; args = ac.args ++ (v ∷ []) })

  unfoldable pub lit_value : Expr F → Result Error (Value F)
  lit_value (literal v) = ok v
  lit_value _ = err expected_literal

  -- Where the right side is no literal and cannot be emitted, the error is the one of `litValue`.
  unfoldable pub or_literal : Result Error (Text × Argctr F) → Result Error (Text × Argctr F)
  or_literal (ok r) = ok r
  or_literal (err _) = err expected_literal

  -- The right side of a comparison: a bound value, or what `emit` makes of another expression.
  unfoldable pub right_side : Expr F → Emit F Text → Emit F Text
  right_side (literal v) other ac = placeholder v ac
  right_side _ other ac = or_literal (other ac)

  -- The loop of the case `In`.
  unfoldable pub emit_values : Exprs F → Emit F (List Text)
  emit_values nil = give []
  emit_values (cons e es) = do
    v ← lift (lit_value e)
    p ← placeholder v
    ps ← emit_values es
    give (p ∷ ps)

  unfoldable mutual
    pub emit : Expr F → Emit F Text
    emit include_all = give (codes "TRUE")
    emit (property name) = lift (quote_ident name)
    emit (compare op l r) = do
      left ← emit l
      right ← right_side r (emit r)
      give (spaced (left ∷ op ∷ right ∷ []))
    emit (logic op es) = do
      parts ← emit_all es
      give (b'(' ∷ (join (b' ' ∷ (op ++ codes " ")) parts ++ codes ")"))
    emit (negation e) = do s ← emit e; give (codes "NOT (" ++ (s ++ codes ")"))
    emit (like prop pattern ci negate) = do
      col ← emit prop
      p ← placeholder (string pattern)
      let op = if ci then codes "ILIKE" else codes "LIKE"
      give (spaced (col ∷ (if negate then codes "NOT " ++ op else op) ∷ p ∷ []))
    emit (in_list prop values negate) = do
      col ← emit prop
      phs ← emit_values values
      let op = if negate then codes "NOT IN" else codes "IN"
      give (spaced (col ∷ op ∷ (b'(' ∷ (join (codes ", ") phs ++ codes ")")) ∷ []))
    emit (between prop lo hi negate) = do
      col ← emit prop
      a ← lift (lit_value lo)
      b ← lift (lit_value hi)
      p ← placeholder a
      q ← placeholder b
      let op = if negate then codes "NOT BETWEEN" else codes "BETWEEN"
      give (spaced (col ∷ op ∷ p ∷ codes "AND" ∷ q ∷ []))
    emit (is_null prop negate) = do
      col ← emit prop
      give (if negate then col ++ codes " IS NOT NULL" else col ++ codes " IS NULL")
    emit (bbox prop minx miny maxx maxy srs) = do
      col ← lift (quote_ident prop)
      a ← placeholder (float minx)
      b ← placeholder (float miny)
      c ← placeholder (float maxx)
      d ← placeholder (float maxy)
      give (
          col
          ++ (codes " && ST_MakeEnvelope("
              ++ (join (codes ", ") (a ∷ b ∷ c ∷ d ∷ []) ++ codes ")")))
    emit (spatial op prop wkt) = do
      col ← lift (quote_ident prop)
      p ← placeholder (string wkt)
      give (
          codes "ST_"
          ++ (title (to_lower op)
              ++ (b'(' ∷ (col ++ (codes ", ST_GeomFromText(" ++ (p ++ codes "))"))))))
    emit (dwithin prop wkt distance units beyond) = do
      col ← lift (quote_ident prop)
      p ← placeholder (string wkt)
      d ← placeholder (float distance)
      let test =
          codes "ST_DWithin("
          ++ (col ++ (codes ", ST_GeomFromText(" ++ (p ++ (codes "), " ++ (d ++ codes ")")))))
      give (if beyond then codes "NOT " ++ test else test)
    emit (literal v) = λ ac. err cannot_compile

    -- The loop of the case `Logic`.
    pub emit_all : Exprs F → Emit F (List Text)
    emit_all nil = give []
    emit_all (cons e es) = do s ← emit e; ss ← emit_all es; give (s ∷ ss)

  unfoldable pub to_sql : Expr F → ℕ → Result Error (Text × List (Value F))
  to_sql e start = bind (emit e (record { n = start; args = [] })) λ (sql, ac). ok (sql, ac.args)
