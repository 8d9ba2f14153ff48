-- ===== src/Filter/Lexer.antt =====
-- The lexer of libs/ogc-kit/filter/cql.go. `src[pos:]`, the bytes not yet read, stands for the pair
-- of `src` and `pos`; a read at `pos` is a match on it.
pub mod Progress
use giti.Prelude.{
  ℕ, Bool, true, false, ◌||◌, [], ◌∷◌, ◌++◌, ◌==◌, within, if◌then◌else◌, Text, codes, to_upper,
  Result, ok, err,
}
use giti.Filter.Error.{Error, unexpected_character, unterminated_string, invalid_number}

pub data TokKind : Type 0 where
  tok_eof tok_ident tok_string tok_number tok_punct tok_op : TokKind

abbrev pub kind_eq : TokKind → TokKind → Bool
kind_eq tok_eof tok_eof = true
kind_eq tok_ident tok_ident = true
kind_eq tok_string tok_string = true
kind_eq tok_number tok_number = true
kind_eq tok_punct tok_punct = true
kind_eq tok_op tok_op = true
kind_eq _ _ = false

pub record Token : Type 0 where
  pub kind : TokKind
  pub text : Text
  pub up : Text

-- A token, and the bytes behind it.
abbrev pub Lexed : Type 0
Lexed = Result Error (Token × Text)

abbrev pub token : TokKind → Text → Token
token k t = record { kind = k; text = t; up = [] }

unfoldable pub is_ident_start : ℕ → Bool
is_ident_start c = c == b'_' || within b'a' b'z' c || within b'A' b'Z' c

unfoldable pub is_ident_part : ℕ → Bool
unfolding is_ident_start
is_ident_part c = is_ident_start c || within b'0' b'9' c || c == b':' || c == b'.'

unfoldable pub is_space : ℕ → Bool
is_space c = c == b' ' || c == b'\t' || c == b'\n' || c == b'\r'

-- The leading bytes that pass a test, and the rest: a loop `for pos < len(src) && p(src[pos])`.
unfoldable pub take_while : (ℕ → Bool) → Text → Text
take_while p [] = []
take_while p (c ∷ cs) = if p c then c ∷ take_while p cs else []

unfoldable pub drop_while : (ℕ → Bool) → Text → Text
drop_while p [] = []
drop_while p (c ∷ cs) = if p c then drop_while p cs else c ∷ cs

-- `lexString` behind the opening quote; `b` is the builder.
unfoldable pub string_on : Text → Text → Lexed
string_on b [] = err unterminated_string
string_on b (c ∷ []) = if c == b'\'' then ok (token tok_string b, []) else err unterminated_string
string_on b (c ∷ d ∷ cs) =
    let doubled = string_on (b ++ (b'\'' ∷ [])) cs in
    let plain = string_on (b ++ (c ∷ [])) (d ∷ cs) in
    if c == b'\'' then (if d == b'\'' then doubled else ok (token tok_string b, d ∷ cs)) else plain

unfoldable pub is_digit : ℕ → Bool
is_digit c = within b'0' b'9' c

-- The bytes that the loop of `lexNumber` passes over.
unfoldable pub is_number_part : ℕ → Bool
unfolding is_digit
is_number_part c = is_digit c || c == b'.' || c == b'e' || c == b'E' || c == b'-' || c == b'+'

unfoldable pub has_digit : Text → Bool
unfolding is_digit
has_digit [] = false
has_digit (c ∷ cs) = is_digit c || has_digit cs

-- `lexNumber` at a sign, a digit or a dot. The leading sign is a number part, so the token is
-- that byte or nothing, and the number parts behind it.
unfoldable pub lex_number : Text → Lexed
unfolding has_digit is_number_part take_while drop_while
lex_number cs =
    let t = take_while is_number_part cs in
    if has_digit t
    then ok (token tok_number t, drop_while is_number_part cs)
    else err (invalid_number t)

unfoldable pub lex_ident : Text → Lexed
unfolding is_ident_part take_while drop_while to_upper
lex_ident cs =
    let t = take_while is_ident_part cs in
    ok (record { kind = tok_ident; text = t; up = to_upper t }, drop_while is_ident_part cs)

-- The cases behind `<` and `>`.
unfoldable pub lex_less : Text → Lexed
lex_less [] = ok (token tok_op (codes "<"), [])
lex_less (d ∷ cs) =
    if d == b'>'
    then ok (token tok_op (codes "<>"), cs)
    else if d == b'='
    then ok (token tok_op (codes "<="), cs)
    else ok (token tok_op (codes "<"), d ∷ cs)

unfoldable pub lex_greater : Text → Lexed
lex_greater [] = ok (token tok_op (codes ">"), [])
lex_greater (d ∷ cs) =
    if d == b'=' then ok (token tok_op (codes ">="), cs) else ok (token tok_op (codes ">"), d ∷ cs)

-- The `switch` of `next`, at the first byte that is no space.
unfoldable pub lex_at : Text → Lexed
unfolding is_ident_start is_digit string_on lex_number lex_ident lex_less lex_greater
lex_at [] = ok (token tok_eof [], [])
lex_at (c ∷ cs) =
    if c == b'(' || c == b')' || c == b','
    then ok (token tok_punct (c ∷ []), cs)
    else if c == b'='
    then ok (token tok_op (codes "="), cs)
    else if c == b'<'
    then lex_less cs
    else if c == b'>'
    then lex_greater cs
    else if c == b'\''
    then string_on [] cs
    else if is_digit c || c == b'-' || c == b'+' || c == b'.'
    then lex_number (c ∷ cs)
    else if is_ident_start c
    then lex_ident (c ∷ cs)
    else err (unexpected_character c)

-- `(*lexer).next`
unfoldable pub next : Text → Lexed
unfolding is_space drop_while lex_at
next src = lex_at (drop_while is_space src)
