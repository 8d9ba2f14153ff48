-- ===== src/Filter/Parser/State.antt =====
-- `cqlParser`: the lexer and the current token, and the actions on them.
use Prim.Native.String.{String}
use giti.Prelude.{Bool, ◌&&◌, [], text_eq, if◌then◌else◌, Text, codes, Result, ok, err, bind}
use giti.Filter.Error.{Error, expected_text}
use giti.Filter.Lexer.{TokKind, tok_eof, tok_ident, tok_punct, Token, token, kind_eq, next}

-- `rest` is what the lexer has not read.
pub record Parser : Type 0 where
  pub rest : Text
  pub tok : Token

-- The zero value of `tok` is an end-of-text token.
abbrev pub initial : Text → Parser
initial s = record { rest = s; tok = token tok_eof [] }

abbrev pub M : Type 0 → Type 0
M A = Parser → Result Error (A × Parser)

module _ {A : Type 0} where
  abbrev pub pure : A → M A
  pure a p = ok (a, p)

  abbrev pub fail : Error → M A
  fail e p = err e

  abbrev pub run : Parser → M A → Result Error (A × Parser)
  run p m = m p

module _ {A B : Type 0} where
  infixl 5 ◌>>=◌ ◌>>◌
  abbrev pub ◌>>=◌ : M A → (A → M B) → M B
  ◌>>=◌ m f p = bind (m p) λ (a, q). f a q

  abbrev pub ◌>>◌ : M A → M B → M B
  m >> k = m >>= λ _. k

-- `p.tok`
abbrev pub current : M Token
current p = ok (p.tok, p)

-- An early return unless the test holds of the state.
abbrev pub require : (Parser → Bool) → Error → M (Unit {0})
require test e p = if test p then ok (tt, p) else err e

unfoldable pub advance : M (Unit {0})
unfolding next
advance p = bind (next p.rest) λ (t, cs). ok (tt, record { rest = cs; tok = t })

unfoldable pub is_kind : TokKind → Parser → Bool
is_kind k p = kind_eq p.tok.kind k

-- `p.tok.kind == tokIdent && p.tok.up == w`
unfoldable pub is_word : String → Parser → Bool
unfolding is_kind text_eq
is_word w p = is_kind tok_ident p && text_eq p.tok.up (codes w)

-- `p.tok.kind == tokPunct && p.tok.text == s`
unfoldable pub is_punct : String → Parser → Bool
unfolding is_kind text_eq
is_punct s p = is_kind tok_punct p && text_eq p.tok.text (codes s)

-- `expect` looks at the text of the token alone.
unfoldable pub expect : String → M (Unit {0})
unfolding advance text_eq
expect t p =
    if text_eq p.tok.text (codes t) then advance p else err (expected_text (codes t) p.tok.text)
