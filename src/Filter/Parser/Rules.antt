-- ===== src/Filter/Parser/Rules.antt =====
-- Postconditions of the parser's actions, with one rule for each way to build an action.
use Prim.Native.String.{String}
use giti.Prelude.{
  ℕ, suc, ◌+◌, ◌≤◌, ◌≡◌, refl, Bool, true, false, arith, if◌then◌else◌, length, codes, text_eq,
  Result, ok, err, bind,
}
use giti.Filter.Error.{Error}
use giti.Filter.Lexer.{tok_eof, tok_ident, Lexed, next}
use giti.Filter.Lexer.Progress.{tok_size, token_ok, is_fuel, Lexes, lexed, refused, next-Lexes}
use giti.Filter.Parser.State.{Parser, advance, expect, is_kind, is_word, is_punct}

-- The bytes that the parser still has before it.
abbrev pub size : Parser → ℕ
size p = length p.rest + tok_size p.tok

abbrev pub Fits : ℕ → Parser → Type 0
Fits n p = (size p ≤ n) × (token_ok p.tok ≡ true)

-- A value of which `R` holds, with at most `n` bytes left; or an error of the program's.
pub data Parses {A : Type 0} (R : A → Type 0) (n : ℕ) : Result Error (A × Parser) → Type 0 where
  parsed : {a : A} {q : Parser} → R a → Fits n q → Parses R n (ok (a, q))
  rejected : {e : Error} → is_fuel e ≡ false → Parses R n (err e)

abbrev pub Any : {A : Type 0} → A → Type 0
Any a = Unit

module _ {A : Type 0} {R : A → Type 0} {n : ℕ} where
  pub Parses-le : {m : ℕ} {r : Result Error (A × Parser)} → n ≤ m → Parses R n r → Parses R m r
  Parses-le h (parsed p f) = parsed p (omega arith, f.1)
  Parses-le h (rejected e) = rejected e

  pub Parses-if :
      (b : Bool) {x y : Result Error (A × Parser)}
      → (b ≡ true → Parses R n x)
      → (b ≡ false → Parses R n y)
      → Parses R n (if b then x else y)
  Parses-if true hx hy = hx refl
  Parses-if false hx hy = hy refl

  pub Parses-require :
      (b : Bool) (e : Error) {p : Parser} (f : Unit {0} × Parser → Result Error (A × Parser))
      → is_fuel e ≡ false
      → (b ≡ true → Parses R n (f (tt, p)))
      → Parses R n (bind (if b then ok (tt, p) else err e) f)
  Parses-require true e f k h = h refl
  Parses-require false e f k h = rejected k

module _ {A B : Type 0} {R : A → Type 0} {S : B → Type 0} {n k : ℕ} where
  pub Parses-bind :
      {r : Result Error (A × Parser)} {f : A × Parser → Result Error (B × Parser)}
      → Parses R n r
      → ((x : A × Parser) → R x.0 → Fits n x.1 → Parses S k (f x))
      → Parses S k (bind r f)
  Parses-bind (parsed {a} {q} h g) m = m (a, q) h g
  Parses-bind (rejected e) m = rejected e

advance_on :
    {n : ℕ} (r : Lexed)
    → Lexes n r
    → Parses {A = Unit {0}} Any n (bind r λ (t, cs). ok (tt, record { rest = cs; tok = t }))
advance_on _ (lexed h k) = parsed tt (h, k)
advance_on _ (refused e) = rejected e

-- `advance` leaves no more than the lexer had not read.
pub advance_rest : (p : Parser) → Parses Any (length p.rest) (advance p)
unfolding advance
advance_rest p = advance_on (next p.rest) (next-Lexes p.rest)

pub advance-Parses : {n : ℕ} (p : Parser) → Fits n p → Parses Any n (advance p)
advance-Parses p f = Parses-le (omega (arith, f.0)) (advance_rest p)

pub expect-Parses : {n : ℕ} (t : String) (p : Parser) → Fits n p → Parses Any n (expect t p)
unfolding expect
expect-Parses t p f =
    Parses-if (text_eq p.tok.text (codes t)) (λ _. advance-Parses p f) (λ _. rejected refl)

-- A token of a kind that is not the end of the text takes a byte.
pub is_punct-size : (s : String) (p : Parser) → is_punct s p ≡ true → size p ≡ suc (length p.rest)
unfolding is_punct
is_punct-size s p h = ground arith

pub is_word-size : (s : String) (p : Parser) → is_word s p ≡ true → size p ≡ suc (length p.rest)
unfolding is_word
is_word-size s p h = ground arith

pub is_ident_size : (p : Parser) → is_kind tok_ident p ≡ true → size p ≡ suc (length p.rest)
unfolding is_kind
is_ident_size p h = ground arith

pub not_eof_size : (p : Parser) → is_kind tok_eof p ≡ false → size p ≡ suc (length p.rest)
unfolding is_kind
not_eof_size p h = ground arith
