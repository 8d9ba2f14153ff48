-- ===== src/Filter/Lexer/Progress.antt =====
-- What `next` returns: how far it reads, and what an operator token holds.
use giti.Prelude.{
  ℕ, suc, ◌+◌, ◌≤◌, ◌≡◌, refl, Bool, true, false, ◌||◌, List, [], ◌∷◌, ◌++◌, arith, ◌==◌,
  if◌then◌else◌, length, Text, codes, one_of, ok, err,
}
use giti.Filter.Error.{Error, out_of_fuel}
use giti.Filter.Lexer.{
  tok_eof, tok_op, kind_eq, Token, Lexed, take_while, drop_while, is_space, is_ident_start,
  is_ident_part, is_digit, is_number_part, has_digit, string_on, lex_number, lex_ident, lex_less,
  lex_greater, lex_at, next,
}

-- The operators that `next` forms.
abbrev pub compare_ops : List Text
compare_ops = codes "=" ∷ codes "<>" ∷ codes "<" ∷ codes "<=" ∷ codes ">" ∷ codes ">=" ∷ []

-- A token that is not the end of the text counts one byte at least.
abbrev pub tok_size : Token → ℕ
tok_size t = if kind_eq t.kind tok_eof then 0 else 1

abbrev pub token_ok : Token → Bool
token_ok t = if kind_eq t.kind tok_op then one_of t.text compare_ops else true

abbrev pub is_fuel : Error → Bool
is_fuel out_of_fuel = true
is_fuel _ = false

-- The token and the bytes behind it fit into `n` bytes.
pub data Lexes (n : ℕ) : Lexed → Type 0 where
  lexed :
      {t : Token} {cs : Text}
      → length cs + tok_size t ≤ n
      → token_ok t ≡ true
      → Lexes n (ok (t, cs))
  refused : {e : Error} → is_fuel e ≡ false → Lexes n (err e)

Lexes-if :
    {n : ℕ} (b : Bool) {x y : Lexed}
    → (b ≡ true → Lexes n x)
    → (b ≡ false → Lexes n y)
    → Lexes n (if b then x else y)
Lexes-if true hx hy = hx refl
Lexes-if false hx hy = hy refl

Lexes-le : {n m : ℕ} {r : Lexed} → n ≤ m → Lexes n r → Lexes m r
Lexes-le h (lexed s k) = lexed (omega arith) k
Lexes-le h (refused e) = refused e

length-drop_while : (p : ℕ → Bool) (cs : Text) → length (drop_while p cs) ≤ length cs
unfolding drop_while
length-drop_while p [] = omega arith
length-drop_while p (c ∷ cs) = ground (arith, length-drop_while p cs)

string_on-Lexes : (b cs : Text) → Lexes (suc (length cs)) (string_on b cs)
unfolding string_on
string_on-Lexes b [] = refused refl
string_on-Lexes b (c ∷ []) =
    Lexes-if (c == b'\'') (λ _. lexed (omega arith) refl) (λ _. refused refl)
string_on-Lexes b (c ∷ d ∷ cs) =
    Lexes-if (c == b'\'')
      (λ _.
        Lexes-if (d == b'\'') (λ _. Lexes-le (omega arith) (string_on-Lexes (b ++ (b'\'' ∷ [])) cs))
          (λ _. lexed (omega arith) refl))
      (λ _. Lexes-le (omega arith) (string_on-Lexes (b ++ (c ∷ [])) (d ∷ cs)))

drop_while-head :
    (p : ℕ → Bool) (c : ℕ) (cs : Text) → p c ≡ true → length (drop_while p (c ∷ cs)) ≤ length cs
unfolding drop_while
drop_while-head p c cs h = rw h (length-drop_while p cs)

lex_number-Lexes :
    (c : ℕ) (cs : Text) → is_number_part c ≡ true → Lexes (suc (length cs)) (lex_number (c ∷ cs))
unfolding lex_number
lex_number-Lexes c cs h =
    Lexes-if (has_digit (take_while is_number_part (c ∷ cs)))
      (λ _. lexed (omega (arith, drop_while-head is_number_part c cs h)) refl) (λ _. refused refl)

lex_ident-Lexes :
    (c : ℕ) (cs : Text) → is_ident_part c ≡ true → Lexes (suc (length cs)) (lex_ident (c ∷ cs))
unfolding lex_ident
lex_ident-Lexes c cs h = lexed (omega (arith, drop_while-head is_ident_part c cs h)) refl

lex_less-Lexes : (cs : Text) → Lexes (suc (length cs)) (lex_less cs)
unfolding lex_less one_of
lex_less-Lexes [] = lexed (omega arith) refl
lex_less-Lexes (d ∷ cs) =
    Lexes-if (d == b'>') (λ _. lexed (omega arith) refl)
      (λ _. Lexes-if (d == b'=') (λ _. lexed (omega arith) refl) (λ _. lexed (omega arith) refl))

lex_greater-Lexes : (cs : Text) → Lexes (suc (length cs)) (lex_greater cs)
unfolding lex_greater one_of
lex_greater-Lexes [] = lexed (omega arith) refl
lex_greater-Lexes (d ∷ cs) =
    Lexes-if (d == b'=') (λ _. lexed (omega arith) refl) (λ _. lexed (omega arith) refl)

number_start :
    (c : ℕ) → (is_digit c || c == b'-' || c == b'+' || c == b'.') ≡ true → is_number_part c ≡ true
unfolding is_number_part
number_start c h = ground arith

ident_start : (c : ℕ) → is_ident_start c ≡ true → is_ident_part c ≡ true
unfolding is_ident_part
ident_start c h = ground arith

lex_at-Lexes : (cs : Text) → Lexes (length cs) (lex_at cs)
unfolding lex_at one_of
lex_at-Lexes [] = lexed (omega arith) refl
lex_at-Lexes (c ∷ cs) =
    Lexes-if (c == b'(' || c == b')' || c == b',') (λ _. lexed (omega arith) refl)
      (λ _.
        Lexes-if (c == b'=') (λ _. lexed (omega arith) refl)
          (λ _.
            Lexes-if (c == b'<') (λ _. lex_less-Lexes cs)
              (λ _.
                Lexes-if (c == b'>') (λ _. lex_greater-Lexes cs)
                  (λ _.
                    Lexes-if (c == b'\'') (λ _. string_on-Lexes [] cs)
                      (λ _.
                        Lexes-if (is_digit c || c == b'-' || c == b'+' || c == b'.')
                          (λ h. lex_number-Lexes c cs (number_start c h))
                          (λ _.
                            Lexes-if (is_ident_start c)
                              (λ h. lex_ident-Lexes c cs (ident_start c h))
                              (λ _. refused refl)))))))

-- `next` reads a byte for each token, forms only the six operators, and gives no error of the
-- model's own.
pub next-Lexes : (src : Text) → Lexes (length src) (next src)
unfolding next
next-Lexes src = Lexes-le (length-drop_while is_space src) (lex_at-Lexes (drop_while is_space src))
