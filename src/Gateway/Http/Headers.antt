-- ===== src/Gateway/Http/Headers.antt =====
-- Reading a header after it, or another one, is set.
use giti.Prelude.{
  true, false, [], ◌∷◌, ◌≡◌, refl, sym, ap, ◌∙◌, inl, inr, text_eq, text_eq_iff, equal_fold,
  to_lower, if◌then◌else◌, Text, Bool-cases,
}
use giti.Ows.Request.{Table}
use giti.Gateway.Http.{set_header, get_header}

equal_fold_refl : (a : Text) → equal_fold a a ≡ true
unfolding equal_fold
equal_fold_refl a = (text_eq_iff (to_lower a) (to_lower a)).1 refl

equal_fold-eq : (a b : Text) → equal_fold a b ≡ true → (c : Text) → equal_fold c a ≡ equal_fold c b
unfolding equal_fold
equal_fold-eq a b h c = ap (text_eq (to_lower c)) ((text_eq_iff (to_lower a) (to_lower b)).0 h)

pub get_header-set_header : (n v : Text) (h : Table Text) → get_header n (set_header n v h) ≡ v
unfolding get_header set_header
get_header-set_header n v [] = rw (equal_fold_refl n)
get_header-set_header n v ((n', v') ∷ h) = elim (Bool-cases (equal_fold n n')) [
  | inl same ↦ rw same (rw (equal_fold_refl n))
  | inr other ↦ rw other (rw other (get_header-set_header n v h))
]

pub get_header-set_header_other :
    (n m v : Text) (h : Table Text)
    → equal_fold n m ≡ false
    → get_header n (set_header m v h) ≡ get_header n h
unfolding get_header set_header
get_header-set_header_other n m v [] apart = rw apart
get_header-set_header_other n m v ((n', v') ∷ h) apart = elim (Bool-cases (equal_fold m n')) [
  | inl same ↦
      let there : equal_fold n n' ≡ false = sym (equal_fold-eq m n' same n) ∙ apart in
      rw same (rw apart (rw there))
  | inr other ↦
      rw other
        (ap (λ o. if equal_fold n n' then v' else o) (get_header-set_header_other n m v h apart))
]
