-- ===== src/Ows/Request/Entries.antt =====
-- What is true of all the entries of a table.
use giti.Prelude.{
  ◌≡◌, sym, subst, some, [], ◌∷◌, Text, text_eq, text_eq_iff, Bool-cases, inl, inr, All,
}
use giti.Ows.Request.{Table, find, put}

pub All-put :
    {V : Type 0} (P : Text × V → Type 0) (k : Text) (v : V) (m : Table V)
    → P (k, v)
    → All P m
    → All P (put k v m)
unfolding put
All-put P k v [] h hs = (h, tt)
All-put P k v ((k', v') ∷ m) h hs = elim (Bool-cases (text_eq k k')) [
  | inl same ↦ rw same (h, hs.1)
  | inr other ↦ rw other (hs.0, All-put P k v m h hs.1)
]

pub All-find :
    {V : Type 0} (P : Text × V → Type 0) (k : Text) (v : V) (m : Table V)
    → All P m
    → find k m ≡ some v
    → P (k, v)
unfolding find
All-find P k v [] hs e = cc
All-find P k v ((k', v') ∷ m) hs e = elim (Bool-cases (text_eq k k')) [
  | inl same ↦
      let key : k' ≡ k = sym ((text_eq_iff k k').0 same) in
      let value : v' ≡ v = cc (rw same at e) in
      subst (λ (n : Text). P (n, v)) key (subst (λ (w : _). P (k', w)) value hs.0)
  | inr other ↦ All-find P k v m hs.1 (rw other at e)
]
