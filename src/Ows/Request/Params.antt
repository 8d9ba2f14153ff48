-- ===== src/Ows/Request/Params.antt =====
-- What the parameters of a request are, whatever the order and the case in which they arrive.
use giti.Prelude.{
  Bool, true, false, not, ◌&&◌, some, List, [], ◌∷◌, ◌≡◌, refl, sym, ap, ◌∙◌, arith, ◌⊎◌, inl, inr,
  subst, text_eq, text_eq_iff, to_upper, if◌then◌else◌, Text, Bool-cases, and-eq-true, all_of, All,
}
use giti.Ows.Request.{Table, put, find, head_text, first, upper_keys, parse_kvp, get}

module _ {V : Type 0} where
  pub find-put_same : (k : Text) (v : V) (m : Table V) → find k (put k v m) ≡ some v
  unfolding find put
  find-put_same k v [] = rw ((text_eq_iff k k).1 refl)
  find-put_same k v ((k', v') ∷ m) = elim (Bool-cases (text_eq k k')) [
    | inl same ↦ rw same (rw ((text_eq_iff k k).1 refl))
    | inr other ↦ rw other (rw other (find-put_same k v m))
  ]

  pub find-put_other :
      (k n : Text) (v : V) (m : Table V) → text_eq k n ≡ false → find k (put n v m) ≡ find k m
  unfolding find put
  find-put_other k n v [] h = rw h
  find-put_other k n v ((k', v') ∷ m) h = elim (Bool-cases (text_eq n k')) [
    | inl same ↦
        let there : text_eq k k' ≡ false = ap (text_eq k) (sym ((text_eq_iff n k').0 same)) ∙ h in
        rw same (rw h (rw there))
    | inr other ↦
        rw other (ap (λ o. if text_eq k k' then some v' else o) (find-put_other k n v m h))
  ]

  -- What holds of each value of a table holds of what is found in it.
  pub find-All {ℓ} :
      (P : V → Type ℓ) (k : Text) (m : Table V) {v : V}
      → All (λ e. P e.1) m
      → find k m ≡ some v
      → P v
  unfolding find
  find-All P k [] h e = cc
  find-All P k ((k', v') ∷ m) {v} h e = elim (Bool-cases (text_eq k k')) [
    | inl same ↦
        let e' : some v' ≡ some v = rw same at e in let here : v' ≡ v = cc in subst P here h.0
    | inr other ↦ find-All P k m h.1 (rw other at e)
  ]

-- No two keys are the same but for their case.
unfoldable pub is_clear : Table (List Text) → Bool
unfolding text_eq to_upper
is_clear [] = true
is_clear ((n, v) ∷ q) = all_of (λ e. not (text_eq (to_upper n) (to_upper e.0))) q && is_clear q

abbrev pub HasEntry : Text → List Text → Table (List Text) → Type 0
HasEntry n v [] = ⊥
HasEntry n v ((n', v') ∷ q) = ((n ≡ n') × (v ≡ v')) ⊎ HasEntry n v q

-- The keys of a table, in capitals, are all different from a text.
abbrev pub is_free : Text → Table (List Text) → Bool
is_free k q = all_of (λ e. not (text_eq k (to_upper e.0))) q

find-upper_keys_free :
    (k : Text) (params q : Table (List Text))
    → is_free k q ≡ true
    → find k (upper_keys params q) ≡ find k params
unfolding upper_keys
find-upper_keys_free k params [] h = refl
find-upper_keys_free k params ((n, v) ∷ q) h =
    let both = and-eq-true (not (text_eq k (to_upper n))) (is_free k q) h in
    let apart : text_eq k (to_upper n) ≡ false = ground (arith, both.0) in
    find-upper_keys_free k (put (to_upper n) v params) q both.1
    ∙ find-put_other k (to_upper n) v params apart

find-upper_keys :
    (n : Text) (v : List Text) (params q : Table (List Text))
    → is_clear q ≡ true
    → HasEntry n v q
    → find (to_upper n) (upper_keys params q) ≡ some v
unfolding upper_keys is_clear
find-upper_keys n v params [] clear h = absurd h
find-upper_keys n v params ((n', v') ∷ q) clear h =
    let both = and-eq-true (is_free (to_upper n') q) (is_clear q) clear in
    elim h [
      | inl here ↦
          let named : to_upper n ≡ to_upper n' = ap to_upper here.0 in
          ap (λ k. find k (upper_keys (put (to_upper n') v' params) q)) named
          ∙ find-upper_keys_free (to_upper n') (put (to_upper n') v' params) q both.0
          ∙ find-put_same (to_upper n') v' params
          ∙ ap some (sym here.1)
      | inr later ↦ find-upper_keys n v (put (to_upper n') v' params) q both.1 later
    ]

-- Where no two parameters of a URL differ only in case, a parameter is found under its name written
-- in any case, whatever the order in which the map of the URL is walked.
pub get-parse_kvp :
    (q : Table (List Text)) (n key : Text) (v : List Text)
    → is_clear q ≡ true
    → HasEntry n v q
    → to_upper key ≡ to_upper n
    → get (parse_kvp q) key ≡ head_text (some v)
unfolding get parse_kvp first
get-parse_kvp q n key v clear entry same =
    ap (λ k. head_text (find k (upper_keys [] q))) same
    ∙ ap head_text (find-upper_keys n v [] q clear entry)

-- A parameter that the URL does not have, in any case, is empty.
pub get-parse_kvp_missing :
    (q : Table (List Text)) (key : Text)
    → is_free (to_upper key) q ≡ true
    → get (parse_kvp q) key ≡ []
unfolding get parse_kvp first find
get-parse_kvp_missing q key free = ap head_text (find-upper_keys_free (to_upper key) [] q free)
