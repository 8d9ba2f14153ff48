-- ===== src/Auth/Store/Intact/Rules.antt =====
-- services/auth/internal/store/store.go: the access rules.
use giti.Prelude.{
  ℤ, ◌≡◌, refl, subst, sym, ℕ, ◌+◌, true, false, not, List, [], ◌∷◌, ◌++◌, ok, all_of,
  all_of-append, arith, inl, inr, Bool-cases,
}
use giti.Rows.{any_row, drop_rows}
use giti.Rows.Laws.{unique-keep, unique-append, all_of-keep, all_of-weaken}
use giti.Rows.Inserts.{affected-eq}
use giti.Rows.Links.{}
use giti.Auth.Rules.{Rule}
use giti.Auth.Store.{AuthDb, create_rule, delete_rule, normalised, is_access, has_id}
use giti.Auth.Store.Intact.{IsIntact, IsRuled, same_id, is_drawn}

-- A row with the next identifier differs from those that were drawn before.
any_row-same_id :
    (r : Rule) (next : ℕ) (rs : List Rule)
    → r.id ≡ next
    → all_of (is_drawn next) rs ≡ true
    → any_row (same_id r) rs ≡ false
unfolding any_row same_id is_drawn
any_row-same_id r next [] e h = refl
any_row-same_id r next (s ∷ rs) e h =
    let ih : all_of (is_drawn next) rs ≡ true → any_row (same_id r) rs ≡ false =
      any_row-same_id r next rs e in
    ground (arith, ih)

same_id_sym : (r s : Rule) → same_id r s ≡ same_id s r
unfolding same_id
same_id_sym r s = ground arith

is_drawn-suc :
    (next : ℕ) (rs : List Rule)
    → all_of (is_drawn next) rs ≡ true
    → all_of (is_drawn (next + 1)) rs ≡ true
unfolding is_drawn
is_drawn-suc next rs h =
    all_of-weaken (is_drawn next) (is_drawn (next + 1)) (λ (r : Rule) e. ground arith) rs h

IsRuled-drawn : (next : ℕ) (rs : List Rule) → IsRuled next rs → IsRuled (next + 1) rs
IsRuled-drawn next rs h = record {
  key = h.key;
  drawn = is_drawn-suc next rs h.drawn;
  access = h.access;
}

IsRuled-append :
    (r : Rule) (next : ℕ) (rs : List Rule)
    → r.id ≡ next
    → is_access r.access ≡ true
    → IsRuled next rs
    → IsRuled (next + 1) (rs ++ (r ∷ []))
unfolding is_drawn
IsRuled-append r next rs e a h = record {
  key = unique-append same_id same_id_sym r rs h.key (any_row-same_id r next rs e h.drawn);
  drawn =
      all_of-append (is_drawn (next + 1)) rs (r ∷ []) (is_drawn-suc next rs h.drawn) (ground arith);
  access = all_of-append (λ (s : Rule). is_access s.access) rs (r ∷ []) h.access (rw a refl);
}

with_rules :
    (db db' : AuthDb)
    → IsIntact db
    → IsRuled db'.next_id db'.rules
    → db' ≡ record db { rules = db'.rules; next_id = db'.next_id }
    → IsIntact db'
with_rules db db' h ruled same = subst IsIntact (sym same) (record {
  users_key = h.users_key;
  groups_key = h.groups_key;
  roles_key = h.roles_key;
  members = h.members;
  user_roles = h.user_roles;
  group_roles = h.group_roles;
  ruled = ruled;
})

pub create_rule-IsIntact : (r : Rule) (db : AuthDb) → IsIntact db → IsIntact (create_rule r db).1
unfolding create_rule normalised
create_rule-IsIntact r db h = elim (Bool-cases (is_access r.access)) [
  | inl valid ↦ rw valid (
      with_rules db _ h
        (IsRuled-append (record (normalised r) { id = db.next_id }) db.next_id db.rules refl valid
          h.ruled)
        refl)
  | inr refused ↦ rw refused (with_rules db _ h (IsRuled-drawn db.next_id db.rules h.ruled) refl)
]

pub delete_rule-IsIntact :
    (n : ℤ) (db db' : AuthDb) → delete_rule n db ≡ ok db' → IsIntact db → IsIntact db'
unfolding delete_rule drop_rows
delete_rule-IsIntact n db db' e h =
    let (found, same) =
      affected-eq (any_row (has_id n) db.rules)
        (record db { rules = drop_rows (has_id n) db.rules }) db' e in
    let others = λ (r : Rule). not (has_id n r) in
    rw same (
      with_rules db _ h
        (record {
          key = unique-keep same_id others db.rules h.ruled.key;
          drawn = all_of-keep (is_drawn db.next_id) others db.rules h.ruled.drawn;
          access = all_of-keep (λ (r : Rule). is_access r.access) others db.rules h.ruled.access;
        })
        refl)
