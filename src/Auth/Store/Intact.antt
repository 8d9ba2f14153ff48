-- ===== src/Auth/Store/Intact.antt =====
-- services/auth/internal/store/store.go: the keys and references of the tables, and every change that
-- the store makes to them.
pub mod Users
pub mod Roles
pub mod Rules
pub mod Changes
use giti.Prelude.{
  ◌≡◌, refl, ap, subst, sym, ◌∙◌, ◌≤◌, ◌<◌, ℕ, ◌+◌, Bool, true, false, not, ◌&&◌, ◌||◌, List, [],
  ◌∷◌, ◌++◌, Text, codes, text_eq, ltb, ◌==◌, if◌then◌else◌, Result, ok, err, ok-injective, all_of,
  all_of-append, arith, inl, inr, Bool-cases,
}
use giti.Rows.{
  SqlError, StoreError, any_row, drop_rows, update_rows, keep, unique, insert_row, insert_new,
  has_key, same_key, saved, affected,
}
use giti.Rows.Laws.{
  same_key_sym, unique-keep, unique-append, all_of-keep, all_of-weaken, any_row-keep,
}
use giti.Rows.Inserts.{
  insert_row-unique, insert_row-any_row, insert_new-unique, saved-eq, affected-eq,
}
use giti.Rows.Updates.{unique-update_rows, any_row-update_rows}
use giti.Rows.Links.{
  IsLinked, IsLinked-grown, IsLinked-drop_left, IsLinked-drop_right, IsLinked-insert,
}
use giti.Auth.Rules.{Rule}
use giti.Auth.Check.{User}
use giti.Auth.Store.{
  AuthDb, UserGroup, RoleUser, RoleGroup, user_name, own_name, member_user, member_group, user_role,
  role_user, group_role, role_group, create_user, update_user, set_user, delete_user, create_group,
  delete_group, add_user_to_group, create_role, delete_role, insert_role_user, assign_role_user,
  assign_role_group, create_rule, delete_rule, normalised, is_access, has_id,
}

unfoldable pub same_id : Rule → Rule → Bool
same_id r s = r.id == s.id

unfoldable pub is_drawn : ℕ → Rule → Bool
is_drawn n r = ltb r.id n

-- Identifiers stand once, each was drawn from the sequence, and an access is one of the three.
pub record IsRuled (next : ℕ) (rules : List Rule) : Type 0 where
  pub key : unique same_id rules ≡ true
  pub drawn : all_of (is_drawn next) rules ≡ true
  pub access : all_of (λ (r : Rule). is_access r.access) rules ≡ true

-- Names stand once, and a membership or an assignment once and for rows that are there.
pub record IsIntact (db : AuthDb) : Type 0 where
  pub users_key : unique (same_key user_name) db.users ≡ true
  pub groups_key : unique (same_key own_name) db.groups ≡ true
  pub roles_key : unique (same_key own_name) db.roles ≡ true
  pub members :
      IsLinked user_name own_name member_user member_group db.users db.groups db.user_groups
  pub user_roles : IsLinked own_name user_name user_role role_user db.roles db.users db.role_users
  pub group_roles :
      IsLinked own_name own_name group_role role_group db.roles db.groups db.role_groups
  pub ruled : IsRuled db.next_id db.rules

-- A table that gets a row keeps those that are there.
pub insert-grows :
    {A : Type 0} (key : A → Text) (x : A) (xs ys : List A)
    → insert_row (same_key key) true x xs ≡ ok ys
    → (k : Text) → any_row (has_key key k) xs ≡ true
    → any_row (has_key key k) ys ≡ true
insert-grows key x xs ys h k there =
    insert_row-any_row (same_key key) (has_key key k) true x xs ys h ∙ rw there refl

pub stays :
    {A : Type 0} (key : A → Text) (xs : List A) (k : Text)
    → any_row (has_key key k) xs ≡ true
    → any_row (has_key key k) xs ≡ true
stays key xs k h = h
