-- ===== src/Auth/Store/Grants.antt =====
-- services/auth/internal/store/store.go: which roles RolesOf finds, and what the deletions leave.
use giti.Prelude.{
  ◌≡◌, refl, sym, ap, subst, ◌∙◌, Bool, true, false, not, ◌&&◌, ◌||◌, List, [], ◌∷◌, ◌++◌, map,
  Text, text_eq, text_eq_iff, one_of, ok, arith, inl, inr, Bool-cases,
}
use giti.Rows.{any_row, keep, drop_rows, insert_row, has_key, same_key}
use giti.Rows.Laws.{text_eq_refl, text_eq_sym, any_row-append, any_row-eq, any_row-keep_none}
use giti.Rows.Inserts.{insert_new-there, saved-eq, affected-eq}
use giti.Rows.Links.{same_pair, refers}
use giti.Rows.Sorted.{any_row-order_by, one_of-any_row}
use giti.Auth.Check.{User}
use giti.Auth.Store.{
  AuthDb, UserGroup, RoleUser, RoleGroup, user_name, own_name, member_user, user_role, role_user,
  group_role, create_user, delete_user, delete_role, insert_role_user, assign_role_user,
  with_role_users, distinct, joins, joined, granted, roles_of,
}

-- A role is given to the user, or to a group that the user is a member of.
unfoldable pub is_given : Text → Text → RoleUser → Bool
is_given role user r = text_eq role r.rolename && text_eq r.username user

unfoldable pub is_given_group : Text → Text → List UserGroup → RoleGroup → Bool
unfolding any_row joins
is_given_group role user ugs rg = text_eq role rg.rolename && any_row (joins user rg) ugs

unfoldable pub is_granted : Text → Text → AuthDb → Bool
unfolding any_row is_given is_given_group
is_granted role user db =
    any_row (is_given role user) db.role_users
    || any_row (is_given_group role user db.user_groups) db.role_groups

any_row-distinct :
    (t : Text) (ts : List Text) → any_row (text_eq t) (distinct ts) ≡ any_row (text_eq t) ts
unfolding any_row distinct
any_row-distinct t [] = refl
any_row-distinct t (k ∷ ks) =
    let ih = any_row-distinct t ks in
    elim (Bool-cases (one_of k ks)) [
      | inl again ↦
          let there : any_row (text_eq k) ks ≡ true = sym (one_of-any_row k ks) ∙ again in
          let same : text_eq t k ≡ true → any_row (text_eq t) ks ≡ true = λ e.
            subst (λ (x : Text). any_row (text_eq x) ks ≡ true) (sym ((text_eq_iff t k).0 e))
              there in
          rw again (rw ih (ground (arith, same)))
      | inr first ↦ rw first (rw ih refl)
    ]

any_row-roles :
    (role user : Text) (rs : List RoleUser)
    → any_row (text_eq role) (map user_role (keep (has_key role_user user) rs))
      ≡ any_row (is_given role user) rs
unfolding any_row keep has_key is_given
any_row-roles role user [] = refl
any_row-roles role user (r ∷ rs) =
    let ih = any_row-roles role user rs in
    elim (Bool-cases (text_eq r.username user)) [
      | inl own ↦ rw (own, ih) (ground arith)
      | inr other ↦ rw (other, ih) (ground arith)
    ]

any_row-memberships :
    (role user : Text) (rg : RoleGroup) (ugs : List UserGroup)
    → any_row (text_eq role) (map (λ (ug : UserGroup). rg.rolename) (keep (joins user rg) ugs))
      ≡ (text_eq role rg.rolename && any_row (joins user rg) ugs)
unfolding any_row keep
any_row-memberships role user rg [] = ground arith
any_row-memberships role user rg (ug ∷ ugs) =
    let ih = any_row-memberships role user rg ugs in
    elim (Bool-cases (joins user rg ug)) [
      | inl member ↦ rw (member, ih) (ground arith)
      | inr other ↦ rw (other, ih) refl
    ]

any_row-joined :
    (role user : Text) (ugs : List UserGroup) (rgs : List RoleGroup)
    → any_row (text_eq role) (joined user ugs rgs) ≡ any_row (is_given_group role user ugs) rgs
unfolding any_row joined is_given_group
any_row-joined role user ugs [] = refl
any_row-joined role user ugs (rg ∷ rgs) =
    any_row-append (text_eq role) (map (λ (ug : UserGroup). rg.rolename) (keep (joins user rg) ugs))
      (joined user ugs rgs)
    ∙ rw (any_row-memberships role user rg ugs, any_row-joined role user ugs rgs) refl

-- RolesOf finds a role of a user exactly where it is given to the user or to a group of the user,
-- whatever the order of the texts.
pub roles_of-granted :
    (collate : Text → Text → Bool) (role user : Text) (db : AuthDb)
    → one_of role (roles_of collate user db) ≡ is_granted role user db
unfolding roles_of granted is_granted
roles_of-granted collate role user db =
    let direct = map user_role (keep (has_key role_user user) db.role_users) in
    let through = joined user db.user_groups db.role_groups in
    one_of-any_row role (roles_of collate user db)
    ∙ any_row-order_by (text_eq role) collate (distinct (direct ++ through))
    ∙ any_row-distinct role (direct ++ through)
    ∙ any_row-append (text_eq role) direct through
    ∙ rw
        (
          any_row-roles role user db.role_users,
          any_row-joined role user db.user_groups db.role_groups,
        )
        refl

is_given-none :
    (role user : Text) (rs : List RoleUser)
    → any_row (is_given role user) (drop_rows (has_key role_user user) rs) ≡ false
unfolding drop_rows is_given has_key
is_given-none role user rs =
    any_row-keep_none (is_given role user) (λ (r : RoleUser). not (has_key role_user user r))
      (λ (r : RoleUser) e. ground arith) rs

joins-none :
    (user : Text) (rg : RoleGroup) (ugs : List UserGroup)
    → any_row (joins user rg) (drop_rows (has_key member_user user) ugs) ≡ false
unfolding drop_rows joins has_key
joins-none user rg ugs =
    any_row-keep_none (joins user rg) (λ (ug : UserGroup). not (has_key member_user user ug))
      (λ (ug : UserGroup) e. ground arith) ugs

is_given_group-none :
    (role user : Text) (ugs : List UserGroup) (rgs : List RoleGroup)
    → any_row (is_given_group role user (drop_rows (has_key member_user user) ugs)) rgs ≡ false
unfolding any_row is_given_group
is_given_group-none role user ugs [] = refl
is_given_group-none role user ugs (rg ∷ rgs) =
    rw (joins-none user rg ugs, is_given_group-none role user ugs rgs) (ground arith)

-- Once a user is deleted, no role is left to the name: not even where a user of that name is created
-- again.
pub delete_user-granted :
    (role name : Text) (u : User) (db db' db'' : AuthDb)
    → delete_user name db ≡ ok db'
    → create_user u db' ≡ ok db''
    → is_granted role name db'' ≡ false
unfolding delete_user create_user is_granted
delete_user-granted role name u db db' db'' e f =
    let (found, gone) =
      affected-eq (any_row (has_key user_name name) db.users)
        (record db {
          users = drop_rows (has_key user_name name) db.users;
          user_groups = drop_rows (has_key member_user name) db.user_groups;
          role_users = drop_rows (has_key role_user name) db.role_users;
        })
        db' e in
    let (rows, (done, same)) =
      saved-eq (λ (rows : List User). record db' { users = rows })
        (insert_row (same_key user_name) true u db'.users) db'' f in
    rw same (
      rw gone (
        rw
          (
            is_given-none role name db.role_users,
            is_given_group-none role name db.user_groups db.role_groups,
          )
          refl))

-- Once a role is deleted, no user has it.
pub delete_role-granted :
    (role user : Text) (db db' : AuthDb)
    → delete_role role db ≡ ok db'
    → is_granted role user db' ≡ false
unfolding delete_role is_granted drop_rows is_given is_given_group has_key
delete_role-granted role user db db' e =
    let (found, gone) =
      affected-eq (any_row (has_key own_name role) db.roles)
        (record db {
          roles = drop_rows (has_key own_name role) db.roles;
          role_users = drop_rows (has_key user_role role) db.role_users;
          role_groups = drop_rows (has_key group_role role) db.role_groups;
        })
        db' e in
    let direct =
      any_row-keep_none (is_given role user) (λ (r : RoleUser). not (has_key user_role role r))
        (λ (r : RoleUser) h. ground (arith, text_eq_sym role r.rolename)) db.role_users in
    let through =
      any_row-keep_none (is_given_group role user db.user_groups)
        (λ (r : RoleGroup). not (has_key group_role role r))
        (λ (r : RoleGroup) h. ground (arith, text_eq_sym role r.rolename)) db.role_groups in
    rw gone (rw (direct, through) refl)

-- The row that the statement of AssignRoleUser leaves.
pub is_given-there :
    (role user : Text) (db : AuthDb) (rows : List RoleUser)
    → insert_role_user role user db ≡ ok rows
    → any_row (is_given role user) rows ≡ true
unfolding insert_role_user same_pair is_given
is_given-there role user db rows done =
    let new : RoleUser = record { rolename = role; username = user } in
    any_row-eq (is_given role user) (same_pair user_role role_user new)
      (λ (r : RoleUser).
        ap (λ (b : Bool). text_eq role r.rolename && b) (text_eq_sym r.username user))
      rows
    ∙ insert_new-there (same_pair user_role role_user)
        (λ (r : RoleUser). rw (text_eq_refl r.rolename, text_eq_refl r.username) refl)
        (refers own_name db.roles role && refers user_name db.users user) new db.role_users rows
        done

-- A role that is assigned to a user is one of the user's.
pub assign_role_user-granted :
    (role user : Text) (db db' : AuthDb)
    → assign_role_user role user db ≡ ok db'
    → is_granted role user db' ≡ true
unfolding assign_role_user insert_role_user is_granted
assign_role_user-granted role user db db' e =
    let (rows, (done, same)) =
      saved-eq (with_role_users db) (insert_role_user role user db) db' e in
    rw same (rw (is_given-there role user db rows done) refl)
