-- ===== src/Auth/Store.antt =====
-- services/auth/internal/store/store.go: the users, groups, roles and rules in PostgreSQL, with the
-- tables of internal/store/migrations. A statement is answered; a lost connection is not modelled.
-- `collate` is the order of texts in the database.
pub mod Intact
pub mod Grants
pub mod Seed
pub mod Order
use giti.Prelude.{
  ℕ, ℤ, pos, ◌+◌, Bool, true, false, ◌&&◌, ◌||◌, List, [], ◌∷◌, ◌++◌, map, Text, codes, text_eq,
  one_of, ◌==◌, leb, if◌then◌else◌, Result, ok, err, bind, ltb_int, eq_int,
}
use giti.Rows.{
  SqlError, check_violation, StoreError, not_found, map_err, any_row, keep, drop_rows, update_rows,
  insert_row, insert_new, has_key, same_key, order_by, saved, affected, query_row,
}
use giti.Rows.Links.{same_pair, refers}
use giti.Auth.Rules.{Rule}
use giti.Auth.Check.{User}

pub record UserGroup : Type 0 where
  pub username : Text
  pub groupname : Text

pub record RoleUser : Type 0 where
  pub rolename : Text
  pub username : Text

pub record RoleGroup : Type 0 where
  pub rolename : Text
  pub groupname : Text

-- The tables, and the next value of the sequence of `geofence_rules.id`.
pub record AuthDb : Type 0 where
  pub users : List User
  pub groups : List Text
  pub user_groups : List UserGroup
  pub roles : List Text
  pub role_users : List RoleUser
  pub role_groups : List RoleGroup
  pub rules : List Rule
  pub next_id : ℕ

-- The columns that are keys.
abbrev pub user_name : User → Text
user_name u = u.name

abbrev pub own_name : Text → Text
own_name t = t

abbrev pub member_user : UserGroup → Text
member_user r = r.username

abbrev pub member_group : UserGroup → Text
member_group r = r.groupname

abbrev pub user_role : RoleUser → Text
user_role r = r.rolename

abbrev pub role_user : RoleUser → Text
role_user r = r.username

abbrev pub group_role : RoleGroup → Text
group_role r = r.rolename

abbrev pub role_group : RoleGroup → Text
role_group r = r.groupname

unfoldable pub create_user : User → AuthDb → Result StoreError AuthDb
unfolding insert_row same_key saved
create_user u db =
    saved (λ (rows : List User). record db { users = rows })
      (insert_row (same_key user_name) true u db.users)

unfoldable pub get_user : Text → AuthDb → Result StoreError User
unfolding query_row keep has_key
get_user name db = query_row (keep (has_key user_name name) db.users)

-- `SET enabled=$2, password_hash=$3`
unfoldable pub set_user : User → User → User
set_user u row = record row { enabled = u.enabled; password_hash = u.password_hash }

unfoldable pub update_user : Text → User → AuthDb → Result StoreError AuthDb
unfolding update_rows any_row has_key set_user affected
update_user name u db =
    affected (any_row (has_key user_name name) db.users)
      (record db { users = update_rows (has_key user_name name) (set_user u) db.users })

-- With ON DELETE CASCADE of the memberships and roles.
unfoldable pub delete_user : Text → AuthDb → Result StoreError AuthDb
unfolding drop_rows any_row has_key affected
delete_user name db = affected (any_row (has_key user_name name) db.users) (record db {
  users = drop_rows (has_key user_name name) db.users;
  user_groups = drop_rows (has_key member_user name) db.user_groups;
  role_users = drop_rows (has_key role_user name) db.role_users;
})

unfoldable pub create_group : Text → AuthDb → Result StoreError AuthDb
unfolding insert_row same_key saved
create_group name db =
    saved (λ (rows : List Text). record db { groups = rows })
      (insert_row (same_key own_name) true name db.groups)

unfoldable pub delete_group : Text → AuthDb → Result StoreError AuthDb
unfolding drop_rows any_row has_key affected
delete_group name db = affected (any_row (has_key own_name name) db.groups) (record db {
  groups = drop_rows (has_key own_name name) db.groups;
  user_groups = drop_rows (has_key member_group name) db.user_groups;
  role_groups = drop_rows (has_key role_group name) db.role_groups;
})

unfoldable pub add_user_to_group : Text → Text → AuthDb → Result StoreError AuthDb
unfolding insert_new same_pair refers saved
add_user_to_group user group db =
    saved (λ (rows : List UserGroup). record db { user_groups = rows })
      (insert_new (same_pair member_user member_group)
        (refers user_name db.users user && refers own_name db.groups group)
        (record { username = user; groupname = group }) db.user_groups)

unfoldable pub create_role : Text → AuthDb → Result StoreError AuthDb
unfolding insert_row same_key saved
create_role name db =
    saved (λ (rows : List Text). record db { roles = rows })
      (insert_row (same_key own_name) true name db.roles)

unfoldable pub delete_role : Text → AuthDb → Result StoreError AuthDb
unfolding drop_rows any_row has_key affected
delete_role name db = affected (any_row (has_key own_name name) db.roles) (record db {
  roles = drop_rows (has_key own_name name) db.roles;
  role_users = drop_rows (has_key user_role name) db.role_users;
  role_groups = drop_rows (has_key group_role name) db.role_groups;
})

-- The statement of AssignRoleUser, which SeedAdmin sends too.
unfoldable pub insert_role_user : Text → Text → AuthDb → Result SqlError (List RoleUser)
unfolding insert_new same_pair refers
insert_role_user role user db =
    insert_new (same_pair user_role role_user)
      (refers own_name db.roles role && refers user_name db.users user)
      (record { rolename = role; username = user }) db.role_users

abbrev pub with_role_users : AuthDb → List RoleUser → AuthDb
with_role_users db rows = record db { role_users = rows }

unfoldable pub assign_role_user : Text → Text → AuthDb → Result StoreError AuthDb
unfolding insert_role_user saved
assign_role_user role user db = saved (with_role_users db) (insert_role_user role user db)

unfoldable pub assign_role_group : Text → Text → AuthDb → Result StoreError AuthDb
unfolding insert_new same_pair refers saved
assign_role_group role group db =
    saved (λ (rows : List RoleGroup). record db { role_groups = rows })
      (insert_new (same_pair group_role role_group)
        (refers own_name db.roles role && refers own_name db.groups group)
        (record { rolename = role; groupname = group }) db.role_groups)

-- What a statement without an error leaves, and what follows it.
unfoldable pub then_save :
    {A : Type 0}
    → (A → AuthDb)
    → AuthDb
    → (AuthDb → Result SqlError AuthDb × AuthDb)
    → Result SqlError A
    → Result SqlError AuthDb × AuthDb
then_save f db k (ok a) = k (f a)
then_save f db k (err e) = (err e, db)

unfoldable pub seed_role : AuthDb → Result SqlError AuthDb × AuthDb
unfolding insert_role_user then_save
seed_role db =
    then_save (with_role_users db) db (λ (done : AuthDb). (ok done, done))
      (insert_role_user (codes "ADMIN") (codes "admin") db)

unfoldable pub seed_roles : AuthDb → Result SqlError AuthDb × AuthDb
unfolding seed_role insert_new same_key then_save
seed_roles db =
    then_save (λ (rows : List Text). record db { roles = rows }) db seed_role
      (insert_new (same_key own_name) true (codes "ADMIN") db.roles)

-- Three statements, each on its own.
unfoldable pub seed_admin : Text → AuthDb → Result SqlError AuthDb × AuthDb
unfolding seed_roles insert_new same_key then_save
seed_admin hash db =
    then_save (λ (rows : List User). record db { users = rows }) db seed_roles
      (insert_new (same_key user_name) true
        (record { name = codes "admin"; password_hash = hash; enabled = true }) db.users)

-- `norm` of CreateRule.
unfoldable pub norm : Text → Text
norm [] = codes "*"
norm (c ∷ v) = c ∷ v

unfoldable pub normalised : Rule → Rule
unfolding norm
normalised r = record r {
  username = norm r.username;
  rolename = norm r.rolename;
  service = norm r.service;
  request = norm r.request;
  workspace = norm r.workspace;
  layer = norm r.layer;
}

-- CHECK of the column `access`.
unfoldable pub is_access : Text → Bool
unfolding text_eq
is_access a = text_eq a (codes "ALLOW") || (text_eq a (codes "DENY") || text_eq a (codes "LIMIT"))

-- A value that the sequence has given is not given again, whether its row is inserted or not.
unfoldable pub create_rule : Rule → AuthDb → Result StoreError ℕ × AuthDb
unfolding normalised is_access map_err
create_rule r db =
    let drawn = record db { next_id = db.next_id + 1 } in
    if is_access r.access
    then (
      ok db.next_id,
      record drawn { rules = db.rules ++ ((record (normalised r) { id = db.next_id }) ∷ []) },
    )
    else (err (map_err check_violation), drawn)

-- ORDER BY priority, id
unfoldable pub rule_precedes : Rule → Rule → Bool
unfolding ltb_int eq_int
rule_precedes r s = ltb_int r.priority s.priority || (eq_int r.priority s.priority && leb r.id s.id)

unfoldable pub list_rules : AuthDb → List Rule
unfolding order_by rule_precedes
list_rules db = order_by rule_precedes db.rules

unfoldable pub has_id : ℤ → Rule → Bool
unfolding eq_int
has_id n r = eq_int (pos r.id) n

unfoldable pub delete_rule : ℤ → AuthDb → Result StoreError AuthDb
unfolding drop_rows any_row has_id affected
delete_rule n db =
    affected (any_row (has_id n) db.rules) (record db { rules = drop_rows (has_id n) db.rules })

-- UNION leaves each text once.
unfoldable pub distinct : List Text → List Text
unfolding one_of
distinct [] = []
distinct (t ∷ ts) = let rest = distinct ts in if one_of t ts then rest else t ∷ rest

-- The roles that a group membership of the user brings.
unfoldable pub joins : Text → RoleGroup → UserGroup → Bool
unfolding text_eq
joins user rg ug = text_eq ug.groupname rg.groupname && text_eq ug.username user

unfoldable pub joined : Text → List UserGroup → List RoleGroup → List Text
unfolding joins keep
joined user ugs [] = []
joined user ugs (rg ∷ rgs) =
    map (λ (ug : UserGroup). rg.rolename) (keep (joins user rg) ugs) ++ joined user ugs rgs

unfoldable pub granted : Text → AuthDb → List Text
unfolding distinct joined keep has_key
granted user db = distinct (
    map user_role (keep (has_key role_user user) db.role_users)
    ++ joined user db.user_groups db.role_groups)

module _ (collate : Text → Text → Bool) where
  unfoldable pub list_users : AuthDb → List User
  unfolding order_by
  list_users db = order_by (λ (u v : User). collate u.name v.name) db.users

  unfoldable pub list_groups : AuthDb → List Text
  unfolding order_by
  list_groups db = order_by collate db.groups

  unfoldable pub groups_of : Text → AuthDb → List Text
  unfolding order_by keep has_key
  groups_of user db =
      order_by collate (map member_group (keep (has_key member_user user) db.user_groups))

  unfoldable pub list_roles : AuthDb → List Text
  unfolding order_by
  list_roles db = order_by collate db.roles

  unfoldable pub roles_of : Text → AuthDb → List Text
  unfolding order_by granted
  roles_of user db = order_by collate (granted user db)
