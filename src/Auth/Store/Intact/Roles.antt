-- ===== src/Auth/Store/Intact/Roles.antt =====
-- services/auth/internal/store/store.go: roles and their assignment.
use giti.Prelude.{◌≡◌, true, not, List, Text, ok}
use giti.Rows.{any_row, drop_rows, insert_row, has_key, same_key}
use giti.Rows.Laws.{same_key_sym, unique-keep}
use giti.Rows.Inserts.{insert_row-unique, saved-eq, affected-eq}
use giti.Rows.Links.{IsLinked-grown, IsLinked-drop_left, IsLinked-insert}
use giti.Auth.Store.{
  AuthDb, RoleUser, RoleGroup, user_name, own_name, user_role, role_user, group_role, role_group,
  create_role, delete_role, insert_role_user, assign_role_user, assign_role_group, with_role_users,
}
use giti.Auth.Store.Intact.{IsIntact, insert-grows, stays}

pub create_role-IsIntact :
    (name : Text) (db db' : AuthDb) → create_role name db ≡ ok db' → IsIntact db → IsIntact db'
unfolding create_role
create_role-IsIntact name db db' e h =
    let (rows, (done, same)) =
      saved-eq (λ (rows : List Text). record db { roles = rows })
        (insert_row (same_key own_name) true name db.roles) db' e in
    let grows = insert-grows own_name name db.roles rows done in
    rw same (record {
      users_key = h.users_key;
      groups_key = h.groups_key;
      roles_key =
          insert_row-unique (same_key own_name) (same_key_sym own_name) true name db.roles rows
            h.roles_key done;
      members = h.members;
      user_roles =
          IsLinked-grown own_name user_name user_role role_user db.roles rows db.users db.users
            db.role_users grows (stays user_name db.users) h.user_roles;
      group_roles =
          IsLinked-grown own_name own_name group_role role_group db.roles rows db.groups db.groups
            db.role_groups grows (stays own_name db.groups) h.group_roles;
      ruled = h.ruled;
    })

pub delete_role-IsIntact :
    (name : Text) (db db' : AuthDb) → delete_role name db ≡ ok db' → IsIntact db → IsIntact db'
unfolding delete_role drop_rows
delete_role-IsIntact name db db' e h =
    let (found, same) =
      affected-eq (any_row (has_key own_name name) db.roles)
        (record db {
          roles = drop_rows (has_key own_name name) db.roles;
          role_users = drop_rows (has_key user_role name) db.role_users;
          role_groups = drop_rows (has_key group_role name) db.role_groups;
        })
        db' e in
    rw same (record {
      users_key = h.users_key;
      groups_key = h.groups_key;
      roles_key =
          unique-keep (same_key own_name) (λ (t : Text). not (has_key own_name name t)) db.roles
            h.roles_key;
      members = h.members;
      user_roles =
          IsLinked-drop_left own_name user_name user_role role_user name db.roles db.users
            db.role_users h.user_roles;
      group_roles =
          IsLinked-drop_left own_name own_name group_role role_group name db.roles db.groups
            db.role_groups h.group_roles;
      ruled = h.ruled;
    })

-- The statement that AssignRoleUser and SeedAdmin send.
pub with_role_users-IsIntact :
    (role user : Text) (db : AuthDb) (rows : List RoleUser)
    → insert_role_user role user db ≡ ok rows
    → IsIntact db
    → IsIntact (with_role_users db rows)
unfolding insert_role_user
with_role_users-IsIntact role user db rows done h = record {
  users_key = h.users_key;
  groups_key = h.groups_key;
  roles_key = h.roles_key;
  members = h.members;
  user_roles =
      IsLinked-insert own_name user_name user_role role_user db.roles db.users
        (record { rolename = role; username = user }) db.role_users rows done h.user_roles;
  group_roles = h.group_roles;
  ruled = h.ruled;
}

pub assign_role_user-IsIntact :
    (role user : Text) (db db' : AuthDb)
    → assign_role_user role user db ≡ ok db'
    → IsIntact db
    → IsIntact db'
unfolding assign_role_user
assign_role_user-IsIntact role user db db' e h =
    let (rows, (done, same)) =
      saved-eq (with_role_users db) (insert_role_user role user db) db' e in
    rw same (with_role_users-IsIntact role user db rows done h)

pub assign_role_group-IsIntact :
    (role group : Text) (db db' : AuthDb)
    → assign_role_group role group db ≡ ok db'
    → IsIntact db
    → IsIntact db'
unfolding assign_role_group
assign_role_group-IsIntact role group db db' e h =
    let (rows, (done, same)) =
      saved-eq (λ (rows : List RoleGroup). record db { role_groups = rows }) _ db' e in
    rw same (record {
      users_key = h.users_key;
      groups_key = h.groups_key;
      roles_key = h.roles_key;
      members = h.members;
      user_roles = h.user_roles;
      group_roles =
          IsLinked-insert own_name own_name group_role role_group db.roles db.groups
            (record { rolename = role; groupname = group }) db.role_groups rows done h.group_roles;
      ruled = h.ruled;
    })
