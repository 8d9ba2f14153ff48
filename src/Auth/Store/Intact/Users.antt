-- ===== src/Auth/Store/Intact/Users.antt =====
-- services/auth/internal/store/store.go: users and groups.
use giti.Prelude.{◌≡◌, refl, ◌∙◌, true, not, List, Text, ok}
use giti.Rows.{any_row, drop_rows, update_rows, insert_row, has_key, same_key}
use giti.Rows.Laws.{same_key_sym, unique-keep}
use giti.Rows.Inserts.{insert_row-unique, saved-eq, affected-eq}
use giti.Rows.Updates.{unique-update_rows, any_row-update_rows}
use giti.Rows.Links.{IsLinked-grown, IsLinked-drop_left, IsLinked-drop_right, IsLinked-insert}
use giti.Auth.Check.{User}
use giti.Auth.Store.{
  AuthDb, UserGroup, user_name, own_name, member_user, member_group, user_role, role_user,
  group_role, role_group, create_user, update_user, set_user, delete_user, create_group,
  delete_group, add_user_to_group,
}
use giti.Auth.Store.Intact.{IsIntact, insert-grows, stays}

pub create_user-IsIntact :
    (u : User) (db db' : AuthDb) → create_user u db ≡ ok db' → IsIntact db → IsIntact db'
unfolding create_user
create_user-IsIntact u db db' e h =
    let (rows, (done, same)) =
      saved-eq (λ (rows : List User). record db { users = rows })
        (insert_row (same_key user_name) true u db.users) db' e in
    let grows = insert-grows user_name u db.users rows done in
    rw same (record {
      users_key =
          insert_row-unique (same_key user_name) (same_key_sym user_name) true u db.users rows
            h.users_key done;
      groups_key = h.groups_key;
      roles_key = h.roles_key;
      members =
          IsLinked-grown user_name own_name member_user member_group db.users rows db.groups
            db.groups db.user_groups grows (stays own_name db.groups) h.members;
      user_roles =
          IsLinked-grown own_name user_name user_role role_user db.roles db.roles db.users rows
            db.role_users (stays own_name db.roles) grows h.user_roles;
      group_roles = h.group_roles;
      ruled = h.ruled;
    })

any_row-set_user :
    (name : Text) (u : User) (k : Text) (xs : List User)
    → any_row (has_key user_name k) (update_rows (has_key user_name name) (set_user u) xs)
      ≡ any_row (has_key user_name k) xs
unfolding set_user has_key
any_row-set_user name u k xs =
    any_row-update_rows (has_key user_name name) (set_user u) (has_key user_name k) (λ x e. refl) xs

pub update_user-IsIntact :
    (name : Text) (u : User) (db db' : AuthDb)
    → update_user name u db ≡ ok db'
    → IsIntact db
    → IsIntact db'
unfolding update_user set_user same_key
update_user-IsIntact name u db db' e h =
    let users = update_rows (has_key user_name name) (set_user u) db.users in
    let (found, same) =
      affected-eq (any_row (has_key user_name name) db.users) (record db { users = users }) db' e in
    let keeps : (k : Text)
        → any_row (has_key user_name k) db.users ≡ true
        → any_row (has_key user_name k) users ≡ true =
      λ k there. any_row-set_user name u k db.users ∙ there in
    rw same (record {
      users_key =
          unique-update_rows (has_key user_name name) (set_user u) (same_key user_name)
            (λ x y. refl) (λ x y. refl) db.users h.users_key;
      groups_key = h.groups_key;
      roles_key = h.roles_key;
      members =
          IsLinked-grown user_name own_name member_user member_group db.users users db.groups
            db.groups db.user_groups keeps (stays own_name db.groups) h.members;
      user_roles =
          IsLinked-grown own_name user_name user_role role_user db.roles db.roles db.users users
            db.role_users (stays own_name db.roles) keeps h.user_roles;
      group_roles = h.group_roles;
      ruled = h.ruled;
    })

pub delete_user-IsIntact :
    (name : Text) (db db' : AuthDb) → delete_user name db ≡ ok db' → IsIntact db → IsIntact db'
unfolding delete_user drop_rows
delete_user-IsIntact name db db' e h =
    let (found, same) =
      affected-eq (any_row (has_key user_name name) db.users)
        (record db {
          users = drop_rows (has_key user_name name) db.users;
          user_groups = drop_rows (has_key member_user name) db.user_groups;
          role_users = drop_rows (has_key role_user name) db.role_users;
        })
        db' e in
    rw same (record {
      users_key =
          unique-keep (same_key user_name) (λ (u : User). not (has_key user_name name u)) db.users
            h.users_key;
      groups_key = h.groups_key;
      roles_key = h.roles_key;
      members =
          IsLinked-drop_left user_name own_name member_user member_group name db.users db.groups
            db.user_groups h.members;
      user_roles =
          IsLinked-drop_right own_name user_name user_role role_user name db.roles db.users
            db.role_users h.user_roles;
      group_roles = h.group_roles;
      ruled = h.ruled;
    })

pub create_group-IsIntact :
    (name : Text) (db db' : AuthDb) → create_group name db ≡ ok db' → IsIntact db → IsIntact db'
unfolding create_group
create_group-IsIntact name db db' e h =
    let (rows, (done, same)) =
      saved-eq (λ (rows : List Text). record db { groups = rows })
        (insert_row (same_key own_name) true name db.groups) db' e in
    let grows = insert-grows own_name name db.groups rows done in
    rw same (record {
      users_key = h.users_key;
      groups_key =
          insert_row-unique (same_key own_name) (same_key_sym own_name) true name db.groups rows
            h.groups_key done;
      roles_key = h.roles_key;
      members =
          IsLinked-grown user_name own_name member_user member_group db.users db.users db.groups
            rows db.user_groups (stays user_name db.users) grows h.members;
      user_roles = h.user_roles;
      group_roles =
          IsLinked-grown own_name own_name group_role role_group db.roles db.roles db.groups rows
            db.role_groups (stays own_name db.roles) grows h.group_roles;
      ruled = h.ruled;
    })

pub delete_group-IsIntact :
    (name : Text) (db db' : AuthDb) → delete_group name db ≡ ok db' → IsIntact db → IsIntact db'
unfolding delete_group drop_rows
delete_group-IsIntact name db db' e h =
    let (found, same) =
      affected-eq (any_row (has_key own_name name) db.groups)
        (record db {
          groups = drop_rows (has_key own_name name) db.groups;
          user_groups = drop_rows (has_key member_group name) db.user_groups;
          role_groups = drop_rows (has_key role_group name) db.role_groups;
        })
        db' e in
    rw same (record {
      users_key = h.users_key;
      groups_key =
          unique-keep (same_key own_name) (λ (t : Text). not (has_key own_name name t)) db.groups
            h.groups_key;
      roles_key = h.roles_key;
      members =
          IsLinked-drop_right user_name own_name member_user member_group name db.users db.groups
            db.user_groups h.members;
      user_roles = h.user_roles;
      group_roles =
          IsLinked-drop_right own_name own_name group_role role_group name db.roles db.groups
            db.role_groups h.group_roles;
      ruled = h.ruled;
    })

pub add_user_to_group-IsIntact :
    (user group : Text) (db db' : AuthDb)
    → add_user_to_group user group db ≡ ok db'
    → IsIntact db
    → IsIntact db'
unfolding add_user_to_group
add_user_to_group-IsIntact user group db db' e h =
    let (rows, (done, same)) =
      saved-eq (λ (rows : List UserGroup). record db { user_groups = rows }) _ db' e in
    rw same (record {
      users_key = h.users_key;
      groups_key = h.groups_key;
      roles_key = h.roles_key;
      members =
          IsLinked-insert user_name own_name member_user member_group db.users db.groups
            (record { username = user; groupname = group }) db.user_groups rows done h.members;
      user_roles = h.user_roles;
      group_roles = h.group_roles;
      ruled = h.ruled;
    })
