-- ===== src/Auth/Store/Intact/Changes.antt =====
-- services/auth/internal/store/store.go: the methods that write, as the steps of the database.
use giti.Prelude.{ℤ, ◌≡◌, Text, ok}
use giti.Rows.{}
use giti.Rows.Links.{}
use giti.Auth.Rules.{Rule}
use giti.Auth.Check.{User}
use giti.Auth.Store.{
  AuthDb, create_user, update_user, delete_user, create_group, delete_group, add_user_to_group,
  create_role, delete_role, assign_role_user, assign_role_group, create_rule, delete_rule,
}
use giti.Auth.Store.Intact.{IsIntact}
use giti.Auth.Store.Intact.Users.{
  create_user-IsIntact, update_user-IsIntact, delete_user-IsIntact, create_group-IsIntact,
  delete_group-IsIntact, add_user_to_group-IsIntact,
}
use giti.Auth.Store.Intact.Roles.{
  create_role-IsIntact, delete_role-IsIntact, assign_role_user-IsIntact, assign_role_group-IsIntact,
}
use giti.Auth.Store.Intact.Rules.{create_rule-IsIntact, delete_rule-IsIntact}

-- One change of the store: a method that returned no error, or CreateRule, which may draw a value for
-- a rule that is refused.
pub data Change : AuthDb → AuthDb → Type 0 where
  creates_user : {db db' : AuthDb} (u : User) → create_user u db ≡ ok db' → Change db db'
  updates_user :
      {db db' : AuthDb} (name : Text) (u : User) → update_user name u db ≡ ok db' → Change db db'
  deletes_user : {db db' : AuthDb} (name : Text) → delete_user name db ≡ ok db' → Change db db'
  creates_group : {db db' : AuthDb} (name : Text) → create_group name db ≡ ok db' → Change db db'
  deletes_group : {db db' : AuthDb} (name : Text) → delete_group name db ≡ ok db' → Change db db'
  adds_user :
      {db db' : AuthDb} (user group : Text)
      → add_user_to_group user group db ≡ ok db'
      → Change db db'
  creates_role : {db db' : AuthDb} (name : Text) → create_role name db ≡ ok db' → Change db db'
  deletes_role : {db db' : AuthDb} (name : Text) → delete_role name db ≡ ok db' → Change db db'
  assigns_user :
      {db db' : AuthDb} (role user : Text) → assign_role_user role user db ≡ ok db' → Change db db'
  assigns_group :
      {db db' : AuthDb} (role group : Text)
      → assign_role_group role group db ≡ ok db'
      → Change db db'
  creates_rule : {db : AuthDb} (r : Rule) → Change db (create_rule r db).1
  deletes_rule : {db db' : AuthDb} (n : ℤ) → delete_rule n db ≡ ok db' → Change db db'

-- Where names and identifiers are unique, every membership and assignment has the rows that it refers
-- to, and rules have drawn identifiers and valid accesses, all this holds after every change of the
-- store, a deletion that cascades included.
pub Change-IsIntact : {db db' : AuthDb} → Change db db' → IsIntact db → IsIntact db'
Change-IsIntact (creates_user u e) h = create_user-IsIntact u _ _ e h
Change-IsIntact (updates_user name u e) h = update_user-IsIntact name u _ _ e h
Change-IsIntact (deletes_user name e) h = delete_user-IsIntact name _ _ e h
Change-IsIntact (creates_group name e) h = create_group-IsIntact name _ _ e h
Change-IsIntact (deletes_group name e) h = delete_group-IsIntact name _ _ e h
Change-IsIntact (adds_user user group e) h = add_user_to_group-IsIntact user group _ _ e h
Change-IsIntact (creates_role name e) h = create_role-IsIntact name _ _ e h
Change-IsIntact (deletes_role name e) h = delete_role-IsIntact name _ _ e h
Change-IsIntact (assigns_user role user e) h = assign_role_user-IsIntact role user _ _ e h
Change-IsIntact (assigns_group role group e) h = assign_role_group-IsIntact role group _ _ e h
Change-IsIntact (creates_rule r) h = create_rule-IsIntact r _ h
Change-IsIntact (deletes_rule n e) h = delete_rule-IsIntact n _ _ e h
