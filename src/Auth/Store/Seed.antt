-- ===== src/Auth/Store/Seed.antt =====
-- services/auth/internal/store/store.go: SeedAdmin.
use giti.Prelude.{
  ◌≡◌, refl, ◌∙◌, true, List, [], ◌∷◌, ◌++◌, Text, codes, ok, arith, inl, inr, Bool-cases,
}
use giti.Rows.{any_row, unique, insert_new, has_key, same_key}
use giti.Rows.Laws.{
  text_eq_refl, text_eq_sym, any_row-append, any_row-eq, same_key_sym, unique-append,
}
use giti.Rows.Links.{IsLinked-grown, refers, same_pair}
use giti.Auth.Check.{User}
use giti.Auth.Store.{
  AuthDb, RoleUser, user_name, own_name, member_user, member_group, user_role, role_user,
  group_role, role_group, insert_role_user, with_role_users, then_save, seed_role, seed_roles,
  seed_admin,
}
use giti.Auth.Store.Intact.{IsIntact, stays}
use giti.Auth.Store.Intact.Roles.{with_role_users-IsIntact}
use giti.Auth.Store.Grants.{is_granted, is_given-there}

-- What an insertion that leaves a conflict alone gives, where the row has no references.
record IsEnsured {A : Type 0} (key : A → Text) (x : A) (xs ys : List A) : Type 0 where
  inserted : insert_new (same_key key) true x xs ≡ ok ys
  there : any_row (has_key key (key x)) ys ≡ true
  grows : (k : Text) → any_row (has_key key k) xs ≡ true → any_row (has_key key k) ys ≡ true
  distinct : unique (same_key key) xs ≡ true → unique (same_key key) ys ≡ true

any_row-same_key :
    {A : Type 0} (key : A → Text) (x : A) (xs : List A)
    → any_row (has_key key (key x)) xs ≡ any_row (same_key key x) xs
unfolding has_key same_key
any_row-same_key key x xs =
    any_row-eq (has_key key (key x)) (same_key key x) (λ y. text_eq_sym (key y) (key x)) xs

ensured :
    {A : Type 0} (key : A → Text) (x : A) (xs : List A) → (ys : List A) × IsEnsured key x xs ys
unfolding insert_new has_key
ensured key x xs = elim (Bool-cases (any_row (same_key key x) xs)) [
  | inl found ↦ (
    xs,
    record {
      inserted = rw found refl;
      there = any_row-same_key key x xs ∙ found;
      grows = λ k h. h;
      distinct = λ h. h;
    },
  )
  | inr absent ↦ (
    xs ++ (x ∷ []),
    record {
      inserted = rw absent refl;
      there =
          any_row-append (has_key key (key x)) xs (x ∷ [])
          ∙ rw (text_eq_refl (key x)) (ground arith);
      grows = λ k h. any_row-append (has_key key k) xs (x ∷ []) ∙ rw h refl;
      distinct = λ h. unique-append (same_key key) (same_key_sym key) x xs h absent;
    },
  )
]

role_inserted :
    (db : AuthDb) (role user : Text)
    → any_row (has_key own_name role) db.roles ≡ true
    → any_row (has_key user_name user) db.users ≡ true
    → (rows : List RoleUser) × (insert_role_user role user db ≡ ok rows)
unfolding insert_role_user insert_new refers
role_inserted db role user r u =
    let new : RoleUser = record { rolename = role; username = user } in
    elim (Bool-cases (any_row (same_pair user_role role_user new) db.role_users)) [
      | inl found ↦ (db.role_users, rw found refl)
      | inr absent ↦ (db.role_users ++ (new ∷ []), rw (absent, r, u) refl)
    ]

-- What SeedAdmin promises of the database that it leaves.
pub record IsSeeded (db db' : AuthDb) : Type 0 where
  pub admin_there : any_row (has_key user_name (codes "admin")) db'.users ≡ true
  pub admin_granted : is_granted (codes "ADMIN") (codes "admin") db' ≡ true
  pub users_kept :
      (k : Text)
      → any_row (has_key user_name k) db.users ≡ true
      → any_row (has_key user_name k) db'.users ≡ true
  pub intact_kept : IsIntact db → IsIntact db'

-- SeedAdmin always succeeds: a user admin is there then, who has the role ADMIN; no user is lost, and
-- keys and references hold if they did before.
pub seed_admin-IsSeeded :
    (hash : Text) (db : AuthDb)
    → (db' : AuthDb) × ((seed_admin hash db ≡ (ok db', db')) × IsSeeded db db')
unfolding seed_admin seed_roles seed_role then_save is_granted
seed_admin-IsSeeded hash db =
    let admin : User = record { name = codes "admin"; password_hash = hash; enabled = true } in
    let (users, u) = ensured user_name admin db.users in
    let (roles, r) = ensured own_name (codes "ADMIN") db.roles in
    let seeded : AuthDb = record db { users = users; roles = roles } in
    let (rows, done) = role_inserted seeded (codes "ADMIN") (codes "admin") r.there u.there in
    (
      with_role_users seeded rows,
      (
        rw (u.inserted, r.inserted, done) refl,
        record {
          admin_there = u.there;
          admin_granted = rw (is_given-there (codes "ADMIN") (codes "admin") seeded rows done) refl;
          users_kept = u.grows;
          intact_kept = λ h.
              with_role_users-IsIntact (codes "ADMIN") (codes "admin") seeded rows done (record {
                users_key = u.distinct h.users_key;
                groups_key = h.groups_key;
                roles_key = r.distinct h.roles_key;
                members =
                    IsLinked-grown user_name own_name member_user member_group db.users users
                      db.groups db.groups db.user_groups u.grows (stays own_name db.groups)
                      h.members;
                user_roles =
                    IsLinked-grown own_name user_name user_role role_user db.roles roles db.users
                      users db.role_users r.grows u.grows h.user_roles;
                group_roles =
                    IsLinked-grown own_name own_name group_role role_group db.roles roles db.groups
                      db.groups db.role_groups r.grows (stays own_name db.groups) h.group_roles;
                ruled = h.ruled;
              });
        },
      ),
    )
