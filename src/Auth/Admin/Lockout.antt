-- ===== src/Auth/Admin/Lockout.antt =====
-- services/auth/internal/api: who can log in after users were created or deleted.
use giti.Prelude.{
  ◌≡◌, refl, ap, subst, ◌∙◌, Bool, true, false, Option, none, some, List, [], ◌∷◌, ◌++◌, Text,
  text_eq, text_eq_iff, codes, Result, ok, err, all_of, inl, inr, Bool-cases, and-eq-true,
}
use giti.Rows.{
  StoreError, any_row, keep, drop_rows, insert_row, has_key, same_key, query_row, order_by,
}
use giti.Rows.Laws.{text_eq_refl, text_eq_sym, any_row-eq}
use giti.Rows.Inserts.{affected-eq, saved-eq, insert_row-eq}
use giti.Auth.Check.{User, is_valid_login, with_login}
use giti.Auth.Store.{
  AuthDb, UserGroup, RoleUser, RoleGroup, user_name, member_user, role_user, create_user, get_user,
  delete_user, joins, joined, distinct, granted, roles_of,
}
use giti.Auth.Store.Intact.{IsIntact}
use giti.Auth.Admin.{
  reply, message, Decoders, ok_of, backing_of, issued, login_user, login_body_reply, token_ttl,
}

keep-drop_rows_none : {A : Type 0} (p : A → Bool) (xs : List A) → keep p (drop_rows p xs) ≡ []
unfolding keep drop_rows
keep-drop_rows_none p [] = refl
keep-drop_rows_none p (x ∷ xs) = elim (Bool-cases (p x)) [
  | inl gone ↦ rw gone (keep-drop_rows_none p xs)
  | inr kept ↦ rw (kept, kept) (keep-drop_rows_none p xs)
]

get_user-delete_user :
    (name : Text) (db db' : AuthDb)
    → delete_user name db ≡ ok db'
    → ok_of (get_user name db') ≡ none
unfolding delete_user get_user query_row ok_of
get_user-delete_user name db db' e =
    let (found, gone) = affected-eq (any_row (has_key user_name name) db.users) _ db' e in
    rw gone (rw (keep-drop_rows_none (has_key user_name name) db.users) refl)

-- Rows that refer to rows that are there do not refer to a missing one.
keep-dangling :
    {A B : Type 0} (key : A → Text) (ref : B → Text) (k : Text) (ts : List A) (rs : List B)
    → any_row (has_key key k) ts ≡ false
    → all_of (λ (r : B). any_row (has_key key (ref r)) ts) rs ≡ true
    → (p : B → Bool) → ((r : B) → p r ≡ true → text_eq (ref r) k ≡ true)
    → keep p rs ≡ []
unfolding keep
keep-dangling key ref k ts [] h e p f = refl
keep-dangling key ref k ts (r ∷ rs) h e p f =
    let (here, rest) =
      and-eq-true (any_row (has_key key (ref r)) ts)
        (all_of (λ (s : _). any_row (has_key key (ref s)) ts) rs) e in
    elim (Bool-cases (p r)) [
      | inl chosen ↦
          let same : ref r ≡ k = (text_eq_iff (ref r) k).0 (f r chosen) in
          let there : any_row (has_key key k) ts ≡ true =
            subst (λ (x : Text). any_row (has_key key x) ts ≡ true) same here in
          cc (there, h)
      | inr passed ↦ rw passed (keep-dangling key ref k ts rs h rest p f)
    ]

joined-none :
    (user : Text) (ugs : List UserGroup) (rgs : List RoleGroup)
    → ((rg : RoleGroup) → keep (joins user rg) ugs ≡ [])
    → joined user ugs rgs ≡ []
unfolding joined
joined-none user ugs [] h = refl
joined-none user ugs (rg ∷ rgs) h = rw (h rg, joined-none user ugs rgs h) refl

own :
    (r : RoleUser) (user : Text) → has_key role_user user r ≡ true → text_eq r.username user ≡ true
unfolding has_key
own r user e = e

member :
    (rg : RoleGroup) (ug : UserGroup) (user : Text)
    → joins user rg ug ≡ true
    → text_eq ug.username user ≡ true
unfolding joins
member rg ug user e = (and-eq-true (text_eq ug.groupname rg.groupname) _ e).1

-- A name without a user has no roles.
roles_of-missing :
    (collate : Text → Text → Bool) (user : Text) (db : AuthDb)
    → IsIntact db
    → any_row (has_key user_name user) db.users ≡ false
    → roles_of collate user db ≡ []
unfolding roles_of granted distinct order_by
roles_of-missing collate user db h absent =
    let direct =
      keep-dangling user_name role_user user db.users db.role_users absent h.user_roles.rights
        (has_key role_user user) (λ (r : RoleUser) e. own r user e) in
    let through : (rg : RoleGroup) → keep (joins user rg) db.user_groups ≡ [] = λ rg.
      keep-dangling user_name member_user user db.users db.user_groups absent h.members.lefts
        (joins user rg) (λ (ug : UserGroup) e. member rg ug user e) in
    rw (direct, joined-none user db.user_groups db.role_groups through) refl

roles_of-users :
    (collate : Text → Text → Bool) (user : Text) (db : AuthDb) (rows : List User)
    → roles_of collate user (record db { users = rows }) ≡ roles_of collate user db
unfolding roles_of granted
roles_of-users collate user db rows = refl

keep-append_first :
    (u : User) (us : List User)
    → any_row (has_key user_name u.name) us ≡ false
    → keep (has_key user_name u.name) (us ++ (u ∷ [])) ≡ u ∷ []
unfolding keep any_row has_key
keep-append_first u [] h = rw (text_eq_refl u.name) refl
keep-append_first u (x ∷ us) h = elim (Bool-cases (text_eq x.name u.name)) [
  | inl found ↦ cc (rw found at h)
  | inr other ↦ rw other (keep-append_first u us (rw other at h))
]

keep-insert_row :
    (u : User) (us us' : List User)
    → insert_row (same_key user_name) true u us ≡ ok us'
    → (any_row (has_key user_name u.name) us ≡ false)
      × (keep (has_key user_name u.name) us' ≡ u ∷ [])
unfolding has_key same_key
keep-insert_row u us us' h =
    let (absent, referred, whole) = insert_row-eq (same_key user_name) true u us us' h in
    let missing : any_row (has_key user_name u.name) us ≡ false =
      any_row-eq (has_key user_name u.name) (same_key user_name u)
        (λ (x : User). text_eq_sym x.name u.name) us
      ∙ absent in
    (missing, rw whole (keep-append_first u us missing))

module _ (d : Decoders) (collate : Text → Text → Bool) where
  login_user-missing :
      (password : Text) (db : AuthDb) (m : Result StoreError User)
      → ok_of m ≡ none
      → login_user d collate password db m ≡ reply 401 (message (codes "invalid credentials"))
  unfolding login_user ok_of
  login_user-missing password db (ok u) h = cc
  login_user-missing password db (err e) h = refl

  -- Once a user is deleted, the name neither logs in nor is authenticated by Basic credentials, with
  -- any password.
  pub delete_user-locked_out :
      (verify_token : Text → Option (Text × List Text)) (decode_base64 : Text → Option Text)
      (name password : Text) (db db' : AuthDb)
      → delete_user name db ≡ ok db'
      → (login_body_reply d collate (some record { username = name; password = password }) db'
          ≡ reply 401 (message (codes "invalid credentials")))
        × (with_login (backing_of d collate verify_token decode_base64 db') (some (name, password))
            ≡ none)
  unfolding login_body_reply login_user backing_of with_login is_valid_login
  delete_user-locked_out verify_token decode_base64 name password db db' e =
      let missing = get_user-delete_user name db db' e in
      (login_user-missing password db' (get_user name db') missing, rw missing refl)

  -- Where keys and references hold, an enabled user that was just created logs in with a password
  -- that the hash verifies, and the token is issued for no roles: those of an earlier user of that
  -- name are gone.
  pub create_user-login :
      (u : User) (password : Text) (db db' : AuthDb)
      → IsIntact db
      → create_user u db ≡ ok db'
      → u.enabled ≡ true
      → d.verify password u.password_hash ≡ true
      → login_body_reply d collate (some record { username = u.name; password = password }) db'
        ≡ issued d collate (d.issue u.name [] token_ttl)
  unfolding create_user login_body_reply login_user get_user query_row
  create_user-login u password db db' h e enabled verified =
      let (rows, (done, same)) =
        saved-eq (λ (rows : List User). record db { users = rows })
          (insert_row (same_key user_name) true u db.users) db' e in
      let (absent, found) = keep-insert_row u db.users rows done in
      let roles : roles_of collate u.name (record db { users = rows }) ≡ [] =
        roles_of-users collate u.name db rows ∙ roles_of-missing collate u.name db h absent in
      rw same (
        rw found (
          rw (enabled, verified)
            (ap (λ (rs : List Text). issued d collate (d.issue u.name rs token_ttl)) roles)))
