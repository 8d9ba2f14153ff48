-- ===== src/Auth/Admin.antt =====
-- services/auth/internal/api: security.go, geofence.go, api.go's bumpGen and check.go's login. JSON and
-- XML are those of `Decoders` and of the types of `Body`, which name what is encoded.
pub mod Settled
pub mod Lockout
pub mod Current
mod Tests
use giti.Prelude.{
  ℕ, ◌+◌, ℤ, Bool, true, false, not, ◌&&◌, ◌||◌, Option, none, some, List, [], ◌∷◌, map, Text,
  codes, text_eq, atoi, if◌then◌else◌, length, Result, ok, err,
}
use giti.Rows.{StoreError, not_found, conflict, passed}
use giti.Auth.Rules.{Rule}
use giti.Auth.Check.{User, Backing}
use giti.Auth.Store.{
  AuthDb, create_user, get_user, delete_user, create_role, delete_role, assign_role_user,
  create_rule, is_access, list_rules, delete_rule, list_users, list_roles, roles_of,
}

-- `userJSON`
pub record UserJson : Type 0 where
  pub user_name : Text
  pub enabled : Bool

-- The bodies of createUser and login.
pub record UserBody : Type 0 where
  pub user_name : Text
  pub password : Text
  pub enabled : Bool

pub record LoginBody : Type 0 where
  pub username : Text
  pub password : Text

-- What is written: nothing, a message, the error of the store or of another
-- package, or what an encoder is given.
pub data Body : Type 0 where
  empty_body : Body
  message : Text → Body
  store_error : StoreError → Body
  other_error : Body
  users_json : List UserJson → Body
  users_xml : List UserJson → Body
  roles_json : List Text → Body
  roles_xml : List Text → Body
  rules_json : ℕ → List Rule → Body
  id_json : ℕ → Body
  token_json : Text → ℕ → Body

pub record Reply : Type 0 where
  pub status : ℕ
  pub body : Body

-- The database, and `authz:gen` where there is a Redis.
pub record Service : Type 0 where
  pub db : AuthDb
  pub generation : Option ℕ

-- The JSON decoder, the password hash and the tokens; `hash` may fail for want of random bytes.
pub record Decoders : Type 0 where
  pub user_body : Text → Option UserBody
  pub rule_body : Text → Option Rule
  pub login_body : Text → Option LoginBody
  pub hash : Text → Option Text
  pub verify : Text → Text → Bool
  pub issue : Text → List Text → ℕ → Option Text

abbrev pub reply : ℕ → Body → Reply
reply status body = record { status = status; body = body }

unfoldable pub http_err : StoreError → Reply
http_err not_found = reply 404 (store_error not_found)
http_err conflict = reply 409 (store_error conflict)
http_err (passed e) = reply 500 (store_error (passed e))

unfoldable pub next_generation : Option ℕ → Option ℕ
next_generation none = none
next_generation (some g) = some (g + 1)

unfoldable pub bump_gen : Service → Service
unfolding next_generation
bump_gen s = record s { generation = next_generation s.generation }

-- The patterns of checkRoutes, securityRoutes and geofenceRoutes, with their path values, the body,
-- and what wantsJSON answers.
pub data Call : Type 0 where
  login : Text → Call
  get_users : Bool → Call
  post_user : Text → Call
  remove_user : Text → Call
  get_roles : Bool → Call
  post_role : Text → Call
  remove_role : Text → Call
  associate_role : Text → Text → Call
  get_rules : Call
  post_rule : Text → Call
  remove_rule : Text → Call

-- What each handler does with what the store returns.
unfoldable pub answer_change : ℕ → Service → Result StoreError AuthDb → Reply × Service
unfolding http_err bump_gen
answer_change status s (ok db) = (reply status empty_body, bump_gen (record s { db = db }))
answer_change status s (err e) = (http_err e, s)

unfoldable pub user_json : User → UserJson
user_json u = record { user_name = u.name; enabled = u.enabled }

unfoldable pub answer_rule : Service → Result StoreError ℕ × AuthDb → Reply × Service
unfolding http_err bump_gen
answer_rule s (ok n, db) = (reply 201 (id_json n), bump_gen (record s { db = db }))
answer_rule s (err e, db) = (http_err e, record s { db = db })

-- 8 hours, in seconds.
abbrev pub token_ttl : ℕ
token_ttl = 28800

module _ (d : Decoders) (collate : Text → Text → Bool) where
  unfoldable pub list_users_reply : Bool → AuthDb → Reply
  unfolding list_users user_json
  list_users_reply wants_json db =
      let out = map user_json (list_users collate db) in
      if wants_json then reply 200 (users_json out) else reply 200 (users_xml out)

  unfoldable pub create_hashed : UserBody → Option Text → Service → Reply × Service
  unfolding create_user answer_change
  create_hashed u none s = (reply 500 (other_error), s)
  create_hashed u (some hash) s =
      answer_change 201 s (
        create_user (record { name = u.user_name; enabled = u.enabled; password_hash = hash }) s.db)

  unfoldable pub create_user_body : Option UserBody → Service → Reply × Service
  unfolding create_hashed text_eq
  create_user_body none s = (reply 400 (message (codes "invalid user body")), s)
  create_user_body (some u) s =
      if text_eq u.user_name []
      then (reply 400 (message (codes "invalid user body")), s)
      else create_hashed u (d.hash u.password) s

  unfoldable pub list_roles_reply : Bool → AuthDb → Reply
  unfolding list_roles
  list_roles_reply wants_json db =
      let roles = list_roles collate db in
      if wants_json then reply 200 (roles_json roles) else reply 200 (roles_xml roles)

  unfoldable pub list_rules_reply : AuthDb → Reply
  unfolding list_rules
  list_rules_reply db = let rs = list_rules db in reply 200 (rules_json (length rs) rs)

  unfoldable pub create_rule_body : Option Rule → Service → Reply × Service
  unfolding create_rule answer_rule text_eq
  create_rule_body none s = (reply 400 (message (codes "invalid rule body")), s)
  create_rule_body (some b) s =
      if not (text_eq b.access (codes "ALLOW"))
        && not (text_eq b.access (codes "DENY"))
        && not (text_eq b.access (codes "LIMIT"))
      then (reply 400 (message (codes "access must be ALLOW, DENY or LIMIT")), s)
      else answer_rule s (create_rule b s.db)

  unfoldable pub delete_rule_id : Option ℤ → Service → Reply × Service
  unfolding delete_rule answer_change
  delete_rule_id none s = (reply 400 (message (codes "invalid id")), s)
  delete_rule_id (some n) s = answer_change 200 s (delete_rule n s.db)

  -- The tests of login on what GetUser returns, then RolesOf and Issue.
  unfoldable pub issued : Option Text → Reply
  issued none = reply 500 (other_error)
  issued (some tok) = reply 200 (token_json tok token_ttl)

  unfoldable pub login_user : Text → AuthDb → Result StoreError User → Reply
  unfolding issued roles_of
  login_user password db (err e) = reply 401 (message (codes "invalid credentials"))
  login_user password db (ok u) =
      if u.enabled && d.verify password u.password_hash
      then issued (d.issue u.name (roles_of collate u.name db) token_ttl)
      else reply 401 (message (codes "invalid credentials"))

  unfoldable pub login_body_reply : Option LoginBody → AuthDb → Reply
  unfolding login_user get_user
  login_body_reply none db = reply 400 (message (codes "invalid body"))
  login_body_reply (some b) db = login_user b.password db (get_user b.username db)

  unfoldable pub delete_user_reply : Text → Service → Reply × Service
  unfolding delete_user answer_change
  delete_user_reply u s = answer_change 200 s (delete_user u s.db)

  unfoldable pub create_role_reply : Text → Service → Reply × Service
  unfolding create_role answer_change
  create_role_reply r s = answer_change 201 s (create_role r s.db)

  unfoldable pub delete_role_reply : Text → Service → Reply × Service
  unfolding delete_role answer_change
  delete_role_reply r s = answer_change 200 s (delete_role r s.db)

  unfoldable pub associate_role_reply : Text → Text → Service → Reply × Service
  unfolding assign_role_user answer_change
  associate_role_reply r u s = answer_change 200 s (assign_role_user r u s.db)

  unfoldable pub serve : Call → Service → Reply × Service
  unfolding list_users_reply create_user_body list_roles_reply list_rules_reply create_rule_body
      delete_rule_id login_body_reply delete_user_reply create_role_reply delete_role_reply
      associate_role_reply
  serve (login body) s = (login_body_reply (d.login_body body) s.db, s)
  serve (get_users wants_json) s = (list_users_reply wants_json s.db, s)
  serve (post_user body) s = create_user_body (d.user_body body) s
  serve (remove_user u) s = delete_user_reply u s
  serve (get_roles wants_json) s = (list_roles_reply wants_json s.db, s)
  serve (post_role r) s = create_role_reply r s
  serve (remove_role r) s = delete_role_reply r s
  serve (associate_role r u) s = associate_role_reply r u s
  serve get_rules s = (list_rules_reply s.db, s)
  serve (post_rule body) s = create_rule_body (d.rule_body body) s
  serve (remove_rule id) s = delete_rule_id (atoi id) s

-- What `check` asks of the store.
unfoldable pub ok_of : {A : Type 0} → Result StoreError A → Option A
ok_of (ok a) = some a
ok_of (err e) = none

unfoldable pub backing_of :
    Decoders
    → (Text → Text → Bool)
    → (Text → Option (Text × List Text))
    → (Text → Option Text)
    → AuthDb
    → Backing
unfolding ok_of get_user roles_of list_rules
backing_of d collate verify_token decode_base64 db = record {
  get_user = λ name. ok_of (get_user name db);
  roles_of = λ name. roles_of collate name db;
  list_rules = some (list_rules db);
  verify_password = d.verify;
  verify_token = verify_token;
  decode_base64 = decode_base64;
}
