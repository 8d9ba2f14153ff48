-- ===== src/Auth/Check.antt =====
-- services/auth/internal/api/check.go: who asks, and what the rules answer. The database, the
-- password hashes, the tokens and base64 are those of `Backing`.
pub mod Cached
use giti.Prelude.{
  ℕ, Bool, false, ◌&&◌, Option, none, some, List, [], ◌∷◌, ◌==◌, if◌then◌else◌, Text, codes, join,
}
use giti.Ows.Request.{Table, find, put}
use giti.Ows.Exception.{has_prefix}
use giti.Auth.Rules.{Rule, Subject, Query, Decision, evaluate}

pub record User : Type 0 where
  pub name : Text
  pub password_hash : Text
  pub enabled : Bool

pub record Backing : Type 0 where
  pub get_user : Text → Option User
  pub roles_of : Text → List Text
  pub list_rules : Option (List Rule)
  pub verify_password : Text → Text → Bool
  pub verify_token : Text → Option (Text × List Text)
  pub decode_base64 : Text → Option Text

-- `strings.TrimPrefix`, of a prefix that is there.
unfoldable pub without : Text → Text → Text
without [] s = s
without (c ∷ p) [] = []
without (c ∷ p) (x ∷ s) = without p s

-- `strings.Cut(s, ":")`
unfoldable pub prepend : ℕ → Option (Text × Text) → Option (Text × Text)
prepend c none = none
prepend c (some (a, b)) = some (c ∷ a, b)

unfoldable pub cut_colon : Text → Option (Text × Text)
unfolding prepend
cut_colon [] = none
cut_colon (c ∷ s) = let rest = cut_colon s in if c == b':' then some ([], s) else prepend c rest

module _ (b : Backing) where
  -- The test of a password, by `check` and `login` alike.
  unfoldable pub is_valid_login : Option User → Text → Bool
  is_valid_login none pw = false
  is_valid_login (some u) pw = u.enabled && b.verify_password pw u.password_hash

  unfoldable pub with_login : Option (Text × Text) → Option Subject
  unfolding is_valid_login
  with_login none = none
  with_login (some (name, pw)) =
      if is_valid_login (b.get_user name) pw
      then some record { username = name; roles = b.roles_of name }
      else none

  unfoldable pub with_basic : Option Text → Option Subject
  unfolding with_login cut_colon
  with_basic none = none
  with_basic (some raw) = with_login (cut_colon raw)

  unfoldable pub with_token : Option (Text × List Text) → Option Subject
  with_token none = none
  with_token (some (name, roles)) = some record { username = name; roles = roles }

  abbrev pub anonymous : Subject
  anonymous = record { username = []; roles = [] }

  unfoldable pub authenticate : Text → Option Subject
  unfolding has_prefix without with_basic with_token
  authenticate h =
      if has_prefix h (codes "Basic ")
      then with_basic (b.decode_base64 (without (codes "Basic ") h))
      else if has_prefix h (codes "Bearer ")
      then with_token (b.verify_token (without (codes "Bearer ") h))
      else some anonymous

-- The object that `check` answers with: a field that is nothing is left out.
pub record CheckOutput : Type 0 where
  pub allow : Bool
  pub user : Text
  pub roles : List Text
  pub cql_read : Option Text
  pub cql_write : Option Text
  pub attributes : Option (List Text)

-- `if v != "" { out[...] = v }`
unfoldable pub nonempty : {A : Type 0} → List A → Option (List A)
nonempty [] = none
nonempty (c ∷ v) = some (c ∷ v)

unfoldable pub output : Subject → Decision → CheckOutput
unfolding nonempty
output sub d = record {
  allow = d.allow;
  user = sub.username;
  roles = sub.roles;
  cql_read = nonempty d.cql_read;
  cql_write = nonempty d.cql_write;
  attributes = nonempty d.attributes;
}

-- The status and the body of an answer. `W` is the type of the bytes that JSON is written to.
pub data Answer (W : Type 0) : Type 0 where
  unauthorized : Answer W
  failed : Answer W
  decided : W → Answer W

-- The cache: the generation of the keys, and the entries that have not expired.
pub record Cache (W : Type 0) : Type 0 where
  pub generation : Text
  pub entries : Table W

unfoldable pub cache_key : Text → Subject → Query → Text
unfolding join
cache_key gen sub q =
    join (codes ":")
      (codes "authz" ∷ gen ∷ sub.username ∷ q.service ∷ q.request ∷ q.workspace ∷ q.layer ∷ [])

module _ {W : Type 0} (b : Backing) (default_allow : Bool) (marshal : CheckOutput → W) where
  -- The answer from the rules, where nothing is cached.
  unfoldable pub compute : Option (List Rule) → Subject → Query → Answer W
  unfolding evaluate output
  compute none sub q = failed
  compute (some rs) sub q = decided (marshal (output sub (evaluate rs sub q default_allow)))

  unfoldable pub remember : Text → Answer W → Cache W → Cache W
  unfolding put
  remember key (decided body) rdb = record rdb { entries = put key body rdb.entries }
  remember key _ rdb = rdb

  unfoldable pub check_cached : Option W → Text → Subject → Query → Cache W → Answer W × Cache W
  unfolding compute remember
  check_cached (some cached) key sub q rdb = (decided cached, rdb)
  check_cached none key sub q rdb =
      let answer = compute b.list_rules sub q in (answer, remember key answer rdb)

  -- With a cache or without one.
  unfoldable pub check_subject : Subject → Query → Option (Cache W) → Answer W × Option (Cache W)
  unfolding check_cached cache_key find
  check_subject sub q none = (compute b.list_rules sub q, none)
  check_subject sub q (some rdb) =
      let key = cache_key rdb.generation sub q in
      let done = check_cached (find key rdb.entries) key sub q rdb in (done.0, some done.1)

  unfoldable pub check_authenticated :
      Option Subject → Query → Option (Cache W) → Answer W × Option (Cache W)
  unfolding check_subject
  check_authenticated none q rdb = (unauthorized, rdb)
  check_authenticated (some sub) q rdb = check_subject sub q rdb

  unfoldable pub check : Text → Query → Option (Cache W) → Answer W × Option (Cache W)
  unfolding check_authenticated authenticate
  check authorization q rdb = check_authenticated (authenticate b authorization) q rdb
