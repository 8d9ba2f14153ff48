-- ===== src/Auth/Admin/Tests.antt =====
-- The store and the administration on a small database.
use giti.Prelude.{
  ltb_int, ◌≡◌, refl, pos, Bool, true, false, ◌&&◌, none, some, [], ◌∷◌, Text, codes, ltb, ◌==◌,
  if◌then◌else◌, text_eq, one_of, ok,
}
use giti.Rows.{
  any_row, keep, drop_rows, unique, insert_row, has_key, same_key, saved, affected, place, order_by,
}
use giti.Rows.Links.{same_pair}
use giti.Auth.Rules.{
  Rule, Subject, Query, denied, evaluate, matches, field_match, role_match, has_role, is_any,
}
use giti.Auth.Check.{User, with_login}
use giti.Auth.Store.{
  AuthDb, create_user, delete_user, create_rule, list_rules, roles_of, seed_admin, granted,
  distinct, joined, joins, is_access,
}
use giti.Auth.Store.Intact.{IsIntact, same_id, is_drawn}
use giti.Auth.Store.Intact.Changes.{deletes_user, Change-IsIntact}
use giti.Auth.Store.Grants.{is_granted, roles_of-granted}
use giti.Auth.Store.Seed.{IsSeeded, seed_admin-IsSeeded}
use giti.Auth.Store.Order.{create_rule-unmatched, create_rule-denies}
use giti.Auth.Admin.{
  Decoders, Service, reply, message, remove_user, serve, login_body_reply, issued, backing_of,
}
use giti.Auth.Admin.Settled.{IsSettled, serve-IsSettled}
use giti.Auth.Admin.Lockout.{delete_user-locked_out, create_user-login}

-- An order of texts: byte by byte.
abbrev before : Text → Text → Bool
before [] t = true
before (x ∷ s) [] = false
before (x ∷ s) (y ∷ t) = let rest = before s t in if x == y then rest else ltb x y

abbrev ann : User
ann = record { name = codes "ann"; password_hash = codes "#1"; enabled = true }

abbrev bob : User
bob = record { name = codes "bob"; password_hash = codes "#2"; enabled = true }

abbrev rule_of : Text → Text → Rule
rule_of layer access = record {
  id = 1;
  priority = pos 5;
  username = [];
  rolename = [];
  service = codes "WFS";
  request = [];
  workspace = [];
  layer = layer;
  access = access;
  cql_read = [];
  cql_write = [];
  attributes = [];
}

-- Ann has a role of her own, and another by her group.
abbrev small : AuthDb
small = record {
  users = ann ∷ [];
  groups = codes "staff" ∷ [];
  user_groups = record { username = codes "ann"; groupname = codes "staff" } ∷ [];
  roles = codes "reader" ∷ codes "editor" ∷ [];
  role_users = record { rolename = codes "reader"; username = codes "ann" } ∷ [];
  role_groups = record { rolename = codes "editor"; groupname = codes "staff" } ∷ [];
  rules = rule_of (codes "roads") (codes "ALLOW") ∷ [];
  next_id = 2;
}

abbrev without_ann : AuthDb
without_ann = record small { users = []; user_groups = []; role_users = [] }

abbrev with_bob : AuthDb
with_bob = record small { users = ann ∷ bob ∷ [] }

small-IsIntact : IsIntact small
unfolding unique any_row has_key same_key same_pair same_id is_drawn is_access text_eq
small-IsIntact = record {
  users_key = refl;
  groups_key = refl;
  roles_key = refl;
  members = record { distinct = refl; lefts = refl; rights = refl };
  user_roles = record { distinct = refl; lefts = refl; rights = refl };
  group_roles = record { distinct = refl; lefts = refl; rights = refl };
  ruled = record { key = refl; drawn = refl; access = refl };
}

ann-deleted : delete_user (codes "ann") small ≡ ok without_ann
unfolding delete_user affected any_row has_key drop_rows keep text_eq
ann-deleted = refl

bob-created : create_user bob small ≡ ok with_bob
unfolding create_user saved insert_row any_row same_key text_eq
bob-created = refl

ann-roles : roles_of before (codes "ann") small ≡ codes "editor" ∷ codes "reader" ∷ []
unfolding roles_of granted distinct joined joins order_by place keep has_key one_of text_eq
ann-roles = refl

abbrev decoders : Decoders
decoders = record {
  user_body = λ t. none;
  rule_body = λ t. none;
  login_body = λ t. none;
  hash = λ t. some (codes "#2");
  verify = λ pw h. text_eq pw (codes "secret");
  issue = λ name roles ttl. some name;
}

bob-verified : text_eq (codes "secret") (codes "secret") ≡ true
unfolding text_eq
bob-verified = refl

abbrev service : Service
service = record { db = small; generation = some 7 }

abbrev guest : Subject
guest = record { username = []; roles = [] }

abbrev asked : Query
asked = record {
  service = codes "WFS";
  request = codes "GetFeature";
  workspace = codes "city";
  layer = codes "roads";
}

-- A denial for a layer, before all other rules.
abbrev denial : Text → Rule
denial layer = record (rule_of layer (codes "DENY")) { priority = pos 1 }

denial-unmatched : matches (denial (codes "parcels")) guest asked ≡ false
unfolding matches field_match role_match has_role is_any text_eq
denial-unmatched = refl

denial-matched : matches (denial (codes "roads")) guest asked ≡ true
unfolding matches field_match role_match has_role is_any text_eq
denial-matched = refl

denial-first : ltb_int (pos 1) (pos 5) && true ≡ true
unfolding ltb_int
denial-first = refl

Change-IsIntact_example : IsIntact without_ann
Change-IsIntact_example = Change-IsIntact (deletes_user (codes "ann") ann-deleted) small-IsIntact

roles_of-granted_example :
    one_of (codes "editor") (roles_of before (codes "ann") small)
    ≡ is_granted (codes "editor") (codes "ann") small
roles_of-granted_example = roles_of-granted before (codes "editor") (codes "ann") small

seed_admin-IsSeeded_example :
    (db' : AuthDb) × ((seed_admin (codes "#0") small ≡ (ok db', db')) × IsSeeded small db')
seed_admin-IsSeeded_example = seed_admin-IsSeeded (codes "#0") small

create_rule-unmatched_example :
    evaluate (list_rules (create_rule (denial (codes "parcels")) small).1) guest asked true
    ≡ evaluate (list_rules small) guest asked true
create_rule-unmatched_example =
    create_rule-unmatched (denial (codes "parcels")) small guest asked true denial-unmatched

create_rule-denies_example :
    evaluate (list_rules (create_rule (denial (codes "roads")) small).1) guest asked true ≡ denied
create_rule-denies_example =
    create_rule-denies (denial (codes "roads")) small guest asked true refl denial-first
      denial-matched

serve-IsSettled_example :
    IsSettled service (serve decoders before (remove_user (codes "ann")) service)
serve-IsSettled_example = serve-IsSettled decoders before (remove_user (codes "ann")) service

delete_user-locked_out_example :
    (login_body_reply decoders before
        (some record { username = codes "ann"; password = codes "secret" })
        without_ann
      ≡ reply 401 (message (codes "invalid credentials")))
    × (with_login
          (backing_of decoders before (λ t. none) (λ t. none) without_ann)
          (some (codes "ann", codes "secret"))
        ≡ none)
delete_user-locked_out_example =
    delete_user-locked_out decoders before (λ t. none) (λ t. none) (codes "ann") (codes "secret")
      small without_ann ann-deleted

create_user-login_example :
    login_body_reply decoders before
      (some record { username = codes "bob"; password = codes "secret" })
      with_bob
    ≡ issued decoders before (some (codes "bob"))
create_user-login_example =
    create_user-login decoders before bob (codes "secret") small with_bob small-IsIntact bob-created
      refl bob-verified
