-- ===== src/Auth/Tests.antt =====
-- Decisions of the rules on concrete lists.
use giti.Prelude.{
  Bool, ltb_int, eq_int, pos, ℕ, zero, suc, ◌+◌, ap, sym, ◌∙◌, length, arith, join, none, some,
  true, false, List, [], ◌∷◌, ◌++◌, ◌≡◌, refl, Text, codes,
}
use giti.Ows.Request.{find, put}
use giti.Auth.Rules.{
  Rule, Subject, Query, denied, evaluate, evaluate_from, matches, field_match, role_match, limit,
  and_cql,
}
use giti.Auth.Check.{Backing, CheckOutput, decided, cache_key, check_subject}
use giti.Rows.{order_by, place}
use giti.Auth.Store.{rule_precedes, list_rules}
use giti.Auth.Admin.{Decoders, Service, post_rule, serve, backing_of}
use giti.Auth.Admin.Current.{Mirrors, IsNext, serve-check_subject}
use giti.Auth.Coherence.{
  Ask, System, key_of, body_of, cache_of, misses, lists, stores, changes, bumps, Reached, starts,
  continues,
}
use giti.Auth.Coherence.Fresh.{Reached-check_subject}
use giti.Auth.Rules.Reference.{reference}
use giti.Auth.Rules.Laws.{evaluate-eq-reference}

abbrev rule : Text → Text → Text → Text → Rule
rule role request access cql = record {
  id = 0;
  priority = pos 0;
  username = codes "*";
  rolename = role;
  service = codes "WFS";
  request = request;
  workspace = [];
  layer = codes "*";
  access = access;
  cql_read = cql;
  cql_write = [];
  attributes = [];
}

-- A constraint for everybody, then the rights of editors, then a denial.
abbrev rules : List Rule
rules =
    rule (codes "*") (codes "*") (codes "LIMIT") (codes "state = 'open'")
    ∷ rule (codes "editor") (codes "getfeature") (codes "ALLOW") (codes "unread")
    ∷ rule (codes "*") (codes "*") (codes "DENY") []
    ∷ []

abbrev editor : Subject
editor = record { username = codes "ann"; roles = codes "viewer" ∷ codes "editor" ∷ [] }

abbrev query : Query
query = record {
  service = codes "WFS";
  request = codes "GetFeature";
  workspace = codes "city";
  layer = codes "roads";
}

editor_allowed :
    evaluate rules editor query false
    ≡ record { allow = true; cql_read = codes "state = 'open'"; cql_write = []; attributes = [] }
unfolding evaluate evaluate_from matches field_match role_match limit and_cql
editor_allowed = refl

evaluate-eq-reference_example :
    evaluate rules editor query false ≡ reference denied rules editor query false
evaluate-eq-reference_example = evaluate-eq-reference rules editor query false

abbrev backing : List Rule → Backing
backing rs = record {
  get_user = λ name. none;
  roles_of = λ name. [];
  list_rules = some rs;
  verify_password = λ pw hash. false;
  verify_token = λ token. none;
  decode_base64 = λ t. none;
}

-- A stand-in for the text of the counter.
abbrev ones : ℕ → Text
ones zero = []
ones (suc n) = b'1' ∷ ones n

length-ones : (n : ℕ) (t : Text) → length (ones n ++ t) ≡ n + length t
length-ones zero t = omega arith
length-ones (suc n) t = omega (arith, length-ones n t)

abbrev question : Ask
question = (editor, query)

abbrev Only : Ask → Type 0
Only x = x ≡ question

abbrev behind_ones : Text
behind_ones = codes ":ann:WFS:GetFeature:city:roads"

key_length : (g : ℕ) → length (key_of ones g question) ≡ 6 + (g + length behind_ones)
unfolding key_of cache_key join
key_length g = let l = length-ones g behind_ones in omega arith

keys_differ :
    (g g' : ℕ) (x x' : Ask)
    → Only x
    → Only x'
    → key_of ones g x ≡ key_of ones g' x'
    → (g ≡ g') × (x ≡ x')
keys_differ g g' x x' h h' e =
    let at_question : key_of ones g question ≡ key_of ones g' question =
      ap (key_of ones g) (sym h) ∙ e ∙ ap (key_of ones g') h' in
    let lengths = ap length at_question in
    let left = key_length g in let right = key_length g' in (omega arith, h ∙ sym h')

abbrev plain : CheckOutput → CheckOutput
plain o = o

abbrev Runs : System CheckOutput → Type 0
Runs = Reached ones false plain Only

-- A check finds nothing, the rules are changed, the check reads them and stores its answer under the
-- old generation, and the change raises it.
abbrev late_answer : CheckOutput
late_answer = body_of false plain rules question

abbrev settled : System CheckOutput
settled = record {
  rules = rules;
  generation = 1;
  entries = (key_of ones 0 question, late_answer) ∷ [];
  flights = [];
  pending = 0;
}

settled_reached : Runs settled
unfolding key_of find put
settled_reached =
    continues
      (continues
        (continues (continues (continues (starts [] 0) (misses question refl refl)) (changes rules))
          (lists 0 question [] [] refl))
        (stores 0 question late_answer [] [] refl))
      (bumps 0 refl)

Reached-check_subject_example :
    (check_subject (backing rules) false plain editor query (some (cache_of ones settled))).0
    ≡ decided late_answer
Reached-check_subject_example =
    Reached-check_subject ones false plain Only keys_differ settled (backing rules) question
      settled_reached refl refl refl

abbrev decoders : Decoders
decoders = record {
  user_body = λ t. none;
  rule_body = λ t. some (rule (codes "editor") (codes "*") (codes "DENY") []);
  login_body = λ t. none;
  hash = λ t. none;
  verify = λ pw hash. false;
  issue = λ name roles ttl. none;
}

abbrev before : Text → Text → Bool
before s t = true

abbrev service : Service
service = record {
  db = record {
    users = [];
    groups = [];
    user_groups = [];
    roles = [];
    role_users = [];
    role_groups = [];
    rules = rules;
    next_id = 1;
  };
  generation = some 1;
}

service-Mirrors : Mirrors service settled
unfolding list_rules order_by place rule_precedes ltb_int eq_int
service-Mirrors = record { rules = refl; generation = refl; idle = refl }

serve-check_subject_example :
    (sys' : System CheckOutput) × (IsNext
        (serve decoders before (post_rule []) service).1
        settled
        sys'
      × ((check_subject
            (backing_of decoders before
              (λ t. none)
              (λ t. none)
              (serve decoders before (post_rule []) service).1.db)
            false
            plain
            editor
            query
            (some (cache_of ones sys'))).0
          ≡ decided (
              body_of false plain
                (list_rules (serve decoders before (post_rule []) service).1.db)
                question)))
serve-check_subject_example =
    serve-check_subject ones false plain Only keys_differ decoders before (λ t. none) (λ t. none)
      (post_rule []) service settled question settled_reached service-Mirrors refl
