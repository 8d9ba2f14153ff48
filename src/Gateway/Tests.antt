-- ===== src/Gateway/Tests.antt =====
-- Requests on their way through the gateway.
use giti.Prelude.{
  pos, true, false, none, some, List, [], ◌∷◌, ◌≡◌, refl, Text, codes, text_eq, to_lower, ok,
}
use giti.Ows.Request.{Table, Request, Tokens, other}
use giti.Ows.Exception.{Printers}
use giti.Gateway.Http.{HttpRequest, Outcome, proxied}
use giti.Gateway.Dispatch.{parse_path, read_request, dispatch, is_endpoint}
use giti.Gateway.Dispatch.Paths.{is_plain, is_segment, parse_path-layer_path}
use giti.Gateway.Dispatch.Routes.{Forwarded, dispatch-Forwarded}
use giti.Gateway.Authorize.{AuthDecision, identified, authorize}
use giti.Auth.Rules.{Rule, evaluate_from, matches, field_match, role_match, limit, and_cql}
use giti.Gateway.Enforce.{decision_of, ask_check, Enforced, authorize-Enforced}
use giti.Auth.Check.{Backing, CheckOutput}

parse_path-layer_path_example :
    parse_path (codes "/giti/city/roads/WMS")
    ≡ record { workspace = codes "city"; layer = codes "roads"; endpoint = codes "wms" }
unfolding is_segment is_plain is_endpoint to_lower text_eq
parse_path-layer_path_example =
    parse_path-layer_path (codes "city") (codes "roads") (codes "WMS") refl refl refl refl

abbrev printers : Printers
printers = record { quote = λ t. t; escape = λ t. t; encode = λ v e. v }

abbrev backends : Table Text
backends = (codes "WFS", codes "http://wfs:8080") ∷ []

abbrev no_tokens : Text → Tokens
no_tokens body = record { list = other ∷ []; end_error = codes "EOF" }

-- A client that claims to be another user.
abbrev request : HttpRequest
request = record {
  method = codes "GET";
  path = codes "/giti/city/roads/wfs";
  query = (codes "request", codes "GetFeature" ∷ []) ∷ (codes "VERSION", codes "1.7" ∷ []) ∷ [];
  header = (codes "x-giti-user", codes "admin") ∷ (codes "Authorization", codes "Bearer t") ∷ [];
  body = [];
  remote = codes "10.0.0.1:5000";
}

abbrev sent : HttpRequest
sent = record {
  method = codes "GET";
  path = codes "/wfs";
  query = (codes "request", codes "GetFeature" ∷ []) ∷ (codes "VERSION", codes "1.7" ∷ []) ∷ [];
  header =
      (codes "x-giti-user", codes "admin")
      ∷ (codes "Authorization", codes "Bearer t")
      ∷ (codes "X-Giti-Workspace", codes "city")
      ∷ (codes "X-Giti-Layer", codes "roads")
      ∷ (codes "X-Giti-Version", codes "1.1.0")
      ∷ [];
  body = [];
  remote = codes "10.0.0.1:5000";
}

dispatch-Forwarded_example :
    (req : Request) × (read_request no_tokens request ≡ ok req)
    × Forwarded backends req
        (parse_path (codes "/giti/city/roads/wfs"))
        (codes "http://wfs:8080")
        request
        sent
unfolding dispatch
dispatch-Forwarded_example =
    dispatch-Forwarded printers backends no_tokens request sent (codes "http://wfs:8080") refl

abbrev first_role : List Text → Text
first_role [] = []
first_role (r ∷ rs) = r

-- A backend that answers for every request.
abbrev pass : HttpRequest → Outcome
pass r = proxied (codes "http://wfs:8080") r

abbrev allow_ann : AuthDecision
allow_ann = record {
  allow = true;
  user = codes "ann";
  roles = codes "editor" ∷ [];
  cql_read = codes "a = 1";
  cql_write = [];
  attributes = [];
}

abbrev rule_for : Text → Text → Text → Rule
rule_for role access cql = record {
  id = 0;
  priority = pos 0;
  username = [];
  rolename = role;
  service = [];
  request = [];
  workspace = codes "city";
  layer = [];
  access = access;
  cql_read = cql;
  cql_write = [];
  attributes = [];
}

abbrev backing : Backing
backing = record {
  get_user = λ name. none;
  roles_of = λ name. [];
  list_rules = some (
      rule_for [] (codes "LIMIT") (codes "a = 1")
      ∷ rule_for (codes "editor") (codes "ALLOW") []
      ∷ []);
  verify_password = λ pw hash. false;
  verify_token = λ token. some (codes "ann", codes "editor" ∷ []);
  decode_base64 = λ t. none;
}

abbrev ann_allowed : HttpRequest
ann_allowed = identified first_role allow_ann request

-- JSON is stood in for by the objects themselves.
authorize-Enforced_example :
    Enforced backing false
      (λ (o : CheckOutput). o)
      decision_of
      pass
      request
      ann_allowed
      (codes "http://wfs:8080")
unfolding authorize text_eq ask_check decision_of evaluate_from matches field_match role_match limit
    and_cql
authorize-Enforced_example =
    authorize-Enforced backing false (λ (o : CheckOutput). o) decision_of (λ o. refl) printers
      first_role pass (codes "http://auth") request ann_allowed (codes "http://wfs:8080") refl refl
