-- ===== src/Gateway/Authorize.antt =====
-- services/gateway/authz.go. `ask` stands for the call of the authorization service: the status and
-- the decision of its answer, or nothing where the call fails.
pub mod Guard
use giti.Prelude.{
  ℕ, Bool, Option, none, some, List, [], ◌∷◌, ◌++◌, text_eq, ◌==◌, if◌then◌else◌, Text, codes,
}
use giti.Ows.Request.{Table, get, parse_kvp}
use giti.Ows.Exception.{Printers, Response, write_exception}
use giti.Gateway.Http.{HttpRequest, set_header, get_header, Outcome, answered}
use giti.Gateway.Dispatch.{parse_path}

-- `authDecision`; `json_roles` is what `json.Marshal` makes of the roles.
pub record AuthDecision : Type 0 where
  pub allow : Bool
  pub user : Text
  pub roles : List Text
  pub cql_read : Text
  pub cql_write : Text
  pub attributes : List Text

-- The headers of the call.
pub record CheckRequest : Type 0 where
  pub authorization : Text
  pub service : Text
  pub request : Text
  pub workspace : Text
  pub layer : Text

unfoldable pub check_request : HttpRequest → CheckRequest
unfolding parse_kvp parse_path get_header
check_request r =
    let req = parse_kvp r.query in
    let l = parse_path r.path in
    record {
      authorization = get_header (codes "Authorization") r.header;
      service = req.service;
      request = req.request;
      workspace = l.workspace;
      layer = l.layer;
    }

-- `http.Error`: a plain text with a status.
unfoldable pub http_error : Text → ℕ → Response
http_error message status = record {
  status = status;
  content_type = codes "text/plain; charset=utf-8";
  body = message ++ codes "\n";
}

-- `if value != "" { r.Header.Set(name, value) }`
unfoldable pub set_nonempty : Text → Text → Table Text → Table Text
unfolding set_header text_eq
set_nonempty name value h = if text_eq value [] then h else set_header name value h

unfoldable pub set_roles : (List Text → Text) → List Text → Table Text → Table Text
unfolding set_header
set_roles json_roles [] h = h
set_roles json_roles (r ∷ rs) h = set_header (codes "X-Giti-Roles") (json_roles (r ∷ rs)) h

unfoldable pub identified : (List Text → Text) → AuthDecision → HttpRequest → HttpRequest
unfolding set_header set_roles set_nonempty
identified json_roles d r = record r {
  header = set_nonempty (codes "X-Giti-CQL-Write") d.cql_write (
      set_nonempty (codes "X-Giti-CQL-Read") d.cql_read
        (set_roles json_roles d.roles (set_header (codes "X-Giti-User") d.user r.header)));
}

module _ (p : Printers) (json_roles : List Text → Text) (next : HttpRequest → Outcome) where
  -- The answer with which the gateway refuses a request.
  unfoldable pub refuse : Text → ℕ → HttpRequest → Outcome
  unfolding write_exception parse_kvp get
  refuse message status r =
      let req = parse_kvp r.query in
      answered (
        write_exception p req.service req.version (get req (codes "EXCEPTIONS")) record {
          code = codes "NoApplicableCode";
          locator = [];
          message = message;
          status = status;
        })

  -- The handler, from the answer of the authorization service on.
  unfoldable pub decide : Option (ℕ × AuthDecision) → HttpRequest → Outcome
  unfolding refuse http_error identified text_eq
  decide none r = refuse (codes "Authorization service unavailable") 503 r
  decide (some (status, d)) r =
      if status == 401
      then answered (http_error (codes "invalid credentials") 401)
      else if d.allow
      then next (identified json_roles d r)
      else if text_eq d.user []
      then answered (http_error (codes "authentication required") 401)
      else refuse (codes "Access denied") 403 r

  unfoldable pub authorize :
      Text → (CheckRequest → Option (ℕ × AuthDecision)) → HttpRequest → Outcome
  unfolding decide check_request text_eq
  authorize auth_url ask r =
      if text_eq auth_url [] then next r else decide (ask (check_request r)) r
