-- ===== src/Gateway/Dispatch.antt =====
-- services/gateway/dispatch.go.
pub mod Routes
pub mod Paths
use giti.Prelude.{
  ◌-◌, ℕ, Bool, true, Option, none, some, List, [], ◌∷◌, ◌++◌, text_eq, to_lower, ◌==◌,
  if◌then◌else◌, Text, codes, Result, ok, err,
}
use giti.Ows.Request.{Table, find, put, Request, get, parse_kvp, parse_xml, Tokens}
use giti.Ows.Negotiate.{negotiate, split}
use giti.Ows.Exception.{Printers, write_exception, has_prefix}
use giti.Gateway.Http.{HttpRequest, set_header, Outcome, answered, proxied}

abbrev pub service_env : Table Text
service_env =
    (codes "WMS", codes "GITI_WMS_URL")
    ∷ (codes "WFS", codes "GITI_WFS_URL")
    ∷ (codes "WMTS", codes "GITI_TILES_URL")
    ∷ (codes "WPS", codes "GITI_WPS_URL")
    ∷ (codes "CSW", codes "GITI_CATALOG_URL")
    ∷ (codes "WCS", codes "GITI_WMS_URL")
    ∷ []

-- Adds a service where its variable is set to a URL; `parse_url` stands for `net/url`.
unfoldable pub add_backend : (Text → Option Text) → Text → Text → Table Text → Table Text
unfolding put text_eq
add_backend parse_url svc [] b = b
add_backend parse_url svc v b = elim (parse_url v) [ some u ↦ put svc u b | none ↦ b ]

unfoldable pub read_backends :
    (Text → Option Text) → (Text → Text) → Table Text → Table Text → Table Text
unfolding add_backend
read_backends parse_url getenv [] b = b
read_backends parse_url getenv ((svc, env) ∷ t) b =
    read_backends parse_url getenv t (add_backend parse_url svc (getenv env) b)

unfoldable pub default_catalog : (Text → Option Text) → Table Text → Table Text
unfolding find add_backend
default_catalog parse_url b = elim (find (codes "CSW") b) [
  | some u ↦ b
  | none ↦ add_backend parse_url (codes "CSW") (codes "http://catalog:8080") b
]

unfoldable pub new_backends : (Text → Option Text) → (Text → Text) → Table Text
unfolding read_backends default_catalog
new_backends parse_url getenv =
    default_catalog parse_url (read_backends parse_url getenv service_env [])

abbrev pub endpoint_service : Table Text
endpoint_service =
    (codes "wms", codes "WMS")
    ∷ (codes "wfs", codes "WFS")
    ∷ (codes "wps", codes "WPS")
    ∷ (codes "wmts", codes "WMTS")
    ∷ (codes "gwc", codes "WMTS")
    ∷ (codes "csw", codes "CSW")
    ∷ (codes "wcs", codes "WCS")
    ∷ []

-- `strings.TrimPrefix`
unfoldable pub after : Text → Text → Text
after [] s = s
after (c ∷ p) [] = []
after (c ∷ p) (x ∷ s) = after p s

unfoldable pub trim_prefix : Text → Text → Text
unfolding has_prefix after
trim_prefix s p = if has_prefix s p then after p s else s

-- `strings.Trim(path, "/")`, on the left and on the right.
unfoldable pub trim_left : Text → Text
trim_left [] = []
trim_left (c ∷ s) = let rest = trim_left s in if c == b'/' then rest else c ∷ s

unfoldable pub keep_byte : ℕ → Text → Text
keep_byte c [] = if c == b'/' then [] else c ∷ []
keep_byte c (x ∷ s) = c ∷ x ∷ s

unfoldable pub trim_right : Text → Text
unfolding keep_byte
trim_right [] = []
trim_right (c ∷ s) = keep_byte c (trim_right s)

pub record Location : Type 0 where
  pub workspace : Text
  pub layer : Text
  pub endpoint : Text

unfoldable pub is_endpoint : Text → Bool
unfolding find text_eq
is_endpoint s = elim (find s endpoint_service) [ some v ↦ true | none ↦ text_eq s (codes "ows") ]

-- The loop of `parsePath`: the segments before the endpoint, and the endpoint in lower case.
unfoldable pub cut : List Text → List Text × Text
unfolding is_endpoint to_lower
cut [] = ([], [])
cut (s ∷ segs) =
    let rest = cut segs in
    if is_endpoint (to_lower s) then ([], to_lower s) else (s ∷ rest.0, rest.1)

unfoldable pub locate : List Text → Text → Location
locate [] endpoint = record { workspace = []; layer = []; endpoint = endpoint }
locate (ws ∷ []) endpoint = record { workspace = ws; layer = []; endpoint = endpoint }
locate (ws ∷ layer ∷ segs) endpoint = record { workspace = ws; layer = layer; endpoint = endpoint }

unfoldable pub segments : Text → List Text
unfolding split trim_left trim_right trim_prefix
segments path = split b'/' (trim_right (trim_left (trim_prefix path (codes "/giti"))))

unfoldable pub parse_path : Text → Location
unfolding segments cut locate
parse_path path = let parts = cut (segments path) in locate parts.0 parts.1

-- The service that the request names, or the one that its endpoint implies.
unfoldable pub service_of : Request → Text → Text
unfolding find text_eq
service_of req endpoint =
    if text_eq req.service []
    then elim (find endpoint endpoint_service) [ some implied ↦ implied | none ↦ [] ]
    else req.service

-- `io.LimitReader`: the first bytes of a body, as many as the limit.
unfoldable pub limit_reader : ℕ → Text → Text
limit_reader n [] = []
limit_reader n (c ∷ s) = let rest = limit_reader (n - 1) s in if n == 0 then [] else c ∷ rest

-- `64<<20`
abbrev pub max_body : ℕ
max_body = 67108864

-- The copy of the body of a POST; another body is left as it is.
unfoldable pub body_copy : HttpRequest → Text
unfolding text_eq limit_reader
body_copy r = if text_eq r.method (codes "POST") then limit_reader max_body r.body else r.body

-- `r.Header.Set` of the three headers, the path that the backend sees and the copy of the body.
unfoldable pub forward : Location → Text → Text → HttpRequest → HttpRequest
unfolding set_header to_lower body_copy
forward l service version r = record r {
  path = codes "/" ++ to_lower service;
  body = body_copy r;
  header = set_header (codes "X-Giti-Version") version (
      set_header (codes "X-Giti-Layer") l.layer
        (set_header (codes "X-Giti-Workspace") l.workspace r.header));
}

-- The request that the dispatcher reads: the body of a POST, or else the query.
unfoldable pub read_request : (Text → Tokens) → HttpRequest → Result Text Request
unfolding parse_xml parse_kvp text_eq limit_reader
read_request decode r =
    if text_eq r.method (codes "POST")
    then parse_xml decode (limit_reader max_body r.body)
    else ok (parse_kvp r.query)

module _ (p : Printers) (b : Table Text) where
  -- The end of the handler: the backend of the service, where it has one.
  unfoldable pub to_backend : Option Text → Location → Text → Text → Text → HttpRequest → Outcome
  unfolding write_exception forward
  to_backend none l service version exceptions r = answered (
      write_exception p service version exceptions record {
        code = codes "NoApplicableCode";
        locator = [];
        message = codes "Service " ++ (service ++ codes " is not available");
        status = 503;
      })
  to_backend (some backend) l service version exceptions r =
      proxied backend (forward l service version r)

  -- The part of the handler that starts from a parsed request.
  unfoldable pub route : Location → Request → HttpRequest → Outcome
  unfolding service_of negotiate write_exception to_backend find get text_eq to_lower
  route l req r =
      let service = service_of req l.endpoint in
      let exceptions = get req (codes "EXCEPTIONS") in
      let version = negotiate service req.version in
      if text_eq service []
      then answered (
          write_exception p [] [] exceptions record {
            code = codes "MissingParameterValue";
            locator = codes "service";
            message = codes "Could not determine service";
            status = 400;
          })
      else if text_eq version []
      then answered (
          write_exception p [] [] exceptions record {
            code = codes "InvalidParameterValue";
            locator = codes "service";
            message = codes "No service: ( " ++ (to_lower service ++ codes " )");
            status = 400;
          })
      else if text_eq req.request []
      then answered (
          write_exception p service version exceptions record {
            code = codes "MissingParameterValue";
            locator = codes "request";
            message = codes "Could not determine request";
            status = 400;
          })
      else to_backend (find service b) l service version exceptions r

  unfoldable pub malformed : Text → Outcome
  unfolding write_exception
  malformed message = answered (
      write_exception p [] [] []
        record { code = codes "NoApplicableCode"; locator = []; message = message; status = 400 })

  unfoldable pub route_parsed : Result Text Request → HttpRequest → Outcome
  unfolding route parse_path malformed
  route_parsed (ok req) r = route (parse_path r.path) req r
  route_parsed (err e) r = malformed e

  unfoldable pub dispatch : (Text → Tokens) → HttpRequest → Outcome
  unfolding route_parsed read_request
  dispatch decode r = route_parsed (read_request decode r) r
