-- ===== src/Gateway/Dispatch/Routes.antt =====
-- What a backend receives.
use giti.Prelude.{
  Bool, true, false, Option, none, some, [], ◌++◌, ◌≡◌, refl, sym, ap, ◌∙◌, ◌≢◌, true≢false, subst,
  text_eq, to_upper, to_lower, equal_fold, if◌then◌else◌, Text, codes, Result, ok, err,
}
use giti.Ows.Request.{Table, find, Request, Tokens}
use giti.Ows.Negotiate.{versions, choose, negotiate}
use giti.Ows.Exception.{Printers, Response}
use giti.Gateway.Http.{HttpRequest, set_header, get_header, Outcome, answered, proxied}
use giti.Gateway.Http.Headers.{get_header-set_header, get_header-set_header_other}
use giti.Gateway.Dispatch.{
  Location, parse_path, service_of, body_copy, forward, to_backend, route, malformed, route_parsed,
  read_request, dispatch,
}

-- What the gateway promises of a request that it passes on: the backend is that of the service, the
-- version is one of those of the service, the headers of the location are the gateway's own, and
-- the body is the copy that the gateway made of the client's.
answered≢proxied : {a : Response} {u : Text} {r : HttpRequest} → answered a ≢ proxied u r
answered≢proxied h = cc

pub record Forwarded (b : Table Text) (req : Request) (l : Location) (backend : Text)
    (r r' : HttpRequest) : Type 0 where
  pub has_backend : find (service_of req l.endpoint) b ≡ some backend
  pub known_service : find (to_upper (service_of req l.endpoint)) versions ≢ none
  pub names_operation : text_eq req.request [] ≡ false
  pub location : r'.path ≡ codes "/" ++ to_lower (service_of req l.endpoint)
  pub version :
      get_header (codes "X-Giti-Version") r'.header
      ≡ negotiate (service_of req l.endpoint) req.version
  pub workspace : get_header (codes "X-Giti-Workspace") r'.header ≡ l.workspace
  pub layer : get_header (codes "X-Giti-Layer") r'.header ≡ l.layer
  pub copies_body : r'.body ≡ body_copy r
  pub keeps_query : r'.query ≡ r.query

known :
    (service requested : Text)
    → text_eq (negotiate service requested) [] ≡ false
    → find (to_upper service) versions ≢ none
unfolding negotiate choose
known service requested h e = true≢false (sym (ap (λ o. text_eq (choose o requested) []) e) ∙ h)

module _ (p : Printers) (b : Table Text) where
  to_backend-proxied :
      (o : Option Text) (l : Location) (service version exceptions : Text) (r r' : HttpRequest)
      (backend : Text)
      → to_backend p b o l service version exceptions r ≡ proxied backend r'
      → (o ≡ some backend) × (r' ≡ forward l service version r)
  unfolding to_backend
  to_backend-proxied none l service version exceptions r r' backend h = absurd (answered≢proxied h)
  to_backend-proxied (some u) l service version exceptions r r' backend h = (cc, cc)

  -- An early return passes nothing on.
  past :
      (c : Bool) (a : Response) (o : Outcome) (r' : HttpRequest) (backend : Text)
      → (if c then answered a else o) ≡ proxied backend r'
      → (c ≡ false) × (o ≡ proxied backend r')
  past true a o r' backend h = absurd (answered≢proxied h)
  past false a o r' backend h = (refl, h)

  route-proxied :
      (l : Location) (req : Request) (r r' : HttpRequest) (backend : Text)
      → route p b l req r ≡ proxied backend r'
      → (text_eq (negotiate (service_of req l.endpoint) req.version) [] ≡ false)
        × (text_eq req.request [] ≡ false)
        × (find (service_of req l.endpoint) b ≡ some backend)
        × (r'
            ≡ forward l
                (service_of req l.endpoint)
                (negotiate (service_of req l.endpoint) req.version)
                r)
  unfolding route
  route-proxied l req r r' backend h =
      let named = past _ _ _ r' backend h in
      let versioned = past _ _ _ r' backend named.1 in
      let asked = past _ _ _ r' backend versioned.1 in
      let sent = to_backend-proxied _ l _ _ _ r r' backend asked.1 in
      (versioned.0, asked.0, sent.0, sent.1)

  forward-Forwarded :
      (l : Location) (req : Request) (r : HttpRequest) (backend : Text)
      → text_eq (negotiate (service_of req l.endpoint) req.version) [] ≡ false
      → text_eq req.request [] ≡ false
      → find (service_of req l.endpoint) b ≡ some backend
      → Forwarded b req l backend r (
          forward l
            (service_of req l.endpoint)
            (negotiate (service_of req l.endpoint) req.version)
            r)
  unfolding forward equal_fold
  forward-Forwarded l req r backend versioned asked found =
      let v = negotiate (service_of req l.endpoint) req.version in
      let placed = set_header (codes "X-Giti-Workspace") l.workspace r.header in
      let layered = set_header (codes "X-Giti-Layer") l.layer placed in
      record {
        has_backend = found;
        known_service = known _ _ versioned;
        names_operation = asked;
        location = refl;
        version = get_header-set_header (codes "X-Giti-Version") v layered;
        workspace =
            get_header-set_header_other _ (codes "X-Giti-Version") v layered refl
            ∙ get_header-set_header_other _ (codes "X-Giti-Layer") l.layer placed refl
            ∙ get_header-set_header _ l.workspace r.header;
        layer =
            get_header-set_header_other _ (codes "X-Giti-Version") v layered refl
            ∙ get_header-set_header _ l.layer placed;
        copies_body = refl;
        keeps_query = refl;
      }

  parsed-Forwarded :
      (m : Result Text Request) (r r' : HttpRequest) (backend : Text)
      → route_parsed p b m r ≡ proxied backend r'
      → (req : Request) × (m ≡ ok req) × Forwarded b req (parse_path r.path) backend r r'
  unfolding route_parsed malformed
  parsed-Forwarded (ok req) r r' backend h =
      let facts = route-proxied (parse_path r.path) req r r' backend h in
      (
        req,
        refl,
        subst (λ x. Forwarded b req (parse_path r.path) backend r x) (sym facts.3)
            (forward-Forwarded (parse_path r.path) req r backend facts.0 facts.1 facts.2),
      )
  parsed-Forwarded (err e) r r' backend h = absurd (answered≢proxied h)

  -- A request that the dispatcher passes on was parsed, from the body of a POST or else from the
  -- query, and the backend receives what the gateway promises.
  pub dispatch-Forwarded :
      (decode : Text → Tokens) (r r' : HttpRequest) (backend : Text)
      → dispatch p b decode r ≡ proxied backend r'
      → (req : Request) × (read_request decode r ≡ ok req)
        × Forwarded b req (parse_path r.path) backend r r'
  unfolding dispatch
  dispatch-Forwarded decode r r' backend h = parsed-Forwarded (read_request decode r) r r' backend h
