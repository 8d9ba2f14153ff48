-- ===== src/Gateway/Authorize/Guard.antt =====
-- What the authorization of the gateway guards.
use giti.Prelude.{
  ℕ, Bool, true, false, Option, none, some, List, [], ◌∷◌, ◌≡◌, refl, ◌∙◌, ◌≢◌, ◌==◌, text_eq,
  equal_fold, if◌then◌else◌, Text, codes, inl, inr, Bool-cases,
}
use giti.Ows.Request.{Table}
use giti.Ows.Exception.{Printers, Response}
use giti.Gateway.Http.{HttpRequest, set_header, get_header, Outcome, answered, proxied}
use giti.Gateway.Http.Headers.{get_header-set_header, get_header-set_header_other}
use giti.Gateway.Authorize.{
  AuthDecision, CheckRequest, check_request, set_nonempty, set_roles, identified, refuse, decide,
  authorize,
}

answered≢forwarded : {a : Response} {u : Text} {r : HttpRequest} → answered a ≢ proxied u r
answered≢forwarded h = cc

-- A header that is set to a text if this is not empty, under a header that is read.
get_header-set_nonempty :
    (n m v : Text) (h : Table Text)
    → equal_fold n m ≡ false
    → get_header n (set_nonempty m v h) ≡ get_header n h
unfolding set_nonempty
get_header-set_nonempty n m v h apart = elim (Bool-cases (text_eq v [])) [
  | inl empty ↦ rw empty refl
  | inr full ↦ rw full (get_header-set_header_other n m v h apart)
]

get_header-set_roles :
    (n : Text) (json_roles : List Text → Text) (roles : List Text) (h : Table Text)
    → equal_fold n (codes "X-Giti-Roles") ≡ false
    → get_header n (set_roles json_roles roles h) ≡ get_header n h
unfolding set_roles
get_header-set_roles n json_roles [] h apart = refl
get_header-set_roles n json_roles (r ∷ rs) h apart = get_header-set_header_other n _ _ h apart

get_header-set_nonempty_same :
    (n v : Text) (h : Table Text) → text_eq v [] ≡ false → get_header n (set_nonempty n v h) ≡ v
unfolding set_nonempty
get_header-set_nonempty_same n v h full = rw full (get_header-set_header n v h)

-- The constraint of the decision, where there is one, is what the next handler sees.
pub identified-cql_read :
    (json_roles : List Text → Text) (d : AuthDecision) (r : HttpRequest)
    → text_eq d.cql_read [] ≡ false
    → get_header (codes "X-Giti-CQL-Read") (identified json_roles d r).header ≡ d.cql_read
unfolding identified equal_fold
identified-cql_read json_roles d r full =
    let user = set_header (codes "X-Giti-User") d.user r.header in
    let roles = set_roles json_roles d.roles user in
    let read = set_nonempty (codes "X-Giti-CQL-Read") d.cql_read roles in
    get_header-set_nonempty _ (codes "X-Giti-CQL-Write") d.cql_write read refl
    ∙ get_header-set_nonempty_same _ d.cql_read roles full

-- The user that the next handler sees is the one of the decision, whoever the client says it is.
pub identified-user :
    (json_roles : List Text → Text) (d : AuthDecision) (r : HttpRequest)
    → get_header (codes "X-Giti-User") (identified json_roles d r).header ≡ d.user
unfolding identified equal_fold
identified-user json_roles d r =
    let user = set_header (codes "X-Giti-User") d.user r.header in
    let roles = set_roles json_roles d.roles user in
    let read = set_nonempty (codes "X-Giti-CQL-Read") d.cql_read roles in
    get_header-set_nonempty _ (codes "X-Giti-CQL-Write") d.cql_write read refl
    ∙ get_header-set_nonempty _ (codes "X-Giti-CQL-Read") d.cql_read roles refl
    ∙ get_header-set_roles _ json_roles d.roles user refl
    ∙ get_header-set_header _ d.user r.header

module _ (p : Printers) (json_roles : List Text → Text) (next : HttpRequest → Outcome) where
  past_unauthorized :
      (c : Bool) (a : Response) (o : Outcome) (r' : HttpRequest) (backend : Text)
      → (if c then answered a else o) ≡ proxied backend r'
      → (c ≡ false) × (o ≡ proxied backend r')
  past_unauthorized true a o r' backend h = absurd (answered≢forwarded h)
  past_unauthorized false a o r' backend h = (refl, h)

  past_refusal :
      (c e : Bool) (o : Outcome) (a a' : Response) (r' : HttpRequest) (backend : Text)
      → (if c then o else if e then answered a else answered a') ≡ proxied backend r'
      → (c ≡ true) × (o ≡ proxied backend r')
  past_refusal true e o a a' r' backend h = (refl, h)
  past_refusal false true o a a' r' backend h = absurd (answered≢forwarded h)
  past_refusal false false o a a' r' backend h = absurd (answered≢forwarded h)

  decide-proxied :
      (o : Option (ℕ × AuthDecision)) (r r' : HttpRequest) (backend : Text)
      → decide p json_roles next o r ≡ proxied backend r'
      → (status : ℕ) × (d : AuthDecision) × (o ≡ some (status, d))
        × ((status == 401) ≡ false)
        × (d.allow ≡ true)
        × (next (identified json_roles d r) ≡ proxied backend r')
  unfolding decide refuse
  decide-proxied none r r' backend h = absurd (answered≢forwarded h)
  decide-proxied (some (status, d)) r r' backend h =
      let known = past_unauthorized _ _ _ r' backend h in
      let allowed = past_refusal _ _ _ _ _ r' backend known.1 in
      (status, d, refl, known.0, allowed.0, allowed.1)

  -- Where authorization is configured, a request is passed on only if the authorization service was
  -- asked about it, answered with a status other than 401 and a decision that allows it, and the
  -- next handler passes it on with the headers of that decision.
  pub authorize-proxied :
      (auth_url : Text) (ask : CheckRequest → Option (ℕ × AuthDecision)) (r r' : HttpRequest)
      (backend : Text)
      → text_eq auth_url [] ≡ false
      → authorize p json_roles next auth_url ask r ≡ proxied backend r'
      → (status : ℕ) × (d : AuthDecision) × (ask (check_request r) ≡ some (status, d))
        × ((status == 401) ≡ false)
        × (d.allow ≡ true)
        × (next (identified json_roles d r) ≡ proxied backend r')
  unfolding authorize
  authorize-proxied auth_url ask r r' backend url h =
      decide-proxied (ask (check_request r)) r r' backend (rw url at h)
