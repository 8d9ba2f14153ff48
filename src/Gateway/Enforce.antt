-- ===== src/Gateway/Enforce.antt =====
-- The gateway in front of the authorization service: services/gateway/authz.go with
-- services/auth/internal/api/check.go at the other end of its call, and no cache.
use giti.Prelude.{
  ℕ, Bool, true, false, Option, none, some, List, [], ◌∷◌, ◌≡◌, refl, sym, ap, ◌∙◌, text_eq, Text,
  codes, false≢true,
}
use giti.Ows.Exception.{Printers}
use giti.Gateway.Http.{HttpRequest, get_header, Outcome, proxied}
use giti.Gateway.Authorize.{AuthDecision, CheckRequest, check_request, identified, authorize}
use giti.Gateway.Authorize.Guard.{authorize-proxied, identified-user, identified-cql_read}
use giti.Auth.Rules.{Rule, Subject, Query, evaluate}
use giti.Auth.Check.{
  Backing, CheckOutput, output, nonempty, Answer, unauthorized, failed, decided, authenticate,
  compute, check_subject, check_authenticated, check,
}

-- The headers of the call, as `check` reads them.
unfoldable pub query_of : CheckRequest → Query
query_of c = record {
  service = c.service;
  request = c.request;
  workspace = c.workspace;
  layer = c.layer;
}

-- The fields of an object that are left out are those that `authDecision` leaves empty.
unfoldable pub or_empty : {A : Type 0} → Option (List A) → List A
or_empty none = []
or_empty (some v) = v

unfoldable pub decision_of : CheckOutput → AuthDecision
unfolding or_empty
decision_of o = record {
  allow = o.allow;
  user = o.user;
  roles = o.roles;
  cql_read = or_empty o.cql_read;
  cql_write = or_empty o.cql_write;
  attributes = or_empty o.attributes;
}

-- The read constraint that a handler sees, where there is one.
abbrev pub HasConstraint : Text → HttpRequest → Type 0
HasConstraint [] x = Unit
HasConstraint (c ∷ v) x = get_header (codes "X-Giti-CQL-Read") x.header ≡ c ∷ v

abbrev pub no_decision : AuthDecision
no_decision = record {
  allow = false;
  user = [];
  roles = [];
  cql_read = [];
  cql_write = [];
  attributes = [];
}

or_empty-nonempty : {A : Type 0} (v : List A) → or_empty (nonempty v) ≡ v
unfolding or_empty nonempty
or_empty-nonempty [] = refl
or_empty-nonempty (c ∷ v) = refl

seen-HasConstraint :
    (v : Text) (x : HttpRequest)
    → (text_eq v [] ≡ false → get_header (codes "X-Giti-CQL-Read") x.header ≡ v)
    → HasConstraint v x
unfolding text_eq
seen-HasConstraint [] x h = tt
seen-HasConstraint (c ∷ v) x h = h refl

decision-injective :
    {s s' : ℕ} {d d' : AuthDecision}
    → ◌≡◌ {A = Option (ℕ × AuthDecision)} (some (s, d)) (some (s', d'))
    → d ≡ d'
decision-injective h = cc

module _ {W : Type 0} (b : Backing) (default_allow : Bool) (marshal : CheckOutput → W)
    (unmarshal : W → AuthDecision) where
  unfoldable pub received : Answer W → Option (ℕ × AuthDecision)
  received unauthorized = some (401, no_decision)
  received failed = some (500, no_decision)
  received (decided body) = some (200, unmarshal body)

  -- The call of the gateway, answered by `check`.
  unfoldable pub ask_check : CheckRequest → Option (ℕ × AuthDecision)
  unfolding received query_of check
  ask_check c = received (check b default_allow marshal c.authorization (query_of c) none).0

  -- What `check` found where its answer reaches the gateway as an allowing decision.
  abbrev pub Granted : Option Subject → Query → AuthDecision → Type 0
  Granted o q d =
      (sub : Subject) × (rs : List Rule) × (o ≡ some sub)
      × (b.list_rules ≡ some rs)
      × ((evaluate rs sub q default_allow).allow ≡ true)
      × (d ≡ decision_of (output sub (evaluate rs sub q default_allow)))

  -- What is promised of a request that the next handler passes on.
  abbrev pub Enforced : (HttpRequest → Outcome) → HttpRequest → HttpRequest → Text → Type 0
  Enforced next r r' backend =
      (sub : Subject) × (rs : List Rule) × (x : HttpRequest) × (authenticate b
          (get_header (codes "Authorization") r.header)
        ≡ some sub)
      × (b.list_rules ≡ some rs)
      × ((evaluate rs sub (query_of (check_request r)) default_allow).allow ≡ true)
      × (next x ≡ proxied backend r')
      × (get_header (codes "X-Giti-User") x.header ≡ sub.username)
      × HasConstraint (evaluate rs sub (query_of (check_request r)) default_allow).cql_read x

  module _ (printed : (o : CheckOutput) → unmarshal (marshal o) ≡ decision_of o) where
    compute-Granted :
        (o : Option (List Rule)) (sub : Subject) (q : Query) (status : ℕ) (d : AuthDecision)
        → b.list_rules ≡ o
        → received (compute b default_allow marshal o sub q) ≡ some (status, d)
        → d.allow ≡ true
        → Granted (some sub) q d
    unfolding compute received decision_of output
    compute-Granted none sub q status d listed h allowed =
        let none_allowed : no_decision ≡ d = decision-injective h in
        absurd (false≢true (ap (λ x. x.allow) none_allowed ∙ allowed))
    compute-Granted (some rs) sub q status d listed h allowed =
        let same : d ≡ decision_of (output sub (evaluate rs sub q default_allow)) =
          sym (sym (printed _) ∙ decision-injective h) in
        (sub, rs, refl, listed, sym (ap (λ x. x.allow) same) ∙ allowed, same)

    check-Granted :
        (o : Option Subject) (q : Query) (status : ℕ) (d : AuthDecision)
        → received (check_authenticated b default_allow marshal o q none).0 ≡ some (status, d)
        → d.allow ≡ true
        → Granted o q d
    unfolding check_authenticated check_subject received
    check-Granted none q status d h allowed =
        let none_allowed : no_decision ≡ d = decision-injective h in
        absurd (false≢true (ap (λ x. x.allow) none_allowed ∙ allowed))
    check-Granted (some sub) q status d h allowed =
        compute-Granted b.list_rules sub q status d refl h allowed

    ask_check-Granted :
        (c : CheckRequest) (status : ℕ) (d : AuthDecision)
        → ask_check c ≡ some (status, d)
        → d.allow ≡ true
        → Granted (authenticate b c.authorization) (query_of c) d
    unfolding ask_check check
    ask_check-Granted c status d h allowed =
        check-Granted (authenticate b c.authorization) (query_of c) status d h allowed

    -- Where authorization is configured and answered by `check` without a cache, a request is passed
    -- on only if its credentials are those of a subject, the rules could be listed, and they allow
    -- the subject what the query string and the path name; the next handler then sees the name of
    -- that subject, whatever the client claims, and the read constraint of the rules, if any.
    pub authorize-Enforced :
        (p : Printers) (json_roles : List Text → Text) (next : HttpRequest → Outcome)
        (auth_url : Text) (r r' : HttpRequest) (backend : Text)
        → text_eq auth_url [] ≡ false
        → authorize p json_roles next auth_url ask_check r ≡ proxied backend r'
        → Enforced next r r' backend
    unfolding query_of check_request decision_of output
    authorize-Enforced p json_roles next auth_url r r' backend url h =
        let (status, d, asked, known, allowed, sent) =
          authorize-proxied p json_roles next auth_url ask_check r r' backend url h in
        let (sub, rs, found, listed, granted, same) =
          ask_check-Granted (check_request r) status d asked allowed in
        let ev = evaluate rs sub (query_of (check_request r)) default_allow in
        let read : d.cql_read ≡ ev.cql_read =
          ap (λ y. y.cql_read) same ∙ or_empty-nonempty ev.cql_read in
        (
          sub,
          rs,
          identified json_roles d r,
          found,
          listed,
          granted,
          sent,
          identified-user json_roles d r ∙ ap (λ y. y.user) same,
          seen-HasConstraint ev.cql_read (identified json_roles d r) λ full.
              identified-cql_read json_roles d r (ap (λ t. text_eq t []) read ∙ full) ∙ read,
        )
