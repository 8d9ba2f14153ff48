-- ===== src/Gateway/Limit.antt =====
-- The rate limit of services/gateway/middleware.go. `L` and `allow` stand for the `Limiter` of
-- `golang.org/x/time/rate`: a call answers, and leaves the limiter changed.
pub mod Clients
use giti.Prelude.{Option, Bool, not, none, some, if◌then◌else◌, Text, codes}
use giti.Ows.Request.{Table, find, put}
use giti.Gateway.Http.{HttpRequest, Outcome, answered}
use giti.Gateway.Authorize.{http_error}

-- `l, ok := limiters[ip]`, or a new limiter where the client has none yet.
unfoldable pub or_new : {L : Type 0} → L → Option L → L
or_new new_limiter none = new_limiter
or_new new_limiter (some l) = l

module _ {L : Type 0} (new_limiter : L) (allow : L → Bool × L) (split_host : Text → Text)
    (next : HttpRequest → Outcome) where
  unfoldable pub limiter_of : Table L → Text → L
  unfolding find or_new
  limiter_of limiters ip = or_new new_limiter (find ip limiters)

  -- The handler: what it does with the request, and the limiters after it. `limited` is `limit > 0`.
  unfoldable pub rate_limit : Bool → Table L → HttpRequest → Outcome × Table L
  unfolding limiter_of put http_error
  rate_limit limited limiters r =
      let ip = split_host r.remote in
      let answer = allow (limiter_of limiters ip) in
      if not limited then (next r, limiters) else (
        if answer.0 then next r else answered (http_error (codes "Too many requests") 429),
        put ip answer.1 limiters,
      )
