-- ===== src/Gateway/Limit/Clients.antt =====
-- What one client's requests do to the limits of the others.
use giti.Prelude.{
  Bool, true, ◌≡◌, sym, ap, text_eq, text_eq_iff, ◌∙◌, if◌then◌else◌, Text, Bool-cases, inl, inr,
}
use giti.Ows.Request.{Table, find, put}
use giti.Ows.Request.Params.{find-put_other, find-put_same}
use giti.Gateway.Http.{HttpRequest, Outcome}
use giti.Gateway.Limit.{or_new, limiter_of, rate_limit}

module _ {L : Type 0} (new_limiter : L) (allow : L → Bool × L) (split_host : Text → Text)
    (next : HttpRequest → Outcome) where
  -- A request moves the limiter of its own address by one call, and leaves the limiter of every
  -- other address as it is, whether it is let through or not.
  pub rate_limit-limiter_of :
      (limiters : Table L) (r : HttpRequest) (ip : Text)
      → limiter_of new_limiter allow split_host next
          (rate_limit new_limiter allow split_host next true limiters r).1
          ip
        ≡ (if text_eq ip (split_host r.remote)
            then (allow (limiter_of new_limiter allow split_host next limiters ip)).1
            else limiter_of new_limiter allow split_host next limiters ip)
  unfolding rate_limit limiter_of or_new
  rate_limit-limiter_of limiters r ip =
      let moved : Text → L = λ k. (allow (or_new new_limiter (find k limiters))).1 in
      elim (Bool-cases (text_eq ip (split_host r.remote))) [
        | inl own ↦
            let same : ip ≡ split_host r.remote = (text_eq_iff ip (split_host r.remote)).0 own in
            rw own (
              ap
                (λ k.
                  or_new new_limiter
                    (find k (put (split_host r.remote) (moved (split_host r.remote)) limiters)))
                same
              ∙ ap (or_new new_limiter)
                  (find-put_same (split_host r.remote) (moved (split_host r.remote)) limiters)
              ∙ ap moved (sym same))
        | inr other ↦ rw other (
            ap (or_new new_limiter) (
              find-put_other ip (split_host r.remote) (moved (split_host r.remote)) limiters other))
      ]
