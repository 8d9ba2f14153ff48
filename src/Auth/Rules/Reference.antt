-- ===== src/Auth/Rules/Reference.antt =====
-- What `Evaluate` promises, without a loop that carries a decision: the first matching ALLOW or
-- DENY rule decides, and the matching LIMIT rules before it constrain what is allowed.
use giti.Prelude.{
  Bool, true, ◌&&◌, ◌||◌, not, Option, none, some, List, [], ◌∷◌, ◌≡◌, refl, arith, text_eq,
  if◌then◌else◌, codes,
}
use giti.Auth.Rules.{Rule, Subject, Query, Decision, denied, matches, limit, evaluate_from}

unfoldable pub is_limit : Rule → Bool
is_limit r = text_eq r.access (codes "LIMIT")

unfoldable pub is_decisive : Rule → Bool
is_decisive r =
    not (text_eq r.access (codes "LIMIT"))
    && (text_eq r.access (codes "ALLOW") || text_eq r.access (codes "DENY"))

module _ (sub : Subject) (q : Query) where
  -- The first rule that matches and decides.
  unfoldable pub decider : List Rule → Option Rule
  decider [] = none
  decider (r ∷ rs) = if matches r sub q && is_decisive r then some r else decider rs

  -- The LIMIT rules that match, up to the decider.
  unfoldable pub limits : List Rule → List Rule
  limits [] = []
  limits (r ∷ rs) =
      if matches r sub q && is_decisive r
      then []
      else (if matches r sub q && is_limit r then r ∷ limits rs else limits rs)

  unfoldable pub verdict : Option Rule → Bool → Bool
  verdict (some r) default_allow = text_eq r.access (codes "ALLOW")
  verdict none default_allow = default_allow

-- The constraints of a list of rules, on top of a decision.
unfoldable pub constrain : Decision → List Rule → Decision
constrain d [] = record d { allow = true }
constrain d (r ∷ rs) = constrain (limit d r) rs

unfoldable pub reference : Decision → List Rule → Subject → Query → Bool → Decision
reference d rs sub q default_allow =
    if verdict sub q (decider sub q rs) default_allow then constrain d (limits sub q rs) else denied

pub evaluate_from-reference :
    (rs : List Rule) (d : Decision) (sub : Subject) (q : Query) (default_allow : Bool)
    → evaluate_from d rs sub q default_allow ≡ reference d rs sub q default_allow
unfolding evaluate_from reference decider limits verdict constrain is_limit is_decisive
evaluate_from-reference [] d sub q default_allow = refl
evaluate_from-reference (r ∷ rs) d sub q default_allow = ground (
  arith,
  evaluate_from-reference rs d sub q default_allow,
  evaluate_from-reference rs (limit d r) sub q default_allow,
)
