-- ===== src/Auth/Rules/Laws.antt =====
-- What holds of every evaluation of the access rules.
use giti.Prelude.{
  Bool, false, some, List, [], ◌∷◌, ◌++◌, ◌≡◌, refl, arith, equal_fold, to_upper, to_lower-to_upper,
  Text,
}
use giti.Auth.Rules.{
  Rule, Subject, Query, Decision, denied, field_match, matches, limit, evaluate_from, evaluate,
}
use giti.Auth.Rules.Reference.{is_decisive, decider, reference, evaluate_from-reference}

-- `Evaluate` is the reference on every list of rules: the access of the first matching ALLOW or
-- DENY rule decides, or else the default; an allowed request carries the conjunction of the
-- constraints of the matching LIMIT rules before that rule, and a denied one carries none.
pub evaluate-eq-reference :
    (rs : List Rule) (sub : Subject) (q : Query) (default_allow : Bool)
    → evaluate rs sub q default_allow ≡ reference denied rs sub q default_allow
unfolding evaluate
evaluate-eq-reference rs = evaluate_from-reference rs denied

denial_from :
    (rs : List Rule) (d : Decision) (sub : Subject) (q : Query) (default_allow : Bool)
    → (evaluate_from d rs sub q default_allow).allow ≡ false
    → evaluate_from d rs sub q default_allow ≡ denied
unfolding evaluate_from
denial_from [] d sub q default_allow h = ground arith
denial_from (r ∷ rs) d sub q default_allow h =
    ground
      (arith, denial_from rs d sub q default_allow, denial_from rs (limit d r) sub q default_allow)

-- A denial is bare: it shows no filter and no attribute of the LIMIT rules that matched before.
pub evaluate-denied :
    (rs : List Rule) (sub : Subject) (q : Query) (default_allow : Bool)
    → (evaluate rs sub q default_allow).allow ≡ false
    → evaluate rs sub q default_allow ≡ denied
unfolding evaluate
evaluate-denied rs = denial_from rs denied

-- The same query in capitals.
abbrev pub upper_query : Query → Query
upper_query q = record {
  service = to_upper q.service;
  request = to_upper q.request;
  workspace = to_upper q.workspace;
  layer = to_upper q.layer;
}

field_match-to_upper : (v x : Text) → field_match v (to_upper x) ≡ field_match v x
unfolding field_match equal_fold
field_match-to_upper v x = rw to_lower-to_upper

matches-upper_query :
    (r : Rule) (sub : Subject) (q : Query) → matches r sub (upper_query q) ≡ matches r sub q
unfolding matches
matches-upper_query r sub q = simp field_match-to_upper

upper_from :
    (rs : List Rule) (d : Decision) (sub : Subject) (q : Query) (default_allow : Bool)
    → evaluate_from d rs sub (upper_query q) default_allow ≡ evaluate_from d rs sub q default_allow
unfolding evaluate_from
upper_from [] d sub q default_allow = refl
upper_from (r ∷ rs) d sub q default_allow = simp (
  matches-upper_query,
  upper_from rs d sub q default_allow,
  upper_from rs (limit d r) sub q default_allow,
)

-- The decision does not depend on the case in which a client writes a service, an operation, a
-- workspace or a layer: a query in capitals is decided like the query itself.
pub evaluate-upper_query :
    (rs : List Rule) (sub : Subject) (q : Query) (default_allow : Bool)
    → evaluate rs sub (upper_query q) default_allow ≡ evaluate rs sub q default_allow
unfolding evaluate
evaluate-upper_query rs = upper_from rs denied

decided_from :
    (rs ss : List Rule) (d : Decision) (sub : Subject) (q : Query) (default_allow : Bool) (r : Rule)
    → decider sub q rs ≡ some r
    → evaluate_from d (rs ++ ss) sub q default_allow ≡ evaluate_from d rs sub q default_allow
unfolding evaluate_from decider is_decisive
decided_from [] ss d sub q default_allow r h = ground arith
decided_from (x ∷ rs) ss d sub q default_allow r h = ground (
  arith,
  decided_from rs ss d sub q default_allow r,
  decided_from rs ss (limit d x) sub q default_allow r,
)

-- Where a rule of the list decides, rules of lower priority change nothing, constraints included.
pub evaluate-append :
    (rs ss : List Rule) (sub : Subject) (q : Query) (default_allow : Bool) (r : Rule)
    → decider sub q rs ≡ some r
    → evaluate (rs ++ ss) sub q default_allow ≡ evaluate rs sub q default_allow
unfolding evaluate
evaluate-append rs ss sub q default_allow r h = decided_from rs ss denied sub q default_allow r h
