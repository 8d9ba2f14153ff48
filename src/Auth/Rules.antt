-- ===== src/Auth/Rules.antt =====
-- services/auth/internal/rules/rules.go, and the `Rule` of services/auth/internal/store/store.go.
pub mod Reference
pub mod Laws
use giti.Prelude.{
  ℕ, ℤ, Bool, true, false, ◌&&◌, ◌||◌, not, List, [], ◌∷◌, ◌++◌, text_eq, equal_fold, if◌then◌else◌,
  Text, codes,
}

-- `ID` comes from a sequence that starts with 1; both columns order the rules, and evaluation reads
-- neither.
pub record Rule : Type 0 where
  pub id : ℕ
  pub priority : ℤ
  pub username : Text
  pub rolename : Text
  pub service : Text
  pub request : Text
  pub workspace : Text
  pub layer : Text
  pub access : Text
  pub cql_read : Text
  pub cql_write : Text
  pub attributes : List Text

pub record Subject : Type 0 where
  pub username : Text
  pub roles : List Text

pub record Query : Type 0 where
  pub service : Text
  pub request : Text
  pub workspace : Text
  pub layer : Text

pub record Decision : Type 0 where
  pub allow : Bool
  pub cql_read : Text
  pub cql_write : Text
  pub attributes : List Text

-- The zero value, which is also `Decision{Allow: false}`.
abbrev pub denied : Decision
denied = record { allow = false; cql_read = []; cql_write = []; attributes = [] }

-- `ruleVal == "*" || ruleVal == ""`
unfoldable pub is_any : Text → Bool
unfolding text_eq
is_any v = text_eq v (codes "*") || text_eq v []

unfoldable pub field_match : Text → Text → Bool
unfolding is_any equal_fold
field_match rule_val query_val = is_any rule_val || equal_fold rule_val query_val

-- The loop of `roleMatch`.
unfoldable pub has_role : Text → List Text → Bool
unfolding equal_fold
has_role rule_role [] = false
has_role rule_role (r ∷ roles) = equal_fold rule_role r || has_role rule_role roles

unfoldable pub role_match : Text → List Text → Bool
unfolding is_any has_role
role_match rule_role roles = is_any rule_role || has_role rule_role roles

unfoldable pub matches : Rule → Subject → Query → Bool
matches r sub q =
    field_match r.username sub.username
    && role_match r.rolename sub.roles
    && field_match r.service q.service
    && field_match r.request q.request
    && field_match r.workspace q.workspace
    && field_match r.layer q.layer

unfoldable pub and_cql : Text → Text → Text
and_cql [] b = b
and_cql a [] = a
and_cql a b = codes "(" ++ (a ++ (codes ") AND (" ++ (b ++ codes ")")))

-- What a LIMIT rule adds to a decision.
unfoldable pub limit : Decision → Rule → Decision
limit d r = record d {
  cql_read = and_cql d.cql_read r.cql_read;
  cql_write = and_cql d.cql_write r.cql_write;
  attributes = d.attributes ++ r.attributes;
}

-- The loop of `Evaluate` and what follows it. An access that is none of the three has no effect.
unfoldable pub evaluate_from : Decision → List Rule → Subject → Query → Bool → Decision
evaluate_from d [] sub q default_allow = if default_allow then record d { allow = true } else denied
evaluate_from d (r ∷ rs) sub q default_allow =
    let skipped = evaluate_from d rs sub q default_allow in
    let limited = evaluate_from (limit d r) rs sub q default_allow in
    if not (matches r sub q)
    then skipped
    else if text_eq r.access (codes "LIMIT")
    then limited
    else if text_eq r.access (codes "ALLOW")
    then record d { allow = true }
    else if text_eq r.access (codes "DENY")
    then denied
    else skipped

unfoldable pub evaluate : List Rule → Subject → Query → Bool → Decision
evaluate rs sub q default_allow = evaluate_from denied rs sub q default_allow
