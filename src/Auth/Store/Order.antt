-- ===== src/Auth/Store/Order.antt =====
-- services/auth/internal/store/store.go with internal/rules/rules.go: the rules of the table, in the
-- order in which ListRules gives them to Evaluate.
use giti.Prelude.{
  ◌≡◌, refl, sym, ap, ◌∙◌, ℕ, ℤ, pos, negsuc, Bool, true, false, not, ◌&&◌, ◌||◌, List, [], ◌∷◌,
  ◌++◌, Text, codes, text_eq, leb, ltb_int, eq_int, ok, all_of, arith, inl, inr, Bool-cases,
  and-eq-true,
}
use giti.Rows.{any_row, keep, drop_rows, order_by}
use giti.Rows.Inserts.{affected-eq}
use giti.Rows.Laws.{all_of-weaken}
use giti.Rows.Sorted.{sorted, order_by-sorted, order_by-append_first, keep-order_by}
use giti.Auth.Rules.{
  Rule, Subject, Query, Decision, denied, is_any, field_match, role_match, matches, limit,
  evaluate_from, evaluate,
}
use giti.Auth.Store.{
  AuthDb, norm, normalised, is_access, create_rule, rule_precedes, list_rules, has_id, delete_rule,
}

-- The comparison that ORDER BY makes of a priority and an identifier.
unfoldable precedes : ℤ → ℤ → ℕ → ℕ → Bool
precedes p q i j = ltb_int p q || (eq_int p q && leb i j)

precedes_total : (p q : ℤ) (i j : ℕ) → precedes p q i j ≡ false → precedes q p j i ≡ true
unfolding precedes ltb_int eq_int
precedes_total (pos m) (pos n) i j h = ground arith
precedes_total (pos m) (negsuc n) i j h = refl
precedes_total (negsuc m) (pos n) i j h = cc
precedes_total (negsuc m) (negsuc n) i j h = ground arith

precedes_trans :
    (p q r : ℤ) (i j k : ℕ)
    → precedes p q i j ≡ true
    → precedes q r j k ≡ true
    → precedes p r i k ≡ true
unfolding precedes ltb_int eq_int
precedes_trans (pos l) (pos m) (pos n) i j k h e = ground arith
precedes_trans (negsuc l) (negsuc m) (negsuc n) i j k h e = ground arith
precedes_trans (negsuc l) (pos m) (pos n) i j k h e = refl
precedes_trans (negsuc l) (negsuc m) (pos n) i j k h e = refl
precedes_trans (pos l) (negsuc m) r i j k h e = ground arith
precedes_trans p (pos m) (negsuc n) i j k h e = ground arith

rule_precedes_total : (r s : Rule) → rule_precedes r s ≡ false → rule_precedes s r ≡ true
unfolding rule_precedes precedes
rule_precedes_total r s = precedes_total r.priority s.priority r.id s.id

rule_precedes_trans :
    (r s t : Rule) → rule_precedes r s ≡ true → rule_precedes s t ≡ true → rule_precedes r t ≡ true
unfolding rule_precedes precedes
rule_precedes_trans r s t = precedes_trans r.priority s.priority t.priority r.id s.id t.id

-- ListRules gives the rules in the order of their priorities, and of their identifiers where those
-- are equal.
pub list_rules-sorted : (db : AuthDb) → sorted rule_precedes (list_rules db) ≡ true
unfolding list_rules
list_rules-sorted db =
    order_by-sorted rule_precedes rule_precedes_total rule_precedes_trans db.rules

field_match-norm : (v q : Text) → field_match (norm v) q ≡ field_match v q
unfolding field_match norm is_any text_eq
field_match-norm [] q = refl
field_match-norm (c ∷ v) q = refl

role_match-norm : (v : Text) (roles : List Text) → role_match (norm v) roles ≡ role_match v roles
unfolding role_match norm is_any text_eq
role_match-norm [] roles = refl
role_match-norm (c ∷ v) roles = refl

matches-normalised :
    (r : Rule) (n : ℕ) (sub : Subject) (q : Query)
    → matches (record (normalised r) { id = n }) sub q ≡ matches r sub q
unfolding matches normalised
matches-normalised r n sub q = cc (
  field_match-norm r.username sub.username,
  role_match-norm r.rolename sub.roles,
  field_match-norm r.service q.service,
  field_match-norm r.request q.request,
  field_match-norm r.workspace q.workspace,
  field_match-norm r.layer q.layer,
)

-- Evaluation reads only the rules that match.
evaluate_from-keep :
    (d : Decision) (rs : List Rule) (sub : Subject) (q : Query) (da : Bool)
    → evaluate_from d (keep (λ (r : Rule). matches r sub q) rs) sub q da
      ≡ evaluate_from d rs sub q da
unfolding evaluate_from keep
evaluate_from-keep d [] sub q da = refl
evaluate_from-keep d (r ∷ rs) sub q da =
    let skipped = evaluate_from-keep d rs sub q da in
    let limited = evaluate_from-keep (limit d r) rs sub q da in
    elim (Bool-cases (matches r sub q)) [
      | inl chosen ↦ rw (chosen, chosen, skipped, limited) refl
      | inr passed ↦ rw (passed, skipped) refl
    ]

keep-append_none :
    (q : Rule → Bool) (r : Rule) (rs : List Rule)
    → q r ≡ false
    → keep q (rs ++ (r ∷ [])) ≡ keep q rs
unfolding keep
keep-append_none q r [] h = rw h refl
keep-append_none q r (s ∷ rs) h = rw (keep-append_none q r rs h) refl

keep-drop_rows :
    (q p : Rule → Bool) (rs : List Rule)
    → all_of (λ (r : Rule). not (p r && q r)) rs ≡ true
    → keep q (drop_rows p rs) ≡ keep q rs
unfolding keep drop_rows
keep-drop_rows q p [] h = refl
keep-drop_rows q p (r ∷ rs) h =
    let (here, rest) =
      and-eq-true (not (p r && q r)) (all_of (λ (s : Rule). not (p s && q s)) rs) h in
    let ih = keep-drop_rows q p rs rest in
    elim (Bool-cases (p r)) [
      | inl dropped ↦
          let passed : q r ≡ false = ground (arith, here, dropped) in rw dropped (rw passed ih)
      | inr kept ↦ rw (kept, ih) refl
    ]

-- Two tables with the same matching rules give the same decision.
evaluate-same_kept :
    (xs ys : List Rule) (sub : Subject) (q : Query) (da : Bool)
    → keep (λ (r : Rule). matches r sub q) xs ≡ keep (λ (r : Rule). matches r sub q) ys
    → evaluate (order_by rule_precedes xs) sub q da ≡ evaluate (order_by rule_precedes ys) sub q da
unfolding evaluate
evaluate-same_kept xs ys sub q da h =
    let chosen = λ (r : Rule). matches r sub q in
    let ordered : (zs : List Rule)
        → keep chosen (order_by rule_precedes zs) ≡ order_by rule_precedes (keep chosen zs) =
      keep-order_by rule_precedes rule_precedes_total rule_precedes_trans chosen in
    sym (evaluate_from-keep denied (order_by rule_precedes xs) sub q da)
    ∙ ap (λ (zs : List Rule). evaluate_from denied zs sub q da)
        (ordered xs ∙ ap (order_by rule_precedes) h ∙ sym (ordered ys))
    ∙ evaluate_from-keep denied (order_by rule_precedes ys) sub q da

-- A new rule, wherever its priority puts it, leaves the decisions on all that it does not match.
pub create_rule-unmatched :
    (r : Rule) (db : AuthDb) (sub : Subject) (q : Query) (default_allow : Bool)
    → matches r sub q ≡ false
    → evaluate (list_rules (create_rule r db).1) sub q default_allow
      ≡ evaluate (list_rules db) sub q default_allow
unfolding create_rule list_rules
create_rule-unmatched r db sub q da h =
    let row = record (normalised r) { id = db.next_id } in
    let skipped : matches row sub q ≡ false = matches-normalised r db.next_id sub q ∙ h in
    elim (Bool-cases (is_access r.access)) [
      | inl valid ↦ rw valid (
          evaluate-same_kept (db.rules ++ (row ∷ [])) db.rules sub q da
            (keep-append_none (λ (s : Rule). matches s sub q) row db.rules skipped))
      | inr refused ↦ rw refused refl
    ]

-- Deleting the rules of an identifier leaves the decisions on all that they do not match.
pub delete_rule-unmatched :
    (n : ℤ) (db db' : AuthDb) (sub : Subject) (q : Query) (default_allow : Bool)
    → delete_rule n db ≡ ok db'
    → all_of (λ (r : Rule). not (has_id n r && matches r sub q)) db.rules ≡ true
    → evaluate (list_rules db') sub q default_allow ≡ evaluate (list_rules db) sub q default_allow
unfolding delete_rule list_rules
delete_rule-unmatched n db db' sub q da e h =
    let (found, gone) =
      affected-eq (any_row (has_id n) db.rules)
        (record db { rules = drop_rows (has_id n) db.rules }) db' e in
    rw gone (
      evaluate-same_kept (drop_rows (has_id n) db.rules) db.rules sub q da
        (keep-drop_rows (λ (r : Rule). matches r sub q) (has_id n) db.rules h))

ltb_int-later : (p q : ℤ) (i j : ℕ) → ltb_int p q ≡ true → not (precedes q p i j) ≡ true
unfolding precedes ltb_int eq_int
ltb_int-later (pos m) (pos n) i j h = ground arith
ltb_int-later (pos m) (negsuc n) i j h = cc
ltb_int-later (negsuc m) (pos n) i j h = refl
ltb_int-later (negsuc m) (negsuc n) i j h = ground arith

denial-valid : (r : Rule) → r.access ≡ codes "DENY" → is_access r.access ≡ true
unfolding is_access text_eq
denial-valid r deny = rw deny refl

evaluate-denial :
    (r : Rule) (rs : List Rule) (sub : Subject) (q : Query) (da : Bool)
    → matches r sub q ≡ true
    → r.access ≡ codes "DENY"
    → evaluate (r ∷ rs) sub q da ≡ denied
unfolding evaluate evaluate_from text_eq
evaluate-denial r rs sub q da h deny = rw (h, deny) refl

-- Where a DENY rule is created with a priority smaller than those of all other rules, whatever it
-- matches is denied.
pub create_rule-denies :
    (r : Rule) (db : AuthDb) (sub : Subject) (q : Query) (default_allow : Bool)
    → r.access ≡ codes "DENY"
    → all_of (λ (s : Rule). ltb_int r.priority s.priority) db.rules ≡ true
    → matches r sub q ≡ true
    → evaluate (list_rules (create_rule r db).1) sub q default_allow ≡ denied
unfolding create_rule list_rules normalised rule_precedes precedes
create_rule-denies r db sub q da deny below h =
    let row = record (normalised r) { id = db.next_id } in
    let chosen : matches row sub q ≡ true = matches-normalised r db.next_id sub q ∙ h in
    let after : all_of (λ (s : Rule). not (rule_precedes s row)) db.rules ≡ true =
      all_of-weaken (λ (s : Rule). ltb_int r.priority s.priority)
        (λ (s : Rule). not (rule_precedes s row))
        (λ (s : Rule) e. ltb_int-later r.priority s.priority s.id db.next_id e) db.rules below in
    let first : order_by rule_precedes (db.rules ++ (row ∷ []))
        ≡ row ∷ order_by rule_precedes db.rules =
      order_by-append_first rule_precedes row db.rules after in
    rw (denial-valid r deny) (
      ap (λ (zs : List Rule). evaluate zs sub q da) first
      ∙ evaluate-denial row (order_by rule_precedes db.rules) sub q da chosen deny)
