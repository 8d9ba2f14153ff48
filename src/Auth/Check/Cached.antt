-- ===== src/Auth/Check/Cached.antt =====
-- What the cache of `check` keeps.
use giti.Prelude.{Bool, Option, none, some, ◌≡◌, ◌≢◌, refl, sym, ap, ◌∙◌, Text}
use giti.Ows.Request.{find}
use giti.Ows.Request.Params.{find-put_same}
use giti.Auth.Rules.{Subject, Query}
use giti.Auth.Check.{
  Backing, CheckOutput, Answer, unauthorized, failed, decided, Cache, cache_key, compute, remember,
  check_cached, check_subject,
}

unauthorized≢decided : {W : Type 0} {x : W} → unauthorized ≢ decided x
unauthorized≢decided h = cc

failed≢decided : {W : Type 0} {x : W} → failed ≢ decided x
failed≢decided h = cc

some-injective : {A : Type 0} {x y : A} → some x ≡ some y → x ≡ y
some-injective h = cc

module _ {W : Type 0} (b b' : Backing) (default_allow : Bool) (marshal : CheckOutput → W) where
  remembered :
      (answer : Answer W) (key : Text) (sub : Subject) (q : Query) (rdb : Cache W) (body : W)
      → answer ≡ decided body
      → (find key (remember b default_allow marshal key answer rdb).entries ≡ some body)
        × ((remember b default_allow marshal key answer rdb).generation ≡ rdb.generation)
  unfolding remember
  remembered (decided x) key sub q rdb body h =
      let same : x ≡ body = cc in (find-put_same key x rdb.entries ∙ ap some same, refl)
  remembered unauthorized key sub q rdb body h = absurd (unauthorized≢decided h)
  remembered failed key sub q rdb body h = absurd (failed≢decided h)

  kept :
      (o : Option W) (key : Text) (sub : Subject) (q : Query) (rdb rdb' : Cache W) (body : W)
      → find key rdb.entries ≡ o
      → (check_cached b default_allow marshal o key sub q rdb).0 ≡ decided body
      → (check_cached b default_allow marshal o key sub q rdb).1 ≡ rdb'
      → (find key rdb'.entries ≡ some body) × (rdb'.generation ≡ rdb.generation)
  unfolding check_cached
  kept (some x) key sub q rdb rdb' body found answered same =
      let value : x ≡ body = cc in
      (
        ap (λ c. find key c.entries) (sym same) ∙ found ∙ ap some value,
        ap (λ c. c.generation) (sym same),
      )
  kept none key sub q rdb rdb' body found answered same =
      let facts =
        remembered (compute b default_allow marshal b.list_rules sub q) key sub q rdb body
          answered in
      (
        ap (λ c. find key c.entries) (sym same) ∙ facts.0,
        ap (λ c. c.generation) (sym same) ∙ facts.1,
      )

  -- An answer that `check` gives is the answer that it gives again, to the same subject and query,
  -- from the cache that it leaves, even if the rules have changed in between, as long as neither
  -- the generation nor the entry has.
  pub check_subject-again :
      (sub : Subject) (q : Query) (rdb rdb' : Cache W) (body : W)
      → (check_subject b default_allow marshal sub q (some rdb)).0 ≡ decided body
      → (check_subject b default_allow marshal sub q (some rdb)).1 ≡ some rdb'
      → (check_subject b' default_allow marshal sub q (some rdb')).0 ≡ decided body
  unfolding check_subject check_cached
  check_subject-again sub q rdb rdb' body answered left =
      let key = cache_key rdb.generation sub q in
      let same : (check_cached b default_allow marshal (find key rdb.entries) key sub q rdb).1
          ≡ rdb' =
        some-injective left in
      let facts = kept (find key rdb.entries) key sub q rdb rdb' body refl answered same in
      let again : find (cache_key rdb'.generation sub q) rdb'.entries ≡ some body =
        ap (λ g. find (cache_key g sub q) rdb'.entries) facts.1 ∙ facts.0 in
      ap
        (λ o.
          (check_cached b' default_allow marshal o (cache_key rdb'.generation sub q) sub q rdb').0)
        again
