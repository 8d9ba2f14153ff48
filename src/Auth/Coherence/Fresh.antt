-- ===== src/Auth/Coherence/Fresh.antt =====
-- Once the changes of the rules have raised the generation, the cache answers from the rules.
use giti.Prelude.{
  ℕ, ◌+◌, ◌≤◌, ◌≡◌, refl, ap, subst, ◌∙◌, Bool, Option, none, some, List, ◌∷◌, ◌++◌, Text, arith,
  All, All-append, All-weaken, All-split,
}
use giti.Ows.Request.{Table, find}
use giti.Auth.Rules.{Rule}
use giti.Auth.Check.{Backing, CheckOutput, decided, check_subject, check_cached, compute}
use giti.Ows.Request.Entries.{All-put, All-find}
use giti.Auth.Coherence.{
  Ask, Flight, missed, listed, System, key_of, body_of, cache_of, Step, misses, lists, stores,
  gives_up, changes, bumps, expires, Reached, starts, continues,
}

module _ {W : Type 0} (render : ℕ → Text) (default_allow : Bool) (marshal : CheckOutput → W)
    (asked : Ask → Type 0) where
  -- A body under a generation is that of the rules, if no change is pending and the generation is
  -- the present one.
  pub record IsCurrent (s : System W) (g : ℕ) (x : Ask) (body : W) : Type 0 where
    pub known : g ≤ s.generation
    pub wanted : asked x
    pub fresh : s.pending ≡ 0 → g ≡ s.generation → body ≡ body_of default_allow marshal s.rules x

  data IsFlight (s : System W) : Flight W → Type 0 where
    searching : {g : ℕ} {x : Ask} → g ≤ s.generation → asked x → IsFlight s (missed g x)
    carrying : {g : ℕ} {x : Ask} {body : W} → IsCurrent s g x body → IsFlight s (listed g x body)

  data IsEntry (s : System W) : Text × W → Type 0 where
    stored :
        {g : ℕ} {x : Ask} {body : W} → IsCurrent s g x body → IsEntry s (key_of render g x, body)

  data IsCoherent (s : System W) : Type 0 where
    coherent : All (IsFlight s) s.flights → All (IsEntry s) s.entries → IsCoherent s

  -- What is current in a state is so in another, where its generation or a pending change says it.
  Carries : System W → System W → Type 0
  Carries s s' = (g : ℕ) (x : Ask) (body : W) → IsCurrent s g x body → IsCurrent s' g x body

  carried-IsFlight :
      (s s' : System W)
      → Carries s s'
      → s.generation ≤ s'.generation
      → (f : Flight W) → IsFlight s f
      → IsFlight s' f
  unfolding Carries
  carried-IsFlight s s' c le (missed g x) (searching h k) = searching (omega arith) k
  carried-IsFlight s s' c le (listed g x body) (carrying h) = carrying (c g x body h)

  carried-IsEntry : (s s' : System W) → Carries s s' → (e : Text × W) → IsEntry s e → IsEntry s' e
  unfolding Carries
  carried-IsEntry s s' c e (stored {g} {x} {body} h) = stored (c g x body h)

  -- The two stores are carried over by a step that changes neither.
  carried :
      (s s' : System W)
      → Carries s s'
      → s.generation ≤ s'.generation
      → All (IsFlight s) s.flights
      → All (IsEntry s) s.entries
      → All (IsFlight s') s.flights × All (IsEntry s') s.entries
  carried s s' c le hf he = (
    All-weaken (IsFlight s) (IsFlight s') (carried-IsFlight s s' c le) s.flights hf,
    All-weaken (IsEntry s) (IsEntry s') (carried-IsEntry s s' c) s.entries he,
  )

  changes_carry :
      (s : System W) (rules : List Rule)
      → Carries s (record s { rules = rules; pending = s.pending + 1 })
  unfolding Carries
  changes_carry s rules g x body h = record {
    known = h.known;
    wanted = h.wanted;
    fresh = λ none_pending e. absurd (ground arith);
  }

  bumps_carry :
      (s : System W) (p : ℕ) → Carries s (record s { generation = s.generation + 1; pending = p })
  unfolding Carries
  bumps_carry s p g x body h =
      let le = h.known in
      record {
        known = omega arith;
        wanted = h.wanted;
        fresh = λ none_pending e. absurd (omega arith);
      }

  stays_carry :
      (s : System W) (flights : List (Flight W)) (entries : Table W)
      → Carries s (record s { flights = flights; entries = entries })
  unfolding Carries
  stays_carry s flights entries g x body h = record {
    known = h.known;
    wanted = h.wanted;
    fresh = h.fresh;
  }

  -- What the stores of a state become where only they change.
  restocked :
      (s : System W) (flights : List (Flight W)) (entries : Table W)
      → All (IsFlight s) flights
      → All (IsEntry s) entries
      → IsCoherent (record s { flights = flights; entries = entries })
  restocked s flights entries hf he =
      let s' : System W = record s { flights = flights; entries = entries } in
      let c = stays_carry s flights entries in
      coherent
        (All-weaken (IsFlight s) (IsFlight s') (carried-IsFlight s s' c (omega arith)) flights hf)
        (All-weaken (IsEntry s) (IsEntry s') (carried-IsEntry s s' c) entries he)

  -- One flight and the others around it.
  picked :
      (s : System W) (f : Flight W) (pre post : List (Flight W))
      → s.flights ≡ pre ++ (f ∷ post)
      → All (IsFlight s) s.flights
      → All (IsFlight s) pre × (IsFlight s f × All (IsFlight s) post)
  picked s f pre post e h = All-split (IsFlight s) pre (f ∷ post) (subst (All (IsFlight s)) e h)

  listed_current :
      (s : System W) (g : ℕ) (x : Ask)
      → IsFlight s (missed g x)
      → IsFlight s (listed g x (body_of default_allow marshal s.rules x))
  listed_current s g x (searching h k) =
      carrying record { known = h; wanted = k; fresh = λ p e. refl }

  stored-IsEntry :
      (s : System W) (g : ℕ) (x : Ask) (body : W)
      → IsFlight s (listed g x body)
      → IsEntry s (key_of render g x, body)
  stored-IsEntry s g x body (carrying h) = stored h

  Step-IsCoherent :
      (s s' : System W)
      → Step render default_allow marshal asked s s'
      → IsCoherent s
      → IsCoherent s'
  Step-IsCoherent s s' (misses x k e) (coherent hf he) =
      restocked s _ s.entries (searching (omega arith) k, hf) he
  Step-IsCoherent s s' (lists g x pre post e) (coherent hf he) =
      let (a, (f, b)) = picked s (missed g x) pre post e hf in
      restocked s _ s.entries (All-append (IsFlight s) pre _ a (listed_current s g x f, b)) he
  Step-IsCoherent s s' (stores g x body pre post e) (coherent hf he) =
      let (a, (f, b)) = picked s (listed g x body) pre post e hf in
      restocked s _ _ (All-append (IsFlight s) pre post a b)
        (All-put (IsEntry s) (key_of render g x) body s.entries (stored-IsEntry s g x body f) he)
  Step-IsCoherent s s' (gives_up f pre post e) (coherent hf he) =
      let (a, (g, b)) = picked s f pre post e hf in
      restocked s _ s.entries (All-append (IsFlight s) pre post a b) he
  Step-IsCoherent s s' (changes rules) (coherent hf he) =
      let (a, b) = carried s _ (changes_carry s rules) (omega arith) hf he in coherent a b
  Step-IsCoherent s s' (bumps p e) (coherent hf he) =
      let (a, b) = carried s _ (bumps_carry s p) (omega arith) hf he in coherent a b
  Step-IsCoherent s s' (expires x pre post e) (coherent hf he) =
      let (a, b) = All-split (IsEntry s) pre (x ∷ post) (subst (All (IsEntry s)) e he) in
      restocked s s.flights _ hf (All-append (IsEntry s) pre post a b.1)

  Reached-IsCoherent : (s : System W) → Reached render default_allow marshal asked s → IsCoherent s
  Reached-IsCoherent s (starts rules g) = coherent tt tt
  Reached-IsCoherent s (continues {s = s0} r step) =
      Step-IsCoherent s0 s step (Reached-IsCoherent s0 r)

  module _
      (injective : (g g' : ℕ) (x x' : Ask)
        → asked x
        → asked x'
        → key_of render g x ≡ key_of render g' x'
        → (g ≡ g') × (x ≡ x')) where
    entry_body :
        (s : System W) (x : Ask) (k : Text) (body : W)
        → IsEntry s (k, body)
        → k ≡ key_of render s.generation x
        → s.pending ≡ 0
        → asked x
        → body ≡ body_of default_allow marshal s.rules x
    entry_body s x k body (stored {g} {x = x'} h) e p a =
        let (same, question) = injective g s.generation x' x h.wanted a e in
        h.fresh p same ∙ ap (body_of default_allow marshal s.rules) question

    cached_body :
        (s : System W) (b : Backing) (x : Ask) (o : Option W)
        → find (key_of render s.generation x) s.entries ≡ o
        → All (IsEntry s) s.entries
        → s.pending ≡ 0
        → asked x
        → b.list_rules ≡ some s.rules
        → (check_cached b default_allow marshal o
            (key_of render s.generation x)
            x.0
            x.1
            (cache_of render s)).0
          ≡ decided (body_of default_allow marshal s.rules x)
    unfolding check_cached compute body_of
    cached_body s b x none e h p a l = rw l refl
    cached_body s b x (some body) e h p a l = ap decided (
        entry_body s x (key_of render s.generation x) body
          (All-find (IsEntry s) (key_of render s.generation x) body s.entries h e) refl p a)

    -- In every state that checks and changes of the rules reach, in whatever order their calls come,
    -- and with entries that expire, a check answers from the rules as they are, cached or not, if no
    -- change waits for its bumpGen and the keys of the questions that are asked differ.
    pub Reached-check_subject :
        (s : System W) (b : Backing) (x : Ask)
        → Reached render default_allow marshal asked s
        → s.pending ≡ 0
        → asked x
        → b.list_rules ≡ some s.rules
        → (check_subject b default_allow marshal x.0 x.1 (some (cache_of render s))).0
          ≡ decided (body_of default_allow marshal s.rules x)
    unfolding check_subject cache_of key_of
    Reached-check_subject s b x r p a l = elim (Reached-IsCoherent s r) [
      | coherent hf he ↦
          cached_body s b x (find (key_of render s.generation x) s.entries) refl he p a l
    ]
