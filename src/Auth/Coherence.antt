-- ===== src/Auth/Coherence.antt =====
-- services/auth/internal/api/check.go with api.go's bumpGen and geofence.go: several checks and changes
-- of the rules at once, on one PostgreSQL and one Redis. Each step is one call of a store; between
-- the calls of one handler those of others may come.
pub mod Fresh
use giti.Prelude.{ℕ, ◌+◌, ◌≡◌, Bool, Option, none, some, List, [], ◌∷◌, ◌++◌, Text}
use giti.Ows.Request.{Table, find, put}
use giti.Auth.Rules.{Rule, Subject, Query, evaluate}
use giti.Auth.Check.{CheckOutput, Cache, cache_key, output}

-- What is asked: a subject and a query.
abbrev pub Ask : Type 0
Ask = Subject × Query

-- A check on its way: it found no entry under the generation, or it has the body for the entry.
pub data Flight (W : Type 0) : Type 0 where
  missed : ℕ → Ask → Flight W
  listed : ℕ → Ask → W → Flight W

-- The rules in PostgreSQL; `authz:gen` and the entries in Redis; the checks on their way, and the
-- number of changes that are made and whose bumpGen is still to come.
pub record System (W : Type 0) : Type 0 where
  pub rules : List Rule
  pub generation : ℕ
  pub entries : Table W
  pub flights : List (Flight W)
  pub pending : ℕ

-- `render` is the text in which Redis returns the counter.
unfoldable pub key_of : (ℕ → Text) → ℕ → Ask → Text
unfolding cache_key
key_of render g (sub, q) = cache_key (render g) sub q

-- The body that a check makes of the rules.
unfoldable pub body_of : {W : Type 0} → Bool → (CheckOutput → W) → List Rule → Ask → W
unfolding output evaluate
body_of default_allow marshal rs (sub, q) = marshal (output sub (evaluate rs sub q default_allow))

unfoldable pub cache_of : {W : Type 0} → (ℕ → Text) → System W → Cache W
cache_of render s = record { generation = render s.generation; entries = s.entries }

module _ {W : Type 0} (render : ℕ → Text) (default_allow : Bool) (marshal : CheckOutput → W)
    (asked : Ask → Type 0) where
  pub data Step : System W → System W → Type 0 where
    -- `Get` of the generation, and of an entry that is not there.
    misses :
        {s : System W} (x : Ask)
        → asked x
        → find (key_of render s.generation x) s.entries ≡ none
        → Step s (record s { flights = missed s.generation x ∷ s.flights })
    -- `ListRules`, and `Evaluate` on what it returns.
    lists :
        {s : System W} (g : ℕ) (x : Ask) (pre post : List (Flight W))
        → s.flights ≡ pre ++ (missed g x ∷ post)
        → Step s (record s {
          flights = pre ++ (listed g x (body_of default_allow marshal s.rules x) ∷ post);
        })
    -- `Set` of the entry.
    stores :
        {s : System W} (g : ℕ) (x : Ask) (body : W) (pre post : List (Flight W))
        → s.flights ≡ pre ++ (listed g x body ∷ post)
        → Step s
            (record s { flights = pre ++ post; entries = put (key_of render g x) body s.entries })
    -- A check that ends before it stores anything.
    gives_up :
        {s : System W} (f : Flight W) (pre post : List (Flight W))
        → s.flights ≡ pre ++ (f ∷ post)
        → Step s (record s { flights = pre ++ post })
    -- `CreateRule` and `DeleteRule`: the rules become others.
    changes :
        {s : System W} (rules : List Rule)
        → Step s (record s { rules = rules; pending = s.pending + 1 })
    -- `Incr` in bumpGen.
    bumps :
        {s : System W} (p : ℕ)
        → s.pending ≡ p + 1
        → Step s (record s { generation = s.generation + 1; pending = p })
    -- Redis drops an entry.
    expires :
        {s : System W} (e : Text × W) (pre post : Table W)
        → s.entries ≡ pre ++ (e ∷ post)
        → Step s (record s { entries = pre ++ post })

  -- The states that are reached from an empty cache.
  pub data Reached : System W → Type 0 where
    starts :
        (rules : List Rule) (g : ℕ)
        → Reached record { rules = rules; generation = g; entries = []; flights = []; pending = 0 }
    continues : {s s' : System W} → Reached s → Step s s' → Reached s'
