-- ===== src/Wfs/Meta/Cached.antt =====
-- What the cache of layers keeps.
use giti.Prelude.{
  ℕ, ◌≡◌, refl, sym, ap, ◌∙◌, Bool, true, Option, none, some, [], ◌∷◌, Text, Result, ok, err,
  Bool-cases, inl, inr, All,
}
use giti.Ows.Request.{find}
use giti.Ows.Request.Entries.{All-put, All-find}
use giti.Prelude.{◌==◌, ◌&&◌, not, arith, ltb, ◌-◌}
use giti.Wfs.Model.{Layer, Catalog, WfsError}
use giti.Wfs.Meta.{introspect, MetaCache, cached_layer, meta_key, keep_layer, resolve_from, resolve}

-- A name that keeps the keys apart: `splitTypeName` cuts at the first colon.
unfoldable pub no_colon : Text → Bool
no_colon [] = true
no_colon (c ∷ s) = not (c == b':') && no_colon s

key_parts :
    (a b x y : Text)
    → no_colon a ≡ true
    → no_colon b ≡ true
    → meta_key a x ≡ meta_key b y
    → (a ≡ b) × (x ≡ y)
unfolding no_colon meta_key
key_parts [] [] x y h k e = (refl, cc)
key_parts [] (c ∷ b) x y h k e = let same : c ≡ b':' = cc in absurd (ground arith)
key_parts (c ∷ a) [] x y h k e = let same : c ≡ b':' = cc in absurd (ground arith)
key_parts (c ∷ a) (d ∷ b) x y h k e =
    let head : c ≡ d = cc in
    let tail : meta_key a x ≡ meta_key b y = cc in
    let (p, q) = key_parts a b x y (ground arith) (ground arith) tail in (cc, q)

kept_result :
    (key : Text) (time : ℕ) (cache : MetaCache) (r : Result WfsError Layer)
    → (keep_layer key time cache r).0 ≡ r
unfolding keep_layer
kept_result key time cache (ok layer) = refl
kept_result key time cache (err e) = refl

module _ (c : Catalog) where
  -- An entry is what the catalog says of its key.
  data IsRead : Text × (Layer × ℕ) → Type 0 where
    read :
        (ws name : Text) {layer : Layer} {at : ℕ}
        → no_colon ws ≡ true
        → introspect c ws name ≡ ok layer
        → IsRead (meta_key ws name, (layer, at))

  -- The caches that calls of Resolve leave, at any times.
  pub data MetaReached : MetaCache → Type 0 where
    empty : MetaReached []
    resolved :
        {cache : MetaCache} (time : ℕ) (ws name : Text)
        → no_colon ws ≡ true
        → MetaReached cache
        → MetaReached (resolve c time cache ws name).1

  keep_layer-IsRead :
      (ws name : Text) (time : ℕ) (cache : MetaCache) (r : Result WfsError Layer)
      → no_colon ws ≡ true
      → introspect c ws name ≡ r
      → All IsRead cache
      → All IsRead (keep_layer (meta_key ws name) time cache r).1
  unfolding keep_layer
  keep_layer-IsRead ws name time cache (err e) n h k = k
  keep_layer-IsRead ws name time cache (ok layer) n h k =
      All-put IsRead (meta_key ws name) (layer, time) cache (read ws name n h) k

  resolve_from-IsRead :
      (ws name : Text) (time : ℕ) (cache : MetaCache) (o : Option Layer)
      → no_colon ws ≡ true
      → All IsRead cache
      → All IsRead (resolve_from c ws name time cache o).1
  unfolding resolve_from
  resolve_from-IsRead ws name time cache (some layer) n k = k
  resolve_from-IsRead ws name time cache none n k =
      keep_layer-IsRead ws name time cache (introspect c ws name) n refl k

  MetaReached-IsRead : (cache : MetaCache) → MetaReached cache → All IsRead cache
  unfolding resolve
  MetaReached-IsRead cache empty = tt
  MetaReached-IsRead cache (resolved {cache = before} time ws name n r) =
      resolve_from-IsRead ws name time before _ n (MetaReached-IsRead before r)

  entry_layer :
      (ws name key : Text) (layer : Layer) (at : ℕ)
      → no_colon ws ≡ true
      → IsRead (key, (layer, at))
      → key ≡ meta_key ws name
      → introspect c ws name ≡ ok layer
  entry_layer ws name key layer at n (read w m k h) e =
      let (p, q) = key_parts w ws m name k n e in
      sym (ap (λ (x : Text × Text). introspect c x.0 x.1) (λ i. (p i, q i))) ∙ h

  fresh_layer :
      (ws name : Text) (time : ℕ) (cache : MetaCache) (o : Option (Layer × ℕ))
      → no_colon ws ≡ true
      → All IsRead cache
      → find (meta_key ws name) cache ≡ o
      → (resolve_from c ws name time cache (cached_layer time o)).0 ≡ introspect c ws name
  unfolding resolve_from cached_layer
  fresh_layer ws name time cache none n k e =
      kept_result (meta_key ws name) time cache (introspect c ws name)
  fresh_layer ws name time cache (some (layer, at)) n k e =
      elim (Bool-cases (ltb (time - at) 60000000000)) [
        | inl young ↦ rw young (
            sym (
              entry_layer ws name (meta_key ws name) layer at n
                (All-find IsRead (meta_key ws name) (layer, at) cache k e) refl))
        | inr old ↦ rw old (kept_result (meta_key ws name) time cache (introspect c ws name))
      ]

  -- While the catalog does not change, Resolve answers from its cache what it reads without one, after
  -- whatever calls for whatever layers at whatever times, if no workspace has a colon in its name.
  pub resolve-eq-introspect :
      (cache : MetaCache) (time : ℕ) (ws name : Text)
      → MetaReached cache
      → no_colon ws ≡ true
      → (resolve c time cache ws name).0 ≡ introspect c ws name
  unfolding resolve
  resolve-eq-introspect cache time ws name r n =
      fresh_layer ws name time cache (find (meta_key ws name) cache) n (MetaReached-IsRead cache r)
        refl
