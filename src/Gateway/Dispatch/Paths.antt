-- ===== src/Gateway/Dispatch/Paths.antt =====
-- The path of an endpoint of a layer, taken apart.
use giti.Prelude.{
  ℕ, Bool, true, false, not, ◌&&◌, [], ◌∷◌, ◌++◌, ◌≡◌, refl, sym, ap, ◌∙◌, arith, ◌==◌,
  append_assoc, text_eq, to_lower, Text, codes, and-eq-true, true≢false, false≢true, all_of,
}
use giti.Ows.Negotiate.{split, extend}
use giti.Ows.Exception.{has_prefix}
use giti.Gateway.Dispatch.{
  after, trim_prefix, trim_left, keep_byte, trim_right, is_endpoint, cut, locate, segments,
  parse_path,
}

-- No byte is a slash.
unfoldable pub is_plain : Text → Bool
is_plain = all_of (λ c. not (c == b'/'))

split-plain : (a : Text) → is_plain a ≡ true → split b'/' a ≡ a ∷ []
unfolding split extend is_plain
split-plain [] h = refl
split-plain (c ∷ a) h =
    let both = and-eq-true (not (c == b'/')) (is_plain a) h in
    let other : (c == b'/') ≡ false = ground (arith, both.0) in
    rw other (ap (extend c) (split-plain a both.1))

split-append : (a s : Text) → is_plain a ≡ true → split b'/' (a ++ (b'/' ∷ s)) ≡ a ∷ split b'/' s
unfolding split extend is_plain
split-append [] s h = refl
split-append (c ∷ a) s h =
    let both = and-eq-true (not (c == b'/')) (is_plain a) h in
    let other : (c == b'/') ≡ false = ground (arith, both.0) in
    rw other (ap (extend c) (split-append a s both.1))

trim_right-plain : (t : Text) → is_plain t ≡ true → trim_right t ≡ t
unfolding trim_right keep_byte is_plain
trim_right-plain [] h = refl
trim_right-plain (c ∷ []) h = ground (arith, h)
trim_right-plain (c ∷ x ∷ t) h =
    ap (keep_byte c)
      (trim_right-plain (x ∷ t) (and-eq-true (not (c == b'/')) (is_plain (x ∷ t)) h).1)

keep_byte-append : (c x : ℕ) (a t : Text) → keep_byte c (a ++ (x ∷ t)) ≡ c ∷ (a ++ (x ∷ t))
unfolding keep_byte
keep_byte-append c x [] t = refl
keep_byte-append c x (y ∷ a) t = refl

trim_right-append :
    (a : Text) (x : ℕ) (t : Text)
    → is_plain (x ∷ t) ≡ true
    → trim_right (a ++ (x ∷ t)) ≡ a ++ (x ∷ t)
unfolding trim_right
trim_right-append [] x t h = trim_right-plain (x ∷ t) h
trim_right-append (c ∷ a) x t h =
    ap (keep_byte c) (trim_right-append a x t h) ∙ keep_byte-append c x a t

-- A name that can stand in a path: not empty, without a slash, and not an endpoint.
unfoldable pub is_segment : Text → Bool
unfolding is_plain text_eq
is_segment s = not (text_eq s []) && (is_plain s && not (is_endpoint (to_lower s)))

-- /giti/{workspace}/{layer}/{endpoint}
abbrev pub layer_path : Text → Text → Text → Text
layer_path ws layer endpoint = codes "/giti/" ++ (ws ++ (b'/' ∷ (layer ++ (b'/' ∷ endpoint))))

trim_left-plain : (c : ℕ) (s : Text) → not (c == b'/') ≡ true → trim_left (b'/' ∷ c ∷ s) ≡ c ∷ s
unfolding trim_left
trim_left-plain c s h = ground (arith, h)

append-slashes :
    (a b e : Text) → a ++ (b'/' ∷ (b ++ (b'/' ∷ e))) ≡ (a ++ (b'/' ∷ (b ++ (b'/' ∷ [])))) ++ e
append-slashes a b e = simp append_assoc

trim_right-slashes :
    (a b : Text) (x : ℕ) (e : Text)
    → is_plain (x ∷ e) ≡ true
    → trim_right (a ++ (b'/' ∷ (b ++ (b'/' ∷ (x ∷ e))))) ≡ a ++ (b'/' ∷ (b ++ (b'/' ∷ (x ∷ e))))
trim_right-slashes a b x e h =
    ap trim_right (append-slashes a b (x ∷ e))
    ∙ trim_right-append (a ++ (b'/' ∷ (b ++ (b'/' ∷ [])))) x e h
    ∙ sym (append-slashes a b (x ∷ e))

segments-layer_path :
    (c : ℕ) (ws layer : Text) (x : ℕ) (endpoint : Text)
    → is_plain (c ∷ ws) ≡ true
    → is_plain layer ≡ true
    → is_plain (x ∷ endpoint) ≡ true
    → segments (layer_path (c ∷ ws) layer (x ∷ endpoint)) ≡ (c ∷ ws) ∷ layer ∷ (x ∷ endpoint) ∷ []
unfolding segments trim_prefix has_prefix after is_plain
segments-layer_path c ws layer x endpoint hw hl he =
    let rest = ws ++ (b'/' ∷ (layer ++ (b'/' ∷ (x ∷ endpoint)))) in
    let stripped : trim_left (b'/' ∷ c ∷ rest) ≡ c ∷ rest =
      trim_left-plain c rest (and-eq-true (not (c == b'/')) (is_plain ws) hw).0 in
    ap (λ s. split b'/' (trim_right s)) stripped
    ∙ ap (split b'/') (trim_right-slashes (c ∷ ws) layer x endpoint he)
    ∙ split-append (c ∷ ws) _ hw
    ∙ ap (λ s. (c ∷ ws) ∷ s)
        (split-append layer _ hl ∙ ap (λ s. layer ∷ s) (split-plain (x ∷ endpoint) he))

cut-endpoint :
    (ws layer endpoint : Text)
    → is_endpoint (to_lower ws) ≡ false
    → is_endpoint (to_lower layer) ≡ false
    → is_endpoint (to_lower endpoint) ≡ true
    → cut (ws ∷ layer ∷ endpoint ∷ []) ≡ (ws ∷ layer ∷ [], to_lower endpoint)
unfolding cut
cut-endpoint ws layer endpoint hw hl he = rw hw (rw hl (rw he refl))

is_segment-parts :
    (s : Text)
    → is_segment s ≡ true
    → (text_eq s [] ≡ false) × (is_plain s ≡ true) × (is_endpoint (to_lower s) ≡ false)
unfolding is_segment
is_segment-parts s h =
    let both = and-eq-true (not (text_eq s [])) _ h in
    let rest = and-eq-true (is_plain s) (not (is_endpoint (to_lower s))) both.1 in
    let full : text_eq s [] ≡ false = ground (arith, both.0) in
    let apart : is_endpoint (to_lower s) ≡ false = ground (arith, rest.1) in (full, rest.0, apart)

-- The path of an endpoint of a layer is taken apart into the workspace, the layer and the endpoint,
-- the endpoint in lower case, where the two names have no slash and are no endpoints themselves.
pub parse_path-layer_path :
    (ws layer endpoint : Text)
    → is_segment ws ≡ true
    → is_segment layer ≡ true
    → is_plain endpoint ≡ true
    → is_endpoint (to_lower endpoint) ≡ true
    → parse_path (layer_path ws layer endpoint)
      ≡ record { workspace = ws; layer = layer; endpoint = to_lower endpoint }
unfolding parse_path locate
parse_path-layer_path [] layer endpoint hw hl hp he = absurd (true≢false (is_segment-parts [] hw).0)
parse_path-layer_path (c ∷ ws) layer [] hw hl hp he = absurd (false≢true he)
parse_path-layer_path (c ∷ ws) layer (x ∷ endpoint) hw hl hp he =
    let w = is_segment-parts (c ∷ ws) hw in
    let l = is_segment-parts layer hl in
    ap (λ s. locate (cut s).0 (cut s).1) (segments-layer_path c ws layer x endpoint w.1 l.1 hp)
    ∙ ap (λ p. locate p.0 p.1) (cut-endpoint (c ∷ ws) layer (x ∷ endpoint) w.2 l.2 he)
