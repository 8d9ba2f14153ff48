-- ===== src/Ows/Request.antt =====
-- libs/ogc-kit/ows/request.go and xmlreq.go.
pub mod Params
pub mod Entries
use giti.Prelude.{
  Bool, true, false, Option, none, some, List, [], ◌∷◌, ◌++◌, text_eq, to_upper, to_lower,
  if◌then◌else◌, Text, codes, Result, ok, err,
}

-- A Go map from texts, as an association list in which each key stands once.
abbrev pub Table : Type 0 → Type 0
Table V = List (Text × V)

-- `m[k] = v`
unfoldable pub put : {V : Type 0} → Text → V → Table V → Table V
unfolding text_eq
put k v [] = (k, v) ∷ []
put k v ((k', v') ∷ m) = if text_eq k k' then (k, v) ∷ m else (k', v') ∷ put k v m

-- `v, ok := m[k]`
unfoldable pub find : {V : Type 0} → Text → Table V → Option V
unfolding text_eq
find k [] = none
find k ((k', v') ∷ m) = if text_eq k k' then some v' else find k m

pub record Request : Type 0 where
  pub service : Text
  pub version : Text
  pub request : Text
  pub params : Table (List Text)

-- The first of the values of a parameter.
unfoldable pub head_text : Option (List Text) → Text
head_text (some (v ∷ vs)) = v
head_text _ = []

unfoldable pub first : Table (List Text) → Text → Text
unfolding find head_text
first m k = head_text (find k m)

-- The loop over the values of the URL, in the order in which the map gives them.
unfoldable pub upper_keys : Table (List Text) → Table (List Text) → Table (List Text)
unfolding put
upper_keys params [] = params
upper_keys params ((k, v) ∷ q) = upper_keys (put (to_upper k) v params) q

unfoldable pub parse_kvp : Table (List Text) → Request
unfolding upper_keys first
parse_kvp q =
    let params = upper_keys [] q in
    record {
      service = to_upper (first params (codes "SERVICE"));
      version = first params (codes "VERSION");
      request = first params (codes "REQUEST");
      params = params;
    }

unfoldable pub get : Request → Text → Text
unfolding first
get r key = first r.params (to_upper key)

unfoldable pub has : Request → Text → Bool
unfolding find
has r key = elim (find (to_upper key) r.params) [ none ↦ false | some v ↦ true ]

-- What `xml.Decoder` returns, token by token: a start element with its name and attributes, or
-- another token.
pub data Token : Type 0 where
  start_element : Text → Text → Table Text → Token
  other : Token

-- The tokens of a body, and the error that ends them.
pub record Tokens : Type 0 where
  pub list : List Token
  pub end_error : Text

abbrev pub ns_service : Table Text
ns_service =
    (codes "http://www.opengis.net/wfs", codes "WFS")
    ∷ (codes "http://www.opengis.net/wfs/2.0", codes "WFS")
    ∷ (codes "http://www.opengis.net/wms", codes "WMS")
    ∷ (codes "http://www.opengis.net/wps/1.0.0", codes "WPS")
    ∷ (codes "http://www.opengis.net/wmts/1.0", codes "WMTS")
    ∷ []

-- The loop over the attributes of the root element.
unfoldable pub read_attributes : Request → Table Text → Request
unfolding put text_eq to_lower to_upper
read_attributes r [] = r
read_attributes r ((name, value) ∷ attrs) =
    let key = to_lower name in
    let params = put (to_upper name) (value ∷ []) r.params in
    let as_service =
      read_attributes (record r { service = to_upper value; params = params }) attrs in
    let as_version = read_attributes (record r { version = value; params = params }) attrs in
    let as_other = read_attributes (record r { params = params }) attrs in
    if text_eq key (codes "service")
    then as_service
    else (if text_eq key (codes "version") then as_version else as_other)

-- The service that the namespace of the root implies, where no attribute names one.
unfoldable pub sniff_service : Text → Request → Request
unfolding find text_eq
sniff_service space r =
    if text_eq r.service []
    then elim (find space ns_service) [ some svc ↦ record r { service = svc } | none ↦ r ]
    else r

unfoldable pub parse_tokens : Text → List Token → Result Text Request
unfolding read_attributes sniff_service
parse_tokens end_error [] = err (codes "malformed xml request: " ++ end_error)
parse_tokens end_error (start_element space local attrs ∷ ts) =
    let r : Request = record { service = []; version = []; request = local; params = [] } in
    ok (sniff_service space (read_attributes r attrs))
parse_tokens end_error (other ∷ ts) = parse_tokens end_error ts

-- `decode` stands for `encoding/xml` behind a limit of 10 MB.
unfoldable pub parse_xml : (Text → Tokens) → Text → Result Text Request
unfolding parse_tokens
parse_xml decode body = parse_tokens (decode body).end_error (decode body).list
