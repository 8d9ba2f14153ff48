-- ===== src/Catalog/Rest.antt =====
-- services/catalog/internal/rest: rest.go and encode.go, and what the handlers share. JSON and XML are
-- those of `Wire`, which reads a body, and of `Payload`, which names what is written. A body of at
-- most 10 MB is read whole; the headers of an answer are left out.
pub mod Workspaces
pub mod Resources
pub mod Layers
pub mod Styles
pub mod Routes
pub mod Served
use giti.Prelude.{
  ℕ, Bool, true, false, ◌&&◌, ◌||◌, Option, none, some, List, [], ◌∷◌, ◌++◌, Text, codes, text_eq,
  if◌then◌else◌, Result, ok, err,
}
use giti.Rows.{StoreError, not_found, conflict, passed}
use giti.Ows.Request.{Table, first}
use giti.Ows.Exception.{contains}
use giti.Gateway.Http.{HttpRequest, get_header}
use giti.Catalog.Model.{Workspace, Store, FeatureType, Layer, Style, LayerGroup, CatalogDb}

-- The wire shapes, each for XML and JSON: a field that is absent is empty or false.
pub record WorkspaceBody : Type 0 where
  pub name : Text
  pub isolated : Bool

pub record StoreBody : Type 0 where
  pub name : Text
  pub type : Text
  pub enabled : Bool
  pub description : Text
  pub url : Text
  pub params : List (Text × Text)

pub record ResourceBody : Type 0 where
  pub name : Text
  pub native_name : Text
  pub title : Text
  pub srs : Text
  pub enabled : Bool

pub record StyleBody : Type 0 where
  pub name : Text
  pub format : Text
  pub filename : Text

pub record GroupBody : Type 0 where
  pub name : Text
  pub mode : Text
  pub layers : List Text

-- How a shape is read from XML and from JSON.
pub record Codec (X : Type 0) : Type 0 where
  pub zero_value : X
  pub from_xml : Text → Option X
  pub from_json : Text → Option X

-- The decoders, the connectors (a type may have none, and a validation may fail with a text), and the
-- order of texts in the database.
pub record Wire : Type 0 where
  pub workspace : Codec WorkspaceBody
  pub data_store : Codec StoreBody
  pub coverage_store : Codec StoreBody
  pub feature_type : Codec ResourceBody
  pub coverage : Codec ResourceBody
  pub layer_style : Codec Text
  pub style : Codec StyleBody
  pub group : Codec GroupBody
  pub connector : Text → Option (Store → Option Text)
  pub collate : Text → Text → Bool

-- What an encoder is given. A list of names stands under an outer and an inner key.
pub data Payload : Type 0 where
  names : Text → Text → List Text → Payload
  workspaces_xml : List Workspace → Payload
  workspace_doc : Workspace → Payload
  data_store_doc : Store → Payload
  coverage_store_doc : Store → Text → Payload
  feature_type_doc : FeatureType → Payload
  coverage_doc : FeatureType → Payload
  layer_doc : Layer → Payload
  style_doc : Style → Payload
  group_doc : LayerGroup → Payload

-- A payload in JSON or XML, a plain text, an error's text, or nothing.
pub data Body : Type 0 where
  empty_body : Body
  plain : Text → Body
  store_error : StoreError → Body
  decode_error : Body
  json : Payload → Body
  xml : Payload → Body

pub record Reply : Type 0 where
  pub status : ℕ
  pub body : Body

abbrev pub reply : ℕ → Body → Reply
reply status body = record { status = status; body = body }

-- An event on NATS; that of a workspace has no field `workspace`.
pub record Event : Type 0 where
  pub subject : Text
  pub name : Text
  pub workspace : Option Text

-- The database, and the events that were published, the latest last.
pub record Catalog : Type 0 where
  pub db : CatalogDb
  pub events : List Event

unfoldable pub http_err : StoreError → Reply
http_err not_found = reply 404 (store_error not_found)
http_err conflict = reply 409 (store_error conflict)
http_err (passed e) = reply 500 (store_error (passed e))

-- `strings.HasSuffix(s, suffix)`
unfoldable pub has_suffix : Text → Text → Bool
unfolding text_eq
has_suffix [] suffix = text_eq [] suffix
has_suffix (c ∷ s) suffix = text_eq (c ∷ s) suffix || has_suffix s suffix

-- `strings.TrimSuffix(s, suffix)`
unfoldable pub trim_suffix : Text → Text → Text
unfolding text_eq
trim_suffix [] suffix = []
trim_suffix (c ∷ s) suffix =
    let rest = trim_suffix s suffix in if text_eq (c ∷ s) suffix then [] else c ∷ rest

unfoldable pub trim_format : Text → Text
unfolding trim_suffix
trim_format name = trim_suffix (trim_suffix name (codes ".json")) (codes ".xml")

unfoldable pub wants_json : HttpRequest → Bool
unfolding has_suffix contains get_header
wants_json r =
    has_suffix r.path (codes ".json")
    || contains (get_header (codes "Accept") r.header) (codes "application/json")

-- Where the two encodings show different things.
unfoldable pub write_two : HttpRequest → Payload → Payload → Reply
unfolding wants_json
write_two r xml_body json_body =
    if wants_json r then reply 200 (json json_body) else reply 200 (xml xml_body)

unfoldable pub write_payload : HttpRequest → Payload → Reply
unfolding write_two
write_payload r p = write_two r p p

-- The values of the XML and the JSON destination: the one that is not read keeps its zero value.
unfoldable pub as_xml : {X : Type 0} → X → Option X → Option (X × X)
as_xml zero_value none = none
as_xml zero_value (some x) = some (x, zero_value)

unfoldable pub as_json : {X : Type 0} → X → Option X → Option (X × X)
as_json zero_value none = none
as_json zero_value (some j) = some (zero_value, j)

unfoldable pub read_payload : {X : Type 0} → Codec X → HttpRequest → Option (X × X)
unfolding contains get_header as_xml as_json
read_payload c r =
    if contains (get_header (codes "Content-Type") r.header) (codes "json")
    then as_json c.zero_value (c.from_json r.body)
    else as_xml c.zero_value (c.from_xml r.body)

-- `r.URL.Query().Get("recurse") == "true"`
unfoldable pub recurse_of : HttpRequest → Bool
unfolding first text_eq
recurse_of r = text_eq (first r.query (codes "recurse")) (codes "true")

-- The end of a handler that changes the catalog: an error is answered, and a success is published.
unfoldable pub conclude :
    Reply → List Event → Catalog → Result StoreError CatalogDb → Reply × Catalog
unfolding http_err
conclude done events c (ok db) = (done, record { db = db; events = c.events ++ events })
conclude done events c (err e) = (http_err e, c)

-- The end of a handler that reads.
unfoldable pub show : {A : Type 0} → (A → Reply) → Result StoreError A → Reply
unfolding http_err
show f (ok a) = f a
show f (err e) = http_err e

abbrev pub in_workspace : Text → Text → Text → Event
in_workspace subject name ws = record { subject = subject; name = name; workspace = some ws }
