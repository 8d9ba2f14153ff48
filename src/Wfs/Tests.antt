-- ===== src/Wfs/Tests.antt =====
-- Runs of the feature service on a layer of roads.
use giti.Prelude.{
  ℕ, ◌≡◌, ◌≤◌, refl, ltb, true, false, Option, none, some, List, [], ◌∷◌, Text, codes, text_eq, pos,
  ok, err, arith,
}
use giti.Filter.Ast.{Expr, string, property, literal, compare}
use giti.Filter.Parser.{parse_cql}
use giti.Filter.Xml.Tree.{XmlToken, start_of, end_of, char_data, Node, node, leaf}
use giti.Filter.Xml.Convert.{convert_op, parse_filter_xml}
use giti.Filter.Xml.Grammar.{parse_filter_xml-IsXmlFilter}
use giti.Filter.Xml.Forms.{IsXmlFilter}
use giti.Ows.Request.{Table, Request}
use giti.Gateway.Http.{HttpRequest, get_header}
use giti.Wfs.Model.{Catalog, Column, Layer, Tools, panicked}
use giti.Wfs.Encode.{csv_body, row_id, cell_text, identifier, value_at}
use giti.Wfs.Params.{GfParams}
use giti.Wfs.Meta.{introspect, resolve}
use giti.Wfs.Meta.Cached.{resolve-eq-introspect, resolved, empty, no_colon}
use giti.Wfs.Meaning.{IsConstrained}
use giti.Wfs.Database.{Statement, LockEntry, Shared, World, recover, resume}
use giti.Wfs.Database.Sends.{Sends}
use giti.Wfs.GetFeature.{parse_get_feature, sort_of}
use giti.Wfs.GetFeature.Constrained.{parse_get_feature-IsConstrained}
use giti.Wfs.Statements.{qi}
use giti.Wfs.Encode.Csv.{read_document}
use giti.Wfs.Encode.Csv.Document.{fields_of, read_document-csv_body}
use giti.Wfs.Stream.{get_feature}
use giti.Wfs.Stream.Harmless.{get_feature-Sends}
use giti.Wfs.Locks.{
  enforce_from, enforce_target, locked_ids, store_lock, minutes, lock_expiry, add_duration, held,
}
use giti.Wfs.Locks.Rules.{
  is_some, blocked, enforce_from-blocked, store_lock-blocks, store_lock-passes,
}
use giti.Wfs.Locks.Expiry.{add_duration-lock_expiry}
use giti.Wfs.Xml.{tx_filter, tx_filter_where, attr}
use giti.Wfs.Xml.Edits.{tx_filter-IsConstrained}
use giti.Wfs.Transaction.{resolve_tx_layer, transaction, do_update, do_delete}
use giti.Wfs.Transaction.Harmless.{transaction-Sends}
use giti.Wfs.Transaction.Locked.{IsRefused, edits-IsRefused}

abbrev road_columns : List Column
road_columns =
    record { name = codes "id"; kind = codes "integer" }
    ∷ record { name = codes "name"; kind = codes "text" }
    ∷ []

abbrev roads : Layer
roads = record {
  workspace = codes "city";
  name = codes "roads";
  native_name = codes "roads";
  srs = codes "EPSG:4326";
  table = codes "roads";
  geom_col = codes "geom";
  geom_type = codes "LINESTRING";
  srid = 4326;
  columns = road_columns;
}

-- A filter on the name, as the decoder returns it.
abbrev name_tokens : List XmlToken
name_tokens =
    start_of (codes "Filter") []
    ∷ start_of (codes "PropertyIsEqualTo") []
    ∷ start_of (codes "PropertyName") []
    ∷ char_data (codes "name")
    ∷ end_of
    ∷ start_of (codes "Literal") []
    ∷ char_data (codes "Ring")
    ∷ end_of
    ∷ end_of
    ∷ end_of
    ∷ []

abbrev keep : Text → Option Text
keep t = some t

abbrev same : Text → Text
same t = t

abbrev catalog : Catalog
catalog = record {
  resource = λ sql names. some (codes "roads", codes "EPSG:4326", codes "pg");
  connection = λ sql names. ok [];
  geometry = λ pool sql names. ok (codes "geom", codes "LINESTRING", 0);
  columns_of = λ pool sql names. ok road_columns;
  pool_error = λ dsn. none;
  env_dsn = [];
}

-- Stand-ins for the packages: a float is its text, and every body is the filter.
abbrev tools : Tools Text
tools = record {
  parse_float = keep;
  scan_float = keep;
  scan_int = λ t. none;
  print_float = same;
  xml_tokens = λ t. (name_tokens, codes "EOF");
  quote = same;
  catalog = catalog;
}

-- A database whose answer is always the road 7, at time 5.
abbrev world : World Text Text
world = record {
  answer =
      λ sent s. ok record { rows = (some (codes "7") ∷ []) ∷ []; number = 1; end_error = none };
  clock = λ sent. 5;
  new_lock_id = λ sent. codes "GITI_2";
  show = same;
  json_object = λ t. [];
}

abbrev http : HttpRequest
http = record {
  method = codes "GET";
  path = codes "/wfs";
  query = [];
  header =
      (codes "X-Giti-CQL-Read", codes "a = b") ∷ (codes "X-Giti-CQL-Write", codes "a = b") ∷ [];
  body = [];
  remote = codes "10.0.0.1:5000";
}

abbrev request : Request
request = record {
  service = codes "WFS";
  version = codes "2.0.0";
  request = codes "GetFeature";
  params = (codes "TYPENAMES", codes "city:roads" ∷ []) ∷ [];
}

abbrev constraint : Expr Text
constraint = compare (codes "=") (property (codes "a")) (property (codes "b"))

abbrev params : GfParams Text
params = record {
  layer = roads;
  filter = some constraint;
  props = [];
  sort_col = [];
  sort_dir = [];
  offset = pos 0;
  limit = pos 0;
  count_only = false;
  format = [];
  out_srid = 0;
  value_ref = [];
}

abbrev name_filter : Expr Text
name_filter = compare (codes "=") (property (codes "name")) (literal (string (codes "Ring")))

parse_filter_xml-IsXmlFilter_example : IsXmlFilter name_filter
unfolding parse_filter_xml convert_op
parse_filter_xml-IsXmlFilter_example =
    parse_filter_xml-IsXmlFilter keep same (name_tokens, codes "EOF") name_filter refl

parse_get_feature-IsConstrained_example : IsConstrained constraint (some constraint)
unfolding parse_cql parse_get_feature get_header
parse_get_feature-IsConstrained_example =
    parse_get_feature-IsConstrained tools http request b'a' (codes " = b") constraint params refl
      refl refl

get_feature-Sends_example : Sends (get_feature world tools http request (codes "2.0.0"))
get_feature-Sends_example = get_feature-Sends world tools http request (codes "2.0.0")

transaction-Sends_example : Sends (transaction tools world http (codes "<Transaction/>"))
transaction-Sends_example = transaction-Sends tools world http (codes "<Transaction/>")

abbrev deletion : Node
deletion = node (codes "Delete") ((codes "typeName", codes "city:roads") ∷ []) leaf []

tx_filter-IsConstrained_example : IsConstrained constraint (some constraint)
unfolding parse_cql tx_filter get_header
tx_filter-IsConstrained_example =
    tx_filter-IsConstrained tools http deletion b'a' (codes " = b") constraint (some constraint)
      refl refl refl

abbrev one_lock : Table LockEntry
one_lock =
    (codes "GITI_1", record { table = codes "roads"; ids = codes "7" ∷ []; expires = 100 }) ∷ []

abbrev old_lock : Table LockEntry
old_lock =
    (codes "GITI_0", record { table = codes "roads"; ids = codes "7" ∷ []; expires = 3 }) ∷ []

abbrev shared : Shared Text
shared = record { sent = []; locks = one_lock }

abbrev seven : List Text
seven = codes "7" ∷ []

enforce_from-blocked_example : is_some (enforce_from 5 [] (codes "roads") seven one_lock).0 ≡ true
unfolding blocked
enforce_from-blocked_example = enforce_from-blocked 5 [] (codes "roads") seven one_lock

store_lock-blocks_example :
    is_some
      (enforce_from 9 []
        (codes "roads")
        seven
        (store_lock world (codes "GITI_2") (codes "roads") seven (pos 1) shared).1.locks).0
    ≡ true
unfolding add_duration lock_expiry text_eq held
store_lock-blocks_example =
    store_lock-blocks world (codes "GITI_2") (codes "roads") seven (pos 1) shared 9 [] seven
      (codes "7") (omega arith) refl refl

-- A clock that stands a minute later once a statement was sent.
minute_clock : List (Statement Text) → ℕ
minute_clock [] = 5
minute_clock (statement ∷ sent) = 60000000006

abbrev minute_world : World Text Text
minute_world = record world { clock = minute_clock }

abbrev question : Statement Text
question = record { sql = codes "SELECT 1"; args = [] }

abbrev old_shared : Shared Text
old_shared = record { sent = []; locks = old_lock }

abbrev later : Shared Text
later = record {
  sent = question ∷ [];
  locks =
      (store_lock minute_world (codes "GITI_2") (codes "roads") seven (pos 1) old_shared).1.locks;
}

store_lock-passes_example :
    enforce_target minute_world roads [] seven later
    ≡ (ok tt, record { sent = question ∷ []; locks = [] })
unfolding add_duration lock_expiry minute_clock
store_lock-passes_example =
    store_lock-passes minute_world (codes "GITI_2") (codes "roads") seven (pos 1) old_shared roads
      [] (codes "7") [] later refl (omega arith) (omega arith, tt)

add_duration-lock_expiry_example :
    (add_duration 5 (lock_expiry (pos 2)) ≡ 120000000005)
    × (60000000005 ≤ add_duration 5 (lock_expiry (pos 2)))
unfolding minutes
add_duration-lock_expiry_example = add_duration-lock_expiry 5 (pos 2) (omega arith)

-- A road whose name has a comma, quotes and a line feed.
abbrev road_row : List (Option Text)
road_row = some (codes "7") ∷ some (codes "a,\"b\"\nc") ∷ none ∷ []

read_document-csv_body_example :
    read_document (
      csv_body world same params road_columns
        record { rows = road_row ∷ []; number = 1; end_error = none })
    ≡ (codes "FID" ∷ codes "id" ∷ codes "name" ∷ codes "geom" ∷ [])
      ∷ (codes "roads.7" ∷ codes "7" ∷ codes "a,\"b\"\nc" ∷ [] ∷ [])
      ∷ []
unfolding fields_of row_id cell_text identifier value_at
read_document-csv_body_example =
    read_document-csv_body world same params road_columns
      record { rows = road_row ∷ []; number = 1; end_error = none }

abbrev plain : HttpRequest
plain = record {
  method = codes "POST";
  path = codes "/wfs";
  query = [];
  header = [];
  body = [];
  remote = codes "10.0.0.1:5000";
}

abbrev asked : Shared Text
asked = record {
  sent = record { sql = codes "SELECT id::text FROM \"roads\""; args = [] } ∷ [];
  locks = one_lock;
}

edits-IsRefused_example :
    IsRefused roads asked (do_update tools world plain deletion [] shared)
    × IsRefused roads asked (do_delete tools world plain deletion [] shared)
unfolding resolve_tx_layer qi tx_filter_where locked_ids blocked attr recover resume
edits-IsRefused_example =
    edits-IsRefused tools world plain deletion [] roads (codes "\"roads\"") ([], []) (codes "7") []
      shared asked refl refl refl refl refl

-- `sortBy=+`: there is no field to take.
plus_alone : sort_of (codes "+") ≡ err panicked
unfolding sort_of
plus_alone = refl

-- 153722868 minutes do not fit: the lock has expired when it is taken.
overflowed :
    ltb (add_duration 9223372036854775808 (lock_expiry (pos 153722868))) 9223372036854775808 ≡ true
unfolding add_duration lock_expiry minutes
overflowed = refl

-- The layer of the database, whose srid is not set.
resolve-eq-introspect_example :
    (resolve catalog 9
      (resolve catalog 5 [] (codes "city") (codes "roads")).1
      (codes "city")
      (codes "roads")).0
    ≡ ok roads
unfolding introspect no_colon
resolve-eq-introspect_example =
    resolve-eq-introspect catalog (resolve catalog 5 [] (codes "city") (codes "roads")).1 9
      (codes "city") (codes "roads") (resolved 5 (codes "city") (codes "roads") refl empty) refl
