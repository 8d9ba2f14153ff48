-- ===== src/Wfs/Encode.antt =====
-- The texts that services/wfs/internal/wfs/encode.go, transaction.go and stored_lock.go write for
-- the rows of the database.
pub mod Csv
pub mod Gml
use giti.Prelude.{
  ℕ, zero, suc, Bool, false, ◌||◌, Option, none, some, List, [], ◌∷◌, ◌++◌, map, ◌==◌,
  if◌then◌else◌, Text, codes, decimal, join, length,
}
use giti.Ows.Request.{Table, put, find}
use giti.Ows.Exception.{has_prefix}
use giti.Wfs.Model.{Column}
use giti.Wfs.Params.{GfParams}
use giti.Wfs.Database.{World, Reply}

-- `strings.ContainsAny(f, ",\"\n")`
unfoldable pub needs_quotes : Text → Bool
needs_quotes [] = false
needs_quotes (c ∷ f) = (c == b',' || c == b'"' || c == b'\n') || needs_quotes f

-- ``strings.ReplaceAll(f, `"`, `""`)``
unfoldable pub double_quotes : Text → Text
double_quotes [] = []
double_quotes (c ∷ f) =
    let rest = double_quotes f in if c == b'"' then b'"' ∷ b'"' ∷ rest else c ∷ rest

unfoldable pub csv_field : Text → Text
unfolding needs_quotes double_quotes
csv_field f = if needs_quotes f then b'"' ∷ (double_quotes f ++ (b'"' ∷ [])) else f

unfoldable pub csv_row : List Text → Text
unfolding csv_field join
csv_row fields = join (codes ",") (map csv_field fields)

-- `xmlEsc` and `escapeXML`
unfoldable pub xml_esc : Text → Text
xml_esc [] = []
xml_esc (c ∷ s) =
    (if c == b'&'
      then codes "&amp;"
      else if c == b'<'
      then codes "&lt;"
      else if c == b'>'
      then codes "&gt;"
      else c ∷ [])
    ++ xml_esc s

module _ {V : Type 0} (show : V → Text) where
  -- `fmt.Sprintf("%v", deref(v))`
  unfoldable pub cell_text : Option V → Text
  cell_text none = []
  cell_text (some v) = show v

  -- `fmt.Sprintf("%v", v)`
  unfoldable pub value_text : Option V → Text
  value_text none = codes "<nil>"
  value_text (some v) = show v

-- `vals[i]`: a row has a value for each column that was selected.
unfoldable pub value_at : {V : Type 0} → ℕ → List (Option V) → Option V
value_at i [] = none
value_at zero (v ∷ vals) = v
value_at (suc i) (v ∷ vals) = value_at i vals

unfoldable pub props_from :
    {V : Type 0} → Table (Option V) → List Column → List (Option V) → Table (Option V)
unfolding put
props_from props [] vals = props
props_from props (c ∷ cols) [] = props
props_from props (c ∷ cols) (v ∷ vals) = props_from (put c.name v props) cols vals

unfoldable pub identifier : {V : Type 0} → (V → Text) → Text → Option V → Text
identifier show table none = []
identifier show table (some v) = table ++ (b'.' ∷ show v)

unfoldable pub flatten : {V : Type 0} → Option (Option V) → Option V
flatten none = none
flatten (some v) = v

module _ {F V : Type 0} (world : World F V) (quote : Text → Text) (p : GfParams F) where
  unfoldable pub json_id : List Column → Table (Option V) → Text
  unfolding identifier flatten find
  json_id [] props = []
  json_id (c ∷ cols) props = identifier world.show p.layer.table (flatten (find c.name props))

  unfoldable pub json_geometry : Option V → Text
  json_geometry none = codes "null"
  json_geometry (some g) = world.show g

  unfoldable pub json_feature : List Column → List (Option V) → Text
  unfolding json_id json_geometry props_from value_at
  json_feature cols vals =
      let props = props_from [] cols vals in
      codes "{\"type\":\"Feature\",\"id\":"
      ++ (quote (json_id cols props)
          ++ (codes ",\"geometry\":"
              ++ (json_geometry (value_at (length cols) vals)
                  ++ (codes ",\"properties\":" ++ (world.json_object props ++ codes "}")))))

  unfoldable pub json_tail : ℕ → ℕ → Option Text → Text
  unfolding decimal
  json_tail matched returned (some e) = []
  json_tail matched returned none =
      codes "],\"totalFeatures\":"
      ++ (decimal matched
          ++ (codes ",\"numberMatched\":"
              ++ (decimal matched
                  ++ (codes ",\"numberReturned\":" ++ (decimal returned ++ codes "}")))))

  unfoldable pub geojson_body : List Column → ℕ → Reply V → Text
  unfolding json_feature json_tail join
  geojson_body cols matched r =
      codes "{\"type\":\"FeatureCollection\",\"features\":["
      ++ (join (codes ",") (map (json_feature cols) r.rows)
          ++ json_tail matched (length r.rows) r.end_error)

  unfoldable pub row_id : List Column → List (Option V) → Text
  unfolding identifier value_at
  row_id [] vals = []
  row_id (c ∷ cols) vals = identifier world.show p.layer.table (value_at 0 vals)

  unfoldable pub csv_record : List Column → List (Option V) → Text
  unfolding row_id cell_text csv_row
  csv_record cols vals =
      csv_row (row_id cols vals ∷ map (cell_text world.show) vals) ++ (b'\n' ∷ [])

  unfoldable pub column_name : Column → Text
  column_name c = c.name

  unfoldable pub csv_body : List Column → Reply V → Text
  unfolding csv_record csv_row join column_name
  csv_body cols r =
      csv_row (codes "FID" ∷ (map column_name cols ++ (p.layer.geom_col ∷ [])))
      ++ (b'\n' ∷ join [] (map (csv_record cols) r.rows))
