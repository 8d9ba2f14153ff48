-- ===== src/Wfs/Encode/Gml.antt =====
-- services/wfs/internal/wfs/transaction.go: the body of streamGML; stored_lock.go: that of
-- streamValues.
use giti.Prelude.{
  ℕ, Option, none, some, List, [], ◌∷◌, ◌++◌, map, length, if◌then◌else◌, Text, codes, decimal,
  join,
}
use giti.Ows.Exception.{has_prefix}
use giti.Wfs.Model.{Column}
use giti.Wfs.Params.{GfParams}
use giti.Wfs.Database.{World}
use giti.Wfs.Encode.{xml_esc, cell_text, value_text, value_at}

unfoldable pub open_tag : Text → Text
open_tag name = codes "<" ++ (name ++ codes ">")

unfoldable pub close_tag : Text → Text
close_tag name = codes "</" ++ (name ++ codes ">")

unfoldable pub giti_name : Text → Text
giti_name name = codes "giti:" ++ name

unfoldable pub member_tag : Text → Text
unfolding has_prefix
member_tag version =
    if has_prefix version (codes "2.") then codes "wfs:member" else codes "gml:featureMember"

unfoldable pub wfs_ns : Text → Text
unfolding has_prefix
wfs_ns version =
    if has_prefix version (codes "2.")
    then codes "http://www.opengis.net/wfs/2.0"
    else codes "http://www.opengis.net/wfs"

module _ {F V : Type 0} (world : World F V) (quote : Text → Text) (p : GfParams F) where
  unfoldable pub attribute_texts : List Column → List (Option V) → List Text
  unfolding open_tag close_tag giti_name xml_esc cell_text
  attribute_texts [] vals = []
  attribute_texts (c ∷ cols) [] = []
  attribute_texts (c ∷ cols) (v ∷ vals) =
      (open_tag (giti_name c.name)
        ++ (xml_esc (cell_text world.show v) ++ close_tag (giti_name c.name)))
      ∷ attribute_texts cols vals

  unfoldable pub geometry_text : Option V → Text
  unfolding open_tag close_tag giti_name
  geometry_text none = []
  geometry_text (some g) =
      open_tag (giti_name p.layer.geom_col)
      ++ (world.show g ++ close_tag (giti_name p.layer.geom_col))

  unfoldable pub feature_id : List (Option V) → Text
  unfolding value_text value_at
  feature_id vals = p.layer.table ++ (b'.' ∷ value_text world.show (value_at 0 vals))

  unfoldable pub gml_member : Text → List Column → List (Option V) → Text
  unfolding open_tag close_tag giti_name member_tag attribute_texts geometry_text feature_id
      value_at join
  gml_member version cols vals =
      codes "  "
      ++ (open_tag (member_tag version)
          ++ (codes "<"
              ++ (giti_name p.layer.table
                  ++ (codes " gml:id=\""
                      ++ (feature_id vals
                          ++ (codes "\">"
                              ++ (join [] (attribute_texts cols vals)
                                  ++ (geometry_text (value_at (length cols) vals)
                                      ++ (close_tag (giti_name p.layer.table)
                                          ++ (close_tag (member_tag version)
                                              ++ (b'\n' ∷ [])))))))))))

  unfoldable pub gml_counts : Text → ℕ → ℕ → Text
  unfolding has_prefix decimal
  gml_counts version matched returned =
      if has_prefix version (codes "2.")
      then codes " numberMatched=\""
        ++ (decimal matched ++ (codes "\" numberReturned=\"" ++ (decimal returned ++ codes "\"")))
      else codes " numberOfFeatures=\"" ++ (decimal matched ++ codes "\"")

  -- Nothing is written where the rows end in an error.
  unfoldable pub gml_body : Text → List Column → ℕ → List (List (Option V)) → Option Text → Text
  unfolding wfs_ns gml_counts gml_member join
  gml_body version cols matched rows (some e) = []
  gml_body version cols matched rows none =
      codes "<?xml version=\"1.0\" encoding=\"UTF-8\"?>\n"
      ++ (codes "<wfs:FeatureCollection xmlns:wfs="
          ++ (quote (wfs_ns version)
              ++ (codes " xmlns:gml=\"http://www.opengis.net/gml\" xmlns:giti=\"giti\""
                  ++ (gml_counts version matched (length rows)
                      ++ (codes ">\n"
                          ++ (join [] (map (gml_member version cols) rows)
                              ++ codes "</wfs:FeatureCollection>\n"))))))

  unfoldable pub value_member : List (Option V) → Text
  unfolding xml_esc cell_text value_at open_tag close_tag giti_name
  value_member vals =
      codes "  <wfs:member>"
      ++ (open_tag (giti_name p.value_ref)
          ++ (xml_esc (cell_text world.show (value_at 0 vals))
              ++ (close_tag (giti_name p.value_ref) ++ codes "</wfs:member>\n")))

  -- `streamValues` writes the rows that it has, whatever ends them.
  unfoldable pub values_body : ℕ → List (List (Option V)) → Text
  unfolding value_member decimal join
  values_body matched rows =
      codes "<?xml version=\"1.0\" encoding=\"UTF-8\"?>\n"
      ++ (codes
            "<wfs:ValueCollection xmlns:wfs=\"http://www.opengis.net/wfs/2.0\" xmlns:giti=\"giti\" "
          ++ (codes "numberMatched=\""
              ++ (decimal matched
                  ++ (codes "\" numberReturned=\""
                      ++ (decimal (length rows)
                          ++ (codes "\">\n"
                              ++ (join [] (map value_member rows)
                                  ++ codes "</wfs:ValueCollection>\n")))))))
