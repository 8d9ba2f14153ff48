-- ===== src/Wfs/Encode/Csv/Document.antt =====
-- The CSV that GetFeature answers, read.
use giti.Prelude.{
  ◌≡◌, refl, ap, ◌∙◌, Option, List, [], ◌∷◌, ◌++◌, append-nil, sym, append_assoc, map, Text, codes,
  join,
}
use giti.Wfs.Model.{Column}
use giti.Wfs.Params.{GfParams}
use giti.Wfs.Database.{World, Reply}
use giti.Wfs.Encode.{csv_body, csv_record, csv_row, row_id, cell_text, column_name}
use giti.Wfs.Encode.Csv.{field_start, last_row, read_from, read_document}
use giti.Wfs.Encode.Csv.Fields.{row_read}

join_first : (t : Text) (ts : List Text) → join [] (t ∷ ts) ≡ t ++ join [] ts
unfolding join
join_first t [] = sym (append-nil t)
join_first t (u ∷ ts) = refl

module _ {F V : Type 0} (world : World F V) (quote : Text → Text) (p : GfParams F)
    (cols : List Column) where
  -- The fields of a row of the database: the identifier of the feature, and what `%v` prints of
  -- the columns and of the geometry, which is nothing for NULL.
  unfoldable pub fields_of : List (Option V) → List Text
  fields_of vals = row_id world quote p cols vals ∷ map (cell_text world.show) vals

  rows_read :
      (rows : List (List (Option V)))
      → read_document (join [] (map (csv_record world quote p cols) rows)) ≡ map fields_of rows
  unfolding read_document read_from last_row csv_record join fields_of
  rows_read [] = refl
  rows_read (vals ∷ rows) =
      let rest = join [] (map (csv_record world quote p cols) rows) in
      ap (read_from field_start [] [])
        (join_first (csv_record world quote p cols vals) (map (csv_record world quote p cols) rows))
      ∙ ap (read_from field_start [] []) (append_assoc (csv_row (fields_of vals)) (b'\n' ∷ []) rest)
      ∙ row_read [] (row_id world quote p cols vals) (map (cell_text world.show) vals) rest
      ∙ ap (λ rs. fields_of vals ∷ rs) (rows_read rows)

  -- The CSV that GetFeature answers, read by a reader that ends fields at commas and rows at line
  -- feeds, unless they stand in quotes, gives the names of the columns and then, for each row of
  -- the database, the identifier and the cells, whatever commas, quotes and line feeds they hold.
  pub read_document-csv_body :
      (r : Reply V)
      → read_document (csv_body world quote p cols r)
        ≡ (codes "FID" ∷ (map (λ (c : Column). c.name) cols ++ (p.layer.geom_col ∷ [])))
          ∷ map fields_of r.rows
  unfolding read_document csv_body column_name
  read_document-csv_body r =
      let names = map (λ (c : Column). c.name) cols ++ (p.layer.geom_col ∷ []) in
      row_read [] (codes "FID") names (join [] (map (csv_record world quote p cols) r.rows))
      ∙ ap (λ rs. (codes "FID" ∷ names) ∷ rs) (rows_read r.rows)
