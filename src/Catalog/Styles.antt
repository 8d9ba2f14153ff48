-- ===== src/Catalog/Styles.antt =====
-- services/catalog/internal/store/store.go: styles and layer groups, which refer to no workspace, and
-- validTable.
use giti.Prelude.{
  not, Bool, true, false, ◌&&◌, ◌||◌, Option, none, some, List, [], ◌∷◌, Text, codes, map, Result,
  ℕ, within, ◌==◌,
}
use giti.Rows.{
  StoreError, any_row, keep, drop_rows, update_rows, insert_row, has_key, has_pair, order_by, saved,
  affected, query_row,
}
use giti.Rows.Links.{same_pair}
use giti.Catalog.Model.{
  Style, LayerGroup, CatalogDb, style_workspace, style_name, group_workspace, group_name,
}

-- `nilJSON`, on a slice of bytes that may be nil or empty.
unfoldable pub nil_json : Option Text → Option Text
nil_json (some (c ∷ b)) = some (c ∷ b)
nil_json _ = none

unfoldable pub create_style : Style → CatalogDb → Result StoreError CatalogDb
unfolding insert_row same_pair saved nil_json
create_style s db =
    saved (λ (rows : List Style). record db { styles = rows })
      (insert_row (same_pair style_workspace style_name) true
        (record s { model = nil_json s.model }) db.styles)

-- `COALESCE(model,'null')`
unfoldable pub coalesce : Style → Style
coalesce s = record s { model = elim s.model [ none ↦ some (codes "null") | some b ↦ some b ] }

unfoldable pub get_style : Text → Text → CatalogDb → Result StoreError Style
unfolding query_row keep has_pair coalesce
get_style ws name db =
    query_row (map coalesce (keep (has_pair style_workspace style_name ws name) db.styles))

-- `SET format=$3, filename=$4, body=$5, model=$6`
unfoldable pub set_style : Style → Style → Style
unfolding nil_json
set_style s row = record row {
  format = s.format;
  filename = s.filename;
  body = s.body;
  model = nil_json s.model;
}

unfoldable pub update_style : Text → Text → Style → CatalogDb → Result StoreError CatalogDb
unfolding update_rows any_row has_pair set_style affected
update_style ws name s db =
    let chosen = has_pair style_workspace style_name ws name in
    affected (any_row chosen db.styles)
      (record db { styles = update_rows chosen (set_style s) db.styles })

unfoldable pub delete_style : Text → Text → CatalogDb → Result StoreError CatalogDb
unfolding drop_rows any_row has_pair affected
delete_style ws name db =
    let chosen = has_pair style_workspace style_name ws name in
    affected (any_row chosen db.styles) (record db { styles = drop_rows chosen db.styles })

unfoldable pub create_layer_group : LayerGroup → CatalogDb → Result StoreError CatalogDb
unfolding insert_row same_pair saved
create_layer_group g db =
    saved (λ (rows : List LayerGroup). record db { layer_groups = rows })
      (insert_row (same_pair group_workspace group_name) true g db.layer_groups)

unfoldable pub get_layer_group : Text → Text → CatalogDb → Result StoreError LayerGroup
unfolding query_row keep has_pair
get_layer_group ws name db =
    query_row (keep (has_pair group_workspace group_name ws name) db.layer_groups)

unfoldable pub delete_layer_group : Text → Text → CatalogDb → Result StoreError CatalogDb
unfolding drop_rows any_row has_pair affected
delete_layer_group ws name db =
    let chosen = has_pair group_workspace group_name ws name in
    affected (any_row chosen db.layer_groups)
      (record db { layer_groups = drop_rows chosen db.layer_groups })

module _ (collate : Text → Text → Bool) where
  unfoldable pub list_styles : Text → CatalogDb → List Style
  unfolding order_by keep has_key
  list_styles ws db =
      order_by (λ (s t : Style). collate s.name t.name)
        (map (λ (s : Style). record s { model = none })
          (keep (has_key style_workspace ws) db.styles))

  unfoldable pub list_layer_groups : Text → CatalogDb → List LayerGroup
  unfolding order_by keep has_key
  list_layer_groups ws db =
      order_by (λ (g h : LayerGroup). collate g.name h.name)
        (keep (has_key group_workspace ws) db.layer_groups)

-- A byte of a name; a digit does not begin one.
unfoldable pub is_table_byte : Bool → ℕ → Bool
is_table_byte first c =
    c == b'_' || (within b'a' b'z' c || (within b'A' b'Z' c || (not first && within b'0' b'9' c)))

unfoldable pub table_bytes : Text → Bool
unfolding is_table_byte
table_bytes [] = true
table_bytes (c ∷ s) = is_table_byte false c && table_bytes s

unfoldable pub valid_table : Text → Bool
unfolding is_table_byte table_bytes
valid_table [] = false
valid_table (c ∷ s) = is_table_byte true c && table_bytes s
