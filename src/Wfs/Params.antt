-- ===== src/Wfs/Params.antt =====
-- services/wfs/internal/wfs/getfeature.go: the parameters of GetFeature, and the filter that they
-- and the authorization make.
use giti.Prelude.{
  ℕ, ◌-◌, Bool, Option, none, some, List, [], ◌∷◌, ◌++◌, map, ltb, within, if◌then◌else◌, Text,
  codes, to_lower, ℤ, atoi, digits, int_limit, cut_first, cut_last, one_of,
}
use giti.Filter.Ast.{Value, Expr, string, float, property, literal, compare, logic, pair}
use giti.Filter.Xml.Tree.{trim_space}
use giti.Wfs.Model.{Layer, Column}

-- `splitTypeName`: the workspace of the header where the name has none.
unfoldable pub or_header : Text → Text → Option (Text × Text) → Text × Text
or_header header_ws tn none = (header_ws, tn)
or_header header_ws tn (some parts) = parts

unfoldable pub split_type_name : Text → Text → Text × Text
unfolding or_header trim_space cut_first
split_type_name tn header_ws = or_header header_ws (trim_space tn) (cut_first b':' (trim_space tn))

pub record GfParams (F : Type 0) : Type 0 where
  pub layer : Layer
  pub filter : Option (Expr F)
  pub props : List Text
  pub sort_col : Text
  pub sort_dir : Text
  pub offset : ℤ
  pub limit : ℤ
  pub count_only : Bool
  pub format : Text
  pub out_srid : ℕ
  pub value_ref : Text

-- The last run of digits of a text: the last of `strings.FieldsFunc` on what is no digit. The
-- first text is the last run that has ended, the second the one that is being read.
unfoldable pub newer : Text → Text → Text
newer last [] = last
newer last (d ∷ run) = d ∷ run

unfoldable pub last_number : Text → Text → Text → Text
unfolding newer
last_number last run [] = newer last run
last_number last run (c ∷ s) =
    last_number (if within b'0' b'9' c then last else newer last run)
      (if within b'0' b'9' c then run ++ (c ∷ []) else []) s

-- The first result of `strconv.Atoi` on digits: the greatest `int` where they are out of range.
unfoldable pub clamped : Option ℕ → ℕ
clamped none = 0
clamped (some n) = if ltb n int_limit then n else int_limit - 1

unfoldable pub srid_of : Text → ℕ
unfolding last_number clamped digits
srid_of s = clamped (digits (last_number [] [] s))

unfoldable pub and_expr : {F : Type 0} → Option (Expr F) → Option (Expr F) → Option (Expr F)
and_expr none b = b
and_expr (some a) none = some a
and_expr (some a) (some b) = some (logic (codes "AND") (pair a b))

unfoldable pub or_default : ℤ → Option ℤ → ℤ
or_default d none = d
or_default d (some v) = v

unfoldable pub atoi_default : Text → ℤ → ℤ
unfolding atoi or_default
atoi_default s d = or_default d (atoi s)

unfoldable pub id_value : {F : Type 0} → Text → Option F → Value F
id_value id (some v) = float v
id_value id none = string id

unfoldable pub after_last : Text → Option (Text × Text) → Text
after_last s none = s
after_last s (some (a, b)) = b

unfoldable pub id_filter : {F : Type 0} → (Text → Option F) → Text → Expr F
unfolding id_value
id_filter parse_float id =
    compare (codes "=") (property (codes "id")) (literal (id_value id (parse_float id)))

unfoldable pub feature_id_filter : {F : Type 0} → (Text → Option F) → Text → Expr F
unfolding id_filter after_last cut_last
feature_id_filter parse_float fid = id_filter parse_float (after_last fid (cut_last b'.' fid))

-- The columns that are asked for, in the order of the layer; all of them where none is.
unfoldable pub wanted : List Text → List Column → List Column
unfolding one_of to_lower
wanted props [] = []
wanted props (c ∷ cols) =
    let rest = wanted props cols in
    if one_of (to_lower c.name) (map to_lower props) then c ∷ rest else rest

unfoldable pub select_columns : Layer → List Text → List Column
unfolding wanted
select_columns l [] = l.columns
select_columns l (p ∷ props) = wanted (p ∷ props) l.columns
