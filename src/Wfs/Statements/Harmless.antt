-- ===== src/Wfs/Statements/Harmless.antt =====
-- The statements that read features are made of harmless bytes.
use giti.Prelude.{
  ℕ, ◌≡◌, refl, Bool, true, false, List, [], ◌∷◌, ◌++◌, ltb, if◌then◌else◌, Text, text_eq, codes,
  decimal, decimal_bytes, ℤ, pos, negsuc, Result, ok, err, All, all_of, Bool-cases, inl, inr, Holds,
  returns, raises, Holds-bind,
}
use giti.Filter.Sql.{ident_matches}
use giti.Filter.Sql.SafeText.{is_sql_byte, digit_safe, ident_safe, by_bytes}
use giti.Wfs.Model.{Layer, Column, WfsError}
use giti.Wfs.Params.{GfParams}
use giti.Wfs.Database.Sends.{
  IsStatement, IsStatement-bytes, is_statement_byte, IsStatement-append, IsStatement-join,
  IsSafe-IsStatement,
}
use giti.Wfs.Statements.{
  qi, quoted_columns, count_sql, ids_sql, bounded, order_by, order_limit_offset, geom_expr,
  select_sql, geojson_text, csv_text, gml_text, gml_dim, values_sql,
}

pub more : {a b : Text} → IsStatement a → IsStatement b → IsStatement (a ++ b)
more {a} {b} h k = IsStatement-append a b h k

-- Behind a text that the program writes out.
pub behind :
    (a : Text) {b : Text} → all_of is_statement_byte a ≡ true → IsStatement b → IsStatement (a ++ b)
behind a {b} h k = IsStatement-append a b (IsStatement-bytes h) k

pub decimal-IsStatement : (n : ℕ) → IsStatement (decimal n)
decimal-IsStatement n = IsSafe-IsStatement (by_bytes (decimal_bytes is_sql_byte digit_safe n))

pub quoted-IsStatement :
    (name : Text) → ident_matches name ≡ true → IsStatement (b'"' ∷ (name ++ (b'"' ∷ [])))
unfolding is_statement_byte is_sql_byte
quoted-IsStatement name m = behind (b'"' ∷ []) refl (
    IsStatement-append name _ (IsSafe-IsStatement (by_bytes (ident_safe name m)))
      (IsStatement-bytes refl))

pub qi-IsStatement : (name : Text) → Holds IsStatement (qi name)
unfolding qi
qi-IsStatement name = elim (Bool-cases (ident_matches name)) [
  | inl m ↦ rw m (returns (quoted-IsStatement name m))
  | inr m ↦ rw m raises
]

pub quoted_columns-IsStatement :
    (cols : List Column) → Holds (All IsStatement) (quoted_columns cols)
unfolding quoted_columns
quoted_columns-IsStatement [] = returns tt
quoted_columns-IsStatement (c ∷ cols) =
    Holds-bind _ IsStatement (qi c.name) _ (qi-IsStatement c.name) λ q hq.
      Holds-bind _ (All IsStatement) (quoted_columns cols) _ (quoted_columns-IsStatement cols)
        λ qs hqs. returns (hq, hqs)

pub count_sql-IsStatement :
    (l : Layer) (cond : Text) → IsStatement cond → Holds IsStatement (count_sql l cond)
unfolding count_sql is_statement_byte is_sql_byte
count_sql-IsStatement l cond k =
    Holds-bind _ IsStatement (qi l.table) _ (qi-IsStatement l.table)
      λ q hq. returns (behind (codes "SELECT count(*) FROM ") refl (more hq k))

pub ids_sql-IsStatement :
    (l : Layer) (cond : Text) → IsStatement cond → Holds IsStatement (ids_sql l cond)
unfolding ids_sql is_statement_byte is_sql_byte
ids_sql-IsStatement l cond k =
    Holds-bind _ IsStatement (qi l.table) _ (qi-IsStatement l.table)
      λ q hq. returns (behind (codes "SELECT id::text FROM ") refl (more hq k))

bounded-IsStatement : (word : Text) (z : ℤ) → IsStatement word → IsStatement (bounded word z)
unfolding bounded
bounded-IsStatement word (pos n) h = elim (Bool-cases (ltb 0 n)) [
  | inl m ↦ rw m (more h (decimal-IsStatement n))
  | inr m ↦ rw m (IsStatement-bytes refl)
]
bounded-IsStatement word (negsuc n) h = IsStatement-bytes refl

order_by-IsStatement :
    (r : Result WfsError Text) (dir : Text)
    → Holds IsStatement r
    → IsStatement dir
    → IsStatement (order_by r dir)
unfolding order_by is_statement_byte is_sql_byte
order_by-IsStatement (ok q) dir (returns h) k =
    behind (codes " ORDER BY ") refl (more h (behind (codes " ") refl k))
order_by-IsStatement (err e) dir h k = IsStatement-bytes refl

IsStatement-if :
    (c : Bool) (a b : Text) → IsStatement a → IsStatement b → IsStatement (if c then a else b)
IsStatement-if true a b h k = h
IsStatement-if false a b h k = k

module _ {F : Type 0} (p : GfParams F) where
  module _ (dir : IsStatement p.sort_dir) where
    order_limit_offset-IsStatement : IsStatement (order_limit_offset p)
    unfolding order_limit_offset is_statement_byte is_sql_byte
    order_limit_offset-IsStatement =
        more
          (IsStatement-if (text_eq p.sort_col []) _ _ (IsStatement-bytes refl)
            (order_by-IsStatement (qi p.sort_col) p.sort_dir (qi-IsStatement p.sort_col) dir))
          (more (bounded-IsStatement (codes " OFFSET ") p.offset (IsStatement-bytes refl))
            (bounded-IsStatement (codes " LIMIT ") p.limit (IsStatement-bytes refl)))

    pub select_sql-IsStatement :
        (cols : List Column) (cond : Text) (geom_text : Text → Text)
        → IsStatement cond
        → ((g : Text) → IsStatement g → IsStatement (geom_text g))
        → Holds IsStatement (select_sql p cols cond geom_text)
    unfolding select_sql is_statement_byte is_sql_byte
    select_sql-IsStatement cols cond geom_text k g =
        Holds-bind _ IsStatement (qi p.layer.table) _ (qi-IsStatement p.layer.table) λ table ht.
          Holds-bind _ IsStatement (qi p.layer.geom_col) _ (qi-IsStatement p.layer.geom_col)
            λ geom hg.
              Holds-bind _ (All IsStatement) (quoted_columns cols) _
                (quoted_columns-IsStatement cols)
                λ sel hs. returns (
                  behind (codes "SELECT ") refl (
                    more (IsStatement-join (codes ", ") sel (IsStatement-bytes refl) hs) (
                      behind (codes ", ") refl (
                        more (g geom hg) (
                          behind (codes " FROM ") refl
                            (more ht (more k order_limit_offset-IsStatement)))))))

    pub values_sql-IsStatement :
        (cond : Text) → IsStatement cond → Holds IsStatement (values_sql p cond)
    unfolding values_sql is_statement_byte is_sql_byte
    values_sql-IsStatement cond k =
        Holds-bind _ IsStatement (qi p.layer.table) _ (qi-IsStatement p.layer.table) λ table ht.
          Holds-bind _ IsStatement (qi p.value_ref) _ (qi-IsStatement p.value_ref) λ col hc.
            returns (
              behind (codes "SELECT ") refl (
                more hc (
                  behind (codes "::text FROM ") refl
                    (more ht (more k order_limit_offset-IsStatement)))))

  geom_expr-IsStatement : (g : Text) → IsStatement g → IsStatement (geom_expr p g)
  unfolding geom_expr is_statement_byte is_sql_byte
  geom_expr-IsStatement g h =
      IsStatement-if _ _ _
        (behind (codes "ST_Transform(") refl (
          more h (
            behind (codes ", ") refl
              (more (decimal-IsStatement p.out_srid) (IsStatement-bytes refl)))))
        h

  pub geojson_text-IsStatement : (g : Text) → IsStatement g → IsStatement (geojson_text p g)
  unfolding geojson_text is_statement_byte is_sql_byte
  geojson_text-IsStatement g h =
      behind (codes "ST_AsGeoJSON(") refl
        (more (geom_expr-IsStatement g h) (IsStatement-bytes refl))

  pub gml_text-IsStatement :
      (gml_ver : ℕ) (g : Text) → IsStatement g → IsStatement (gml_text gml_ver p g)
  unfolding gml_text is_statement_byte is_sql_byte
  gml_text-IsStatement gml_ver g h = behind (codes "ST_AsGML(") refl (
      more (decimal-IsStatement (gml_dim gml_ver))
        (behind (codes ", ") refl (more (geom_expr-IsStatement g h) (IsStatement-bytes refl))))

pub csv_text-IsStatement : (g : Text) → IsStatement g → IsStatement (csv_text g)
unfolding csv_text is_statement_byte is_sql_byte
csv_text-IsStatement g h = behind (codes "ST_AsText(") refl (more h (IsStatement-bytes refl))
