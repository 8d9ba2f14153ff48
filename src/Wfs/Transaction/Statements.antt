-- ===== src/Wfs/Transaction/Statements.antt =====
-- The statements of a transaction are made of harmless bytes.
use giti.Prelude.{
  ℕ, ◌+◌, refl, Option, none, some, List, [], ◌∷◌, Text, text_eq, codes, All, Holds, returns,
  raises, Holds-if, Holds-bind,
}
use giti.Filter.Ast.{Value}
use giti.Filter.Sql.SafeText.{is_sql_byte}
use giti.Filter.Xml.Tree.{Node, Nodes, node, leaf, child}
use giti.Wfs.Model.{Layer}
use giti.Wfs.Database.Sends.{IsStatement, is_statement_byte, IsStatement-bytes, IsStatement-join}
use giti.Wfs.Locks.{}
use giti.Wfs.Statements.{qi}
use giti.Wfs.Statements.Harmless.{more, behind, decimal-IsStatement, qi-IsStatement}
use giti.Wfs.Transaction.{
  dollar, geometry_value, insert_value, name_of, insert_parts, insert_sql, read_property, set_parts,
  update_sql, delete_sql,
}

dollar-IsStatement : (n : ℕ) → IsStatement (dollar n)
unfolding dollar is_statement_byte is_sql_byte
dollar-IsStatement n = behind (b'$' ∷ []) refl (decimal-IsStatement n)

module _ {F : Type 0} where
  IsValue : Text × Value F → Type 0
  IsValue v = IsStatement v.0

  geometry_value-IsValue :
      (col : Text) (argn : ℕ) (wkt : Option Text) → Holds IsValue (geometry_value col argn wkt)
  unfolding geometry_value IsValue is_statement_byte is_sql_byte
  geometry_value-IsValue col argn none = raises
  geometry_value-IsValue col argn (some wkt) = returns (
      behind (codes "ST_GeomFromText(") refl
        (more (dollar-IsStatement argn) (IsStatement-bytes refl)))

  insert_value-IsValue :
      (layer : Layer) (argn : ℕ) (n : Node) → Holds IsValue (insert_value layer argn n)
  unfolding insert_value IsValue
  insert_value-IsValue layer argn (node col attrs kids text) =
      Holds-if IsValue (text_eq col layer.geom_col) _ _ (geometry_value-IsValue col argn _)
        (returns (dollar-IsStatement argn))

  unfoldable pub AreParts : List Text × List Text × List (Value F) → Type 0
  AreParts p = All IsStatement p.0 × All IsStatement p.1

  pub insert_parts-AreParts :
      (layer : Layer) (argn : ℕ) (ns : Nodes) → Holds AreParts (insert_parts layer argn ns)
  unfolding insert_parts AreParts IsValue
  insert_parts-AreParts layer argn leaf = returns (tt, tt)
  insert_parts-AreParts layer argn (child prop ns) =
      Holds-bind AreParts IsStatement (qi (name_of prop)) _ (qi-IsStatement (name_of prop)) λ q hq.
        Holds-bind AreParts IsValue (insert_value layer argn prop) _
          (insert_value-IsValue layer argn prop)
          λ v hv.
            Holds-bind AreParts AreParts (insert_parts layer (argn + 1) ns) _
              (insert_parts-AreParts layer (argn + 1) ns) λ rest h. returns ((hq, h.0), (hv, h.1))

  unfoldable pub AreSets : List Text × List (Value F) → Type 0
  AreSets p = All IsStatement p.0

  pub set_parts-AreSets : (argn : ℕ) (ns : Nodes) → Holds AreSets (set_parts argn ns)
  unfolding set_parts AreSets is_statement_byte is_sql_byte
  set_parts-AreSets argn leaf = returns tt
  set_parts-AreSets argn (child (node n attrs kids text) ns) =
      let name = (read_property [] [] kids).0 in
      Holds-if AreSets (text_eq n (codes "Property")) _ _
        (Holds-bind AreSets IsStatement (qi name) _ (qi-IsStatement name) λ q hq.
          Holds-bind AreSets AreSets (set_parts (argn + 1) ns) _ (set_parts-AreSets (argn + 1) ns)
            λ rest h. returns (more hq (behind (codes " = ") refl (dollar-IsStatement argn)), h))
        (set_parts-AreSets argn ns)

pub insert_sql-IsStatement :
    (table : Text) (names placeholders : List Text)
    → IsStatement table
    → All IsStatement names
    → All IsStatement placeholders
    → IsStatement (insert_sql table names placeholders)
unfolding insert_sql is_statement_byte is_sql_byte
insert_sql-IsStatement table names placeholders h k l =
    let comma : IsStatement (codes ", ") = IsStatement-bytes refl in
    behind (codes "INSERT INTO ") refl (
      more h (
        behind (codes " (") refl (
          more (IsStatement-join _ names comma k) (
            behind (codes ") VALUES (") refl
              (more (IsStatement-join _ placeholders comma l) (IsStatement-bytes refl))))))

pub update_sql-IsStatement :
    (table : Text) (sets : List Text) (cond : Text)
    → IsStatement table
    → All IsStatement sets
    → IsStatement cond
    → IsStatement (update_sql table sets cond)
unfolding update_sql is_statement_byte is_sql_byte
update_sql-IsStatement table sets cond h k l = behind (codes "UPDATE ") refl (
    more h (
      behind (codes " SET ") refl
        (more (IsStatement-join (codes ", ") sets (IsStatement-bytes refl) k) l)))

pub delete_sql-IsStatement :
    (table cond : Text) → IsStatement table → IsStatement cond → IsStatement (delete_sql table cond)
unfolding delete_sql is_statement_byte is_sql_byte
delete_sql-IsStatement table cond h k = behind (codes "DELETE FROM ") refl (more h k)
