-- ===== src/Filter/Sql/Literals.antt =====
-- The values that an expression holds, from left to right: what a compiled filter binds.
use giti.Prelude.{List, [], ◌∷◌, ◌++◌}
use giti.Filter.Ast.{
  Value, Expr, Exprs, string, float, property, literal, compare, logic, negation, like, in_list,
  between, is_null, bbox, spatial, dwithin, include_all, nil, cons,
}

module _ {F : Type 0} where
  unfoldable mutual
    pub literals : Expr F → List (Value F)
    literals (property name) = []
    literals (literal v) = v ∷ []
    literals (compare op l r) = literals l ++ literals r
    literals (logic op es) = literals_all es
    literals (negation e) = literals e
    literals (like prop pattern ci negate) = literals prop ++ (string pattern ∷ [])
    literals (in_list prop values negate) = literals prop ++ literals_all values
    literals (between prop lo hi negate) = literals prop ++ (literals lo ++ literals hi)
    literals (is_null prop negate) = literals prop
    literals (bbox prop minx miny maxx maxy srs) =
        float minx ∷ float miny ∷ float maxx ∷ float maxy ∷ []
    literals (spatial op prop wkt) = string wkt ∷ []
    literals (dwithin prop wkt distance units beyond) = string wkt ∷ float distance ∷ []
    literals include_all = []

    pub literals_all : Exprs F → List (Value F)
    literals_all nil = []
    literals_all (cons e es) = literals e ++ literals_all es
