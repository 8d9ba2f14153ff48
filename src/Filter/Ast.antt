-- ===== src/Filter/Ast.antt =====
-- libs/ogc-kit/filter/ast.go. A `float64` is of an abstract type F: the program reads floats by
-- `strconv.ParseFloat`, hands them on and computes nothing with them.
use giti.Prelude.{Bool, Text}

-- What `Literal.Value` (an `any`) holds: a string, a float64 or a bool.
pub data Value (F : Type 0) : Type 0 where
  string : Text → Value F
  float : F → Value F
  boolean : Bool → Value F

-- The struct types of `Expr`, with their fields in order. `Exprs` is `[]Expr`.
mutual
  pub data Expr (F : Type 0) : Type 0 where
    property : Text → Expr F
    literal : Value F → Expr F
    compare : Text → Expr F → Expr F → Expr F
    logic : Text → Exprs F → Expr F
    negation : Expr F → Expr F
    like : Expr F → Text → Bool → Bool → Expr F
    in_list : Expr F → Exprs F → Bool → Expr F
    between : Expr F → Expr F → Expr F → Bool → Expr F
    is_null : Expr F → Bool → Expr F
    bbox : Text → F → F → F → F → Text → Expr F
    spatial : Text → Text → Text → Expr F
    dwithin : Text → Text → F → Text → Bool → Expr F
    include_all : Expr F

  pub data Exprs (F : Type 0) : Type 0 where
    nil : Exprs F
    cons : Expr F → Exprs F → Exprs F

module _ {F : Type 0} where
  -- `append(vals, v)`
  unfoldable pub snoc : Exprs F → Expr F → Exprs F
  snoc nil e = cons e nil
  snoc (cons x xs) e = cons x (snoc xs e)

  abbrev pub pair : Expr F → Expr F → Exprs F
  pair a b = cons a (cons b nil)
