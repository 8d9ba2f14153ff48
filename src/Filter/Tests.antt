-- ===== src/Filter/Tests.antt =====
-- Runs of the filter library on inputs of its own tests.
use giti.Prelude.{
  ◌≡◌, refl, Option, some, List, [], ◌∷◌, Text, codes, Result, ok, err, ◌≢◌, true, bind, to_lower,
  join,
}
use giti.Filter.Ast.{
  Value, Expr, string, float, boolean, property, literal, compare, logic, spatial, pair,
}
use giti.Filter.Error.{Error, out_of_fuel}
use giti.Filter.Parser.{parse_cql}
use giti.Filter.Parser.Grammar.{IsParsed}
use giti.Filter.Parser.Total.{parse_cql-ne_fuel, parse_cql-IsParsed}
use giti.Filter.Sql.Shape.{Change, relabel, sql_text, to_sql-relabel}
use giti.Filter.Sql.SafeText.{IsSafe}
use giti.Filter.Sql.Safe.{parse_cql-to_sql-IsSafe}
use giti.Filter.Xml.Tree.{XmlToken, start_of, end_of, char_data}
use giti.Filter.Sql.{
  to_sql, emit, placeholder, lit_value, or_literal, right_side, emit_values, quote_ident, title,
}

-- A stand-in for `strconv.ParseFloat`: it keeps the text of the number.
abbrev keep : Text → Option Text
keep t = some t

abbrev parsed : Expr Text → Result Error (Expr Text)
parsed = ok

precedence :
    parse_cql keep (codes "a = 1 OR b = 2 AND c = 3")
    ≡ parsed (
        logic (codes "OR") (
          pair (compare (codes "=") (property (codes "a")) (literal (float (codes "1")))) (
            logic (codes "AND") (
              pair
                (compare (codes "=") (property (codes "b")) (literal (float (codes "2"))))
                (compare (codes "=") (property (codes "c")) (literal (float (codes "3"))))))))
unfolding parse_cql
precedence = refl

spatial_point :
    parse_cql keep (codes "INTERSECTS(geom, POINT(51.4 35.7))")
    ≡ parsed (spatial (codes "INTERSECTS") (codes "geom") (codes "POINT(51.4 35.7)"))
unfolding parse_cql
spatial_point = refl

quoted :
    parse_cql keep (codes "note = 'it''s'")
    ≡ parsed (compare (codes "=") (property (codes "note")) (literal (string (codes "it's"))))
unfolding parse_cql
quoted = refl

compiled : Text → Result Error (Text × List (Value Text))
compiled s = bind (parse_cql keep s) λ e. to_sql e 1

sql_values :
    compiled (codes "t IN ('a','b') OR NOT n BETWEEN 1 AND 3")
    ≡ ok (
      codes "(\"t\" IN ($1, $2) OR NOT (\"n\" BETWEEN $3 AND $4))",
      string (codes "a") ∷ string (codes "b") ∷ float (codes "1") ∷ float (codes "3") ∷ [],
    )
unfolding compiled parse_cql to_sql emit placeholder lit_value or_literal right_side emit_values
    quote_ident title to_lower join
sql_values = refl

sql_spatial :
    compiled (codes "DWITHIN(geom, POINT(0 0), 500, meters) AND WITHIN(g, POINT(1 2))")
    ≡ ok (
      codes
          "(ST_DWithin(\"geom\", ST_GeomFromText($1), $2) AND ST_Within(\"g\", ST_GeomFromText($3)))",
      string (codes "POINT(0 0)") ∷ float (codes "500") ∷ string (codes "POINT(1 2)") ∷ [],
    )
unfolding compiled parse_cql to_sql emit placeholder lit_value or_literal right_side emit_values
    quote_ident title to_lower join
sql_spatial = refl

-- A filter with a value that tries to leave its place, and what it parses to.
abbrev hostile : Text
hostile = codes "name = 'x''; DROP TABLE t' AND size > 3"

abbrev hostile_expr : Expr Text
hostile_expr = logic (codes "AND") (
    pair
      (compare (codes "=") (property (codes "name")) (literal (string (codes "x'; DROP TABLE t"))))
      (compare (codes ">") (property (codes "size")) (literal (float (codes "3")))))

abbrev hostile_sql : Text
hostile_sql = codes "(\"name\" = $1 AND \"size\" > $2)"

abbrev hostile_args : List (Value Text)
hostile_args = string (codes "x'; DROP TABLE t") ∷ float (codes "3") ∷ []

parse_cql-ne_fuel_example : parse_cql keep hostile ≢ err out_of_fuel
parse_cql-ne_fuel_example = parse_cql-ne_fuel keep hostile

parse_cql-IsParsed_example : IsParsed hostile_expr
unfolding parse_cql
parse_cql-IsParsed_example = parse_cql-IsParsed keep hostile hostile_expr refl

parse_cql-to_sql-IsSafe_example : IsSafe hostile_sql
unfolding parse_cql to_sql emit placeholder lit_value or_literal right_side emit_values quote_ident
    title to_lower join
parse_cql-to_sql-IsSafe_example =
    parse_cql-to_sql-IsSafe keep hostile hostile_expr 1 hostile_sql hostile_args refl refl

-- Every value becomes the same one.
abbrev redacted : Change Text Text
redacted = record { value = λ v. boolean true; bound = λ t. []; number = λ x. codes "0" }

to_sql-relabel_example :
    sql_text (to_sql (relabel redacted hostile_expr) 1) ≡ sql_text (to_sql hostile_expr 1)
to_sql-relabel_example = to_sql-relabel redacted hostile_expr 1

abbrev null_test_tokens : Text → List XmlToken
null_test_tokens name =
    start_of (codes "PropertyIsNull") []
    ∷ start_of (codes "PropertyName") []
    ∷ char_data name
    ∷ end_of
    ∷ end_of
    ∷ []
