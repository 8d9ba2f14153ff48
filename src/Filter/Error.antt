-- ===== src/Filter/Error.antt =====
-- The errors that libs/ogc-kit/filter returns, one constructor for each message, with the values
-- that the message quotes. `out_of_fuel` belongs to the model only.
use giti.Prelude.{ℕ, Text}

pub data Error : Type 0 where
  unexpected_character : ℕ → Error
  unterminated_string : Error
  invalid_number : Text → Error
  empty_filter : Error
  unexpected_at_end : Text → Error
  expected_rparen : Error
  expected_identifier : Text → Error
  expected_operator : Text → Error
  expected_after_not : Error
  like_requires_string : Error
  in_requires_lparen : Error
  in_requires_rparen : Error
  between_requires_and : Error
  unexpected_not : Error
  expected_null : Error
  unexpected_token : Text → Error
  expected_value : Text → Error
  parse_float_failed : Text → Error
  expected_text : Text → Text → Error
  expected_number : Text → Error
  requires_property : Text → Error
  bbox_srs_string : Error
  expected_wkt : Text → Error
  wkt_requires_lparen : Error
  unterminated_wkt : Error
  requires_units : Error
  invalid_identifier : Text → Error
  expected_literal : Error
  cannot_compile : Error
  out_of_fuel : Error
