-- ===== src/Wps/Inputs.antt =====
-- services/wps/internal/wps/execute.go: the inputs of Execute.
use giti.Prelude.{Option, none, some, List, [], ◌∷◌, Text, cut_first}
use giti.Filter.Xml.Tree.{trim_space}
use giti.Ows.Negotiate.{split}
use giti.Ows.Request.{Table, put}

-- A pair without an equals sign is passed over; so is an empty one.
unfoldable pub add_input : Option (Text × Text) → Table Text → Table Text
unfolding put trim_space
add_input none m = m
add_input (some (k, v)) m = put (trim_space k) v m

unfoldable pub add_inputs : List Text → Table Text → Table Text
unfolding add_input cut_first
add_inputs [] m = m
add_inputs (pair ∷ pairs) m = add_inputs pairs (add_input (cut_first b'=' pair) m)

unfoldable pub parse_data_inputs : Text → Table Text
unfolding add_inputs split
parse_data_inputs raw = add_inputs (split b';' raw) []
