-- ===== src/Filter/Xml/Tree.antt =====
-- The decoded tree of an XML filter. The tokens are those that `xml.Decoder` returns before its
-- first error; white space is that of ASCII.
use giti.Prelude.{
  ℕ, Bool, ◌||◌, Option, none, some, List, [], ◌∷◌, ◌++◌, text_eq, ◌==◌, if◌then◌else◌, Text, codes,
  Result, ok, err,
}
use giti.Ows.Request.{Table, put}

pub data XmlError : Type 0 where
  malformed_xml : Text → XmlError
  empty_xml : XmlError
  wrong_root : Text → XmlError
  empty_element : XmlError
  too_few_operands : Text → XmlError
  not_one_operand : XmlError
  unsupported_element : Text → XmlError
  missing_property : Text → XmlError
  missing_geometry : Text → XmlError
  invalid_corners : XmlError
  missing_envelope : XmlError

-- `node`, and `[]*node`: the name, the attributes, the children and the text.
mutual
  pub data Node : Type 0 where
    node : Text → Table Text → Nodes → Text → Node

  pub data Nodes : Type 0 where
    leaf : Nodes
    child : Node → Nodes → Nodes

pub data XmlToken : Type 0 where
  start_of : Text → List (Text × Text) → XmlToken
  end_of : XmlToken
  char_data : Text → XmlToken
  other : XmlToken

unfoldable pub add_child : Nodes → Node → Nodes
add_child leaf n = child n leaf
add_child (child m ns) n = child m (add_child ns n)

unfoldable pub read_attrs : Table Text → List (Text × Text) → Table Text
unfolding put
read_attrs attrs [] = attrs
read_attrs attrs ((name, value) ∷ rest) = read_attrs (put name value attrs) rest

unfoldable pub attach : Node → Node → Node
unfolding add_child
attach (node name attrs kids text) n = node name attrs (add_child kids n) text

unfoldable pub append_text : Text → Node → Node
append_text t (node name attrs kids text) = node name attrs kids (text ++ t)

-- The last root. The code links a child to the element around it when it starts; here it joins the
-- children when it ends, in the same order.
unfoldable pub outermost : Node → List Node → Node
unfolding attach
outermost n [] = n
outermost n (m ∷ stack) = outermost (attach m n) stack

unfoldable pub root_of : Option Node → List Node → Option Node
unfolding outermost
root_of root [] = root
root_of root (n ∷ stack) = some (outermost n stack)

-- The loop of `decodeTree`, with the elements that are open, innermost first, and the last root that
-- has ended.
unfoldable pub build : List XmlToken → List Node → Option Node → Option Node
unfolding root_of read_attrs attach append_text
build [] stack root = root_of root stack
build (start_of name attrs ∷ ts) stack root =
    build ts (node name (read_attrs [] attrs) leaf [] ∷ stack) root
build (end_of ∷ ts) [] root = build ts [] root
build (end_of ∷ ts) (n ∷ []) root = build ts [] (some n)
build (end_of ∷ ts) (n ∷ m ∷ stack) root = build ts (attach m n ∷ stack) root
build (char_data t ∷ ts) [] root = build ts [] root
build (char_data t ∷ ts) (n ∷ stack) root = build ts (append_text t n ∷ stack) root
build (other ∷ ts) stack root = build ts stack root

unfoldable pub root_or_error : Option Node → Result XmlError Node
root_or_error none = err empty_xml
root_or_error (some n) = ok n

-- The tokens of a body and the error that ends them.
unfoldable pub decode_tree : List XmlToken × Text → Result XmlError Node
unfolding build text_eq root_or_error
decode_tree (ts, end_error) =
    if text_eq end_error (codes "EOF")
    then root_or_error (build ts [] none)
    else err (malformed_xml end_error)

unfoldable pub is_white : ℕ → Bool
is_white c = c == b' ' || (c == b'\t' || (c == b'\n' || (c == 11 || (c == 12 || c == b'\r'))))

-- `strings.TrimSpace`
unfoldable pub skip_white : Text → Text
unfolding is_white
skip_white [] = []
skip_white (c ∷ s) = let rest = skip_white s in if is_white c then rest else c ∷ s

unfoldable pub keep_before : ℕ → Text → Text
unfolding is_white
keep_before c [] = if is_white c then [] else c ∷ []
keep_before c (x ∷ s) = c ∷ x ∷ s

unfoldable pub drop_white : Text → Text
unfolding keep_before
drop_white [] = []
drop_white (c ∷ s) = keep_before c (drop_white s)

unfoldable pub trim_space : Text → Text
unfolding skip_white drop_white
trim_space s = drop_white (skip_white s)

-- `strings.Fields`: the word that is being read, and the words behind it.
unfoldable pub fields_from : Text → Text → List Text
unfolding is_white
fields_from [] [] = []
fields_from (w ∷ ws) [] = (w ∷ ws) ∷ []
fields_from [] (c ∷ s) =
    let skipped = fields_from [] s in
    let begun = fields_from (c ∷ []) s in if is_white c then skipped else begun
fields_from (w ∷ ws) (c ∷ s) =
    let ended = fields_from [] s in
    let longer = fields_from (w ∷ (ws ++ (c ∷ []))) s in
    if is_white c then (w ∷ ws) ∷ ended else longer

unfoldable pub fields : Text → List Text
unfolding fields_from
fields s = fields_from [] s

-- `strings.ReplaceAll(s, ",", " ")`
unfoldable pub commas_to_spaces : Text → Text
commas_to_spaces [] = []
commas_to_spaces (c ∷ s) = (if c == b',' then b' ' else c) ∷ commas_to_spaces s
