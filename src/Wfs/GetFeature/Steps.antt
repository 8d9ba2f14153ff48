-- ===== src/Wfs/GetFeature/Steps.antt =====
-- What is true of the parameters of GetFeature, from what is true of their parts.
use giti.Prelude.{
  Bool, true, false, ◌≡◌, refl, Option, List, [], ◌∷◌, Text, text_eq, codes, ok, Holds, returns,
  raises, Holds-if, Holds-bind, Holds-bind_any, Holds-eq,
}
use giti.Filter.Ast.{Expr}
use giti.Filter.Sql.SafeText.{is_sql_byte}
use giti.Ows.Request.{Request, get}
use giti.Gateway.Http.{HttpRequest, get_header}
use giti.Wfs.Meta.{introspect}
use giti.Wfs.Model.{Layer, Tools}
use giti.Wfs.Params.{GfParams, split_type_name}
use giti.Wfs.Meaning.{}
use giti.Wfs.GetFeature.{
  either_of, stored_query, sort_of, combined_filter, finish_params, with_layer, with_type,
  parse_get_feature,
}
use giti.Prelude.{Holds-from, List, [], ◌∷◌, if◌then◌else◌}
use giti.Wfs.GetFeature.{sort_column, plus_to_space}
use giti.Filter.Xml.Tree.{fields}
use giti.Wfs.Database.Sends.{IsStatement, IsStatement-bytes, is_statement_byte}

module _ {F : Type 0} (tools : Tools F) (r : HttpRequest) (req : Request) where
  -- The filter is combined first, and then the parameters are finished.
  module _ (Q : Option (Expr F) → Type 0) (K : GfParams F → Type 0)
      (h : (layer : Layer) (fid : Text) → Holds Q (combined_filter tools r req layer fid))
      (j : (layer : Layer) (f : Option (Expr F))
        → Q f
        → Holds K (finish_params tools req layer f)) where
    with_layer-Holds : (fid : Text) (layer : Layer) → Holds K (with_layer tools r req fid layer)
    unfolding with_layer
    with_layer-Holds fid layer =
        Holds-bind K Q (combined_filter tools r req layer fid) _ (h layer fid) λ f k. j layer f k

    with_type-Holds : (parts : Text × Text) → Holds K (with_type tools r req parts)
    unfolding with_type
    with_type-Holds (tn, fid) =
        let (ws, name) = split_type_name tn (get_header (codes "X-Giti-Workspace") r.header) in
        Holds-if K (text_eq tn []) _ _ raises (
          Holds-bind_any K (introspect tools.catalog ws name) _ λ layer. with_layer-Holds fid layer)

    parse_get_feature-Holds : Holds K (parse_get_feature tools r req)
    unfolding parse_get_feature
    parse_get_feature-Holds =
        Holds-bind_any K
          (stored_query (get req (codes "STOREDQUERY_ID")) (get req (codes "ID"))
            (either_of (get req (codes "typeNames")) (get req (codes "typeName"))))
          _ with_type-Holds

  module _ (Q : Option (Expr F) → Type 0) where
    Kept : GfParams F → Type 0
    Kept p = Q p.filter

    finish_params-filter :
        (layer : Layer) (f : Option (Expr F)) → Q f → Holds Kept (finish_params tools req layer f)
    unfolding finish_params Kept
    finish_params-filter layer f k =
        Holds-bind_any Kept (sort_of (get req (codes "sortBy"))) _ λ sort. returns k

    -- What holds of the combined filter holds of the filter of the parameters.
    pub parse_get_feature-filter :
        ((layer : Layer) (fid : Text) → Holds Q (combined_filter tools r req layer fid))
        → (p : GfParams F) → parse_get_feature tools r req ≡ ok p
        → Q p.filter
    unfolding Kept
    parse_get_feature-filter h p e =
        Holds-eq Kept _ p (parse_get_feature-Holds Q Kept h finish_params-filter) e

  IsDirected : Text × Text → Type 0
  IsDirected s = IsStatement s.1

  IsSorted : GfParams F → Type 0
  IsSorted p = IsStatement p.sort_dir

  direction : (c : Bool) → IsStatement (if c then codes "DESC" else codes "ASC")
  unfolding is_statement_byte is_sql_byte
  direction true = IsStatement-bytes refl
  direction false = IsStatement-bytes refl

  sort_column-IsDirected : (fs : List Text) → Holds IsDirected (sort_column fs)
  unfolding sort_column IsDirected is_statement_byte is_sql_byte
  sort_column-IsDirected [] = raises
  sort_column-IsDirected (col ∷ []) = returns (IsStatement-bytes refl)
  sort_column-IsDirected (col ∷ dir ∷ rest) = returns (direction _)

  sort_of-IsDirected : (sb : Text) → Holds IsDirected (sort_of sb)
  unfolding sort_of IsDirected
  sort_of-IsDirected [] = returns (IsStatement-bytes refl)
  sort_of-IsDirected (c ∷ sb) = sort_column-IsDirected (fields (plus_to_space (c ∷ sb)))

  finish_params-IsSorted :
      (layer : Layer) (f : Option (Expr F))
      → Unit {0}
      → Holds IsSorted (finish_params tools req layer f)
  unfolding finish_params IsSorted IsDirected
  finish_params-IsSorted layer f k =
      Holds-bind IsSorted IsDirected (sort_of (get req (codes "sortBy"))) _
        (sort_of-IsDirected (get req (codes "sortBy"))) λ s d. returns d

  -- The direction of the order is one of the words of the program.
  pub parse_get_feature-IsSorted :
      (p : GfParams F) → parse_get_feature tools r req ≡ ok p → IsStatement p.sort_dir
  unfolding IsSorted
  parse_get_feature-IsSorted p e =
      Holds-eq IsSorted _ p
        (parse_get_feature-Holds (λ f. Unit {0}) IsSorted (λ layer fid. Holds-from _ _ λ f e. tt)
          finish_params-IsSorted)
        e
