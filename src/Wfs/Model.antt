-- ===== src/Wfs/Model.antt =====
-- What the handlers of services/wfs share: services/wfs/internal/meta/meta.go's description of a
-- layer, the errors, and the packages that the service calls.
use giti.Prelude.{ℕ, Option, List, Text, Result, ℤ}
use giti.Filter.Error.{Error}
use giti.Ows.Request.{Table}
use giti.Filter.Xml.Tree.{XmlError, XmlToken}

pub record Column : Type 0 where
  pub name : Text
  pub kind : Text

-- `Layer`, without the pool of connections to the store that holds its table.
pub record Layer : Type 0 where
  pub workspace : Text
  pub name : Text
  pub native_name : Text
  pub srs : Text
  pub table : Text
  pub geom_col : Text
  pub geom_type : Text
  pub srid : ℕ
  pub columns : List Column

-- The errors, one constructor for each message. `panicked` is an index out of range.
pub data WfsError : Type 0 where
  requires_id : WfsError
  malformed_id : WfsError
  requires_type_names : WfsError
  layer_not_found : WfsError
  invalid_cql : Error → WfsError
  invalid_filter : XmlError → WfsError
  four_numbers : WfsError
  invalid_number : Text → WfsError
  panicked : WfsError
  invalid_ident : Text → WfsError
  uncompilable : Error → WfsError
  invalid_geometry : Text → WfsError
  malformed_tree : XmlError → WfsError
  locked : Text → Text → Text → WfsError
  database : Text → WfsError

-- A pool of connections: that of the catalog, or that of a data source.
pub data Pool : Type 0 where
  catalog_pool : Pool
  opened : Text → Pool

-- What PostgreSQL answers to the statements of `Meta` with their arguments, while the catalog and the
-- tables do not change: the native name, the reference system and the store of a feature type, the
-- parameters of a store, the geometry column of a table with its type and srid, and the other columns. `pool_error` is the error
-- of `pgxpool.New`, if any, and `env_dsn` the variable GITI_DATABASE_URL.
pub record Catalog : Type 0 where
  pub resource : Text → List Text → Option (Text × Text × Text)
  pub connection : Text → List Text → Result Text (Table Text)
  pub geometry : Pool → Text → List Text → Result Text (Text × Text × ℕ)
  pub columns_of : Pool → Text → List Text → Result Text (List Column)
  pub pool_error : Text → Option Text
  pub env_dsn : Text

-- `strconv.ParseFloat`, `fmt.Sscan` and `%f` of a float64, `fmt.Sscanf` of an int, `xml.Decoder`, `%q`, and the catalog.
pub record Tools (F : Type 0) : Type 0 where
  pub parse_float : Text → Option F
  pub scan_float : Text → Option F
  pub scan_int : Text → Option ℤ
  pub print_float : F → Text
  pub xml_tokens : Text → List XmlToken × Text
  pub quote : Text → Text
  pub catalog : Catalog
