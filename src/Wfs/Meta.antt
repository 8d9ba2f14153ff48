-- ===== src/Wfs/Meta.antt =====
-- services/wfs/internal/meta/meta.go: Resolve and poolFor. A pool is known by its data source, so that
-- the table of pools has nothing to say. The four statements of Resolve go to the pool of the catalog and
-- to that of the store straight from here: they are no part of the log of statements that
-- Wfs/Database keeps of the handlers, and hold single quotes, as the first does.
pub mod Cached
use giti.Prelude.{
  ℕ, ◌+◌, ◌-◌, ◌==◌, ltb, Bool, ◌||◌, Option, none, some, List, [], ◌∷◌, ◌++◌, Text, text_eq, codes,
  Result, ok, err, bind, if◌then◌else◌,
}
use giti.Ows.Request.{Table, find, put}
use giti.Wfs.Model.{
  Layer, Column, Catalog, Pool, catalog_pool, opened, WfsError, layer_not_found, database,
}

unfoldable pub query_error : {A : Type 0} → Result Text A → Result WfsError A
query_error (ok a) = ok a
query_error (err e) = err (database e)

unfoldable pub or_not_found : {A : Type 0} → Option A → Result WfsError A
or_not_found none = err layer_not_found
or_not_found (some a) = ok a

-- `conn[name]`
unfoldable pub entry : Option Text → Text
entry none = []
entry (some t) = t

unfoldable pub conn_entry : Table Text → Text → Text
unfolding entry find
conn_entry conn name = entry (find name conn)

unfoldable pub dsn_of : Catalog → Table Text → Text
unfolding conn_entry text_eq
dsn_of c conn =
    if text_eq (conn_entry conn (codes "host")) (codes "self-env")
    then c.env_dsn
    else codes "postgres://"
      ++ (conn_entry conn (codes "user")
          ++ (codes ":"
              ++ (conn_entry conn (codes "passwd")
                  ++ (codes "@"
                      ++ (conn_entry conn (codes "host")
                          ++ (codes ":"
                              ++ (conn_entry conn (codes "port")
                                  ++ (codes "/" ++ conn_entry conn (codes "database")))))))))

unfoldable pub open_pool : Text → Option Text → Result WfsError Pool
open_pool dsn (some e) = err (database e)
open_pool dsn none = ok (opened dsn)

unfoldable pub pool_for : Catalog → Table Text → Result WfsError Pool
unfolding conn_entry dsn_of open_pool text_eq
pool_for c conn =
    let host = conn_entry conn (codes "host") in
    let dsn = dsn_of c conn in
    if text_eq host [] || text_eq host (codes "self")
    then ok catalog_pool
    else open_pool dsn (c.pool_error dsn)

abbrev pub geometry_sql : Text
geometry_sql =
    codes
      "\n\t\tSELECT f_geometry_column, type, srid FROM geometry_columns\n\t\tWHERE f_table_name=$1 LIMIT 1"

abbrev pub columns_sql : Text
columns_sql =
    codes
      "\n\t\tSELECT column_name, data_type FROM information_schema.columns\n\t\tWHERE table_name=$1 AND column_name <> $2\n\t\tORDER BY ordinal_position"

unfoldable pub layer_on : Catalog → Text → Text → Text × Text × Text → Pool → Result WfsError Layer
unfolding query_error
layer_on c ws name (native, srs, store) pool =
    bind (query_error (c.geometry pool geometry_sql (native ∷ []))) λ (geom_col, geom_type, srid).
      bind (query_error (c.columns_of pool columns_sql (native ∷ geom_col ∷ []))) λ cols.
        ok record {
          workspace = ws;
          name = name;
          native_name = native;
          srs = srs;
          table = native;
          geom_col = geom_col;
          geom_type = geom_type;
          srid = if srid == 0 then 4326 else srid;
          columns = cols;
        }

abbrev pub resource_sql : Text
resource_sql =
    codes
      "\n\t\tSELECT r.native_name, r.srs, r.store\n\t\tFROM resources r\n\t\tWHERE r.workspace=$1 AND r.name=$2 AND r.kind='featuretype'"

abbrev pub connection_sql : Text
connection_sql = codes "SELECT connection FROM stores WHERE workspace=$1 AND name=$2"

-- `Resolve` where nothing is cached: the names are arguments of the statements, whose texts are
-- constant.
unfoldable pub introspect : Catalog → Text → Text → Result WfsError Layer
unfolding or_not_found query_error pool_for layer_on
introspect c ws name = bind (or_not_found (c.resource resource_sql (ws ∷ name ∷ []))) λ resource.
    bind (query_error (c.connection connection_sql (ws ∷ resource.2 ∷ [])))
      λ conn. bind (pool_for c conn) λ pool. layer_on c ws name resource pool

-- The cache: layers with the time at which they were read. `cacheTTL` is a minute.
abbrev pub MetaCache : Type 0
MetaCache = Table (Layer × ℕ)

unfoldable pub cached_layer : ℕ → Option (Layer × ℕ) → Option Layer
cached_layer time none = none
cached_layer time (some (layer, at)) = if ltb (time - at) 60000000000 then some layer else none

unfoldable pub meta_key : Text → Text → Text
meta_key ws name = ws ++ (b':' ∷ name)

unfoldable pub keep_layer :
    Text → ℕ → MetaCache → Result WfsError Layer → Result WfsError Layer × MetaCache
unfolding put
keep_layer key time cache (err e) = (err e, cache)
keep_layer key time cache (ok layer) = (ok layer, put key (layer, time) cache)

unfoldable pub resolve_from :
    Catalog → Text → Text → ℕ → MetaCache → Option Layer → Result WfsError Layer × MetaCache
unfolding keep_layer introspect meta_key
resolve_from c ws name time cache (some layer) = (ok layer, cache)
resolve_from c ws name time cache none =
    keep_layer (meta_key ws name) time cache (introspect c ws name)

unfoldable pub resolve : Catalog → ℕ → MetaCache → Text → Text → Result WfsError Layer × MetaCache
unfolding resolve_from cached_layer meta_key find
resolve c time cache ws name =
    resolve_from c ws name time cache (cached_layer time (find (meta_key ws name) cache))
