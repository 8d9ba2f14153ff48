-- ===== src/Lib.antt =====
-- Giti is a server of geographic data made of services behind a gateway. This library models the
-- logic that the Go services share, the gateway, the authorization, feature and processing services and
-- the catalog, and proves what they promise.
--
-- A request reaches services/gateway. Its authorization middleware (authz.go) asks services/auth
-- (internal/api/check.go), which finds the subject and evaluates the access rules
-- (internal/rules/rules.go); the dispatcher (dispatch.go) reads service, version and operation with
-- libs/ogc-kit/ows and passes the request on. The constraints of the rules and the filters of
-- clients are CQL or XML texts, which libs/ogc-kit/filter parses and compiles to SQL. services/wfs
-- answers from that SQL: it conjoins the constraint that the gateway sends to the filter of the
-- client, and edits features under locks. services/wps runs processes at once or as queued jobs.
-- The rules, users and roles that services/auth reads are kept in its tables (internal/store), which
-- its administration changes; each change bumps the generation under which checks are cached.
-- services/catalog keeps workspaces, stores, layers and styles in tables of its own, and publishes
-- events for the changes that come in under /rest.
--
-- Files, and the code that they model:
--   Prelude            tests, lists, results and byte strings that the others share
--   Filter/Ast         libs/ogc-kit/filter/ast.go: Expr and its nodes
--   Filter/Lexer       cql.go: next, lexString, lexNumber, lexIdent
--   Filter/Parser      cql.go: ParseCQL and the methods of cqlParser
--   Filter/Sql         sql.go: ToSQL, emit, quoteIdent, placeholder
--   Filter/Xml         xml.go: decodeTree, convert, gmlToWKT and their helpers
--   Ows/Request        libs/ogc-kit/ows/request.go, xmlreq.go: ParseKVP, Get, ParseXML
--   Ows/Negotiate      negotiate.go: Versions, cmpVer, Negotiate
--   Ows/Exception      exception.go: WriteException and the formats
--   Auth/Rules         services/auth/internal/rules/rules.go: Evaluate, matches, andCQL
--   Auth/Check         services/auth/internal/api/check.go: authenticate, check
--   Auth/Store         services/auth/internal/store: the methods of Store on the tables of migrations/
--   Auth/Admin         services/auth/internal/api: security.go, geofence.go, and check.go's login
--   Auth/Coherence     check.go and api.go's bumpGen: several checks and changes of the rules at once
--   Gateway/Dispatch   services/gateway/dispatch.go: newBackends, parsePath, newDispatcher
--   Gateway/Authorize  services/gateway/authz.go: authzMiddleware
--   Gateway/Limit      services/gateway/middleware.go: rateLimitMiddleware
--   Gateway/Enforce    the gateway with the check at the other end of its call
--   Wfs/Model          services/wfs/internal/meta/meta.go: Layer; the errors, the packages called
--   Wfs/Meta           services/wfs/internal/meta/meta.go: Resolve with its cache, poolFor; what
--                      these ask the database is not in the log of Wfs/Database
--   Wfs/Database       the actions of the handlers, on the database, the clock and the locks, with
--                      a log of the statements on features
--   Wfs/Params         services/wfs/internal/wfs/getfeature.go: the parameters of GetFeature
--   Wfs/GetFeature     getfeature.go: parseGetFeature, whereClause
--   Wfs/Statements     encode.go, transaction.go, stored_lock.go: the SQL that reads features
--   Wfs/Encode         the same files: the GeoJSON, CSV, GML and value documents; Csv is a reader of
--                      CSV that is not of the program
--   Wfs/Stream         getfeature.go: getFeature, countMatched and the streams
--   Wfs/Locks          stored_lock.go: lockedIDs, enforceLocks, lockFeature
--   Wfs/Xml            xmltree.go: the trees of transactions, txFilterWhere
--   Wfs/Transaction    transaction.go: transaction, doInsert, doUpdate, doDelete
--   Wps/Inputs         services/wps/internal/wps/execute.go: parseDataInputs
--   Wps/Jobs           jobs.go: the status files, the queue and its worker
--   Wps/Execute        execute.go: execute; jobs.go: Enqueue
--   Rows               SQL on tables: keys, references, cascades, ON CONFLICT and ORDER BY
--   Catalog/Model      services/catalog/internal/model/model.go, and the tables of store/migrations
--   Catalog/Stores     services/catalog/internal/store/store.go: workspaces and stores
--   Catalog/Layers     the same file: feature types, coverages and layers
--   Catalog/Styles     the same file: styles, layer groups and validTable
--   Catalog/Intact     the keys and references of the catalog under every change
--   Catalog/Rest       services/catalog/internal/rest: rest.go, encode.go, workspaces.go, stores.go and
--                      layers.go; Routes has the patterns
--                      under /rest, Served what a request leaves and publishes
-- A function has the name of the Go function in lower case with underscores. A Go string is the list
-- of its bytes, with the case mappings and the white space of ASCII; a map is an association list; a
-- handler is a function from the request to what it answers or passes on.
--
-- Fuel: the CQL parser runs on four units for each byte of the text and four more. A call passes
-- four methods at most before it reads a byte, and Filter/Parser/Total shows that the fuel never
-- runs out. Everything else is structural recursion. The components of a version are 64-bit numbers
-- that wrap around.
--
-- Parameters, since their code is not in the repository: the reading and printing of floats
-- (strconv, fmt), encoding/xml, encoding/json, net/url, base64, the password and token libraries,
-- PostgreSQL, the rate limiter of golang.org/x/time. The cache of check is a table whose entries
-- do not expire, save in Auth/Coherence, where Redis may drop any at any time. The answers of
-- PostgreSQL to the feature service are a function of all that was sent to it before, and the time
-- is one too.
--
-- The tables of services/auth and services/catalog are lists of rows, on which the statements of the
-- stores do what PostgreSQL documents; the order of texts in the database is a parameter, and each
-- statement is answered.
--
-- The status files of jobs are taken to say what was encoded into them, and the writes of the worker,
-- whose errors it drops, to succeed; Enqueue may fail to write its file, and a message may be no
-- JSON.
--
-- Not modelled: the capabilities and schemas of the feature and processing services, of the catalog
-- GetLayerDetail, the routes under /api/v1 (which change the tables of the
-- catalog too), the tile-cache tables, ingestion, CSW and the connectors
-- to stores, the conversion service, the migrations' runner, the Rust map and tile services, and the
-- web interface.
pub mod Prelude
pub mod Filter
pub mod Ows
pub mod Gateway
pub mod Auth
pub mod Wfs
pub mod Wps
pub mod Rows
pub mod Catalog
