-- ===== src/Lib.antt =====
-- fasthttpd: an HTTP server configured by files, on top of fasthttp.
--
-- The program's parts. A server (pkg/handler/server.go) has one host handler per configuration. It
-- asks the route table (pkg/route) what to do with a request; the table answers with a result, read
-- through a cache (pkg/util/cache.go) when the configuration says so. The host handler runs the
-- filters of the result, answers with a redirect, a status or the handler that the result names,
-- and passes the response through its error pages (pkg/handler/errorpages.go).
--
-- Files and the code that they model:
--   Util/Http         pkg/util/http.go: SplitRequestURI, AppendQueryString, the tests on a URI
--   Util/Padding      pkg/util/bytes.go: AppendPaddingUint and its loops, CopyRightUint, Bytes2dEqual
--   Util/StringSet    pkg/util/strings.go: StringSet.Append
--   Util/Cache        pkg/util/cache.go: the cache. Get, Set, Del, Len, OnRelease, evict are functions
--                     on the state behind the mutex; `go` appends to `evictions` or `releases`, and
--                     Util/Cache/Reach lets the started calls run in any order
--   Util/CacheKey     pkg/util/cache.go: the key builder, up to the bytes that the hash reads
--   Route             pkg/route/route.go: Route (the search), Match, rewrite
--   Route/Results     pkg/route/result.go: Result, the pool, CopyTo, Reset, Equal
--   Route/Setup       pkg/route/route.go: NewRoute, NewRoutes, IsNextIfNotFound
--   Route/Cached      pkg/route/route.go: CachedRoute
--   Util/Strftime     pkg/util/strftime.go: the directives, NewStrftimeBytes, AppendBytes
--   Handler/ErrorPages  pkg/handler/errorpages.go: Handle, handleStatus, sendError, SendDefaultError
--   Handler/Server    pkg/handler/server.go: handleRouteResult, Handle, HandleError
--   Handler/Server/Hosts  pkg/handler/server.go: the choice of a virtual host
--   Handler/Setup     pkg/handler/server.go: newHostHandler, init, newVirtualHandler; NewHandler of
--                     handler.go, NewFilter of pkg/filter/filter.go
--   Handler/Content   pkg/handler/content.go: NewContent, Handle
--   Handler/Proxy     pkg/handler/proxy.go: newProxyBalancer, pick, ServeHTTP, runHealthCheck
--   AccessLog         pkg/logger/accesslog/json.go, ltsv.go: the lines
--   AccessLog/Ncsa    pkg/logger/accesslog/ncsa.go: the tokens, the date, the request; Ncsa/Format is
--                     the pattern of formats and parseNCSAFormat
--   AccessLog/Writer  pkg/logger/accesslog/accesslog.go: Log, flushLoop, Rotate, Close, Collect as
--                     steps of calls that follow one another; bufio.Writer of the standard library
--                     and the files behind it are written out
--   AccessLog/Writer/Calls  pkg/logger/accesslog/accesslog.go: the steps of Log and Close that overlap,
--                     since both read and write closed and appendLine outside the mutex
--   Config/Load       pkg/config/load.go: LoadTreeMaps with its includes
--   Config/Edit       pkg/config/load.go: Edit
--   Config/Size       pkg/config/config.go: parseSize, the decoders of sizes and durations
--   Config/Server     pkg/config/config.go: Server, ApplyTo
--   Config/Settings   pkg/config/config.go: the types, SetDefaults, Normalize; FromTreeMaps of load.go
--   Rotator           pkg/logger/rotator.go: SharedRotator, share, removeSharedRotator, Close,
--                     RotateShared, NewRotator
--   Logger            pkg/logger/logger.go: NewLogger, its flags, Close, LoggerDelegator; Logger/Outputs
--                     opens and closes loggers and access logs in any order
--   AccessLog/Open    pkg/logger/accesslog/accesslog.go: NewAccessLog, newAccessLog
--   Grouping          maps from strings to slices, as MultiTLSConfig and run fill them
--   Network           pkg/net/tcp.go, tls.go: GetNetwork, Accept, MultiTLSConfig, GetCertificate
--   Command           pkg/cmd/fasthttpd.go, dump.go: Main, loadTreeMaps; ValidateTreeMaps of
--                     pkg/config/schema.go
--   Command/Dump      pkg/cmd/dump.go: testOrDump, writeDump, writeTreeMaps, writeConfigs
--   Command/Startup   pkg/cmd/fasthttpd.go: run, listen, Shutdown
--   Filter            pkg/filter/basicauth.go, header.go: init, Request; newHeaderHandler, filter
--   Tree              what is used of the configuration trees of package tree
--   FastHttp          what is used of a fasthttp.RequestCtx: a record of operations and their laws
--   Std               what is used of net/http, strings and strconv
--   Base              shared names and lemmas
--
-- Code outside the repository (fasthttp, tree, regexp, maphash, net/url) stands for itself as
-- parameters. Byte strings are lists of natural numbers; Go's int is an integer or, where the code
-- never has a negative value, a natural number; times are natural numbers. A map of the
-- configuration is an association list, in the order in which a range gives it. A panic and the call
-- of a nil entry of a map are `none` or a constructor of their own.
--
-- The loop of Handle runs on fuel. One round is enough where no route has nextIfNotFound; otherwise
-- there are requests for which no fuel is enough, and the theorem about them says so. The parser of
-- Util/Strftime and the pattern of AccessLog/Ncsa/Format run on the length of the format, which is
-- enough. Loading runs on fuel for the depth of includes; more than the number of files that can be
-- read is enough.
--
-- The command reads its configuration with Config/Load, Config/Edit and Config/Settings, and starts
-- a listener with Network. The signals, the goroutines of the servers and the flag parser are
-- outside the model; a start is a sequence of steps, and a shutdown is asked of its result.
--
-- Not modelled: serving files (fs.go), debugging handlers (pprof.go, expvar.go), the signal handlers
-- of the command and its fallback configuration, the rules of schemas, which are made by reflection
-- (pkg/config/schema.go), what package log writes, a rotator whose
-- Close fails, closing the handlers of a server and the logger of its virtual hosts.
pub mod Base
pub mod Std
pub mod Util
pub mod Route
pub mod FastHttp
pub mod Tree
pub mod AccessLog
pub mod Filter
pub mod Config
pub mod Grouping
pub mod Network
pub mod Command
pub mod Handler
pub mod Rotator
pub mod Logger
