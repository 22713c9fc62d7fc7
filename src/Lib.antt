-- ===== src/Lib.antt =====
-- gofi: a model of the core of the gofi web framework, and what is proved of it.
--
-- The program. A router (mux.go) keeps one tree of routes for each HTTP method (tree.go), a
-- table of meta values of routes and key-value stores (extras.go), and the compiled rules of
-- the routes' schemas (rules.go, mux_options.go). Registration puts a route, with its handlers
-- flattened behind the middlewares, in the tree of its method. A request is looked up in the
-- tree of its method; it is served by the handlers of a route, redirected, or answered with 405
-- or 404, and each answer but the redirect is a chain of handlers, which run by `Context.Next`
-- (context.go). An error that a chain returns goes to the error handler (handler.go).
--
-- The files, and the code that they model:
-- - Prelude, Prelude/...: library names, Boolean tests, lists over the native numbers, texts as
--   lists of bytes, and the functions of package strings that the code uses.
-- - Tree/Scan, Tree/Node, Tree/Insert, Tree/Lookup: tree.go. `Node` has the fields of `node`,
--   those that hold no node in the record `Fields`. `add_route` is `addRoute`, `walk` its loop,
--   `place_wild` and `place_static` the cases of the loop, `insert_child` is `insertChild`,
--   `get_value` is `getValue`, and `search_from` its loop. A panic is the value `panic` of
--   `Result`. Go changes the nodes in place and goes on with a child; here the child comes back
--   and is put in its place. Tree/Scan/Laws: what the scans of a pattern find.
-- - Tree/Pattern: what a pattern means, as the relation `Matches` of a pattern, a path and
--   parameters. The value of a catch-all is what is behind its slash. `Serves` adds what the code
--   serves besides: `Slips`, a path with another byte in the place of the slash of a catch-all.
-- - Tree/Shape: the well-formed trees. Tree/Lookup/Sound...: the lookup against Tree/Pattern, in
--   Reach first with any byte in the place of a slash.
--   Tree/Lookup/Total: whether the lookup returns.
-- - Store, Store/Laws, Store/MetaLaws: extras.go.
-- - Chain, Chain/Laws: `Next` of context.go, errors.go. A handler is a program that stops with
--   an error or without one, changes or reads the state, or calls `Next`.
-- - Errors, Errors/Json: `defaultErrorHandler` of handler.go, against a reader of JSON strings.
-- - Mux, Mux/Paths: `joinPath` and registration in mux.go, `SetRules` and `GetRules` of
--   mux_options.go. Mux/Dispatch: `handleFastHTTP`, `allowedMethods`, `runNotFound`.
--   Mux/Dispatch/Redirects: when a redirect is sent, and to which path.
--   Mux/Groups: `Use`, `With`, `Group`, `Route`, with the arrays behind Go's slices.
-- - Rules/Statuses: statuses.go. Rules, Rules/Responses, Rules/Fields: rules.go.
-- - Middleware: the request and the response, middleware/skip.go and middleware/earlydata.go.
--   Middleware/Cors, Middleware/Csrf, Middleware/Paths (redirect.go, rewrite.go) and
--   Middleware/Cache, each with its laws: the files of middleware/ with those names. A middleware
--   is a handler of Chain over `Exchange`; that of the cache has the table beside it.
-- - Tree/Insert/Built, Chain, Fresh, Children, Split, Place, PlaceWild, PlaceParam, Walked, Grown:
--   `addRoute` and the shape of trees, one file for each step of the code. Tree/Routes and
--   Mux/Registration: registration and lookup together.
-- - Websocket: the checks before an upgrade and the calls of a session, of websocket/websocket.go.
--   Websocket/Upgrade: the handler with the options of a policy.
--   Websocket/Registry: `SessionRegistry`, as a relation of steps between which the goroutines take
--   turns. Websocket/Payloads: `validatePayloadSchema`, with the cache of validators.
-- - Validators: `Validate`, `parseRules` and `NewContextValidatorFn`, of validators/validator.go and
--   validators/parse.go. Validators/Payment and Validators/Texts: the rules of
--   validators/rules/payment_rules.go and validators/rules/string_rules.go.
-- - Adapter: `responseWriter` of adapter.go, with the flush of its headers to the response.
-- - Json: cont/json.go. Json/Walk: `ValidateAndDecodeRequest` and `walkStruct` of bodyparser_json.go,
--   where nothing is bound, and `runValidationLazy` of schema.go; the walk goes down the rules, and is
--   given the walk of the rules below as a function. Json/Encode: `encodeFieldValue`, down the value;
--   Json/Encode/Runes: the runes of a Go string, with U+FFFD for what is no UTF-8. Json/Encode/Grammar
--   is the grammar of JSON that it is held against.
-- - Middleware/Headers: helmet.go, requestid.go, responsetime.go, favicon.go and etag.go of middleware/.
-- - Primitives: utils/primitives.go, with ParseInt, ParseUint and ParseBool of strconv.
-- - Requests: the parts of a request and the checks of their texts, in requests.go. Requests/Run:
--   `validateAndOrBindRequest` without its binding, and `Validate` with the result that it keeps.
--
-- Numbers. `priority` is a uint32 and `maxParams` a uint8; their sums are taken modulo 2^32 and
-- 2^8. Positions and lengths of texts are unbounded numbers. A Go map is an association list,
-- whose order is the order in which a loop over the map meets its entries.
--
-- Fuel. `search_from` and `walk` go at each turn to a child of the node, and `insert_child`
-- makes two nodes at most for each wildcard. `search_from` runs on the length of the text plus
-- two, the others on the length plus one, since each turn but the first takes a byte off the text
-- or is the last but one. The end of the fuel is a panic of its own.
-- `next_from` runs on the number of handlers, each of which is entered at one position.
--
-- Parameters. strings.ToLower is an argument of what uses it. The growth of a slice's capacity
-- by the runtime is the argument `grow` of Mux/Groups. What fasthttp and the adapter do to a
-- response are the fields of `Effects` in Mux/Dispatch.
-- HMAC and hex are the record `Crypto`, and the random token of `KeyGenerator` an argument of
-- `csrf`. The clock is an argument of `cache`, and `key_of` its key generator.
-- What websocket/websocket.go uses of reflection, and validators.Validate, is the record
-- `Reflection` in Websocket/Payloads.
-- The table of the rules is a parameter of Validators; strings.ToLower and strings.ToUpper are
-- parameters of the two rules that call them.
-- What fasthttp does to add a header is a parameter of Adapter. Go goes over the map of the headers
-- in any order, and the model in the order in which their keys came.
-- fastjson, encoding/json and strconv are the record `FastJson` in Json, base64 and the custom specs
-- `Decoders` and `Encoders` in Json/Walk and Json/Encode, which has reflect's conversion of a default.
-- ParseFloat of strconv and Parse of time, the custom specs and the body parsers of a program are the
-- record `Services` in Requests.
-- crc32, the generator of identifiers and the clock are arguments of the middlewares in
-- Middleware/Headers, with the bytes of the icon.
--
-- Not modelled. The parts that rest on reflection (schema compilation, binding, the parsers of forms,
-- OpenAPI documents, the contracts of websocket messages), the requests of adapter.go, servers and
-- streams, the rules of validators/rules on addresses, times, files, limits and regular expressions,
-- and the other files of middleware/.
-- strings.TrimSpace takes only ASCII space off. The eviction loop of the cache runs on the number
-- of entries, since each eviction takes one out. Times and sizes are
-- unbounded numbers.
pub mod Prelude
pub mod Tree
pub mod Store
pub mod Chain
pub mod Errors
pub mod Mux
pub mod Rules
pub mod Adapter
pub mod Json
pub mod Middleware
pub mod Primitives
pub mod Requests
pub mod Validators
pub mod Websocket
