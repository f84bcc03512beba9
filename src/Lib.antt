-- ===== src/Lib.antt =====
-- Verification of evm_rpc, a JSON-RPC server for Ethereum data.
--
-- The program. `cmd/rpc/main.go` starts an HTTP and a WebSocket server (`pkg/server/http.go`,
-- `pkg/server/websocket.go`). Both hand what a client sends to `ParseRequest` and the result to a
-- `JSONRPCHandler` (`pkg/server/handler.go`), which asks the rate limiter
-- (`pkg/middleware/ratelimit.go`), finds the method in a table that reflection has filled, decodes
-- the parameters, calls the method and counts it (`pkg/metrics/rpc_metrics.go`). A WebSocket client
-- may also subscribe: `pkg/server/subscription.go` keeps who listens to what and sends notifications
-- through the connections' channels. `pkg/cache` holds caches with expiry.
--
-- The model. Each file names the code it translates. State is a record that the operations take and
-- return, in the order in which the code changes it:
--   Prelude: Boolean tests, lists, byte strings, Go maps as association lists, int64 and uint64.
--   Strconv: the parts of Go's `strconv` and `fmt` that the code calls: bases, quoting, errors.
--   Api: `pkg/api/types.go`: error codes, `RPCError`, `ParseBlockNumber`, `ToUint64`; Api/RpcTypes: the
--     RPC forms of transactions, receipts and blocks.
--   Metrics: `pkg/metrics/rpc_metrics.go`: one function of the labels for each family.
--   Middleware/RateLimit: `pkg/middleware/ratelimit.go`: `Allow` (`allow_request`) and the limits of
--     the HTTP middleware (`allow_connection`). Middleware/Logging: `pkg/middleware/logging.go`.
--     Middleware/Cors: `pkg/middleware/cors.go`.
--   Server/Request: `ParseRequest` on the JSON document of the bytes. Server/Methods: the method
--     table, `RegisterService`, `isValidMethod`. Server/Handler: `HandleRequest`, `executeMethod`,
--     `HandleBatch`. Server/Connection: `WebSocketConnection`. Server/Subscription: the manager's maps
--     and `matchLogFilter`. Server/Notify: the notifications. Server/Session: `WebSocketServer`, with
--     its clients' messages; Server/Session/Reach: these, what the chain brings, and `Stop`, as steps.
--     Server/Threads: `Send`, `Close` and `writePump` of one connection, run by any number of
--     goroutines, a shared access at a time. Server/Admission: the count of the connections and the
--     registration in `handleWebSocket`, run by several requests at once. Server/Listen: the loops
--     `listenNewBlocks` and `listenNewPendingTransactions`. Server/Http: `handleRPC`, `handleHealth`
--     and the rate limiter's middleware. Server/Http/Stack: the handler of `NewHTTPServer`: the log
--     around the limiter around CORS around the routes.
--   Cache: `pkg/cache/lru.go`, where `go c.Delete(key)` is a step that runs later (`run_cleanup`);
--     Cache/Locks: its RWMutex under `Stats`. Cache/Manager: `pkg/cache/manager.go`, where a failed
--     type assertion is a panic.
--   Storage: `pkg/storage`: the readers over what the store answers for a key, and the transaction
--     pool; Storage/Client: `PikaClient` over the commands of go-redis. Eth/Blocks, Eth/Transactions,
--     Eth/State, Eth/Gas, Eth/Submit: the services of `pkg/api/eth`. Api/TxPool: `pkg/api/txpool`.
--     Namespaces: `pkg/api/net` and `pkg/api/web3`. The pool's commands (`Redis`, which
--     Storage/Client makes of a client), the decoders (`Codec`) and go-ethereum's transactions
--     (`TxLib`) are parameters.
--   Config: `pkg/config/config.go`. Log: `pkg/logger/logger.go`: the global logger. Wiring: `main` of
--     `cmd/rpc/main.go` as the list of what it makes, starts and stops; Wiring/Parts: the limiter and
--     the WebSocket server that it makes of the configuration.
--   Tests: concrete instances of every parameter, and each theorem applied to one.
--
-- Parameters. `golang.org/x/time/rate` (`RateLib`) and `hashicorp/golang-lru` (`LruLib`, with its
-- documented behaviour in `IsLru`) are records of operations. The services behind the handler are a
-- type of values, a type of states, and methods that take and return them (`Program`, `Method`); a
-- method may panic. `encoding/json` decodes the bytes into a document, whose numbers come with the literals of
-- their float64s; what the request types make of a document is modelled, an id in an `interface{}`
-- included, what a service's argument type makes of it is the type's `unmarshal`.
--
-- Bounds. A uint64 is a natural number below 2^64, an int64 one of the integers of Prelude.Int;
-- conversions wrap as in Go. Printing a number takes fuel for its digits: one more than the number,
-- which is enough since a digit divides it by at least two. No other recursion needs fuel.
--
-- Not modelled: the bytes of JSON and RLP, sockets and their deadlines, what CORS does and how the
-- router answers requests without a route (parameters of Server/Http/Stack), the server of the
-- metrics, and `pkg/rpc/backend.go`, which the program does not use. Outside Server/Threads,
-- Server/Admission and Cache/Locks, goroutines that share a lock run one after the other.
pub mod Prelude
pub mod Strconv
pub mod Api
pub mod Metrics
pub mod Middleware
pub mod Server
pub mod Config
pub mod Namespaces
pub mod Log
pub mod Wiring
mod Tests
pub mod Cache
pub mod Storage
pub mod Eth
