-- ===== src/Server/Http/Stack.antt =====
-- `NewHTTPServer` of pkg/server/http.go: the two endpoints behind the router, and the middleware around
-- it, in the order in which it is applied.
pub mod Logged
use evm_rpc.Prelude.{
  ℕ, Bool, ◌&&◌, Option, none, some, Text, text, text_eq, List, [], ◌∷◌, ◌++◌, Map, if◌then◌else◌,
}
use evm_rpc.Api.Error.{Result}
use evm_rpc.Middleware.RateLimit.{RateLib}
use evm_rpc.Middleware.Logging.{Call, header, body, Line, Requested, incoming, log_served}
use evm_rpc.Server.Methods.{Program, MethodHandler}
use evm_rpc.Server.Handler.{Tick, Response, State}
use evm_rpc.Server.Http.{
  HttpRequest, HttpReply, HealthReport, json, json_batch, plain, report, library, aborted,
  handle_health, handle_rpc, rate_limited,
}

-- A request with its line. `remote` is the address that the log shows.
pub record Incoming : Type 0 where
  pub method : Text
  pub path : Text
  pub request : HttpRequest

abbrev pub requested : Incoming → Requested
requested r = record { method = r.method; path = r.path; remote = r.request.remote_addr }

-- What a request meets: the times that the middleware and the handlers read, and what the store
-- answers about the latest block.
pub record Moment : Type 0 where
  pub start : ℕ
  pub limited_at : ℕ
  pub clock : ℕ → Tick
  pub health_at : ℕ
  pub latest : Result ℕ
  pub block_time : ℕ → Result ℕ
  pub end : ℕ

module _ (lib : RateLib) (p : Program) where
  -- A handler, on a request.
  abbrev pub Handler : Type 0
  Handler = Incoming → State lib p → State lib p × HttpReply lib p

  abbrev pub health_reply : Option HealthReport → HttpReply lib p
  health_reply none = aborted
  health_reply (some h) = report 200 h

  -- The routes; what the router answers to other requests is `unrouted`.
  unfoldable pub router : (Incoming → List Call) → Map Text (MethodHandler p) → Moment → Handler
  unfolding handle_health handle_rpc
  router unrouted methods t r s =
      if text_eq r.path (text "/health") && text_eq r.method (text "GET")
      then (s, health_reply (handle_health t.health_at t.latest t.block_time))
      else if text_eq r.path (text "/") && text_eq r.method (text "POST")
      then handle_rpc lib p methods t.clock r.request s
      else (s, library (unrouted r))

  -- `if corsMiddleware != nil`: what CORS makes of a handler.
  abbrev pub with_cors : Option (Handler → Handler) → Handler → Handler
  with_cors none next = next
  with_cors (some cors) next = cors next

  -- The handler of the server without the log: the limiter around CORS around the router.
  unfoldable pub limited_handler :
      (Incoming → List Call)
      → Map Text (MethodHandler p)
      → Option (Handler → Handler)
      → Moment
      → Handler
  unfolding router rate_limited
  limited_handler unrouted methods cors t r =
      rate_limited lib p t.limited_at r.request (with_cors cors (router unrouted methods t) r)

  -- The bytes of a response, of a batch and of a report in JSON.
  pub record Encoders : Type 0 where
    pub response : Response lib p → List ℕ
    pub batch : List (Response lib p) → List ℕ
    pub health : HealthReport → List ℕ

  -- What a reply calls on the writer; `http.Error` ends the text with a line feed. A panic is none.
  unfoldable pub calls_of : Encoders → HttpReply lib p → Option (List Call)
  calls_of enc (json status r) = some (header status ∷ body (enc.response r) ∷ [])
  calls_of enc (json_batch status rs) = some (header status ∷ body (enc.batch rs) ∷ [])
  calls_of enc (plain status msg) = some (header status ∷ body (msg ++ 10 ∷ []) ∷ [])
  calls_of enc (report status h) = some (header status ∷ body (enc.health h) ∷ [])
  calls_of enc (library calls) = some calls
  calls_of enc aborted = none

  -- What a request ends with: the lines of the log, the state, and what was sent, none where a panic
  -- ends it, which the log does not see.
  pub record Ended : Type 0 where
    pub lines : List Line
    pub state : State lib p
    pub sent : Option (List Call)

  abbrev pub finish : ℕ → Moment → Incoming → State lib p → Option (List Call) → Ended
  finish threshold t r s none = record {
    lines = incoming r.method r.path r.request.remote_addr ∷ [];
    state = s;
    sent = none;
  }
  finish threshold t r s (some calls) =
      let (lines, w) = log_served threshold t.start t.end (requested r) calls in
      record { lines = lines; state = s; sent = some w.sent }

  -- The logging middleware, with its threshold.
  unfoldable pub log_around : ℕ → Encoders → Moment → Handler → Incoming → State lib p → Ended
  unfolding log_served calls_of
  log_around threshold enc t next r s =
      let (s', reply) = next r s in finish threshold t r s' (calls_of enc reply)

  -- `if loggingMiddleware != nil`: without one, the calls reach the writer as they are.
  unfoldable pub serve_http :
      Option ℕ
      → Encoders
      → (Incoming → List Call)
      → Map Text (MethodHandler p)
      → Option (Handler → Handler)
      → Moment
      → Incoming
      → State lib p
      → Ended
  unfolding log_around limited_handler calls_of
  serve_http (some threshold) enc unrouted methods cors t r s =
      log_around threshold enc t (limited_handler unrouted methods cors t) r s
  serve_http none enc unrouted methods cors t r s =
      let (s', reply) = limited_handler unrouted methods cors t r s in
      record { lines = []; state = s'; sent = calls_of enc reply }
