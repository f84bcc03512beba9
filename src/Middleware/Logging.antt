-- ===== src/Middleware/Logging.antt =====
-- pkg/middleware/logging.go: the response writer that remembers the status, the middleware around a
-- handler, and the log of RPC calls. A log line is its level with what it shows.
pub mod Status
use evm_rpc.Prelude.{
  ℕ, ◌-◌, Bool, true, false, Option, none, some, Text, text, List, [], ◌∷◌, ◌++◌, ltb,
  if◌then◌else◌,
}
use evm_rpc.Api.Error.{GoError, error_text}
use evm_rpc.Metrics.{Metrics, record_request}

-- What reaches the `http.ResponseWriter` underneath: a call of `WriteHeader` or of `Write`.
pub data Call : Type 0 where
  header : ℕ → Call
  body : List ℕ → Call

-- `responseWriter`; `sent` is what it has passed on, in order.
pub record ResponseWriter : Type 0 where
  pub status_code : ℕ
  pub written : Bool
  pub sent : List Call

abbrev pub new_response_writer : ResponseWriter
new_response_writer = record { status_code = 200; written = false; sent = [] }

unfoldable pub write_header : ℕ → ResponseWriter → ResponseWriter
write_header code w =
    if w.written
    then w
    else record { status_code = code; written = true; sent = w.sent ++ header code ∷ [] }

abbrev pass_on : List ℕ → ResponseWriter → ResponseWriter
pass_on b w = record w { sent = w.sent ++ body b ∷ [] }

unfoldable pub write : List ℕ → ResponseWriter → ResponseWriter
unfolding write_header
write b w = pass_on b (if w.written then w else write_header 200 w)

-- A handler is the calls that it makes on its writer.
unfoldable pub serve : List Call → ResponseWriter → ResponseWriter
serve [] w = w
serve (header code ∷ calls) w = serve calls (write_header code w)
serve (body b ∷ calls) w = serve calls (write b w)

-- The log's lines. Times are in nanoseconds.
pub data Line : Type 0 where
  incoming : Text → Text → Text → Line
  completed : Text → Text → ℕ → ℕ → Line
  slow : Text → Text → ℕ → Line
  rpc_request : Text → Text → Line
  rpc_response : Text → ℕ → Line
  rpc_failed : Text → ℕ → Text → Line
  rpc_slow : Text → ℕ → ℕ → Line

-- The method, the path and the remote address of an `http.Request`.
pub record Requested : Type 0 where
  pub method : Text
  pub path : Text
  pub remote : Text

abbrev slow_line : ℕ → Requested → ℕ → List Line
slow_line threshold r duration =
    if ltb threshold duration then slow r.method r.path duration ∷ [] else []

-- `Middleware()` around a handler: the lines that are logged and the writer at the end. The clock is
-- read before and after the handler.
unfoldable pub log_served :
    (threshold start end : ℕ) → Requested → List Call → List Line × ResponseWriter
log_served threshold start end r calls =
    let wrapped = serve calls new_response_writer in
    let duration = end - start in
    (
      incoming r.method r.path r.remote
          ∷ completed r.method r.path wrapped.status_code duration
          ∷ slow_line threshold r duration,
      wrapped,
    )

-- `%v` of the parameters is given.
unfoldable pub log_rpc_request : Text → Text → List Line
log_rpc_request method params = rpc_request method params ∷ []

unfoldable pub log_rpc_response : Text → ℕ → Option GoError → List Line
log_rpc_response method duration none = rpc_response method duration ∷ []
log_rpc_response method duration (some e) = rpc_failed method duration (error_text e) ∷ []

unfoldable pub log_slow_rpc_request : Text → ℕ → ℕ → List Line
log_slow_rpc_request method duration threshold =
    if ltb threshold duration then rpc_slow method duration threshold ∷ [] else []

abbrev status_of : Option GoError → Text
status_of none = text "success"
status_of (some _) = text "error"

unfoldable pub record_rpc_metrics : Text → ℕ → Option GoError → Metrics → Metrics
unfolding record_request
record_rpc_metrics method duration e m = record_request method (status_of e) duration m
