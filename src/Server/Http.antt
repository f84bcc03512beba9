-- ===== src/Server/Http.antt =====
-- The HTTP server of pkg/server/http.go: the JSON-RPC and the health endpoint, behind the rate
-- limiter's middleware; Server/Http/Stack: these behind the router and all of the middleware.
pub mod Replies
pub mod Health
pub mod Charges
pub mod Stack
use evm_rpc.Prelude.{
  ℕ, ◌+◌, ◌*◌, ◌-◌, ◌/◌, Bool, true, false, Option, none, some, Text, text, text_eq, List, [], Map,
  ltb, if◌then◌else◌,
}
use evm_rpc.Prelude.Int.{ℤ, negsuc}
use evm_rpc.Api.Error.{GoError, new_rpc_error, error_text, Result, ok, err, panic, err_code_parse}
use evm_rpc.Middleware.RateLimit.{RateLib, RateLimiter, Verdict, allowed, refused, allow_connection}
use evm_rpc.Middleware.Logging.{Call}
use evm_rpc.Metrics.{Metrics}
use evm_rpc.Server.Json.{Json, null}
use evm_rpc.Server.Request.{ParsedRequest, single, batch, parse_request}
use evm_rpc.Server.Methods.{Program, MethodHandler}
use evm_rpc.Server.Handler.{
  Tick, Response, State, Handled, responded, crashed, Batch, responses, batch_crashed,
  error_response, handle_request, handle_batch,
}

-- What the handlers read of an `http.Request`; a missing header is the empty text. `body` is none
-- where reading fails, else the document, if the bytes are one.
pub record HttpRequest : Type 0 where
  pub forwarded_for : Text
  pub real_ip : Text
  pub remote_addr : Text
  pub body : Option (Option Json)

unfoldable pub extract_ip : HttpRequest → Text
extract_ip r =
    if text_eq r.forwarded_for []
    then if text_eq r.real_ip [] then r.remote_addr else r.real_ip
    else r.forwarded_for

-- The members of the health report.
pub record HealthReport : Type 0 where
  pub status : Text
  pub syncing : Bool
  pub error : Option Text
  pub latest_block : Option ℕ
  pub time_since_block : Option ℕ

abbrev pub seconds : ℕ
seconds = 1000000000

abbrev fresh_report : HealthReport
fresh_report = record {
  status = text "ok";
  syncing = false;
  error = none;
  latest_block = none;
  time_since_block = none;
}

-- A block of the time `t` in seconds, at `now` in nanoseconds: one from more than an hour ahead is
-- passed over, one older than five minutes means syncing.
unfoldable pub report_time : ℕ → ℕ → HealthReport → HealthReport
report_time now t h =
    let since = now - t * seconds in
    if ltb 0 t
    then if ltb t ((now + 3600 * seconds) / seconds)
      then if ltb (300 * seconds) since
        then record h { syncing = true; time_since_block = some since }
        else h
      else h
    else h

abbrev report_block : ℕ → Result ℕ → HealthReport → HealthReport
report_block now (ok t) h = report_time now t h
report_block now _ h = h

-- `handleHealth`: the latest number and the time of a block come from the block reader.
unfoldable pub handle_health : ℕ → Result ℕ → (ℕ → Result ℕ) → Option HealthReport
handle_health now (ok n) get_block =
    some (report_block now (get_block n) (record fresh_report { latest_block = some n }))
handle_health now (err e) get_block =
    some (record fresh_report { status = text "degraded"; error = some (error_text e) })
handle_health now panic get_block = none

module _ (lib : RateLib) (p : Program) where
  -- An answer with its status, or what a library's handler calls on its writer; a panic of a handler
  -- aborts the connection.
  pub data HttpReply : Type 0 where
    json : ℕ → Response lib p → HttpReply
    json_batch : ℕ → List (Response lib p) → HttpReply
    plain : ℕ → Text → HttpReply
    report : ℕ → HealthReport → HttpReply
    library : List Call → HttpReply
    aborted : HttpReply

  unfoldable pub send_json_rpc_error : Json → ℤ → Text → HttpReply
  send_json_rpc_error id code message =
      json 200 (error_response lib p id (new_rpc_error code message))

  abbrev pub reply_single : State lib p × Handled lib p → State lib p × HttpReply
  reply_single (s, responded r) = (s, json 200 r)
  reply_single (s, crashed) = (s, aborted)

  abbrev pub reply_batch : State lib p × Batch lib p → State lib p × HttpReply
  reply_batch (s, responses rs) = (s, json_batch 200 rs)
  reply_batch (s, batch_crashed) = (s, aborted)

  module _ (methods : Map Text (MethodHandler p)) where
    abbrev pub reply_parsed :
        (ℕ → Tick) → Text → Result ParsedRequest → State lib p → State lib p × HttpReply
    reply_parsed clock ip (ok (single req)) s =
        reply_single (handle_request lib p methods (clock 0) ip req s)
    reply_parsed clock ip (ok (batch reqs)) s =
        reply_batch (handle_batch lib p methods clock ip reqs s)
    reply_parsed clock ip (err e) s = (s, send_json_rpc_error null err_code_parse (error_text e))
    reply_parsed clock ip panic s = (s, aborted)

    abbrev pub reply_body :
        (ℕ → Tick) → Text → Option (Option Json) → State lib p → State lib p × HttpReply
    reply_body clock ip none s =
        (s, send_json_rpc_error null err_code_parse (text "failed to read request body"))
    reply_body clock ip (some doc) s = reply_parsed clock ip (parse_request doc) s

    unfoldable pub handle_rpc : (ℕ → Tick) → HttpRequest → State lib p → State lib p × HttpReply
    unfolding extract_ip
    handle_rpc clock r s = reply_body clock (extract_ip r) r.body s

  abbrev pub after_limit :
      (RateLimiter lib × Metrics) × Verdict
      → (State lib p → State lib p × HttpReply)
      → State lib p
      → State lib p × HttpReply
  after_limit ((rl, m), allowed) next s = next (record s { limiter = some rl; metrics = m })
  after_limit ((rl, m), refused t) next s =
      (record s { limiter = some rl; metrics = m }, plain 429 (text "Rate limit exceeded"))

  -- The rate limiter's middleware around `next`; `NewHTTPServer` leaves it out without a limiter.
  abbrev pub limit_connection :
      ℕ
      → Text
      → Option (RateLimiter lib)
      → (State lib p → State lib p × HttpReply)
      → State lib p
      → State lib p × HttpReply
  limit_connection now ip none next s = next s
  limit_connection now ip (some rl) next s =
      after_limit (allow_connection lib now ip (rl, s.metrics)) next s

  unfoldable pub rate_limited :
      ℕ
      → HttpRequest
      → (State lib p → State lib p × HttpReply)
      → State lib p
      → State lib p × HttpReply
  unfolding extract_ip
  rate_limited now r next s = limit_connection now (extract_ip r) s.limiter next s
