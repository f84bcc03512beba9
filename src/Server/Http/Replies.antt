-- ===== src/Server/Http/Replies.antt =====
-- What the JSON-RPC endpoint answers.
use evm_rpc.Prelude.{ℕ, ◌≡◌, refl, Option, none, some, Text, List, Map}
use evm_rpc.Api.Error.{Result, ok, err, panic, err_code_parse, new_rpc_error}
use evm_rpc.Middleware.RateLimit.{RateLib}
use evm_rpc.Server.Json.{Json, null}
use evm_rpc.Server.Request.{JsonRpcRequest, ParsedRequest, single, batch, parse_request}
use evm_rpc.Server.Methods.{Program, MethodHandler}
use evm_rpc.Server.Handler.{
  Tick, Response, State, Handled, responded, crashed, Batch, responses, batch_crashed,
  error_response, handle_request, handle_batch,
}
use evm_rpc.Server.Handler.Responses.{
  Answers, AllAnswer, handle_request-Answers, ids, request_ids, handle_batch-ids,
}
use evm_rpc.Server.Request.Parsing.{IsUsable, parse_request-IsUsable}
use mathlib.Core.Option
use evm_rpc.Server.Http.{
  HttpRequest, extract_ip, HttpReply, json, json_batch, aborted, send_json_rpc_error, handle_rpc,
  reply_single, reply_batch, reply_parsed, reply_body,
}

module _ (lib : RateLib) (p : Program) where
  -- The status 200, and an error without an id, of the code for parse errors.
  abbrev pub IsParseError : ℕ → Response lib p → Type 0
  IsParseError status r =
      (status ≡ 200)
      × (r.id ≡ null)
      × ((msg : Text) × (r ≡ error_response lib p null (new_rpc_error err_code_parse msg)))

  -- The reply that a body calls for.
  abbrev pub Replies : Option (Result ParsedRequest) → HttpReply lib p → Type 0
  Replies (some (ok (single req))) (json status r) = (status ≡ 200) × Answers lib p req.id r
  Replies (some (ok (batch reqs))) (json_batch status rs) =
      (status ≡ 200) × (ids lib p rs ≡ request_ids lib p reqs)
  Replies (some (ok _)) aborted = Unit
  Replies (some (err e)) (json status r) = IsParseError status r
  Replies none (json status r) = IsParseError status r
  Replies _ _ = ⊥

  reply_single-Replies :
      (req : JsonRpcRequest) (h : State lib p × Handled lib p)
      → AllAnswer lib p req.id h.1
      → Replies (some (ok (single req))) (reply_single lib p h).1
  reply_single-Replies req (s, responded r) a = (refl, a)
  reply_single-Replies req (s, crashed) a = tt

  reply_batch-Replies :
      (reqs : List (Option JsonRpcRequest)) (b : State lib p × Batch lib p)
      → ((rs : List (Response lib p)) → b.1 ≡ responses rs → ids lib p rs ≡ request_ids lib p reqs)
      → Replies (some (ok (batch reqs))) (reply_batch lib p b).1
  reply_batch-Replies reqs (s, responses rs) a = (refl, a rs refl)
  reply_batch-Replies reqs (s, batch_crashed) a = tt

  module _ (methods : Map Text (MethodHandler p)) where
    reply_parsed-Replies :
        (clock : ℕ → Tick) (ip : Text) (r : Result ParsedRequest) (s : State lib p)
        → IsUsable r
        → Replies (some r) (reply_parsed lib p methods clock ip r s).1
    unfolding send_json_rpc_error
    reply_parsed-Replies clock ip (ok (single req)) s u =
        reply_single-Replies req (handle_request lib p methods (clock 0) ip req s)
          (handle_request-Answers lib p methods (clock 0) ip req s)
    reply_parsed-Replies clock ip (ok (batch reqs)) s u =
        reply_batch-Replies reqs (handle_batch lib p methods clock ip reqs s)
          (handle_batch-ids lib p methods clock ip reqs s)
    reply_parsed-Replies clock ip (err e) s u = (refl, refl, (_, refl))
    reply_parsed-Replies clock ip panic s u = u

    -- A single request is answered with the status 200 and a response to it, a batch with the
    -- status 200 and one response for each request, in order; any other body with the status 200 and
    -- a parse error without an id. The connection of a request or a batch may be aborted instead.
    pub handle_rpc-Replies :
        (clock : ℕ → Tick) (r : HttpRequest) (s : State lib p)
        → Replies (Option.map parse_request r.body) (handle_rpc lib p methods clock r s).1
    unfolding handle_rpc send_json_rpc_error
    handle_rpc-Replies clock r s = go r.body
      where
        go :
            (o : Option (Option Json))
            → Replies
                (Option.map parse_request o)
                (reply_body lib p methods clock (extract_ip r) o s).1
        go none = (refl, refl, (_, refl))
        go (some doc) =
            reply_parsed-Replies clock (extract_ip r) (parse_request doc) s
              (parse_request-IsUsable doc)
