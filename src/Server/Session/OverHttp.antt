-- ===== src/Server/Session/OverHttp.antt =====
-- A WebSocket message against the body of an HTTP request: `handleConnection` of
-- pkg/server/websocket.go and `handleRPC` of pkg/server/http.go.
use evm_rpc.Prelude.{
  ℕ, ◌≡◌, refl, ap, ◌∙◌, sym, false, Option, none, some, Text, text, text_eq, List, Map, text_key,
}
use evm_rpc.Api.Error.{Result, ok, err, panic}
use evm_rpc.Middleware.RateLimit.{RateLib}
use evm_rpc.Server.Json.{Json}
use evm_rpc.Server.Request.{ParsedRequest, single, batch, parse_request}
use evm_rpc.Server.Methods.{Program, MethodHandler}
use evm_rpc.Server.Handler.{
  Tick, State, Handled, responded, crashed, Batch, responses, batch_crashed, handle_request,
  handle_batch,
}
use evm_rpc.Server.Subscription.{FilterCriteria}
use mathlib.Core.Option
use evm_rpc.Server.Http.{
  HttpRequest, HttpReply, json, json_batch, extract_ip, send_json_rpc_error, handle_rpc,
  reply_single, reply_batch, reply_parsed, reply_body,
}
use evm_rpc.Server.Session.{
  Message, answer, answers, Server, send_to, send_error, handle_parsed, send_handled, send_batch,
  handle_message,
}

module _ (lib : RateLib) (p : Program) where
  -- The message that carries the body of a reply over HTTP.
  abbrev pub as_message : HttpReply lib p → Option (Message lib p)
  as_message (json status r) = some (answer r)
  as_message (json_batch status rs) = some (answers rs)
  as_message _ = none

  abbrev pub send_reply : ℕ → State lib p × HttpReply lib p → Server lib p → Option (Server lib p)
  send_reply c (h, reply) s =
      Option.map (λ m. send_to lib p c m (record s { handler = h })) (as_message reply)

  -- A document that is no request of a subscription method.
  abbrev pub IsOrdinary : Result ParsedRequest → Type 0
  IsOrdinary (ok (single req)) =
      (text_eq req.method (text "eth_subscribe") ≡ false)
      × (text_eq req.method (text "eth_unsubscribe") ≡ false)
  IsOrdinary _ = Unit

  module _ (unmarshal_filter : Json → Option FilterCriteria) (methods : Map Text (MethodHandler p))
      (clock : ℕ → Tick) (bytes : List ℕ) (c : ℕ) (s : Server lib p) where
    handle_parsed-reply_parsed :
        (r : Result ParsedRequest)
        → IsOrdinary r
        → handle_parsed lib p unmarshal_filter methods clock bytes c r s
          ≡ send_reply c (reply_parsed lib p methods clock (s.hub.conns c).client_ip r s.handler) s
    unfolding send_error send_json_rpc_error
    handle_parsed-reply_parsed (ok (single req)) h =
        rw (h.0, h.1)
          (single_way
            (handle_request lib p methods (clock 0) (s.hub.conns c).client_ip req s.handler))
      where
        single_way :
            (z : State lib p × Handled lib p)
            → send_handled lib p c z s ≡ send_reply c (reply_single lib p z) s
        single_way (t, responded r) = refl
        single_way (t, crashed) = refl
    handle_parsed-reply_parsed (ok (batch reqs)) h =
        batch_way (handle_batch lib p methods clock (s.hub.conns c).client_ip reqs s.handler)
      where
        batch_way :
            (z : State lib p × Batch lib p)
            → send_batch lib p c z s ≡ send_reply c (reply_batch lib p z) s
        batch_way (t, responses rs) = refl
        batch_way (t, batch_crashed) = refl
    handle_parsed-reply_parsed (err e) h = refl
    handle_parsed-reply_parsed panic h = refl

    -- Over a WebSocket, a document that is no request of a subscription method has the effect and the
    -- answer that it has as the body of an HTTP request from the same address: the handler is left in
    -- the same state, and what the reply would carry is passed to `Send`. Where the HTTP request is
    -- aborted by a panic, the process ends.
    pub handle_message-handle_rpc :
        (r : HttpRequest) (doc : Option Json)
        → r.body ≡ some doc
        → extract_ip r ≡ (s.hub.conns c).client_ip
        → IsOrdinary (parse_request doc)
        → handle_message lib p unmarshal_filter methods clock bytes c doc s
          ≡ send_reply c (handle_rpc lib p methods clock r s.handler) s
    unfolding handle_message handle_rpc
    handle_message-handle_rpc r doc body ip h =
        handle_parsed-reply_parsed (parse_request doc) h
        ∙ ap
            (λ a. send_reply c (reply_parsed lib p methods clock a (parse_request doc) s.handler) s)
            (sym ip)
        ∙ ap (λ b. send_reply c (reply_body lib p methods clock (extract_ip r) b s.handler) s)
            (sym body)
