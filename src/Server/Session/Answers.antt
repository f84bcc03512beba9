-- ===== src/Server/Session/Answers.antt =====
-- What a client is sent for a message: `handleConnection`, `handleSubscribe` and `handleUnsubscribe`
-- of pkg/server/websocket.go.
use evm_rpc.Prelude.{
  ℕ, ◌≡◌, inl, inr, refl, Bool, true, false, Option, none, some, Text, text, text_eq, List, [], ◌∷◌,
  Map, text_key, lookup, if◌then◌else◌, Option-cases,
}
use evm_rpc.Prelude.Int.{ℤ}
use evm_rpc.Api.Error.{new_rpc_error, Result, ok, err, panic, err_code_parse}
use evm_rpc.Middleware.RateLimit.{RateLib}
use evm_rpc.Server.Json.{Json, null}
use evm_rpc.Server.Request.{JsonRpcRequest, ParsedRequest, single, batch, parse_request}
use evm_rpc.Server.Methods.{Program, MethodHandler}
use evm_rpc.Server.Handler.{
  Tick, State, Response, Handled, responded, crashed, Batch, responses, batch_crashed,
  error_response, handle_request, handle_batch,
}
use evm_rpc.Server.Handler.Responses.{
  Answers, AllAnswer, handle_request-Answers, ids, request_ids, handle_batch-ids,
}
use evm_rpc.Server.Connection.{send}
use evm_rpc.Server.Subscription.{FilterCriteria, unsubscribe, generate_subscription_id}
use evm_rpc.Server.Notify.{update}
use evm_rpc.Server.Session.{
  Message, answer, answers, granted, told, Server, send_to, send_error, subscribe_as,
  subscribe_with, subscribe_typed, subscribe_filtered, handle_subscribe, unsubscribe_with,
  unsubscribed, handle_unsubscribe, handle_parsed, send_handled, send_batch, handle_message,
  string_param, raw_params, string_params,
}

module _ (lib : RateLib) (p : Program) where
  -- The message that a document calls for: a response to a request or the result of a subscription
  -- method, with the request's id; one response for each request of a batch, in order; else a parse
  -- error without an id.
  abbrev pub CallsFor : Result ParsedRequest → Message lib p → Type 0
  CallsFor (ok (single req)) (answer r) = Answers lib p req.id r
  CallsFor (ok (single req)) (granted id result) = id ≡ req.id
  CallsFor (ok (batch reqs)) (answers rs) = ids lib p rs ≡ request_ids lib p reqs
  CallsFor (err e) (answer r) =
      (r.id ≡ null)
      × ((msg : Text) × (r ≡ error_response lib p null (new_rpc_error err_code_parse msg)))
  CallsFor _ _ = ⊥

  -- The connections are those of before, where one message was sent to `c`.
  pub record IsAnswered (r : Result ParsedRequest) (c : ℕ) (s t : Server lib p) : Type 0 where
    pub message : Message lib p
    pub fits : CallsFor r message
    pub sent : t.hub.conns ≡ update told s.hub.conns c (send message (s.hub.conns c))
    pub same_clients : t.connections ≡ s.connections

  -- The process may end instead.
  abbrev pub AllAnswered : Result ParsedRequest → ℕ → Server lib p → Option (Server lib p) → Type 0
  AllAnswered r c s none = Unit
  AllAnswered r c s (some t) = IsAnswered r c s t

  module _ (c : ℕ) (req : JsonRpcRequest) (s : Server lib p) where
    abbrev Done : Server lib p → Type 0
    Done = IsAnswered (ok (single req)) c s

    sent_error : (code : ℤ) (msg : Text) → Done (send_error lib p c req.id code msg s)
    unfolding send_error send_to
    sent_error code msg = record {
      message = _;
      fits = (refl, refl, inl refl);
      sent = refl;
      same_clients = refl;
    }

    unsubscribed-Done :
        (id : Text) → Done (unsubscribed lib p c req (unsubscribe id s.hub.manager) s)
    unfolding unsubscribe send_error send_to
    unsubscribed-Done id = elim (Option-cases (lookup id s.hub.manager.subscriptions)) [
      | inl e ↦
          rw e (record {
            message = _;
            fits = (refl, refl, inl refl);
            sent = refl;
            same_clients = refl;
          })
      | inr (sub, e) ↦ rw e (record { message = _; fits = refl; sent = refl; same_clients = refl })
    ]

    handle_unsubscribe-Done : Done (handle_unsubscribe lib p c req s)
    unfolding handle_unsubscribe
    handle_unsubscribe-Done = go (string_params req.params)
      where
        go : (o : Option (List Text)) → Done (unsubscribe_with lib p c req o s)
        go none = sent_error _ _
        go (some []) = sent_error _ _
        go (some (id ∷ _)) = unsubscribed-Done id

    module _ (unmarshal_filter : Json → Option FilterCriteria) where
      handle_subscribe-Done :
          (bytes : List ℕ) → Done (handle_subscribe lib p unmarshal_filter bytes c req s)
      unfolding handle_subscribe subscribe_as send_to
      handle_subscribe-Done bytes = go (raw_params req.params)
        where
          given :
              (t : Text) (filter : Option FilterCriteria)
              → Done (subscribe_as lib p (generate_subscription_id bytes) c req t filter s)
          given t filter = record { message = _; fits = refl; sent = refl; same_clients = refl }

          filtered :
              (t : Text) (o : Option FilterCriteria)
              → Done (
                  subscribe_filtered lib p unmarshal_filter
                    (generate_subscription_id bytes)
                    c
                    req
                    t
                    o
                    s)
          filtered t none = sent_error _ _
          filtered t (some filter) = given t (some filter)

          choose : (b : Bool) (x y : Server lib p) → Done x → Done y → Done (if b then x else y)
          choose true x y p q = p
          choose false x y p q = q

          typed :
              (o : Option Text) (js : List Json)
              → Done (
                  subscribe_typed lib p unmarshal_filter
                    (generate_subscription_id bytes)
                    c
                    req
                    o
                    js
                    s)
          typed none js = sent_error _ _
          typed (some t) [] = given t none
          typed (some t) (j ∷ js) = choose _ _ _ (filtered t (unmarshal_filter j)) (given t none)

          go :
              (o : Option (List Json))
              → Done
                  (subscribe_with lib p unmarshal_filter (generate_subscription_id bytes) c req o s)
          go none = sent_error _ _
          go (some []) = sent_error _ _
          go (some (j ∷ js)) = typed (string_param j) js

  send_handled-AllAnswered :
      (c : ℕ) (req : JsonRpcRequest) (h : State lib p × Handled lib p) (s : Server lib p)
      → AllAnswer lib p req.id h.1
      → AllAnswered (ok (single req)) c s (send_handled lib p c h s)
  unfolding send_to
  send_handled-AllAnswered c req (h, responded r) s a = record {
    message = _;
    fits = a;
    sent = refl;
    same_clients = refl;
  }
  send_handled-AllAnswered c req (h, crashed) s a = tt

  send_batch-AllAnswered :
      (c : ℕ) (reqs : List (Option JsonRpcRequest)) (b : State lib p × Batch lib p)
      (s : Server lib p)
      → ((rs : List (Response lib p)) → b.1 ≡ responses rs → ids lib p rs ≡ request_ids lib p reqs)
      → AllAnswered (ok (batch reqs)) c s (send_batch lib p c b s)
  unfolding send_to
  send_batch-AllAnswered c reqs (h, responses rs) s a = record {
    message = _;
    fits = a rs refl;
    sent = refl;
    same_clients = refl;
  }
  send_batch-AllAnswered c reqs (h, batch_crashed) s a = tt

  module _ (unmarshal_filter : Json → Option FilterCriteria)
      (methods : Map Text (MethodHandler p)) where
    -- Whatever a client sends, and unless the process ends, one message is passed to `Send` of its
    -- connection, the one that the document calls for; no other connection is sent anything, and none
    -- comes or goes.
    pub handle_message-AllAnswered :
        (clock : ℕ → Tick) (bytes : List ℕ) (c : ℕ) (doc : Option Json) (s : Server lib p)
        → AllAnswered
            (parse_request doc)
            c
            s
            (handle_message lib p unmarshal_filter methods clock bytes c doc s)
    unfolding handle_message send_error send_to
    handle_message-AllAnswered clock bytes c doc s = go (parse_request doc)
      where
        either :
            (r : Result ParsedRequest) (b : Bool) (x y : Option (Server lib p))
            → AllAnswered r c s x
            → AllAnswered r c s y
            → AllAnswered r c s (if b then x else y)
        either r true x y p q = p
        either r false x y p q = q

        go :
            (r : Result ParsedRequest)
            → AllAnswered r c s (handle_parsed lib p unmarshal_filter methods clock bytes c r s)
        go (ok (single req)) =
            let ran =
              handle_request lib p methods (clock 0) (s.hub.conns c).client_ip req s.handler in
            let other = send_handled lib p c ran s in
            let unsub = handle_unsubscribe lib p c req s in
            either (ok (single req)) (text_eq req.method (text "eth_subscribe"))
              (some (handle_subscribe lib p unmarshal_filter bytes c req s))
              (if text_eq req.method (text "eth_unsubscribe") then some unsub else other)
              (handle_subscribe-Done c req s unmarshal_filter bytes)
              (either (ok (single req)) (text_eq req.method (text "eth_unsubscribe")) (some unsub)
                other (handle_unsubscribe-Done c req s)
                (send_handled-AllAnswered c req ran s (
                  handle_request-Answers lib p methods (clock 0) (s.hub.conns c).client_ip req
                    s.handler)))
        go (ok (batch reqs)) =
            send_batch-AllAnswered c reqs
              (handle_batch lib p methods clock (s.hub.conns c).client_ip reqs s.handler) s
              (handle_batch-ids lib p methods clock (s.hub.conns c).client_ip reqs s.handler)
        go (err e) = record {
          message = _;
          fits = (refl, (_, refl));
          sent = refl;
          same_clients = refl;
        }
        go panic = tt
