-- ===== src/Server/Session.antt =====
-- The WebSocket server of pkg/server/websocket.go: what it does when a client connects, sends a
-- message or goes. Prometheus' metrics are in two places, the handler's state and the subscription
-- manager; they write to different families of them.
pub mod Sound
pub mod Steps
pub mod Reach
pub mod Origins
pub mod Leaving
pub mod Answers
pub mod OverHttp
use evm_rpc.Prelude.{
  ℕ, suc, ◌+◌, Bool, true, false, ◌&&◌, ◌||◌, not, Option, none, some, Text, text, text_eq, List,
  [], ◌∷◌, ◌++◌, Map, nat_eq, lookup, insert, delete, length, ltb, leb, ◌==◌, if◌then◌else◌,
}
use evm_rpc.Prelude.Int.{ℤ, pos, negsuc, ltbℤ}
use evm_rpc.Api.Error.{
  GoError, RpcError, new_rpc_error, error_text, Result, ok, err, panic, err_code_parse,
  err_code_invalid_params, err_code_internal,
}
use evm_rpc.Metrics.{record_websocket_connection}
use evm_rpc.Middleware.RateLimit.{RateLib}
use evm_rpc.Server.Json.{Json, null, boolean, string, array, raw_items}
use evm_rpc.Server.Request.{JsonRpcRequest, ParsedRequest, single, batch, parse_request}
use evm_rpc.Server.Methods.{Program, MethodHandler}
use evm_rpc.Server.Handler.{
  Tick, Response, State, Handled, responded, crashed, Batch, responses, batch_crashed,
  error_response, handle_request, handle_batch,
}
use evm_rpc.Server.Connection.{Connection, new_connection, send, close}
use evm_rpc.Server.Subscription.{
  FilterCriteria, Manager, logs, subscribe, unsubscribe, unsubscribe_all, generate_subscription_id,
}
use evm_rpc.Server.Notify.{Hub, update}

-- `CheckOrigin`: without allowed origins nobody may connect.
unfoldable pub check_origin : List Text → Text → Bool
check_origin [] origin = false
check_origin (allowed ∷ rest) origin =
    let others = check_origin rest origin in
    if text_eq allowed (text "*") || text_eq allowed origin then true else others

-- `json.Unmarshal(req.Params, &params)` into a `[]json.RawMessage`.
abbrev pub raw_params : Option Json → Option (List Json)
raw_params (some (array js)) = some (raw_items js)
raw_params (some null) = some []
raw_params _ = none

-- Into a string: null leaves it empty.
abbrev pub string_param : Json → Option Text
string_param (string s) = some s
string_param null = some []
string_param _ = none

abbrev cons_text : Option Text → Option (List Text) → Option (List Text)
cons_text (some s) (some ss) = some (s ∷ ss)
cons_text _ _ = none

-- Into a `[]string`.
unfoldable pub string_items : List Json → Option (List Text)
string_items [] = some []
string_items (j ∷ js) = cons_text (string_param j) (string_items js)

abbrev string_params_of : Option (List Json) → Option (List Text)
string_params_of none = none
string_params_of (some js) = string_items js

abbrev pub string_params : Option Json → Option (List Text)
string_params raw = string_params_of (raw_params raw)

-- `s.maxConnections > 0 && connCount >= s.maxConnections`.
abbrev pub over_limit : ℤ → ℕ → Bool
over_limit max count = ltbℤ (pos 0) max && not (ltbℤ (pos count) max)

module _ (lib : RateLib) (p : Program) where
  -- What is sent: a response, a batch of them, the response to a subscription with its result, or a
  -- notification.
  pub data Message : Type 0 where
    answer : Response lib p → Message
    answers : List (Response lib p) → Message
    granted : Json → Json → Message
    told : Json → Message

  -- The server, its handler, and the hub of the subscription manager and the connections.
  pub record Server : Type 0 where
    pub handler : State lib p
    pub hub : Hub Message
    pub connections : Map ℕ Bool
    pub max_connections : ℤ

  unfoldable pub send_to : ℕ → Message → Server → Server
  send_to c m s = record s {
    hub = record s.hub { conns = update told s.hub.conns c (send m (s.hub.conns c)) };
  }

  -- `SendError`.
  unfoldable pub send_error : ℕ → Json → ℤ → Text → Server → Server
  send_error c id code msg s =
      send_to c (answer (error_response lib p id (new_rpc_error code msg))) s

  abbrev set_manager : Manager → Server → Server
  set_manager m s = record s { hub = record s.hub { manager = m } }

  -- The two halves of `handleWebSocket`, each under its own lock: the count, behind which the answer is
  -- 503; and, where the upgrade has succeeded, the registration of the new connection `c`.
  unfoldable pub is_full : Server → Bool
  is_full s = over_limit s.max_connections (length s.connections)

  unfoldable pub register : Text → ℕ → Server → Server
  unfolding new_connection
  register ip c s = record s {
    hub = record s.hub { conns = update told s.hub.conns c (new_connection ip) };
    connections = insert c true s.connections;
    handler = record s.handler { metrics = record_websocket_connection (pos 1) s.handler.metrics };
  }

  -- The deferred calls of `handleConnection`.
  unfoldable pub disconnect : ℕ → Server → Server
  disconnect c s = record s {
    connections = delete c s.connections;
    hub = record s.hub {
      manager = unsubscribe_all c s.hub.manager;
      conns = update told s.hub.conns c (close (s.hub.conns c));
    };
    handler = record s.handler {
      metrics = record_websocket_connection (negsuc 0) s.handler.metrics;
    };
  }

  -- The loop of `Stop` over the connections.
  unfoldable pub close_each : Map ℕ Bool → Hub Message → Hub Message
  close_each [] hub = hub
  close_each ((c, _) ∷ rest) hub =
      close_each rest (record hub { conns = update told hub.conns c (close (hub.conns c)) })

  -- `Stop`, up to the shutdown of the HTTP server, which is library code.
  unfoldable pub stop : Server → Server
  unfolding close_each
  stop s = record s { hub = close_each s.connections s.hub }

  -- What follows `Subscribe`, with the id drawn.
  unfoldable pub subscribe_as :
      Text → ℕ → JsonRpcRequest → Text → Option FilterCriteria → Server → Server
  subscribe_as id c req sub_type filter s =
      send_to c (granted req.id (string id))
        (set_manager (subscribe id c sub_type filter s.hub.manager).0 s)

  abbrev unsubscribed : ℕ → JsonRpcRequest → Manager × Result (Unit {0}) → Server → Server
  unsubscribed c req (m, ok _) s = send_to c (granted req.id (boolean true)) (set_manager m s)
  unsubscribed c req (m, err e) s =
      send_error c req.id err_code_internal (error_text e) (set_manager m s)
  unsubscribed c req (m, panic) s = set_manager m s

  abbrev unsubscribe_with : ℕ → JsonRpcRequest → Option (List Text) → Server → Server
  unsubscribe_with c req none s =
      send_error c req.id err_code_invalid_params (text "invalid params") s
  unsubscribe_with c req (some []) s =
      send_error c req.id err_code_invalid_params (text "missing subscription ID") s
  unsubscribe_with c req (some (id ∷ _)) s = unsubscribed c req (unsubscribe id s.hub.manager) s

  -- `handleUnsubscribe`.
  unfoldable pub handle_unsubscribe : ℕ → JsonRpcRequest → Server → Server
  handle_unsubscribe c req s = unsubscribe_with c req (string_params req.params) s

  -- A panic outside an HTTP handler ends the process.
  abbrev send_handled : ℕ → State lib p × Handled lib p → Server → Option Server
  send_handled c (h, responded r) s = some (send_to c (answer r) (record s { handler = h }))
  send_handled c (h, crashed) s = none

  abbrev send_batch : ℕ → State lib p × Batch lib p → Server → Option Server
  send_batch c (h, responses rs) s = some (send_to c (answers rs) (record s { handler = h }))
  send_batch c (h, batch_crashed) s = none

  module _ (unmarshal_filter : Json → Option FilterCriteria) where
    abbrev subscribe_filtered :
        Text → ℕ → JsonRpcRequest → Text → Option FilterCriteria → Server → Server
    subscribe_filtered id c req sub_type none s =
        send_error c req.id err_code_invalid_params (text "invalid filter criteria") s
    subscribe_filtered id c req sub_type (some filter) s =
        subscribe_as id c req sub_type (some filter) s

    -- The filter: only `logs` has one, if there is a second parameter.
    abbrev subscribe_typed : Text → ℕ → JsonRpcRequest → Option Text → List Json → Server → Server
    subscribe_typed id c req none rest s =
        send_error c req.id err_code_invalid_params (text "invalid subscription type") s
    subscribe_typed id c req (some sub_type) [] s = subscribe_as id c req sub_type none s
    subscribe_typed id c req (some sub_type) (j ∷ _) s =
        if text_eq sub_type logs
        then subscribe_filtered id c req sub_type (unmarshal_filter j) s
        else subscribe_as id c req sub_type none s

    abbrev subscribe_with : Text → ℕ → JsonRpcRequest → Option (List Json) → Server → Server
    subscribe_with id c req none s =
        send_error c req.id err_code_invalid_params (text "invalid params") s
    subscribe_with id c req (some []) s =
        send_error c req.id err_code_invalid_params (text "missing subscription type") s
    subscribe_with id c req (some (j ∷ js)) s = subscribe_typed id c req (string_param j) js s

    -- `handleSubscribe`, with the random bytes of the id.
    unfoldable pub handle_subscribe : List ℕ → ℕ → JsonRpcRequest → Server → Server
    handle_subscribe bytes c req s =
        subscribe_with (generate_subscription_id bytes) c req (raw_params req.params) s

    module _ (methods : Map Text (MethodHandler p)) where
      abbrev handle_parsed : (ℕ → Tick) → List ℕ → ℕ → Result ParsedRequest → Server → Option Server
      handle_parsed clock bytes c (ok (single req)) s =
          if text_eq req.method (text "eth_subscribe")
          then some (handle_subscribe bytes c req s)
          else if text_eq req.method (text "eth_unsubscribe")
          then some (handle_unsubscribe c req s)
          else send_handled c
              (handle_request lib p methods (clock 0) (s.hub.conns c).client_ip req s.handler) s
      handle_parsed clock bytes c (ok (batch reqs)) s =
          send_batch c (handle_batch lib p methods clock (s.hub.conns c).client_ip reqs s.handler) s
      handle_parsed clock bytes c (err e) s =
          some (send_error c null err_code_parse (error_text e) s)
      handle_parsed clock bytes c panic s = none

      -- One round of the loop of `handleConnection` on the message `doc`; none is the process's end.
      unfoldable pub handle_message : (ℕ → Tick) → List ℕ → ℕ → Option Json → Server → Option Server
      handle_message clock bytes c doc s = handle_parsed clock bytes c (parse_request doc) s
