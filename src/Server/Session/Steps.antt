-- ===== src/Server/Session/Steps.antt =====
-- What the steps of the WebSocket server keep: a message of a client, whatever it holds, a client that
-- comes, and one that goes.
use evm_rpc.Prelude.{
  ℕ, ◌≡◌, inl, inr, Bool, true, false, Option, none, some, Text, text, text_eq, List, [], ◌∷◌, Map,
  nat_eq, text_key, lookup, lookup-insert, lookup-delete, arith, if◌then◌else◌, Option-cases,
}
use evm_rpc.Prelude.Int.{ℤ}
use evm_rpc.Api.Error.{Result, ok, err, panic}
use evm_rpc.Middleware.RateLimit.{RateLib}
use evm_rpc.Server.Json.{Json}
use evm_rpc.Server.Request.{JsonRpcRequest, ParsedRequest, single, batch, parse_request}
use evm_rpc.Server.Methods.{Program, MethodHandler}
use evm_rpc.Server.Handler.{
  Tick, State, Handled, responded, crashed, Batch, responses, batch_crashed, handle_request,
  handle_batch,
}
use evm_rpc.Server.Subscription.{
  FilterCriteria, Subscription, Manager, subscribe, unsubscribe, generate_subscription_id,
}
use evm_rpc.Server.Subscription.Invariant.{subscribe-IsCoherent, unsubscribe-IsCoherent}
use evm_rpc.Server.Session.{
  Message, told, Server, send_to, send_error, register, disconnect, subscribe_as, subscribe_with,
  subscribe_typed, subscribe_filtered, handle_subscribe, unsubscribe_with, unsubscribed,
  handle_unsubscribe, handle_parsed, send_handled, send_batch, handle_message, string_param,
  raw_params, string_params,
}
use evm_rpc.Server.Session.Sound.{
  IsSound, sending-IsSound, manager-IsSound, register-IsSound, disconnect-IsSound,
}

unsubscribe-kept :
    (id j : Text) (sub : Subscription) (sm : Manager)
    → lookup j (unsubscribe id sm).0.subscriptions ≡ some sub
    → lookup j sm.subscriptions ≡ some sub
unfolding unsubscribe
unsubscribe-kept id j sub sm h = elim (Option-cases (lookup id sm.subscriptions)) [
  | inl e ↦ rw e at h
  | inr (gone, e) ↦ ground (arith, rw e at h, lookup-delete id j sm.subscriptions)
]

module _ (lib : RateLib) (p : Program) (up : Bool) where
  abbrev pub SoundServer : Server lib p → Type 0
  SoundServer s = IsSound up s.connections s.hub

  -- A server is sound, or the process has ended.
  abbrev pub AllSound : Option (Server lib p) → Type 0
  AllSound none = Unit
  AllSound (some s) = SoundServer s

module _ (lib : RateLib) (p : Program) (up : Bool) where
  send_to-SoundServer :
      (c : ℕ) (m : Message lib p) (s : Server lib p)
      → SoundServer lib p up s
      → SoundServer lib p up (send_to lib p c m s)
  unfolding send_to
  send_to-SoundServer c m s h = sending-IsSound told s.connections s.hub c m h

  send_error-SoundServer :
      (c : ℕ) (id : Json) (code : ℤ) (msg : Text) (s : Server lib p)
      → SoundServer lib p up s
      → SoundServer lib p up (send_error lib p c id code msg s)
  unfolding send_error
  send_error-SoundServer c id code msg s h = send_to-SoundServer c _ s h

  subscribe_as-SoundServer :
      (id : Text) (c : ℕ) (req : JsonRpcRequest) (sub_type : Text) (filter : Option FilterCriteria)
      (s : Server lib p)
      → lookup c s.connections ≡ some true
      → lookup id s.hub.manager.subscriptions ≡ none
      → SoundServer lib p up s
      → SoundServer lib p up (subscribe_as lib p id c req sub_type filter s)
  unfolding subscribe_as subscribe
  subscribe_as-SoundServer id c req sub_type filter s at fresh h = send_to-SoundServer c _ _ (
      manager-IsSound told s.connections s.hub _ h
        (subscribe-IsCoherent id c sub_type filter s.hub.manager fresh h.coherent)
        (λ j sub q.
          ground (arith, lookup-insert id j new s.hub.manager.subscriptions, h.registered j sub)))
    where
      new : Subscription
      new = record { id = id; sub_type = sub_type; filter = filter; conn = c }

  unsubscribed-SoundServer :
      (id : Text) (c : ℕ) (req : JsonRpcRequest) (r : Result (Unit {0})) (s : Server lib p)
      → SoundServer lib p up s
      → SoundServer lib p up (unsubscribed lib p c req ((unsubscribe id s.hub.manager).0, r) s)
  unsubscribed-SoundServer id c req r s h = go r
    where
      without :
          IsSound up s.connections (record s.hub { manager = (unsubscribe id s.hub.manager).0 })
      without =
          manager-IsSound told s.connections s.hub _ h
            (unsubscribe-IsCoherent id s.hub.manager h.coherent)
            (λ j sub q. h.registered j sub (unsubscribe-kept id j sub s.hub.manager q))

      go :
          (r : Result (Unit {0}))
          → SoundServer lib p up (unsubscribed lib p c req ((unsubscribe id s.hub.manager).0, r) s)
      go (ok t) = send_to-SoundServer c _ _ without
      go (err e) = send_error-SoundServer c _ _ _ _ without
      go panic = without

  handle_unsubscribe-SoundServer :
      (c : ℕ) (req : JsonRpcRequest) (s : Server lib p)
      → SoundServer lib p up s
      → SoundServer lib p up (handle_unsubscribe lib p c req s)
  unfolding handle_unsubscribe
  handle_unsubscribe-SoundServer c req s h = go (string_params req.params)
    where
      go : (o : Option (List Text)) → SoundServer lib p up (unsubscribe_with lib p c req o s)
      go none = send_error-SoundServer c _ _ _ s h
      go (some []) = send_error-SoundServer c _ _ _ s h
      go (some (id ∷ _)) = unsubscribed-SoundServer id c req (unsubscribe id s.hub.manager).1 s h

  module _ (unmarshal_filter : Json → Option FilterCriteria) where
    handle_subscribe-SoundServer :
        (bytes : List ℕ) (c : ℕ) (req : JsonRpcRequest) (s : Server lib p)
        → lookup c s.connections ≡ some true
        → lookup (generate_subscription_id bytes) s.hub.manager.subscriptions ≡ none
        → SoundServer lib p up s
        → SoundServer lib p up (handle_subscribe lib p unmarshal_filter bytes c req s)
    unfolding handle_subscribe
    handle_subscribe-SoundServer bytes c req s at fresh h = go (raw_params req.params)
      where
        id : Text
        id = generate_subscription_id bytes

        granted :
            (t : Text) (filter : Option FilterCriteria)
            → SoundServer lib p up
                (subscribe_as lib p (generate_subscription_id bytes) c req t filter s)
        granted t filter =
            subscribe_as-SoundServer (generate_subscription_id bytes) c req t filter s at fresh h

        filtered :
            (t : Text) (o : Option FilterCriteria)
            → SoundServer lib p up (
                subscribe_filtered lib p unmarshal_filter
                  (generate_subscription_id bytes)
                  c
                  req
                  t
                  o
                  s)
        filtered t none = send_error-SoundServer c _ _ _ s h
        filtered t (some filter) = granted t (some filter)

        choose :
            (b : Bool) (x y : Server lib p)
            → SoundServer lib p up x
            → SoundServer lib p up y
            → SoundServer lib p up (if b then x else y)
        choose true x y p q = p
        choose false x y p q = q

        typed :
            (o : Option Text) (js : List Json)
            → SoundServer lib p up (
                subscribe_typed lib p unmarshal_filter
                  (generate_subscription_id bytes)
                  c
                  req
                  o
                  js
                  s)
        typed none js = send_error-SoundServer c _ _ _ s h
        typed (some t) [] = granted t none
        typed (some t) (j ∷ js) = choose _ _ _ (filtered t (unmarshal_filter j)) (granted t none)

        go :
            (o : Option (List Json))
            → SoundServer lib p up
                (subscribe_with lib p unmarshal_filter (generate_subscription_id bytes) c req o s)
        go none = send_error-SoundServer c _ _ _ s h
        go (some []) = send_error-SoundServer c _ _ _ s h
        go (some (j ∷ js)) = typed (string_param j) js

    send_handled-AllSound :
        (c : ℕ) (r : State lib p × Handled lib p) (s : Server lib p)
        → SoundServer lib p up s
        → AllSound lib p up (send_handled lib p c r s)
    send_handled-AllSound c (t, responded r) s h = send_to-SoundServer c _ _ h
    send_handled-AllSound c (t, crashed) s h = tt

    send_batch-AllSound :
        (c : ℕ) (r : State lib p × Batch lib p) (s : Server lib p)
        → SoundServer lib p up s
        → AllSound lib p up (send_batch lib p c r s)
    send_batch-AllSound c (t, responses rs) s h = send_to-SoundServer c _ _ h
    send_batch-AllSound c (t, batch_crashed) s h = tt

    choose_all :
        (b : Bool) (x y : Option (Server lib p))
        → AllSound lib p up x
        → AllSound lib p up y
        → AllSound lib p up (if b then x else y)
    choose_all true x y p q = p
    choose_all false x y p q = q

    module _ (methods : Map Text (MethodHandler p)) where
      -- A message of a registered connection, whatever it holds, leaves the server sound.
      pub handle_message-AllSound :
          (clock : ℕ → Tick) (bytes : List ℕ) (c : ℕ) (doc : Option Json) (s : Server lib p)
          → lookup c s.connections ≡ some true
          → lookup (generate_subscription_id bytes) s.hub.manager.subscriptions ≡ none
          → SoundServer lib p up s
          → AllSound lib p up (handle_message lib p unmarshal_filter methods clock bytes c doc s)
      unfolding handle_message
      handle_message-AllSound clock bytes c doc s at fresh h = go (parse_request doc)
        where
          go :
              (r : Result ParsedRequest)
              → AllSound lib p up (handle_parsed lib p unmarshal_filter methods clock bytes c r s)
          go (ok (single req)) =
              let ran =
                handle_request lib p methods (clock 0) (s.hub.conns c).client_ip req s.handler in
              let other = send_handled lib p c ran s in
              let unsub = handle_unsubscribe lib p c req s in
              choose_all (text_eq req.method (text "eth_subscribe"))
                (some (handle_subscribe lib p unmarshal_filter bytes c req s))
                (if text_eq req.method (text "eth_unsubscribe") then some unsub else other)
                (handle_subscribe-SoundServer bytes c req s at fresh h)
                (choose_all (text_eq req.method (text "eth_unsubscribe")) (some unsub) other
                  (handle_unsubscribe-SoundServer c req s h) (send_handled-AllSound c ran s h))
          go (ok (batch reqs)) =
              send_batch-AllSound c
                (handle_batch lib p methods clock (s.hub.conns c).client_ip reqs s.handler) s h
          go (err e) = send_error-SoundServer c _ _ _ s h
          go panic = tt

  -- A client that goes leaves the server sound.
  pub disconnect-SoundServer :
      (c : ℕ) (s : Server lib p)
      → SoundServer lib p up s
      → SoundServer lib p up (disconnect lib p c s)
  unfolding disconnect
  disconnect-SoundServer c s h = disconnect-IsSound told s.connections s.hub c h

  -- A client that is registered leaves the server sound.
  pub register-SoundServer :
      (ip : Text) (c : ℕ) (s : Server lib p)
      → SoundServer lib p up s
      → SoundServer lib p up (register lib p ip c s)
  unfolding register
  register-SoundServer ip c s h = register-IsSound told s.connections s.hub c ip h
