-- ===== src/Server/Session/Reach.antt =====
-- The WebSocket server as a step relation: clients that come, send and go, and blocks, logs and
-- transactions that arrive, and `Stop`, in any order. The limit's check and the registration of a client
-- are steps apart; what that means for the limit is in Server/Admission. A `Close` inside a `Send` is in
-- Server/Threads.
use mathlib.Core.Path.{subst}
use evm_rpc.Prelude.{
  ℕ, suc, ◌-◌, ◌<◌, ◌≡◌, Bool, true, false, Option, none, some, Text, List, [], ◌∷◌, Map, nat_eq,
  text_key, lookup, arith,
}
use evm_rpc.Prelude.Int.{ℤ}
use evm_rpc.Metrics.{Metrics}
use evm_rpc.Middleware.RateLimit.{RateLib}
use evm_rpc.Server.Json.{Json}
use evm_rpc.Server.Methods.{Program, MethodHandler}
use evm_rpc.Server.Handler.{Tick, State}
use evm_rpc.Server.Connection.{new_connection}
use evm_rpc.Server.Subscription.{FilterCriteria, new_manager, generate_subscription_id}
use evm_rpc.Server.Subscription.Invariant.{new_manager-IsCoherent}
use evm_rpc.Server.Subscription.Filter.{Log}
use evm_rpc.Server.Notify.{
  Hub, Head, notify_new_heads, notify_log, notify_receipt, notify_receipts, notify_logs,
  notify_new_pending_transaction,
}
use evm_rpc.Server.Session.{
  Message, told, Server, is_full, register, disconnect, stop, handle_message,
}
use evm_rpc.Server.Session.Sound.{IsSound, notify_each-IsSound}
use evm_rpc.Server.Session.Steps.{
  SoundServer, AllSound, handle_message-AllSound, register-SoundServer, disconnect-SoundServer,
}
use evm_rpc.Server.Session.Leaving.{stop-SoundServer}

module _ (lib : RateLib) (p : Program) where
  -- `NewWebSocketServer` with a new subscription manager.
  unfoldable pub new_server : ℤ → Metrics → State lib p → Server lib p
  new_server max m h = record {
    handler = h;
    hub = record { manager = new_manager m; conns = λ c. new_connection [] };
    connections = [];
    max_connections = max;
  }

  pub new_server-SoundServer :
      (max : ℤ) (m : Metrics) (h : State lib p) → SoundServer lib p true (new_server max m h)
  unfolding new_server new_connection lookup
  new_server-SoundServer max m h = record {
    coherent = new_manager-IsCoherent m;
    registered = λ id sub q. cc;
    is_open = λ u c at. cc;
    bounded = λ c. omega arith;
  }

  abbrev pub set_hub : Hub (Message lib p) → Server lib p → Server lib p
  set_hub hub s = record s { hub = hub }

  -- The server, how many requests have passed the limit's check and are not registered yet, and
  -- whether `Stop` has not been called.
  pub record Site : Type 0 where
    pub server : Server lib p
    pub admitted : ℕ
    pub up : Bool

  abbrev pub new_site : Server lib p → Site
  new_site s = record { server = s; admitted = 0; up = true }

  -- Another server on the same site.
  abbrev pub moves : Server lib p → Site → Site
  moves s t = record t { server = s }

  module _ (unmarshal_filter : Json → Option FilterCriteria) (address_hex : Text → Text)
      (methods : Map Text (MethodHandler p)) where
    -- A request passes the limit's check, on the connections that it counts; its upgrade fails, or,
    -- after whatever else, its connection is registered. Only registered connections send, and the id
    -- that is drawn is not in use. `Stop` closes the connections, and leaves them registered.
    pub data Step (t : Site) : Site → Type 0 where
      admits : is_full lib p t.server ≡ false → Step t (record t { admitted = suc t.admitted })
      fails : 0 < t.admitted → Step t (record t { admitted = t.admitted - 1 })
      registers :
          (ip : Text) (c : ℕ)
          → 0 < t.admitted
          → Step t (record t { server = register lib p ip c t.server; admitted = t.admitted - 1 })
      sends :
          {s : Server lib p} (clock : ℕ → Tick) (bytes : List ℕ) (c : ℕ) (doc : Option Json)
          → lookup c t.server.connections ≡ some true
          → lookup (generate_subscription_id bytes) t.server.hub.manager.subscriptions ≡ none
          → handle_message lib p unmarshal_filter methods clock bytes c doc t.server ≡ some s
          → Step t (moves s t)
      goes : (c : ℕ) → Step t (moves (disconnect lib p c t.server) t)
      new_block :
          (head : Head)
          → Step t (moves (set_hub (notify_new_heads told head t.server.hub) t.server) t)
      new_logs :
          (receipts : Option (List (List Log)))
          → Step t (moves (set_hub (notify_logs told address_hex receipts t.server.hub) t.server) t)
      new_transaction :
          (hash : Text)
          → Step t
              (moves (set_hub (notify_new_pending_transaction told hash t.server.hub) t.server) t)
      stops : Step t (record t { server = stop lib p t.server; up = false })

    pub data Reach (t : Site) : Site → Type 0 where
      start : Reach t t
      step : {u v : Site} → Reach t u → Step u v → Reach t v

    notify_receipt-IsSound :
        {up : Bool} (connections : Map ℕ Bool) (ls : List Log) (hub : Hub (Message lib p))
        → IsSound up connections hub
        → IsSound up connections (notify_receipt told address_hex ls hub)
    unfolding notify_receipt notify_log
    notify_receipt-IsSound connections [] hub h = h
    notify_receipt-IsSound connections (l ∷ ls) hub h =
        notify_receipt-IsSound connections ls _ (notify_each-IsSound told _ _ _ _ connections hub h)

    notify_receipts-IsSound :
        {up : Bool} (connections : Map ℕ Bool) (rs : List (List Log)) (hub : Hub (Message lib p))
        → IsSound up connections hub
        → IsSound up connections (notify_receipts told address_hex rs hub)
    unfolding notify_receipts
    notify_receipts-IsSound connections [] hub h = h
    notify_receipts-IsSound connections (r ∷ rs) hub h =
        notify_receipts-IsSound connections rs _ (notify_receipt-IsSound connections r hub h)

    notify_logs-IsSound :
        {up : Bool} (connections : Map ℕ Bool) (o : Option (List (List Log)))
        (hub : Hub (Message lib p))
        → IsSound up connections hub
        → IsSound up connections (notify_logs told address_hex o hub)
    unfolding notify_logs
    notify_logs-IsSound connections none hub h = h
    notify_logs-IsSound connections (some rs) hub h = notify_receipts-IsSound connections rs hub h

    abbrev pub SoundSite : Site → Type 0
    SoundSite t = SoundServer lib p t.up t.server

    pub Step-SoundServer : {t u : Site} → Step t u → SoundSite t → SoundSite u
    unfolding notify_new_heads notify_new_pending_transaction
    Step-SoundServer (admits room) h = h
    Step-SoundServer (fails some_admitted) h = h
    Step-SoundServer {t} (registers ip c some_admitted) h =
        register-SoundServer lib p t.up ip c t.server h
    Step-SoundServer {t} (sends clock bytes c doc at fresh e) h = subst (AllSound lib p t.up) e (
        handle_message-AllSound lib p t.up unmarshal_filter methods clock bytes c doc t.server at
          fresh h)
    Step-SoundServer {t} (goes c) h = disconnect-SoundServer lib p t.up c t.server h
    Step-SoundServer {t} (new_block head) h =
        notify_each-IsSound told _ _ _ _ t.server.connections t.server.hub h
    Step-SoundServer {t} (new_logs receipts) h =
        notify_logs-IsSound t.server.connections receipts t.server.hub h
    Step-SoundServer {t} (new_transaction hash) h =
        notify_each-IsSound told _ _ _ _ t.server.connections t.server.hub h
    Step-SoundServer {t} stops h = stop-SoundServer lib p t.up t.server h

    -- From a sound server, such as a new one, every server that these steps reach is sound: the
    -- manager's maps agree, subscriptions belong to registered connections, no channel exceeds its
    -- size, and, as long as Stop has not been called, registered connections are not closed. Clients
    -- come, send and go, and blocks, logs and transactions arrive, in any order, and others come
    -- between a client's passing of the limit and its registration; a message's handling, a client's
    -- cleanup and a notification are a step each.
    pub Reach-SoundServer : {t u : Site} → Reach t u → SoundSite t → SoundSite u
    Reach-SoundServer start h = h
    Reach-SoundServer (step r m) h = Step-SoundServer m (Reach-SoundServer r h)
