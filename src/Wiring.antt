-- ===== src/Wiring.antt =====
-- `main` of cmd/rpc/main.go: what it makes, starts and stops, in order, by the configuration and the
-- outcomes of the calls that can fail. The goroutines that it starts are actions of their start;
-- registering a service always succeeds.
pub mod Shutdown
pub mod Parts
use evm_rpc.Prelude.{
  ℕ, Bool, true, false, Option, none, some, Text, text, List, [], ◌∷◌, ◌++◌, map, if◌then◌else◌,
}
use evm_rpc.Api.Error.{GoError, error_text, Result, ok, err, panic}
use evm_rpc.Config.{Config}

-- The servers that the program starts.
pub data Front : Type 0 where
  metrics : Front
  http : Front
  ws : Front

pub data Action : Type 0 where
  print_version : Action
  print_error : Text → Action
  log_error : Text → Action
  connect_pika : Action
  close_pika : Action
  init_cache : Action
  init_rate_limiter : Action
  register : Text → Action
  listen_events : Action  -- `NewSubscriptionManager` starts its two loops
  start : Front → Action
  stop : Front → Action
  log_cache_stats : Action
  received_signal : Action
  cancel : Action
  cancel_shutdown : Action
  sync_log : Action

-- What `select` waits for: an error of a server, or a signal.
pub data Wake : Type 0 where
  server_error : GoError → Wake
  interrupted : Wake

-- The flag `-version`, and the outcomes; none is a nil error.
pub record Environment (Float : Type 0) : Type 0 where
  pub show_version : Bool
  pub config : Result (Config Float)
  pub init_logger : Option GoError
  pub new_pika_client : Option GoError
  pub new_cache_manager : Option GoError
  pub wake : Wake
  pub stop_error : Front → Option GoError

-- The actions, and the exit status.
abbrev pub Run : Type 0
Run = List Action × ℕ

abbrev pub prepend : List Action → Run → Run
prepend actions (rest, code) = (actions ++ rest, code)

abbrev pub only_if : Bool → List Action → List Action
only_if b actions = if b then actions else []

abbrev pub register_all : List Action
register_all =
    register (text "eth")
    ∷ register (text "eth")
    ∷ register (text "eth")
    ∷ register (text "eth")
    ∷ register (text "eth")
    ∷ register (text "net")
    ∷ register (text "web3")
    ∷ register (text "txpool")
    ∷ []

abbrev woken : Wake → Action
woken (server_error e) = log_error (text "Server error: " ++ error_text e)
woken interrupted = received_signal

abbrev pub stop_logged : Text → Option GoError → List Action
stop_logged what none = []
stop_logged what (some e) =
    log_error (what ++ (text " server shutdown error: " ++ error_text e)) ∷ []

module _ {Float : Type 0} (env : Environment Float) where
  -- From the handlers to the subscription manager.
  abbrev components : Config Float → List Action
  components cfg =
      only_if cfg.rate_limit.enabled (init_rate_limiter ∷ [])
      ++ (register_all
          ++ (only_if cfg.metrics.enabled (start metrics ∷ [])
              ++ only_if cfg.server.ws.enabled (listen_events ∷ [])))

  abbrev start_all : Config Float → List Action
  start_all cfg =
      only_if cfg.server.http.enabled (start http ∷ [])
      ++ (only_if cfg.server.ws.enabled (start ws ∷ [])
          ++ only_if cfg.cache.enabled (log_cache_stats ∷ []))

  -- "Graceful shutdown". An error of a server is logged and ends nothing.
  unfoldable pub shut_down : Config Float → List Action
  shut_down cfg =
      cancel
        ∷ only_if cfg.server.http.enabled
            (stop http ∷ stop_logged (text "HTTP") (env.stop_error http))
      ++ only_if cfg.server.ws.enabled
          (stop ws ∷ stop_logged (text "WebSocket") (env.stop_error ws))

  -- The deferred calls, the last one first.
  abbrev deferred : List Action
  deferred = cancel_shutdown ∷ cancel ∷ close_pika ∷ sync_log ∷ []

  abbrev serve_until_woken : Config Float → Run
  serve_until_woken cfg =
      (components cfg ++ (start_all cfg ++ (woken env.wake ∷ shut_down cfg ++ deferred)), 0)

  -- `logger.Fatalf` exits at once: no deferred call runs.
  abbrev fatal : Text → GoError → Run
  fatal what e = (log_error (what ++ error_text e) ∷ [], 1)

  abbrev with_cache : Config Float → Option GoError → Run
  with_cache cfg none =
      prepend (only_if cfg.cache.enabled (init_cache ∷ [])) (serve_until_woken cfg)
  with_cache cfg (some e) = fatal (text "Failed to initialize cache: ") e

  -- The cache manager is made only if it is enabled.
  abbrev with_pika : Config Float → Option GoError → Run
  with_pika cfg none =
      prepend (connect_pika ∷ [])
        (with_cache cfg (if cfg.cache.enabled then env.new_cache_manager else none))
  with_pika cfg (some e) = fatal (text "Failed to connect to Pika: ") e

  abbrev with_logger : Config Float → Option GoError → Run
  with_logger cfg none = with_pika cfg env.new_pika_client
  with_logger cfg (some e) =
      (print_error (text "Failed to initialize logger: " ++ error_text e) ∷ [], 1)

  abbrev with_config : Result (Config Float) → Run
  with_config (ok cfg) = with_logger cfg env.init_logger
  with_config (err e) = (print_error (text "Failed to load config: " ++ error_text e) ∷ [], 1)
  with_config panic = ([], 2)

  unfoldable pub main : Run
  unfolding shut_down
  main = if env.show_version then (print_version ∷ [], 0) else with_config env.config
