-- ===== src/Wiring/Shutdown.antt =====
-- What `main` starts against what it stops.
use evm_rpc.Prelude.{
  ℕ, suc, ◌-◌, ◌≡◌, ◌⊎◌, inl, inr, Bool-cases, refl, Option, none, some, List, [], ◌∷◌,
  if◌then◌else◌, arith,
}
use evm_rpc.Api.Error.{GoError, Result, ok, err, panic}
use evm_rpc.Config.{Config}
use evm_rpc.Wiring.{
  Front, metrics, http, ws, Action, start, stop, connect_pika, close_pika, Environment, Run,
  shut_down, main, prepend, only_if, init_cache, serve_until_woken, with_cache, with_pika,
  with_logger, with_config,
}

-- The servers that are started, and stopped, in order.
abbrev pub started : List Action → List Front
started [] = []
started (start f ∷ actions) = f ∷ started actions
started (_ ∷ actions) = started actions

abbrev pub stopped : List Action → List Front
stopped [] = []
stopped (stop f ∷ actions) = f ∷ stopped actions
stopped (_ ∷ actions) = stopped actions

-- Those for clients, without the one for the metrics.
abbrev pub for_clients : List Front → List Front
for_clients [] = []
for_clients (metrics ∷ fs) = for_clients fs
for_clients (http ∷ fs) = http ∷ for_clients fs
for_clients (ws ∷ fs) = ws ∷ for_clients fs

-- Servers for clients that run, and connections to the store that are open, after some actions.
abbrev pub still_running : List Action → ℕ → ℕ
still_running [] n = n
still_running (start metrics ∷ actions) n = still_running actions n
still_running (start http ∷ actions) n = still_running actions (suc n)
still_running (start ws ∷ actions) n = still_running actions (suc n)
still_running (stop f ∷ actions) n = still_running actions (n - 1)
still_running (_ ∷ actions) n = still_running actions n

abbrev pub still_open : List Action → ℕ → ℕ
still_open [] n = n
still_open (connect_pika ∷ actions) n = still_open actions (suc n)
still_open (close_pika ∷ actions) n = still_open actions (n - 1)
still_open (_ ∷ actions) n = still_open actions n

pub record IsOrderly (r : Run) : Type 0 where
  pub same : for_clients (started r.0) ≡ stopped r.0
  pub none_running : still_running r.0 0 ≡ 0
  pub closed : (still_open r.0 0 ≡ 0) ⊎ ((r.1 ≡ 1) × (started r.0 ≡ []))

module _ {Float : Type 0} (env : Environment Float) where
  served :
      (cfg : Config Float)
      → IsOrderly (
          prepend
            (connect_pika ∷ [])
            (prepend (only_if cfg.cache.enabled (init_cache ∷ [])) (serve_until_woken env cfg)))
  unfolding shut_down
  served cfg = ground arith

  with_cache-IsOrderly :
      (cfg : Config Float) (e : Option GoError)
      → IsOrderly (prepend (connect_pika ∷ []) (with_cache env cfg e))
  with_cache-IsOrderly cfg none = served cfg
  with_cache-IsOrderly cfg (some e) = record {
    same = refl;
    none_running = refl;
    closed = inr (refl, refl);
  }

  with_pika-IsOrderly : (cfg : Config Float) (e : Option GoError) → IsOrderly (with_pika env cfg e)
  with_pika-IsOrderly cfg none =
      with_cache-IsOrderly cfg (if cfg.cache.enabled then env.new_cache_manager else none)
  with_pika-IsOrderly cfg (some e) = record { same = refl; none_running = refl; closed = inl refl }

  with_logger-IsOrderly :
      (cfg : Config Float) (e : Option GoError) → IsOrderly (with_logger env cfg e)
  with_logger-IsOrderly cfg none = with_pika-IsOrderly cfg env.new_pika_client
  with_logger-IsOrderly cfg (some e) = record {
    same = refl;
    none_running = refl;
    closed = inl refl;
  }

  with_config-IsOrderly : (r : Result (Config Float)) → IsOrderly (with_config env r)
  with_config-IsOrderly (ok cfg) = with_logger-IsOrderly cfg env.init_logger
  with_config-IsOrderly (err e) = record { same = refl; none_running = refl; closed = inl refl }
  with_config-IsOrderly panic = record { same = refl; none_running = refl; closed = inl refl }

  -- In every run of main that no panic of a goroutine ends, the servers for clients that are started,
  -- over HTTP and over WebSockets, are the ones that are stopped, in the same order and each after its
  -- start, so that a server for the metrics that is started is never stopped; and the connection to
  -- the store is closed, unless the program exits with status 1 before it starts a server.
  pub main-IsOrderly : IsOrderly (main env)
  unfolding main
  main-IsOrderly = elim (Bool-cases env.show_version) [
    | inl e ↦ rw e (record { same = refl; none_running = refl; closed = inl refl })
    | inr e ↦ rw e (with_config-IsOrderly env.config)
  ]
