-- ===== src/Wiring/Parts.antt =====
-- What `main` of cmd/rpc/main.go makes of the configuration: the rate limiter that both servers share
-- through the handler, and the WebSocket server as it starts.
use evm_rpc.Prelude.{
  ◌≡◌, refl, inl, inr, ap, sym, true, Option, none, some, Bool-cases, if◌then◌else◌,
}
use mathlib.Core.Path.{subst}
use mathlib.Core.Option.{some-injective}
use evm_rpc.Server.Session.Steps.{SoundServer}
use evm_rpc.Config.{Config}
use evm_rpc.Metrics.{no_metrics}
use evm_rpc.Middleware.RateLimit.{RateLib, RateLimiter, new_rate_limiter}
use evm_rpc.Server.Methods.{Program}
use evm_rpc.Server.Handler.{State}
use evm_rpc.Server.Session.{Server}
use evm_rpc.Server.Session.Reach.{new_server, new_server-SoundServer}

module _ (lib : RateLib) (p : Program) {Float : Type 0} (cfg : Config Float) where
  -- Without the limits there is no limiter.
  unfoldable pub rate_limiter_of : Option (RateLimiter lib)
  unfolding new_rate_limiter
  rate_limiter_of =
      if cfg.rate_limit.enabled
      then some (
          new_rate_limiter lib cfg.rate_limit.enabled cfg.rate_limit.global.requests_per_second
            cfg.rate_limit.global.burst cfg.rate_limit.ip.requests_per_second
            cfg.rate_limit.ip.burst cfg.rate_limit.method)
      else none

  -- The handler's state, with the services' at the start.
  unfoldable pub handler_of : p.World → State lib p
  unfolding rate_limiter_of
  handler_of world = record { limiter = rate_limiter_of; metrics = no_metrics; world = world }

  unfoldable pub ws_server_of : p.World → Option (Server lib p)
  unfolding handler_of new_server
  ws_server_of world =
      if cfg.server.ws.enabled
      then some (new_server lib p cfg.server.ws.max_connections no_metrics (handler_of world))
      else none

  -- A limiter that is made is enabled: the check of `enabled` in `Allow` and in the middleware never
  -- lets a request pass.
  pub rate_limiter_of-enabled :
      (rl : RateLimiter lib) → rate_limiter_of ≡ some rl → rl.enabled ≡ true
  unfolding rate_limiter_of new_rate_limiter
  rate_limiter_of-enabled rl h = elim (Bool-cases cfg.rate_limit.enabled) [
    | inl e ↦ sym (ap (λ (r : RateLimiter lib). r.enabled) (some-injective _ _ (rw e at h)))
    | inr e ↦ cc (rw e at h)
  ]

  -- The WebSocket server starts sound, with the limit of the configuration.
  pub ws_server_of-SoundServer :
      (world : p.World) (s : Server lib p)
      → ws_server_of world ≡ some s
      → SoundServer lib p true s × (s.max_connections ≡ cfg.server.ws.max_connections)
  unfolding ws_server_of new_server
  ws_server_of-SoundServer world s h = elim (Bool-cases cfg.server.ws.enabled) [
    | inl e ↦
        subst (λ t. SoundServer lib p true t × (t.max_connections ≡ cfg.server.ws.max_connections))
          (some-injective _ _ (rw e at h))
          (
            new_server-SoundServer lib p cfg.server.ws.max_connections no_metrics
                (handler_of world),
            refl,
          )
    | inr e ↦ cc (rw e at h)
  ]
