-- ===== src/Server/Http/Stack/Logged.antt =====
-- What the server's middleware does together: the limiter refuses before CORS and the routes, and the
-- log shows it.
use mathlib.Core.Path.{subst}
use evm_rpc.Prelude.{
  ℕ, ◌-◌, ◌≡◌, refl, ap, sym, Option, some, Text, text, List, [], ◌∷◌, ◌++◌, Map, ltb,
  if◌then◌else◌,
}
use evm_rpc.Metrics.{Metrics}
use evm_rpc.Middleware.RateLimit.{RateLib, RateLimiter, Verdict, allowed, refused, allow_connection}
use evm_rpc.Middleware.Logging.{Call, header, body, Line, incoming, completed, slow}
use evm_rpc.Middleware.Logging.Status.{log_served_lem}
use evm_rpc.Server.Methods.{Program, MethodHandler}
use evm_rpc.Server.Handler.{State}
use evm_rpc.Server.Http.{extract_ip, rate_limited, after_limit, limit_connection}
use evm_rpc.Server.Http.Stack.{
  Incoming, requested, Moment, Handler, with_cors, router, limited_handler, Encoders, calls_of,
  Ended, finish, log_around, serve_http,
}

module _ (lib : RateLib) (p : Program) (threshold : ℕ) (enc : Encoders lib p)
    (unrouted : Incoming → List Call) (methods : Map Text (MethodHandler p))
    (cors : Option (Handler lib p → Handler lib p)) (t : Moment) (r : Incoming)
    (s : State lib p) where
  -- The log of a request that was answered with a status.
  abbrev pub log_with : ℕ → List Line
  log_with status =
      incoming r.method r.path r.request.remote_addr
      ∷ completed r.method r.path status (t.end - t.start)
      ∷ (if ltb threshold (t.end - t.start)
          then slow r.method r.path (t.end - t.start) ∷ []
          else [])

  -- What a verdict of the limiter comes to.
  abbrev pub Follows : (RateLimiter lib × Metrics) × Verdict → Ended lib p → Type 0
  Follows ((rl, m), refused why) e =
      (e.state ≡ record s { limiter = some rl; metrics = m })
      × (e.sent ≡ some (header 429 ∷ body (text "Rate limit exceeded" ++ 10 ∷ []) ∷ []))
      × (e.lines ≡ log_with 429)
  Follows ((rl, m), allowed) e =
      e
      ≡ log_around lib p threshold enc t (with_cors lib p cors (router lib p unrouted methods t)) r
          (record s { limiter = some rl; metrics = m })

  decided :
      (v : (RateLimiter lib × Metrics) × Verdict)
      → Follows v (
          let (s', reply) =
            after_limit lib p v (with_cors lib p cors (router lib p unrouted methods t) r) s in
          finish lib p threshold t r s' (calls_of lib p enc reply))
  unfolding calls_of log_around
  decided ((rl, m), refused why) = (
    refl,
    ap some (log_served_lem threshold t.start t.end (requested r) _).0,
    (log_served_lem threshold t.start t.end (requested r) _).1,
  )
  decided ((rl, m), allowed) = refl

  -- With a limiter and a log: a request that the limiter refuses, whatever its path, is answered with
  -- the status 429 and logged with it, and changes no more than the limiter and the metrics, whatever
  -- CORS and the routes would have done; one that it lets through goes on to CORS and the routes, with
  -- the limiter charged.
  pub serve_http-Follows :
      (rl : RateLimiter lib)
      → s.limiter ≡ some rl
      → Follows
          (allow_connection lib t.limited_at (extract_ip r.request) (rl, s.metrics))
          (serve_http lib p (some threshold) enc unrouted methods cors t r s)
  unfolding serve_http limited_handler rate_limited log_around
  serve_http-Follows rl at =
      subst
        (λ o. Follows (allow_connection lib t.limited_at (extract_ip r.request) (rl, s.metrics)) (
          let (s', reply) =
            limit_connection lib p t.limited_at (extract_ip r.request) o
              (with_cors lib p cors (router lib p unrouted methods t) r) s in
          finish lib p threshold t r s' (calls_of lib p enc reply)))
        (sym at)
        (decided (allow_connection lib t.limited_at (extract_ip r.request) (rl, s.metrics)))
