-- ===== src/Server/Http/Charges.antt =====
-- How often an HTTP request is charged: once by the middleware, and once more by the handler.
use mathlib.Core.Path.{subst}
use evm_rpc.Prelude.{
  ℕ, ◌≡◌, refl, ap, ◌∙◌, sym, Option, none, some, Text, text, text_eq, text_eq_iff, Map, text_key,
  lookup, arith, if_true,
}
use evm_rpc.Api.Error.{ok}
use evm_rpc.Metrics.{Metrics}
use evm_rpc.Middleware.RateLimit.{
  RateLib, RateLimiter, Verdict, allowed, refused, and_then, check_global, check_ip, ask_key,
  allow_connection, allow_request,
}
use evm_rpc.Middleware.RateLimit.Budget.{IsGuarded, allow_request-IsGuarded}
use evm_rpc.Server.Json.{Json}
use evm_rpc.Server.Methods.{Program, MethodHandler}
use evm_rpc.Server.Handler.{
  Tick, State, Handled, responded, crashed, dispatch, run_method, handle_request, check_limit,
  check_limit_with, limited, unless_refused,
}
use evm_rpc.Server.Request.{JsonRpcRequest, single, parse_request}
use evm_rpc.Server.Http.{
  HttpRequest, HttpReply, reply_body, reply_parsed, limit_connection, extract_ip, rate_limited,
  handle_rpc, reply_single, after_limit,
}

module _ (lib : RateLib) where
  open lib use {Limiter, allow}

  check_ip-IsGuarded :
      (now : ℕ) (g : Limiter) (ip : Text) (rl : RateLimiter lib) (m : Metrics)
      → IsGuarded lib g rl
      → IsGuarded lib g (check_ip lib now ip (rl, m)).0.0
  unfolding check_ip ask_key
  check_ip-IsGuarded now g ip rl m h = ground arith

  check_global-IsGuarded :
      (now : ℕ) (g : Limiter) (rl : RateLimiter lib) (m : Metrics)
      → IsGuarded lib g rl
      → IsGuarded lib (allow now g).0 (check_global lib now (rl, m)).0.0
  unfolding check_global
  check_global-IsGuarded now g rl m h = ground arith

  pub allow_connection-IsGuarded :
      (now : ℕ) (g : Limiter) (ip : Text) (rl : RateLimiter lib) (m : Metrics)
      → IsGuarded lib g rl
      → IsGuarded lib (allow now g).0 (allow_connection lib now ip (rl, m)).0.0
  unfolding allow_connection
  allow_connection-IsGuarded now g ip rl m h =
      subst (λ (z : (RateLimiter lib × Metrics) × Verdict). IsGuarded lib (allow now g).0 z.0.0)
        (sym (if_true {b = rl.enabled} _ _ h.0))
        (both (check_global lib now (rl, m)) (check_global-IsGuarded now g rl m h))
    where
      both :
          (z : (RateLimiter lib × Metrics) × Verdict)
          → IsGuarded lib (allow now g).0 z.0.0
          → IsGuarded lib (allow now g).0 (and_then lib z (check_ip lib now ip)).0.0
      both ((rl, m), allowed) k = check_ip-IsGuarded now (allow now g).0 ip rl m k
      both ((rl, m), refused t) k = k

module _ (lib : RateLib) (p : Program) where
  open lib use {Limiter, allow}

  -- A handler's rate limiter, where it has one, is guarded.
  abbrev pub IsCharged : Limiter → State lib p → Type 0
  IsCharged g s = (rl : RateLimiter lib) × (s.limiter ≡ some rl) × IsGuarded lib g rl

  dispatch-limiter :
      (tick : Tick) (req : JsonRpcRequest) (o : Option (MethodHandler p)) (s : State lib p)
      → (dispatch lib p tick req o s).0.limiter ≡ s.limiter
  unfolding run_method
  dispatch-limiter tick req none s = refl
  dispatch-limiter tick req (some h) s = refl

  module _ (methods : Map Text (MethodHandler p)) where
    -- A request of the right version asks the global limiter once, however it ends.
    handle_request-IsCharged :
        (tick : Tick) (ip : Text) (req : JsonRpcRequest) (g : Limiter) (rl : RateLimiter lib)
        (s : State lib p)
        → req.jsonrpc ≡ text "2.0"
        → s.limiter ≡ some rl
        → IsGuarded lib g rl
        → IsCharged (allow tick.now g).0 (handle_request lib p methods tick ip req s).0
    unfolding handle_request check_limit
    handle_request-IsCharged tick ip req g rl s version at h =
        subst (λ (z : State lib p × Handled lib p). IsCharged (allow tick.now g).0 z.0)
          (sym (
            if_true {b = text_eq req.jsonrpc (text "2.0")} _ _ ((text_eq_iff _ _).1 version)
            ∙ ap (λ o. unless_refused lib p (check_limit_with lib p tick ip req o s) next) at))
          (ends (allow_request lib tick.now ip req.method (rl, s.metrics))
            (allow_request-IsGuarded lib tick.now g ip req.method rl s.metrics h))
      where
        next : State lib p → State lib p × Handled lib p
        next = dispatch lib p tick req (lookup req.method methods)

        ends :
            (v : (RateLimiter lib × Metrics) × Verdict)
            → IsGuarded lib (allow tick.now g).0 v.0.0
            → IsCharged (allow tick.now g).0 (unless_refused lib p (limited lib p req v s) next).0
        ends ((rl', m), allowed) k = (
          rl',
          dispatch-limiter tick req (lookup req.method methods)
              (record s { limiter = some rl'; metrics = m }),
          k,
        )
        ends ((rl', m), refused t) k = (rl', refl, k)

    reply_single-state : (z : State lib p × Handled lib p) → (reply_single lib p z).0 ≡ z.0
    reply_single-state (s, responded r) = refl
    reply_single-state (s, crashed) = refl

    handle_rpc-IsCharged :
        (clock : ℕ → Tick) (r : HttpRequest) (doc : Option Json) (req : JsonRpcRequest)
        (g : Limiter) (rl : RateLimiter lib) (s : State lib p)
        → r.body ≡ some doc
        → parse_request doc ≡ ok (single req)
        → req.jsonrpc ≡ text "2.0"
        → s.limiter ≡ some rl
        → IsGuarded lib g rl
        → IsCharged (allow (clock 0).now g).0 (handle_rpc lib p methods clock r s).0
    unfolding handle_rpc
    handle_rpc-IsCharged clock r doc req g rl s body parsed version at h =
        subst (IsCharged (allow (clock 0).now g).0)
          (sym (
            ap (λ b. (reply_body lib p methods clock (extract_ip r) b s).0) body
            ∙ ap (λ q. (reply_parsed lib p methods clock (extract_ip r) q s).0) parsed
            ∙ reply_single-state (handle_request lib p methods (clock 0) (extract_ip r) req s)))
          (handle_request-IsCharged (clock 0) (extract_ip r) req g rl s version at h)

    -- Where the limiter is enabled and has a global limit, a single request of version 2.0 over HTTP
    -- that the middleware lets through is charged twice: the global limiter is asked at the
    -- middleware's time, and again at the handler's.
    pub rate_limited-charges_twice :
        (now : ℕ) (clock : ℕ → Tick) (r : HttpRequest) (doc : Option Json) (req : JsonRpcRequest)
        (g : Limiter) (rl : RateLimiter lib) (s : State lib p)
        → r.body ≡ some doc
        → parse_request doc ≡ ok (single req)
        → req.jsonrpc ≡ text "2.0"
        → s.limiter ≡ some rl
        → IsGuarded lib g rl
        → (allow_connection lib now (extract_ip r) (rl, s.metrics)).1 ≡ allowed
        → IsCharged
            (allow (clock 0).now (allow now g).0).0
            (rate_limited lib p now r (handle_rpc lib p methods clock r) s).0
    unfolding rate_limited
    rate_limited-charges_twice now clock r doc req g rl s body parsed version at h passes =
        subst (λ o. IsCharged g'' (limit_connection lib p now (extract_ip r) o next s).0) (sym at)
          (passed (allow_connection lib now (extract_ip r) (rl, s.metrics)) passes
            (allow_connection-IsGuarded lib now g (extract_ip r) rl s.metrics h))
      where
        g'' : Limiter
        g'' = (allow (clock 0).now (allow now g).0).0

        next : State lib p → State lib p × HttpReply lib p
        next = handle_rpc lib p methods clock r

        passed :
            (v : (RateLimiter lib × Metrics) × Verdict)
            → v.1 ≡ allowed
            → IsGuarded lib (allow now g).0 v.0.0
            → IsCharged g'' (after_limit lib p v next s).0
        passed ((rl', m), allowed) e k =
            handle_rpc-IsCharged clock r doc req (allow now g).0 rl'
              (record s { limiter = some rl'; metrics = m }) body parsed version refl k
        passed ((rl', m), refused t) e k = cc
