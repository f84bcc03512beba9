-- ===== src/Middleware/RateLimit.antt =====
-- `RateLimiter` of pkg/middleware/ratelimit.go. The token bucket is golang.org/x/time/rate, a
-- parameter; `now` is the time that its `Allow` reads.
pub mod Tiers
pub mod Budget
pub mod Clash
use evm_rpc.Prelude.{
  ℕ, Bool, true, false, Option, none, some, Text, text, [], ◌++◌, Map, text_key, lookup, insert,
  ltb, if◌then◌else◌,
}
use mathlib.Core.Option.{get_or}
use evm_rpc.Prelude.Int.{ℤ, pos, ltbℤ}
use evm_rpc.Metrics.{Metrics, record_rate_limit}

-- `rate.NewLimiter(rate.Limit(r), burst)` and `(*Limiter).Allow()` at a time.
pub record RateLib : Type 1 where
  pub Limiter : Type 0
  pub new_limiter : ℤ → ℤ → Limiter
  pub allow : ℕ → Limiter → Limiter × Bool

module _ (lib : RateLib) where
  open lib use {Limiter, new_limiter}

  -- The `sync.Map` holds the limiters of addresses and, under "method:" keys, of methods.
  pub record RateLimiter : Type 0 where
    pub global : Option Limiter
    pub ip_limiters : Map Text Limiter
    pub method_limits : Map Text ℤ
    pub ip_rate : ℤ
    pub ip_burst : ℤ
    pub enabled : Bool

  unfoldable pub new_rate_limiter : Bool → ℤ → ℤ → ℤ → ℤ → Map Text ℤ → RateLimiter
  new_rate_limiter enabled global_rate global_burst ip_rate ip_burst method_limits = record {
    global = if ltbℤ (pos 0) global_rate then some (new_limiter global_rate global_burst) else none;
    ip_limiters = [];
    method_limits = method_limits;
    ip_rate = ip_rate;
    ip_burst = ip_burst;
    enabled = enabled;
  }

-- What `Allow` returns: the type of the limit that refused, or nothing.
pub data Verdict : Type 0 where
  allowed : Verdict
  refused : Text → Verdict

abbrev pub is_allowed : Verdict → Bool
is_allowed allowed = true
is_allowed (refused _) = false

-- The key of a method in the map of limiters.
abbrev pub method_key : Text → Text
method_key method = text "method:" ++ method

module _ (lib : RateLib) where
  open lib use {Limiter, new_limiter, allow}

  abbrev State : Type 0
  State = RateLimiter lib × Metrics

  -- `metrics.RecordRateLimit(limitType)` where a limiter refused.
  abbrev pub verdict : Text → Bool → State → State × Verdict
  verdict limit_type true s = (s, allowed)
  verdict limit_type false (rl, m) = ((rl, record_rate_limit limit_type m), refused limit_type)

  -- An early return, or the next check.
  abbrev pub and_then : State × Verdict → (State → State × Verdict) → State × Verdict
  and_then (s, allowed) next = next s
  and_then (s, refused t) next = (s, refused t)

  abbrev pub ask_global : ℕ → Option Limiter → State → State × Verdict
  ask_global now none s = (s, allowed)
  ask_global now (some g) (rl, m) =
      let (g', passed) = allow now g in
      verdict (text "global") passed (record rl { global = some g' }, m)

  -- `rl.global != nil && !rl.global.Allow()`.
  unfoldable pub check_global : ℕ → State → State × Verdict
  check_global now (rl, m) = ask_global now rl.global (rl, m)

  -- The limiter of a key, made where there is none, is asked, and is kept in the map.
  unfoldable pub ask_key : ℕ → Text → Text → Limiter → State → State × Verdict
  ask_key now limit_type key fresh (rl, m) =
      let (l, passed) = allow now (get_or (lookup key rl.ip_limiters) fresh) in
      verdict limit_type passed (record rl { ip_limiters = insert key l rl.ip_limiters }, m)

  -- `getIPLimiter(ip)`, which is nil without an address rate, and `Allow` on its result.
  unfoldable pub check_ip : ℕ → Text → State → State × Verdict
  unfolding ask_key
  check_ip now ip (rl, m) =
      if ltbℤ (pos 0) rl.ip_rate
      then ask_key now (text "ip") ip (new_limiter rl.ip_rate rl.ip_burst) (rl, m)
      else ((rl, m), allowed)

  abbrev ask_method : ℕ → Text → Option ℤ → State → State × Verdict
  ask_method now method none s = (s, allowed)
  ask_method now method (some r) s =
      if ltbℤ (pos 0) r
      then ask_key now (text "method") (method_key method) (new_limiter r r) s
      else (s, allowed)

  unfoldable pub check_method : ℕ → Text → State → State × Verdict
  unfolding ask_key
  check_method now method (rl, m) = ask_method now method (lookup method rl.method_limits) (rl, m)

  -- `Allow(ip, method)`.
  unfoldable pub allow_request : ℕ → Text → Text → State → State × Verdict
  allow_request now ip method (rl, m) =
      if rl.enabled
      then and_then (and_then (check_global now (rl, m)) (check_ip now ip))
          (check_method now method)
      else ((rl, m), allowed)

  -- The guards of `Middleware()`: global and address limits only.
  unfoldable pub allow_connection : ℕ → Text → State → State × Verdict
  allow_connection now ip (rl, m) =
      if rl.enabled
      then and_then (check_global now (rl, m)) (check_ip now ip)
      else ((rl, m), allowed)
