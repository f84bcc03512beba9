-- ===== src/Middleware/RateLimit/Clash.antt =====
-- Addresses and methods share one map of limiters, and the address is what the client claims.
use mathlib.Core.Option.{get_or}
use evm_rpc.Prelude.{
  ℕ, ◌≡◌, refl, ◌∙◌, ap, Bool, true, false, Option, some, Text, text, text_key, lookup, insert,
  lookup-insert, beq_refl,
}
use evm_rpc.Prelude.Int.{ℤ, pos, ltbℤ}
use evm_rpc.Metrics.{Metrics}
use evm_rpc.Middleware.RateLimit.{
  RateLib, RateLimiter, is_allowed, method_key, verdict, ask_key, check_ip, check_method,
}

module _ (lib : RateLib) where
  open lib use {Limiter, new_limiter, allow}

  -- The limiter that is asked for a key, before and after.
  abbrev pub asked : Text → Limiter → RateLimiter lib → Limiter
  asked key fresh rl = get_or (lookup key rl.ip_limiters) fresh

  verdict-limiters :
      (t : Text) (b : Bool) (rl : RateLimiter lib) (m : Metrics)
      → (verdict lib t b (rl, m)).0.0 ≡ rl
  verdict-limiters t true rl m = refl
  verdict-limiters t false rl m = refl

  verdict-is_allowed :
      (t : Text) (b : Bool) (rl : RateLimiter lib) (m : Metrics)
      → is_allowed (verdict lib t b (rl, m)).1 ≡ b
  verdict-is_allowed t true rl m = refl
  verdict-is_allowed t false rl m = refl

  ask_key-kept :
      (now : ℕ) (t key : Text) (fresh other : Limiter) (rl : RateLimiter lib) (m : Metrics)
      → asked key other (ask_key lib now t key fresh (rl, m)).0.0
        ≡ (allow now (asked key fresh rl)).0
  unfolding ask_key
  ask_key-kept now t key fresh other rl m =
      rw (verdict-limiters t _ (record rl { ip_limiters = insert key _ rl.ip_limiters }) m) (
        ap (λ (o : Option Limiter). get_or o other) (lookup-insert key key _ rl.ip_limiters)
        ∙ rw (beq_refl key))

  ask_key-method_limits :
      (now : ℕ) (t key : Text) (fresh : Limiter) (rl : RateLimiter lib) (m : Metrics)
      → (ask_key lib now t key fresh (rl, m)).0.0.method_limits ≡ rl.method_limits
  unfolding ask_key
  ask_key-method_limits now t key fresh rl m =
      ap (λ (l : RateLimiter lib). l.method_limits)
        (verdict-limiters t _ (record rl { ip_limiters = insert key _ rl.ip_limiters }) m)

  ask_key-is_allowed :
      (now : ℕ) (t key : Text) (fresh : Limiter) (s : RateLimiter lib × Metrics)
      → is_allowed (ask_key lib now t key fresh s).1 ≡ (allow now (asked key fresh s.0)).1
  unfolding ask_key
  ask_key-is_allowed now t key fresh (rl, m) = verdict-is_allowed t _ _ m

  check_method-asked :
      (now : ℕ) (method : Text) (r : ℤ) (s : RateLimiter lib × Metrics)
      → lookup method s.0.method_limits ≡ some r
      → ltbℤ (pos 0) r ≡ true
      → is_allowed (check_method lib now method s).1
        ≡ (allow now (asked (method_key method) (new_limiter r r) s.0)).1
  unfolding check_method
  check_method-asked now method r (rl, m) e positive =
      rw (e, positive)
        (ask_key-is_allowed now (text "method") (method_key method) (new_limiter r r) (rl, m))

  -- A client that calls itself "method:" and a method's name is charged to the method's limiter: what
  -- the method's check decides next is what that limiter decides after the client's request. Where
  -- the method has no limiter yet, it then gets one with the rate and burst of addresses, not its own.
  pub check_method-check_ip :
      (now now' : ℕ) (method : Text) (r : ℤ) (rl : RateLimiter lib) (m : Metrics)
      → ltbℤ (pos 0) rl.ip_rate ≡ true
      → lookup method rl.method_limits ≡ some r
      → ltbℤ (pos 0) r ≡ true
      → is_allowed (check_method lib now' method (check_ip lib now (method_key method) (rl, m)).0).1
        ≡ (allow now'
            (allow now (asked (method_key method) (new_limiter rl.ip_rate rl.ip_burst) rl)).0).1
  unfolding check_ip
  check_method-check_ip now now' method r rl m by_address e positive = rw by_address (
      check_method-asked now' method r
        (ask_key lib now (text "ip") (method_key method) (new_limiter rl.ip_rate rl.ip_burst)
          (rl, m)).0
        (ap (lookup method) (
            ask_key-method_limits now (text "ip") (method_key method)
              (new_limiter rl.ip_rate rl.ip_burst) rl m)
          ∙ e)
        positive
      ∙ ap (λ (l : Limiter). (allow now' l).1)
          (ask_key-kept now (text "ip") (method_key method) (new_limiter rl.ip_rate rl.ip_burst)
            (new_limiter r r) rl m))
