-- ===== src/Middleware/RateLimit/Budget.antt =====
-- How many requests the limits let through: never more than the limiter that stands in their way.
use evm_rpc.Prelude.{
  ℕ, suc, ◌≤◌, ◌≡◌, refl, sym, ap, ◌∙◌, Bool, true, false, some, Text, List, [], ◌∷◌, map, arith,
  if◌then◌else◌,
}
use evm_rpc.Metrics.{Metrics}
use evm_rpc.Middleware.RateLimit.{RateLib, RateLimiter, Verdict, is_allowed, State, allow_request}
use evm_rpc.Middleware.RateLimit.Tiers.{
  global_passes, after_global, after_ip, after_method, first_refusal, first_refusal_inv,
  allow_request-first_refusal,
}

pub record Request : Type 0 where
  pub now : ℕ
  pub ip : Text
  pub method : Text

count-le :
    (a b : Bool) (x y : ℕ)
    → (a ≡ true → b ≡ true)
    → x ≤ y
    → (if a then suc x else x) ≤ (if b then suc y else y)
count-le true true x y h k = omega arith
count-le true false x y h k = cc (h refl)
count-le false true x y h k = omega arith
count-le false false x y h k = k

module _ (lib : RateLib) where
  open lib use {Limiter, allow}

  -- Requests one after the other, and how many of them are allowed.
  unfoldable pub serve : List Request → State lib → State lib × ℕ
  serve [] s = (s, 0)
  serve (r ∷ rs) s =
      let (s', v) = allow_request lib r.now r.ip r.method s in
      let (s'', n) = serve rs s' in (s'', if is_allowed v then suc n else n)

  -- How often a limiter that is asked at the given times says yes.
  unfoldable pub grants : List ℕ → Limiter → ℕ
  grants [] g = 0
  grants (t ∷ ts) g =
      let (g', passed) = allow t g in let n = grants ts g' in if passed then suc n else n

  -- Enabled, with `g` as the global limiter.
  abbrev pub IsGuarded : Limiter → RateLimiter lib → Type 0
  IsGuarded g rl = (rl.enabled ≡ true) × (rl.global ≡ some g)

  module _ (now : ℕ) (g : Limiter) where
    after_global-IsGuarded :
        (rl : RateLimiter lib)
        → IsGuarded g rl
        → IsGuarded (allow now g).0 (after_global lib now rl)
    unfolding after_global
    after_global-IsGuarded rl h = ground arith

    after_ip-IsGuarded :
        (ip : Text) (rl : RateLimiter lib) → IsGuarded g rl → IsGuarded g (after_ip lib now ip rl)
    unfolding after_ip
    after_ip-IsGuarded ip rl h = ground arith

    after_method-IsGuarded :
        (method : Text) (rl : RateLimiter lib)
        → IsGuarded g rl
        → IsGuarded g (after_method lib now method rl)
    unfolding after_method
    after_method-IsGuarded method rl h = ground arith

    global_passes-eq :
        (rl : RateLimiter lib) → IsGuarded g rl → global_passes lib now rl ≡ (allow now g).1
    unfolding global_passes
    global_passes-eq rl h = ground arith

    first_refusal-allowed :
        (b c d : Bool) (s t u : State lib)
        → is_allowed (first_refusal lib b c d s t u).1 ≡ true
        → b ≡ true
    first_refusal-allowed true c d s t u h = refl
    first_refusal-allowed false c d s t u h = h

  pub allow_request-IsGuarded :
      (now : ℕ) (g : Limiter) (ip method : Text) (rl : RateLimiter lib) (m : Metrics)
      → IsGuarded g rl
      → IsGuarded (allow now g).0 (allow_request lib now ip method (rl, m)).0.0
  allow_request-IsGuarded now g ip method rl m h =
      let g' : Limiter = (allow now g).0 in
      let one = after_global-IsGuarded now g rl h in
      let two = after_ip-IsGuarded now g' ip (after_global lib now rl) one in
      rw (allow_request-first_refusal lib now ip method rl m h.0) (
        first_refusal_inv lib (IsGuarded g') _ _ _ _ _ _ one two (
          after_method-IsGuarded now g' method (after_ip lib now ip (after_global lib now rl)) two))

  allow_request-allowed :
      (now : ℕ) (g : Limiter) (ip method : Text) (rl : RateLimiter lib) (m : Metrics)
      → IsGuarded g rl
      → is_allowed (allow_request lib now ip method (rl, m)).1 ≡ true
      → (allow now g).1 ≡ true
  allow_request-allowed now g ip method rl m h a =
      sym (global_passes-eq now g rl h)
      ∙ first_refusal-allowed now g _ _ _ _ _ _ (
          ap (λ (z : State lib × Verdict). is_allowed z.1)
            (sym (allow_request-first_refusal lib now ip method rl m h.0))
          ∙ a)

  -- Whatever the addresses and methods, no more requests are allowed than the global limiter grants
  -- when it is asked at the same times.
  pub serve-le-grants :
      (rs : List Request) (g : Limiter) (rl : RateLimiter lib) (m : Metrics)
      → rl.enabled ≡ true
      → rl.global ≡ some g
      → (serve rs (rl, m)).1 ≤ grants (map (λ (r : Request). r.now) rs) g
  unfolding serve grants
  serve-le-grants [] g rl m on at = omega arith
  serve-le-grants (r ∷ rs) g rl m on at =
      let (s', v) = allow_request lib r.now r.ip r.method (rl, m) in
      let kept = allow_request-IsGuarded r.now g r.ip r.method rl m (on, at) in
      count-le (is_allowed v) (allow r.now g).1 (serve rs s').1
        (grants (map (λ (q : Request). q.now) rs) (allow r.now g).0)
        (allow_request-allowed r.now g r.ip r.method rl m (on, at))
        (serve-le-grants rs (allow r.now g).0 s'.0 s'.1 kept.0 kept.1)
