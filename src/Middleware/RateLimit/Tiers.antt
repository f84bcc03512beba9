-- ===== src/Middleware/RateLimit/Tiers.antt =====
-- The order of the three limits of `Allow`, and what each refusal leaves untouched.
use mathlib.Core.Option.{get_or}
use evm_rpc.Prelude.{
  ℕ, ◌≡◌, ◌≢◌, refl, Bool, true, false, Option, none, some, Text, text, Map, text_key, lookup,
  insert, lookup-insert, beq_ne, if◌then◌else◌, Option-cases, if_true, if_false, ap, ◌∙◌,
  Bool-cases, inl, inr,
}
use evm_rpc.Prelude.Int.{ℤ, pos, ltbℤ}
use evm_rpc.Metrics.{Metrics, record_rate_limit}
use evm_rpc.Middleware.RateLimit.{
  RateLib, RateLimiter, Verdict, allowed, State, verdict, and_then, check_global, ask_key, check_ip,
  method_key, ask_method, check_method, allow_request,
}

module _ (lib : RateLib) where
  open lib use {Limiter, new_limiter, allow}

  -- What a limit says, from the state in which the request arrives.
  abbrev option_passes : ℕ → Option Limiter → Bool
  option_passes now none = true
  option_passes now (some g) = (allow now g).1

  unfoldable pub global_passes : ℕ → RateLimiter lib → Bool
  global_passes now rl = option_passes now rl.global

  abbrev key_passes : ℕ → Text → Limiter → RateLimiter lib → Bool
  key_passes now key fresh rl = (allow now (get_or (lookup key rl.ip_limiters) fresh)).1

  unfoldable pub ip_passes : ℕ → Text → RateLimiter lib → Bool
  ip_passes now ip rl =
      if ltbℤ (pos 0) rl.ip_rate
      then key_passes now ip (new_limiter rl.ip_rate rl.ip_burst) rl
      else true

  abbrev method_passes_with : ℕ → Text → Option ℤ → RateLimiter lib → Bool
  method_passes_with now method none rl = true
  method_passes_with now method (some r) rl =
      if ltbℤ (pos 0) r then key_passes now (method_key method) (new_limiter r r) rl else true

  unfoldable pub method_passes : ℕ → Text → RateLimiter lib → Bool
  method_passes now method rl = method_passes_with now method (lookup method rl.method_limits) rl

  abbrev asked : ℕ → Option Limiter → Option Limiter
  asked now none = none
  asked now (some g) = some (allow now g).0

  -- The limiters after each limit was asked.
  unfoldable pub after_global : ℕ → RateLimiter lib → RateLimiter lib
  after_global now rl = record rl { global = asked now rl.global }

  abbrev after_key : ℕ → Text → Limiter → RateLimiter lib → RateLimiter lib
  after_key now key fresh rl = record rl {
    ip_limiters =
        insert key (allow now (get_or (lookup key rl.ip_limiters) fresh)).0 rl.ip_limiters;
  }

  unfoldable pub after_ip : ℕ → Text → RateLimiter lib → RateLimiter lib
  after_ip now ip rl =
      if ltbℤ (pos 0) rl.ip_rate
      then after_key now ip (new_limiter rl.ip_rate rl.ip_burst) rl
      else rl

  abbrev after_method_with : ℕ → Text → Option ℤ → RateLimiter lib → RateLimiter lib
  after_method_with now method none rl = rl
  after_method_with now method (some r) rl =
      if ltbℤ (pos 0) r then after_key now (method_key method) (new_limiter r r) rl else rl

  unfoldable pub after_method : ℕ → Text → RateLimiter lib → RateLimiter lib
  after_method now method rl = after_method_with now method (lookup method rl.method_limits) rl

  check_global_lem :
      (now : ℕ) (rl : RateLimiter lib) (m : Metrics)
      → check_global lib now (rl, m)
        ≡ verdict lib (text "global") (global_passes now rl) (after_global now rl, m)
  unfolding check_global global_passes after_global
  check_global_lem now rl m = elim (Option-cases rl.global) [ inl e ↦ rw e | inr (g, e) ↦ rw e ]

  check_ip_lem :
      (now : ℕ) (ip : Text) (rl : RateLimiter lib) (m : Metrics)
      → check_ip lib now ip (rl, m)
        ≡ verdict lib (text "ip") (ip_passes now ip rl) (after_ip now ip rl, m)
  unfolding check_ip ask_key ip_passes after_ip
  check_ip_lem now ip rl m = elim (Bool-cases (ltbℤ (pos 0) rl.ip_rate)) [
    | inl e ↦ rw e
    | inr e ↦ rw e
  ]

  ask_method_lem :
      (now : ℕ) (method : Text) (o : Option ℤ) (rl : RateLimiter lib) (m : Metrics)
      → ask_method lib now method o (rl, m)
        ≡ verdict lib
            (text "method")
            (method_passes_with now method o rl)
            (after_method_with now method o rl, m)
  unfolding ask_key
  ask_method_lem now method none rl m = refl
  ask_method_lem now method (some r) rl m = elim (Bool-cases (ltbℤ (pos 0) r)) [
    | inl e ↦ rw e
    | inr e ↦ rw e
  ]

  check_method_lem :
      (now : ℕ) (method : Text) (rl : RateLimiter lib) (m : Metrics)
      → check_method lib now method (rl, m)
        ≡ verdict lib (text "method") (method_passes now method rl) (after_method now method rl, m)
  unfolding check_method method_passes after_method
  check_method_lem now method rl m = ask_method_lem now method (lookup method rl.method_limits) rl m

  -- The first refusal of three checks in a row, or the last state.
  abbrev pub first_refusal : (b c d : Bool) (s t u : State lib) → State lib × Verdict
  first_refusal false c d s t u = verdict lib (text "global") false s
  first_refusal true false d s t u = verdict lib (text "ip") false t
  first_refusal true true d s t u = verdict lib (text "method") d u

  three_checks :
      (b c d : Bool) (s t u : State lib) (f g : State lib → State lib × Verdict)
      → f s ≡ verdict lib (text "ip") c t
      → g t ≡ verdict lib (text "method") d u
      → and_then lib (and_then lib (verdict lib (text "global") b s) f) g
        ≡ first_refusal b c d s t u
  three_checks false c d s t u f g p q = refl
  three_checks true false d s t u f g p q = ap (λ z. and_then lib z g) p
  three_checks true true d s t u f g p q = ap (λ z. and_then lib z g) p ∙ q

  -- An enabled limiter asks for the global limit, then the address, then the method. The first that
  -- refuses ends the call and is counted; what comes after it is not asked.
  pub allow_request-first_refusal :
      (now : ℕ) (ip method : Text) (rl : RateLimiter lib) (m : Metrics)
      → rl.enabled ≡ true
      → allow_request lib now ip method (rl, m)
        ≡ first_refusal
            (global_passes now rl)
            (ip_passes now ip (after_global now rl))
            (method_passes now method (after_ip now ip (after_global now rl)))
            (after_global now rl, m)
            (after_ip now ip (after_global now rl), m)
            (after_method now method (after_ip now ip (after_global now rl)), m)
  unfolding allow_request
  allow_request-first_refusal now ip method rl m on =
      let rl₁ : RateLimiter lib = after_global now rl in
      let rl₂ : RateLimiter lib = after_ip now ip rl₁ in
      if_true _ _ on
      ∙ ap (λ z. and_then lib (and_then lib z (check_ip lib now ip)) (check_method lib now method))
          (check_global_lem now rl m)
      ∙ three_checks (global_passes now rl) (ip_passes now ip rl₁) (method_passes now method rl₂)
          (rl₁, m) (rl₂, m) (after_method now method rl₂, m) (check_ip lib now ip)
          (check_method lib now method) (check_ip_lem now ip rl₁ m)
          (check_method_lem now method rl₂ m)

  -- What holds of the state after each check holds in the end.
  pub first_refusal_inv {κ} :
      (P : RateLimiter lib → Type κ) (b c d : Bool) (s t u : State lib)
      → P s.0
      → P t.0
      → P u.0
      → P (first_refusal b c d s t u).0.0
  first_refusal_inv P false c d s t u p q r = p
  first_refusal_inv P true false d s t u p q r = q
  first_refusal_inv P true true true s t u p q r = r
  first_refusal_inv P true true false s t u p q r = r

  pub insert_others :
      (key k : Text) (l : Limiter) (m : Map Text Limiter)
      → key ≢ k
      → lookup k (insert key l m) ≡ lookup k m
  insert_others key k l m h = lookup-insert key k l m ∙ if_false _ _ (beq_ne key k h)

  after_ip_others :
      (now : ℕ) (ip key : Text) (rl : RateLimiter lib)
      → ip ≢ key
      → lookup key (after_ip now ip rl).ip_limiters ≡ lookup key rl.ip_limiters
  unfolding after_ip
  after_ip_others now ip key rl h = elim (Bool-cases (ltbℤ (pos 0) rl.ip_rate)) [
    | inl e ↦ rw e (insert_others ip key _ _ h)
    | inr e ↦ rw e
  ]

  after_method_with_others :
      (now : ℕ) (method key : Text) (o : Option ℤ) (rl : RateLimiter lib)
      → method_key method ≢ key
      → lookup key (after_method_with now method o rl).ip_limiters ≡ lookup key rl.ip_limiters
  after_method_with_others now method key none rl h = refl
  after_method_with_others now method key (some r) rl h = elim (Bool-cases (ltbℤ (pos 0) r)) [
    | inl e ↦ rw e (insert_others (method_key method) key _ _ h)
    | inr e ↦ rw e
  ]

  after_method_others :
      (now : ℕ) (method key : Text) (rl : RateLimiter lib)
      → method_key method ≢ key
      → lookup key (after_method now method rl).ip_limiters ≡ lookup key rl.ip_limiters
  unfolding after_method
  after_method_others now method key rl h =
      after_method_with_others now method key (lookup method rl.method_limits) rl h

  allow_disabled :
      (now : ℕ) (ip method : Text) (rl : RateLimiter lib) (m : Metrics)
      → rl.enabled ≡ false
      → allow_request lib now ip method (rl, m) ≡ ((rl, m), allowed)
  unfolding allow_request
  allow_disabled now ip method rl m off = if_false _ _ off

  -- A request touches no limiter of the map but that of its address and that of its method.
  pub allow_request_others :
      (now : ℕ) (ip method key : Text) (rl : RateLimiter lib) (m : Metrics)
      → ip ≢ key
      → method_key method ≢ key
      → lookup key (allow_request lib now ip method (rl, m)).0.0.ip_limiters
        ≡ lookup key rl.ip_limiters
  unfolding after_global
  allow_request_others now ip method key rl m other_ip other_method = elim (Bool-cases rl.enabled) [
    | inr off ↦ ap kept (allow_disabled now ip method rl m off)
    | inl on ↦
        ap kept (allow_request-first_refusal now ip method rl m on)
        ∙ first_refusal_inv (λ r. lookup key r.ip_limiters ≡ lookup key rl.ip_limiters) _ _ _ _ _ _
            refl by_ip
            (after_method_others now method key (after_ip now ip (after_global now rl)) other_method
              ∙ by_ip)
  ]
    where
      kept : State lib × Verdict → Option Limiter
      kept r = lookup key r.0.0.ip_limiters

      by_ip :
          lookup key (after_ip now ip (after_global now rl)).ip_limiters ≡ lookup key rl.ip_limiters
      by_ip = after_ip_others now ip key (after_global now rl) other_ip

  first_refusal_in_flight :
      (b c d : Bool) (rl₁ rl₂ rl₃ : RateLimiter lib) (m : Metrics)
      → (first_refusal b c d (rl₁, m) (rl₂, m) (rl₃, m)).0.1.requests_in_flight
        ≡ m.requests_in_flight
  unfolding record_rate_limit
  first_refusal_in_flight false c d _ _ _ m = refl
  first_refusal_in_flight true false d _ _ _ m = refl
  first_refusal_in_flight true true true _ _ _ m = refl
  first_refusal_in_flight true true false _ _ _ m = refl

  pub allow_request_in_flight :
      (now : ℕ) (ip method : Text) (rl : RateLimiter lib) (m : Metrics)
      → (allow_request lib now ip method (rl, m)).0.1.requests_in_flight ≡ m.requests_in_flight
  allow_request_in_flight now ip method rl m = elim (Bool-cases rl.enabled) [
    | inr off ↦ ap in_flight (allow_disabled now ip method rl m off)
    | inl on ↦
        ap in_flight (allow_request-first_refusal now ip method rl m on)
        ∙ first_refusal_in_flight _ _ _ _ _ _ m
  ]
    where
      in_flight : State lib × Verdict → Text → ℤ
      in_flight r = r.0.1.requests_in_flight
