-- ===== src/Tests/Limits.antt =====
-- The rate limiter on a bucket of tokens.
use evm_rpc.Prelude.{
  ◌≤◌, ◌≡◌, refl, Text, text, text_eq, List, [], ◌∷◌, map, text_key, lookup, insert,
}
use evm_rpc.Metrics.{no_metrics}
use evm_rpc.Prelude.Int.{pos}
use evm_rpc.Middleware.RateLimit.{
  is_allowed, method_key, allow_request, check_global, check_ip, check_method,
}
use evm_rpc.Middleware.RateLimit.Clash
use evm_rpc.Middleware.RateLimit.Tiers
use evm_rpc.Middleware.RateLimit.Budget
use evm_rpc.Middleware.RateLimit.Budget.{Request}
use evm_rpc.Tests.Instances.{bucket, limiter}

abbrev ip : Text
ip = text "10.0.0.1"

abbrev call : Text
call = text "eth_call"

allow_request-first_refusal_example :
    allow_request bucket 0 ip call (limiter, no_metrics)
    ≡ Tiers.first_refusal bucket
        (Tiers.global_passes bucket 0 limiter)
        (Tiers.ip_passes bucket 0 ip (Tiers.after_global bucket 0 limiter))
        (Tiers.method_passes bucket 0 call
          (Tiers.after_ip bucket 0 ip (Tiers.after_global bucket 0 limiter)))
        (Tiers.after_global bucket 0 limiter, no_metrics)
        (Tiers.after_ip bucket 0 ip (Tiers.after_global bucket 0 limiter), no_metrics)
        (
          Tiers.after_method bucket 0 call
              (Tiers.after_ip bucket 0 ip (Tiers.after_global bucket 0 limiter)),
          no_metrics,
        )
allow_request-first_refusal_example =
    Tiers.allow_request-first_refusal bucket 0 ip call limiter no_metrics refl

abbrev visits : List Request
visits =
    record { now = 0; ip = ip; method = text "a" }
    ∷ record { now = 1; ip = ip; method = text "a" }
    ∷ record { now = 2; ip = ip; method = text "a" }
    ∷ record { now = 3; ip = text "x"; method = text "a" }
    ∷ []

serve-le-grants_example :
    (Budget.serve bucket visits (limiter, no_metrics)).1
    ≤ Budget.grants bucket (map (λ (r : Request). r.now) visits) 3
serve-le-grants_example = Budget.serve-le-grants bucket visits 3 limiter no_metrics refl refl

-- Two of the four visits pass: the third is over the limit of its address, the fourth over the
-- global one.
two_pass : (Budget.serve bucket visits (limiter, no_metrics)).1 ≡ 2
unfolding Budget.serve allow_request check_global check_ip check_method lookup insert text_eq
two_pass = refl

-- A client that calls itself "method:eth_call" has used up the bucket of two that it has made for the
-- method after another two requests.
check_method-check_ip_example :
    is_allowed
      (check_method bucket 1 call (check_ip bucket 0 (method_key call) (limiter, no_metrics)).0).1
    ≡ (bucket.allow 1
        (bucket.allow 0
          (Clash.asked bucket (method_key call) (bucket.new_limiter (pos 2) (pos 2)) limiter)).0).1
unfolding lookup text_eq
check_method-check_ip_example =
    Clash.check_method-check_ip bucket 0 1 call (pos 1) limiter no_metrics refl refl refl
