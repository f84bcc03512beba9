-- ===== src/Server/Http/Health.antt =====
-- When the health endpoint reports that the node is syncing.
use mathlib.Core.Path.{subst}
use mathlib.Core.Option.{some-injective}
use evm_rpc.Prelude.{ℕ, ◌+◌, ◌*◌, ◌<◌, ◌≡◌, ◌↔◌, refl, true, false, some, arith}
use evm_rpc.Api.Error.{Result, ok, err, panic}
use evm_rpc.Server.Http.{HealthReport, seconds, report_block, report_time, handle_health}

-- The block's age decides: a block from the future is never older than five minutes.
report_time_iff :
    (now t : ℕ) (h : HealthReport)
    → h.syncing ≡ false
    → ((report_time now t h).syncing ≡ true) ↔ ((0 < t) × (t * seconds + 300 * seconds < now))
unfolding report_time
report_time_iff now t h off = ground arith

-- The block that the age is taken from.
abbrev IsOld : ℕ → Result ℕ → Type 0
IsOld now o = (t : ℕ) × (o ≡ ok t) × (0 < t) × (t * seconds + 300 * seconds < now)

report_block_iff :
    (now : ℕ) (o : Result ℕ) (h : HealthReport)
    → h.syncing ≡ false
    → ((report_block now o h).syncing ≡ true) ↔ IsOld now o
report_block_iff now (ok t) h off = (
  λ q. let (some_time, old) = (report_time_iff now t h off).0 q in (t, refl, some_time, old),
  λ (t', e, some_time, old). (report_time_iff now t h off).1 (ground (arith, e)),
)
report_block_iff now (err e) h off = (λ q. cc, λ (t, q, some_time, old). cc)
report_block_iff now panic h off = (λ q. cc, λ (t, q, some_time, old). cc)

-- With a latest block number, the report says syncing exactly if that block can be read, has a time,
-- and is older than five minutes; a time in the future does not.
pub handle_health_syncing :
    (now n : ℕ) (get_block : ℕ → Result ℕ) (h : HealthReport)
    → handle_health now (ok n) get_block ≡ some h
    → (h.syncing ≡ true)
      ↔ ((t : ℕ) × (get_block n ≡ ok t) × (0 < t) × (t * seconds + 300 * seconds < now))
unfolding handle_health
handle_health_syncing now n get_block h e =
    subst (λ (r : HealthReport). (r.syncing ≡ true) ↔ IsOld now (get_block n))
      (some-injective _ _ e) (report_block_iff now (get_block n) _ refl)
