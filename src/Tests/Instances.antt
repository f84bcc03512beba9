-- ===== src/Tests/Instances.antt =====
-- Concrete stand-ins for what the service does not implement.
use evm_rpc.Prelude.{ℕ, zero, suc, Bool, true, false, none, some, text, [], ◌∷◌}
use evm_rpc.Prelude.Int.{pos, pos_part}
use evm_rpc.Metrics.{no_metrics}
use evm_rpc.Middleware.RateLimit.{RateLib, RateLimiter}
use evm_rpc.Server.Methods.{Program, invalid, GoType, returned, Method}
use evm_rpc.Server.Handler.{Tick, State}

abbrev take_token : ℕ → ℕ × Bool
take_token zero = (0, false)
take_token (suc n) = (n, true)

-- A bucket that starts with its burst and is not refilled.
abbrev pub bucket : RateLib
bucket = record {
  Limiter = ℕ;
  new_limiter = λ r burst. pos_part burst;
  allow = λ now n. take_token n;
}

-- An address may send two requests, and all together three.
abbrev pub limiter : RateLimiter bucket
limiter = record {
  global = some 3;
  ip_limiters = [];
  method_limits = (text "eth_call", pos 1) ∷ [];
  ip_rate = pos 2;
  ip_burst = pos 2;
  enabled = true;
}

-- Numbers as values, and a counter as the services' state.
abbrev pub counter : Program
counter = record { Value = ℕ; World = ℕ }

abbrev pub plain_type : GoType counter
plain_type = record {
  is_context = false;
  implements_error = false;
  is_nillable = false;
  zero = 0;
  unmarshal = λ raw. invalid (text "no number");
}

abbrev pub bump_method : Method counter
bump_method = record {
  name = text "Bump";
  inputs = plain_type ∷ record plain_type { is_context = true } ∷ [];
  outputs = plain_type ∷ record plain_type { implements_error = true; is_nillable = true } ∷ [];
  func = λ args w. (returned w false none, suc w);
}

abbrev pub start : State bucket counter
start = record { limiter = some limiter; metrics = no_metrics; world = 7 }

abbrev pub open_start : State bucket counter
open_start = record { limiter = none; metrics = no_metrics; world = 7 }

abbrev pub tick : Tick
tick = record { now = 0; duration = 1 }
