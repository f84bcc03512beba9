-- ===== src/Tests/Stacked.antt =====
-- A request for the health report behind an empty bucket, with CORS that hides what it wraps.
use evm_rpc.Prelude.{refl, none, some, text, List, [], ◌∷◌}
use evm_rpc.Metrics.{no_metrics}
use evm_rpc.Api.Error.{ok}
use evm_rpc.Middleware.RateLimit.{allow_connection}
use evm_rpc.Middleware.Logging.{Call, header}
use evm_rpc.Server.Handler.{State}
use evm_rpc.Server.Http.{extract_ip, aborted}
use evm_rpc.Server.Http.Stack.{Incoming, Moment, Handler, Encoders, serve_http}
use evm_rpc.Server.Http.Stack.Logged
use evm_rpc.Tests.Instances.{bucket, counter, limiter, start, tick}
use evm_rpc.Tests.Handling.{table}

abbrev get_health : Incoming
get_health = record {
  method = text "GET";
  path = text "/health";
  request = record {
    forwarded_for = [];
    real_ip = text "10.0.0.1";
    remote_addr = text "192.168.0.1:5000";
    body = none;
  };
}

abbrev noon : Moment
noon = record {
  start = 100;
  limited_at = 110;
  clock = λ i. tick;
  health_at = 120;
  latest = ok 7;
  block_time = λ n. ok 1;
  end = 180;
}

abbrev brackets : Encoders bucket counter
brackets = record { response = λ r. text "{}"; batch = λ rs. text "[]"; health = λ h. text "{}" }

abbrev hides : Handler bucket counter → Handler bucket counter
hides next r s = (s, aborted)

abbrev not_found_page : Incoming → List Call
not_found_page r = header 404 ∷ []

-- The global bucket is empty.
abbrev drained : State bucket counter
drained = record start { limiter = some (record limiter { global = some 0 }) }

serve_http-Follows_example :
    Logged.Follows bucket counter 50 brackets not_found_page table
      (some hides)
      noon
      get_health
      drained
      (allow_connection bucket 110
        (extract_ip get_health.request)
        (record limiter { global = some 0 }, no_metrics))
      (serve_http bucket counter
        (some 50)
        brackets
        not_found_page
        table
        (some hides)
        noon
        get_health
        drained)
serve_http-Follows_example =
    Logged.serve_http-Follows bucket counter 50 brackets not_found_page table (some hides) noon
      get_health drained (record limiter { global = some 0 }) refl
