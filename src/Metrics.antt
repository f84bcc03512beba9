-- ===== src/Metrics.antt =====
-- pkg/metrics/rpc_metrics.go: the Prometheus counters and gauges, one field for each, and the
-- functions that record. A vector is a function of its labels; a histogram is the list of what it
-- observed, the newest first.
use evm_rpc.Prelude.{ℕ, suc, Text, text_eq, List, [], ◌∷◌, ◌&&◌, if◌then◌else◌}
use evm_rpc.Prelude.Int.{ℤ, pos, ◌+ℤ◌}

pub record Metrics : Type 0 where
  pub requests_total : Text → Text → ℕ
  pub request_duration : Text → List ℕ
  pub requests_in_flight : Text → ℤ
  pub rate_limit_rejections : Text → ℕ
  pub websocket_connections : ℤ
  pub batch_requests_total : ℕ
  pub batch_request_size : List ℕ
  pub subscriptions_active : Text → ℤ
  pub subscription_notifications : Text → ℕ

abbrev pub no_metrics : Metrics
no_metrics = record {
  requests_total = λ _ _. 0;
  request_duration = λ _. [];
  requests_in_flight = λ _. pos 0;
  rate_limit_rejections = λ _. 0;
  websocket_connections = pos 0;
  batch_requests_total = 0;
  batch_request_size = [];
  subscriptions_active = λ _. pos 0;
  subscription_notifications = λ _. 0;
}

-- `WithLabelValues(label).Inc()`.
abbrev pub inc : (Text → ℕ) → Text → Text → ℕ
inc f label l = if text_eq label l then suc (f l) else f l

-- `WithLabelValues(label).Add(delta)`.
abbrev pub add : (Text → ℤ) → Text → ℤ → Text → ℤ
add f label delta l = if text_eq label l then f l +ℤ delta else f l

unfoldable pub record_request : Text → Text → ℕ → Metrics → Metrics
record_request method status duration m = record m {
  requests_total = λ l s.
      if text_eq method l && text_eq status s
      then suc (m.requests_total l s)
      else m.requests_total l s;
  request_duration =
      λ l. if text_eq method l then duration ∷ m.request_duration l else m.request_duration l;
}

unfoldable pub record_in_flight : Text → ℤ → Metrics → Metrics
record_in_flight method delta m = record m {
  requests_in_flight = add m.requests_in_flight method delta;
}

unfoldable pub record_rate_limit : Text → Metrics → Metrics
record_rate_limit limit_type m = record m {
  rate_limit_rejections = inc m.rate_limit_rejections limit_type;
}

unfoldable pub record_websocket_connection : ℤ → Metrics → Metrics
record_websocket_connection delta m = record m {
  websocket_connections = m.websocket_connections +ℤ delta;
}

unfoldable pub record_batch_request : ℕ → Metrics → Metrics
record_batch_request size m = record m {
  batch_requests_total = suc m.batch_requests_total;
  batch_request_size = size ∷ m.batch_request_size;
}

unfoldable pub record_subscription : Text → ℤ → Metrics → Metrics
record_subscription sub_type delta m = record m {
  subscriptions_active = add m.subscriptions_active sub_type delta;
}

unfoldable pub record_notification : Text → Metrics → Metrics
record_notification sub_type m = record m {
  subscription_notifications = inc m.subscription_notifications sub_type;
}
