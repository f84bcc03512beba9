-- ===== src/Tests/Subscriptions.antt =====
-- Subscriptions of two connections.
use evm_rpc.Prelude.{◌≡◌, refl, none, text, text_eq, nat_eq, text_key, lookup, insert}
use evm_rpc.Metrics.{no_metrics}
use evm_rpc.Server.Subscription.{Manager, new_manager, new_heads, logs, subscribe}
use evm_rpc.Server.Subscription.Invariant
use evm_rpc.Server.Subscription.Invariant.{IsCoherent}

abbrev empty : Manager
empty = new_manager no_metrics

one : Manager
unfolding subscribe
one = (subscribe (text "0x01") 1 new_heads none empty).0

one-IsCoherent : IsCoherent one
unfolding one lookup
one-IsCoherent =
    Invariant.subscribe-IsCoherent (text "0x01") 1 new_heads none empty refl
      (Invariant.new_manager-IsCoherent no_metrics)

fresh : lookup (text "0x02") one.subscriptions ≡ none
unfolding one lookup insert text_eq
fresh = refl

two-IsCoherent : IsCoherent (subscribe (text "0x02") 2 logs none one).0
two-IsCoherent = Invariant.subscribe-IsCoherent (text "0x02") 2 logs none one fresh one-IsCoherent
