-- ===== src/Server/Subscription.antt =====
-- `SubscriptionManager` of pkg/server/subscription.go: the maps of subscriptions and their changes. A
-- connection is known by its address, a number.
pub mod Filter
pub mod Invariant
use evm_rpc.Prelude.{
  ℕ, Bool, true, false, Option, none, some, Text, text, List, [], ◌∷◌, ◌++◌, Map, nat_eq, text_key,
  lookup, insert, delete, if◌then◌else◌,
}
use mathlib.Core.Option.{get_or}
use evm_rpc.Prelude.Int.{ℤ, pos, negsuc}
use evm_rpc.Strconv.Print.{format_bytes}
use evm_rpc.Api.Error.{GoError, failure, Result, ok, err}
use evm_rpc.Metrics.{Metrics, record_subscription}

abbrev pub new_heads : Text
new_heads = text "newHeads"

abbrev pub logs : Text
logs = text "logs"

abbrev pub new_pending_transactions : Text
new_pending_transactions = text "newPendingTransactions"

-- Addresses and hashes are byte strings.
pub record FilterCriteria : Type 0 where
  pub addresses : List Text
  pub topics : List (List Text)

pub record Subscription : Type 0 where
  pub id : Text
  pub sub_type : Text
  pub filter : Option FilterCriteria
  pub conn : ℕ

-- `cancelled` holds the ids whose `cancelFn` was called, the last one first.
pub record Manager : Type 0 where
  pub subscriptions : Map Text Subscription
  pub connections : Map ℕ (Map Text Subscription)
  pub cancelled : List Text
  pub metrics : Metrics

abbrev pub new_manager : Metrics → Manager
new_manager m = record { subscriptions = []; connections = []; cancelled = []; metrics = m }

-- The subscriptions of a connection; a missing entry reads as an empty map.
abbrev pub subs_of : Manager → ℕ → Map Text Subscription
subs_of sm c = get_or (lookup c sm.connections) []

-- `generateSubscriptionID` on the bytes that `rand.Read` gave.
unfoldable pub generate_subscription_id : List ℕ → Text
unfolding format_bytes
generate_subscription_id b = text "0x" ++ format_bytes b

-- `Subscribe`, with the id that `generateSubscriptionID` drew.
unfoldable pub subscribe : Text → ℕ → Text → Option FilterCriteria → Manager → Manager × Text
subscribe id conn sub_type filter sm =
    let sub : Subscription = record {
      id = id;
      sub_type = sub_type;
      filter = filter;
      conn = conn;
    } in
    (
      record sm {
        subscriptions = insert id sub sm.subscriptions;
        connections = insert conn (insert id sub (subs_of sm conn)) sm.connections;
        metrics = record_subscription sub_type (pos 1) sm.metrics;
      },
      id,
    )

abbrev is_empty {ℓ} : {A : Type ℓ} → List A → Bool
is_empty [] = true
is_empty (_ ∷ _) = false

-- `delete(connSubs, subID)`, and the entry of the connection with it if that was its last.
unfoldable pub remove_from :
    ℕ
    → Text
    → Option (Map Text Subscription)
    → Map ℕ (Map Text Subscription)
    → Map ℕ (Map Text Subscription)
remove_from conn id none connections = connections
remove_from conn id (some subs) connections =
    if is_empty (delete id subs)
    then delete conn connections
    else insert conn (delete id subs) connections

abbrev unsubscribe_found : Text → Option Subscription → Manager → Manager × Result (Unit {0})
unsubscribe_found id none sm = (sm, err (failure (text "subscription not found: " ++ id)))
unsubscribe_found id (some sub) sm = (
  record sm {
    subscriptions = delete id sm.subscriptions;
    connections = remove_from sub.conn id (lookup sub.conn sm.connections) sm.connections;
    cancelled = id ∷ sm.cancelled;
    metrics = record_subscription sub.sub_type (negsuc 0) sm.metrics;
  },
  ok tt,
)

-- `Unsubscribe(subID)`.
unfoldable pub unsubscribe : Text → Manager → Manager × Result (Unit {0})
unsubscribe id sm = unsubscribe_found id (lookup id sm.subscriptions) sm

-- One round of the loop of `UnsubscribeAll`.
abbrev cancel_one : Text → Subscription → Manager → Manager
cancel_one id sub sm = record sm {
  subscriptions = delete id sm.subscriptions;
  cancelled = id ∷ sm.cancelled;
  metrics = record_subscription sub.sub_type (negsuc 0) sm.metrics;
}

-- The loop over the subscriptions of the connection.
unfoldable pub cancel_each : Map Text Subscription → Manager → Manager
cancel_each [] sm = sm
cancel_each ((id, sub) ∷ rest) sm = cancel_each rest (cancel_one id sub sm)

abbrev drop_connection : ℕ → Manager → Manager
drop_connection conn sm = record sm { connections = delete conn sm.connections }

abbrev unsubscribe_each : ℕ → Option (Map Text Subscription) → Manager → Manager
unsubscribe_each conn none sm = sm
unsubscribe_each conn (some subs) sm = drop_connection conn (cancel_each subs sm)

-- `UnsubscribeAll(conn)`.
unfoldable pub unsubscribe_all : ℕ → Manager → Manager
unsubscribe_all conn sm = unsubscribe_each conn (lookup conn sm.connections) sm
