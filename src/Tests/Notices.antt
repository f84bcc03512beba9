-- ===== src/Tests/Notices.antt =====
-- Two subscribers of one connection, and a log.
use evm_rpc.Prelude.{
  ◌≡◌, ◌↔◌, refl, Bool, true, none, some, Text, text, text_eq, [], ◌∷◌, ◌++◌, map, Map, select,
  arith,
}
use mathlib.Core.List.{Perm}
use mathlib.Core.List.Perm
use evm_rpc.Metrics.{no_metrics}
use evm_rpc.Server.Json.{Json}
use evm_rpc.Server.Connection.{new_connection}
use evm_rpc.Server.Subscription.{FilterCriteria, Subscription, new_manager, new_heads, logs}
use evm_rpc.Server.Subscription.Filter
use evm_rpc.Server.Subscription.Filter.{Log, Fits, match_log_filter}
use evm_rpc.Server.Notify.{Hub, Head, head_result, notify_new_heads}
use evm_rpc.Server.Notify.Delivery
use evm_rpc.Server.Notify.Order
use evm_rpc.Server.Notify.Delivery.{told, is_wanted_at, send_all}

abbrev transfer : Log
transfer = record {
  address = text "token";
  topics = text "Transfer" ∷ text "alice" ∷ [];
  data_bytes = [];
  block_number = 3;
  tx_hash = text "tx";
  tx_index = 0;
  block_hash = text "block";
  index = 0;
}

abbrev transfers : FilterCriteria
transfers = record {
  addresses = text "token" ∷ [];
  topics = [] ∷ (text "bob" ∷ text "alice" ∷ []) ∷ [];
}

match_log_filter_iff_example :
    (match_log_filter transfer transfers ≡ true) ↔ Fits transfer transfers
match_log_filter_iff_example = Filter.match_log_filter_iff transfer transfers

abbrev heads_of_one : Subscription
heads_of_one = record { id = text "0x01"; sub_type = new_heads; filter = none; conn = 1 }

abbrev logs_of_one : Subscription
logs_of_one = record { id = text "0x02"; sub_type = logs; filter = some transfers; conn = 1 }

abbrev both : Map Text Subscription
both = (text "0x01", heads_of_one) ∷ (text "0x02", logs_of_one) ∷ []

abbrev hub : Hub Json
hub = record {
  manager = record (new_manager no_metrics) { subscriptions = both };
  conns = λ c. new_connection (text "10.0.0.1");
}

abbrev block : Head
block = record {
  number = 3;
  hash = text "block";
  parent_hash = text "parent";
  time = 1;
  gas_used = 21000;
  gas_limit = 30000000;
}

abbrev is_new_heads : Subscription → Bool
is_new_heads sub = text_eq sub.sub_type new_heads

notify_new_heads_delivers_example :
    ((notify_new_heads (λ m. m) block hub).conns 1).send_chan
    ≡ (hub.conns 1).send_chan
      ++ map
          (told (λ m. m) (head_result block))
          (select (is_wanted_at (λ m. m) is_new_heads 1) both)
unfolding text_eq new_connection
notify_new_heads_delivers_example =
    Delivery.notify_new_heads_delivers (λ m. m) block hub 1 refl (omega arith)

-- The other order of the map: the messages to the connection are the same two.
abbrev other_way : Map Text Subscription
other_way = (text "0x02", logs_of_one) ∷ (text "0x01", heads_of_one) ∷ []

abbrev any_sub : Subscription → Bool
any_sub sub = true
