-- ===== src/Server/Notify.antt =====
-- The notifications of pkg/server/subscription.go: which subscriber is told what, through the
-- connections' channels. A Go map is walked in an order of its own; here it is that of the list.
pub mod Delivery
pub mod Order
use evm_rpc.Prelude.{
  ℕ, ◌%◌, Bool, true, false, ◌&&◌, Option, none, some, Text, text, text_eq, List, [], ◌∷◌, ◌++◌,
  map, Map, ◌==◌, if◌then◌else◌,
}
use evm_rpc.Prelude.Int.{two64}
use evm_rpc.Strconv.Print.{format_uint, format_bytes}
use evm_rpc.Metrics.{record_notification}
use evm_rpc.Server.Json.{Json, string, array, object, Members, end, member, from_list}
use evm_rpc.Server.Connection.{Connection, send}
use evm_rpc.Server.Subscription.{
  FilterCriteria, Subscription, Manager, new_heads, logs, new_pending_transactions,
}
use evm_rpc.Server.Subscription.Filter.{Log, match_log_filter}

-- The fields of `types.Header` that a notification shows; `number` is a `big.Int`.
pub record Head : Type 0 where
  pub number : ℕ
  pub hash : Text
  pub parent_hash : Text
  pub time : ℕ
  pub gas_used : ℕ
  pub gas_limit : ℕ

-- `fmt.Sprintf("0x%x", n)`, and of bytes; a hash's `Hex()` is the latter.
abbrev pub hex_number : ℕ → Json
hex_number n = string (text "0x" ++ format_uint n 16)

abbrev pub hex_bytes : List ℕ → Json
hex_bytes b = string (text "0x" ++ format_bytes b)

abbrev pub notification : Text → Json → Json
notification id result =
    object (member (text "subscription") (string id) (member (text "result") result end))

unfoldable pub head_result : Head → Json
unfolding format_uint format_bytes
head_result h = object (
    member (text "number") (hex_number (h.number % two64)) (
      member (text "hash") (hex_bytes h.hash) (
        member (text "parentHash") (hex_bytes h.parent_hash) (
          member (text "timestamp") (hex_number h.time) (
            member (text "gasUsed") (hex_number h.gas_used)
              (member (text "gasLimit") (hex_number h.gas_limit) end))))))

-- `Address.Hex()` of go-ethereum is a parameter.
unfoldable pub log_result : (Text → Text) → Log → Json
unfolding format_uint format_bytes
log_result address_hex l = object (
    member (text "address") (string (address_hex l.address)) (
      member (text "topics") (array (from_list (map hex_bytes l.topics))) (
        member (text "data") (hex_bytes l.data_bytes) (
          member (text "blockNumber") (hex_number l.block_number) (
            member (text "transactionHash") (hex_bytes l.tx_hash) (
              member (text "transactionIndex") (hex_number l.tx_index) (
                member (text "blockHash") (hex_bytes l.block_hash)
                  (member (text "logIndex") (hex_number l.index) end))))))))

-- The message of `SendNotification`.
abbrev pub subscription_message : Json → Json
subscription_message params = object (
    member (text "jsonrpc") (string (text "2.0")) (
      member (text "method") (string (text "eth_subscription"))
        (member (text "params") params end)))

-- The subscription manager and the connections that its subscriptions point to. Messages are of
-- some type, with notifications among them.
pub record Hub {ℓ} (M : Type ℓ) : Type ℓ where
  pub manager : Manager
  pub conns : ℕ → Connection M

module _ {ℓ} {M : Type ℓ} (message : Json → M) where
  abbrev pub update : (ℕ → Connection M) → ℕ → Connection M → ℕ → Connection M
  update f c v d = if c == d then v else f d

  -- `sub.conn.SendNotification`, which returns no error, and the count of notifications.
  unfoldable pub notify : Text → Json → Subscription → Hub M → Hub M
  notify sub_type result sub hub = record {
    manager = record hub.manager { metrics = record_notification sub_type hub.manager.metrics };
    conns =
        update hub.conns sub.conn
          (send (message (subscription_message (notification sub.id result))) (hub.conns sub.conn));
  }

  -- A loop over the subscriptions; those that are not wanted are passed over.
  unfoldable pub notify_each :
      (Subscription → Bool) → Text → Json → Map Text Subscription → Hub M → Hub M
  notify_each wanted sub_type result [] hub = hub
  notify_each wanted sub_type result ((_, sub) ∷ subs) hub =
      notify_each wanted sub_type result subs
        (if wanted sub then notify sub_type result sub hub else hub)

  unfoldable pub notify_new_heads : Head → Hub M → Hub M
  notify_new_heads head hub =
      notify_each (λ sub. text_eq sub.sub_type new_heads) new_heads (head_result head)
        hub.manager.subscriptions hub

  abbrev filter_passes : Log → Option FilterCriteria → Bool
  filter_passes log none = true
  filter_passes log (some filter) = match_log_filter log filter

  abbrev pub wants_log : Log → Subscription → Bool
  wants_log log sub = if text_eq sub.sub_type logs then filter_passes log sub.filter else false

  unfoldable pub notify_log : (Text → Text) → Log → Hub M → Hub M
  notify_log address_hex log hub =
      notify_each (wants_log log) logs (log_result address_hex log) hub.manager.subscriptions hub

  -- The logs of a block's receipts, in order; without receipts nobody is told.
  unfoldable pub notify_receipt : (Text → Text) → List Log → Hub M → Hub M
  notify_receipt address_hex [] hub = hub
  notify_receipt address_hex (l ∷ ls) hub =
      notify_receipt address_hex ls (notify_log address_hex l hub)

  unfoldable pub notify_receipts : (Text → Text) → List (List Log) → Hub M → Hub M
  notify_receipts address_hex [] hub = hub
  notify_receipts address_hex (r ∷ rs) hub =
      notify_receipts address_hex rs (notify_receipt address_hex r hub)

  unfoldable pub notify_logs : (Text → Text) → Option (List (List Log)) → Hub M → Hub M
  notify_logs address_hex none hub = hub
  notify_logs address_hex (some receipts) hub = notify_receipts address_hex receipts hub

  unfoldable pub notify_new_pending_transaction : Text → Hub M → Hub M
  unfolding format_bytes
  notify_new_pending_transaction tx_hash hub =
      notify_each (λ sub. text_eq sub.sub_type new_pending_transactions) new_pending_transactions
        (hex_bytes tx_hash) hub.manager.subscriptions hub
