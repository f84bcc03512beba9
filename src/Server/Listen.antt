-- ===== src/Server/Listen.antt =====
-- The loops `listenNewBlocks` and `listenNewPendingTransactions` of pkg/server/subscription.go. What
-- the store's publish/subscribe channel delivers is a list of rounds.
pub mod Stopping
use evm_rpc.Prelude.{ℕ, ◌%◌, Bool, true, false, Option, none, some, Text, List, [], ◌∷◌, map}
use evm_rpc.Prelude.Int.{two64}
use evm_rpc.Api.Error.{Result, ok, err, panic}
use evm_rpc.Storage.Pika.{Db, Codec}
use evm_rpc.Storage.Blocks.{get_block_by_hash, get_receipts}
use evm_rpc.Server.Json.{Json}
use evm_rpc.Server.Subscription.Filter.{Log}
use evm_rpc.Server.Notify.{Hub, Head, notify_new_heads, notify_logs, notify_new_pending_transaction}

-- What a round of a loop meets: the context is done at the `select`; a message comes, with the store
-- as it is then; `ReceiveMessage` fails, and the context is done or not. Between rounds other
-- goroutines change the subscriptions and the connections.
pub data Round {ℓ} (M : Type ℓ) : Type ℓ where
  done : Round M
  payload : Db → Text → Round M
  failed : (ctx_done : Bool) → Round M
  others : (Hub M → Hub M) → Round M

-- Where a loop is after some rounds.
pub data Outcome {ℓ} (M : Type ℓ) : Type ℓ where
  running : Hub M → Outcome M
  returned : Hub M → Outcome M
  crashed : Outcome M

module _ {ℓ} {M : Type ℓ} where
  abbrev pub after : Option (Hub M) → (Hub M → Outcome M) → Outcome M
  after none rest = crashed
  after (some hub) rest = rest hub

  -- The loop, with what it does about a message; none is a panic.
  unfoldable pub listen : (Db → Text → Hub M → Option (Hub M)) → List (Round M) → Hub M → Outcome M
  listen on_message [] hub = running hub
  listen on_message (done ∷ rs) hub = returned hub
  listen on_message (payload db text ∷ rs) hub =
      after (on_message db text hub) (listen on_message rs)
  listen on_message (failed true ∷ rs) hub = returned hub
  listen on_message (failed false ∷ rs) hub = listen on_message rs hub
  listen on_message (others change ∷ rs) hub = listen on_message rs (change hub)

-- `common.HexToHash`, `Address.Hex`, and what the loops read of go-ethereum's headers and receipts.
pub record ChainLib (codec : Codec) : Type 0 where
  pub hex_to_hash : Text → List ℕ
  pub address_hex : Text → Text
  pub head : codec.Header → Head
  pub receipt_logs : codec.Receipt → List Log

module _ {ℓ} {M : Type ℓ} (message : Json → M) (codec : Codec) (lib : ChainLib codec) where
  open codec use {Header, Transaction, Receipt}

  -- `notifyLogs`: without receipts nobody is told.
  abbrev pub tell_logs : Result (List Receipt) → Hub M → Option (Hub M)
  tell_logs (ok receipts) hub =
      some (notify_logs message lib.address_hex (some (map lib.receipt_logs receipts)) hub)
  tell_logs (err _) hub = some (notify_logs message lib.address_hex none hub)
  tell_logs panic hub = none

  -- The head of the block, then its logs; a block that cannot be read is passed over.
  abbrev pub tell_block : Db → Result (Header × List Transaction) → Hub M → Option (Hub M)
  tell_block db (ok (header, _)) hub =
      let head = lib.head header in
      tell_logs (get_receipts codec db (head.number % two64)) (notify_new_heads message head hub)
  tell_block db (err _) hub = some hub
  tell_block db panic hub = none

  abbrev pub on_block : Db → Text → Hub M → Option (Hub M)
  on_block db text = tell_block db (get_block_by_hash codec db (lib.hex_to_hash text))

  unfoldable pub listen_new_blocks : List (Round M) → Hub M → Outcome M
  listen_new_blocks = listen on_block

  abbrev pub on_transaction : Db → Text → Hub M → Option (Hub M)
  on_transaction db text hub =
      some (notify_new_pending_transaction message (lib.hex_to_hash text) hub)

  unfoldable pub listen_new_pending_transactions : List (Round M) → Hub M → Outcome M
  listen_new_pending_transactions = listen on_transaction
