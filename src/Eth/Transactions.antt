-- ===== src/Eth/Transactions.antt =====
-- `TransactionAPI` of pkg/api/eth/transaction.go. Its `GetTransactionCount` is a stub.
pub mod Agree
use evm_rpc.Prelude.{ℕ, Option, none, some, Text, text, List}
use evm_rpc.Api.Error.{
  rpc, new_rpc_error, not_found, Result, ok, err, panic, ◌>>=◌, map_err, rpc_about,
  err_code_internal, err_code_method_not_supported,
}
use evm_rpc.Api.RpcTypes.{
  GethTransaction, RpcTransaction, new_rpc_transaction, new_rpc_pending_transaction, GethReceipt,
  RpcReceipt, new_rpc_receipt,
}
use evm_rpc.Storage.Pika.{Db, Codec}
use evm_rpc.Storage.Blocks
use evm_rpc.Storage.Transactions.{
  TxLookup, read_transaction, read_transaction_lookup, read_receipt,
  read_transaction_by_block_number_and_index, read_transaction_by_block_hash_and_index,
}
use evm_rpc.Eth.Blocks.{numbered}

-- `tx_of`, `receipt_of` and `header_hash` are what go-ethereum's values hold; `hex_to_hash` is
-- `common.HexToHash`.
module _ (codec : Codec) (decode_lookup : List ℕ → Result TxLookup) {Log : Type 0}
    (tx_of : codec.Transaction → GethTransaction) (receipt_of : codec.Receipt → GethReceipt Log)
    (header_hash : codec.Header → List ℕ) (hex_to_hash : Text → List ℕ) where
  -- A transaction without a lookup record is pending.
  abbrev placed : codec.Transaction → Result TxLookup → Result (Option RpcTransaction)
  placed tx (ok l) =
      ok (some (new_rpc_transaction (tx_of tx) (hex_to_hash l.block_hash) l.block_number l.index))
  placed tx (err not_found) = ok (some (new_rpc_pending_transaction (tx_of tx)))
  placed tx (err e) = err (rpc_about err_code_internal (text "failed to get transaction lookup") e)
  placed tx panic = panic

  abbrev if_transaction :
      Result (codec.Transaction)
      → (codec.Transaction → Result (Option RpcTransaction))
      → Result (Option RpcTransaction)
  if_transaction (ok tx) next = next tx
  if_transaction (err not_found) next = ok none
  if_transaction (err e) next =
      err (rpc_about err_code_internal (text "failed to get transaction") e)
  if_transaction panic next = panic

  unfoldable pub get_transaction_by_hash : Db → List ℕ → Result (Option RpcTransaction)
  get_transaction_by_hash db tx_hash =
      if_transaction (read_transaction codec decode_lookup db tx_hash)
        (λ tx. placed tx (read_transaction_lookup codec decode_lookup db tx_hash))

  unfoldable pub get_transaction_by_block_hash_and_index :
      Db → List ℕ → ℕ → Result (Option RpcTransaction)
  get_transaction_by_block_hash_and_index db block_hash index =
      if_transaction
        (read_transaction_by_block_hash_and_index codec decode_lookup db block_hash index)
        (λ tx.
          map_err (rpc_about err_code_internal (text "failed to get block number"))
            (Blocks.get_block_number_by_hash db block_hash)
          >>= λ number. ok (some (new_rpc_transaction (tx_of tx) block_hash number index)))

  unfoldable pub get_transaction_by_block_number_and_index :
      Db → Text → ℕ → Result (Option RpcTransaction)
  get_transaction_by_block_number_and_index db block_nr index = do
    number ← numbered db block_nr
    if_transaction (read_transaction_by_block_number_and_index codec decode_lookup db number index)
        (λ tx.
          map_err (rpc_about err_code_internal (text "failed to get block header"))
            (Blocks.get_header codec db number)
          >>= λ header.
              ok (some (new_rpc_transaction (tx_of tx) (header_hash header) number index)))

  abbrev if_receipt :
      Result (codec.Receipt × TxLookup)
      → (codec.Receipt × TxLookup → Result (Option (RpcReceipt Log)))
      → Result (Option (RpcReceipt Log))
  if_receipt (ok r) next = next r
  if_receipt (err not_found) next = ok none
  if_receipt (err e) next = err (rpc_about err_code_internal (text "failed to get receipt") e)
  if_receipt panic next = panic

  unfoldable pub get_transaction_receipt : Db → List ℕ → Result (Option (RpcReceipt Log))
  get_transaction_receipt db tx_hash =
      if_receipt (read_receipt codec decode_lookup db tx_hash) (λ (receipt, l).
        map_err (rpc_about err_code_internal (text "failed to get transaction"))
          (read_transaction codec decode_lookup db tx_hash)
        >>= λ tx. ok (
            some (
              new_rpc_receipt (receipt_of receipt) (tx_of tx) (hex_to_hash l.block_hash)
                l.block_number l.index)))

-- `GetTransactionCount`, which replaces the state API's in the method table.
abbrev pub transaction_count_stub : Result ℕ
transaction_count_stub =
    err
      (rpc (new_rpc_error err_code_method_not_supported (text "use StateAPI.GetTransactionCount")))
