-- ===== src/Eth/Submit.antt =====
-- `SendRawTransaction` and `PendingTransactions` of pkg/api/eth/txpool.go.
pub mod Pending
pub mod Sent
pub mod Checks
use mathlib.Core.Option.{get_or}
use evm_rpc.Prelude.{
  ℕ, Bool, true, false, not, Option, none, some, Text, text, List, ◌++◌, map, ltb, ◌==◌, ◌%◌,
  if◌then◌else◌,
}
use evm_rpc.Prelude.Int.{ℤ, pos, ◌+ℤ◌, ◌*ℤ◌, ltbℤ, two64, to_int64}
use evm_rpc.Strconv.Print.{format_uint, format_int}
use evm_rpc.Api.Error.{
  GoError, rpc, new_rpc_error, Result, ok, err, panic, ◌>>=◌, map_err, rpc_about,
  err_code_invalid_input, err_code_internal, err_code_transaction_reject,
}
use evm_rpc.Api.RpcTypes.{RpcTransaction, new_rpc_pending_transaction}
use evm_rpc.Storage.Accounts
use evm_rpc.Storage.Accounts.{AccountState}
use evm_rpc.Storage.TxPool.{
  Redis, TxLib, and_then, price_or_cap, add_pending_tx, get_pending_transactions,
}

-- `if condition { return rpc error }`.
abbrev pub reject_if : Bool → ℤ → Text → Result (Unit {0})
reject_if true code msg = err (rpc (new_rpc_error code msg))
reject_if false code msg = ok tt

module _ (redis : Redis) (txs : TxLib) (decode_account : List ℕ → Result AccountState)
    (chain_id : ℕ) where
  open redis use {Db}
  open txs use {Transaction}

  -- The check of the chain's id, where the transaction has one.
  abbrev check_chain : Option ℕ → Result (Unit {0})
  check_chain none = ok tt
  check_chain (some id) = reject_if (not (id % two64 == chain_id)) err_code_invalid_input (
      text "invalid chain id: got "
      ++ (format_uint (id % two64) 10 ++ (text ", expected " ++ format_uint chain_id 10)))

  -- The price that the cost is computed with; a nil is zero.
  abbrev price_of : Transaction → ℕ
  price_of tx = get_or (price_or_cap (txs.gas_price tx) (txs.gas_fee_cap tx)) 0

  -- `totalCost`: the gas goes through an int64.
  abbrev total_cost : Transaction → ℤ
  total_cost tx = pos (txs.value tx) +ℤ (pos (price_of tx) *ℤ to_int64 (txs.gas tx))

  -- The checks in order, up to the pool.
  unfoldable pub check_transaction : Db → Transaction → Result (Unit {0})
  check_transaction db tx = do
    from ← map_err (rpc_about err_code_invalid_input (text "invalid signature")) (txs.sender tx)
    _ ← check_chain (txs.chain_id tx)
    current_nonce ←
        map_err (rpc_about err_code_internal (text "failed to get nonce"))
          (Accounts.get_nonce decode_account (redis.get db) from (text "latest"))
    _ ← reject_if (ltb (txs.nonce tx) current_nonce) err_code_transaction_reject (
        text "nonce too low: got "
        ++ (format_uint (txs.nonce tx) 10
            ++ (text ", expected >= " ++ format_uint current_nonce 10)))
    balance ←
        map_err (rpc_about err_code_internal (text "failed to get balance"))
          (Accounts.get_balance decode_account (redis.get db) from (text "latest"))
    _ ← reject_if (ltbℤ (pos balance) (total_cost tx)) err_code_transaction_reject (
        text "insufficient funds: balance="
        ++ (format_uint balance 10 ++ (text ", required=" ++ format_int (total_cost tx))))
    reject_if (ltb (txs.gas tx) 21000) err_code_invalid_input
        (text "gas limit too low: got " ++ (format_uint (txs.gas tx) 10 ++ text ", minimum 21000"))

  abbrev map_snd : {A B : Type 0} → (Result A → Result B) → Db × Result A → Db × Result B
  map_snd f (db, r) = (db, f r)

  -- `SendRawTransaction`: the hash of the transaction that was added to the pool.
  unfoldable pub send_raw_transaction : List ℕ → Db → Db × Result (List ℕ)
  send_raw_transaction input db =
      and_then
        (
          db,
          map_err (rpc_about err_code_invalid_input (text "invalid transaction"))
              (txs.decode input),
        )
        (λ tx db.
          and_then (db, check_transaction db tx)
            (λ _ db.
              and_then
                (map_snd (map_err (rpc_about err_code_internal (text "failed to add transaction")))
                  (add_pending_tx redis txs tx db))
                (λ _ db. (db, ok (txs.hash tx)))))

  -- `PendingTransactions`: the dearest first.
  unfoldable pub pending_transactions : Db → Result (List RpcTransaction)
  unfolding new_rpc_pending_transaction
  pending_transactions db =
      map_err (rpc_about err_code_internal (text "failed to get pending transactions"))
        (get_pending_transactions redis txs db)
      >>= λ pending. ok (map (λ tx. new_rpc_pending_transaction (txs.geth tx)) pending)
