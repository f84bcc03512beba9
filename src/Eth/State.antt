-- ===== src/Eth/State.antt =====
-- `StateAPI` of pkg/api/eth/state.go.
pub mod Laws
use evm_rpc.Prelude.{
  ℕ, ◌-◌, Bool, true, false, Text, text, List, [], ◌++◌, replicate, length, leb, if◌then◌else◌,
}
use evm_rpc.Prelude.Int.{ℤ, pos, negsuc, eqℤ}
use evm_rpc.Strconv.Print.{format_uint}
use evm_rpc.Api.Error.{
  GoError, Result, ok, err, panic, ◌>>=◌, map_err, rpc_about, err_code_invalid_params,
  err_code_internal,
}
use evm_rpc.Api.BlockNumber.{
  parse_block_number, block_to_uint64, latest_block_number, pending_block_number,
  earliest_block_number,
}
use evm_rpc.Storage.Pika.{Db}
use evm_rpc.Storage.Accounts
use evm_rpc.Storage.Accounts.{AccountState}

-- The part of the store that a block number stands for.
unfoldable pub resolve_state_block : ℤ → Result Text
resolve_state_block bn =
    if eqℤ bn latest_block_number
    then ok (text "latest")
    else if eqℤ bn pending_block_number
    then ok (text "pending")
    else if eqℤ bn earliest_block_number
    then ok (text "0")
    else block_to_uint64 bn >>= λ num. ok (format_uint num 10)

-- What each method does first with its block parameter.
unfoldable pub state_block : Text → Result Text
state_block block_nr =
    map_err (rpc_about err_code_invalid_params (text "invalid block number"))
      (parse_block_number block_nr)
    >>= resolve_state_block

-- `make([]byte, 32)` and `copy(result[32-len(value):], value)`.
unfoldable pub pad_32 : List ℕ → Result (List ℕ)
pad_32 value =
    if leb (length value) 32 then ok (replicate (32 - length value) 0 ++ value) else panic

module _ (decode_account : List ℕ → Result AccountState) where
  unfoldable pub state_get_balance : Db → Text → Text → Result ℕ
  state_get_balance db address block_nr = do
    block_num_str ← state_block block_nr
    map_err (rpc_about err_code_internal (text "failed to get balance"))
        (Accounts.get_balance decode_account db address block_num_str)

  unfoldable pub state_get_code : Db → Text → Text → Result (List ℕ)
  state_get_code db address block_nr = do
    block_num_str ← state_block block_nr
    map_err (rpc_about err_code_internal (text "failed to get code"))
        (Accounts.get_code decode_account db address block_num_str)

  unfoldable pub state_get_transaction_count : Db → Text → Text → Result ℕ
  state_get_transaction_count db address block_nr = do
    block_num_str ← state_block block_nr
    map_err (rpc_about err_code_internal (text "failed to get nonce"))
        (Accounts.get_nonce decode_account db address block_num_str)

unfoldable pub state_get_storage_at : Db → Text → List ℕ → Text → Result (List ℕ)
state_get_storage_at db address key block_nr = do
  block_num_str ← state_block block_nr
  value ←
      map_err (rpc_about err_code_internal (text "failed to get storage"))
        (Accounts.get_storage_at db address key block_num_str)
  pad_32 value
