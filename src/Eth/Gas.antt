-- ===== src/Eth/Gas.antt =====
-- `GasAPI` of pkg/api/eth/gas.go. Prices and ratios are constants; a ratio is in per cent.
pub mod Window
use evm_rpc.Prelude.{
  ℕ, suc, ◌+◌, ◌-◌, ◌%◌, Bool, true, false, Option, none, some, Text, text, List, [], ◌∷◌, length,
  replicate, leb, ltb, ◌==◌, if◌then◌else◌,
}
use evm_rpc.Prelude.Int.{ℤ, two64, to_int64, eqℤ}
use evm_rpc.Api.Error.{
  GoError, rpc, new_rpc_error, Result, ok, err, panic, ◌>>=◌, map_err, rpc_about,
  err_code_invalid_params, err_code_internal,
}
use evm_rpc.Api.BlockNumber.{
  parse_block_number, block_to_uint64, latest_block_number, pending_block_number,
  earliest_block_number,
}
use evm_rpc.Storage.Pika.{Db}
use evm_rpc.Storage.Blocks.{get_latest_block_number}

-- `FeeHistoryResult`; the oldest block is a `big.Int`.
pub record FeeHistoryResult : Type 0 where
  pub oldest_block : ℤ
  pub reward : List (List ℕ)
  pub base_fee_per_gas : List ℕ
  pub gas_used_ratio : List ℕ

abbrev pub gas_price : ℕ
gas_price = 5000000000

abbrev pub max_priority_fee_per_gas : ℕ
max_priority_fee_per_gas = 1000000000

-- The last block of the history.
unfoldable pub resolve_end_block : Db → ℤ → Result ℕ
resolve_end_block db bn =
    if eqℤ bn latest_block_number
    then map_err (rpc_about err_code_internal (text "failed to get latest block"))
        (get_latest_block_number db)
    else if eqℤ bn pending_block_number
    then map_err (rpc_about err_code_internal (text "failed to get latest block"))
        (get_latest_block_number db)
    else if eqℤ bn earliest_block_number
    then ok 0
    else map_err (rpc_about err_code_invalid_params (text "invalid block number"))
        (block_to_uint64 bn)

-- The result for `count` blocks from `start_block` on.
abbrev fee_result : ℕ → ℕ → ℕ → FeeHistoryResult
fee_result start_block count percentiles = record {
  oldest_block = to_int64 start_block;
  reward =
      if ltb 0 percentiles
      then replicate count (replicate percentiles max_priority_fee_per_gas)
      else [];
  base_fee_per_gas = replicate (suc count) gas_price;
  gas_used_ratio = replicate count 50;
}

-- The window of `count` blocks that ends at `end_block`, on uint64s.
unfoldable pub window_of : ℕ → ℕ → ℕ → Result FeeHistoryResult
window_of end_block count percentiles =
    if ltb 1024 count
    then err (rpc (new_rpc_error err_code_invalid_params (text "block count too large (max 1024)")))
    else if leb (count - 1) end_block
    then ok (fee_result ((end_block + (two64 - count) + 1) % two64) count percentiles)
    else ok (fee_result 0 ((end_block + 1) % two64) percentiles)

-- A count of zero is one.
unfoldable pub fee_window : ℕ → ℕ → ℕ → Result FeeHistoryResult
fee_window end_block block_count percentiles =
    window_of end_block (if block_count == 0 then 1 else block_count) percentiles

-- `FeeHistory`, with the number of percentiles that are asked for.
unfoldable pub fee_history : Db → ℕ → Text → ℕ → Result FeeHistoryResult
fee_history db block_count last_block percentiles = do
  bn ←
      map_err (rpc_about err_code_invalid_params (text "invalid block number"))
        (parse_block_number last_block)
  end_block ← resolve_end_block db bn
  fee_window end_block block_count percentiles

-- `EstimateGas` on the call's data, none where there is no such member.
unfoldable pub estimate_gas : Option (List ℕ) → ℕ
estimate_gas none = 21000
estimate_gas (some []) = 21000
estimate_gas (some (_ ∷ _)) = 50000
