-- ===== src/Eth/Blocks.antt =====
-- `BlockAPI` of pkg/api/eth/block.go. A missing block is a null result, no error; the RPC form of a
-- block is what `new_rpc_block` makes of it.
pub mod Absent
use evm_rpc.Prelude.{ℕ, Bool, Option, none, some, Text, text, List, if◌then◌else◌}
use evm_rpc.Prelude.Int.{ℤ, eqℤ}
use evm_rpc.Api.Error.{
  GoError, Result, ok, ◌>>=◌, map_err, or_absent, rpc_about, err_code_invalid_params,
  err_code_internal,
}
use evm_rpc.Api.BlockNumber.{
  parse_block_number, block_to_uint64, latest_block_number, pending_block_number,
  earliest_block_number,
}
use evm_rpc.Api.RpcTypes.{GethTransaction}
use evm_rpc.Api.RpcTypes.Block.{GethBlock, RpcBlock, new_rpc_block}
use evm_rpc.Storage.Pika.{Db, Codec}
use evm_rpc.Storage.Blocks

-- The number of a block parameter; `pending` is the latest block.
unfoldable pub resolve_block_number : Db → ℤ → Result ℕ
resolve_block_number db bn =
    if eqℤ bn latest_block_number
    then Blocks.get_latest_block_number db
    else if eqℤ bn pending_block_number
    then Blocks.get_latest_block_number db
    else if eqℤ bn earliest_block_number
    then ok 0
    else block_to_uint64 bn

-- What each method does first with its block parameter.
unfoldable pub numbered : Db → Text → Result ℕ
numbered db block_nr =
    map_err (rpc_about err_code_invalid_params (text "invalid block number"))
      (parse_block_number block_nr)
    >>= resolve_block_number db

unfoldable pub block_number : Db → Result ℕ
block_number db = Blocks.get_latest_block_number db

-- `assemble` is `types.NewBlockWithHeader` with a body, as the conversion reads it.
module _ (codec : Codec) (assemble : codec.Header → List (codec.Transaction) → GethBlock) where
  abbrev pub some_block : Bool → codec.Header × List (codec.Transaction) → Option RpcBlock
  some_block full_tx (header, body) = some (new_rpc_block (assemble header body) full_tx none)

  abbrev pub convert :
      Bool → Result (codec.Header × List (codec.Transaction)) → Result (Option RpcBlock)
  convert full_tx r =
      or_absent none (rpc_about err_code_internal (text "failed to get block"))
        (r >>= λ b. ok (some_block full_tx b))

  unfoldable pub get_block_by_number : Db → Text → Bool → Result (Option RpcBlock)
  get_block_by_number db block_nr full_tx = do
    number ← numbered db block_nr
    convert full_tx (Blocks.get_block codec db number)

  unfoldable pub block_api_by_hash : Db → List ℕ → Bool → Result (Option RpcBlock)
  block_api_by_hash db block_hash full_tx =
      convert full_tx (Blocks.get_block_by_hash codec db block_hash)

module _ (codec : Codec) where
  abbrev counted : Result ℕ → Result (Option ℕ)
  counted r =
      or_absent none (rpc_about err_code_internal (text "failed to get transaction count"))
        (r >>= λ n. ok (some n))

  unfoldable pub get_block_transaction_count_by_number : Db → Text → Result (Option ℕ)
  get_block_transaction_count_by_number db block_nr = do
    number ← numbered db block_nr
    counted (Blocks.get_transaction_count codec db number)

  unfoldable pub get_block_transaction_count_by_hash : Db → List ℕ → Result (Option ℕ)
  get_block_transaction_count_by_hash db block_hash =
      counted (Blocks.get_transaction_count_by_hash codec db block_hash)

  abbrev no_uncles : {A : Type 0} → Result A → Result ℕ
  no_uncles r =
      or_absent 0 (rpc_about err_code_internal (text "failed to get block")) (r >>= λ _. ok 0)

  unfoldable pub get_uncle_count_by_block_number : Db → Text → Result ℕ
  get_uncle_count_by_block_number db block_nr = do
    number ← numbered db block_nr
    no_uncles (Blocks.get_header codec db number)

  unfoldable pub get_uncle_count_by_block_hash : Db → List ℕ → Result ℕ
  get_uncle_count_by_block_hash db block_hash =
      no_uncles (Blocks.get_block_by_hash codec db block_hash)
