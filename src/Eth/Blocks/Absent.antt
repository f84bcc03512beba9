-- ===== src/Eth/Blocks/Absent.antt =====
-- What the block API says of a block that the store does not have.
use evm_rpc.Prelude.{ℕ, ◌≡◌, Bool, none, Text, List}
use evm_rpc.Api.Error.{not_found, ok, err}
use evm_rpc.Api.RpcTypes.Block.{GethBlock}
use evm_rpc.Storage.Pika.{Db, Codec}
use evm_rpc.Storage.Blocks
use evm_rpc.Eth.Blocks.{
  numbered, get_block_by_number, get_block_transaction_count_by_number,
  get_uncle_count_by_block_number,
}

module _ (codec : Codec) (assemble : codec.Header → List (codec.Transaction) → GethBlock) where
  -- Whatever its number, a block without a header and a body in the store is null, with no error, and
  -- so is its count of transactions; its uncles are none.
  pub missing_block :
      (db : Db) (block_nr : Text) (number : ℕ) (full_tx : Bool)
      → numbered db block_nr ≡ ok number
      → Blocks.get_header codec db number ≡ err not_found
      → Blocks.get_block_body codec db number ≡ err not_found
      → (get_block_by_number codec assemble db block_nr full_tx ≡ ok none)
        × (get_block_transaction_count_by_number codec db block_nr ≡ ok none)
        × (get_uncle_count_by_block_number codec db block_nr ≡ ok 0)
  unfolding get_block_by_number get_block_transaction_count_by_number
      get_uncle_count_by_block_number Blocks.get_block Blocks.get_transaction_count
  missing_block db block_nr number full_tx at header body =
      (rw (at, header), rw (at, body), rw (at, header))
