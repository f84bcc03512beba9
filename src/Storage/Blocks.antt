-- ===== src/Storage/Blocks.antt =====
-- `BlockReader` of pkg/storage/block.go. A hash is its bytes; a body is its transactions.
pub mod Total
use evm_rpc.Prelude.{ℕ, Text, text, List, ◌++◌, length}
use evm_rpc.Strconv.Print.{format_uint, format_bytes}
use evm_rpc.Api.Error.{Result, ok, ◌>>=◌}
use evm_rpc.Storage.Pika.{Db, pika_get, get_decoded, parse_decimal, Codec}

abbrev pub hash_hex : List ℕ → Text
hash_hex hash = text "0x" ++ format_bytes hash

unfoldable pub get_latest_block_number : Db → Result ℕ
get_latest_block_number db = pika_get db (text "idx:latest") >>= parse_decimal

unfoldable pub get_block_number_by_hash : Db → List ℕ → Result ℕ
get_block_number_by_hash db hash =
    pika_get db (text "idx:blk:hash:" ++ hash_hex hash) >>= parse_decimal

module _ (codec : Codec) where
  open codec use {Header, Transaction, Receipt, decode_header, decode_body, decode_receipts}

  unfoldable pub get_header : Db → ℕ → Result Header
  get_header db number =
      get_decoded db (text "blk:hdr:" ++ format_uint number 10) (text "failed to decode header")
        decode_header

  unfoldable pub get_block_body : Db → ℕ → Result (List Transaction)
  get_block_body db number =
      get_decoded db (text "blk:body:" ++ format_uint number 10) (text "failed to decode body")
        decode_body

  -- A block is its header with the transactions of its body.
  unfoldable pub get_block : Db → ℕ → Result (Header × List Transaction)
  get_block db number = do
    header ← get_header db number
    body ← get_block_body db number
    ok (header, body)

  unfoldable pub get_block_by_hash : Db → List ℕ → Result (Header × List Transaction)
  get_block_by_hash db hash = get_block_number_by_hash db hash >>= get_block db

  unfoldable pub get_receipts : Db → ℕ → Result (List Receipt)
  get_receipts db number =
      get_decoded db (text "blk:rcpt:" ++ format_uint number 10) (text "failed to decode receipts")
        decode_receipts

  unfoldable pub get_transaction_count : Db → ℕ → Result ℕ
  get_transaction_count db number = get_block_body db number >>= λ body. ok (length body)

  unfoldable pub get_transaction_count_by_hash : Db → List ℕ → Result ℕ
  get_transaction_count_by_hash db hash =
      get_block_number_by_hash db hash >>= get_transaction_count db
