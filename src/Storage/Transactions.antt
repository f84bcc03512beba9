-- ===== src/Storage/Transactions.antt =====
-- `TransactionReader` of pkg/storage/transaction.go.
pub mod Placed
pub mod Scan
use evm_rpc.Prelude.{
  ℕ, Bool, true, false, ◌&&◌, ◌||◌, Option, none, some, Text, text, List, [], ◌∷◌, ◌++◌, length,
  get_elem?, leb, ◌==◌, if◌then◌else◌,
}
use evm_rpc.Strconv.Print.{format_uint}
use evm_rpc.Strconv.Parse
use evm_rpc.Strconv.Parse.{Parsed, parse_uint}
use evm_rpc.Api.Error.{
  GoError, failure, not_found, num_error, wrap, Result, ok, err, panic, ◌>>=◌, map_err,
}
use evm_rpc.Storage.Pika.{Db, pika_get, get_decoded, parsed_number, Codec}
use evm_rpc.Storage.Blocks.{hash_hex}

pub record TxLookup : Type 0 where
  pub block_number : ℕ
  pub block_hash : Text
  pub index : ℕ

-- `fmt.Sscanf(s, "%d", &n)` into a uint64: spaces, then digits; what follows is not read.
unfoldable pub skip_spaces : Text → Text
skip_spaces [] = []
skip_spaces (c ∷ s) = let rest = skip_spaces s in if c == 32 || c == 9 then rest else c ∷ s

unfoldable pub leading_digits : Text → Text
leading_digits [] = []
leading_digits (c ∷ s) =
    let rest = leading_digits s in if leb 48 c && leb c 57 then c ∷ rest else []

abbrev scan_token : Text → Result ℕ
scan_token [] = err (failure (text "expected integer"))
scan_token (c ∷ s) = parsed_number (c ∷ s) (parse_uint 10 (c ∷ s))

abbrev scan_from : Text → Result ℕ
scan_from [] = err (failure (text "unexpected EOF"))
scan_from (c ∷ s) = scan_token (leading_digits (c ∷ s))

unfoldable pub scan_decimal : Text → Result ℕ
scan_decimal s = scan_from (skip_spaces s)

-- `xs[i]`, which panics out of range, behind its guard `i >= len(xs)`.
abbrev pub index_or_panic : {A : Type 0} → Option A → Result A
index_or_panic none = panic
index_or_panic (some a) = ok a

unfoldable pub guarded_index : {A : Type 0} → List A → ℕ → Result A
guarded_index xs i = if leb (length xs) i then err not_found else index_or_panic (get_elem? xs i)

module _ (codec : Codec) (decode_lookup : List ℕ → Result TxLookup) where
  open codec use {Transaction, Receipt, decode_transaction, decode_receipts, decode_body}

  unfoldable pub read_transaction : Db → List ℕ → Result Transaction
  read_transaction db hash =
      get_decoded db (text "tx:" ++ hash_hex hash) (text "failed to decode transaction")
        decode_transaction

  unfoldable pub read_transaction_lookup : Db → List ℕ → Result TxLookup
  read_transaction_lookup db hash =
      get_decoded db (text "tx:lookup:" ++ hash_hex hash) (text "failed to decode lookup")
        decode_lookup

  unfoldable pub read_receipt : Db → List ℕ → Result (Receipt × TxLookup)
  read_receipt db hash = do
    lookup ← read_transaction_lookup db hash
    receipts ←
        get_decoded db (text "blk:rcpt:" ++ format_uint lookup.block_number 10)
          (text "failed to decode receipts") decode_receipts
    receipt ← guarded_index receipts lookup.index
    ok (receipt, lookup)

  unfoldable pub read_transaction_by_block_number_and_index : Db → ℕ → ℕ → Result Transaction
  read_transaction_by_block_number_and_index db block_number index = do
    body ←
        get_decoded db (text "blk:body:" ++ format_uint block_number 10)
          (text "failed to decode body") decode_body
    guarded_index body index

  unfoldable pub read_transaction_by_block_hash_and_index : Db → List ℕ → ℕ → Result Transaction
  read_transaction_by_block_hash_and_index db block_hash index = do
    number_data ← pika_get db (text "idx:blk:hash:" ++ hash_hex block_hash)
    block_number ← map_err (wrap (text "invalid block number")) (scan_decimal number_data)
    read_transaction_by_block_number_and_index db block_number index
