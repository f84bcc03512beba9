-- ===== src/Eth/Transactions/Agree.antt =====
-- The three ways to ask for a transaction that is in a block.
use evm_rpc.Prelude.{
  ℕ, zero, suc, ◌≡◌, ◌<◌, refl, ap, ◌∙◌, Option, some, Text, text, List, ◌++◌, get_elem?, arith,
}
use evm_rpc.Prelude.Int.{pos, two63, two64}
use evm_rpc.Strconv.Print.{format_uint}
use evm_rpc.Api.Error.{Result, ok, ◌>>=◌, map_err, rpc_about, err_code_invalid_params}
use evm_rpc.Api.BlockNumber.Laws.{parse_block_number-hex}
use evm_rpc.Api.RpcTypes.{GethTransaction, RpcTransaction, new_rpc_transaction, GethReceipt}
use evm_rpc.Storage.Pika.{Db, Codec, pika_get, parse_decimal, parsed_number}
use evm_rpc.Strconv.RoundTrip.{parse_uint-format_uint}
use evm_rpc.Storage.Blocks.{hash_hex, get_block_number_by_hash, get_header, get_block_body}
use evm_rpc.Storage.Transactions.{
  TxLookup, read_transaction, read_transaction_lookup, read_transaction_by_block_number_and_index,
  read_transaction_by_block_hash_and_index,
}
use evm_rpc.Storage.Transactions.Placed.{placed-blocks, entry_or_not_found}
use evm_rpc.Storage.Transactions.Scan.{scan_decimal-format_uint}
use evm_rpc.Eth.Blocks.{numbered, resolve_block_number}
use evm_rpc.Eth.State.Laws.{to_int64-small, block_to_uint64-small}
use evm_rpc.Eth.Transactions.{
  get_transaction_by_hash, get_transaction_by_block_hash_and_index,
  get_transaction_by_block_number_and_index,
}

resolve_block_number-pos : (db : Db) (n : ℕ) → n < two63 → resolve_block_number db (pos n) ≡ ok n
unfolding resolve_block_number
resolve_block_number-pos db zero h = refl
resolve_block_number-pos db (suc n) h = ground (arith, block_to_uint64-small (suc n) h)

numbered-hex : (db : Db) (n : ℕ) → n < two63 → numbered db (text "0x" ++ format_uint n 16) ≡ ok n
unfolding numbered
numbered-hex db n h =
    ap
      (λ r.
        map_err (rpc_about err_code_invalid_params (text "invalid block number")) r
        >>= resolve_block_number db)
      (parse_block_number-hex n (omega arith) ∙ ap ok (to_int64-small n h))
    ∙ resolve_block_number-pos db n h

parse_decimal-format_uint : (n : ℕ) → n < two64 → parse_decimal (format_uint n 10) ≡ ok n
unfolding parse_decimal
parse_decimal-format_uint n h =
    ap (parsed_number (format_uint n 10))
      (parse_uint-format_uint 10 n (omega arith) (omega arith) h)

module _ (codec : Codec) (decode_lookup : List ℕ → Result TxLookup) {Log : Type 0}
    (tx_of : codec.Transaction → GethTransaction) (receipt_of : codec.Receipt → GethReceipt Log)
    (header_hash : codec.Header → List ℕ) (hex_to_hash : Text → List ℕ) where
  -- What a store has to hold of a transaction that is in a block: its record and its place, the block
  -- with it at that place, and the block's number under the block's hash.
  pub record IsIndexed (db : Db) (hash : List ℕ) (tx : codec.Transaction) (l : TxLookup)
      : Type 0 where
    pub stored : read_transaction codec decode_lookup db hash ≡ ok tx
    pub located : read_transaction_lookup codec decode_lookup db hash ≡ ok l
    pub body : List (codec.Transaction)
    pub has_body : get_block_body codec db l.block_number ≡ ok body
    pub at_place : get_elem? body l.index ≡ some tx
    pub header : codec.Header
    pub has_header : get_header codec db l.block_number ≡ ok header
    pub same_hash : header_hash header ≡ hex_to_hash l.block_hash
    pub by_hash :
        pika_get db (text "idx:blk:hash:" ++ hash_hex (hex_to_hash l.block_hash))
        ≡ ok (format_uint l.block_number 10)

  module _ (db : Db) (hash : List ℕ) (tx : codec.Transaction) (l : TxLookup)
      (i : IsIndexed db hash tx l) where
    abbrev in_block : Result (Option RpcTransaction)
    in_block =
        ok (some (new_rpc_transaction (tx_of tx) (hex_to_hash l.block_hash) l.block_number l.index))

    -- The transaction is at its place.
    at_its_place :
        read_transaction_by_block_number_and_index codec decode_lookup db l.block_number l.index
        ≡ ok tx
    at_its_place =
        (placed-blocks codec decode_lookup db l.block_number l.index hash).0
        ∙ ap (λ r. r >>= λ body. entry_or_not_found (get_elem? body l.index)) i.has_body
        ∙ ap entry_or_not_found i.at_place

    by_own_hash :
        get_transaction_by_hash codec decode_lookup tx_of receipt_of header_hash hex_to_hash db hash
        ≡ in_block
    unfolding get_transaction_by_hash
    by_own_hash = rw (i.stored, i.located) refl

    by_block_hash :
        l.block_number < two64
        → get_transaction_by_block_hash_and_index codec decode_lookup tx_of receipt_of header_hash
            hex_to_hash db
            (hex_to_hash l.block_hash)
            l.index
          ≡ in_block
    unfolding get_transaction_by_block_hash_and_index read_transaction_by_block_hash_and_index
        get_block_number_by_hash
    by_block_hash h =
        rw
          (
            i.by_hash,
            scan_decimal-format_uint l.block_number h,
            at_its_place,
            parse_decimal-format_uint l.block_number h,
          )
          refl

    by_block_number :
        l.block_number < two63
        → get_transaction_by_block_number_and_index codec decode_lookup tx_of receipt_of header_hash
            hex_to_hash db
            (text "0x" ++ format_uint l.block_number 16)
            l.index
          ≡ in_block
    unfolding get_transaction_by_block_number_and_index
    by_block_number h =
        rw (numbered-hex db l.block_number h, at_its_place, i.has_header, i.same_hash) refl

  -- On a store that holds a transaction of a block whose number is below 2^63, asking by the
  -- transaction's hash, by the block's hash and the index, and by the block's number in hexadecimal and
  -- the index give the same: the transaction with this block and this place.
  pub transactions_agree :
      (db : Db) (hash : List ℕ) (tx : codec.Transaction) (l : TxLookup)
      → l.block_number < two63
      → IsIndexed db hash tx l
      → (get_transaction_by_hash codec decode_lookup tx_of receipt_of header_hash hex_to_hash db
            hash
          ≡ ok (
              some
                (new_rpc_transaction (tx_of tx) (hex_to_hash l.block_hash) l.block_number l.index)))
        × (get_transaction_by_block_hash_and_index codec decode_lookup tx_of receipt_of header_hash
              hex_to_hash db
              (hex_to_hash l.block_hash)
              l.index
            ≡ ok (
                some (
                  new_rpc_transaction
                    (tx_of tx)
                    (hex_to_hash l.block_hash)
                    l.block_number
                    l.index)))
        × (get_transaction_by_block_number_and_index codec decode_lookup tx_of receipt_of
              header_hash hex_to_hash db
              (text "0x" ++ format_uint l.block_number 16)
              l.index
            ≡ ok (
                some (
                  new_rpc_transaction
                    (tx_of tx)
                    (hex_to_hash l.block_hash)
                    l.block_number
                    l.index)))
  transactions_agree db hash tx l fits i = (
    by_own_hash db hash tx l i,
    by_block_hash db hash tx l i (omega arith),
    by_block_number db hash tx l i fits,
  )
