-- ===== src/Tests/Chain.antt =====
-- The chain's data in a small store.
use evm_rpc.Prelude.{
  ℕ, ◌≡◌, refl, none, some, Option, Text, text, text_eq, ◌++◌, if◌then◌else◌, List, [], ◌∷◌, length,
  arith,
}
use evm_rpc.Api.Error.{Result, ok}
use evm_rpc.Storage.Pika.{value, Db, Codec, pika_get}
use evm_rpc.Storage.Blocks.{hash_hex, get_header, get_block_body}
use evm_rpc.Storage.Transactions.{TxLookup, read_transaction, read_transaction_lookup}
use evm_rpc.Strconv.Print.{format_uint, format_bytes}
use evm_rpc.Api.RpcTypes.{GethTransaction, GethReceipt, RpcTransaction, new_rpc_transaction}
use evm_rpc.Eth.Transactions.{
  get_transaction_by_hash, get_transaction_by_block_hash_and_index,
  get_transaction_by_block_number_and_index,
}
use evm_rpc.Eth.Transactions
use evm_rpc.Eth.Transactions.Agree.{IsIndexed}
use evm_rpc.Eth.Gas.{FeeHistoryResult, fee_window}
use evm_rpc.Eth.Gas.Window
use evm_rpc.Eth.Gas.Window.{IsWindow}

-- One byte stands for one item.
abbrev pub bytes : Codec
bytes = record {
  Header = ℕ;
  Transaction = ℕ;
  Receipt = ℕ;
  decode_header = λ b. ok (length b);
  decode_body = λ b. ok b;
  decode_receipts = λ b. ok b;
  decode_transaction = λ b. ok (length b);
}

fee_window-IsWindow_example :
    (r : FeeHistoryResult) × (fee_window 100 4 2 ≡ ok r) × IsWindow 100 4 r
fee_window-IsWindow_example = Window.fee_window-IsWindow 100 4 2 (omega arith) (omega arith)

-- The block 1 is at its hash, and has the transactions 2 and 2.
abbrev one_block : Db
one_block key =
    if text_eq key (text "idx:blk:hash:" ++ hash_hex (2 ∷ []))
    then value (text "1")
    else value (2 ∷ 2 ∷ [])

abbrev second : TxLookup
second = record { block_number = 1; block_hash = []; index = 1 }

abbrev as_geth : ℕ → GethTransaction
as_geth n = record {
  tx_type = 0;
  sender = none;
  gas = n;
  gas_price = 0;
  gas_fee_cap = 0;
  gas_tip_cap = 0;
  hash = [];
  input = [];
  nonce = 0;
  to = none;
  value = 0;
  chain_id = none;
  v = 0;
  r = 0;
  s = 0;
}

abbrev as_receipt : ℕ → GethReceipt ℕ
as_receipt n = record {
  cumulative_gas_used = n;
  gas_used = n;
  contract_address = [];
  logs = none;
  bloom = [];
  status = 1;
  effective_gas_price = none;
}

abbrev placed_second : List ℕ → Result TxLookup
placed_second b = ok second

abbrev own_hash : ℕ → List ℕ
own_hash header = header ∷ []

abbrev same_block : Text → List ℕ
same_block s = 2 ∷ []

abbrev in_block : Result (Option RpcTransaction)
in_block = ok (some (new_rpc_transaction (as_geth 2) (2 ∷ []) 1 1))

stored_once :
    IsIndexed bytes placed_second as_geth as_receipt own_hash same_block one_block
      (text "h")
      2
      second
unfolding read_transaction read_transaction_lookup get_block_body get_header pika_get format_uint
    format_bytes text_eq
stored_once = record {
  stored = refl;
  located = refl;
  body = 2 ∷ 2 ∷ [];
  has_body = refl;
  at_place = refl;
  header = 2;
  has_header = refl;
  same_hash = refl;
  by_hash = refl;
}

transactions_agree_example :
    (get_transaction_by_hash bytes placed_second as_geth as_receipt own_hash same_block one_block
        (text "h")
      ≡ in_block)
    × (get_transaction_by_block_hash_and_index bytes placed_second as_geth as_receipt own_hash
          same_block one_block
          (2 ∷ [])
          1
        ≡ in_block)
    × (get_transaction_by_block_number_and_index bytes placed_second as_geth as_receipt own_hash
          same_block one_block
          (text "0x" ++ format_uint 1 16)
          1
        ≡ in_block)
transactions_agree_example =
    Transactions.Agree.transactions_agree bytes placed_second as_geth as_receipt own_hash same_block
      one_block (text "h") 2 second (omega arith) stored_once
