-- ===== src/Api/RpcTypes.antt =====
-- The RPC forms of blocks, transactions and receipts of pkg/api/types.go. Hashes and addresses are
-- their bytes; a `big.Int` that may be nil is an option.
pub mod Block
use evm_rpc.Prelude.{
  ℕ, suc, Bool, true, false, not, Option, none, some, text_eq, List, [], ◌∷◌, replicate, ◌==◌,
  if◌then◌else◌,
}
use mathlib.Core.Option.{get_or}
use evm_rpc.Prelude.Int.{ℤ, to_int64}

abbrev pub zero_hash : List ℕ
zero_hash = replicate 32 0

abbrev pub zero_address : List ℕ
zero_address = replicate 20 0

-- `types.DynamicFeeTxType`.
abbrev pub dynamic_fee_tx_type : ℕ
dynamic_fee_tx_type = 2

-- What the conversions read of a `types.Transaction`; `sender` is none where it cannot be recovered.
pub record GethTransaction : Type 0 where
  pub tx_type : ℕ
  pub sender : Option (List ℕ)
  pub gas : ℕ
  pub gas_price : ℕ
  pub gas_fee_cap : ℕ
  pub gas_tip_cap : ℕ
  pub hash : List ℕ
  pub input : List ℕ
  pub nonce : ℕ
  pub to : Option (List ℕ)
  pub value : ℕ
  pub chain_id : Option ℕ
  pub v : ℕ
  pub r : ℕ
  pub s : ℕ

pub record RpcTransaction : Type 0 where
  pub block_hash : Option (List ℕ)
  pub block_number : Option ℤ
  pub from : List ℕ
  pub gas : ℕ
  pub gas_price : Option ℕ
  pub gas_fee_cap : Option ℕ
  pub gas_tip_cap : Option ℕ
  pub hash : List ℕ
  pub input : List ℕ
  pub nonce : ℕ
  pub to : Option (List ℕ)
  pub transaction_index : Option ℕ
  pub value : ℕ
  pub tx_type : ℕ
  pub chain_id : Option ℕ
  pub v : ℕ
  pub r : ℕ
  pub s : ℕ

-- A field that is set under a condition.
abbrev pub when : {A : Type 0} → Bool → A → Option A
when b a = if b then some a else none

-- The block's fields are set where the hash is not the zero hash, the fee caps in place of the price
-- for a dynamic fee.
unfoldable pub new_rpc_transaction : GethTransaction → List ℕ → ℕ → ℕ → RpcTransaction
new_rpc_transaction tx block_hash block_number index =
    let placed = not (text_eq block_hash zero_hash) in
    let dynamic = tx.tx_type == dynamic_fee_tx_type in
    record {
      block_hash = when placed block_hash;
      block_number = when placed (to_int64 block_number);
      from = get_or tx.sender zero_address;
      gas = tx.gas;
      gas_price = when (not dynamic) tx.gas_price;
      gas_fee_cap = when dynamic tx.gas_fee_cap;
      gas_tip_cap = when dynamic tx.gas_tip_cap;
      hash = tx.hash;
      input = tx.input;
      nonce = tx.nonce;
      to = tx.to;
      transaction_index = when placed index;
      value = tx.value;
      tx_type = tx.tx_type;
      chain_id = tx.chain_id;
      v = tx.v;
      r = tx.r;
      s = tx.s;
    }

unfoldable pub new_rpc_pending_transaction : GethTransaction → RpcTransaction
unfolding new_rpc_transaction
new_rpc_pending_transaction tx = new_rpc_transaction tx zero_hash 0 0

-- What the conversions read of a `types.Receipt`; logs are of some type, none for a nil slice.
pub record GethReceipt (Log : Type 0) : Type 0 where
  pub cumulative_gas_used : ℕ
  pub gas_used : ℕ
  pub contract_address : List ℕ
  pub logs : Option (List Log)
  pub bloom : List ℕ
  pub status : ℕ
  pub effective_gas_price : Option ℕ

pub record RpcReceipt (Log : Type 0) : Type 0 where
  pub transaction_hash : List ℕ
  pub transaction_index : ℕ
  pub block_hash : List ℕ
  pub block_number : ℤ
  pub from : List ℕ
  pub to : Option (List ℕ)
  pub cumulative_gas_used : ℕ
  pub gas_used : ℕ
  pub contract_address : Option (List ℕ)
  pub logs : List Log
  pub logs_bloom : List ℕ
  pub tx_type : ℕ
  pub status : ℕ
  pub effective_gas_price : Option ℕ

-- The address of a created contract; an address array is never empty.
abbrev created : Option (List ℕ) → List ℕ → Option (List ℕ)
created none contract = some contract
created (some _) contract = none

unfoldable pub new_rpc_receipt :
    {Log : Type 0} → GethReceipt Log → GethTransaction → List ℕ → ℕ → ℕ → RpcReceipt Log
new_rpc_receipt receipt tx block_hash block_number index = record {
  transaction_hash = tx.hash;
  transaction_index = index;
  block_hash = block_hash;
  block_number = to_int64 block_number;
  from = get_or tx.sender zero_address;
  to = tx.to;
  cumulative_gas_used = receipt.cumulative_gas_used;
  gas_used = receipt.gas_used;
  contract_address = created tx.to receipt.contract_address;
  logs = get_or receipt.logs [];
  logs_bloom = receipt.bloom;
  tx_type = tx.tx_type;
  status = receipt.status;
  effective_gas_price =
      if tx.tx_type == dynamic_fee_tx_type then receipt.effective_gas_price else some tx.gas_price;
}
