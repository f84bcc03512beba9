-- ===== src/Api/RpcTypes/Block.antt =====
-- `NewRPCBlock` of pkg/api/types.go, and its two lists of transactions.
use evm_rpc.Prelude.{
  ℕ, zero, suc, ◌+◌, ◌%◌, ◌≡◌, refl, ap, ◌∙◌, sym, Bool, true, false, Option, some, List, [], ◌∷◌,
  map, get_elem?, arith, if◌then◌else◌,
}
use mathlib.Core.Option
use evm_rpc.Prelude.Int.{two64}
use evm_rpc.Api.RpcTypes.{GethTransaction, RpcTransaction, new_rpc_transaction}

-- What the conversion reads of a header.
pub record GethHeader : Type 0 where
  pub number : ℕ
  pub hash : List ℕ
  pub parent_hash : List ℕ
  pub nonce : List ℕ
  pub uncle_hash : List ℕ
  pub bloom : List ℕ
  pub tx_hash : List ℕ
  pub root : List ℕ
  pub receipt_hash : List ℕ
  pub coinbase : List ℕ
  pub difficulty : ℕ
  pub extra : List ℕ
  pub gas_limit : ℕ
  pub gas_used : ℕ
  pub time : ℕ
  pub mix_digest : List ℕ
  pub base_fee : Option ℕ

-- A `types.Block` with its size.
pub record GethBlock : Type 0 where
  pub header : GethHeader
  pub size : ℕ
  pub transactions : List GethTransaction

pub data Transactions : Type 0 where
  full : List RpcTransaction → Transactions
  hashes : List (List ℕ) → Transactions

pub record RpcBlock : Type 0 where
  pub number : ℕ
  pub hash : List ℕ
  pub parent_hash : List ℕ
  pub nonce : List ℕ
  pub sha3_uncles : List ℕ
  pub logs_bloom : List ℕ
  pub transactions_root : List ℕ
  pub state_root : List ℕ
  pub receipts_root : List ℕ
  pub miner : List ℕ
  pub difficulty : ℕ
  pub total_difficulty : Option ℕ
  pub extra_data : List ℕ
  pub size : ℕ
  pub gas_limit : ℕ
  pub gas_used : ℕ
  pub timestamp : ℕ
  pub transactions : Transactions
  pub uncles : List (List ℕ)
  pub mix_hash : List ℕ
  pub base_fee_per_gas : Option ℕ

-- The loop over the transactions from the `i`-th on.
unfoldable pub full_transactions : List ℕ → ℕ → ℕ → List GethTransaction → List RpcTransaction
full_transactions block_hash number i [] = []
full_transactions block_hash number i (tx ∷ txs) =
    new_rpc_transaction tx block_hash number i ∷ full_transactions block_hash number (suc i) txs

unfoldable pub new_rpc_block : GethBlock → Bool → Option ℕ → RpcBlock
unfolding full_transactions
new_rpc_block block full_tx td =
    let head = block.header in
    record {
      number = head.number;
      hash = head.hash;
      parent_hash = head.parent_hash;
      nonce = head.nonce;
      sha3_uncles = head.uncle_hash;
      logs_bloom = head.bloom;
      transactions_root = head.tx_hash;
      state_root = head.root;
      receipts_root = head.receipt_hash;
      miner = head.coinbase;
      difficulty = head.difficulty;
      total_difficulty = td;
      extra_data = head.extra;
      size = block.size;
      gas_limit = head.gas_limit;
      gas_used = head.gas_used;
      timestamp = head.time;
      transactions =
          if full_tx
          then full (full_transactions head.hash (head.number % two64) 0 block.transactions)
          else hashes (map (λ (tx : GethTransaction). tx.hash) block.transactions);
      uncles = [];
      mix_hash = head.mix_digest;
      base_fee_per_gas = head.base_fee;
    }

full_transactions-hashes :
    (h : List ℕ) (n i : ℕ) (txs : List GethTransaction)
    → map (λ (t : RpcTransaction). t.hash) (full_transactions h n i txs)
      ≡ map (λ (tx : GethTransaction). tx.hash) txs
unfolding full_transactions new_rpc_transaction
full_transactions-hashes h n i [] = refl
full_transactions-hashes h n i (tx ∷ txs) =
    ap (◌∷◌ tx.hash) (full_transactions-hashes h n (suc i) txs)

full_transactions-at :
    (h : List ℕ) (n i k : ℕ) (txs : List GethTransaction)
    → get_elem? (full_transactions h n i txs) k
      ≡ Option.map (λ tx. new_rpc_transaction tx h n (i + k)) (get_elem? txs k)
unfolding full_transactions
full_transactions-at h n i k [] = refl
full_transactions-at h n i zero (tx ∷ txs) =
    ap (λ j. some (new_rpc_transaction tx h n j)) (omega arith)
full_transactions-at h n i (suc k) (tx ∷ txs) =
    full_transactions-at h n (suc i) k txs
    ∙ ap (λ j. Option.map (λ tx. new_rpc_transaction tx h n j) (get_elem? txs k)) (omega arith)

-- The full list of a block's transactions has, at each place, the transaction of that place with the
-- block's hash, its number and the place as index; the list of hashes has the hashes of the full one.
pub new_rpc_block_lem :
    (block : GethBlock) (td : Option ℕ) (k : ℕ)
    → (ts : List RpcTransaction) × ((new_rpc_block block true td).transactions ≡ full ts)
      × ((new_rpc_block block false td).transactions
          ≡ hashes (map (λ (t : RpcTransaction). t.hash) ts))
      × (get_elem? ts k
          ≡ Option.map
              (λ tx. new_rpc_transaction tx block.header.hash (block.header.number % two64) k)
              (get_elem? block.transactions k))
unfolding new_rpc_block
new_rpc_block_lem block td k =
    let h = block.header.hash in
    let n = block.header.number % two64 in
    (
      full_transactions h n 0 block.transactions,
      refl,
      ap hashes (sym (full_transactions-hashes h n 0 block.transactions)),
      full_transactions-at h n 0 k block.transactions
          ∙ ap
              (λ j.
                Option.map (λ tx. new_rpc_transaction tx h n j) (get_elem? block.transactions k))
              (omega arith),
    )
