-- ===== src/Storage/TxPool.antt =====
-- The transaction pool of pkg/storage/txpool.go. The store's commands, each of which can fail, and
-- go-ethereum's transactions are parameters.
pub mod Content
pub mod Kept
use mathlib.Core.Option.{get_or}
use evm_rpc.Prelude.{
  ℕ, ◌%◌, Option, none, some, Text, text, List, [], ◌∷◌, ◌++◌, Map, text_key, lookup, insert,
}
use evm_rpc.Prelude.Int.{two64}
use evm_rpc.Api.Error.{wrap, Result, ok, err, panic, ◌>>=◌, map_err}
use evm_rpc.Strconv.Print.{format_uint}
use evm_rpc.Api.RpcTypes.{GethTransaction}
use evm_rpc.Storage.Pika.{RedisReply, get_decoded}
use evm_rpc.Storage.Blocks.{hash_hex}

-- A command returns the store as it is after it. A sorted set's score is given as the number that
-- the source converts to a float.
pub record Redis : Type 1 where
  pub Db : Type 0
  pub get : Db → Text → RedisReply
  pub set : Text → List ℕ → Db → Db × Result (Unit {0})
  pub del : Text → Db → Db × Result (Unit {0})
  pub z_add : Text → ℕ → Text → Db → Db × Result (Unit {0})
  pub z_rem : Text → Text → Db → Db × Result (Unit {0})
  pub z_card : Text → Db → Result ℕ
  -- All members of a sorted set, by rising and by falling score.
  pub z_range : Text → Db → Result (List Text)
  pub z_rev_range : Text → Db → Result (List Text)
  pub publish : Text → Text → Db → Db × Result (Unit {0})

-- `types.Transaction`: none is a nil `big.Int`. `sender` recovers the signer's address, as text, with
-- the signer for the transaction's chain; `nil_signer` is what `types.LatestSigner(nil)` gives, whose
-- sender is none where it cannot be recovered. `to_hex` is the recipient, and `geth` the fields that
-- the RPC form shows. `hex_to_hash` is `common.HexToHash`.
pub record TxLib : Type 1 where
  pub Transaction : Type 0
  pub hash : Transaction → List ℕ
  pub chain_id : Transaction → Option ℕ
  pub nonce : Transaction → ℕ
  pub gas : Transaction → ℕ
  pub value : Transaction → ℕ
  pub gas_price : Transaction → Option ℕ
  pub gas_fee_cap : Transaction → Option ℕ
  pub sender : Transaction → Result Text
  pub nil_signer : Result (Transaction → Option Text)
  pub to_hex : Transaction → Option Text
  pub geth : Transaction → GethTransaction
  pub hex_to_hash : Text → List ℕ
  pub encode : Transaction → Result (List ℕ)
  pub decode : List ℕ → Result Transaction

-- `if err := command; err != nil { return err }`, on the store that the command left.
abbrev pub and_then :
    {D : Type 0} {A B : Type 0} → D × Result A → (A → D → D × Result B) → D × Result B
and_then (db, ok a) next = next a db
and_then (db, err e) next = (db, err e)
and_then (db, panic) next = (db, panic)

-- The price, or the fee cap where there is none.
abbrev pub price_or_cap : Option ℕ → Option ℕ → Option ℕ
price_or_cap (some p) cap = some p
price_or_cap none cap = cap

module _ (txs : TxLib) where
  open txs use {Transaction}

  -- `pending[addr][nonce] = tx`, with a new inner map for a new address.
  unfoldable pub place :
      Text → Text → Transaction → Map Text (Map Text Transaction) → Map Text (Map Text Transaction)
  place address nonce tx pool =
      insert address (insert nonce tx (get_or (lookup address pool) [])) pool

  abbrev pub place_from :
      Option Text → Transaction → Map Text (Map Text Transaction) → Map Text (Map Text Transaction)
  place_from none tx pool = pool
  place_from (some from) tx pool = place from (format_uint (txs.nonce tx) 10) tx pool

  -- The loop of `GetPoolContent`, with the signer that `types.LatestSigner` gives it for a nil
  -- configuration; go-ethereum's dereferences that, so that with it the loop is not reached.
  unfoldable pub group_pool :
      (Transaction → Option Text)
      → List Transaction
      → Map Text (Map Text Transaction)
      → Map Text (Map Text Transaction)
  group_pool signer [] pool = pool
  group_pool signer (tx ∷ rest) pool = group_pool signer rest (place_from (signer tx) tx pool)

module _ (redis : Redis) (txs : TxLib) where
  open redis use {Db}
  open txs use {Transaction}

  abbrev pub pending_key : List ℕ → Text
  pending_key hash = text "pool:pending:" ++ hash_hex hash

  abbrev pub address_pool_key : Text → Text
  address_pool_key from = text "pool:addr:" ++ from

  -- `gasPrice.Uint64()`, which dereferences a nil.
  abbrev pub uint64_of : Option ℕ → Result ℕ
  uint64_of (some p) = ok (p % two64)
  uint64_of none = panic

  -- "Add to price index", and "Publish to notification channel".
  unfoldable pub index_by_price : Transaction → ℕ → Db → Db × Result (Unit {0})
  index_by_price tx price db =
      and_then (redis.z_add (text "pool:byprice") price (hash_hex (txs.hash tx)) db)
        (λ _ db. redis.publish (text "pool:new") (hash_hex (txs.hash tx)) db)

  -- "Add to address index", and what follows.
  unfoldable pub index_by_sender : Transaction → Text → Db → Db × Result (Unit {0})
  unfolding index_by_price
  index_by_sender tx from db =
      and_then (redis.z_add (address_pool_key from) (txs.nonce tx) (hash_hex (txs.hash tx)) db)
        (λ _ db.
          and_then (db, uint64_of (price_or_cap (txs.gas_price tx) (txs.gas_fee_cap tx)))
            (index_by_price tx))

  unfoldable pub add_pending_tx : Transaction → Db → Db × Result (Unit {0})
  unfolding index_by_sender
  add_pending_tx tx db =
      and_then (db, map_err (wrap (text "failed to encode transaction")) (txs.encode tx))
        (λ encoded db. and_then (redis.set (pending_key (txs.hash tx)) encoded db) (λ _ db.
          and_then (db, map_err (wrap (text "failed to get sender")) (txs.sender tx))
            (index_by_sender tx)))

  unfoldable pub get_pending_tx : Db → List ℕ → Result Transaction
  get_pending_tx db hash =
      get_decoded (redis.get db) (pending_key hash) (text "failed to decode transaction") txs.decode

  unfoldable pub remove_pending_tx : List ℕ → Db → Db × Result (Unit {0})
  remove_pending_tx hash db =
      and_then (db, get_pending_tx db hash)
        (λ tx db.
          and_then (db, txs.sender tx)
            (λ from db. and_then (redis.del (pending_key hash) db) (λ _ db.
              and_then (redis.z_rem (address_pool_key from) (hash_hex hash) db)
                (λ _ db. redis.z_rem (text "pool:byprice") (hash_hex hash) db))))

  -- The counts of pending and queued transactions.
  unfoldable pub get_pool_status : Db → Result (ℕ × ℕ)
  get_pool_status db = redis.z_card (text "pool:byprice") db >>= λ n. ok (n, 0)

  -- `if err != nil { continue }`, and otherwise the transaction is appended.
  abbrev pub keep : Result Transaction → Result (List Transaction) → Result (List Transaction)
  keep (ok tx) rest = rest >>= λ more. ok (tx ∷ more)
  keep (err _) rest = rest
  keep panic rest = panic

  unfoldable pub read_each : Db → List Text → Result (List Transaction)
  read_each db [] = ok []
  read_each db (h ∷ hs) = keep (get_pending_tx db (txs.hex_to_hash h)) (read_each db hs)

  -- The dearest first.
  unfoldable pub get_pending_transactions : Db → Result (List Transaction)
  get_pending_transactions db = redis.z_rev_range (text "pool:byprice") db >>= read_each db

  -- By nonce.
  unfoldable pub get_address_transactions : Text → Db → Result (List Transaction)
  get_address_transactions address db = redis.z_range (address_pool_key address) db >>= read_each db

  -- The pending transactions, by address and nonce, and the queued ones, of which there are none.
  unfoldable pub get_pool_content :
      Db → Result (Map Text (Map Text Transaction) × Map Text (Map Text Transaction))
  get_pool_content db = do
    pool ← get_pending_transactions db
    signer ← txs.nil_signer
    ok (group_pool txs signer pool [], [])
