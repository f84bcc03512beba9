-- ===== src/Storage/TxPool/Kept.antt =====
-- A transaction that `AddPendingTx` has stored, whatever becomes of the rest of the call.
use evm_rpc.Prelude.{ℕ, ◌≡◌, Text, text, List}
use evm_rpc.Api.Error.{wrap, Result, ok, err, panic, map_err}
use evm_rpc.Storage.Pika.{value, pika_get}
use evm_rpc.Storage.Blocks.{hash_hex}
use evm_rpc.Storage.TxPool.{
  Redis, TxLib, and_then, price_or_cap, uint64_of, pending_key, address_pool_key, index_by_price,
  index_by_sender, add_pending_tx, get_pending_tx,
}

-- What is relied on of the store: a set that succeeds is read back, and adding to a sorted set, even
-- when it fails, and publishing leave a stored string alone.
pub record IsStore (redis : Redis) : Type 0 where
  pub get-set :
      (k : Text) (v : List ℕ) (db db' : redis.Db)
      → redis.set k v db ≡ (db', ok tt)
      → redis.get db' k ≡ value v
  pub get-z_add :
      (k : Text) (v : List ℕ) (key : Text) (score : ℕ) (member : Text) (db : redis.Db)
      → redis.get db k ≡ value v
      → redis.get (redis.z_add key score member db).0 k ≡ value v
  pub get-publish :
      (k : Text) (v : List ℕ) (channel : Text) (message : Text) (db : redis.Db)
      → redis.get db k ≡ value v
      → redis.get (redis.publish channel message db).0 k ≡ value v

-- A call leaves a store with a property.
record Leaves {D A : Type 0} (P : D → Type 0) (r : D × Result A) : Type 0 where
  left : P r.0

and_then-Leaves :
    {D A B : Type 0} (P : D → Type 0) (r : D × Result A) (rest : A → D → D × Result B)
    → P r.0
    → ((a : A) (db : D) → P db → Leaves P (rest a db))
    → Leaves P (and_then r rest)
and_then-Leaves P (db, ok a) rest h keep = keep a db h
and_then-Leaves P (db, err e) rest h keep = record { left = h }
and_then-Leaves P (db, panic) rest h keep = record { left = h }

module _ (redis : Redis) (txs : TxLib) (store : IsStore redis) where
  open redis use {Db}
  open txs use {Transaction}

  abbrev IsKept : Transaction → List ℕ → Db → Type 0
  IsKept tx bytes db = redis.get db (pending_key redis txs (txs.hash tx)) ≡ value bytes

  index_by_price-IsKept :
      (tx : Transaction) (bytes : List ℕ) (price : ℕ) (db : Db)
      → IsKept tx bytes db
      → Leaves (IsKept tx bytes) (index_by_price redis txs tx price db)
  unfolding index_by_price
  index_by_price-IsKept tx bytes price db h =
      and_then-Leaves (IsKept tx bytes)
        (redis.z_add (text "pool:byprice") price (hash_hex (txs.hash tx)) db)
        (λ _ db. redis.publish (text "pool:new") (hash_hex (txs.hash tx)) db)
        (store.get-z_add _ bytes _ _ _ db h)
        (λ _ db h. record { left = store.get-publish _ bytes _ _ db h })

  index_by_sender-IsKept :
      (tx : Transaction) (bytes : List ℕ) (from : Text) (db : Db)
      → IsKept tx bytes db
      → Leaves (IsKept tx bytes) (index_by_sender redis txs tx from db)
  unfolding index_by_sender
  index_by_sender-IsKept tx bytes from db h =
      and_then-Leaves (IsKept tx bytes)
        (redis.z_add (address_pool_key redis txs from) (txs.nonce tx) (hash_hex (txs.hash tx)) db)
        (λ _ db. and_then (db, price) (index_by_price redis txs tx))
        (store.get-z_add _ bytes _ _ _ db h)
        (λ _ db h.
          and_then-Leaves (IsKept tx bytes) (db, price) (index_by_price redis txs tx) h
            (index_by_price-IsKept tx bytes))
    where
      price : Result ℕ
      price = uint64_of redis txs (price_or_cap (txs.gas_price tx) (txs.gas_fee_cap tx))

  -- Each call after the set keeps what was stored.
  add_pending_tx-IsKept :
      (tx : Transaction) (db db' : Db) (bytes : List ℕ)
      → txs.encode tx ≡ ok bytes
      → redis.set (pending_key redis txs (txs.hash tx)) bytes db ≡ (db', ok tt)
      → IsKept tx bytes (add_pending_tx redis txs tx db).0
  unfolding add_pending_tx
  add_pending_tx-IsKept tx db db' bytes encoded was_set =
      rw (encoded, was_set)
        (and_then-Leaves (IsKept tx bytes)
          (db', map_err (wrap (text "failed to get sender")) (txs.sender tx))
          (index_by_sender redis txs tx) (store.get-set _ bytes db db' was_set)
          (index_by_sender-IsKept tx bytes)).left

  -- If a transaction is encoded and stored, then it is found under its hash after the call of
  -- AddPendingTx, also when the call goes on to fail or to panic: nothing takes it back.
  pub get_pending_tx-add_pending_tx :
      (tx : Transaction) (db db' : Db) (bytes : List ℕ)
      → txs.encode tx ≡ ok bytes
      → txs.decode bytes ≡ ok tx
      → redis.set (pending_key redis txs (txs.hash tx)) bytes db ≡ (db', ok tt)
      → get_pending_tx redis txs (add_pending_tx redis txs tx db).0 (txs.hash tx) ≡ ok tx
  unfolding get_pending_tx pika_get
  get_pending_tx-add_pending_tx tx db db' bytes encoded decoded was_set =
      rw (add_pending_tx-IsKept tx db db' bytes encoded was_set, decoded)
