-- ===== src/Api/TxPool/Listed.antt =====
-- What `Content` and `Inspect` list.
use mathlib.Core.Option as Options
use evm_rpc.Prelude.{
  ℕ, ◌<◌, ◌≡◌, refl, ◌∙◌, ap, Bool-cases, inl, inr, Option, none, some, Text, text_eq, List, [],
  ◌∷◌, Map, text_key, lookup,
}
use evm_rpc.Prelude.Int.{two64}
use evm_rpc.Strconv.Print.{format_uint}
use evm_rpc.Api.Error.{ok}
use evm_rpc.Api.RpcTypes.{RpcTransaction}
use evm_rpc.Storage.TxPool.{Redis, TxLib, group_pool, get_pending_transactions, get_pool_content}
use evm_rpc.Storage.TxPool.Content.{entry, entry_of, last_or, is_at, entry-group_pool}
use evm_rpc.Api.TxPool.{
  Listing, map_values, listing, pool_content, pending_form, content, format_tx_summary, inspect,
}

lookup-map_values :
    {A B : Type 0} (f : A → B) (k : Text) (m : Map Text A)
    → lookup k (map_values f m) ≡ Options.map f (lookup k m)
unfolding lookup
lookup-map_values f k [] = refl
lookup-map_values f k ((j, v) ∷ m) = elim (Bool-cases (text_eq j k)) [
  | inl e ↦ rw e
  | inr e ↦ rw e (lookup-map_values f k m)
]

entry_of-map :
    {A B : Type 0} (f : A → B) (nonce : Text) (o : Option (Map Text A))
    → entry_of nonce (Options.map (map_values f) o) ≡ Options.map f (entry_of nonce o)
entry_of-map f nonce none = refl
entry_of-map f nonce (some m) = lookup-map_values f nonce m

entry-map :
    {A B : Type 0} (f : A → B) (address nonce : Text) (pool : Map Text (Map Text A))
    → entry address nonce (map_values (map_values f) pool)
      ≡ Options.map f (entry address nonce pool)
entry-map f address nonce pool =
    ap (entry_of nonce) (lookup-map_values (map_values f) address pool)
    ∙ entry_of-map f nonce (lookup address pool)

module _ (redis : Redis) (txs : TxLib) where
  open redis use {Db}
  open txs use {Transaction}

  pool_content_lem :
      (db : Db) (pending : List Transaction) (signer : Transaction → Option Text)
      → get_pending_transactions redis txs db ≡ ok pending
      → txs.nil_signer ≡ ok signer
      → pool_content redis txs db ≡ ok (group_pool txs signer pending [], [])
  unfolding get_pool_content
  pool_content_lem db pending signer e f = rw (e, f)

  -- With a signer and nonces below 2^64, both listings have at an address and a nonce the last of the
  -- pending transactions that has this sender and this nonce, and nothing where there is none.
  pub listed :
      (db : Db) (pending : List Transaction) (signer : Transaction → Option Text)
      → get_pending_transactions redis txs db ≡ ok pending
      → txs.nil_signer ≡ ok signer
      → ((tx : Transaction) → txs.nonce tx < two64)
      → (address : Text) (nonce : ℕ) → nonce < two64
      → (c : Listing RpcTransaction) × (i : Listing Text) × (content redis txs db ≡ ok c)
        × (inspect redis txs db ≡ ok i)
        × (entry address (format_uint nonce 10) c.pending
            ≡ Options.map
                (pending_form txs)
                (last_or (is_at txs signer address nonce) none pending))
        × (entry address (format_uint nonce 10) i.pending
            ≡ Options.map
                (format_tx_summary txs)
                (last_or (is_at txs signer address nonce) none pending))
  unfolding content inspect lookup
  listed db pending signer e f uint64 address nonce fits = (
    listing (pending_form txs) (group_pool txs signer pending [], []),
    listing (format_tx_summary txs) (group_pool txs signer pending [], []),
    rw (pool_content_lem db pending signer e f),
    rw (pool_content_lem db pending signer e f),
    entry-map (pending_form txs) address (format_uint nonce 10) (group_pool txs signer pending [])
        ∙ ap (Options.map (pending_form txs)) at,
    entry-map (format_tx_summary txs) address (format_uint nonce 10)
          (group_pool txs signer pending [])
        ∙ ap (Options.map (format_tx_summary txs)) at,
  )
    where
      at :
          entry address (format_uint nonce 10) (group_pool txs signer pending [])
          ≡ last_or (is_at txs signer address nonce) none pending
      at = entry-group_pool txs signer uint64 address nonce fits pending []
