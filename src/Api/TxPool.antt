-- ===== src/Api/TxPool.antt =====
-- The txpool namespace of pkg/api/txpool/api.go.
pub mod Listed
use mathlib.Core.Option.{get_or}
use evm_rpc.Prelude.{ℕ, Option, none, some, Text, text, List, [], ◌∷◌, ◌++◌, Map, map}
use evm_rpc.Strconv.Print.{format_uint}
use evm_rpc.Api.Error.{wrap, Result, ok, err, panic, ◌>>=◌, map_err}
use evm_rpc.Api.RpcTypes.{RpcTransaction, new_rpc_pending_transaction}
use evm_rpc.Storage.TxPool.{Redis, TxLib, price_or_cap, get_pool_status, get_pool_content}

-- `{"pending": …, "queued": …}`, by address and nonce.
pub record Listing (A : Type 0) : Type 0 where
  pub pending : Map Text (Map Text A)
  pub queued : Map Text (Map Text A)

-- A loop over a map that fills another one under the same keys.
abbrev pub map_values : {A B : Type 0} → (A → B) → Map Text A → Map Text B
map_values f m = map (λ (k, v). (k, f v)) m

abbrev pub listing :
    {A B : Type 0} → (A → B) → Map Text (Map Text A) × Map Text (Map Text A) → Listing B
listing f (pending, queued) = record {
  pending = map_values (map_values f) pending;
  queued = map_values (map_values f) queued;
}

-- `String()` of a `big.Int` that may be nil.
abbrev big_text : Option ℕ → Text
big_text none = text "<nil>"
big_text (some n) = format_uint n 10

module _ (txs : TxLib) where
  open txs use {Transaction}

  abbrev pub pending_form : Transaction → RpcTransaction
  pending_form tx = new_rpc_pending_transaction (txs.geth tx)

  -- The multiplication sign is two bytes.
  unfoldable pub format_tx_summary : Transaction → Text
  format_tx_summary tx =
      get_or (txs.to_hex tx) (text "contract creation")
      ++ (text ": "
          ++ (format_uint (txs.value tx) 10
              ++ (text " wei + "
                  ++ (format_uint (txs.gas tx) 10
                      ++ (text " gas "
                          ++ (195 ∷ 151 ∷ text " "
                              ++ (big_text (price_or_cap (txs.gas_price tx) (txs.gas_fee_cap tx))
                                  ++ text " wei")))))))

module _ (redis : Redis) (txs : TxLib) where
  open redis use {Db}
  open txs use {Transaction}

  -- The counts of pending and queued transactions.
  unfoldable pub status : Db → Result (ℕ × ℕ)
  status db = map_err (wrap (text "failed to get pool status")) (get_pool_status redis txs db)

  abbrev pub pool_content :
      Db → Result (Map Text (Map Text Transaction) × Map Text (Map Text Transaction))
  pool_content db =
      map_err (wrap (text "failed to get pool content")) (get_pool_content redis txs db)

  unfoldable pub content : Db → Result (Listing RpcTransaction)
  content db = pool_content db >>= λ c. ok (listing (pending_form txs) c)

  unfoldable pub inspect : Db → Result (Listing Text)
  inspect db = pool_content db >>= λ c. ok (listing (format_tx_summary txs) c)
