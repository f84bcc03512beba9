-- ===== src/Eth/Submit/Pending.antt =====
-- Which transactions `PendingTransactions` lists.
use evm_rpc.Prelude.{ℕ, ◌≡◌, ◌≢◌, refl, Text, text, List, [], ◌∷◌, map}
use evm_rpc.Api.Error.{Result, ok, err, panic}
use evm_rpc.Api.RpcTypes.{new_rpc_pending_transaction}
use evm_rpc.Storage.Blocks.Total.{get_decoded-ne-panic}
use evm_rpc.Storage.TxPool.{Redis, TxLib, get_pending_tx, keep, read_each, get_pending_transactions}
use evm_rpc.Storage.Accounts.{AccountState}
use evm_rpc.Eth.Submit.{pending_transactions}

-- The values of the calls that succeed.
abbrev pub successes : {A : Type 0} → List (Result A) → List A
successes [] = []
successes (ok a ∷ rs) = a ∷ successes rs
successes (err _ ∷ rs) = successes rs
successes (panic ∷ rs) = successes rs

module _ (redis : Redis) (txs : TxLib) (decode_account : List ℕ → Result AccountState)
    (chain_id : ℕ) where
  open redis use {Db}
  open txs use {Transaction}

  abbrev pub read : Db → Text → Result Transaction
  read db h = get_pending_tx redis txs db (txs.hex_to_hash h)

  read-ne-panic : ((b : List ℕ) → txs.decode b ≢ panic) → (db : Db) (h : Text) → read db h ≢ panic
  unfolding get_pending_tx
  read-ne-panic safe db h = get_decoded-ne-panic (redis.get db) _ _ txs.decode safe

  keep-successes :
      (r : Result Transaction) (rs : List (Result Transaction)) (more : Result (List Transaction))
      → r ≢ panic
      → more ≡ ok (successes rs)
      → keep redis txs r more ≡ ok (successes (r ∷ rs))
  keep-successes (ok tx) rs more p e = rw e
  keep-successes (err _) rs more p e = e
  keep-successes panic rs more p e = absurd (p refl)

  read_each-successes :
      ((b : List ℕ) → txs.decode b ≢ panic)
      → (db : Db) (hs : List Text) → read_each redis txs db hs ≡ ok (successes (map (read db) hs))
  unfolding read_each
  read_each-successes safe db [] = refl
  read_each-successes safe db (h ∷ hs) =
      keep-successes (read db h) (map (read db) hs) (read_each redis txs db hs)
        (read-ne-panic safe db h) (read_each-successes safe db hs)

  -- With a decoder that does not panic, and the members of the price index at hand, the pending
  -- transactions are the RPC forms of those members' transactions that can be read, in the index's
  -- order; one that cannot be read is left out, and is no error.
  pub pending_transactions-successes :
      (db : Db) (hs : List Text)
      → ((b : List ℕ) → txs.decode b ≢ panic)
      → redis.z_rev_range (text "pool:byprice") db ≡ ok hs
      → pending_transactions redis txs decode_account chain_id db
        ≡ ok (map (λ tx. new_rpc_pending_transaction (txs.geth tx)) (successes (map (read db) hs)))
  unfolding pending_transactions get_pending_transactions
  pending_transactions-successes db hs safe e = rw (e, read_each-successes safe db hs)
