-- ===== src/Eth/Submit/Sent.antt =====
-- A transaction that `SendRawTransaction` has accepted is in the pool.
use mathlib.Core.Path.{subst}
use evm_rpc.Prelude.{ℕ, ◌≡◌, refl, ap, text, List}
use evm_rpc.Api.Error.{
  GoError, wrap, rpc_about, Result, ok, err, panic, map_err, err_code_invalid_input,
  err_code_internal,
}
use evm_rpc.Storage.Accounts.{AccountState}
use evm_rpc.Storage.TxPool.{Redis, TxLib, and_then, pending_key, add_pending_tx, get_pending_tx}
use evm_rpc.Storage.TxPool.Kept.{IsStore, get_pending_tx-add_pending_tx}
use evm_rpc.Eth.Submit.{check_transaction, map_snd, send_raw_transaction}

-- A chain that succeeds succeeds at its first step, which here leaves the store as it is.
and_then-checked :
    {D A B : Type 0} (d : D) (r : Result A) (rest : A → D → D × Result B) (db : D) (b : B)
    → and_then (d, r) rest ≡ (db, ok b)
    → (a : A) × (r ≡ ok a) × (rest a d ≡ (db, ok b))
and_then-checked d (ok a) rest db b h = (a, refl, h)
and_then-checked d (err e) rest db b h = absurd (no_error (ap (λ z. z.1) h))
  where
    no_error : err e ≡ ok b → ⊥
    no_error q = cc
and_then-checked d panic rest db b h = absurd (no_panic (ap (λ z. z.1) h))
  where
    no_panic : panic ≡ ok b → ⊥
    no_panic q = cc

-- And one that changes the store.
and_then-done :
    {D A B : Type 0} (r : D × Result A) (rest : A → D → D × Result B) (db : D) (b : B)
    → and_then r rest ≡ (db, ok b)
    → (d : D) × (a : A) × (r ≡ (d, ok a)) × (rest a d ≡ (db, ok b))
and_then-done (d, r) rest db b h =
    let (a, e, q) = and_then-checked d r rest db b h in (d, a, ap (λ r. (d, r)) e, q)

ok-injective : {A : Type 0} {a b : A} → ok a ≡ ok b → a ≡ b
ok-injective h = cc

map_err-ok :
    {A : Type 0} (f : GoError → GoError) (r : Result A) (a : A) → map_err f r ≡ ok a → r ≡ ok a
map_err-ok f (ok x) a h = h
map_err-ok f (err e) a h = absurd (cc h)
map_err-ok f panic a h = absurd (cc h)

module _ (redis : Redis) (txs : TxLib) (decode_account : List ℕ → Result AccountState)
    (chain_id : ℕ) where
  open redis use {Db}
  open txs use {Transaction}

  -- A raw transaction was accepted: it is one that passes the checks, the hash is its hash, and it is
  -- found under that in the pool.
  pub record WasSent (input : List ℕ) (db db' : Db) (hash : List ℕ) : Type 0 where
    pub tx : Transaction
    pub decoded : txs.decode input ≡ ok tx
    pub passed : check_transaction redis txs decode_account chain_id db tx ≡ ok tt
    pub same_hash : txs.hash tx ≡ hash
    pub found : get_pending_tx redis txs db' hash ≡ ok tx

  add_pending_tx-found :
      (store : IsStore redis) (tx : Transaction) (db db' : Db)
      → ((tx : Transaction) (bytes : List ℕ) → txs.encode tx ≡ ok bytes → txs.decode bytes ≡ ok tx)
      → add_pending_tx redis txs tx db ≡ (db', ok tt)
      → get_pending_tx redis txs db' (txs.hash tx) ≡ ok tx
  unfolding add_pending_tx
  add_pending_tx-found store tx db db' codec h =
      let (bytes, encoded, then) =
        and_then-checked db (map_err (wrap (text "failed to encode transaction")) (txs.encode tx)) _
          db' tt h in
      let (d, _, was_set, _) =
        and_then-done (redis.set (pending_key redis txs (txs.hash tx)) bytes db) _ db' tt then in
      let plain = map_err-ok _ (txs.encode tx) bytes encoded in
      subst (λ (z : Db × Result (Unit {0})). get_pending_tx redis txs z.0 (txs.hash tx) ≡ ok tx) h
        (get_pending_tx-add_pending_tx redis txs store tx db d bytes plain (codec tx bytes plain)
          was_set)

  -- On a store that keeps what is set, and where what is encoded is decoded again: if
  -- SendRawTransaction returns a hash, then it decoded a transaction, which passed the checks, the
  -- hash is its hash, and the pool has it under that.
  pub send_raw_transaction-WasSent :
      (store : IsStore redis) (input : List ℕ) (db db' : Db) (hash : List ℕ)
      → ((tx : Transaction) (bytes : List ℕ) → txs.encode tx ≡ ok bytes → txs.decode bytes ≡ ok tx)
      → send_raw_transaction redis txs decode_account chain_id input db ≡ (db', ok hash)
      → WasSent input db db' hash
  unfolding send_raw_transaction
  send_raw_transaction-WasSent store input db db' hash codec h =
      let (tx, decoded, then) =
        and_then-checked db
          (map_err (rpc_about err_code_invalid_input (text "invalid transaction"))
            (txs.decode input))
          _ db' hash h in
      let (_, passed, then) =
        and_then-checked db (check_transaction redis txs decode_account chain_id db tx) _ db' hash
          then in
      let (d, _, added, end) =
        and_then-done
          (map_snd redis txs decode_account chain_id
            (map_err (rpc_about err_code_internal (text "failed to add transaction")))
            (add_pending_tx redis txs tx db))
          _ db' hash then in
      let same : d ≡ db' = ap (λ z. z.0) end in
      let own : txs.hash tx ≡ hash = ok-injective (ap (λ z. z.1) end) in
      let plain : add_pending_tx redis txs tx db ≡ (d, ok tt) = λ i. (
        ap (λ z. z.0) added i,
        map_err-ok _ (add_pending_tx redis txs tx db).1 tt (ap (λ z. z.1) added) i,
      ) in
      record {
        tx = tx;
        decoded = map_err-ok _ (txs.decode input) tx decoded;
        passed = passed;
        same_hash = own;
        found =
            subst (λ k. get_pending_tx redis txs db' k ≡ ok tx) own
              (subst (λ e. get_pending_tx redis txs e (txs.hash tx) ≡ ok tx) same
                (add_pending_tx-found store tx db d codec plain));
      }
