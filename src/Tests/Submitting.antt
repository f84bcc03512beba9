-- ===== src/Tests/Submitting.antt =====
-- A transaction that is sent, and then found in the pool.
use mathlib.Core.Path.{subst}
use evm_rpc.Prelude.{
  ℕ, ◌*◌, ◌≡◌, refl, ap, ◌∙◌, Option, none, some, Text, text, List, [], ◌∷◌, Map, text_key, lookup,
  insert, delete, lookup-insert, beq_refl,
}
use evm_rpc.Prelude.Int.{◌+ℤ◌, ◌*ℤ◌, to_int64}
use evm_rpc.Api.Error.{failure, Result, ok, err}
use evm_rpc.Storage.Pika.{RedisReply, value, pika_get}
use evm_rpc.Storage.Accounts
use evm_rpc.Storage.Accounts.{AccountState}
use evm_rpc.Storage.TxPool.{
  Redis, TxLib, pending_key, index_by_price, index_by_sender, add_pending_tx,
}
use evm_rpc.Storage.TxPool.Kept.{IsStore}
use evm_rpc.Eth.Submit.{check_transaction, send_raw_transaction}
use evm_rpc.Eth.Submit.Sent
use evm_rpc.Eth.Submit.Sent.{WasSent}
use evm_rpc.Tests.Pool.{gas_only}

-- What was not set is empty.
abbrev or_empty : Option (List ℕ) → RedisReply
or_empty none = value []
or_empty (some bytes) = value bytes

-- A store of strings, which takes every command.
abbrev willing : Redis
willing = record {
  Db = Map Text (List ℕ);
  get = λ db key. or_empty (lookup key db);
  set = λ key v db. (insert key v db, ok tt);
  del = λ key db. (delete key db, ok tt);
  z_add = λ key score member db. (db, ok tt);
  z_rem = λ key member db. (db, ok tt);
  z_card = λ key db. ok 0;
  z_range = λ key db. ok [];
  z_rev_range = λ key db. ok [];
  publish = λ channel message db. (db, ok tt);
}

read_back :
    (k : Text) (v : List ℕ) (db db' : Map Text (List ℕ))
    → willing.set k v db ≡ (db', ok tt)
    → willing.get db' k ≡ value v
read_back k v db db' e =
    subst (λ (d : Map Text (List ℕ)). or_empty (lookup k d) ≡ value v)
      (ap (λ (r : Map Text (List ℕ) × Result (Unit {0})). r.0) e)
      (ap or_empty (lookup-insert k k v db) ∙ rw (beq_refl k))

willing_store : IsStore willing
willing_store = record {
  get-set = read_back;
  get-z_add = λ k v key score member db h. h;
  get-publish = λ k v channel message db h. h;
}

abbrev first_byte : List ℕ → Result ℕ
first_byte [] = err (failure (text "unexpected EOF"))
first_byte (b ∷ _) = ok b

-- A transaction is one byte, its gas limit in thousands.
abbrev thousands : TxLib
thousands = record gas_only { gas = λ g. g * 1000; encode = λ g. ok (g ∷ []); decode = first_byte }

decodes : (g : ℕ) (bytes : List ℕ) → ok (g ∷ []) ≡ ok bytes → first_byte bytes ≡ ok g
decodes g bytes e = subst (λ b. first_byte b ≡ ok g) (inner e) refl
  where
    inner : ok (g ∷ []) ≡ ok bytes → g ∷ [] ≡ bytes
    inner q = cc

abbrev rich : List ℕ → Result AccountState
rich b = ok (record { nonce = 3; balance = some 43000; code_hash = [] })

abbrev filled : Map Text (List ℕ)
filled = (pending_key willing thousands [], 21 ∷ []) ∷ []

accepted : send_raw_transaction willing thousands rich 56 (21 ∷ []) [] ≡ (filled, ok [])
unfolding send_raw_transaction check_transaction add_pending_tx index_by_sender index_by_price
    Accounts.get_nonce Accounts.get_balance pika_get insert lookup ◌+ℤ◌ ◌*ℤ◌ to_int64
accepted = refl

send_raw_transaction-WasSent_example : WasSent willing thousands rich 56 (21 ∷ []) [] filled []
send_raw_transaction-WasSent_example =
    Sent.send_raw_transaction-WasSent willing thousands rich 56 willing_store (21 ∷ []) [] filled []
      decodes accepted
