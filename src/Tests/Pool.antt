-- ===== src/Tests/Pool.antt =====
-- Two transactions: one that its sender can pay for, and one with a gas limit of 2^64 - 1.
use mathlib.Core.Path.{subst}
use evm_rpc.Prelude.{
  ℕ, ◌≡◌, ◌↔◌, refl, ap, ◌∙◌, Option, none, some, Text, text, List, [], ◌∷◌, Map, text_key, lookup,
  insert, delete, lookup-insert, beq_refl, arith,
}
use evm_rpc.Api.Error.{failure, Result, ok, err, panic}
use evm_rpc.Api.RpcTypes.{GethTransaction}
use evm_rpc.Api.TxPool.Listed
use evm_rpc.Storage.Pika.{RedisReply, value, nil, pika_get}
use evm_rpc.Storage.Accounts
use evm_rpc.Storage.Accounts.{AccountState}
use evm_rpc.Storage.TxPool.{Redis, TxLib, pending_key, add_pending_tx, get_pending_tx}
use evm_rpc.Storage.TxPool.Kept
use evm_rpc.Storage.TxPool.Kept.{IsStore}
use evm_rpc.Eth.Submit.{check_transaction}
use evm_rpc.Eth.Submit.Checks
use evm_rpc.Eth.Submit.Checks.{IsAcceptable}

-- A store that only logs its commands, and has one account everywhere.
abbrev log : Redis
log = record {
  Db = List Text;
  get = λ db key. value [];
  set = λ key v db. (key ∷ db, ok tt);
  del = λ key db. (key ∷ db, ok tt);
  z_add = λ key score member db. (key ∷ db, ok tt);
  z_rem = λ key member db. (key ∷ db, ok tt);
  z_card = λ key db. ok 0;
  z_range = λ key db. ok [];
  z_rev_range = λ key db. ok [];
  publish = λ channel message db. (channel ∷ db, ok tt);
}

abbrev plain : ℕ → GethTransaction
plain g = record {
  tx_type = 0;
  sender = some [];
  gas = g;
  gas_price = 2;
  gas_fee_cap = 2;
  gas_tip_cap = 2;
  hash = [];
  input = [];
  nonce = 4;
  to = none;
  value = 1000;
  chain_id = some 56;
  v = 27;
  r = 1;
  s = 1;
}

abbrev reply_of : Option (List ℕ) → RedisReply
reply_of none = nil
reply_of (some bytes) = value bytes

-- A transaction is its gas limit; its price is 2 and its value 1000.
abbrev pub gas_only : TxLib
gas_only = record {
  Transaction = ℕ;
  hash = λ g. [];
  chain_id = λ g. some 56;
  nonce = λ g. 4;
  gas = λ g. g;
  value = λ g. 1000;
  gas_price = λ g. some 2;
  gas_fee_cap = λ g. none;
  sender = λ g. ok (text "0xaa");
  nil_signer = ok (λ g. some (text "0xaa"));
  to_hex = λ g. none;
  geth = λ g. plain g;
  hex_to_hash = λ s. s;
  encode = λ g. ok [];
  decode = λ b. ok 0;
}

abbrev account : List ℕ → Result AccountState
account b = ok (record { nonce = 3; balance = some 43000; code_hash = [] })

check_transaction_iff_example :
    (check_transaction log gas_only account 56 [] 21000 ≡ ok tt)
    ↔ IsAcceptable log gas_only account 56 [] 21000
check_transaction_iff_example =
    Checks.check_transaction_iff log gas_only account 56 [] 21000 (omega arith)

check_transaction-huge_gas_example :
    check_transaction log gas_only account 56 [] 18446744073709551000 ≡ ok tt
unfolding Accounts.get_nonce Accounts.get_balance pika_get
check_transaction-huge_gas_example =
    Checks.check_transaction-huge_gas log gas_only account 56 [] 18446744073709551000 (text "0xaa")
      3 43000 (omega arith) (omega arith) (omega arith) refl refl refl (omega arith) refl

-- A store of strings, whose sorted sets refuse everything.
abbrev strings : Redis
strings = record {
  Db = Map Text (List ℕ);
  get = λ db key. reply_of (lookup key db);
  set = λ key v db. (insert key v db, ok tt);
  del = λ key db. (delete key db, ok tt);
  z_add = λ key score member db. (db, err (failure (text "read-only")));
  z_rem = λ key member db. (db, err (failure (text "read-only")));
  z_card = λ key db. ok 0;
  z_range = λ key db. ok [];
  z_rev_range = λ key db. ok [];
  publish = λ channel message db. (db, ok tt);
}

read_back :
    (k : Text) (v : List ℕ) (db db' : Map Text (List ℕ))
    → strings.set k v db ≡ (db', ok tt)
    → strings.get db' k ≡ value v
read_back k v db db' e =
    subst (λ (d : Map Text (List ℕ)). reply_of (lookup k d) ≡ value v)
      (ap (λ (r : Map Text (List ℕ) × Result (Unit {0})). r.0) e)
      (ap reply_of (lookup-insert k k v db) ∙ rw (beq_refl k))

strings_store : IsStore strings
strings_store = record {
  get-set = read_back;
  get-z_add = λ k v key score member db h. h;
  get-publish = λ k v channel message db h. h;
}

-- The first sorted set refuses the transaction, and it is found all the same.
get_pending_tx-add_pending_tx_example :
    get_pending_tx strings gas_only (add_pending_tx strings gas_only 0 []).0 [] ≡ ok 0
get_pending_tx-add_pending_tx_example =
    Kept.get_pending_tx-add_pending_tx strings gas_only strings_store 0 []
      (insert (pending_key strings gas_only []) [] []) [] refl refl refl

-- As go-ethereum does without a chain configuration.
abbrev unsigned : TxLib
unsigned = record gas_only { nil_signer = panic }
