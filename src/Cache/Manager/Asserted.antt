-- ===== src/Cache/Manager/Asserted.antt =====
-- The calls of Cache/Manager/Calls: no getter's type assertion fails.
use evm_rpc.Prelude.{◌≡◌, refl, ap, ◌∙◌, false, ◌||◌, Option, none, some, List, [], ◌∷◌}
use evm_rpc.Cache.Lru.{LruLib, IsLru}
use evm_rpc.Cache.Store.{CacheItem, Cache}
use evm_rpc.Cache.Manager.{
  Cached, block, transaction, receipt, code, any_value, as_block, as_transaction, as_receipt,
  as_code, Manager, get_block, set_block, get_block_by_hash, set_block_by_hash, get_transaction,
  set_transaction, get_receipt, set_receipt, get_balance, set_balance, get_code, set_code,
  manager_clear, block_key, block_hash_key, tx_key, receipt_key, code_key,
}
use evm_rpc.Cache.Manager.Typed.{
  AllAre, set-AllAre, get-AllAre, clear-AllAre, run_cleanup-AllAre, get-Are,
}
use evm_rpc.Cache.Manager.Calls.{
  Call, gets_block, sets_block, gets_block_by_hash, sets_block_by_hash, gets_transaction,
  sets_transaction, gets_receipt, sets_receipt, gets_balance, sets_balance, gets_code, sets_code,
  clears, cleans, of_blocks, of_transactions, of_receipts, of_balances, of_codes, is_panic, run,
  run_all,
}

module _ (Block Transaction Receipt Any : Type 0) where
  abbrev Value : Type 0
  Value = Cached Block Transaction Receipt Any

  abbrev pub IsBlock : Value → Type 0
  IsBlock (block _) = Unit
  IsBlock _ = ⊥

  abbrev pub IsTransaction : Value → Type 0
  IsTransaction (transaction _) = Unit
  IsTransaction _ = ⊥

  abbrev pub IsReceipt : Value → Type 0
  IsReceipt (receipt _) = Unit
  IsReceipt _ = ⊥

  abbrev pub IsCode : Value → Type 0
  IsCode (code _) = Unit
  IsCode _ = ⊥

  as_block-typed :
      (o : Option Value)
      → ((v : Value) → o ≡ some v → IsBlock v)
      → is_panic (as_block Block Transaction Receipt Any o) ≡ false
  as_block-typed none h = refl
  as_block-typed (some (block b)) h = refl
  as_block-typed (some (transaction t)) h = absurd (h _ refl)
  as_block-typed (some (receipt r)) h = absurd (h _ refl)
  as_block-typed (some (code c)) h = absurd (h _ refl)
  as_block-typed (some (any_value a)) h = absurd (h _ refl)

  as_transaction-typed :
      (o : Option Value)
      → ((v : Value) → o ≡ some v → IsTransaction v)
      → is_panic (as_transaction Block Transaction Receipt Any o) ≡ false
  as_transaction-typed none h = refl
  as_transaction-typed (some (transaction t)) h = refl
  as_transaction-typed (some (block b)) h = absurd (h _ refl)
  as_transaction-typed (some (receipt r)) h = absurd (h _ refl)
  as_transaction-typed (some (code c)) h = absurd (h _ refl)
  as_transaction-typed (some (any_value a)) h = absurd (h _ refl)

  as_receipt-typed :
      (o : Option Value)
      → ((v : Value) → o ≡ some v → IsReceipt v)
      → is_panic (as_receipt Block Transaction Receipt Any o) ≡ false
  as_receipt-typed none h = refl
  as_receipt-typed (some (receipt r)) h = refl
  as_receipt-typed (some (block b)) h = absurd (h _ refl)
  as_receipt-typed (some (transaction t)) h = absurd (h _ refl)
  as_receipt-typed (some (code c)) h = absurd (h _ refl)
  as_receipt-typed (some (any_value a)) h = absurd (h _ refl)

  as_code-typed :
      (o : Option Value)
      → ((v : Value) → o ≡ some v → IsCode v)
      → is_panic (as_code Block Transaction Receipt Any o) ≡ false
  as_code-typed none h = refl
  as_code-typed (some (code c)) h = refl
  as_code-typed (some (block b)) h = absurd (h _ refl)
  as_code-typed (some (transaction t)) h = absurd (h _ refl)
  as_code-typed (some (receipt r)) h = absurd (h _ refl)
  as_code-typed (some (any_value a)) h = absurd (h _ refl)

  module _ (lib : LruLib (CacheItem Value)) (lru : IsLru lib) where
    abbrev M : Type 0
    M = Manager Block Transaction Receipt Any lib

    pub record IsTyped (m : M) : Type 0 where
      pub blocks : AllAre lib lru IsBlock m.block_cache
      pub transactions : AllAre lib lru IsTransaction m.tx_cache
      pub receipts : AllAre lib lru IsReceipt m.receipt_cache
      pub codes : AllAre lib lru IsCode m.code_cache

    module _ (m : M) (h : IsTyped m) where
      blocks-IsTyped :
          (c : Cache lib) → AllAre lib lru IsBlock c → IsTyped (record m { block_cache = c })
      blocks-IsTyped c k = record {
        blocks = k;
        transactions = h.transactions;
        receipts = h.receipts;
        codes = h.codes;
      }

      transactions-IsTyped :
          (c : Cache lib) → AllAre lib lru IsTransaction c → IsTyped (record m { tx_cache = c })
      transactions-IsTyped c k = record {
        blocks = h.blocks;
        transactions = k;
        receipts = h.receipts;
        codes = h.codes;
      }

      receipts-IsTyped :
          (c : Cache lib) → AllAre lib lru IsReceipt c → IsTyped (record m { receipt_cache = c })
      receipts-IsTyped c k = record {
        blocks = h.blocks;
        transactions = h.transactions;
        receipts = k;
        codes = h.codes;
      }

      balances-IsTyped : (c : Cache lib) → IsTyped (record m { balance_cache = c })
      balances-IsTyped c = record {
        blocks = h.blocks;
        transactions = h.transactions;
        receipts = h.receipts;
        codes = h.codes;
      }

      codes-IsTyped :
          (c : Cache lib) → AllAre lib lru IsCode c → IsTyped (record m { code_cache = c })
      codes-IsTyped c k = record {
        blocks = h.blocks;
        transactions = h.transactions;
        receipts = h.receipts;
        codes = k;
      }

    run-IsTyped :
        (c : Call Block Transaction Receipt Any) (m : M)
        → IsTyped m
        → IsTyped (run Block Transaction Receipt Any lib c m).0
          × ((run Block Transaction Receipt Any lib c m).1 ≡ false)
    unfolding run get_block set_block get_block_by_hash set_block_by_hash get_transaction
        set_transaction get_receipt set_receipt get_balance set_balance get_code set_code
        manager_clear
    run-IsTyped (gets_block now n) m h = (
      blocks-IsTyped m h _ (get-AllAre lib lru IsBlock now _ m.block_cache h.blocks),
      as_block-typed _ (λ v. get-Are lib lru IsBlock now (block_key n) m.block_cache v h.blocks),
    )
    run-IsTyped (sets_block now n v) m h = (
      blocks-IsTyped m h _ (set-AllAre lib lru IsBlock now _ _ _ m.block_cache tt h.blocks),
      refl,
    )
    run-IsTyped (gets_block_by_hash now n) m h = (
      blocks-IsTyped m h _ (get-AllAre lib lru IsBlock now _ m.block_cache h.blocks),
      as_block-typed _
          (λ v. get-Are lib lru IsBlock now (block_hash_key n) m.block_cache v h.blocks),
    )
    run-IsTyped (sets_block_by_hash now n v) m h = (
      blocks-IsTyped m h _ (set-AllAre lib lru IsBlock now _ _ _ m.block_cache tt h.blocks),
      refl,
    )
    run-IsTyped (gets_transaction now n) m h = (
      transactions-IsTyped m h _ (get-AllAre lib lru IsTransaction now _ m.tx_cache h.transactions),
      as_transaction-typed _
          (λ v. get-Are lib lru IsTransaction now (tx_key n) m.tx_cache v h.transactions),
    )
    run-IsTyped (sets_transaction now n v) m h = (
      transactions-IsTyped m h _
          (set-AllAre lib lru IsTransaction now _ _ _ m.tx_cache tt h.transactions),
      refl,
    )
    run-IsTyped (gets_receipt now n) m h = (
      receipts-IsTyped m h _ (get-AllAre lib lru IsReceipt now _ m.receipt_cache h.receipts),
      as_receipt-typed _
          (λ v. get-Are lib lru IsReceipt now (receipt_key n) m.receipt_cache v h.receipts),
    )
    run-IsTyped (sets_receipt now n v) m h = (
      receipts-IsTyped m h _ (set-AllAre lib lru IsReceipt now _ _ _ m.receipt_cache tt h.receipts),
      refl,
    )
    run-IsTyped (gets_code now n) m h = (
      codes-IsTyped m h _ (get-AllAre lib lru IsCode now _ m.code_cache h.codes),
      as_code-typed _ (λ v. get-Are lib lru IsCode now (code_key n) m.code_cache v h.codes),
    )
    run-IsTyped (sets_code now n v) m h =
        (codes-IsTyped m h _ (set-AllAre lib lru IsCode now _ _ _ m.code_cache tt h.codes), refl)
    run-IsTyped (gets_balance now a n) m h = (balances-IsTyped m h _, refl)
    run-IsTyped (sets_balance now a n v) m h = (balances-IsTyped m h _, refl)
    run-IsTyped clears m h = (
      record {
        blocks = clear-AllAre lib lru IsBlock m.block_cache;
        transactions = clear-AllAre lib lru IsTransaction m.tx_cache;
        receipts = clear-AllAre lib lru IsReceipt m.receipt_cache;
        codes = clear-AllAre lib lru IsCode m.code_cache;
      },
      refl,
    )
    run-IsTyped (cleans of_blocks) m h =
        (blocks-IsTyped m h _ (run_cleanup-AllAre lib lru IsBlock m.block_cache h.blocks), refl)
    run-IsTyped (cleans of_transactions) m h = (
      transactions-IsTyped m h _
          (run_cleanup-AllAre lib lru IsTransaction m.tx_cache h.transactions),
      refl,
    )
    run-IsTyped (cleans of_receipts) m h = (
      receipts-IsTyped m h _ (run_cleanup-AllAre lib lru IsReceipt m.receipt_cache h.receipts),
      refl,
    )
    run-IsTyped (cleans of_balances) m h = (balances-IsTyped m h _, refl)
    run-IsTyped (cleans of_codes) m h =
        (codes-IsTyped m h _ (run_cleanup-AllAre lib lru IsCode m.code_cache h.codes), refl)

    -- No sequence of calls on a manager whose caches hold values of their own types panics, and the
    -- caches still do after it.
    pub run_all-IsTyped :
        (cs : List (Call Block Transaction Receipt Any)) (m : M)
        → IsTyped m
        → IsTyped (run_all Block Transaction Receipt Any lib cs m).0
          × ((run_all Block Transaction Receipt Any lib cs m).1 ≡ false)
    unfolding run_all
    run_all-IsTyped [] m h = (h, refl)
    run_all-IsTyped (c ∷ cs) m h =
        let (typed, calm) = run-IsTyped c m h in
        let (typed', calm') =
          run_all-IsTyped cs (run Block Transaction Receipt Any lib c m).0 typed in
        (
          typed',
          ap
                (λ b.
                  b
                  || (run_all Block Transaction Receipt Any lib cs
                      (run Block Transaction Receipt Any lib c m).0).1)
                calm
              ∙ calm',
        )
