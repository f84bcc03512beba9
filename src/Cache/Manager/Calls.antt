-- ===== src/Cache/Manager/Calls.antt =====
-- The manager's calls, one after the other.
use evm_rpc.Prelude.{ℕ, Bool, true, false, ◌||◌, Text, List, [], ◌∷◌}
use evm_rpc.Api.Error.{Result, panic}
use evm_rpc.Cache.Lru.{LruLib}
use evm_rpc.Cache.Store
use evm_rpc.Cache.Store.{CacheItem, Cache}
use evm_rpc.Cache.Manager.{
  Cached, Manager, get_block, set_block, get_block_by_hash, set_block_by_hash, get_transaction,
  set_transaction, get_receipt, set_receipt, get_balance, set_balance, get_code, set_code,
  manager_clear,
}

abbrev pub is_panic : {A : Type 0} → Result A → Bool
is_panic panic = true
is_panic _ = false

module _ (Block Transaction Receipt Any : Type 0) where
  abbrev pub Value : Type 0
  Value = Cached Block Transaction Receipt Any

  -- The manager's caches.
  pub data Slot : Type 0 where
    of_blocks : Slot
    of_transactions : Slot
    of_receipts : Slot
    of_balances : Slot
    of_codes : Slot

  -- The calls, with the time that they read, and the cleanup of a cache that runs.
  pub data Call : Type 0 where
    gets_block : ℕ → ℕ → Call
    sets_block : ℕ → ℕ → Block → Call
    gets_block_by_hash : ℕ → List ℕ → Call
    sets_block_by_hash : ℕ → List ℕ → Block → Call
    gets_transaction : ℕ → List ℕ → Call
    sets_transaction : ℕ → List ℕ → Transaction → Call
    gets_receipt : ℕ → List ℕ → Call
    sets_receipt : ℕ → List ℕ → Receipt → Call
    gets_balance : ℕ → Text → Text → Call
    sets_balance : ℕ → Text → Text → Value → Call
    gets_code : ℕ → Text → Call
    sets_code : ℕ → Text → List ℕ → Call
    clears : Call
    cleans : Slot → Call

  module _ (lib : LruLib (CacheItem Value)) where
    abbrev pub M : Type 0
    M = Manager Block Transaction Receipt Any lib

    abbrev with_panic : {A : Type 0} → M × Result A → M × Bool
    with_panic (m, r) = (m, is_panic r)

    -- A call, and whether it panics.
    unfoldable pub run : Call → M → M × Bool
    run (gets_block now n) m = with_panic (get_block Block Transaction Receipt Any lib now n m)
    run (sets_block now n b) m = (set_block Block Transaction Receipt Any lib now n b m, false)
    run (gets_block_by_hash now h) m =
        with_panic (get_block_by_hash Block Transaction Receipt Any lib now h m)
    run (sets_block_by_hash now h b) m =
        (set_block_by_hash Block Transaction Receipt Any lib now h b m, false)
    run (gets_transaction now h) m =
        with_panic (get_transaction Block Transaction Receipt Any lib now h m)
    run (sets_transaction now h t) m =
        (set_transaction Block Transaction Receipt Any lib now h t m, false)
    run (gets_receipt now h) m = with_panic (get_receipt Block Transaction Receipt Any lib now h m)
    run (sets_receipt now h r) m = (set_receipt Block Transaction Receipt Any lib now h r m, false)
    run (gets_balance now a n) m =
        ((get_balance Block Transaction Receipt Any lib now a n m).0, false)
    run (sets_balance now a n v) m =
        (set_balance Block Transaction Receipt Any lib now a n v m, false)
    run (gets_code now a) m = with_panic (get_code Block Transaction Receipt Any lib now a m)
    run (sets_code now a c) m = (set_code Block Transaction Receipt Any lib now a c m, false)
    run clears m = (manager_clear Block Transaction Receipt Any lib m, false)
    run (cleans of_blocks) m =
        (record m { block_cache = Store.run_cleanup lib m.block_cache }, false)
    run (cleans of_transactions) m =
        (record m { tx_cache = Store.run_cleanup lib m.tx_cache }, false)
    run (cleans of_receipts) m =
        (record m { receipt_cache = Store.run_cleanup lib m.receipt_cache }, false)
    run (cleans of_balances) m =
        (record m { balance_cache = Store.run_cleanup lib m.balance_cache }, false)
    run (cleans of_codes) m = (record m { code_cache = Store.run_cleanup lib m.code_cache }, false)

    unfoldable pub run_all : List Call → M → M × Bool
    run_all [] m = (m, false)
    run_all (c ∷ cs) m = let (m', p) = run c m in let (m'', ps) = run_all cs m' in (m'', p || ps)
