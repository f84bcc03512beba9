-- ===== src/Tests/Managers.antt =====
-- A cache manager whose caches never evict.
use evm_rpc.Prelude.{
  ℕ, ◌≡◌, ◌⊎◌, refl, false, none, some, arith, text, List, [], ◌∷◌, text_key, lookup,
}
use evm_rpc.Prelude.Int.{pos}
use evm_rpc.Cache.Store.{Cache}
use evm_rpc.Api.Error.{ok}
use evm_rpc.Cache.Manager.{Cached, Manager, get_block}
use evm_rpc.Cache.Manager.Latest
use evm_rpc.Cache.Manager.Latest.{latest_of}
use evm_rpc.Cache.Manager.Asserted
use evm_rpc.Cache.Manager.Asserted.{IsTyped}
use evm_rpc.Cache.Manager.Calls.{
  Call, gets_block, sets_block, sets_block_by_hash, cleans, of_blocks, gets_code, run_all,
}
use evm_rpc.Tests.Caching.{list_lru, list_lru-IsLru}

abbrev fresh : Cache {V = Cached ℕ ℕ ℕ ℕ} list_lru
fresh = record { lru = []; hits = 0; misses = 0; pending = [] }

abbrev five_fresh : Manager ℕ ℕ ℕ ℕ list_lru
five_fresh = record {
  block_cache = fresh;
  tx_cache = fresh;
  receipt_cache = fresh;
  balance_cache = fresh;
  code_cache = fresh;
  ttl = record {
    block = pos 10;
    transaction = pos 10;
    receipt = pos 10;
    balance = pos 1;
    code = pos 0;
  };
}

five_fresh-IsTyped : IsTyped ℕ ℕ ℕ ℕ list_lru list_lru-IsLru five_fresh
unfolding lookup list_lru-IsLru
five_fresh-IsTyped = record {
  blocks = λ k i q. cc;
  transactions = λ k i q. cc;
  receipts = λ k i q. cc;
  codes = λ k i q. cc;
}

abbrev calls : List (Call ℕ ℕ ℕ ℕ)
calls = sets_block 0 7 70 ∷ gets_block 1 7 ∷ gets_code 2 (text "0xaa") ∷ []

run_all-IsTyped_example :
    IsTyped ℕ ℕ ℕ ℕ list_lru list_lru-IsLru (run_all ℕ ℕ ℕ ℕ list_lru calls five_fresh).0
    × ((run_all ℕ ℕ ℕ ℕ list_lru calls five_fresh).1 ≡ false)
run_all-IsTyped_example =
    Asserted.run_all-IsTyped ℕ ℕ ℕ ℕ list_lru list_lru-IsLru calls five_fresh five_fresh-IsTyped

-- The block 7 is set twice, with another block and a hash between.
abbrev block_calls : List (Call ℕ ℕ ℕ ℕ)
block_calls =
    sets_block 0 7 70
    ∷ sets_block 0 8 80
    ∷ sets_block_by_hash 0 (7 ∷ []) 90
    ∷ cleans of_blocks
    ∷ sets_block 1 7 71
    ∷ []

run_all-latest_example :
    ((get_block ℕ ℕ ℕ ℕ list_lru 5 7 (run_all ℕ ℕ ℕ ℕ list_lru block_calls five_fresh).0).1
      ≡ ok none)
    ⊎ ((b : ℕ) × ((get_block ℕ ℕ ℕ ℕ list_lru 5 7
            (run_all ℕ ℕ ℕ ℕ list_lru block_calls five_fresh).0).1
          ≡ ok (some b))
        × (latest_of ℕ ℕ ℕ ℕ 7 block_calls none ≡ some b))
unfolding lookup list_lru-IsLru
run_all-latest_example =
    Latest.run_all-latest ℕ ℕ ℕ ℕ list_lru list_lru-IsLru 7 (omega arith) block_calls 5 five_fresh
      (omega arith, (omega arith, (tt, (tt, (omega arith, tt))))) refl
