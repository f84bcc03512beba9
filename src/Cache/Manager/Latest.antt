-- ===== src/Cache/Manager/Latest.antt =====
-- The cache of blocks of pkg/cache/manager.go against what was set last under a number.
use mathlib.Core.List.{tail}
use mathlib.Core.Path.{subst}
use mathlib.Core.Option
use evm_rpc.Prelude.{
  ℕ, suc, ◌≡◌, ◌≢◌, ◌<◌, ◌⊎◌, inl, inr, refl, ap, ◌∙◌, sym, true, false, ◌&&◌, Option, none, some,
  Text, text, List, [], ◌∷◌, ◌++◌, leb, ◌==◌, ==_iff, if◌then◌else◌, Bool-cases, arith,
}
use evm_rpc.Prelude.Int.{two64}
use evm_rpc.Strconv.Print.{format_uint}
use evm_rpc.Strconv.RoundTrip.{format_uint_injective}
use evm_rpc.Storage.Transactions.Scan.{AllDigits, format_fuel-AllDigits}
use evm_rpc.Api.Error.{ok}
use evm_rpc.Cache.Lru.{LruLib, IsLru}
use evm_rpc.Cache.Store
use evm_rpc.Cache.Store.{CacheItem, Cache}
use evm_rpc.Cache.Store.Last.{
  Holds, get-Holds, set-Holds_self, set-Holds_other, clear-Holds, run_cleanup-Holds, Holds-get,
}
use evm_rpc.Cache.Manager.{
  Cached, block, as_block, Manager, get_block, set_block, get_block_by_hash, set_block_by_hash,
  get_transaction, set_transaction, get_receipt, set_receipt, get_balance, set_balance, get_code,
  set_code, manager_clear, block_key, block_hash_key,
}
use evm_rpc.Cache.Manager.Calls
use evm_rpc.Cache.Manager.Calls.{Call, run, run_all}

past_prefix : {s t : Text} → text "blk:" ++ s ≡ text "blk:" ++ t → s ≡ t
past_prefix e = ap (λ l. tail (tail (tail (tail l)))) e

block_key_injective : (n m : ℕ) → n < two64 → m < two64 → block_key n ≡ block_key m → n ≡ m
unfolding block_key
block_key_injective n m p q e =
    format_uint_injective 10 n m (omega arith) (omega arith) p q (past_prefix e)

block_hash_key-≢-block_key : (hash : List ℕ) (n : ℕ) → block_hash_key hash ≢ block_key n
unfolding block_hash_key block_key format_uint
block_hash_key-≢-block_key hash n e =
    let no_digit : (leb 48 104 && leb 104 57) ≡ true =
      (subst AllDigits (sym (past_prefix e)) (format_fuel-AllDigits (suc n) n)).0 in
    absurd (ground arith)

module _ (Block Transaction Receipt Any : Type 0) where
  abbrev Value : Type 0
  Value = Cached Block Transaction Receipt Any

  -- The block that was set last under the number, after one more call.
  unfoldable pub latest : ℕ → Call Block Transaction Receipt Any → Option Block → Option Block
  latest n (Calls.sets_block _ k b) last = if k == n then some b else last
  latest n Calls.clears last = none
  latest n _ last = last

  unfoldable pub latest_of :
      ℕ → List (Call Block Transaction Receipt Any) → Option Block → Option Block
  latest_of n [] last = last
  latest_of n (c ∷ cs) last = latest_of n cs (latest n c last)

  -- Block numbers are uint64s.
  abbrev pub NumberFits : Call Block Transaction Receipt Any → Type 0
  NumberFits (Calls.sets_block _ k _) = k < two64
  NumberFits _ = Unit

  abbrev pub NumbersFit : List (Call Block Transaction Receipt Any) → Type 0
  NumbersFit [] = Unit
  NumbersFit (c ∷ cs) = NumberFits c × NumbersFit cs

  module _ (lib : LruLib (CacheItem Value)) (lru : IsLru lib) (n : ℕ) (fits : n < two64) where
    abbrev M : Type 0
    M = Manager Block Transaction Receipt Any lib

    -- What the cache of blocks has under the number, if anything, is the block `last`.
    abbrev pub Keeps : Option Block → M → Type 0
    Keeps last m = Holds lib lru (block_key n) (Option.map block last) m.block_cache

    set_block-Keeps :
        (now k : ℕ) (b : Block) (last : Option Block) (m : M)
        → k < two64
        → Keeps last m
        → Keeps
            (if k == n then some b else last)
            (set_block Block Transaction Receipt Any lib now k b m)
    unfolding set_block
    set_block-Keeps now k b last m small h = elim (Bool-cases (k == n)) [
      | inl e ↦ rw e (
          subst
            (λ j.
              Holds lib lru (block_key j) (some (block b))
                (Store.set lib now (block_key k) (block b) m.ttl.block m.block_cache))
            ((==_iff k n).0 e)
            (set-Holds_self lib lru now (block_key k) (block b) m.ttl.block m.block_cache))
      | inr e ↦ rw e (
          set-Holds_other lib lru now (block_key k) (block_key n) (block b) m.ttl.block
            (Option.map block last) m.block_cache
            (λ q. differ (block_key_injective k n small fits q) e) h)
    ]
      where
        differ : k ≡ n → (k == n) ≡ false → ⊥
        differ p e = ground (arith, ==_iff k n)

    run-Keeps :
        (c : Call Block Transaction Receipt Any) (last : Option Block) (m : M)
        → NumberFits c
        → Keeps last m
        → Keeps (latest n c last) (run Block Transaction Receipt Any lib c m).0
    unfolding run latest get_block get_block_by_hash set_block_by_hash get_transaction
        set_transaction get_receipt set_receipt get_balance set_balance get_code set_code
        manager_clear
    run-Keeps (Calls.gets_block now k) last m f h = get-Holds lib lru now _ _ _ m.block_cache h
    run-Keeps (Calls.sets_block now k b) last m f h = set_block-Keeps now k b last m f h
    run-Keeps (Calls.gets_block_by_hash now k) last m f h =
        get-Holds lib lru now _ _ _ m.block_cache h
    run-Keeps (Calls.sets_block_by_hash now k b) last m f h =
        set-Holds_other lib lru now _ _ _ _ _ m.block_cache (block_hash_key-≢-block_key k n) h
    run-Keeps (Calls.gets_transaction now k) last m f h = h
    run-Keeps (Calls.sets_transaction now k b) last m f h = h
    run-Keeps (Calls.gets_receipt now k) last m f h = h
    run-Keeps (Calls.sets_receipt now k b) last m f h = h
    run-Keeps (Calls.gets_balance now k a) last m f h = h
    run-Keeps (Calls.sets_balance now k a b) last m f h = h
    run-Keeps (Calls.gets_code now k) last m f h = h
    run-Keeps (Calls.sets_code now k b) last m f h = h
    run-Keeps Calls.clears last m f h = clear-Holds lib lru (block_key n) none m.block_cache
    run-Keeps (Calls.cleans Calls.of_blocks) last m f h =
        run_cleanup-Holds lib lru _ _ m.block_cache h
    run-Keeps (Calls.cleans Calls.of_transactions) last m f h = h
    run-Keeps (Calls.cleans Calls.of_receipts) last m f h = h
    run-Keeps (Calls.cleans Calls.of_balances) last m f h = h
    run-Keeps (Calls.cleans Calls.of_codes) last m f h = h

    run_all-Keeps :
        (cs : List (Call Block Transaction Receipt Any)) (last : Option Block) (m : M)
        → NumbersFit cs
        → Keeps last m
        → Keeps (latest_of n cs last) (run_all Block Transaction Receipt Any lib cs m).0
    unfolding run_all latest_of
    run_all-Keeps [] last m f h = h
    run_all-Keeps (c ∷ cs) last m f h =
        run_all-Keeps cs (latest n c last) (run Block Transaction Receipt Any lib c m).0 f.1
          (run-Keeps c last m f.0 h)

    Keeps-get_block :
        (now : ℕ) (last : Option Block) (m : M)
        → Keeps last m
        → ((get_block Block Transaction Receipt Any lib now n m).1 ≡ ok none)
          ⊎ ((b : Block) × ((get_block Block Transaction Receipt Any lib now n m).1 ≡ ok (some b))
              × (last ≡ some b))
    unfolding get_block
    Keeps-get_block now last m h =
        found last (Holds-get lib lru now (block_key n) _ m.block_cache h)
      where
        found :
            (last : Option Block) {o : Option Value}
            → (o ≡ none) ⊎ ((v : Value) × (o ≡ some v) × (Option.map block last ≡ some v))
            → (as_block Block Transaction Receipt Any o ≡ ok none)
              ⊎ ((b : Block) × (as_block Block Transaction Receipt Any o ≡ ok (some b))
                  × (last ≡ some b))
        found last (inl e) = inl (ap (as_block Block Transaction Receipt Any) e)
        found none (inr (v, e, q)) = cc
        found (some b) (inr (v, e, q)) =
            inr (b, ap (as_block Block Transaction Receipt Any) (e ∙ sym q), refl)

    -- On a manager whose cache of blocks is empty, after any calls and cleanups, with block numbers
    -- below 2^64, a lookup by such a number gives the block that was set last under it since the last
    -- `Clear`, or none; never a block that was set under another number or under a hash.
    pub run_all-latest :
        (cs : List (Call Block Transaction Receipt Any)) (now : ℕ) (m : M)
        → NumbersFit cs
        → lru.contents m.block_cache.lru (block_key n) ≡ none
        → ((get_block Block Transaction Receipt Any lib now n
              (run_all Block Transaction Receipt Any lib cs m).0).1
            ≡ ok none)
          ⊎ ((b : Block) × ((get_block Block Transaction Receipt Any lib now n
                  (run_all Block Transaction Receipt Any lib cs m).0).1
                ≡ ok (some b))
              × (latest_of n cs none ≡ some b))
    run_all-latest cs now m f empty =
        Keeps-get_block now (latest_of n cs none) (run_all Block Transaction Receipt Any lib cs m).0
          (run_all-Keeps cs none m f (inl empty))
