-- ===== src/Cache/Manager.antt =====
-- `Manager` of pkg/cache/manager.go: five caches with their keys and times to live. A cache holds
-- values of any type, which a getter asserts to be of its own; a failed assertion is a panic.
pub mod Typed
pub mod Calls
pub mod Asserted
pub mod Latest
use evm_rpc.Prelude.{
  ℕ, ◌+◌, ◌%◌, Bool, true, false, Option, none, some, Text, text, ◌++◌, List, [], ◌∷◌, Map, ◌==◌,
  if◌then◌else◌,
}
use evm_rpc.Prelude.Int.{ℤ, two64}
use evm_rpc.Strconv.Print.{format_uint, format_bytes}
use evm_rpc.Api.Error.{GoError, Result, ok, err, panic, ◌>>=◌, map_err, wrap}
use evm_rpc.Cache.Lru.{LruLib}
use evm_rpc.Cache.Store
use evm_rpc.Cache.Store.{CacheItem, Cache, CacheStats, new_cache}

-- `config.CacheConfig`.
pub record CacheTtlConfig : Type 0 where
  pub block : ℤ
  pub transaction : ℤ
  pub receipt : ℤ
  pub balance : ℤ
  pub code : ℤ

pub record CacheConfig : Type 0 where
  pub enabled : Bool
  pub block_cache_size : ℤ
  pub tx_cache_size : ℤ
  pub receipt_cache_size : ℤ
  pub balance_cache_size : ℤ
  pub code_cache_size : ℤ
  pub ttl : CacheTtlConfig

-- `fmt.Sprintf` of the keys; `hash.Hex()` is `0x` and the bytes in hexadecimal.
unfoldable pub block_key : ℕ → Text
block_key number = text "blk:" ++ format_uint number 10

abbrev pub hash_hex : List ℕ → Text
hash_hex hash = text "0x" ++ format_bytes hash

unfoldable pub block_hash_key : List ℕ → Text
block_hash_key hash = text "blk:hash:" ++ hash_hex hash

unfoldable pub tx_key : List ℕ → Text
tx_key hash = text "tx:" ++ hash_hex hash

unfoldable pub receipt_key : List ℕ → Text
receipt_key hash = text "rcpt:" ++ hash_hex hash

unfoldable pub balance_key : Text → Text → Text
balance_key address_hex block_number = text "bal:" ++ (address_hex ++ (text ":" ++ block_number))

unfoldable pub code_key : Text → Text
code_key address_hex = text "code:" ++ address_hex

module _ (Block Transaction Receipt Any : Type 0) where
  -- A value of some dynamic type.
  pub data Cached : Type 0 where
    block : Block → Cached
    transaction : Transaction → Cached
    receipt : Receipt → Cached
    code : List ℕ → Cached
    any_value : Any → Cached

  abbrev pub as_block : Option Cached → Result (Option Block)
  as_block none = ok none
  as_block (some (block b)) = ok (some b)
  as_block (some _) = panic

  abbrev pub as_transaction : Option Cached → Result (Option Transaction)
  as_transaction none = ok none
  as_transaction (some (transaction t)) = ok (some t)
  as_transaction (some _) = panic

  abbrev pub as_receipt : Option Cached → Result (Option Receipt)
  as_receipt none = ok none
  as_receipt (some (receipt r)) = ok (some r)
  as_receipt (some _) = panic

  abbrev pub as_code : Option Cached → Result (Option (List ℕ))
  as_code none = ok none
  as_code (some (code c)) = ok (some c)
  as_code (some _) = panic

  module _ (lib : LruLib (CacheItem Cached)) where
    pub record Manager : Type 0 where
      pub block_cache : Cache lib
      pub tx_cache : Cache lib
      pub receipt_cache : Cache lib
      pub balance_cache : Cache lib
      pub code_cache : Cache lib
      pub ttl : CacheTtlConfig

    -- `NewManager`.
    unfoldable pub new_manager : CacheConfig → Result Manager
    new_manager cfg = do
      b ← map_err (wrap (text "failed to create block cache")) (new_cache lib cfg.block_cache_size)
      t ← map_err (wrap (text "failed to create tx cache")) (new_cache lib cfg.tx_cache_size)
      r ←
          map_err (wrap (text "failed to create receipt cache"))
            (new_cache lib cfg.receipt_cache_size)
      v ←
          map_err (wrap (text "failed to create balance cache"))
            (new_cache lib cfg.balance_cache_size)
      c ← map_err (wrap (text "failed to create code cache")) (new_cache lib cfg.code_cache_size)
      ok (record {
        block_cache = b;
        tx_cache = t;
        receipt_cache = r;
        balance_cache = v;
        code_cache = c;
        ttl = cfg.ttl;
      })

    unfoldable pub get_block : ℕ → ℕ → Manager → Manager × Result (Option Block)
    get_block now number m =
        let (c, v) = Store.get lib now (block_key number) m.block_cache in
        (record m { block_cache = c }, as_block v)

    unfoldable pub set_block : ℕ → ℕ → Block → Manager → Manager
    set_block now number b m = record m {
      block_cache = Store.set lib now (block_key number) (block b) m.ttl.block m.block_cache;
    }

    unfoldable pub get_block_by_hash : ℕ → List ℕ → Manager → Manager × Result (Option Block)
    get_block_by_hash now hash m =
        let (c, v) = Store.get lib now (block_hash_key hash) m.block_cache in
        (record m { block_cache = c }, as_block v)

    unfoldable pub set_block_by_hash : ℕ → List ℕ → Block → Manager → Manager
    set_block_by_hash now hash b m = record m {
      block_cache = Store.set lib now (block_hash_key hash) (block b) m.ttl.block m.block_cache;
    }

    unfoldable pub get_transaction : ℕ → List ℕ → Manager → Manager × Result (Option Transaction)
    get_transaction now hash m =
        let (c, v) = Store.get lib now (tx_key hash) m.tx_cache in
        (record m { tx_cache = c }, as_transaction v)

    unfoldable pub set_transaction : ℕ → List ℕ → Transaction → Manager → Manager
    set_transaction now hash t m = record m {
      tx_cache = Store.set lib now (tx_key hash) (transaction t) m.ttl.transaction m.tx_cache;
    }

    unfoldable pub get_receipt : ℕ → List ℕ → Manager → Manager × Result (Option Receipt)
    get_receipt now hash m =
        let (c, v) = Store.get lib now (receipt_key hash) m.receipt_cache in
        (record m { receipt_cache = c }, as_receipt v)

    unfoldable pub set_receipt : ℕ → List ℕ → Receipt → Manager → Manager
    set_receipt now hash r m = record m {
      receipt_cache =
          Store.set lib now (receipt_key hash) (receipt r) m.ttl.receipt m.receipt_cache;
    }

    -- A balance is returned as it is, whatever its type.
    unfoldable pub get_balance : ℕ → Text → Text → Manager → Manager × Option Cached
    get_balance now address_hex block_number m =
        let (c, v) = Store.get lib now (balance_key address_hex block_number) m.balance_cache in
        (record m { balance_cache = c }, v)

    unfoldable pub set_balance : ℕ → Text → Text → Cached → Manager → Manager
    set_balance now address_hex block_number v m = record m {
      balance_cache =
          Store.set lib now (balance_key address_hex block_number) v m.ttl.balance m.balance_cache;
    }

    unfoldable pub get_code : ℕ → Text → Manager → Manager × Result (Option (List ℕ))
    get_code now address_hex m =
        let (c, v) = Store.get lib now (code_key address_hex) m.code_cache in
        (record m { code_cache = c }, as_code v)

    unfoldable pub set_code : ℕ → Text → List ℕ → Manager → Manager
    set_code now address_hex bytes m = record m {
      code_cache = Store.set lib now (code_key address_hex) (code bytes) m.ttl.code m.code_cache;
    }

    unfoldable pub manager_stats : Manager → Map Text CacheStats
    manager_stats m =
        (text "block", Store.stats lib m.block_cache)
        ∷ (text "tx", Store.stats lib m.tx_cache)
        ∷ (text "receipt", Store.stats lib m.receipt_cache)
        ∷ (text "balance", Store.stats lib m.balance_cache)
        ∷ (text "code", Store.stats lib m.code_cache)
        ∷ []

    unfoldable pub manager_clear : Manager → Manager
    manager_clear m = record m {
      block_cache = Store.clear lib m.block_cache;
      tx_cache = Store.clear lib m.tx_cache;
      receipt_cache = Store.clear lib m.receipt_cache;
      balance_cache = Store.clear lib m.balance_cache;
      code_cache = Store.clear lib m.code_cache;
    }

-- The loop of `HitRate`: hits and misses as uint64s.
unfoldable pub add_stats : Map Text CacheStats → ℕ × ℕ → ℕ × ℕ
add_stats [] totals = totals
add_stats ((_, s) ∷ rest) (hits, misses) =
    add_stats rest ((hits + s.hits) % two64, (misses + s.misses) % two64)

-- The overall hit rate as a fraction.
unfoldable pub overall_hit_rate : Map Text CacheStats → ℕ × ℕ
unfolding add_stats
overall_hit_rate stats =
    let (hits, misses) = add_stats stats (0, 0) in
    let total = (hits + misses) % two64 in if total == 0 then (0, 1) else (hits, total)
