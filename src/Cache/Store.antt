-- ===== src/Cache/Store.antt =====
-- `Cache` of pkg/cache/lru.go: an LRU cache whose items expire. A call is one step: it holds the
-- cache's lock from beginning to end. (Two `Get`s share the read lock; that their counts may then
-- be lost is not modelled.) `go c.Delete(key)` is a step of its own, later.
pub mod Reads
pub mod Cleanup
pub mod Last
use evm_rpc.Prelude.{
  ℕ, suc, ◌+◌, ◌%◌, Bool, true, false, Option, none, some, Text, text, List, [], ◌∷◌, ltb, ◌==◌,
  if◌then◌else◌,
}
use evm_rpc.Prelude.Int.{ℤ, pos, pos_part, ltbℤ, two64}
use evm_rpc.Api.Error.{Result, ok, err, failure}
use evm_rpc.Cache.Lru.{LruLib}

-- The zero time is no expiration.
pub record CacheItem (V : Type 0) : Type 0 where
  pub value : V
  pub expiration : Option ℕ

abbrev pub is_after : ℕ → Option ℕ → Bool
is_after now none = false
is_after now (some e) = ltb e now

-- `IsExpired()` at the time `now`.
unfoldable pub is_expired : {V : Type 0} → ℕ → CacheItem V → Bool
is_expired now i = is_after now i.expiration

-- The item that `Set` stores; a ttl that is not positive never expires.
abbrev pub item_of : {V : Type 0} → ℕ → V → ℤ → CacheItem V
item_of now value ttl = record {
  value = value;
  expiration = if ltbℤ (pos 0) ttl then some (now + pos_part ttl) else none;
}

pub record CacheStats : Type 0 where
  pub hits : ℕ
  pub misses : ℕ
  pub size : ℕ
  pub hit_rate : ℕ × ℕ

module _ {V : Type 0} (lib : LruLib (CacheItem V)) where
  open lib use {Lru}

  -- `pending` holds the keys of the started `go c.Delete(key)` that have not run yet.
  pub record Cache : Type 0 where
    pub lru : Lru
    pub hits : ℕ
    pub misses : ℕ
    pub pending : List Text

  abbrev new_cache_with : Option Lru → Result Cache
  new_cache_with none = err (failure (text "must provide a positive size"))
  new_cache_with (some l) = ok (record { lru = l; hits = 0; misses = 0; pending = [] })

  unfoldable pub new_cache : ℤ → Result Cache
  new_cache size = new_cache_with (lib.new size)

  -- `c.hits++` and `c.misses++` on a uint64.
  abbrev hit : Cache → Cache
  hit c = record c { hits = (c.hits + 1) % two64 }

  abbrev miss : Cache → Cache
  miss c = record c { misses = (c.misses + 1) % two64 }

  abbrev pub found_with : ℕ → Text → Option (CacheItem V) → Cache → Cache × Option V
  found_with now key none c = (miss c, none)
  found_with now key (some item) c =
      if is_expired now item
      then (record (miss c) { pending = key ∷ c.pending }, none)
      else (hit c, some item.value)

  -- `Get(key)`.
  unfoldable pub get : ℕ → Text → Cache → Cache × Option V
  unfolding is_expired
  get now key c =
      let (l, item) = lib.get key c.lru in found_with now key item (record c { lru = l })

  -- `Set(key, value, ttl)`.
  unfoldable pub set : ℕ → Text → V → ℤ → Cache → Cache
  set now key value ttl c = record c { lru = lib.add key (item_of now value ttl) c.lru }

  unfoldable pub delete : Text → Cache → Cache
  delete key c = record c { lru = lib.remove key c.lru }

  unfoldable pub clear : Cache → Cache
  clear c = record c { lru = lib.purge c.lru }

  unfoldable pub len : Cache → ℕ
  len c = lib.len c.lru

  -- The hit rate as a fraction.
  unfoldable pub hit_rate : Cache → ℕ × ℕ
  hit_rate c =
      let total = (c.hits + c.misses) % two64 in if total == 0 then (0, 1) else (c.hits, total)

  unfoldable pub stats : Cache → CacheStats
  unfolding len hit_rate
  stats c = record { hits = c.hits; misses = c.misses; size = len c; hit_rate = hit_rate c }

  -- The first pending cleanup runs.
  abbrev pub run_cleanup_of : List Text → Cache → Cache
  run_cleanup_of [] c = c
  run_cleanup_of (key ∷ rest) c = delete key (record c { pending = rest })

  unfoldable pub run_cleanup : Cache → Cache
  unfolding delete
  run_cleanup c = run_cleanup_of c.pending c
