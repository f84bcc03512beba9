-- ===== src/Cache/Locks.antt =====
-- The `sync.RWMutex` of `Cache` in pkg/cache/lru.go, and `Stats`, which takes it for reading and then
-- calls `HitRate`, which takes it again. A writer that waits keeps new readers out, as the
-- documentation of `sync` says.
pub mod Nested
use evm_rpc.Prelude.{ℕ, ◌+◌, ◌-◌, ◌<◌, ◌≡◌, Bool, true, false}

-- Where a call of `Stats` stands.
pub data Pc : Type 0 where
  start : Pc
  outer : Pc  -- `Stats` holds the read lock
  inner : Pc  -- and so does `HitRate`
  back : Pc  -- `HitRate` has returned
  done : Pc

-- How often the call holds the read lock.
abbrev pub held : Pc → ℕ
held start = 0
held outer = 1
held inner = 2
held back = 1
held done = 0

-- The lock: how often others hold it for reading (`Get`, `Len`, `HitRate`), whether it is held for
-- writing (`Set`, `Delete`, `Clear`), and how many writers wait.
pub record Lock : Type 0 where
  pub readers : ℕ
  pub writing : Bool
  pub waiting : ℕ
  pub stats : Pc

abbrev pub free : ℕ → Lock
free n = record { readers = n; writing = false; waiting = 0; stats = start }

-- `hit_rate_lock` matches on the place by an equation, as do the other steps of `Stats`.
pub data Step (l : Lock) : Lock → Type 0 where
  read_lock : l.waiting ≡ 0 → l.writing ≡ false → Step l (record l { readers = l.readers + 1 })
  read_unlock : 0 < l.readers → Step l (record l { readers = l.readers - 1 })
  lock_wait : Step l (record l { waiting = l.waiting + 1 })
  lock :
      0 < l.waiting
      → l.writing ≡ false
      → l.readers + held l.stats ≡ 0
      → Step l (record l { waiting = l.waiting - 1; writing = true })
  unlock : l.writing ≡ true → Step l (record l { writing = false })
  stats_lock :
      l.stats ≡ start → l.waiting ≡ 0 → l.writing ≡ false → Step l (record l { stats = outer })
  hit_rate_lock :
      l.stats ≡ outer → l.waiting ≡ 0 → l.writing ≡ false → Step l (record l { stats = inner })
  hit_rate_unlock : l.stats ≡ inner → Step l (record l { stats = back })
  stats_unlock : l.stats ≡ back → Step l (record l { stats = done })

pub data Reach (l : Lock) : Lock → Type 0 where
  here : Reach l l
  next : {m n : Lock} → Reach l m → Step m n → Reach l n
