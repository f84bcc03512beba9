-- ===== src/Cache/Locks/Nested.antt =====
-- The nested read lock of `Stats`, with and without a writer in between.
use evm_rpc.Prelude.{ℕ, ◌+◌, ◌≤◌, ◌<◌, ◌≡◌, refl, true, false, Bool-cases, inl, inr, arith}
use evm_rpc.Cache.Locks.{
  outer, done, held, Lock, free, Step, read_lock, read_unlock, lock_wait, lock, unlock, stats_lock,
  hit_rate_lock, hit_rate_unlock, stats_unlock, Reach, here, next,
}

-- `Stats` is between its two locks, and a writer waits.
pub record IsStuck (n : ℕ) (l : Lock) : Type 0 where
  pub between : l.stats ≡ outer
  pub kept_out : 0 < l.waiting
  pub unwritten : l.writing ≡ false
  pub fewer : l.readers ≤ n

Step-IsStuck : {n : ℕ} {l m : Lock} → Step l m → IsStuck n l → IsStuck n m
Step-IsStuck (read_lock e _) h = absurd (omega (arith, h.kept_out))
Step-IsStuck (read_unlock _) h = ground arith
Step-IsStuck lock_wait h = ground arith
Step-IsStuck (lock _ _ e) h = ground arith
Step-IsStuck (unlock e) h = ground arith
Step-IsStuck (stats_lock e _ _) h = ground arith
Step-IsStuck (hit_rate_lock _ e _) h = absurd (omega (arith, h.kept_out))
Step-IsStuck (hit_rate_unlock e) h = ground arith
Step-IsStuck (stats_unlock e) h = ground arith

Reach-IsStuck : {n : ℕ} {l m : Lock} → IsStuck n l → Reach l m → IsStuck n m
Reach-IsStuck h here = h
Reach-IsStuck h (next r st) = Step-IsStuck st (Reach-IsStuck h r)

-- While the lock is held for writing, nobody holds it for reading.
abbrev IsExclusive : Lock → Type 0
IsExclusive l = l.writing ≡ true → l.readers + held l.stats ≡ 0

Step-IsExclusive : {l m : Lock} → Step l m → IsExclusive l → IsExclusive m
Step-IsExclusive (read_lock _ e) h = λ w. cc
Step-IsExclusive (read_unlock e) h = λ w. omega (arith, h w)
Step-IsExclusive lock_wait h = h
Step-IsExclusive (lock _ _ e) h = λ w. e
Step-IsExclusive (unlock e) h = λ w. cc
Step-IsExclusive (stats_lock _ _ e) h = λ w. cc
Step-IsExclusive (hit_rate_lock _ _ e) h = λ w. cc
Step-IsExclusive (hit_rate_unlock e) h = λ w. ground (arith, h w)
Step-IsExclusive (stats_unlock e) h = λ w. ground (arith, h w)

Reach-IsExclusive : {n : ℕ} {l : Lock} → Reach (free n) l → IsExclusive l
Reach-IsExclusive here = λ w. cc
Reach-IsExclusive (next r st) = Step-IsExclusive st (Reach-IsExclusive r)

between-IsStuck :
    {n : ℕ} {l : Lock} → Reach (free n) l → l.stats ≡ outer → 0 < l.waiting → IsStuck l.readers l
between-IsStuck {l = l} r at some_writer = record {
  between = at;
  kept_out = some_writer;
  unwritten = elim (Bool-cases l.writing) [
    | inl w ↦ absurd (ground (arith, Reach-IsExclusive r w))
    | inr free_of ↦ free_of
  ];
  fewer = omega arith;
}

-- Beside any number of readers and no writer, `Stats` can run to its end.
pub stats_done : (n : ℕ) → Reach (free n) (record (free n) { stats = done })
stats_done n =
    next
      (next (next (next here (stats_lock refl refl refl)) (hit_rate_lock refl refl refl))
        (hit_rate_unlock refl))
      (stats_unlock refl)

-- When a writer has come to wait between the two locks of `Stats`, then in every state that follows
-- `Stats` still stands there, a writer still waits, nobody holds the lock for writing, and no reader
-- has come to hold it.
pub stats-IsStuck :
    {n : ℕ} {l m : Lock}
    → Reach (free n) l
    → l.stats ≡ outer
    → 0 < l.waiting
    → Reach l m
    → IsStuck l.readers m
stats-IsStuck r at some_writer more = Reach-IsStuck (between-IsStuck r at some_writer) more
