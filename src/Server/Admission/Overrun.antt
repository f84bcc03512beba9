-- ===== src/Server/Admission/Overrun.antt =====
-- How far the limit of connections is overrun.
use evm_rpc.Prelude.{ℕ, zero, suc, ◌+◌, ◌-◌, ◌≤◌, ◌<◌, ◌≡◌, refl, false, arith}
use evm_rpc.Prelude.Int.{pos}
use evm_rpc.Server.Session.{over_limit}
use evm_rpc.Server.Admission.{
  Door, closed_door, Step, arrive, refuse, admit, upgrade_failed, upgrade, register, leave, Reach,
  here, next,
}

module _ (m k : ℕ) where
  abbrev Within : Door → Type 0
  Within d = (d.connections + (d.admitted + d.upgraded) ≤ m - 1 + k) × (d.admitted + d.upgraded ≤ k)

  Step-Within : {d e : Door} → 0 < m → Step (pos m) k d e → Within d → Within e
  Step-Within some_limit arrive h = h
  Step-Within some_limit (refuse _ _) h = h
  Step-Within some_limit (admit in_door room few) h = ground arith
  Step-Within some_limit (upgrade_failed some_in) h = omega arith
  Step-Within some_limit (upgrade some_in) h = omega arith
  Step-Within some_limit (register some_in) h = omega arith
  Step-Within some_limit (leave some_in) h = omega arith

  Reach-Within : {d : Door} → 0 < m → Reach (pos m) k closed_door d → Within d
  Reach-Within some_limit here = omega arith
  Reach-Within some_limit (next r st) = Step-Within some_limit st (Reach-Within some_limit r)

  abbrev door : ℕ → ℕ → ℕ → Door
  door c a u = record { connections = c; arrived = 0; admitted = a; upgraded = u }

  below_limit : (c : ℕ) → c < m → over_limit (pos m) c ≡ false
  below_limit c h = ground arith

  -- A reached state, with its counts written otherwise.
  recount :
      {c a u c' a' u' : ℕ}
      → c ≡ c'
      → a ≡ a'
      → u ≡ u'
      → Reach (pos m) k closed_door (door c a u)
      → Reach (pos m) k closed_door (door c' a' u')
  recount e f g r = rw (← e, ← f, ← g) r

  -- One call after the other, up to the limit.
  fill : (c : ℕ) → c ≤ m → 0 < k → Reach (pos m) k closed_door (door c 0 0)
  fill zero h few = here
  fill (suc c) h few = recount (omega arith) refl refl (
      next
        (next
          (next (next (fill c (omega arith) few) arrive)
            (admit (omega arith) (below_limit c (omega arith)) (omega arith)))
          (upgrade (omega arith)))
        (register (omega arith)))

  -- Calls that all count before the first of them registers.
  admit_all :
      (c n : ℕ)
      → c < m
      → n ≤ k
      → Reach (pos m) k closed_door (door c 0 0)
      → Reach (pos m) k closed_door (door c n 0)
  admit_all c zero room few r = r
  admit_all c (suc n) room few r = recount refl (omega arith) refl (
      next (next (admit_all c n room (omega arith) r) arrive)
        (admit (omega arith) (below_limit c room) (omega arith)))

  finish_all :
      (c n : ℕ)
      → Reach (pos m) k closed_door (door c n 0)
      → Reach (pos m) k closed_door (door (c + n) 0 0)
  finish_all c zero r = recount (omega arith) refl refl r
  finish_all c (suc n) r = recount (omega arith) refl refl (
      finish_all (c + 1) n (
        recount refl (omega arith) (omega arith)
          (next (next r (upgrade (omega arith))) (register (omega arith)))))

  -- With a limit `m`, at least 1, and at most `k` calls between their count and their registration at
  -- any time, there are never more than `m - 1 + k` connections; so one call at a time keeps the limit.
  pub Reach-limit : {d : Door} → 0 < m → Reach (pos m) k closed_door d → d.connections ≤ m - 1 + k
  Reach-limit some_limit r = omega (arith, (Reach-Within some_limit r).0)

  -- With a limit `m` and `k` such calls at once, both at least 1, there can be `m - 1 + k`
  -- connections, which is above the limit from two such calls on.
  pub Reach-overrun :
      0 < m → 0 < k → (d : Door) × Reach (pos m) k closed_door d × (d.connections ≡ m - 1 + k)
  Reach-overrun some_limit few = (
    door (m - 1 + k) 0 0,
    finish_all (m - 1) k
        (admit_all (m - 1) k (omega arith) (omega arith) (fill (m - 1) (omega arith) few)),
    refl,
  )
