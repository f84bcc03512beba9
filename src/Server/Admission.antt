-- ===== src/Server/Admission.antt =====
-- `handleWebSocket` of pkg/server/websocket.go, run by several requests at once: the connections are
-- counted under one lock and the new one is registered under another, later.
pub mod Overrun
use evm_rpc.Prelude.{ℕ, ◌+◌, ◌-◌, ◌<◌, ◌≡◌, true, false}
use evm_rpc.Prelude.Int.{ℤ}
use evm_rpc.Server.Session.{over_limit}

-- How many connections are registered, and how many calls of `handleWebSocket` stand before the
-- count, behind the test that it passed, and behind the upgrade.
pub record Door : Type 0 where
  pub connections : ℕ
  pub arrived : ℕ
  pub admitted : ℕ
  pub upgraded : ℕ

abbrev pub closed_door : Door
closed_door = record { connections = 0; arrived = 0; admitted = 0; upgraded = 0 }

-- A step of one call, where at most `k` calls are between their count and their registration. The
-- test reads a count that is a local variable, and is made together with the count.
pub data Step (max : ℤ) (k : ℕ) (d : Door) : Door → Type 0 where
  arrive : Step max k d (record d { arrived = d.arrived + 1 })
  refuse :
      0 < d.arrived
      → over_limit max d.connections ≡ true
      → Step max k d (record d { arrived = d.arrived - 1 })
  admit :
      0 < d.arrived
      → over_limit max d.connections ≡ false
      → d.admitted + d.upgraded < k
      → Step max k d (record d { arrived = d.arrived - 1; admitted = d.admitted + 1 })
  upgrade_failed : 0 < d.admitted → Step max k d (record d { admitted = d.admitted - 1 })
  upgrade :
      0 < d.admitted
      → Step max k d (record d { admitted = d.admitted - 1; upgraded = d.upgraded + 1 })
  register :
      0 < d.upgraded
      → Step max k d (record d { upgraded = d.upgraded - 1; connections = d.connections + 1 })
  -- The deferred `delete` of `handleConnection`.
  leave : 0 < d.connections → Step max k d (record d { connections = d.connections - 1 })

pub data Reach (max : ℤ) (k : ℕ) (d : Door) : Door → Type 0 where
  here : Reach max k d d
  next : {e f : Door} → Reach max k d e → Step max k e f → Reach max k d f
