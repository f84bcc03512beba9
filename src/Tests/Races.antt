-- ===== src/Tests/Races.antt =====
-- Two goroutines around one connection, two requests at one free place, and a writer between the
-- locks of `Stats`.
use evm_rpc.Prelude.{
  ℕ, ◌+◌, ◌-◌, ◌≤◌, ◌≡◌, refl, true, false, inl, text, [], arith, ◌==◌, if◌then◌else◌,
}
use evm_rpc.Prelude.Int.{pos}
use evm_rpc.Server.Connection.{enqueue, new_connection}
use evm_rpc.Server.Threads
use evm_rpc.Server.Threads.{
  System, Shared, Pc, idle, sending, send_start, send_put, take, wrote, pick, pump, put, connected,
}
use evm_rpc.Server.Threads.Order
use evm_rpc.Server.Threads.Order.{IsOrdered}
use evm_rpc.Server.Threads.Closing
use evm_rpc.Server.Admission
use evm_rpc.Server.Admission.{Door, closed_door, arrive, admit, upgrade, register}
use evm_rpc.Server.Admission.Overrun
use evm_rpc.Cache.Locks
use evm_rpc.Cache.Locks.{Lock, free, outer, stats_lock, lock_wait, read_unlock}
use evm_rpc.Cache.Locks.Nested
use evm_rpc.Cache.Locks.Nested.{IsStuck}

-- Goroutine 0 has read `closed`; goroutine 1 is about to call `Close`.
abbrev about_to_send : System ℕ
about_to_send = record {
  shared = record {
    conn = new_connection (text "10.0.0.1");
    pump = Threads.waiting;
    socket_open = true;
    accepted = [];
    crashed = false;
  };
  pc = λ i. if i == 0 then sending 7 else idle;
}

overtaken-crashed_example :
    (t : System ℕ) × Threads.Reach 2 about_to_send t × (t.shared.crashed ≡ true)
unfolding new_connection
overtaken-crashed_example =
    Closing.overtaken-crashed 2 about_to_send 0 1 (omega arith) (omega arith) (omega arith)
      (record { running = refl; unflagged = refl; stop_open = refl; chan_open = refl })
      (inl (7, refl)) refl

abbrev fresh : System ℕ
unfolding connected new_connection
fresh = connected (text "10.0.0.1")

-- A message is sent, and the pump takes it.
abbrev accepted_one : Shared ℕ
unfolding connected new_connection enqueue
accepted_one = put 7 fresh.shared

abbrev taken_one : Shared ℕ
unfolding connected new_connection enqueue
taken_one = record accepted_one {
  conn = record accepted_one.conn { send_chan = [] };
  pump = Threads.writing 7;
}

Reach-IsOrdered_example : IsOrdered taken_one
unfolding connected new_connection enqueue
Reach-IsOrdered_example = Order.Reach-IsOrdered 1 (text "10.0.0.1") (
    Threads.next
      (Threads.next (Threads.next Threads.here (pick 0 (omega arith) refl (send_start 7 refl)))
        (pick 0 (omega arith) refl (send_put refl)))
      (pump refl (take 7 [] refl)))

-- Two requests count before either registers: one place, two connections.
both_in : Admission.Reach (pos 1) 2 closed_door (record closed_door { connections = 2 })
both_in =
    Admission.next
      (Admission.next
        (Admission.next
          (Admission.next
            (Admission.next
              (Admission.next (Admission.next (Admission.next Admission.here arrive) arrive)
                (admit (omega arith) refl (omega arith)))
              (admit (omega arith) refl (omega arith)))
            (upgrade (omega arith)))
          (upgrade (omega arith)))
        (register (omega arith)))
      (register (omega arith))

Reach-limit_example : 2 ≤ 1 - 1 + 2
Reach-limit_example = Overrun.Reach-limit 1 2 (omega arith) both_in

Reach-overrun_example :
    (d : Door) × Admission.Reach (pos 3) 2 closed_door d × (d.connections ≡ 3 - 1 + 2)
Reach-overrun_example = Overrun.Reach-overrun 3 2 (omega arith) (omega arith)

-- One reader, and a writer that comes while `Stats` holds the lock; then the reader leaves.
abbrev between : Lock
between = record (free 1) { stats = outer; waiting = 1 }

stats-IsStuck_example : IsStuck 1 (record between { readers = 0 })
stats-IsStuck_example =
    Nested.stats-IsStuck {n = 1} {l = between}
      (Locks.next (Locks.next Locks.here (stats_lock refl refl refl)) lock_wait) refl (omega arith)
      (Locks.next Locks.here (read_unlock (omega arith)))
