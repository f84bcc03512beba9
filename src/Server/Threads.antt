-- ===== src/Server/Threads.antt =====
-- The goroutines around one `WebSocketConnection` of pkg/server/websocket.go: `Send` and `Close` as
-- any number of them run these, a shared access at a time, and `writePump`. Nothing guards the flag
-- `closed`; `writeMux` is taken by `writePump` alone and is left out.
pub mod Order
pub mod Closing
use evm_rpc.Prelude.{
  ℕ, ◌<◌, ◌≡◌, Bool, true, false, Text, List, [], ◌∷◌, ◌++◌, length, ltb, ◌==◌, if◌then◌else◌,
}
use evm_rpc.Server.Connection.{Connection, new_connection, enqueue, send_capacity}

-- Where `writePump` stands. A write that fails ends it; `failed` keeps the message.
pub data Pump {ℓ} (M : Type ℓ) : Type ℓ where
  waiting : Pump M  -- at the `select`
  writing : M → Pump M
  pinging : Pump M
  failed : M → Pump M
  stopped : Pump M

-- The connection, its socket and its pump. `accepted` holds what the channel took, in order;
-- `crashed` is set by a panic, which ends the process.
pub record Shared {ℓ} (M : Type ℓ) : Type ℓ where
  pub conn : Connection M
  pub pump : Pump M
  pub socket_open : Bool
  pub accepted : List M
  pub crashed : Bool

-- Where a goroutine stands.
pub data Pc {ℓ} (M : Type ℓ) : Type ℓ where
  idle : Pc M
  sending : M → Pc M  -- `Send` has read `closed` as false
  closing : Pc M  -- `Close` has read `closed` as false
  flagged : Pc M  -- `closed` is set
  half_closed : Pc M  -- `closeChan` is closed
  shut : Pc M  -- `sendChan` is closed too

-- The connection with its goroutines.
pub record System {ℓ} (M : Type ℓ) : Type ℓ where
  pub shared : Shared M
  pub pc : ℕ → Pc M

module _ {ℓ} {M : Type ℓ} where
  -- `case c.sendChan <- msg: default:` on an open channel.
  abbrev pub put : M → Shared M → Shared M
  put m s = record s {
    conn = enqueue m s.conn;
    accepted =
        if ltb (length s.conn.send_chan) send_capacity then s.accepted ++ m ∷ [] else s.accepted;
  }

  abbrev pub crash : Shared M → Shared M
  crash s = record s { crashed = true }

  -- One access of one goroutine.
  pub data Move (s : Shared M) : Pc M → Shared M → Pc M → Type ℓ where
    send_skip : s.conn.closed ≡ true → Move s idle s idle
    send_start : (m : M) → s.conn.closed ≡ false → Move s idle s (sending m)
    send_put : {m : M} → s.conn.send_open ≡ true → Move s (sending m) (put m s) idle
    -- A send on a closed channel panics, also under `select`.
    send_crash : {m : M} → s.conn.send_open ≡ false → Move s (sending m) (crash s) idle
    close_skip : s.conn.closed ≡ true → Move s idle s idle
    close_start : s.conn.closed ≡ false → Move s idle s closing
    close_flag : Move s closing (record s { conn = record s.conn { closed = true } }) flagged
    close_stop :
        s.conn.close_open ≡ true
        → Move s flagged (record s { conn = record s.conn { close_open = false } }) half_closed
    -- So does the second close of a channel.
    close_stop_crash : s.conn.close_open ≡ false → Move s flagged (crash s) idle
    close_send :
        s.conn.send_open ≡ true
        → Move s half_closed (record s { conn = record s.conn { send_open = false } }) shut
    close_send_crash : s.conn.send_open ≡ false → Move s half_closed (crash s) idle
    close_socket : Move s shut (record s { socket_open = false }) idle

  -- One step of `writePump`, with the pump's place before it.
  pub data Pumped (s : Shared M) : Pump M → Shared M → Type ℓ where
    take :
        (m : M) (rest : List M)
        → s.conn.send_chan ≡ m ∷ rest
        → Pumped s waiting
            (record s { conn = record s.conn { send_chan = rest }; pump = writing m })
    -- The channel is closed and drained; the close message is written and its error ignored.
    drained :
        s.conn.send_chan ≡ []
        → s.conn.send_open ≡ false
        → Pumped s waiting (record s { pump = stopped })
    wrote :
        {m : M}
        → s.socket_open ≡ true
        → Pumped s (writing m) (record s {
          conn = record s.conn { written = s.conn.written ++ m ∷ [] };
          pump = waiting;
        })
    write_failed : {m : M} → Pumped s (writing m) (record s { pump = failed m })
    tick : Pumped s waiting (record s { pump = pinging })
    pinged : s.socket_open ≡ true → Pumped s pinging (record s { pump = waiting })
    ping_failed : Pumped s pinging (record s { pump = stopped })
    quit : s.conn.close_open ≡ false → Pumped s waiting (record s { pump = stopped })

  abbrev pub update : (ℕ → Pc M) → ℕ → Pc M → ℕ → Pc M
  update f i p j = if i == j then p else f j

  -- `n` goroutines and the pump, in any order, until the process ends.
  pub data Step (n : ℕ) (s : System M) : System M → Type ℓ where
    pick :
        (i : ℕ) {t : Shared M} {p : Pc M}
        → i < n
        → s.shared.crashed ≡ false
        → Move s.shared (s.pc i) t p
        → Step n s (record { shared = t; pc = update s.pc i p })
    pump :
        {t : Shared M}
        → s.shared.crashed ≡ false
        → Pumped s.shared s.shared.pump t
        → Step n s (record { shared = t; pc = s.pc })

  pub data Reach (n : ℕ) (s : System M) : System M → Type ℓ where
    here : Reach n s s
    next : {t u : System M} → Reach n s t → Step n t u → Reach n s u

  -- `handleWebSocket` has made the connection and started its goroutines.
  unfoldable pub connected : Text → System M
  unfolding new_connection
  connected ip = record {
    shared = record {
      conn = new_connection ip;
      pump = waiting;
      socket_open = true;
      accepted = [];
      crashed = false;
    };
    pc = λ _. idle;
  }
