-- ===== src/Server/Threads/Closing.antt =====
-- When a goroutine in `Send` or `Close` panics.
use mathlib.Core.Path.{subst}
use evm_rpc.Prelude.{
  ℕ, zero, suc, ◌<◌, ◌≡◌, ◌≢◌, ◌⊎◌, inl, inr, refl, sym, ◌∙◌, Bool, true, false, not, Text, ==_iff,
  arith,
}
use evm_rpc.Server.Connection.{enqueue}
use evm_rpc.Server.Threads.{
  Pump, Shared, Pc, idle, sending, closing, flagged, half_closed, shut, Move, send_skip, send_start,
  send_put, send_crash, close_skip, close_start, close_flag, close_stop, close_stop_crash,
  close_send, close_send_crash, close_socket, Pumped, take, drained, wrote, write_failed, tick,
  pinged, ping_failed, quit, System, Step, pick, pump, Reach, here, next, update, connected,
}

module _ {ℓ} {M : Type ℓ} where
  -- The connection can take messages and be closed.
  pub record IsOpen (s : Shared M) : Type 0 where
    pub running : s.crashed ≡ false
    pub unflagged : s.conn.closed ≡ false
    pub stop_open : s.conn.close_open ≡ true
    pub chan_open : s.conn.send_open ≡ true

  -- The flag `closed`, and whether `closeChan` and `sendChan` are open, by the place of the only
  -- goroutine.
  abbrev Channels : Bool → Bool → Bool → Pc M → Type 0
  Channels closed stop chan idle = (stop ≡ not closed) × (chan ≡ not closed)
  Channels closed stop chan (sending _) = (closed ≡ false) × (stop ≡ true) × (chan ≡ true)
  Channels closed stop chan closing = (closed ≡ false) × (stop ≡ true) × (chan ≡ true)
  Channels closed stop chan flagged = (closed ≡ true) × (stop ≡ true) × (chan ≡ true)
  Channels closed stop chan half_closed = (closed ≡ true) × (stop ≡ false) × (chan ≡ true)
  Channels closed stop chan shut = (closed ≡ true) × (stop ≡ false) × (chan ≡ false)

  abbrev IsAlone : Shared M → Pc M → Type 0
  IsAlone s p = (s.crashed ≡ false) × Channels s.conn.closed s.conn.close_open s.conn.send_open p

  Move-IsAlone : {s t : Shared M} {p q : Pc M} → Move s p t q → IsAlone s p → IsAlone t q
  unfolding enqueue
  Move-IsAlone (send_skip _) h = h
  Move-IsAlone (send_start m e) h = ground arith
  Move-IsAlone (send_put e) h = ground arith
  Move-IsAlone (send_crash e) h = ground arith
  Move-IsAlone (close_skip _) h = h
  Move-IsAlone (close_start e) h = ground arith
  Move-IsAlone close_flag h = ground arith
  Move-IsAlone (close_stop e) h = ground arith
  Move-IsAlone (close_stop_crash e) h = ground arith
  Move-IsAlone (close_send e) h = ground arith
  Move-IsAlone (close_send_crash e) h = ground arith
  Move-IsAlone close_socket h = ground arith

  -- The pump touches neither the flag nor whether a channel is open.
  Pumped-IsAlone :
      {s t : Shared M} {p : Pump M} (q : Pc M) → Pumped s p t → IsAlone s q → IsAlone t q
  Pumped-IsAlone q (take m rest e) h = h
  Pumped-IsAlone q (drained _ _) h = h
  Pumped-IsAlone q (wrote _) h = h
  Pumped-IsAlone q write_failed h = h
  Pumped-IsAlone q tick h = h
  Pumped-IsAlone q (pinged _) h = h
  Pumped-IsAlone q ping_failed h = h
  Pumped-IsAlone q (quit _) h = h

  Step-IsAlone :
      {s t : System M} → Step 1 s t → IsAlone s.shared (s.pc 0) → IsAlone t.shared (t.pc 0)
  Step-IsAlone (pick zero _ _ mv) h = Move-IsAlone mv h
  Step-IsAlone (pick (suc i) lt _ mv) h = absurd (omega arith)
  Step-IsAlone {s} (pump _ st) h = Pumped-IsAlone (s.pc 0) st h

  Reach-IsAlone : (ip : Text) {s : System M} → Reach 1 (connected ip) s → IsAlone s.shared (s.pc 0)
  unfolding connected
  Reach-IsAlone ip here = (refl, (refl, refl))
  Reach-IsAlone ip (next r st) = Step-IsAlone st (Reach-IsAlone ip r)

  -- Sends and closes that one goroutine makes, in any order, do not panic, whatever the pump does.
  pub alone-not_crashed :
      (ip : Text) {s : System M} → Reach 1 (connected ip) s → s.shared.crashed ≡ false
  alone-not_crashed ip r = (Reach-IsAlone ip r).0

  pub update_self : (f : ℕ → Pc M) (i : ℕ) (p : Pc M) → update f i p i ≡ p
  update_self f i p = rw ((==_iff i i).1 refl)

  update_other : (f : ℕ → Pc M) (i j : ℕ) (p : Pc M) → i ≢ j → update f i p j ≡ f j
  update_other f i j p ne = ground (arith, ==_iff i j)

  pub Reach-trans : {n : ℕ} {s t u : System M} → Reach n s t → Reach n t u → Reach n s u
  Reach-trans r here = r
  Reach-trans r (next q st) = next (Reach-trans r q) st

  -- A move of a goroutine whose place is known by an equation.
  pub pick_at :
      {n : ℕ} {s : System M} {p q : Pc M} {t : Shared M} (i : ℕ)
      → i < n
      → s.shared.crashed ≡ false
      → s.pc i ≡ p
      → Move s.shared p t q
      → Step n s (record { shared = t; pc = update s.pc i q })
  pick_at {s = s} {q = q} {t = t} i lt up e mv =
      pick i lt up (subst (λ r. Move s.shared r t q) (sym e) mv)

  -- A goroutine that runs `Close` to the close of the second channel, beside others that stand still.
  pub record Closed (n : ℕ) (s : System M) (j : ℕ) : Type ℓ where
    pub last : System M
    pub reached : Reach n s last
    pub up : last.shared.crashed ≡ false
    pub stop_shut : last.shared.conn.close_open ≡ false
    pub chan_shut : last.shared.conn.send_open ≡ false
    pub others : (i : ℕ) → j ≢ i → last.pc i ≡ s.pc i
    pub stands : last.pc j ≡ shut
    pub same :
        last.shared.conn
        ≡ record s.shared.conn { closed = true; close_open = false; send_open = false }

  pub run_close :
      {n : ℕ} (s : System M) (j : ℕ) → j < n → IsOpen s.shared → s.pc j ≡ idle → Closed n s j
  run_close {n} s j lt o at = record {
    last = last;
    reached = next (next (next (next here step_1) step_2) step_3) step_4;
    up = o.running;
    stop_shut = refl;
    chan_shut = refl;
    others = apart;
    stands = update_self at_3 j shut;
    same = refl;
  }
    where
      at_1 : ℕ → Pc M
      at_1 = update s.pc j closing

      at_2 : ℕ → Pc M
      at_2 = update at_1 j flagged

      at_3 : ℕ → Pc M
      at_3 = update at_2 j half_closed

      flag : Shared M
      flag = record s.shared { conn = record s.shared.conn { closed = true } }

      stop : Shared M
      stop = record flag { conn = record flag.conn { close_open = false } }

      last : System M
      last = record {
        shared = record stop { conn = record stop.conn { send_open = false } };
        pc = update at_3 j shut;
      }

      step_1 : Step n s (record { shared = s.shared; pc = at_1 })
      step_1 = pick_at j lt o.running at (close_start o.unflagged)

      step_2 :
          Step n (record { shared = s.shared; pc = at_1 }) (record { shared = flag; pc = at_2 })
      step_2 = pick_at j lt o.running (update_self s.pc j closing) close_flag

      step_3 : Step n (record { shared = flag; pc = at_2 }) (record { shared = stop; pc = at_3 })
      step_3 = pick_at j lt o.running (update_self at_1 j flagged) (close_stop o.stop_open)

      step_4 : Step n (record { shared = stop; pc = at_3 }) last
      step_4 = pick_at j lt o.running (update_self at_2 j half_closed) (close_send o.chan_open)

      apart : (i : ℕ) → j ≢ i → last.pc i ≡ s.pc i
      apart i ne =
          update_other at_3 j i shut ne
          ∙ (update_other at_2 j i half_closed ne
              ∙ (update_other at_1 j i flagged ne ∙ update_other s.pc j i closing ne))

  -- The two that may be overtaken: one that sends, and one that closes.
  abbrev HasRead : Pc M → Type ℓ
  HasRead p = ((m : M) × (p ≡ sending m)) ⊎ (p ≡ closing)

  finish :
      {n : ℕ} {s : System M} (i : ℕ)
      → i < n
      → s.shared.crashed ≡ false
      → s.shared.conn.close_open ≡ false
      → s.shared.conn.send_open ≡ false
      → HasRead (s.pc i)
      → (t : System M) × Reach n s t × (t.shared.crashed ≡ true)
  finish i lt up stop chan (inl (m, at)) =
      (_, next here (pick_at i lt up at (send_crash chan)), refl)
  finish {s = s} i lt up stop chan (inr at) = (
    _,
    next (next here (pick_at i lt up at close_flag))
        (pick_at i lt up (update_self s.pc i flagged) (close_stop_crash stop)),
    refl,
  )

  -- On an open connection a goroutine in `Send` or `Close` that has read `closed` as false can be
  -- overtaken by another that runs `Close`; it then panics, and the process ends.
  pub overtaken-crashed :
      (n : ℕ) (s : System M) (i j : ℕ)
      → i < n
      → j < n
      → j ≢ i
      → IsOpen s.shared
      → HasRead (s.pc i)
      → s.pc j ≡ idle
      → (t : System M) × Reach n s t × (t.shared.crashed ≡ true)
  overtaken-crashed n s i j lt_i lt_j ne o read at =
      let c = run_close s j lt_j o at in
      let (t, more, gone) =
        finish i lt_i c.up c.stop_shut c.chan_shut (subst HasRead (sym (c.others i ne)) read) in
      (t, Reach-trans c.reached more, gone)
