-- ===== src/Server/Threads/Order.antt =====
-- What the pump writes, against what the channel took.
use mathlib.Core.List.{append_assoc}
use evm_rpc.Prelude.{
  ℕ, ◌≤◌, ◌≡◌, refl, sym, ◌∙◌, Bool-cases, inl, inr, Text, List, [], ◌∷◌, ◌++◌, length,
  length-append, ltb, arith,
}
use evm_rpc.Server.Connection.{enqueue, send_capacity}
use evm_rpc.Server.Threads.{
  Pump, waiting, writing, pinging, failed, stopped, Shared, Pc, put, Move, send_skip, send_start,
  send_put, send_crash, close_skip, close_start, close_flag, close_stop, close_stop_crash,
  close_send, close_send_crash, close_socket, Pumped, take, drained, wrote, write_failed, tick,
  pinged, ping_failed, quit, System, pick, pump, Reach, here, next, connected,
}

module _ {ℓ} {M : Type ℓ} where
  -- The message that the pump has taken and not written.
  abbrev pub in_hand : Pump M → List M
  in_hand waiting = []
  in_hand (writing m) = m ∷ []
  in_hand pinging = []
  in_hand (failed m) = m ∷ []
  in_hand stopped = []

  -- Nothing is lost between the channel and the socket but the message of a failed write, nothing is
  -- written twice, and the order is kept.
  pub record IsOrdered (s : Shared M) : Type ℓ where
    pub whole : s.accepted ≡ s.conn.written ++ (in_hand s.pump ++ s.conn.send_chan)
    pub within : length s.conn.send_chan ≤ send_capacity

  put-IsOrdered : (m : M) (s : Shared M) → IsOrdered s → IsOrdered (put m s)
  unfolding enqueue
  put-IsOrdered m s h = elim (Bool-cases (ltb (length s.conn.send_chan) send_capacity)) [
    | inl room ↦ record {
      whole = rw (room, h.whole) (simp append_assoc);
      within = rw room (ground (arith, length-append s.conn.send_chan (m ∷ [])));
    }
    | inr full ↦ record { whole = rw full h.whole; within = rw full h.within }
  ]

  Move-IsOrdered : {s t : Shared M} {p q : Pc M} → Move s p t q → IsOrdered s → IsOrdered t
  Move-IsOrdered (send_skip _) h = h
  Move-IsOrdered (send_start m _) h = h
  Move-IsOrdered {s} (send_put {m} _) h = put-IsOrdered m s h
  Move-IsOrdered (send_crash _) h = record { whole = h.whole; within = h.within }
  Move-IsOrdered (close_skip _) h = h
  Move-IsOrdered (close_start _) h = h
  Move-IsOrdered close_flag h = record { whole = h.whole; within = h.within }
  Move-IsOrdered (close_stop _) h = record { whole = h.whole; within = h.within }
  Move-IsOrdered (close_stop_crash _) h = record { whole = h.whole; within = h.within }
  Move-IsOrdered (close_send _) h = record { whole = h.whole; within = h.within }
  Move-IsOrdered (close_send_crash _) h = record { whole = h.whole; within = h.within }
  Move-IsOrdered close_socket h = record { whole = h.whole; within = h.within }

  -- The pump's place is a variable of its own, equal to the one of the state.
  Pumped-IsOrdered :
      {s t : Shared M} {p : Pump M} → Pumped s p t → s.pump ≡ p → IsOrdered s → IsOrdered t
  Pumped-IsOrdered {s} (take m rest e) at h = record {
    whole = h.whole ∙ rw (at, e);
    within = ground (arith, h.within);
  }
  Pumped-IsOrdered (drained e _) at h = record { whole = h.whole ∙ rw at; within = h.within }
  Pumped-IsOrdered {s} (wrote {m} _) at h = record {
    whole = h.whole ∙ rw at (sym (append_assoc s.conn.written (m ∷ []) s.conn.send_chan));
    within = h.within;
  }
  Pumped-IsOrdered write_failed at h = record { whole = h.whole ∙ rw at; within = h.within }
  Pumped-IsOrdered tick at h = record { whole = h.whole ∙ rw at; within = h.within }
  Pumped-IsOrdered (pinged _) at h = record { whole = h.whole ∙ rw at; within = h.within }
  Pumped-IsOrdered ping_failed at h = record { whole = h.whole ∙ rw at; within = h.within }
  Pumped-IsOrdered (quit _) at h = record { whole = h.whole ∙ rw at; within = h.within }

  -- However many goroutines send and close, what the channel took is what was written, then the
  -- message in the pump's hands or that of its failed write, if there is one, then what waits in the
  -- channel, in order; and the channel never exceeds its size.
  pub Reach-IsOrdered :
      (n : ℕ) (ip : Text) {s : System M} → Reach n (connected ip) s → IsOrdered s.shared
  unfolding connected
  Reach-IsOrdered n ip here = record { whole = refl; within = omega arith }
  Reach-IsOrdered n ip (next r (pick i _ _ mv)) = Move-IsOrdered mv (Reach-IsOrdered n ip r)
  Reach-IsOrdered n ip (next r (pump _ st)) = Pumped-IsOrdered st refl (Reach-IsOrdered n ip r)
