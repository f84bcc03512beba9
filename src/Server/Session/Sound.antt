-- ===== src/Server/Session/Sound.antt =====
-- What keeps the subscription manager and the connections of the WebSocket server sound.
use mathlib.Core.Path.{subst}
use evm_rpc.Prelude.{
  ℕ, ◌≤◌, ◌≡◌, ◌≢◌, inl, inr, refl, ap, ◌∙◌, sym, Bool, true, false, some, Text, [], ◌∷◌, Map,
  nat_eq, text_key, lookup, insert, delete, lookup-insert, lookup-delete, arith, length,
  length-append, ◌==◌, ==_iff, if◌then◌else◌, Bool-cases,
}
use evm_rpc.Server.Json.{Json}
use evm_rpc.Server.Connection.{Connection, new_connection, send, close, enqueue, send_capacity}
use evm_rpc.Server.Subscription.{Subscription, Manager, unsubscribe_all}
use evm_rpc.Server.Subscription.Invariant.{
  IsCoherent, unsubscribe_all-IsCoherent, unsubscribe_all_lem,
}
use evm_rpc.Server.Notify.{Hub, update, notify, notify_each}

-- Subscriptions belong to registered connections, which are open as long as the server is `up`;
-- channels keep to their size.
pub record IsSound {ℓ} {M : Type ℓ} (up : Bool) (connections : Map ℕ Bool) (hub : Hub M)
    : Type ℓ where
  pub coherent : IsCoherent hub.manager
  pub registered :
      (id : Text) (sub : Subscription)
      → lookup id hub.manager.subscriptions ≡ some sub
      → lookup sub.conn connections ≡ some true
  pub is_open :
      up ≡ true → (c : ℕ) → lookup c connections ≡ some true → (hub.conns c).closed ≡ false
  pub bounded : (c : ℕ) → length (hub.conns c).send_chan ≤ send_capacity

module _ {ℓ} {M : Type ℓ} where
  pub send-bounded :
      (m : M) (c : Connection M)
      → length c.send_chan ≤ send_capacity
      → length (send m c).send_chan ≤ send_capacity
  unfolding send enqueue
  send-bounded m c h = ground (arith, length-append c.send_chan (m ∷ []))

  send-closed : (m : M) (c : Connection M) → (send m c).closed ≡ c.closed
  unfolding send enqueue
  send-closed m c = ground arith

  pub close-send_chan : (c : Connection M) → (close c).send_chan ≡ c.send_chan
  unfolding close
  close-send_chan c = ground arith

  module _ (message : Json → M) where
    pub update-rule :
        (P : ℕ → Connection M → Type 0) (f : ℕ → Connection M) (c : ℕ) (v : Connection M) (d : ℕ)
        → (c ≡ d → P d v)
        → (c ≢ d → P d (f d))
        → P d (update message f c v d)
    update-rule P f c v d same other = elim (Bool-cases (c == d)) [
      | inl e ↦ subst (λ b. P d (if b then v else f d)) (sym e) (same ((==_iff c d).0 e))
      | inr e ↦
          subst (λ b. P d (if b then v else f d)) (sym e) (other (λ q. ground (arith, ==_iff c d)))
    ]

  module _ (message : Json → M) {up : Bool} where
    -- A message to a connection.
    pub sending-IsSound :
        (connections : Map ℕ Bool) (hub : Hub M) (c : ℕ) (m : M)
        → IsSound up connections hub
        → IsSound up connections
            (record hub { conns = update message hub.conns c (send m (hub.conns c)) })
    sending-IsSound connections hub c m h = record {
      coherent = h.coherent;
      registered = h.registered;
      is_open = λ u d at.
          update-rule message (λ i k. lookup i connections ≡ some true → k.closed ≡ false) hub.conns
            c _ d
            (λ e q.
              send-closed m (hub.conns c) ∙ h.is_open u c (ap (λ i. lookup i connections) e ∙ q))
            (λ e q. h.is_open u d q) at;
      bounded = λ d.
          update-rule message (λ i k. length k.send_chan ≤ send_capacity) hub.conns c _ d
            (λ e. send-bounded m (hub.conns c) (h.bounded c)) (λ e. h.bounded d);
    }

    -- Another manager, whose subscriptions are registered too.
    pub manager-IsSound :
        (connections : Map ℕ Bool) (hub : Hub M) (sm : Manager)
        → IsSound up connections hub
        → IsCoherent sm
        → ((id : Text) (sub : Subscription)
            → lookup id sm.subscriptions ≡ some sub
            → lookup sub.conn connections ≡ some true)
        → IsSound up connections (record hub { manager = sm })
    manager-IsSound connections hub sm h coherent registered = record {
      coherent = coherent;
      registered = registered;
      is_open = h.is_open;
      bounded = h.bounded;
    }

    notify-IsSound :
        (sub_type : Text) (result : Json) (sub : Subscription) (connections : Map ℕ Bool)
        (hub : Hub M)
        → IsSound up connections hub
        → IsSound up connections (notify message sub_type result sub hub)
    unfolding notify
    notify-IsSound sub_type result sub connections hub h =
        let k = sending-IsSound connections hub sub.conn _ h in
        record {
          coherent = record {
            known = h.coherent.known;
            owned = h.coherent.owned;
            used = h.coherent.used;
          };
          registered = h.registered;
          is_open = k.is_open;
          bounded = k.bounded;
        }

    pub notify_each-IsSound :
        (wanted : Subscription → Bool) (sub_type : Text) (result : Json)
        (subs : Map Text Subscription) (connections : Map ℕ Bool) (hub : Hub M)
        → IsSound up connections hub
        → IsSound up connections (notify_each message wanted sub_type result subs hub)
    unfolding notify_each
    notify_each-IsSound wanted sub_type result [] connections hub h = h
    notify_each-IsSound wanted sub_type result ((i, sub) ∷ subs) connections hub h =
        notify_each-IsSound wanted sub_type result subs connections _
          (choose (wanted sub) (notify-IsSound sub_type result sub connections hub h) h)
      where
        choose :
            (b : Bool) {x y : Hub M}
            → IsSound up connections x
            → IsSound up connections y
            → IsSound up connections (if b then x else y)
        choose true p q = p
        choose false p q = q

    -- A new connection.
    pub register-IsSound :
        (connections : Map ℕ Bool) (hub : Hub M) (c : ℕ) (ip : Text)
        → IsSound up connections hub
        → IsSound up
            (insert c true connections)
            (record hub { conns = update message hub.conns c (new_connection ip) })
    unfolding new_connection
    register-IsSound connections hub c ip h = record {
      coherent = h.coherent;
      registered = λ id sub q.
          ground (arith, lookup-insert c sub.conn true connections, h.registered id sub);
      is_open = λ u d at.
          update-rule message
            (λ i k. lookup i (insert c true connections) ≡ some true → k.closed ≡ false) hub.conns c
            (new_connection ip) d (λ e q. refl)
            (λ e q. h.is_open u d (ground (arith, lookup-insert c d true connections))) at;
      bounded = λ d.
          update-rule message (λ i k. length k.send_chan ≤ send_capacity) hub.conns c
            (new_connection ip) d (λ e. omega arith) (λ e. h.bounded d);
    }

    -- A connection that is closed and no longer registered, after its subscriptions.
    pub disconnect-IsSound :
        (connections : Map ℕ Bool) (hub : Hub M) (c : ℕ)
        → IsSound up connections hub
        → IsSound up (delete c connections) (record hub {
          manager = unsubscribe_all c hub.manager;
          conns = update message hub.conns c (close (hub.conns c));
        })
    disconnect-IsSound connections hub c h = record {
      coherent = unsubscribe_all-IsCoherent c hub.manager h.coherent;
      registered = λ id sub q. ground (
        arith,
        (unsubscribe_all_lem c hub.manager id sub h.coherent).0 q,
        lookup-delete c sub.conn connections,
        h.registered id sub,
      );
      is_open = λ u d at.
          update-rule message
            (λ i k. lookup i (delete c connections) ≡ some true → k.closed ≡ false) hub.conns c
            (close (hub.conns c)) d (λ e q. ground (arith, lookup-delete c d connections))
            (λ e q. ground (arith, lookup-delete c d connections, h.is_open u d)) at;
      bounded = λ d.
          update-rule message (λ i k. length k.send_chan ≤ send_capacity) hub.conns c
            (close (hub.conns c)) d
            (λ e.
              subst (λ l. length l ≤ send_capacity) (sym (close-send_chan (hub.conns c)))
                (h.bounded c))
            (λ e. h.bounded d);
    }
