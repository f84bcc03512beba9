-- ===== src/Server/Session/Leaving.antt =====
-- What is left of a connection that goes, and of all of them when the server stops.
use mathlib.Core.Path.{subst}
use evm_rpc.Prelude.{
  ℕ, ◌≡◌, ◌≢◌, inl, inr, ◌↔◌, refl, ap, sym, ◌≤◌, length, List, ◌∙◌, Bool, true, false, Bool-cases,
  Option, none, some, Text, [], ◌∷◌, Map, nat_eq, text_key, lookup, lookup-delete, ◌==◌, ==_iff,
  if◌then◌else◌, arith,
}
use evm_rpc.Middleware.RateLimit.{RateLib}
use evm_rpc.Server.Methods.{Program}
use evm_rpc.Server.Connection.{Connection, close, send_capacity}
use evm_rpc.Server.Session.Sound.{close-send_chan}
use evm_rpc.Server.Subscription.{Subscription, Manager}
use evm_rpc.Server.Subscription.Invariant.{IsCoherent, unsubscribe_all_lem}
use evm_rpc.Server.Notify.{Hub, update}
use evm_rpc.Server.Session.{Message, told, Server, disconnect, close_each, stop}
use evm_rpc.Server.Session.Steps.{SoundServer}

close-closed {ℓ} : {M : Type ℓ} (c : Connection M) → (close c).closed ≡ true
unfolding close
close-closed c = ground arith

close-close {ℓ} : {M : Type ℓ} (c : Connection M) → close (close c) ≡ close c
unfolding close
close-close c = ground arith

module _ (lib : RateLib) (p : Program) where
  -- What becomes of a connection by its entry in the server's map.
  abbrev pub closed_if : Option Bool → Connection (Message lib p) → Connection (Message lib p)
  closed_if none c = c
  closed_if (some _) c = close c

  closed_if_twice :
      (o : Option Bool) (c : Connection (Message lib p)) → closed_if o (close c) ≡ close c
  closed_if_twice none c = refl
  closed_if_twice (some _) c = close-close c

  close_each-conns :
      (m : Map ℕ Bool) (hub : Hub (Message lib p)) (d : ℕ)
      → (close_each lib p m hub).conns d ≡ closed_if (lookup d m) (hub.conns d)
  unfolding close_each lookup
  close_each-conns [] hub d = refl
  close_each-conns ((c, b) ∷ m) hub d = elim (Bool-cases (c == d)) [
    | inl e ↦
        close_each-conns m (record hub { conns = update told hub.conns c (close (hub.conns c)) }) d
        ∙ (ap (closed_if (lookup d m)) (at_once e)
            ∙ (closed_if_twice (lookup d m) (hub.conns d) ∙ rw e))
    | inr e ↦
        close_each-conns m (record hub { conns = update told hub.conns c (close (hub.conns c)) }) d
        ∙ rw e
  ]
    where
      at_once :
          (c == d) ≡ true
          → (if c == d then close (hub.conns c) else hub.conns d) ≡ close (hub.conns d)
      at_once e = rw e (ap (λ (i : ℕ). close (hub.conns i)) ((==_iff c d).0 e))

  -- Stop closes exactly the registered connections, and changes nothing else of any connection.
  pub stop-conns :
      (s : Server lib p) (d : ℕ)
      → (stop lib p s).hub.conns d ≡ closed_if (lookup d s.connections) (s.hub.conns d)
  unfolding stop
  stop-conns s d = close_each-conns s.connections s.hub d

  close_each-manager :
      (m : Map ℕ Bool) (hub : Hub (Message lib p)) → (close_each lib p m hub).manager ≡ hub.manager
  unfolding close_each
  close_each-manager [] hub = refl
  close_each-manager ((c, b) ∷ m) hub =
      close_each-manager m (record hub { conns = update told hub.conns c (close (hub.conns c)) })

  closed_if-send_chan :
      (o : Option Bool) (c : Connection (Message lib p)) → (closed_if o c).send_chan ≡ c.send_chan
  closed_if-send_chan none c = refl
  closed_if-send_chan (some _) c = close-send_chan c

  -- After Stop the server is sound, but for its connections being open.
  pub stop-SoundServer :
      (up : Bool) (s : Server lib p)
      → SoundServer lib p up s
      → SoundServer lib p false (stop lib p s)
  unfolding stop
  stop-SoundServer up s h = record {
    coherent = subst IsCoherent (sym (close_each-manager s.connections s.hub)) h.coherent;
    registered = λ id sub q. h.registered id sub (
        ap (λ (sm : Manager). lookup id sm.subscriptions)
          (sym (close_each-manager s.connections s.hub))
        ∙ q);
    is_open = λ u. cc;
    bounded = λ d.
        subst (λ (c : Connection (Message lib p)). length c.send_chan ≤ send_capacity)
          (sym (close_each-conns s.connections s.hub d))
          (subst (λ (l : List (Message lib p)). length l ≤ send_capacity)
            (sym (closed_if-send_chan (lookup d s.connections) (s.hub.conns d))) (h.bounded d));
  }

  -- After the cleanup of a connection of a sound server it is not registered, it is closed, and it has
  -- no subscription; every other connection is registered as before, with its own state and the
  -- subscriptions that it had.
  pub disconnect_lem :
      (up : Bool) (s : Server lib p) (c : ℕ) (d : ℕ) (id : Text) (sub : Subscription)
      → SoundServer lib p up s
      → (lookup d (disconnect lib p c s).connections
          ≡ (if c == d then none else lookup d s.connections))
        × ((disconnect lib p c s).hub.conns d
            ≡ (if c == d then close (s.hub.conns c) else s.hub.conns d))
        × ((close (s.hub.conns c)).closed ≡ true)
        × ((lookup id (disconnect lib p c s).hub.manager.subscriptions ≡ some sub)
            ↔ (lookup id s.hub.manager.subscriptions ≡ some sub) × (sub.conn ≢ c))
  unfolding disconnect
  disconnect_lem up s c d id sub h = (
    lookup-delete c d s.connections,
    refl,
    close-closed (s.hub.conns c),
    unsubscribe_all_lem c s.hub.manager id sub h.coherent,
  )
