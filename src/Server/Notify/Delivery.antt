-- ===== src/Server/Notify/Delivery.antt =====
-- What reaches a connection, and what is counted.
use mathlib.Core.List.{append-nil, append_assoc}
use evm_rpc.Prelude.{
  ℕ, suc, ◌+◌, ◌≤◌, ◌<◌, ◌≡◌, refl, ap, ◌∙◌, sym, Bool, true, false, ◌&&◌, Text, text_eq,
  text_eq_iff, List, [], ◌∷◌, ◌++◌, map, Map, length, select, arith, ◌==◌, ==_iff, length-append,
  length-map, if◌then◌else◌, Bool-cases, inl, inr,
}
use evm_rpc.Metrics.{record_notification}
use evm_rpc.Server.Json.{Json}
use evm_rpc.Server.Connection.{Connection, send, enqueue, send_capacity}
use evm_rpc.Server.Subscription.{Subscription, new_heads}
use evm_rpc.Server.Notify.{
  Hub, Head, head_result, notification, subscription_message, notify, notify_each, notify_new_heads,
}

module _ {ℓ} {M : Type ℓ} (message : Json → M) where
  abbrev pub told : Json → Text × Subscription → M
  told result (_, sub) = message (subscription_message (notification sub.id result))

  abbrev pub is_wanted_at : (Subscription → Bool) → ℕ → Text × Subscription → Bool
  is_wanted_at wanted c (_, sub) = wanted sub && sub.conn == c

  -- Messages sent one after the other.
  unfoldable pub send_all : List M → Connection M → Connection M
  send_all [] c = c
  send_all (m ∷ ms) c = send_all ms (send m c)

  notify-conns :
      (sub_type : Text) (result : Json) (i : Text) (sub : Subscription) (hub : Hub M) (c : ℕ)
      → (notify message sub_type result sub hub).conns c
        ≡ (if sub.conn == c then send (told result (i, sub)) (hub.conns c) else hub.conns c)
  unfolding notify
  notify-conns sub_type result i sub hub c = elim (Bool-cases (sub.conn == c)) [
    | inl e ↦ rw e (ap (λ d. send (told result (i, sub)) (hub.conns d)) ((==_iff sub.conn c).0 e))
    | inr e ↦ rw e
  ]

  notify_counted :
      (sub_type : Text) (result : Json) (sub : Subscription) (hub : Hub M)
      → (notify message sub_type result sub hub).manager.metrics.subscription_notifications sub_type
        ≡ suc (hub.manager.metrics.subscription_notifications sub_type)
  unfolding notify record_notification
  notify_counted sub_type result sub hub = ground (arith, text_eq_iff sub_type sub_type)

  -- A connection is sent one message for each wanted subscription of its own, in the order of the
  -- map, and no other.
  pub notify_each-conns :
      (wanted : Subscription → Bool) (sub_type : Text) (result : Json)
      (subs : Map Text Subscription) (hub : Hub M) (c : ℕ)
      → (notify_each message wanted sub_type result subs hub).conns c
        ≡ send_all (map (told result) (select (is_wanted_at wanted c) subs)) (hub.conns c)
  unfolding notify_each send_all
  notify_each-conns wanted sub_type result [] hub c = refl
  notify_each-conns wanted sub_type result ((i, sub) ∷ subs) hub c =
      notify_each-conns wanted sub_type result subs
        (if wanted sub then notify message sub_type result sub hub else hub) c
      ∙ ap (send_all (map (told result) (select (is_wanted_at wanted c) subs))) one_round
      ∙ sym (
          send_all-select (is_wanted_at wanted c (i, sub)) (i, sub)
            (select (is_wanted_at wanted c) subs) (hub.conns c))
    where
      send_all-select :
          (b : Bool) (x : Text × Subscription) (l : Map Text Subscription) (k : Connection M)
          → send_all (map (told result) (elim b [ true ↦ x ∷ l | false ↦ l ])) k
            ≡ send_all (map (told result) l) (if b then send (told result x) k else k)
      send_all-select true x l k = refl
      send_all-select false x l k = refl

      one_round : (if wanted sub then notify message sub_type result sub hub else hub).conns c ≡ (
          if is_wanted_at wanted c (i, sub)
          then send (told result (i, sub)) (hub.conns c)
          else hub.conns c)
      one_round = elim (Bool-cases (wanted sub)) [
        | inr e ↦ rw e
        | inl e ↦ rw e (notify-conns sub_type result i sub hub c)
      ]

  send-room :
      (m : M) (c : Connection M)
      → c.closed ≡ false
      → length c.send_chan < send_capacity
      → send m c ≡ record c { send_chan = c.send_chan ++ m ∷ [] }
  unfolding send enqueue
  send-room m c open_ room = ground arith

  pub send_all-room :
      (ms : List M) (c : Connection M)
      → c.closed ≡ false
      → length c.send_chan + length ms ≤ send_capacity
      → (send_all ms c).send_chan ≡ c.send_chan ++ ms
  unfolding send_all
  send_all-room [] c open_ room = sym (append-nil c.send_chan)
  send_all-room (m ∷ ms) c open_ room =
      ap (λ (k : Connection M). (send_all ms k).send_chan) (send-room m c open_ (omega arith))
      ∙ (send_all-room ms (record c { send_chan = c.send_chan ++ m ∷ [] }) open_
            (omega (arith, length-append c.send_chan (m ∷ [])))
          ∙ append_assoc c.send_chan (m ∷ []) ms)

  -- On an open connection with room for them all, the messages stand behind what waited.
  pub notify_each-send_chan :
      (wanted : Subscription → Bool) (sub_type : Text) (result : Json)
      (subs : Map Text Subscription) (hub : Hub M) (c : ℕ)
      → (hub.conns c).closed ≡ false
      → length (hub.conns c).send_chan + length (select (is_wanted_at wanted c) subs)
        ≤ send_capacity
      → ((notify_each message wanted sub_type result subs hub).conns c).send_chan
        ≡ (hub.conns c).send_chan ++ map (told result) (select (is_wanted_at wanted c) subs)
  notify_each-send_chan wanted sub_type result subs hub c open_ room =
      let mine = select (is_wanted_at wanted c) subs in
      ap (λ (k : Connection M). k.send_chan) (notify_each-conns wanted sub_type result subs hub c)
      ∙ send_all-room (map (told result) mine) (hub.conns c) open_
          (omega (arith, length-map {0, ℓ} (told result) mine))

  -- A new block is told once for each `newHeads` subscription of an open connection with room in its
  -- channel, behind what waits there.
  pub notify_new_heads_delivers :
      (head : Head) (hub : Hub M) (c : ℕ)
      → (hub.conns c).closed ≡ false
      → length (hub.conns c).send_chan
          + length (
              select
                (is_wanted_at (λ sub. text_eq sub.sub_type new_heads) c)
                hub.manager.subscriptions)
        ≤ send_capacity
      → ((notify_new_heads message head hub).conns c).send_chan
        ≡ (hub.conns c).send_chan
          ++ map (told (head_result head)) (
              select
                (is_wanted_at (λ sub. text_eq sub.sub_type new_heads) c)
                hub.manager.subscriptions)
  unfolding notify_new_heads
  notify_new_heads_delivers head hub c open_ room =
      notify_each-send_chan (λ sub. text_eq sub.sub_type new_heads) new_heads (head_result head)
        hub.manager.subscriptions hub c open_ room

  -- The counter of notifications rises by the number of wanted subscriptions, whatever became of the
  -- messages.
  pub notify_each_counted :
      (wanted : Subscription → Bool) (sub_type : Text) (result : Json)
      (subs : Map Text Subscription) (hub : Hub M)
      → (notify_each message wanted sub_type result subs
            hub).manager.metrics.subscription_notifications
          sub_type
        ≡ hub.manager.metrics.subscription_notifications sub_type
          + length (select (λ (e : Text × Subscription). wanted e.1) subs)
  unfolding notify_each
  notify_each_counted wanted sub_type result [] hub = omega arith
  notify_each_counted wanted sub_type result ((i, sub) ∷ subs) hub =
      elim (Bool-cases (wanted sub)) [
        | inr e ↦ rw (e, notify_each) (notify_each_counted wanted sub_type result subs hub)
        | inl e ↦
            rw (e, notify_each)
              (notify_each_counted wanted sub_type result subs
                  (notify message sub_type result sub hub)
                ∙ omega (arith, notify_counted sub_type result sub hub))
      ]
