-- ===== src/Server/Subscription/Invariant.antt =====
-- The two maps of the subscription manager agree, whatever the order of its calls.
use mathlib.Core.Option.{get_or}
use evm_rpc.Prelude.{
  ℕ, ◌≡◌, ◌≢◌, ◌⊎◌, ◌↔◌, inl, inr, refl, true, false, Option, none, some, Text, text_eq,
  text_eq_iff, [], ◌∷◌, Map, Eq, nat_eq, text_key, lookup, insert, delete, lookup-insert,
  lookup-delete, arith, ◌==◌, if◌then◌else◌, Bool-cases, Option-cases,
}
use evm_rpc.Metrics.{Metrics}
use evm_rpc.Server.Subscription.{
  FilterCriteria, Subscription, Manager, new_manager, subs_of, subscribe, remove_from, unsubscribe,
  cancel_one, cancel_each, unsubscribe_all, is_empty,
}

-- Each subscription is known under its id, and listed with its connection and no other; a connection
-- in the map has a subscription.
pub record IsCoherent (sm : Manager) : Type 0 where
  pub known :
      (id : Text) (sub : Subscription)
      → lookup id sm.subscriptions ≡ some sub
      → (sub.id ≡ id) × (lookup id (subs_of sm sub.conn) ≡ some sub)
  pub owned :
      (c : ℕ) (id : Text) (sub : Subscription)
      → lookup id (subs_of sm c) ≡ some sub
      → (sub.conn ≡ c) × (lookup id sm.subscriptions ≡ some sub)
  pub used :
      (c : ℕ) (subs : Map Text Subscription) → lookup c sm.connections ≡ some subs → subs ≢ []

pub new_manager-IsCoherent : (m : Metrics) → IsCoherent (new_manager m)
unfolding lookup
new_manager-IsCoherent m = record {
  known = λ id sub h. ground arith;
  owned = λ c id sub h. ground arith;
  used = λ c subs h. ground arith;
}

insert-ne-nil {ℓ κ} :
    {K : Type ℓ} {V : Type κ} ⦃e : Eq K⦄ (k : K) (v : V) (m : Map K V) → insert k v m ≢ []
unfolding insert
insert-ne-nil k v [] h = ground arith
insert-ne-nil ⦃e⦄ k v ((j, w) ∷ m) h = ground arith

-- A subscription under a fresh id keeps the maps in agreement.
pub subscribe-IsCoherent :
    (id : Text) (conn : ℕ) (sub_type : Text) (filter : Option FilterCriteria) (sm : Manager)
    → lookup id sm.subscriptions ≡ none
    → IsCoherent sm
    → IsCoherent (subscribe id conn sub_type filter sm).0
unfolding subscribe
subscribe-IsCoherent id conn sub_type filter sm fresh h = record {
  known = λ j sub q. ground (
    arith,
    lookup-insert id j new sm.subscriptions,
    lookup-insert id j new (subs_of sm conn),
    lookup-insert conn sub.conn theirs sm.connections,
    text_eq_iff id j,
    h.known j sub,
  );
  owned = λ c j sub q. ground (
    arith,
    lookup-insert id j new sm.subscriptions,
    lookup-insert id j new (subs_of sm conn),
    lookup-insert conn c theirs sm.connections,
    text_eq_iff id j,
    h.owned c j sub,
  );
  used = λ c subs q. ground (
    arith,
    lookup-insert conn c theirs sm.connections,
    h.used c subs,
    insert-ne-nil id new (subs_of sm conn),
  );
}
  where
    new : Subscription
    new = record { id = id; sub_type = sub_type; filter = filter; conn = conn }

    theirs : Map Text Subscription
    theirs = insert id new (subs_of sm conn)

-- Removing a subscription is seen at its connection and its id only.
remove_from_lem :
    (conn c : ℕ) (id j : Text) (connections : Map ℕ (Map Text Subscription))
    → lookup j (get_or (lookup c (remove_from conn id (lookup conn connections) connections)) [])
      ≡ (if conn == c
          then (if text_eq id j then none else lookup j (get_or (lookup conn connections) []))
          else lookup j (get_or (lookup c connections) []))
unfolding remove_from
remove_from_lem conn c id j connections = elim (Option-cases (lookup conn connections)) [
  | inl e ↦ rw e (ground (arith, lookup_nil j))
  | inr (subs, e) ↦ rw e (
      ground (
        arith,
        lookup_nil j,
        lookup-delete conn c connections,
        lookup-delete id j subs,
        lookup-insert conn c (delete id subs) connections,
      ))
]
  where
    lookup_nil : (k : Text) → lookup {V = Subscription} k [] ≡ none
    lookup_nil k = unfold lookup in refl

remove_from_used :
    (conn c : ℕ) (id : Text) (connections : Map ℕ (Map Text Subscription))
    (subs : Map Text Subscription)
    → ((m : Map Text Subscription) → lookup c connections ≡ some m → m ≢ [])
    → lookup c (remove_from conn id (lookup conn connections) connections) ≡ some subs
    → subs ≢ []
unfolding remove_from
remove_from_used conn c id connections subs used q = elim (Option-cases (lookup conn connections)) [
  | inl e ↦ used subs (rw e at q)
  | inr (m, e) ↦ split m (rw e at q) (Bool-cases (is_empty (delete id m)))
]
  where
    split :
        (m : Map Text Subscription)
        → lookup c (remove_from conn id (some m) connections) ≡ some subs
        → (is_empty (delete id m) ≡ true) ⊎ (is_empty (delete id m) ≡ false)
        → subs ≢ []
    split m r (inl e) = ground (arith, lookup-delete conn c connections, used subs)
    split m r (inr e) = ground (arith, lookup-insert conn c (delete id m) connections, used subs)

-- Removing a subscription, known or not, keeps the maps in agreement.
pub unsubscribe-IsCoherent :
    (id : Text) (sm : Manager) → IsCoherent sm → IsCoherent (unsubscribe id sm).0
unfolding unsubscribe
unsubscribe-IsCoherent id sm h = elim (Option-cases (lookup id sm.subscriptions)) [
  | inl e ↦ rw e h
  | inr (gone, e) ↦ rw e (record {
    known = λ j sub q. ground (
      arith,
      lookup-delete id j sm.subscriptions,
      remove_from_lem gone.conn sub.conn id j sm.connections,
      h.known j sub,
    );
    owned = λ c j sub q. ground (
      arith,
      lookup-delete id j sm.subscriptions,
      remove_from_lem gone.conn c id j sm.connections,
      h.owned c j sub,
      h.known id gone,
      text_eq_iff id j,
    );
    used = λ c subs q. remove_from_used gone.conn c id sm.connections subs (h.used c) q;
  })
]

cancel_each-lookup :
    (subs : Map Text Subscription) (sm : Manager) (j : Text)
    → lookup j (cancel_each subs sm).subscriptions
      ≡ elim (lookup j subs) [ none ↦ lookup j sm.subscriptions | some _ ↦ none ]
unfolding cancel_each lookup
cancel_each-lookup [] sm j = refl
cancel_each-lookup ((i, s) ∷ rest) sm j =
    ground
      (arith, cancel_each-lookup rest (cancel_one i s sm) j, lookup-delete i j sm.subscriptions)

cancel_each-connections :
    (subs : Map Text Subscription) (sm : Manager)
    → (cancel_each subs sm).connections ≡ sm.connections
unfolding cancel_each
cancel_each-connections [] sm = refl
cancel_each-connections ((i, s) ∷ rest) sm = cancel_each-connections rest (cancel_one i s sm)

-- The maps after `UnsubscribeAll`, seen at one place.
unsubscribe_all-subs_of :
    (conn c : ℕ) (sm : Manager) (j : Text)
    → lookup j (subs_of (unsubscribe_all conn sm) c)
      ≡ (if conn == c then none else lookup j (subs_of sm c))
unfolding unsubscribe_all
unsubscribe_all-subs_of conn c sm j = elim (Option-cases (lookup conn sm.connections)) [
  | inl e ↦ rw e (ground (arith, lookup_nil))
  | inr (subs, e) ↦ rw e (
      rw (cancel_each-connections subs sm)
        (ground (arith, lookup_nil, lookup-delete conn c sm.connections)))
]
  where
    lookup_nil : lookup {V = Subscription} j [] ≡ none
    lookup_nil = unfold lookup in refl

unsubscribe_all-lookup :
    (conn : ℕ) (sm : Manager) (j : Text)
    → lookup j (unsubscribe_all conn sm).subscriptions
      ≡ elim (lookup j (subs_of sm conn)) [ none ↦ lookup j sm.subscriptions | some _ ↦ none ]
unfolding unsubscribe_all
unsubscribe_all-lookup conn sm j = elim (Option-cases (lookup conn sm.connections)) [
  | inl e ↦ rw e (unfold lookup in refl)
  | inr (subs, e) ↦ rw e (cancel_each-lookup subs sm j)
]

unsubscribe_all-used :
    (conn c : ℕ) (sm : Manager) (m : Map Text Subscription)
    → ((subs : Map Text Subscription) → lookup c sm.connections ≡ some subs → subs ≢ [])
    → lookup c (unsubscribe_all conn sm).connections ≡ some m
    → m ≢ []
unfolding unsubscribe_all
unsubscribe_all-used conn c sm m used q = elim (Option-cases (lookup conn sm.connections)) [
  | inl e ↦ used m (rw e at q)
  | inr (subs, e) ↦
      let r = rw (cancel_each-connections subs sm) at (rw e at q) in
      ground (arith, r, lookup-delete conn c sm.connections, used m)
]

-- Closing a connection keeps the maps in agreement.
pub unsubscribe_all-IsCoherent :
    (conn : ℕ) (sm : Manager) → IsCoherent sm → IsCoherent (unsubscribe_all conn sm)
unsubscribe_all-IsCoherent conn sm h = record {
  known = λ j sub q. ground (
    arith,
    unsubscribe_all-lookup conn sm j,
    unsubscribe_all-subs_of conn sub.conn sm j,
    h.known j sub,
  );
  owned = λ c j sub q. elim (Option-cases (lookup j (subs_of sm conn))) [
    | inl e ↦ ground (
      arith,
      unsubscribe_all-lookup conn sm j,
      unsubscribe_all-subs_of conn c sm j,
      h.owned c j sub,
    )
    | inr (s, e) ↦
        ground (arith, unsubscribe_all-subs_of conn c sm j, h.owned c j sub, h.owned conn j s)
  ];
  used = λ c m q. unsubscribe_all-used conn c sm m (h.used c) q;
}

-- After `UnsubscribeAll` no subscription of the connection is left, and every other one is still
-- there.
pub unsubscribe_all_lem :
    (conn : ℕ) (sm : Manager) (id : Text) (sub : Subscription)
    → IsCoherent sm
    → (lookup id (unsubscribe_all conn sm).subscriptions ≡ some sub)
      ↔ (lookup id sm.subscriptions ≡ some sub) × (sub.conn ≢ conn)
unsubscribe_all_lem conn sm id sub h = (
  λ q. ground (arith, unsubscribe_all-lookup conn sm id, h.known id sub),
  λ q. elim (Option-cases (lookup id (subs_of sm conn))) [
    | inl e ↦ ground (arith, unsubscribe_all-lookup conn sm id)
    | inr (s, e) ↦ ground (arith, h.owned conn id s)
  ],
)
