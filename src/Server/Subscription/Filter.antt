-- ===== src/Server/Subscription/Filter.antt =====
-- `matchLogFilter` of pkg/server/subscription.go, and the log filter that it decides.
use mathlib.Core.Path.{subst, sym}
use mathlib.Core.Option.{some-injective}
use evm_rpc.Prelude.{
  ℕ, zero, suc, ◌+◌, ◌≡◌, ◌⊎◌, ◌↔◌, inl, inr, refl, Bool, true, false, Option, none, some, Text,
  text_eq, text_eq_iff, List, [], ◌∷◌, get_elem?, any, arith, if◌then◌else◌, Bool-cases,
}
use evm_rpc.Server.Subscription.{FilterCriteria}

-- The fields of `types.Log`; hashes, addresses and data are byte strings.
pub record Log : Type 0 where
  pub address : Text
  pub topics : List Text
  pub data_bytes : List ℕ
  pub block_number : ℕ
  pub tx_hash : Text
  pub tx_index : ℕ
  pub block_hash : Text
  pub index : ℕ

-- The loop over the addresses, which ends at the first that fits; no addresses fit every log.
unfoldable pub match_address : Text → List Text → Bool
match_address address [] = true
match_address address (a ∷ rest) = any (text_eq address) (a ∷ rest)

-- One round of the loop over the topics: the `i`-th set against the log's `i`-th topic.
abbrev match_set : Option Text → List Text → Bool
match_set none set = false
match_set (some topic) [] = true
match_set (some topic) (t ∷ ts) = any (text_eq topic) (t ∷ ts)

unfoldable pub match_topics : ℕ → List Text → List (List Text) → Bool
match_topics i topics [] = true
match_topics i topics (set ∷ sets) =
    let rest = match_topics (suc i) topics sets in
    if match_set (get_elem? topics i) set then rest else false

unfoldable pub match_log_filter : Log → FilterCriteria → Bool
unfolding match_address match_topics
match_log_filter log filter =
    if match_address log.address filter.addresses
    then match_topics 0 log.topics filter.topics
    else false

-- Membership in a list of byte strings.
abbrev pub In : Text → List Text → Type 0
In a [] = ⊥
In a (b ∷ bs) = (a ≡ b) ⊎ In a bs

-- The address is one of the listed, if any is; and for each set of topics the log has a topic in its
-- place, also for an empty set, which takes any, while another has to contain it.
pub record Fits (log : Log) (filter : FilterCriteria) : Type 0 where
  pub by_address : (filter.addresses ≡ []) ⊎ In log.address filter.addresses
  pub by_topic :
      (i : ℕ) (set : List Text)
      → get_elem? filter.topics i ≡ some set
      → (topic : Text) × (get_elem? log.topics i ≡ some topic) × ((set ≡ []) ⊎ In topic set)

any_sound : (a : Text) (bs : List Text) → any (text_eq a) bs ≡ true → In a bs
any_sound a (b ∷ bs) h = elim (Bool-cases (text_eq a b)) [
  | inl e ↦ inl ((text_eq_iff a b).0 e)
  | inr e ↦ inr (any_sound a bs (ground arith))
]
any_sound a [] h = cc

any_complete : (a : Text) (bs : List Text) → In a bs → any (text_eq a) bs ≡ true
any_complete a [] m = elim m [ ]
any_complete a (b ∷ bs) (inl e) = ground (arith, text_eq_iff a b)
any_complete a (b ∷ bs) (inr m) = ground (arith, any_complete a bs m)

match_set_sound :
    (o : Option Text) (set : List Text)
    → match_set o set ≡ true
    → (topic : Text) × (o ≡ some topic) × ((set ≡ []) ⊎ In topic set)
match_set_sound none set h = cc
match_set_sound (some topic) [] h = (topic, refl, inl refl)
match_set_sound (some topic) (t ∷ ts) h = (topic, refl, inr (any_sound topic (t ∷ ts) h))

match_set_complete :
    (o : Option Text) (set : List Text) (topic : Text)
    → o ≡ some topic
    → (set ≡ []) ⊎ In topic set
    → match_set o set ≡ true
match_set_complete none set topic e h = cc
match_set_complete (some t) [] topic e h = refl
match_set_complete (some t) (s ∷ ss) topic e (inl h) = ground arith
match_set_complete (some t) (s ∷ ss) topic e (inr h) =
    any_complete t (s ∷ ss) (subst (λ u. In u (s ∷ ss)) (sym (some-injective _ _ e)) h)

-- What the loop over the topics checks from its `i`-th round on.
abbrev TopicsFit : ℕ → List Text → List (List Text) → Type 0
TopicsFit i topics sets =
    (k j : ℕ) (set : List Text)
    → k ≡ i + j
    → get_elem? sets j ≡ some set
    → (topic : Text) × (get_elem? topics k ≡ some topic) × ((set ≡ []) ⊎ In topic set)

match_topics_sound :
    (i : ℕ) (topics : List Text) (sets : List (List Text))
    → match_topics i topics sets ≡ true
    → TopicsFit i topics sets
unfolding match_topics
match_topics_sound i topics [] h k j set place e = cc
match_topics_sound i topics (s ∷ sets) h k zero set place e =
    match_set_sound (get_elem? topics k) set (ground arith)
match_topics_sound i topics (s ∷ sets) h k (suc j) set place e =
    match_topics_sound (suc i) topics sets (ground arith) k j set (omega arith) e

match_topics_complete :
    (i : ℕ) (topics : List Text) (sets : List (List Text))
    → TopicsFit i topics sets
    → match_topics i topics sets ≡ true
unfolding match_topics
match_topics_complete i topics [] h = refl
match_topics_complete i topics (s ∷ sets) h =
    let (topic, at, fits) = h i 0 s (omega arith) refl in
    rw (match_set_complete (get_elem? topics i) s topic at fits) (
      match_topics_complete (suc i) topics sets
        (λ k j set place e. h k (suc j) set (omega arith) e))

address_sound : (a : Text) (bs : List Text) → match_address a bs ≡ true → (bs ≡ []) ⊎ In a bs
unfolding match_address
address_sound a [] h = inl refl
address_sound a (b ∷ bs) h = inr (any_sound a (b ∷ bs) h)

address_complete : (a : Text) (bs : List Text) → (bs ≡ []) ⊎ In a bs → match_address a bs ≡ true
unfolding match_address
address_complete a [] h = refl
address_complete a (b ∷ bs) (inl e) = ground arith
address_complete a (b ∷ bs) (inr m) = any_complete a (b ∷ bs) m

-- A log passes the filter exactly if its address is among the listed ones, if any are, and for each set
-- of topics of the filter the log has a topic in its place, also for an empty set, which takes any
-- topic, while another has to contain it.
pub match_log_filter_iff :
    (log : Log) (filter : FilterCriteria) → (match_log_filter log filter ≡ true) ↔ Fits log filter
unfolding match_log_filter
match_log_filter_iff log filter = (
  λ h. record {
    by_address = address_sound log.address filter.addresses (ground arith);
    by_topic = λ i set e.
        match_topics_sound 0 log.topics filter.topics (ground arith) i i set (omega arith) e;
  },
  λ f. rw (address_complete log.address filter.addresses f.by_address) (
      match_topics_complete 0 log.topics filter.topics (λ k j set place e.
        subst
          (λ n.
            (topic : Text) × (get_elem? log.topics n ≡ some topic) × ((set ≡ []) ⊎ In topic set))
          (omega arith) (f.by_topic j set e))),
)
