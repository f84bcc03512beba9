-- ===== src/Storage/TxPool/Content.antt =====
-- What stands at an address and a nonce of `GetPoolContent`.
use mathlib.Core.Option.{get_or}
use evm_rpc.Prelude.{
  ℕ, ◌<◌, ◌≡◌, refl, ◌∙◌, ap, Bool, false, ◌&&◌, Option, none, some, Bool-cases, inl, inr, Text,
  text_eq, text_eq_iff, List, [], ◌∷◌, Map, text_key, lookup, lookup-insert, beq_ne, if◌then◌else◌,
  ◌==◌, ==_iff, arith,
}
use evm_rpc.Prelude.Int.{two64}
use evm_rpc.Strconv.Print.{format_uint}
use evm_rpc.Strconv.RoundTrip.{format_uint_injective}
use evm_rpc.Storage.TxPool.{TxLib, place, place_from, group_pool}

-- `m[address][nonce]`; a missing inner map is nil, and has no entry.
abbrev pub entry_of : {A : Type 0} → Text → Option (Map Text A) → Option A
entry_of nonce none = none
entry_of nonce (some m) = lookup nonce m

abbrev pub entry : {A : Type 0} → Text → Text → Map Text (Map Text A) → Option A
entry address nonce pool = entry_of nonce (lookup address pool)

-- The last element that passes a test, or else what is given.
abbrev pub last_or : {A : Type 0} → (A → Bool) → Option A → List A → Option A
last_or p none_yet [] = none_yet
last_or p last (x ∷ xs) = last_or p (if p x then some x else last) xs

-- Decimal forms are the same exactly if the numbers are.
text_eq-format_uint :
    (n m : ℕ) → n < two64 → m < two64 → text_eq (format_uint n 10) (format_uint m 10) ≡ (n == m)
text_eq-format_uint n m p q = elim (Bool-cases (n == m)) [
  | inl e ↦ rw e (
      (text_eq_iff (format_uint n 10) (format_uint m 10)).1
        (ap (λ (k : ℕ). format_uint k 10) ((==_iff n m).0 e)))
  | inr e ↦ rw e (
      beq_ne (format_uint n 10) (format_uint m 10)
        (λ h. ground (arith, format_uint_injective 10 n m (omega arith) (omega arith) p q h)))
]

module _ (txs : TxLib) where
  open txs use {Transaction}

  lookup-get_or :
      (nonce : Text) (o : Option (Map Text Transaction))
      → lookup nonce (get_or o []) ≡ entry_of nonce o
  unfolding lookup
  lookup-get_or nonce none = refl
  lookup-get_or nonce (some m) = refl

  entry-place :
      (address from nonce at : Text) (tx : Transaction) (pool : Map Text (Map Text Transaction))
      → entry address nonce (place txs from at tx pool)
        ≡ (if text_eq from address && text_eq at nonce then some tx else entry address nonce pool)
  unfolding place
  entry-place address from nonce at tx pool = elim (Bool-cases (text_eq from address)) [
    | inl e ↦
        ap (entry_of nonce) (lookup-insert from address _ pool)
        ∙ rw e (
            lookup-insert at nonce tx (get_or (lookup from pool) [])
            ∙ ap (λ (o : Option Transaction). if text_eq at nonce then some tx else o)
                (lookup-get_or nonce (lookup from pool)
                  ∙ ap (λ (a : Text). entry a nonce pool) ((text_eq_iff from address).0 e)))
    | inr e ↦ ap (entry_of nonce) (lookup-insert from address _ pool) ∙ rw e
  ]

  module _ (signer : Transaction → Option Text) where
    -- A transaction of this sender, with a nonce of this form.
    abbrev sent : Option Text → Text → Bool
    sent none address = false
    sent (some from) address = text_eq from address

    abbrev pub is_at : Text → ℕ → Transaction → Bool
    is_at address nonce tx = sent (signer tx) address && txs.nonce tx == nonce

    entry-place_from :
        (address : Text) (nonce : ℕ) (o : Option Text) (tx : Transaction)
        (pool : Map Text (Map Text Transaction))
        → nonce < two64
        → txs.nonce tx < two64
        → entry address (format_uint nonce 10) (place_from txs o tx pool) ≡ (
            if sent o address && txs.nonce tx == nonce
            then some tx
            else entry address (format_uint nonce 10) pool)
    entry-place_from address nonce none tx pool p q = refl
    entry-place_from address nonce (some from) tx pool p q =
        entry-place address from (format_uint nonce 10) (format_uint (txs.nonce tx) 10) tx pool
        ∙ ap
            (λ (b : Bool).
              if text_eq from address && b
              then some tx
              else entry address (format_uint nonce 10) pool)
            (text_eq-format_uint (txs.nonce tx) nonce q p)

    pub entry-group_pool :
        ((tx : Transaction) → txs.nonce tx < two64)
        → (address : Text) (nonce : ℕ) → nonce < two64
        → (pending : List Transaction) (pool : Map Text (Map Text Transaction))
        → entry address (format_uint nonce 10) (group_pool txs signer pending pool)
          ≡ last_or (is_at address nonce) (entry address (format_uint nonce 10) pool) pending
    unfolding group_pool
    entry-group_pool uint64 address nonce fits [] pool = refl
    entry-group_pool uint64 address nonce fits (tx ∷ pending) pool =
        entry-group_pool uint64 address nonce fits pending (place_from txs (signer tx) tx pool)
        ∙ ap (λ (o : Option Transaction). last_or (is_at address nonce) o pending)
            (entry-place_from address nonce (signer tx) tx pool fits (uint64 tx))
