-- ===== src/Cache/Store/Last.antt =====
-- A cache against the last value that was set under a key: it has that value, or none.
use evm_rpc.Prelude.{
  ℕ, ◌≡◌, ◌≢◌, ◌⊎◌, inl, inr, refl, ap, ◌∙◌, Option, none, some, Text, text_eq, List, [], ◌∷◌,
  if◌then◌else◌, Bool-cases,
}
use evm_rpc.Prelude.Int.{ℤ}
use evm_rpc.Cache.Lru.{LruLib, IsLru}
use evm_rpc.Cache.Store.{
  CacheItem, Cache, get, set, delete, clear, run_cleanup, run_cleanup_of, item_of, is_expired,
}
use evm_rpc.Cache.Store.Reads.{live, get-live, get-contents}

module _ {V : Type 0} (lib : LruLib (CacheItem V)) (lru : IsLru lib) where
  open lru use {contents}

  -- What is held under the key, if anything is, is `last`.
  abbrev pub Holds : Text → Option V → Cache lib → Type 0
  Holds k last c =
      (contents c.lru k ≡ none)
      ⊎ ((i : CacheItem V) × (contents c.lru k ≡ some i) × (last ≡ some i.value))

  pub Holds-moved :
      (k : Text) (last : Option V) (c d : Cache lib)
      → (contents d.lru k ≡ contents c.lru k) ⊎ (contents d.lru k ≡ none)
      → Holds k last c
      → Holds k last d
  Holds-moved k last c d (inr gone) h = inl gone
  Holds-moved k last c d (inl same) (inl e) = inl (same ∙ e)
  Holds-moved k last c d (inl same) (inr (i, e, q)) = inr (i, same ∙ e, q)

  pub get-Holds :
      (now : ℕ) (j k : Text) (last : Option V) (c : Cache lib)
      → Holds k last c
      → Holds k last (get lib now j c).0
  get-Holds now j k last c =
      Holds-moved k last c (get lib now j c).0 (inl (get-contents lib lru now j k c))

  pub set-Holds_self :
      (now : ℕ) (k : Text) (v : V) (ttl : ℤ) (c : Cache lib)
      → Holds k (some v) (set lib now k v ttl c)
  unfolding set
  set-Holds_self now k v ttl c =
      inr (item_of now v ttl, lru.add_self k (item_of now v ttl) c.lru, refl)

  pub set-Holds_other :
      (now : ℕ) (j k : Text) (v : V) (ttl : ℤ) (last : Option V) (c : Cache lib)
      → j ≢ k
      → Holds k last c
      → Holds k last (set lib now j v ttl c)
  unfolding set
  set-Holds_other now j k v ttl last c d =
      Holds-moved k last c (set lib now j v ttl c) (lru.add_other j k (item_of now v ttl) c.lru d)

  pub clear-Holds : (k : Text) (last : Option V) (c : Cache lib) → Holds k last (clear lib c)
  unfolding clear
  clear-Holds k last c = inl (lru.purge_found k c.lru)

  delete-Holds :
      (j k : Text) (last : Option V) (c : Cache lib)
      → Holds k last c
      → Holds k last (delete lib j c)
  unfolding delete
  delete-Holds j k last c = Holds-moved k last c (delete lib j c) (elim (Bool-cases (text_eq j k)) [
    | inl e ↦ inr (lru.remove_found j k c.lru ∙ ap (λ b. if b then none else contents c.lru k) e)
    | inr e ↦ inl (lru.remove_found j k c.lru ∙ ap (λ b. if b then none else contents c.lru k) e)
  ])

  pub run_cleanup-Holds :
      (k : Text) (last : Option V) (c : Cache lib)
      → Holds k last c
      → Holds k last (run_cleanup lib c)
  unfolding run_cleanup
  run_cleanup-Holds k last c h = go c.pending
    where
      go : (keys : List Text) → Holds k last (run_cleanup_of lib keys c)
      go [] = h
      go (j ∷ rest) = delete-Holds j k last (record c { pending = rest }) h

  -- So a lookup finds that or nothing.
  pub Holds-get :
      (now : ℕ) (k : Text) (last : Option V) (c : Cache lib)
      → Holds k last c
      → ((get lib now k c).1 ≡ none) ⊎ ((v : V) × ((get lib now k c).1 ≡ some v) × (last ≡ some v))
  unfolding is_expired
  Holds-get now k last c (inl e) = inl (get-live lib lru now k c ∙ ap (live now) e)
  Holds-get now k last c (inr (i, e, q)) = elim (Bool-cases (is_expired now i)) [
    | inl old ↦ inl (
        get-live lib lru now k c ∙ ap (live now) e ∙ ap (λ b. if b then none else some i.value) old)
    | inr good ↦ inr (
      i.value,
      get-live lib lru now k c ∙ ap (live now) e ∙ ap (λ b. if b then none else some i.value) good,
      q,
    )
  ]
