-- ===== src/Cache/Manager/Typed.antt =====
-- The getters' type assertions: they hold as long as the manager's own setters fill the caches.
use mathlib.Core.Path.{subst}
use mathlib.Core.Option.{some-injective}
use evm_rpc.Prelude.{
  ℕ, ◌≡◌, inl, inr, refl, ap, ◌∙◌, sym, Option, none, some, Text, Bool, true, false, List, [], ◌∷◌,
  if◌then◌else◌, text_eq, text_eq_iff, arith, Bool-cases,
}
use evm_rpc.Prelude.Int.{ℤ}
use evm_rpc.Cache.Lru.{LruLib, IsLru}
use evm_rpc.Cache.Store
use evm_rpc.Cache.Store.{CacheItem, Cache, item_of, is_expired, run_cleanup_of}
use evm_rpc.Cache.Store.Reads
use evm_rpc.Cache.Store.Reads.{live}

module _ {V : Type 0} (lib : LruLib (CacheItem V)) (lru : IsLru lib) (P : V → Type 0) where
  open lru use {contents}

  -- Every value in the cache has the property.
  abbrev pub AllAre : Cache lib → Type 0
  AllAre c = (k : Text) (i : CacheItem V) → contents c.lru k ≡ some i → P i.value

  pub set-AllAre :
      (now : ℕ) (k : Text) (v : V) (ttl : ℤ) (c : Cache lib)
      → P v
      → AllAre c
      → AllAre (Store.set lib now k v ttl c)
  unfolding Store.set
  set-AllAre now k v ttl c p h j i q = elim (Bool-cases (text_eq k j)) [
    | inl e ↦
        subst (λ (x : CacheItem V). P x.value)
          (some-injective _ _ (
            sym (lru.add_self k (item_of now v ttl) c.lru)
            ∙ ap (contents (lib.add k (item_of now v ttl) c.lru)) ((text_eq_iff k j).0 e)
            ∙ q))
          p
    | inr e ↦
        elim (lru.add_other k j (item_of now v ttl) c.lru (λ r. ground (arith, text_eq_iff k j))) [
          | inl same ↦ h j i (sym same ∙ q)
          | inr gone ↦ absurd (none≢some (sym gone ∙ q))
        ]
  ]
    where
      none≢some : {x : CacheItem V} → none ≡ some x → ⊥
      none≢some r = cc

  pub get-AllAre :
      (now : ℕ) (k : Text) (c : Cache lib) → AllAre c → AllAre (Store.get lib now k c).0
  get-AllAre now k c h j i q = h j i (sym (Reads.get-contents lib lru now k j c) ∙ q)

  pub clear-AllAre : (c : Cache lib) → AllAre (Store.clear lib c)
  unfolding Store.clear
  clear-AllAre c j i q = absurd (none≢some (sym (lru.purge_found j c.lru) ∙ q))
    where
      none≢some : {x : CacheItem V} → none ≡ some x → ⊥
      none≢some r = cc

  pub run_cleanup-AllAre : (c : Cache lib) → AllAre c → AllAre (Store.run_cleanup lib c)
  unfolding Store.run_cleanup Store.delete
  run_cleanup-AllAre c h = go c.pending
    where
      remaining :
          (b : Bool) {o r : Option (CacheItem V)} {i : CacheItem V}
          → o ≡ (if b then none else r)
          → o ≡ some i
          → r ≡ some i
      remaining true e f = cc
      remaining false e f = sym e ∙ f

      go : (keys : List Text) → AllAre (run_cleanup_of lib keys c)
      go [] = h
      go (k ∷ rest) = λ j i q. h j i (remaining (text_eq k j) (lru.remove_found k j c.lru) q)

  -- What a lookup returns has it too.
  pub get-Are :
      (now : ℕ) (k : Text) (c : Cache lib) (v : V)
      → AllAre c
      → (Store.get lib now k c).1 ≡ some v
      → P v
  get-Are now k c v h q =
      live-Are (contents c.lru k) (h k) (sym (Reads.get-live lib lru now k c) ∙ q)
    where
      live-Are :
          (o : Option (CacheItem V))
          → ((i : CacheItem V) → o ≡ some i → P i.value)
          → live now o ≡ some v
          → P v
      live-Are none f r = cc
      live-Are (some i) f r = elim (Bool-cases (is_expired now i)) [
        | inl e ↦ cc (rw e at r)
        | inr e ↦ subst P (some-injective _ _ (rw e at r)) (f i refl)
      ]
