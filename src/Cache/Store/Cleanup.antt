-- ===== src/Cache/Store/Cleanup.antt =====
-- What `go c.Delete(key)`, the cleanup that `Get` starts for an expired item, does when it runs.
use evm_rpc.Prelude.{
  ℕ, ◌≤◌, ◌≡◌, ◌⊎◌, inl, inr, refl, ap, ◌∙◌, sym, true, Option, none, some, Text, text_eq,
  text_eq_iff, List, [], ◌∷◌, arith, Bool-cases, if_true, if_false,
}
use evm_rpc.Prelude.Int.{ℤ}
use evm_rpc.Cache.Lru.{LruLib, IsLru}
use evm_rpc.Cache.Store.{
  CacheItem, is_after, is_expired, Cache, get, set, delete, found_with, run_cleanup, run_cleanup_of,
}
use evm_rpc.Cache.Store.Reads
use evm_rpc.Cache.Store.Reads.{live}

is_after_later :
    (now later : ℕ) (e : Option ℕ) → now ≤ later → is_after now e ≡ true → is_after later e ≡ true
is_after_later now later none h p = cc
is_after_later now later (some e) h p = ground arith

module _ {V : Type 0} (lib : LruLib (CacheItem V)) (lru : IsLru lib) where
  open lru use {contents}

  -- What is gone stays gone.
  live_later :
      (now later : ℕ) (o : Option (CacheItem V))
      → now ≤ later
      → live now o ≡ none
      → live later o ≡ none
  unfolding is_expired
  live_later now later none h p = refl
  live_later now later (some i) h p = elim (Bool-cases (is_expired now i)) [
    | inl e ↦ if_true none (some i.value) (is_after_later now later i.expiration h e)
    | inr e ↦ elim (some≢none (sym (if_false none (some i.value) e) ∙ p)) [ ]
  ]
    where
      some≢none : {x : V} → some x ≡ none → ⊥
      some≢none q = cc

  delete-get :
      (later : ℕ) (k j : Text) (c : Cache lib)
      → live later (contents c.lru k) ≡ none
      → (get lib later j (delete lib k c)).1 ≡ (get lib later j c).1
  unfolding delete
  delete-get later k j c gone =
      Reads.get-live lib lru later j (delete lib k c)
      ∙ ap (live later) (lru.remove_found k j c.lru)
      ∙ elim (Bool-cases (text_eq k j)) [
        | inl e ↦
            ap (live later) (if_true none (contents c.lru j) e)
            ∙ sym gone
            ∙ ap (λ i. live later (contents c.lru i)) ((text_eq_iff k j).0 e)
        | inr e ↦ ap (live later) (if_false none (contents c.lru j) e)
      ]
      ∙ sym (Reads.get-live lib lru later j c)

  pending_of_miss :
      (now : ℕ) (k : Text) (o : Option (CacheItem V)) (c : Cache lib)
      → c.pending ≡ []
      → ((found_with lib now k o c).0.pending ≡ [])
        ⊎ ((found_with lib now k o c).0.pending ≡ k ∷ []) × (live now o ≡ none)
  pending_of_miss now k none c p = inl p
  pending_of_miss now k (some i) c p = elim (Bool-cases (is_expired now i)) [
    | inl e ↦ inr (rw (e, p), if_true none (some i.value) e)
    | inr e ↦ inl (rw e p)
  ]

  pending-get :
      (now : ℕ) (k : Text) (c : Cache lib)
      → c.pending ≡ []
      → ((get lib now k c).0.pending ≡ [])
        ⊎ ((get lib now k c).0.pending ≡ k ∷ []) × (live now (contents c.lru k) ≡ none)
  unfolding get
  pending-get now k c p =
      let (l, o) = lib.get k c.lru in
      elim (pending_of_miss now k o (record c { lru = l }) p) [
        | inl e ↦ inl e
        | inr (e, gone) ↦ inr (e, sym (ap (live now) (lru.get_found k c.lru)) ∙ gone)
      ]

  get-get :
      (now later : ℕ) (k j : Text) (c : Cache lib)
      → (get lib later j (get lib now k c).0).1 ≡ (get lib later j c).1
  get-get now later k j c =
      Reads.get-live lib lru later j (get lib now k c).0
      ∙ ap (live later) (Reads.get-contents lib lru now k j c)
      ∙ sym (Reads.get-live lib lru later j c)

  -- The cleanup that a lookup starts, when nothing comes between, is not seen by any later lookup.
  pub run_cleanup-get :
      (now later : ℕ) (k j : Text) (c : Cache lib)
      → now ≤ later
      → c.pending ≡ []
      → (get lib later j (run_cleanup lib (get lib now k c).0)).1 ≡ (get lib later j c).1
  unfolding run_cleanup
  run_cleanup-get now later k j c h p =
      let g = (get lib now k c).0 in
      elim (pending-get now k c p) [
        | inl e ↦ ap (λ x. (get lib later j (run_cleanup_of lib x g)).1) e ∙ get-get now later k j c
        | inr (e, gone) ↦
            ap (λ x. (get lib later j (run_cleanup_of lib x g)).1) e
            ∙ delete-get later k j (record g { pending = [] })
                (ap (live later) (Reads.get-contents lib lru now k k c)
                  ∙ live_later now later (contents c.lru k) h gone)
            ∙ (Reads.get-live lib lru later j (record g { pending = [] })
                ∙ sym (Reads.get-live lib lru later j g)
                ∙ get-get now later k j c)
      ]

  -- A cleanup that was started before a value is set removes that value: it is not found, however
  -- long its time to live.
  pub run_cleanup-set :
      (now later : ℕ) (k : Text) (v : V) (ttl : ℤ) (rest : List Text) (c : Cache lib)
      → c.pending ≡ k ∷ rest
      → (get lib later k (run_cleanup lib (set lib now k v ttl c))).1 ≡ none
  unfolding run_cleanup set delete
  run_cleanup-set now later k v ttl rest c p =
      let s = set lib now k v ttl c in
      ap (λ x. (get lib later k (run_cleanup_of lib x s)).1) p
      ∙ Reads.get-live lib lru later k (delete lib k (record s { pending = rest }))
      ∙ ap (live later)
          (lru.remove_found k k s.lru ∙ if_true none (contents s.lru k) ((text_eq_iff k k).1 refl))
