-- ===== src/Cache/Store/Reads.antt =====
-- What `Get` finds after `Set`, and how the counters move.
use evm_rpc.Prelude.{
  ℕ, ◌+◌, ◌≤◌, ◌<◌, ◌≡◌, ◌≢◌, ◌↔◌, sym, ltb, arith, ◌⊎◌, inl, inr, refl, ap, ◌∙◌, Bool, true, false,
  Option, none, some, Text, if◌then◌else◌, Bool-cases, if_true, if_false, lt→ltb, le→ltb,
}
use evm_rpc.Prelude.Int.{ℤ, pos, pos_part, ltbℤ}
use evm_rpc.Cache.Lru.{LruLib, IsLru}
use evm_rpc.Cache.Store.{CacheItem, is_after, is_expired, item_of, Cache, get, set, found_with}

-- What a `Get` at a time returns: the item, unless it has expired.
abbrev pub live : {V : Type 0} → ℕ → Option (CacheItem V) → Option V
live now none = none
live now (some item) = if is_expired now item then none else some item.value

is_after_fresh :
    (b : Bool) (later t : ℕ)
    → (b ≡ false) ⊎ (later ≤ t)
    → is_after later (if b then some t else none) ≡ false
is_after_fresh true later t (inl e) = cc
is_after_fresh true later t (inr h) = le→ltb t later h
is_after_fresh false later t h = refl

below : (a b : ℕ) → ltb a b ≡ true → a < b
below a b h = ground arith

not_below : (a b : ℕ) → ltb a b ≡ false → b ≤ a
not_below a b h = ground arith

module _ {V : Type 0} (lib : LruLib (CacheItem V)) (lru : IsLru lib) where
  open lru use {contents}

  found_with-live :
      (now : ℕ) (k : Text) (o : Option (CacheItem V)) (c : Cache lib)
      → (found_with lib now k o c).1 ≡ live now o
  found_with-live now k none c = refl
  found_with-live now k (some item) c = elim (Bool-cases (is_expired now item)) [
    | inl e ↦ rw e
    | inr e ↦ rw e
  ]

  -- A lookup returns what the table holds for the key, unless that has expired.
  pub get-live :
      (now : ℕ) (k : Text) (c : Cache lib) → (get lib now k c).1 ≡ live now (contents c.lru k)
  unfolding get
  get-live now k c =
      let (l, o) = lib.get k c.lru in
      found_with-live now k o (record c { lru = l }) ∙ ap (live now) (lru.get_found k c.lru)

  found_with-lru :
      (now : ℕ) (k : Text) (o : Option (CacheItem V)) (c : Cache lib)
      → (found_with lib now k o c).0.lru ≡ c.lru
  found_with-lru now k none c = refl
  found_with-lru now k (some item) c = elim (Bool-cases (is_expired now item)) [
    | inl e ↦ rw e
    | inr e ↦ rw e
  ]

  -- It changes nothing in the table.
  pub get-contents :
      (now : ℕ) (k j : Text) (c : Cache lib) → contents (get lib now k c).0.lru j ≡ contents c.lru j
  unfolding get
  get-contents now k j c =
      let (l, o) = lib.get k c.lru in
      ap (λ m. contents m j) (found_with-lru now k o (record c { lru = l }))
      ∙ lru.get_keeps k j c.lru

  -- Until its time to live is over, and for ever without one, a value that was set is found.
  pub get-set_self :
      (now later : ℕ) (k : Text) (v : V) (ttl : ℤ) (c : Cache lib)
      → (ltbℤ (pos 0) ttl ≡ false) ⊎ (later ≤ now + pos_part ttl)
      → (get lib later k (set lib now k v ttl c)).1 ≡ some v
  unfolding set is_expired
  get-set_self now later k v ttl c h =
      get-live later k (set lib now k v ttl c)
      ∙ ap (live later) (lru.add_self k (item_of now v ttl) c.lru)
      ∙ if_false none (some v) (is_after_fresh (ltbℤ (pos 0) ttl) later (now + pos_part ttl) h)

  -- After its time to live it is not.
  pub get-set_expired :
      (now later : ℕ) (k : Text) (v : V) (ttl : ℤ) (c : Cache lib)
      → ltbℤ (pos 0) ttl ≡ true
      → now + pos_part ttl < later
      → (get lib later k (set lib now k v ttl c)).1 ≡ none
  unfolding set is_expired
  get-set_expired now later k v ttl c p h =
      get-live later k (set lib now k v ttl c)
      ∙ ap (live later) (lru.add_self k (item_of now v ttl) c.lru)
      ∙ if_true none (some v) (
          ap (λ b. is_after later (if b then some (now + pos_part ttl) else none)) p
          ∙ lt→ltb (now + pos_part ttl) later h)

  -- A lookup directly after a set, with no other call and no cleanup between, finds the value exactly
  -- if it has no time to live, which a ttl that is not positive means, or that is not over at the time
  -- of the lookup.
  pub get-set_iff :
      (now later : ℕ) (k : Text) (v : V) (ttl : ℤ) (c : Cache lib)
      → ((get lib later k (set lib now k v ttl c)).1 ≡ some v)
        ↔ ((ltbℤ (pos 0) ttl ≡ false) ⊎ (later ≤ now + pos_part ttl))
  get-set_iff now later k v ttl c = (λ found. in_time found, get-set_self now later k v ttl c)
    where
      none-≢-some : none ≢ some v
      none-≢-some e = cc

      in_time :
          (get lib later k (set lib now k v ttl c)).1 ≡ some v
          → (ltbℤ (pos 0) ttl ≡ false) ⊎ (later ≤ now + pos_part ttl)
      in_time found = elim (Bool-cases (ltbℤ (pos 0) ttl)) [
        | inr never ↦ inl never
        | inl some_ttl ↦ elim (Bool-cases (ltb (now + pos_part ttl) later)) [
          | inr not_over ↦ inr (not_below (now + pos_part ttl) later not_over)
          | inl over ↦ absurd (
              none-≢-some (
                sym (
                  get-set_expired now later k v ttl c some_ttl
                    (below (now + pos_part ttl) later over))
                ∙ found))
        ]
      ]
