-- ===== src/Tests/Caching.antt =====
-- A cache over an association list that never evicts.
use evm_rpc.Prelude.{
  ℕ, zero, suc, ◌≡◌, ◌↔◌, ◌⊎◌, ◌≤◌, ◌+◌, false, inl, refl, ap, ◌∙◌, sym, Option, none, some, Text,
  text, text_eq, [], ◌∷◌, Map, text_key, lookup, insert, delete, lookup-insert, lookup-delete,
  beq_refl, beq_ne, if_true, if_false,
}
use mathlib.Core.Option.{some-injective}
use evm_rpc.Prelude.Int.{pos, pos_part, ltbℤ}
use evm_rpc.Cache.Lru.{LruLib, IsLru}
use evm_rpc.Cache.Store.{Cache, get, set, run_cleanup}
use evm_rpc.Cache.Store.Reads
use evm_rpc.Cache.Store.Cleanup

abbrev new_list : {I : Type 0} → ℕ → Option (Map Text I)
new_list zero = none
new_list (suc n) = some []

abbrev pub list_lru : {I : Type 0} → LruLib I
list_lru {I} = record {
  Lru = Map Text I;
  new = λ size. new_list (pos_part size);
  get = λ k l. (l, lookup k l);
  add = insert;
  remove = delete;
  purge = λ l. [];
  len = λ l. 0;
}

pub new_list-empty :
    {I : Type 0} (n : ℕ) (l : Map Text I) (j : Text) → new_list n ≡ some l → lookup j l ≡ none
unfolding lookup
new_list-empty zero l j e = cc
new_list-empty (suc n) l j e = sym (ap (lookup j) (some-injective _ _ e))

unfoldable pub list_lru-IsLru : {I : Type 0} → IsLru (list_lru {I = I})
unfolding lookup
list_lru-IsLru {I} = record {
  contents = λ l k. lookup k l;
  get_found = λ k l. refl;
  get_keeps = λ k j l. refl;
  add_self = λ k i l. lookup-insert k k i l ∙ if_true (some i) (lookup k l) (beq_refl k);
  add_other =
      λ k j i l h. inl (lookup-insert k j i l ∙ if_false (some i) (lookup j l) (beq_ne k j h));
  remove_found = λ k j l. lookup-delete k j l;
  purge_found = λ j l. refl;
  new_found = λ size l j e. new_list-empty (pos_part size) l j e;
}

abbrev empty : Cache {V = ℕ} list_lru
empty = record { lru = []; hits = 0; misses = 0; pending = [] }

-- Set at the time 10, for 5.
abbrev filled : Cache {V = ℕ} list_lru
filled = set list_lru 10 (text "a") 7 (pos 5) empty

get-set_iff_example :
    ((get list_lru 16 (text "a") (set list_lru 10 (text "a") 7 (pos 5) empty)).1 ≡ some 7)
    ↔ ((ltbℤ (pos 0) (pos 5) ≡ false) ⊎ (16 ≤ 10 + pos_part (pos 5)))
get-set_iff_example = Reads.get-set_iff list_lru list_lru-IsLru 10 16 (text "a") 7 (pos 5) empty

filled-pending : filled.pending ≡ []
unfolding set
filled-pending = refl

-- What the lookup of the expired item leaves.
abbrev stale : Cache {V = ℕ} list_lru
stale = (get list_lru 20 (text "a") filled).0

stale-pending : stale.pending ≡ text "a" ∷ []
unfolding get set lookup insert text_eq
stale-pending = refl

run_cleanup-set_example :
    (get list_lru 21
      (text "a")
      (run_cleanup list_lru (set list_lru 20 (text "a") 8 (pos 0) stale))).1
    ≡ none
run_cleanup-set_example =
    Cleanup.run_cleanup-set list_lru list_lru-IsLru 20 21 (text "a") 8 (pos 0) [] stale
      stale-pending
