-- ===== src/Cache/Lru.antt =====
-- github.com/hashicorp/golang-lru/v2 is a parameter: its operations, and what its documentation says
-- of them.
use evm_rpc.Prelude.{ℕ, ◌≡◌, ◌≢◌, ◌⊎◌, Option, none, some, Text, text_eq, if◌then◌else◌}
use evm_rpc.Prelude.Int.{ℤ}

pub record LruLib (Item : Type 0) : Type 1 where
  pub Lru : Type 0
  pub new : ℤ → Option Lru
  pub get : Text → Lru → Lru × Option Item
  pub add : Text → Item → Lru → Lru
  pub remove : Text → Lru → Lru
  pub purge : Lru → Lru
  pub len : Lru → ℕ

-- `contents` is what a lookup would find. Only an insertion may evict, and never what it inserts.
pub record IsLru {Item : Type 0} (lib : LruLib Item) : Type 0 where
  pub contents : lib.Lru → Text → Option Item
  pub get_found : (k : Text) (l : lib.Lru) → (lib.get k l).1 ≡ contents l k
  pub get_keeps : (k j : Text) (l : lib.Lru) → contents (lib.get k l).0 j ≡ contents l j
  pub add_self : (k : Text) (i : Item) (l : lib.Lru) → contents (lib.add k i l) k ≡ some i
  pub add_other :
      (k j : Text) (i : Item) (l : lib.Lru)
      → k ≢ j
      → (contents (lib.add k i l) j ≡ contents l j) ⊎ (contents (lib.add k i l) j ≡ none)
  pub remove_found :
      (k j : Text) (l : lib.Lru)
      → contents (lib.remove k l) j ≡ (if text_eq k j then none else contents l j)
  pub purge_found : (j : Text) (l : lib.Lru) → contents (lib.purge l) j ≡ none
  pub new_found : (size : ℤ) (l : lib.Lru) (j : Text) → lib.new size ≡ some l → contents l j ≡ none
