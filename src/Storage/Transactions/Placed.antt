-- ===== src/Storage/Transactions/Placed.antt =====
-- A transaction's place in its block: what is read by index is what the block reader has there.
use evm_rpc.Prelude.{
  ℕ, zero, suc, ◌≡◌, inl, inr, ap, ◌∙◌, sym, Option, none, some, List, [], ◌∷◌, length, get_elem?,
  leb, arith, Bool-cases, if_true, if_false,
}
use evm_rpc.Api.Error.{not_found, Result, ok, err, ◌>>=◌, bind_cong}
use evm_rpc.Storage.Pika.{Db, Codec}
use evm_rpc.Storage.Blocks.{get_block_body, get_receipts}
use evm_rpc.Storage.Transactions.{
  TxLookup, guarded_index, index_or_panic, read_transaction_lookup, read_receipt,
  read_transaction_by_block_number_and_index,
}

-- An entry, or `ErrNotFound` where there is none.
abbrev pub entry_or_not_found : {A : Type 0} → Option A → Result A
entry_or_not_found none = err not_found
entry_or_not_found (some a) = ok a

guarded_index_lem :
    {A : Type 0} (xs : List A) (i : ℕ) → guarded_index xs i ≡ entry_or_not_found (get_elem? xs i)
unfolding guarded_index
guarded_index_lem [] i = if_true {b = leb 0 i} (err not_found) _ (ground arith)
guarded_index_lem (x ∷ xs) zero =
    if_false {b = leb (suc (length xs)) 0} (err not_found) (ok x) (ground arith)
guarded_index_lem (x ∷ xs) (suc i) = elim (Bool-cases (leb (length xs) i)) [
  | inl e ↦
      if_true {b = leb (suc (length xs)) (suc i)} (err not_found) (index_or_panic (get_elem? xs i))
        (ground arith)
      ∙ sym (if_true (err not_found) (index_or_panic (get_elem? xs i)) e)
      ∙ guarded_index_lem xs i
  | inr e ↦
      if_false {b = leb (suc (length xs)) (suc i)} (err not_found) (index_or_panic (get_elem? xs i))
        (ground arith)
      ∙ sym (if_false (err not_found) (index_or_panic (get_elem? xs i)) e)
      ∙ guarded_index_lem xs i
]

module _ (codec : Codec) (decode_lookup : List ℕ → Result TxLookup) where
  -- A transaction by number and index is the entry of the block's body, and a receipt the entry of
  -- the block's receipts at the place that the lookup names; without an entry it is not found, and
  -- nothing panics on an index.
  pub placed-blocks :
      (db : Db) (number index : ℕ) (hash : List ℕ)
      → (read_transaction_by_block_number_and_index codec decode_lookup db number index
          ≡ (get_block_body codec db number >>= λ body. entry_or_not_found (get_elem? body index)))
        × (read_receipt codec decode_lookup db hash ≡ (
            read_transaction_lookup codec decode_lookup db hash >>= λ (l : TxLookup).
            get_receipts codec db l.block_number >>= λ receipts.
            entry_or_not_found (get_elem? receipts l.index) >>= λ r. ok (r, l)))
  unfolding read_transaction_by_block_number_and_index read_receipt get_block_body get_receipts
  placed-blocks db number index hash = (
    bind_cong (get_block_body codec db number) (λ body. guarded_index body index)
        (λ body. entry_or_not_found (get_elem? body index)) (λ body. guarded_index_lem body index),
    bind_cong (read_transaction_lookup codec decode_lookup db hash) _ _ (λ (l : TxLookup).
        bind_cong (get_receipts codec db l.block_number) _ _ (λ receipts.
          ap (λ (r : Result (codec.Receipt)). r >>= λ r. ok (r, l))
            (guarded_index_lem receipts l.index))),
  )
