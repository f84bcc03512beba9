-- ===== src/Storage/Accounts/Agree.antt =====
-- The four readers of an account tell the same story.
use mathlib.Core.Option.{get_or}
use evm_rpc.Prelude.{ℕ, ◌≡◌, refl, sym, Text, text_eq, List, []}
use evm_rpc.Api.Error.{rpc, not_found, num_error, wrap, failure, Result, ok, err, panic, ◌>>=◌}
use evm_rpc.Storage.Pika.{Db, pika_get}
use evm_rpc.Storage.Accounts.{
  AccountState, if_found, decoded, code_of, no_account, account_key, get_balance, get_nonce,
  get_code, get_account_state,
}

module _ (decode_account : List ℕ → Result AccountState) where
  -- What the account's state says of the balance, the nonce and the code.
  if_found-if_found :
      {B : Type 0} (a : AccountState) (b : B) (f : AccountState → Result B) (r : Result (List ℕ))
      → f a ≡ ok b
      → if_found b (λ bytes. decoded decode_account bytes >>= f) r
        ≡ (if_found a (decoded decode_account) r >>= f)
  if_found-if_found a b f (ok bytes) h = refl
  if_found-if_found a b f (err not_found) h = sym h
  if_found-if_found a b f (err (rpc e)) h = refl
  if_found-if_found a b f (err (num_error t e)) h = refl
  if_found-if_found a b f (err (wrap t e)) h = refl
  if_found-if_found a b f (err (failure t)) h = refl
  if_found-if_found a b f panic h = refl

  -- The balance, the nonce and the code of an account are those of its state, where a missing
  -- account has none of them, and the errors are the same.
  pub readers-get_account_state :
      (db : Db) (address block_number : Text)
      → (get_balance decode_account db address block_number ≡ (
          get_account_state decode_account db address block_number >>= λ (s : AccountState).
          ok (get_or s.balance 0)))
        × (get_nonce decode_account db address block_number ≡ (
            get_account_state decode_account db address block_number >>= λ (s : AccountState).
            ok s.nonce))
        × (get_code decode_account db address block_number ≡ (
            get_account_state decode_account db address block_number >>= code_of decode_account db))
  unfolding get_balance get_nonce get_code get_account_state text_eq
  readers-get_account_state db address block_number =
      let reply = pika_get db (account_key address block_number) in
      (
        if_found-if_found (no_account decode_account) 0
            (λ (s : AccountState). ok (get_or s.balance 0)) reply refl,
        if_found-if_found (no_account decode_account) 0 (λ (s : AccountState). ok s.nonce) reply
            refl,
        if_found-if_found (no_account decode_account) [] (code_of decode_account db) reply refl,
      )
