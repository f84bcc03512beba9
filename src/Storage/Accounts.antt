-- ===== src/Storage/Accounts.antt =====
-- `StateReader` of pkg/storage/state.go. An address is its checksummed text, `address.Hex()`.
pub mod Agree
use mathlib.Core.Option.{get_or}
use evm_rpc.Prelude.{
  ℕ, Bool, true, false, ◌||◌, Option, none, some, Text, text, text_eq, List, [], ◌++◌, replicate,
  if◌then◌else◌,
}
use evm_rpc.Api.Error.{GoError, not_found, wrap, Result, ok, err, panic, ◌>>=◌, map_err}
use evm_rpc.Storage.Pika.{Db, pika_get}
use evm_rpc.Storage.Blocks.{hash_hex}

-- A missing balance is nil.
pub record AccountState : Type 0 where
  pub nonce : ℕ
  pub balance : Option ℕ
  pub code_hash : Text

-- `latest` and `pending` are one part of the store.
unfoldable pub block_part : Text → Text
block_part block_number =
    if text_eq block_number (text "latest") || text_eq block_number (text "pending")
    then text "latest"
    else block_number

unfoldable pub account_key : Text → Text → Text
account_key address block_number =
    text "st:" ++ (block_part block_number ++ (text ":acc:" ++ address))

unfoldable pub storage_key : Text → List ℕ → Text → Text
storage_key address key block_number =
    text "st:"
    ++ (block_part block_number ++ (text ":stor:" ++ (address ++ (text ":" ++ hash_hex key))))

-- `if err == ErrNotFound { return absent, nil }; if err != nil { return err }`.
abbrev pub if_found : {A : Type 0} → A → (List ℕ → Result A) → Result (List ℕ) → Result A
if_found absent f (ok bytes) = f bytes
if_found absent f (err not_found) = ok absent
if_found absent f (err e) = err e
if_found absent f panic = panic

module _ (decode_account : List ℕ → Result AccountState) where
  abbrev pub decoded : List ℕ → Result AccountState
  decoded bytes = map_err (wrap (text "failed to decode account state")) (decode_account bytes)

  unfoldable pub get_balance : Db → Text → Text → Result ℕ
  get_balance db address block_number =
      if_found 0 (λ bytes. decoded bytes >>= λ (s : AccountState). ok (get_or s.balance 0))
        (pika_get db (account_key address block_number))

  unfoldable pub get_nonce : Db → Text → Text → Result ℕ
  get_nonce db address block_number =
      if_found 0 (λ bytes. decoded bytes >>= λ (s : AccountState). ok s.nonce)
        (pika_get db (account_key address block_number))

  -- The code of a known hash that is not the zero hash.
  abbrev pub code_of : Db → AccountState → Result (List ℕ)
  code_of db s =
      if text_eq s.code_hash [] || text_eq s.code_hash (hash_hex (replicate 32 0))
      then ok []
      else if_found [] ok (pika_get db (text "st:code:" ++ s.code_hash))

  unfoldable pub get_code : Db → Text → Text → Result (List ℕ)
  get_code db address block_number =
      if_found [] (λ bytes. decoded bytes >>= code_of db)
        (pika_get db (account_key address block_number))

  abbrev pub no_account : AccountState
  no_account = record { nonce = 0; balance = some 0; code_hash = [] }

  unfoldable pub get_account_state : Db → Text → Text → Result AccountState
  get_account_state db address block_number =
      if_found no_account decoded (pika_get db (account_key address block_number))

-- An empty slot is 32 zero bytes.
unfoldable pub get_storage_at : Db → Text → List ℕ → Text → Result (List ℕ)
get_storage_at db address key block_number =
    if_found (replicate 32 0) ok (pika_get db (storage_key address key block_number))
