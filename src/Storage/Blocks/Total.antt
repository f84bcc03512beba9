-- ===== src/Storage/Blocks/Total.antt =====
-- Reading a block does not panic, if the decoders do not.
use evm_rpc.Prelude.{ℕ, ◌≡◌, ◌≢◌, refl, Text, List}
use evm_rpc.Strconv.Parse
use evm_rpc.Strconv.Parse.{Parsed, parse_uint}
use evm_rpc.Api.Error.{Result, ok, panic, map_err, wrap, bind-ne-panic, map_err-ne-panic}
use evm_rpc.Storage.Pika.{
  RedisReply, value, nil, failed, Db, Codec, pika_get, parse_decimal, get_decoded, parsed_number,
}
use evm_rpc.Storage.Blocks.{
  get_block_number_by_hash, get_header, get_block_body, get_block, get_block_by_hash, get_receipts,
}

pub found-ne-panic : (r : RedisReply) (db : Db) (key : Text) → db key ≡ r → pika_get db key ≢ panic
unfolding pika_get
found-ne-panic (value bytes) db key e = rw e (λ h. cc)
found-ne-panic nil db key e = rw e (λ h. cc)
found-ne-panic (failed why) db key e = rw e (λ h. cc)

pub pika_get-ne-panic : (db : Db) (key : Text) → pika_get db key ≢ panic
pika_get-ne-panic db key = found-ne-panic (db key) db key refl

parsed_number-ne-panic : (s : Text) (r : Parsed ℕ) → parsed_number s r ≢ panic
parsed_number-ne-panic s (Parse.ok n) = λ h. cc
parsed_number-ne-panic s (Parse.err e) = λ h. cc

parse_decimal-ne-panic : (bytes : List ℕ) → parse_decimal bytes ≢ panic
unfolding parse_decimal
parse_decimal-ne-panic bytes = parsed_number-ne-panic bytes (parse_uint 10 bytes)

pub get_decoded-ne-panic :
    {A : Type 0} (db : Db) (key what : Text) (decode : List ℕ → Result A)
    → ((bytes : List ℕ) → decode bytes ≢ panic)
    → get_decoded db key what decode ≢ panic
get_decoded-ne-panic db key what decode safe =
    bind-ne-panic (pika_get db key) (λ bytes. map_err (wrap what) (decode bytes))
      (pika_get-ne-panic db key) (λ bytes. map_err-ne-panic (wrap what) (decode bytes) (safe bytes))

-- go-ethereum's decoders return an error where they cannot read.
pub record IsSafe (codec : Codec) : Type 0 where
  pub header_safe : (b : List ℕ) → codec.decode_header b ≢ panic
  pub body_safe : (b : List ℕ) → codec.decode_body b ≢ panic
  pub receipts_safe : (b : List ℕ) → codec.decode_receipts b ≢ panic

module _ (codec : Codec) (safe : IsSafe codec) where
  get_block-ne-panic : (db : Db) (n : ℕ) → get_block codec db n ≢ panic
  unfolding get_block get_header get_block_body
  get_block-ne-panic db n =
      bind-ne-panic (get_header codec db n) _
        (get_decoded-ne-panic db _ _ codec.decode_header safe.header_safe)
        (λ header.
          bind-ne-panic (get_block_body codec db n) (λ body. ok (header, body))
            (get_decoded-ne-panic db _ _ codec.decode_body safe.body_safe) (λ body h. cc))

  pub get_block_by_hash-ne-panic :
      (db : Db) (hash : List ℕ) → get_block_by_hash codec db hash ≢ panic
  unfolding get_block_by_hash get_block_number_by_hash
  get_block_by_hash-ne-panic db hash =
      bind-ne-panic (get_block_number_by_hash db hash) (get_block codec db)
        (bind-ne-panic (pika_get db _) parse_decimal (pika_get-ne-panic db _)
          parse_decimal-ne-panic)
        (get_block-ne-panic db)

  pub get_receipts-ne-panic : (db : Db) (n : ℕ) → get_receipts codec db n ≢ panic
  unfolding get_receipts
  get_receipts-ne-panic db n = get_decoded-ne-panic db _ _ codec.decode_receipts safe.receipts_safe
