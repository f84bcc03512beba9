-- ===== src/Storage/Pika.antt =====
-- `PikaClient.Get` of pkg/storage/pika.go, and the decoders of go-ethereum and encoding/json. What
-- the store answers while a request runs is a function of the key.
use evm_rpc.Prelude.{ℕ, Text, List}
use evm_rpc.Strconv.Parse
use evm_rpc.Strconv.Parse.{Parsed, parse_uint}
use evm_rpc.Api.Error.{failure, not_found, num_error, wrap, Result, ok, err, ◌>>=◌, map_err}

-- What `redis.Client.Get` returns: the bytes, `redis.Nil`, or another error.
pub data RedisReply : Type 0 where
  value : List ℕ → RedisReply
  nil : RedisReply
  failed : Text → RedisReply

abbrev pub Db : Type 0
Db = Text → RedisReply

abbrev pub found : RedisReply → Result (List ℕ)
found (value bytes) = ok bytes
found nil = err not_found
found (failed why) = err (failure why)

unfoldable pub pika_get : Db → Text → Result (List ℕ)
pika_get db key = found (db key)

-- `client.Get`, and the decoder of its bytes with its error.
abbrev pub get_decoded : {A : Type 0} → Db → Text → Text → (List ℕ → Result A) → Result A
get_decoded db key what decode = pika_get db key >>= λ bytes. map_err (wrap what) (decode bytes)

abbrev pub parsed_number : Text → Parsed ℕ → Result ℕ
parsed_number s (Parse.ok n) = ok n
parsed_number s (Parse.err e) = err (num_error s e)

-- `strconv.ParseUint(string(data), 10, 64)`.
unfoldable pub parse_decimal : List ℕ → Result ℕ
unfolding parse_uint
parse_decimal bytes = parsed_number bytes (parse_uint 10 bytes)

-- Types of go-ethereum, and `rlp.DecodeBytes` into them.
pub record Codec : Type 1 where
  pub Header : Type 0
  pub Transaction : Type 0
  pub Receipt : Type 0
  pub decode_header : List ℕ → Result Header
  pub decode_body : List ℕ → Result (List Transaction)
  pub decode_receipts : List ℕ → Result (List Receipt)
  pub decode_transaction : List ℕ → Result Transaction
