-- ===== src/Api/BlockNumber.antt =====
-- `BlockNumber` of pkg/api/types.go: an int64 whose negative values are tags.
pub mod Laws
use evm_rpc.Prelude.{
  ℕ, ◌+◌, ◌-◌, Bool, ◌&&◌, ◌||◌, Text, text, text_eq, starts_with, [], ◌∷◌, ◌++◌, map, drop, leb,
  ◌==◌, if◌then◌else◌,
}
use evm_rpc.Prelude.Int.{ℤ, pos, negsuc, to_int64, to_uint64}
use evm_rpc.Strconv.Print.{format_int}
use evm_rpc.Strconv.Parse.{Parsed, parse_uint}
use evm_rpc.Api.Error.{GoError, num_error, wrap, failure, Result, ok, err}

abbrev pub latest_block_number : ℤ
latest_block_number = negsuc 0

abbrev pub earliest_block_number : ℤ
earliest_block_number = pos 0

abbrev pub pending_block_number : ℤ
pending_block_number = negsuc 1

-- `strings.ToLower` on ASCII.
unfoldable pub lower : ℕ → ℕ
lower c = if leb b'A' c && leb c b'Z' then c + 32 else c

unfoldable pub is_space : ℕ → Bool
is_space c = c == 32 || (leb 9 c && leb c 13)

-- `strings.TrimSpace` on ASCII.
unfoldable pub trim_left : Text → Text
unfolding is_space
trim_left [] = []
trim_left (c ∷ s) = let rest = trim_left s in if is_space c then rest else c ∷ s

abbrev pub cons_trimmed : ℕ → Text → Text
cons_trimmed c [] = if is_space c then [] else c ∷ []
cons_trimmed c (d ∷ s) = c ∷ d ∷ s

unfoldable pub trim_right : Text → Text
unfolding is_space
trim_right [] = []
trim_right (c ∷ s) = cons_trimmed c (trim_right s)

abbrev pub from_hex : Text → Parsed ℕ → Result ℤ
from_hex digits (Parsed.ok num) = ok (to_int64 num)
from_hex digits (Parsed.err e) = err (wrap (text "invalid hex block number") (num_error digits e))

-- The `switch` on the trimmed, lower-case input.
unfoldable pub parse_tag : Text → Result ℤ
unfolding text_eq starts_with parse_uint to_int64
parse_tag input =
    if text_eq input (text "latest")
    then ok latest_block_number
    else if text_eq input (text "earliest")
    then ok earliest_block_number
    else if text_eq input (text "pending")
    then ok pending_block_number
    else if starts_with (text "0x") input
    then from_hex (drop 2 input) (parse_uint 16 (drop 2 input))
    else err (failure (text "invalid block number: " ++ input))

unfoldable pub parse_block_number : Text → Result ℤ
unfolding lower trim_left trim_right parse_tag
parse_block_number input = parse_tag (trim_right (trim_left (map lower input)))

unfoldable pub block_to_uint64 : ℤ → Result ℕ
unfolding to_uint64 format_int
block_to_uint64 (negsuc n) =
    err (failure (text "cannot convert " ++ (format_int (negsuc n) ++ text " to uint64")))
block_to_uint64 (pos n) = ok (to_uint64 (pos n))
