-- ===== src/Tests/Numbers.antt =====
-- Block numbers: the theorems at inputs, and runs of the parser.
use evm_rpc.Prelude.{◌≡◌, refl, text, ◌++◌, arith}
use evm_rpc.Prelude.Int.{pos, to_int64}
use evm_rpc.Strconv.Digits.{digit_value}
use evm_rpc.Strconv.Print.{format_uint}
use evm_rpc.Api.Error.{ok, err, failure}
use evm_rpc.Api.BlockNumber.{parse_block_number}
use evm_rpc.Api.BlockNumber.Laws

parse_block_number-hex_example :
    parse_block_number (text "0x" ++ format_uint 18446744073709551615 16)
    ≡ ok (to_int64 18446744073709551615)
parse_block_number-hex_example = Laws.parse_block_number-hex 18446744073709551615 (omega arith)

parse_padded : parse_block_number (text " 0X1B4 ") ≡ ok (pos 436)
unfolding parse_block_number digit_value
parse_padded = refl

-- The largest uint64 reads as the tag `latest`.
parse_largest : parse_block_number (text "0xffffffffffffffff") ≡ parse_block_number (text "latest")
unfolding parse_block_number digit_value
parse_largest = refl

parse_decimal : parse_block_number (text "436") ≡ err (failure (text "invalid block number: 436"))
unfolding parse_block_number digit_value
parse_decimal = refl
