-- ===== src/Strconv/Print.antt =====
-- Printing an unsigned number in a base.
use evm_rpc.Prelude.{ℕ, zero, suc, ◌/◌, ◌%◌, Text, [], ◌∷◌, ◌++◌, ltb, if◌then◌else◌}
use evm_rpc.Prelude.{List}
use evm_rpc.Prelude.Int.{ℤ, pos, negsuc}
use evm_rpc.Strconv.Digits.{digit_char}

-- The digits, the most significant first. The fuel bounds the number of digits.
unfoldable pub format_fuel : ℕ → ℕ → ℕ → Text
format_fuel zero base n = []
format_fuel (suc f) base n =
    let more = format_fuel f base (n / base) ++ digit_char (n % base) ∷ [] in
    if ltb n base then digit_char n ∷ [] else more

-- A number has at most as many digits as its value and one.
unfoldable pub format_uint : ℕ → ℕ → Text
unfolding format_fuel
format_uint n base = format_fuel (suc n) base n

-- `%d` of a signed number.
unfoldable pub format_int : ℤ → Text
unfolding format_uint
format_int (pos n) = format_uint n 10
format_int (negsuc n) = b'-' ∷ format_uint (suc n) 10

-- `%x` of a byte slice.
unfoldable pub format_bytes : List ℕ → Text
unfolding digit_char
format_bytes [] = []
format_bytes (b ∷ bs) = digit_char (b / 16) ∷ digit_char (b % 16) ∷ format_bytes bs
