-- ===== src/Api/BlockNumber/Laws.antt =====
-- What `ParseBlockNumber` accepts: numbers in hexadecimal, in any case and with spaces around.
use evm_rpc.Prelude.{
  ℕ, zero, suc, ◌/◌, ◌%◌, ◌<◌, ◌≤◌, ◌≡◌, ◌≢◌, ◌⊎◌, inl, inr, refl, ◌∙◌, false, Text, text, [], ◌∷◌,
  ◌++◌, map, arith, ltb, Bool-cases,
}
use evm_rpc.Prelude.Int.{two63, two64, to_int64}
use evm_rpc.Strconv.Digits.{digit_char}
use evm_rpc.Strconv.Print.{format_fuel, format_uint}
use evm_rpc.Strconv.Parse.{Parsed, parse_uint}
use evm_rpc.Strconv.RoundTrip.{parse_uint-format_uint}
use evm_rpc.Api.Error.{ok, ◌>>=◌}
use evm_rpc.Api.BlockNumber.{
  lower, is_space, trim_left, trim_right, parse_tag, parse_block_number, block_to_uint64,
}

-- Lower-case letters and digits, which `ToLower` and `TrimSpace` leave alone.
abbrev IsPlain : Text → Type 0
IsPlain [] = Unit
IsPlain (c ∷ s) = (lower c ≡ c) × (is_space c ≡ false) × IsPlain s

IsPlain-append : (s t : Text) → IsPlain s → IsPlain t → IsPlain (s ++ t)
IsPlain-append [] t h k = k
IsPlain-append (c ∷ s) t h k = (h.0, h.1, IsPlain-append s t h.2 k)

digit_char-plain :
    (d : ℕ) → d < 16 → (lower (digit_char d) ≡ digit_char d) × (is_space (digit_char d) ≡ false)
unfolding digit_char lower is_space
digit_char-plain d h = ground arith

format_fuel-IsPlain : (f n : ℕ) → IsPlain (format_fuel f 16 n)
unfolding format_fuel
format_fuel-IsPlain zero n = tt
format_fuel-IsPlain (suc f) n = elim (Bool-cases (ltb n 16)) [
  | inl one ↦ let (a, b) = digit_char-plain n (ground arith) in rw one (a, b, tt)
  | inr more ↦
      let (a, b) = digit_char-plain (n % 16) (omega arith) in
      rw more
        (IsPlain-append (format_fuel f 16 (n / 16)) _ (format_fuel-IsPlain f (n / 16)) (a, b, tt))
]

map-lower_plain : (s : Text) → IsPlain s → map lower s ≡ s
map-lower_plain [] h = refl
map-lower_plain (c ∷ s) h = cc (h.0, map-lower_plain s h.2)

trim_left_plain : (s : Text) → IsPlain s → trim_left s ≡ s
unfolding trim_left
trim_left_plain [] h = refl
trim_left_plain (c ∷ s) h = ground arith

trim_right_plain : (s : Text) → IsPlain s → trim_right s ≡ s
unfolding trim_right
trim_right_plain [] h = refl
trim_right_plain (c ∷ []) h = ground arith
trim_right_plain (c ∷ d ∷ s) h = rw (trim_right_plain (d ∷ s) h.2)

parse_tag-hex :
    (digits : Text) (n : ℕ)
    → parse_uint 16 digits ≡ Parsed.ok n
    → parse_tag (text "0x" ++ digits) ≡ ok (to_int64 n)
unfolding parse_tag
parse_tag-hex digits n h = rw h

parse_block_number_plain : (s : Text) → IsPlain s → parse_block_number s ≡ parse_tag s
unfolding parse_block_number
parse_block_number_plain s h =
    rw (map-lower_plain s h) (rw (trim_left_plain s h) (rw (trim_right_plain s h)))

hex-IsPlain : (n : ℕ) → IsPlain (text "0x" ++ format_uint n 16)
unfolding format_uint lower is_space
hex-IsPlain n = (refl, refl, (refl, refl, format_fuel-IsPlain (suc n) n))

-- The hexadecimal form of any uint64 is accepted, and stands for the number as an int64: from 2^63
-- on, for a negative one.
pub parse_block_number-hex :
    (n : ℕ) → n < two64 → parse_block_number (text "0x" ++ format_uint n 16) ≡ ok (to_int64 n)
parse_block_number-hex n h =
    parse_block_number_plain _ (hex-IsPlain n)
    ∙ parse_tag-hex _ n (parse_uint-format_uint 16 n (omega arith) (omega arith) h)

-- A block number converts back to a uint64 exactly below 2^63.
pub block_to_uint64-hex :
    (n : ℕ)
    → n < two64
    → ((n < two63)
        × ((parse_block_number (text "0x" ++ format_uint n 16) >>= block_to_uint64) ≡ ok n))
      ⊎ ((two63 ≤ n)
          × ((m : ℕ)
              → (parse_block_number (text "0x" ++ format_uint n 16) >>= block_to_uint64) ≢ ok m))
unfolding block_to_uint64 to_int64
block_to_uint64-hex n h = rw (parse_block_number-hex n h) (elim (Bool-cases (ltb n two63)) [
  | inl small ↦ inl (ground arith, ground arith)
  | inr large ↦ inr (ground arith, λ m. ground arith)
])
