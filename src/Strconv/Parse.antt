-- ===== src/Strconv/Parse.antt =====
-- `strconv.ParseUint(s, base, 64)` with an explicit base.
use evm_rpc.Prelude.{ℕ, ◌+◌, ◌*◌, none, some, Text, [], ◌∷◌, leb, if◌then◌else◌}
use evm_rpc.Prelude.Int.{two64}
use evm_rpc.Strconv.Digits.{digit_value}

pub data ParseError : Type 0 where
  syntax range : ParseError

pub data Parsed {ℓ} (A : Type ℓ) : Type ℓ where
  ok : A → Parsed A
  err : ParseError → Parsed A

-- The loop over the bytes, with the value so far; the first bad byte or overflow ends it.
unfoldable pub parse_from : ℕ → ℕ → Text → Parsed ℕ
parse_from base acc [] = ok acc
parse_from base acc (c ∷ s) = elim (digit_value c) [
  | none ↦ err syntax
  | some d ↦
      let next = parse_from base (acc * base + d) s in
      if leb base d then err syntax else if leb two64 (acc * base + d) then err range else next
]

unfoldable pub parse_uint : ℕ → Text → Parsed ℕ
unfolding parse_from
parse_uint base [] = err syntax
parse_uint base (c ∷ s) = parse_from base 0 (c ∷ s)
