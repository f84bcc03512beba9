-- ===== src/Strconv/RoundTrip.antt =====
-- Reading back what was printed.
use evm_rpc.Prelude.{
  ℕ, zero, suc, ◌+◌, ◌*◌, ◌/◌, ◌%◌, ◌<◌, ◌≤◌, ◌≡◌, inl, inr, refl, ap, ◌∙◌, Text, [], ◌∷◌, ◌++◌,
  arith, ltb, Bool-cases, Option-cases,
}
use native.Mathlib.Nat.{div-add-mod', div-lt_self, mod-lt}
use evm_rpc.Prelude.Int.{two64}
use evm_rpc.Strconv.Digits.{digit_char, digit_value, digit_value-digit_char}
use evm_rpc.Strconv.Print.{format_fuel, format_uint}
use evm_rpc.Strconv.Parse.{ok, parse_from, parse_uint}

parse_from-append :
    (base acc : ℕ) (s t : Text) (m : ℕ)
    → parse_from base acc s ≡ ok m
    → parse_from base acc (s ++ t) ≡ parse_from base m t
unfolding parse_from
parse_from-append base acc [] t m h = ground arith
parse_from-append base acc (c ∷ s) t m h = elim (Option-cases (digit_value c)) [
  | inl e ↦ ground arith
  | inr (d, e) ↦ ground (arith, parse_from-append base (acc * base + d) s t m)
]

-- One digit more, with no overflow.
parse_from-digit :
    (base acc d : ℕ)
    → base ≤ 36
    → d < base
    → acc * base + d < two64
    → parse_from base acc (digit_char d ∷ []) ≡ ok (acc * base + d)
unfolding parse_from
parse_from-digit base acc d b h n = ground (arith, digit_value-digit_char d)

parse_from-format_fuel :
    (f base n : ℕ)
    → 2 ≤ base
    → base ≤ 36
    → n < f
    → n < two64
    → parse_from base 0 (format_fuel f base n) ≡ ok n
unfolding format_fuel
parse_from-format_fuel zero base n lo hi h k = elim h [ ]
parse_from-format_fuel (suc f) base n lo hi h k = elim (Bool-cases (ltb n base)) [
  | inl one ↦ rw one (ground (arith, parse_from-digit base 0 n))
  | inr more ↦
      let small : n / base < n = div-lt_self (ground arith) lo in
      rw more (
        parse_from-append base 0 (format_fuel f base (n / base)) _ (n / base)
          (parse_from-format_fuel f base (n / base) lo hi (omega arith) (omega arith))
        ∙ parse_from-digit base (n / base) (n % base) hi (mod-lt n (omega arith))
            (rw div-add-mod' k)
        ∙ ap ok (div-add-mod' n base))
]

-- A printed number is not empty.
pub format_fuel-cons : (f base n : ℕ) → (c : ℕ) × (s : Text) × (format_fuel (suc f) base n ≡ c ∷ s)
unfolding format_fuel
format_fuel-cons f base n = elim (Bool-cases (ltb n base)) [
  | inl one ↦ (digit_char n, [], rw one)
  | inr more ↦ rw more (append-cons (format_fuel f base (n / base)) (digit_char (n % base)))
]
  where
    append-cons : (s : Text) (d : ℕ) → (c : ℕ) × (t : Text) × (s ++ d ∷ [] ≡ c ∷ t)
    append-cons [] d = (d, [], refl)
    append-cons (c ∷ s) d = (c, s ++ d ∷ [], refl)

-- In every base from 2 to 36, a uint64 that is printed is read back as itself.
pub parse_uint-format_uint :
    (base n : ℕ) → 2 ≤ base → base ≤ 36 → n < two64 → parse_uint base (format_uint n base) ≡ ok n
unfolding format_uint parse_uint
parse_uint-format_uint base n lo hi k =
    let (c, s, e) = format_fuel-cons n base n in
    rw e (rw (← e) (parse_from-format_fuel (suc n) base n lo hi (omega arith) k))

-- Printing is injective: keys that end in different numbers differ.
pub format_uint_injective :
    (base n m : ℕ)
    → 2 ≤ base
    → base ≤ 36
    → n < two64
    → m < two64
    → format_uint n base ≡ format_uint m base
    → n ≡ m
format_uint_injective base n m lo hi p q e =
    cc (parse_uint-format_uint base n lo hi p, parse_uint-format_uint base m lo hi q)
