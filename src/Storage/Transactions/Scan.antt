-- ===== src/Storage/Transactions/Scan.antt =====
-- `Sscanf("%d")` on the decimal form of a number.
use mathlib.Core.Path.{subst}
use evm_rpc.Prelude.{
  ℕ, zero, suc, ◌/◌, ◌%◌, ◌≡◌, ◌<◌, inl, inr, refl, ap, true, ◌&&◌, Text, [], ◌∷◌, ◌++◌, Bool-cases,
  ltb, leb, arith,
}
use evm_rpc.Prelude.Int.{two64}
use evm_rpc.Strconv.Digits.{digit_char}
use evm_rpc.Strconv.Print.{format_fuel, format_uint}
use evm_rpc.Strconv.Parse
use evm_rpc.Strconv.Parse.{parse_uint}
use evm_rpc.Strconv.RoundTrip.{parse_uint-format_uint, format_fuel-cons}
use evm_rpc.Api.Error.{ok}
use evm_rpc.Storage.Pika.{parsed_number}
use evm_rpc.Storage.Transactions.{skip_spaces, leading_digits, scan_decimal}

abbrev pub AllDigits : Text → Type 0
AllDigits [] = Unit
AllDigits (c ∷ s) = ((leb 48 c && leb c 57) ≡ true) × AllDigits s

AllDigits-append : (s t : Text) → AllDigits s → AllDigits t → AllDigits (s ++ t)
AllDigits-append [] t p q = q
AllDigits-append (c ∷ s) t p q = (p.0, AllDigits-append s t p.1 q)

digit_char-is_digit : (d : ℕ) → d < 10 → (leb 48 (digit_char d) && leb (digit_char d) 57) ≡ true
unfolding digit_char
digit_char-is_digit d h = ground arith

pub format_fuel-AllDigits : (f n : ℕ) → AllDigits (format_fuel f 10 n)
unfolding format_fuel
format_fuel-AllDigits zero n = tt
format_fuel-AllDigits (suc f) n = elim (Bool-cases (ltb n 10)) [
  | inl one ↦ rw one (digit_char-is_digit n (ground arith), tt)
  | inr more ↦ rw more (
      AllDigits-append (format_fuel f 10 (n / 10)) _ (format_fuel-AllDigits f (n / 10))
        (digit_char-is_digit (n % 10) (omega arith), tt))
]

leading_digits-all : (s : Text) → AllDigits s → leading_digits s ≡ s
unfolding leading_digits
leading_digits-all [] h = refl
leading_digits-all (c ∷ s) h = rw h.0 (ap (λ t. c ∷ t) (leading_digits-all s h.1))

-- A digit is no space.
skip_spaces-digit : (c : ℕ) (s : Text) → (leb 48 c && leb c 57) ≡ true → skip_spaces (c ∷ s) ≡ c ∷ s
unfolding skip_spaces
skip_spaces-digit c s h = ground arith

scan_decimal-parsed :
    (t : Text) (c : ℕ) (s : Text) (n : ℕ)
    → t ≡ c ∷ s
    → AllDigits t
    → parse_uint 10 t ≡ Parse.ok n
    → scan_decimal t ≡ ok n
unfolding scan_decimal
scan_decimal-parsed t c s n e digits parsed =
    let h : AllDigits (c ∷ s) = subst AllDigits e digits in
    rw (e, skip_spaces-digit c s h.0, leading_digits-all (c ∷ s) h)
      (ap (parsed_number (c ∷ s)) (subst (λ r. parse_uint 10 r ≡ Parse.ok n) e parsed))

format_uint-cons : (n : ℕ) → (c : ℕ) × (s : Text) × (format_uint n 10 ≡ c ∷ s)
unfolding format_uint
format_uint-cons n = format_fuel-cons n 10 n

format_uint-AllDigits : (n : ℕ) → AllDigits (format_uint n 10)
unfolding format_uint
format_uint-AllDigits n = format_fuel-AllDigits (suc n) n

-- A uint64 in decimal is scanned as itself.
pub scan_decimal-format_uint : (n : ℕ) → n < two64 → scan_decimal (format_uint n 10) ≡ ok n
scan_decimal-format_uint n h =
    let (c, s, e) = format_uint-cons n in
    scan_decimal-parsed (format_uint n 10) c s n e (format_uint-AllDigits n)
      (parse_uint-format_uint 10 n (omega arith) (omega arith) h)
