-- ===== src/Eth/State/Laws.antt =====
-- Which block a state query reads, and the shape of what a storage query returns.
use evm_rpc.Prelude.{
  ℕ, zero, suc, ◌-◌, ◌≤◌, ◌<◌, ◌≡◌, ◌⊎◌, inl, inr, refl, ap, ◌∙◌, sym, Bool, false, Text, text,
  List, ◌++◌, replicate, length, length-append, length-replicate, leb, leb→le, arith, if◌then◌else◌,
  Bool-cases, if_true, if_false,
}
use evm_rpc.Prelude.Int.{pos, eqℤ, two63, to_int64, to_uint64}
use evm_rpc.Strconv.Print.{format_uint}
use evm_rpc.Strconv.Digits.{digit_char}
use evm_rpc.Api.Error.{Result, ok, panic, ◌>>=◌, map_err, rpc_about, err_code_invalid_params}
use evm_rpc.Api.BlockNumber.{
  block_to_uint64, latest_block_number, pending_block_number, earliest_block_number,
}
use evm_rpc.Api.BlockNumber.Laws.{parse_block_number-hex}
use evm_rpc.Eth.State.{resolve_state_block, state_block, pad_32}

pub to_int64-small : (n : ℕ) → n < two63 → to_int64 n ≡ pos n
unfolding to_int64
to_int64-small n h = ground arith

format_uint-zero : format_uint 0 10 ≡ text "0"
unfolding format_uint digit_char
format_uint-zero = refl

pub block_to_uint64-small : (n : ℕ) → n < two63 → block_to_uint64 (pos n) ≡ ok n
unfolding block_to_uint64 to_uint64
block_to_uint64-small n h = ground arith

pub resolve_state_block-pos :
    (n : ℕ) → n < two63 → resolve_state_block (pos n) ≡ ok (format_uint n 10)
unfolding resolve_state_block
resolve_state_block-pos zero h = ap ok (sym format_uint-zero)
resolve_state_block-pos (suc n) h =
    other (eqℤ (pos (suc n)) latest_block_number) (eqℤ (pos (suc n)) pending_block_number)
      (eqℤ (pos (suc n)) earliest_block_number)
      (block_to_uint64 (pos (suc n)) >>= λ num. ok (format_uint num 10)) (ground arith)
      (ground arith) (ground arith)
    ∙ ap (λ (r : Result ℕ). r >>= λ num. ok (format_uint num 10)) (block_to_uint64-small (suc n) h)
  where
    other :
        (a b c : Bool) (r : Result Text)
        → a ≡ false
        → b ≡ false
        → c ≡ false
        → (if a
            then ok (text "latest")
            else if b
            then ok (text "pending")
            else if c
            then ok (text "0")
            else r)
          ≡ r
    other a b c r p q s = rw (p, q, s)

-- A block number below 2^63, given in hexadecimal, is read at its decimal form.
pub state_block-hex :
    (n : ℕ) → n < two63 → state_block (text "0x" ++ format_uint n 16) ≡ ok (format_uint n 10)
unfolding state_block
state_block-hex n h =
    ap
      (λ r.
        map_err (rpc_about err_code_invalid_params (text "invalid block number")) r
        >>= resolve_state_block)
      (parse_block_number-hex n (omega arith) ∙ ap ok (to_int64-small n h))
    ∙ resolve_state_block-pos n h

-- Of a slot's value, 32 bytes are returned, zeros in front; a longer value panics.
pub pad_32_lem :
    (value : List ℕ)
    → ((length value ≤ 32)
        × ((r : List ℕ) × (pad_32 value ≡ ok r)
            × (length r ≡ 32)
            × (r ≡ replicate (32 - length value) 0 ++ value)))
      ⊎ ((32 < length value) × (pad_32 value ≡ panic))
unfolding pad_32
pad_32_lem value = elim (Bool-cases (leb (length value) 32)) [
  | inl e ↦ inl (
    ground arith,
    (
      _,
      if_true _ _ e,
      omega (
        arith,
        leb→le (length value) 32 e,
        length-append (replicate (32 - length value) 0) value,
        length-replicate {A = ℕ} (32 - length value) 0,
      ),
      refl,
    ),
  )
  | inr e ↦ inr (ground arith, if_false _ _ e)
]
