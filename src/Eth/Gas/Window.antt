-- ===== src/Eth/Gas/Window.antt =====
-- The window of blocks of `FeeHistory`.
use evm_rpc.Prelude.{
  ℕ, zero, suc, ◌+◌, ◌-◌, ◌%◌, ◌≤◌, ◌<◌, ◌≡◌, ◌⊎◌, inl, inr, refl, ap, ◌∙◌, false, length,
  length-replicate, leb, leb→le, le→ltb, ◌==◌, arith, Bool-cases, if_true, if_false,
}
use evm_rpc.Prelude.Int.{pos, two63, two64, to_int64}
use evm_rpc.Api.Error.{ok}
use evm_rpc.Eth.Gas.{FeeHistoryResult, fee_result, window_of, fee_window}

-- The history of `count` blocks up to `end_block`: at least one, as many as asked for, and no more
-- than there are. There is one base fee more, for the block after.
pub record IsWindow (end_block block_count : ℕ) (r : FeeHistoryResult) : Type 0 where
  pub count : ℕ
  pub oldest : ℕ
  pub at_least_one : 1 ≤ count
  pub asked : count ≤ block_count + 1
  pub complete : (count ≡ block_count) ⊎ (oldest ≡ 0) ⊎ (block_count ≡ 0) × (count ≡ 1)
  pub last : oldest + count ≡ end_block + 1
  pub oldest_block : r.oldest_block ≡ pos oldest
  pub base_fees : length r.base_fee_per_gas ≡ count + 1
  pub ratios : length r.gas_used_ratio ≡ count

to_int64-pos : (n : ℕ) → n < two63 → to_int64 n ≡ pos n
unfolding to_int64
to_int64-pos n h = ground arith

fee_result-IsWindow :
    (end_block block_count percentiles count oldest : ℕ)
    → 1 ≤ count
    → count ≤ block_count + 1
    → (count ≡ block_count) ⊎ (oldest ≡ 0) ⊎ (block_count ≡ 0) × (count ≡ 1)
    → oldest + count ≡ end_block + 1
    → end_block < two63
    → IsWindow end_block block_count (fee_result oldest count percentiles)
fee_result-IsWindow end_block block_count percentiles count oldest one asked complete last small =
    record {
      count = count;
      oldest = oldest;
      at_least_one = one;
      asked = asked;
      complete = complete;
      last = last;
      oldest_block = to_int64-pos oldest (omega arith);
      base_fees = length-replicate {A = ℕ} (suc count) _ ∙ omega arith;
      ratios = length-replicate {A = ℕ} count 50;
    }

oldest_of :
    (end_block count : ℕ)
    → 1 ≤ count
    → count ≤ end_block + 1
    → end_block < two63
    → (end_block + (two64 - count) + 1) % two64 ≡ (end_block + 1) - count
oldest_of end_block count one fits small = omega arith

window_of-IsWindow :
    (end_block block_count percentiles count : ℕ)
    → 1 ≤ count
    → count ≤ 1024
    → count ≤ block_count + 1
    → (count ≡ block_count) ⊎ (block_count ≡ 0) × (count ≡ 1)
    → end_block < two63
    → (r : FeeHistoryResult) × (window_of end_block count percentiles ≡ ok r)
      × IsWindow end_block block_count r
unfolding window_of
window_of-IsWindow end_block block_count percentiles count one few asked how small =
    elim (Bool-cases (leb (count - 1) end_block)) [
      | inl e ↦ (
        fee_result ((end_block + 1) - count) count percentiles,
        if_false _ _ (le→ltb 1024 count few)
            ∙ if_true _ _ e
            ∙ ap (λ n. ok (fee_result n count percentiles))
                (oldest_of end_block count one (omega (arith, leb→le (count - 1) end_block e))
                  small),
        fee_result-IsWindow end_block block_count percentiles count ((end_block + 1) - count) one
            asked (elim how [ inl q ↦ inl q | inr q ↦ inr (inr q) ])
            (omega (arith, leb→le (count - 1) end_block e)) small,
      )
      | inr e ↦ (
        fee_result 0 (end_block + 1) percentiles,
        if_false _ _ (le→ltb 1024 count few)
            ∙ if_false _ _ e
            ∙ ap (λ n. ok (fee_result 0 n percentiles)) (omega arith),
        fee_result-IsWindow end_block block_count percentiles (end_block + 1) 0 (omega arith)
            (above e) (inr (inl refl)) (omega arith) small,
      )
    ]
  where
    above : leb (count - 1) end_block ≡ false → end_block + 1 ≤ block_count + 1
    above e = ground arith

-- Up to a block below 2^63, a history of at most 1024 blocks is a window of blocks that ends there.
pub fee_window-IsWindow :
    (end_block block_count percentiles : ℕ)
    → end_block < two63
    → block_count ≤ 1024
    → (r : FeeHistoryResult) × (fee_window end_block block_count percentiles ≡ ok r)
      × IsWindow end_block block_count r
unfolding fee_window
fee_window-IsWindow end_block zero percentiles small few =
    window_of-IsWindow end_block 0 percentiles 1 (omega arith) (omega arith) (omega arith)
      (inr (refl, refl)) small
fee_window-IsWindow end_block (suc n) percentiles small few =
    let (r, e, w) =
      window_of-IsWindow end_block (suc n) percentiles (suc n) (omega arith) few (omega arith)
        (inl refl) small in
    (
      r,
      ap (λ c. window_of end_block c percentiles)
            (if_false {b = suc n == 0} 1 (suc n) (ground arith))
          ∙ e,
      w,
    )
