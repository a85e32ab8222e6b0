-- ===== src/Checkpoint/Epochs.antt =====
-- Which checkpoint governs a height, in l1-chain/core/src/bitcoin_entropy.rs.
use bina_blockchain_l.Prelude.{
  ℕ, ◌+◌, ◌≤◌, ◌<◌, ◌≡◌, ◌≢◌, ◌↔◌, true, false, arith, bytes_key, nat_key,
}
use bina_blockchain_l.Checkpoint.{
  is_checkpoint_height, governing_checkpoint_height, btc_checkpoint_interval, BtcCheckpointProof,
  plausible,
}

-- Every height from 1 on is governed by the last checkpoint at or below it: that is a checkpoint
-- height, less than an interval back, and no height after it up to this one is a checkpoint.
pub governing_checkpoint_height_lem :
    (height : ℕ)
    → height ≢ 0
    → let g = governing_checkpoint_height height in
      (is_checkpoint_height g ≡ true)
      × (g ≤ height)
      × (height < g + btc_checkpoint_interval)
      × ((k : ℕ) → g < k → k ≤ height → is_checkpoint_height k ≡ false)
unfolding governing_checkpoint_height is_checkpoint_height
governing_checkpoint_height_lem height h =
    (ground arith, ground arith, ground arith, λ k above below. ground arith)

-- A plausible proof is not behind the last checkpoint and at most the tolerance from the observed tip,
-- on either side, and every such proof is plausible.
pub plausible_iff :
    (p : BtcCheckpointProof) (previous observed tolerance : ℕ)
    → (plausible p previous observed tolerance ≡ true) ↔ (
        (previous ≤ p.tip_height)
        × (p.tip_height ≤ observed + tolerance)
        × (observed ≤ p.tip_height + tolerance))
unfolding plausible
plausible_iff p previous observed tolerance = (λ h. ground arith, λ h. ground arith)
