-- ===== src/Node/Reorg/Epoch.antt =====
-- The difficulty rule across a rollback: `reconcile_fork` of l1-chain/node/src/main.rs keeps the
-- adjuster of l1-chain/core/src/difficulty.rs.
use bina_blockchain_l.Prelude.{
  ℤ, ℕ, ◌%◌, ◌≤◌, ◌<◌, ◌≡◌, refl, ◌⊎◌, inl, inr, not, ◌||◌, List, [], ◌∷◌, arith, ◌==◌, Bool-cases,
  All, bytes_key, nat_key,
}
use bina_blockchain_l.Difficulty.{Adjuster, record_block, replay, epoch_size}
use mathlib.Core.Path.{subst}

-- The heights of a list of blocks are all above a height.
abbrev pub AreAbove : ℕ → List (ℕ × ℕ) → Type 0
AreAbove h = All (λ b. h < b.0)

-- A block keeps the adjuster or starts an epoch at its height.
record_block-cases :
    (log_delta : ℕ → ℕ → ℤ) (a : Adjuster) (height ms : ℕ)
    → ((record_block log_delta a height ms).0 ≡ a)
      ⊎ ((record_block log_delta a height ms).0.epoch_start_height ≡ height)
unfolding record_block
record_block-cases log_delta a height ms =
    elim (Bool-cases (height == 0 || not (height % epoch_size == 0))) [
      | inl within ↦ inl (rw within refl)
      | inr ends ↦ inr (rw ends refl)
    ]

-- Once an epoch started above a height, it never starts below it again.
replay-above :
    (log_delta : ℕ → ℕ → ℤ) (a : Adjuster) (h : ℕ) (blocks : List (ℕ × ℕ))
    → AreAbove h blocks
    → h < a.epoch_start_height
    → h < (replay log_delta a blocks).epoch_start_height
unfolding replay
replay-above log_delta a h [] above later = later
replay-above log_delta a h ((height, ms) ∷ blocks) above later =
    elim (record_block-cases log_delta a height ms) [
      | inl kept ↦
          replay-above log_delta (record_block log_delta a height ms).0 h blocks above.1
            (rw kept later)
      | inr starts ↦
          replay-above log_delta (record_block log_delta a height ms).0 h blocks above.1
            (rw starts above.0)
    ]

-- If the epoch of the tip began at or below the fork point, the blocks above the fork point left the
-- adjuster as it was there: keeping it across the rollback is the same as rebuilding it from the blocks
-- that stay.
pub replay-rollback :
    (log_delta : ℕ → ℕ → ℤ) (a : Adjuster) (fork_point : ℕ) (blocks : List (ℕ × ℕ))
    → AreAbove fork_point blocks
    → (replay log_delta a blocks).epoch_start_height ≤ fork_point
    → replay log_delta a blocks ≡ a
unfolding replay
replay-rollback log_delta a fork_point [] above started = refl
replay-rollback log_delta a fork_point ((height, ms) ∷ blocks) above started =
    elim (record_block-cases log_delta a height ms) [
      | inl kept ↦ rw kept (
          replay-rollback log_delta a fork_point blocks above.1 (
            subst (λ (b : Adjuster). (replay log_delta b blocks).epoch_start_height ≤ fork_point)
              kept started))
      | inr starts ↦
          let later =
            replay-above log_delta (record_block log_delta a height ms).0 fork_point blocks above.1
              (rw starts above.0) in
          absurd (omega arith)
    ]
