-- ===== src/Difficulty/Replay.antt =====
-- The adjuster of l1-chain/core/src/difficulty.rs as a fold that can be resumed.
use bina_blockchain_l.Prelude.{
  ℕ, ◌%◌, ◌≡◌, refl, ◌≢◌, ◌⊎◌, none, some, List, [], ◌∷◌, ◌++◌, arith, bytes_key, nat_key,
}
use bina_blockchain_l.Prelude.{ℤ}
use bina_blockchain_l.Difficulty.{epoch_size, Adjuster, restore, adjustment, record_block, replay}
use bina_blockchain_l.Difficulty.Bounds.{IsBounded}

-- The fields that `restore` takes, which are those that consensus depends on.
pub record SameConsensus (a b : Adjuster) : Type 0 where
  pub bits : a.current_bits ≡ b.current_bits
  pub start_ms : a.epoch_start_ms ≡ b.epoch_start_ms
  pub start_height : a.epoch_start_height ≡ b.epoch_start_height

-- A block changes the state and is reported exactly if its height is a positive multiple of the
-- epoch size; then the epoch starts anew at that block, and the report is kept.
pub record_block_lem :
    (d : ℕ → ℕ → ℤ) (a : Adjuster) (height ms : ℕ)
    → ((height ≢ 0)
        × (height % epoch_size ≡ 0)
        × ((record_block d a height ms).1 ≡ some (adjustment d a height ms))
        × ((record_block d a height ms).0.current_bits ≡ (adjustment d a height ms).new_bits)
        × ((record_block d a height ms).0.epoch_start_ms ≡ ms)
        × ((record_block d a height ms).0.epoch_start_height ≡ height))
      ⊎ (((height ≡ 0) ⊎ (height % epoch_size ≢ 0)) × (record_block d a height ms ≡ (a, none)))
unfolding record_block
record_block_lem d a height ms = ground arith

record_block-SameConsensus :
    (d : ℕ → ℕ → ℤ) (a b : Adjuster) (height ms : ℕ)
    → SameConsensus a b
    → SameConsensus (record_block d a height ms).0 (record_block d b height ms).0
unfolding record_block adjustment
record_block-SameConsensus d a b height ms s = ground arith

replay-SameConsensus :
    (d : ℕ → ℕ → ℤ) (a b : Adjuster) (blocks : List (ℕ × ℕ))
    → SameConsensus a b
    → SameConsensus (replay d a blocks) (replay d b blocks)
unfolding replay
replay-SameConsensus d a b [] s = s
replay-SameConsensus d a b ((h, ms) ∷ blocks) s =
    replay-SameConsensus d (record_block d a h ms).0 (record_block d b h ms).0 blocks
      (record_block-SameConsensus d a b h ms s)

replay-append :
    (d : ℕ → ℕ → ℤ) (a : Adjuster) (xs ys : List (ℕ × ℕ))
    → replay d a (xs ++ ys) ≡ replay d (replay d a xs) ys
unfolding replay
replay-append d a [] ys = refl
replay-append d a ((h, ms) ∷ xs) ys = replay-append d (record_block d a h ms).0 xs ys

restore-SameConsensus :
    (a : Adjuster)
    → IsBounded a
    → SameConsensus (restore a.current_bits a.epoch_start_ms a.epoch_start_height) a
unfolding restore
restore-SameConsensus a v = record {
  bits = omega (arith, v.low, v.high);
  start_ms = refl;
  start_height = refl;
}

-- A node that restarts in the middle of a chain at a difficulty in range, and restores the adjuster
-- from the three saved fields, reaches the same difficulty and epoch start as one that ran through.
pub restore-resumes :
    (d : ℕ → ℕ → ℤ) (a : Adjuster) (past future : List (ℕ × ℕ))
    → IsBounded (replay d a past)
    → let saved = replay d a past in
      SameConsensus
        (replay d (restore saved.current_bits saved.epoch_start_ms saved.epoch_start_height) future)
        (replay d a (past ++ future))
restore-resumes d a past future v =
    rw (replay-append d a past future) (
      replay-SameConsensus d _ (replay d a past) future (restore-SameConsensus (replay d a past) v))
