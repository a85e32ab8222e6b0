-- ===== src/Difficulty/Bounds.antt =====
-- How far one epoch moves the difficulty of l1-chain/core/src/difficulty.rs.
use bina_blockchain_l.Prelude.{ℕ, ◌+◌, ◌-◌, ◌≤◌, List, [], ◌∷◌, arith, bytes_key, nat_key}
use bina_blockchain_l.Prelude.{ℤ, pos, negsuc, ◌≤ℤ◌, +ℤ_parts}
use bina_blockchain_l.Difficulty.{
  min_bits, max_bits, max_delta_bits, Adjuster, restore, new_adjuster, raw_delta_of, next_bits,
  adjustment, record_block, replay,
}

-- The difficulty lies in the protocol's range.
pub record IsBounded (a : Adjuster) : Type 0 where
  pub low : min_bits ≤ a.current_bits
  pub high : a.current_bits ≤ max_bits

pub restore-IsBounded : (bits ms h : ℕ) → IsBounded (restore bits ms h)
unfolding restore
restore-IsBounded bits ms h = omega arith

pub new_adjuster-IsBounded : (bits ms : ℕ) → IsBounded (new_adjuster bits ms)
unfolding new_adjuster
new_adjuster-IsBounded bits ms = omega arith

next_bits_move :
    (d : ℕ → ℕ → ℤ) (old : ℕ) (delta : ℤ)
    → min_bits ≤ old
    → old ≤ max_bits
    → negsuc 2 ≤ℤ delta
    → delta ≤ℤ pos 3
    → let new = next_bits d old delta in
      (min_bits ≤ new) × (new ≤ max_bits) × (new ≤ old + 3) × (old ≤ new + 3)
unfolding next_bits
next_bits_move d old delta low high dl dh = ground (arith, +ℤ_parts (pos old) delta)

raw_delta_bounds :
    (d : ℕ → ℕ → ℤ) (actual target : ℕ)
    → (negsuc 2 ≤ℤ raw_delta_of d actual target) × (raw_delta_of d actual target ≤ℤ pos 3)
unfolding raw_delta_of
raw_delta_bounds d actual target = ground arith

-- The report of an epoch: from a difficulty in range the new one is in range and at most three
-- bits away, whatever the timestamps and whatever the logarithm returns.
pub adjustment_bounds :
    (d : ℕ → ℕ → ℤ) (a : Adjuster) (height ms : ℕ)
    → IsBounded a
    → let info = adjustment d a height ms in
      (min_bits ≤ info.new_bits)
      × (info.new_bits ≤ max_bits)
      × (info.new_bits ≤ a.current_bits + max_delta_bits)
      × (a.current_bits ≤ info.new_bits + max_delta_bits)
unfolding adjustment
adjustment_bounds d a height ms v =
    let target : ℕ = 800 in
    let b = raw_delta_bounds d (ms - a.epoch_start_ms) target in
    next_bits_move d a.current_bits (raw_delta_of d (ms - a.epoch_start_ms) target) v.low v.high b.0
      b.1

record_block-IsBounded :
    (d : ℕ → ℕ → ℤ) (a : Adjuster) (height ms : ℕ)
    → IsBounded a
    → IsBounded (record_block d a height ms).0
unfolding record_block
record_block-IsBounded d a height ms v = ground (arith, adjustment_bounds d a height ms v)

-- Over any chain, an adjuster that starts in the range of 25 to 45 bits stays in it.
pub replay-IsBounded :
    (d : ℕ → ℕ → ℤ) (a : Adjuster) (blocks : List (ℕ × ℕ))
    → IsBounded a
    → IsBounded (replay d a blocks)
unfolding replay
replay-IsBounded d a [] v = v
replay-IsBounded d a ((h, ms) ∷ blocks) v =
    replay-IsBounded d (record_block d a h ms).0 blocks (record_block-IsBounded d a h ms v)

next_bits_mono :
    (d : ℕ → ℕ → ℤ) (old : ℕ) (x y : ℤ) → x ≤ℤ y → next_bits d old x ≤ next_bits d old y
unfolding next_bits
next_bits_mono d old x y h = ground (arith, +ℤ_parts (pos old) x, +ℤ_parts (pos old) y)

raw_delta_antitone :
    (d : ℕ → ℕ → ℤ) (s t target : ℕ)
    → d t target ≤ℤ d s target
    → s ≤ t
    → raw_delta_of d t target ≤ℤ raw_delta_of d s target
unfolding raw_delta_of
raw_delta_antitone d s t target k h = ground arith

-- A slower epoch never gets the higher difficulty: if the rounded logarithm falls as the elapsed
-- time grows, then of two timestamps for the block that ends an epoch the later one gives at most
-- the difficulty of the earlier one.
pub adjustment_antitone :
    (d : ℕ → ℕ → ℤ) (a : Adjuster) (height s t : ℕ)
    → ((x y target : ℕ) → x ≤ y → d y target ≤ℤ d x target)
    → s ≤ t
    → (adjustment d a height t).new_bits ≤ (adjustment d a height s).new_bits
unfolding adjustment
adjustment_antitone d a height s t falls h =
    let x = s - a.epoch_start_ms in
    let y = t - a.epoch_start_ms in
    let target : ℕ = 800 in
    next_bits_mono d a.current_bits (raw_delta_of d y target) (raw_delta_of d x target)
      (raw_delta_antitone d x y target (falls x y target (omega arith)) (omega arith))
