-- ===== src/Difficulty.antt =====
-- The difficulty adjuster of l1-chain/core/src/difficulty.rs. The f64 computation
-- `(-(actual / target).log2()).round() as i32` is the parameter `log_delta` of actual and target;
-- the log line of an adjustment is text and is left out.
pub mod Bounds
pub mod Replay
use bina_blockchain_l.Prelude.{
  ℕ, zero, suc, ◌+◌, ◌-◌, ◌*◌, ◌/◌, ◌%◌, ◌^◌, ◌≤◌, ◌<◌, min, max, ◌≡◌, refl, sym, ap, ◌∙◌, ◌≢◌, ◌↔◌,
  ◌⊎◌, inl, inr, Bool, true, false, not, ◌&&◌, ◌||◌, Option, none, some, List, [], ◌∷◌, ◌++◌, map,
  arith, dec_lt, ℕ_discrete, ltb, leb, ◌==◌, if◌then◌else◌, ltb→lt, ltb→le, lt→ltb, le→ltb, leb→le,
  le→leb, ==→eq, ==_refl, ==_ne, tests, Bool-cases, Option-cases, Bool-ext, length, take, drop,
  replicate, get_or, length-append, length-replicate, length-take, length-drop, take-append,
  drop-append, append_cancel, All, All-append, all, filter, u64_mod, u64_max, saturating_add,
  checked_add, wrapping_add, saturating_sub, saturating_add_small, wrapping_add_small, Result, ok,
  err, ◌>>=◌, ◌>>◌, ensure, ok_or, is_ok, >>=-eq-ok, Bytes, Bytes-discrete, bytes_lt,
  bytes_lt_irrefl, bytes_lt_trans, bytes_lt_total, bytes_lt_asymm, le_bytes, of_le_bytes,
  length-le_bytes, of_le_bytes-le_bytes, Key, bytes_key, nat_key, same, same→eq, same_refl, member,
  member-append, set_insert, set_remove, lookup, insert, erase, keys, lookup-insert, lookup-erase,
  member-keys-insert,
}
use bina_blockchain_l.Prelude.{ℤ, pos, negsuc, pos_part, ◌+ℤ◌, max_ℤ, min_ℤ, clamp_ℤ}

abbrev pub min_bits : ℕ
min_bits = 25

abbrev pub max_bits : ℕ
max_bits = 45

abbrev pub target_block_ms : ℕ
target_block_ms = 40

abbrev pub epoch_size : ℕ
epoch_size = 20

abbrev pub max_delta_bits : ℕ
max_delta_bits = 3

-- `AdjustmentInfo`
pub record AdjustmentInfo : Type 0 where
  pub new_bits : ℕ
  pub old_bits : ℕ
  pub actual_ms : ℕ
  pub target_ms : ℕ
  pub raw_delta : ℤ
  pub at_height : ℕ

-- `DifficultyAdjuster`
pub record Adjuster : Type 0 where
  pub current_bits : ℕ
  pub epoch_start_ms : ℕ
  pub epoch_start_height : ℕ
  pub last_adjustment : Option AdjustmentInfo

-- `DifficultyAdjuster::restore`
unfoldable pub restore : ℕ → ℕ → ℕ → Adjuster
restore bits start_ms start_height = record {
  current_bits = min (max bits min_bits) max_bits;
  epoch_start_ms = start_ms;
  epoch_start_height = start_height;
  last_adjustment = none;
}

-- `DifficultyAdjuster::new`
unfoldable pub new_adjuster : ℕ → ℕ → Adjuster
new_adjuster initial_bits genesis_ms = record {
  current_bits = min (max initial_bits min_bits) max_bits;
  epoch_start_ms = genesis_ms;
  epoch_start_height = 0;
  last_adjustment = none;
}

module _ (log_delta : ℕ → ℕ → ℤ) where
  -- The delta of an epoch, capped to three bits either way; instant blocks harden the most.
  unfoldable pub raw_delta_of : ℕ → ℕ → ℤ
  raw_delta_of actual_ms target_ms =
      if actual_ms == 0
      then pos max_delta_bits
      else clamp_ℤ (negsuc 2) (pos max_delta_bits) (log_delta actual_ms target_ms)

  -- `old_bits as i32 + raw_delta`, clamped, `as u32`
  unfoldable pub next_bits : ℕ → ℤ → ℕ
  next_bits old_bits delta =
      pos_part (clamp_ℤ (pos min_bits) (pos max_bits) (pos old_bits +ℤ delta))

  -- What `record_block` reports at an epoch's end.
  unfoldable pub adjustment : Adjuster → ℕ → ℕ → AdjustmentInfo
  unfolding raw_delta_of next_bits
  adjustment a height block_ms =
      let actual = saturating_sub block_ms a.epoch_start_ms in
      let target : ℕ = epoch_size * target_block_ms in
      let delta = raw_delta_of actual target in
      record {
        new_bits = next_bits a.current_bits delta;
        old_bits = a.current_bits;
        actual_ms = actual;
        target_ms = target;
        raw_delta = delta;
        at_height = height;
      }

  -- `DifficultyAdjuster::record_block`: the new state and the report.
  unfoldable pub record_block : Adjuster → ℕ → ℕ → Adjuster × Option AdjustmentInfo
  record_block a height block_ms =
      if height == 0 || not (height % epoch_size == 0)
      then (a, none)
      else let info = adjustment a height block_ms in
        (
          record {
            current_bits = info.new_bits;
            epoch_start_ms = block_ms;
            epoch_start_height = height;
            last_adjustment = some info;
          },
          some info,
        )

  -- The adjuster as a fold over the (height, timestamp) pairs of a chain.
  unfoldable pub replay : Adjuster → List (ℕ × ℕ) → Adjuster
  replay a [] = a
  replay a ((height, block_ms) ∷ blocks) = replay (record_block a height block_ms).0 blocks
