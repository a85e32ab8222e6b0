-- ===== src/Checkpoint.antt =====
-- Bitcoin checkpoints of l1-chain/core/src/bitcoin_entropy.rs.
pub mod Epochs
use bina_blockchain_l.Prelude.{
  ℕ, zero, suc, ◌+◌, ◌-◌, ◌*◌, ◌/◌, ◌%◌, ◌^◌, ◌≤◌, ◌<◌, min, max, ◌≡◌, refl, sym, ap, ◌∙◌, ◌≢◌, ◌↔◌,
  ◌⊎◌, inl, inr, Bool, true, false, not, ◌&&◌, ◌||◌, Option, none, some, List, [], ◌∷◌, ◌++◌, map,
  arith, dec_lt, ℕ_discrete, ltb, leb, ◌==◌, if◌then◌else◌, ltb→lt, ltb→le, lt→ltb, le→ltb, leb→le,
  le→leb, ==→eq, ==_refl, ==_ne, tests, Bool-cases, Option-cases, Bool-ext, length, take, drop,
  replicate, get_or, length-append, length-replicate, length-take, length-drop, take-append,
  drop-append, append_cancel, take_within, drop_within, All, All-append, all, filter, u64_mod,
  u64_max, saturating_add, checked_add, wrapping_add, saturating_sub, saturating_add_small,
  wrapping_add_small, Result, ok, err, ◌>>=◌, ◌>>◌, ensure, ok_or, is_ok, >>=-eq-ok, Result-cases,
  Bytes, Bytes-discrete, bytes_lt, bytes_lt_irrefl, bytes_lt_trans, bytes_lt_total, bytes_lt_asymm,
  le_bytes, of_le_bytes, length-le_bytes, of_le_bytes-le_bytes, codes, le_bytes_injective, Key,
  bytes_key, nat_key, same, same→eq, same_refl, same_ne, member, member-append, set_insert,
  set_remove, lookup, insert, erase, keys, lookup-insert, lookup-erase, member-keys-insert,
}
use bina_blockchain_l.External.{External}

abbrev pub btc_checkpoint_interval : ℕ
btc_checkpoint_interval = 20

abbrev pub btc_tag : Bytes
btc_tag = codes "BINA-BTC-v1"

unfoldable pub is_checkpoint_height : ℕ → Bool
is_checkpoint_height height =
    (height == 1) || (saturating_sub height 1 % btc_checkpoint_interval == 0)

unfoldable pub governing_checkpoint_height : ℕ → ℕ
governing_checkpoint_height height =
    if height == 0 then 0 else (height - 1) / btc_checkpoint_interval * btc_checkpoint_interval + 1

-- `BtcEntropyState`
pub record BtcEntropyState : Type 0 where
  pub tip_hash : Bytes
  pub utxo_entropy : Bytes
  pub stale_xor_pool : Bytes
  pub seed_timestamp : ℕ
  pub tip_height : ℕ
  pub fork_detected : Bool

pub record BtcCheckpointProof : Type 0 where
  pub tip_hash : Bytes
  pub tip_height : ℕ
  pub utxo_entropy : Bytes
  pub stale_xor_pool : Bytes

-- `BtcCheckpointProof::from_state`
unfoldable pub from_state : BtcEntropyState → BtcCheckpointProof
from_state s = record {
  tip_hash = s.tip_hash;
  tip_height = s.tip_height;
  utxo_entropy = s.utxo_entropy;
  stale_xor_pool = s.stale_xor_pool;
}

-- `BtcCheckpointProof::seed_hash`
unfoldable pub seed_hash : External → BtcCheckpointProof → Bytes
seed_hash x p = x.blake3 (btc_tag ++ (p.tip_hash ++ (p.utxo_entropy ++ p.stale_xor_pool)))

-- `BtcEntropyState::bitcoin_seed_hash`
unfoldable pub bitcoin_seed_hash : External → BtcEntropyState → Bytes
bitcoin_seed_hash x s = x.blake3 (btc_tag ++ (s.tip_hash ++ (s.utxo_entropy ++ s.stale_xor_pool)))

abbrev pub abs_diff : ℕ → ℕ → ℕ
abs_diff a b = if ltb a b then b - a else a - b

-- `BtcCheckpointProof::plausible`
unfoldable pub plausible : BtcCheckpointProof → ℕ → ℕ → ℕ → Bool
plausible p previous observed tolerance =
    if ltb p.tip_height previous then false else leb (abs_diff p.tip_height observed) tolerance

-- `BtcEntropyState::is_fresh` and `age_secs`, at the clock's value.
unfoldable pub age_secs : BtcEntropyState → ℕ → ℕ
age_secs s now = saturating_sub now s.seed_timestamp

unfoldable pub is_fresh : BtcEntropyState → ℕ → ℕ → Bool
unfolding age_secs
is_fresh s now max_age = ltb (age_secs s now) max_age
