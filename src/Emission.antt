-- ===== src/Emission.antt =====
-- The emission schedule of l1-chain/core/src/rewards.rs.
pub mod Schedule
use bina_blockchain_l.Prelude.{
  ℕ, zero, suc, ◌+◌, ◌-◌, ◌*◌, ◌/◌, ◌%◌, ◌^◌, ◌≤◌, ◌<◌, min, max, ◌≡◌, refl, sym, ap, ◌∙◌, ◌≢◌, ◌↔◌,
  ◌⊎◌, inl, inr, Bool, true, false, not, ◌&&◌, ◌||◌, Option, none, some, List, [], ◌∷◌, ◌++◌, map,
  arith, dec_lt, ℕ_discrete, ltb, leb, ◌==◌, if◌then◌else◌, ltb→lt, ltb→le, lt→ltb, le→ltb, leb→le,
  le→leb, ==→eq, ==_refl, ==_ne, tests, Bool-cases, Option-cases, Bool-ext, length, take, drop,
  replicate, get_or, length-append, length-replicate, length-take, length-drop, take-append,
  drop-append, append_cancel, take_within, drop_within, All, All-append, all, filter, u64_mod,
  u64_max, saturating_add, checked_add, wrapping_add, saturating_sub, saturating_add_small,
  wrapping_add_small, Result, ok, err, ◌>>=◌, ◌>>◌, ensure, ok_or, is_ok, >>=-eq-ok, Bytes,
  Bytes-discrete, bytes_lt, bytes_lt_irrefl, bytes_lt_trans, bytes_lt_total, bytes_lt_asymm,
  le_bytes, of_le_bytes, length-le_bytes, of_le_bytes-le_bytes, codes, le_bytes_injective, Key,
  bytes_key, nat_key, same, same→eq, same_refl, same_ne, member, member-append, set_insert,
  set_remove, lookup, insert, erase, keys, lookup-insert, lookup-erase, member-keys-insert,
}

abbrev pub hard_cap : ℕ
hard_cap = 2000000000

abbrev pub initial_block_reward : ℕ
initial_block_reward = 50

abbrev pub halving_interval : ℕ
halving_interval = 1576800000

unfoldable pub era : ℕ → ℕ
era height = height / halving_interval

-- The reward before the cap: `INITIAL_BLOCK_REWARD >> era`, zero from era 64 on.
unfoldable pub era_reward : ℕ → ℕ
era_reward e = if leb 64 e then 0 else initial_block_reward / 2 ^ e

unfoldable pub block_reward : ℕ → ℕ → ℕ
unfolding era_reward era
block_reward height total_mined =
    if leb hard_cap total_mined then 0 else min (era_reward (era height)) (hard_cap - total_mined)

unfoldable pub supply_remaining : ℕ → ℕ
supply_remaining total_mined = saturating_sub hard_cap total_mined

-- The supply after the blocks 1 to n of a chain, each credited with its own reward.
unfoldable pub minted : ℕ → ℕ
minted zero = 0
minted (suc n) = minted n + block_reward (suc n) (minted n)
