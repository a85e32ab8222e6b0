-- ===== src/Emission/Schedule.antt =====
-- The supply under the schedule of l1-chain/core/src/rewards.rs.
use bina_blockchain_l.Prelude.{
  ℕ, zero, suc, ◌+◌, ◌-◌, ◌*◌, ◌/◌, ◌^◌, ◌≤◌, ◌<◌, min, ◌≡◌, refl, sym, arith, bytes_key, nat_key,
}
use native.Mathlib.Nat.{pow-suc, div-div-eq-div-mul}
use bina_blockchain_l.Emission.{
  hard_cap, initial_block_reward, halving_interval, era, era_reward, block_reward, supply_remaining,
  minted,
}

era_reward-suc : (e : ℕ) → era_reward (suc e) ≤ era_reward e
unfolding era_reward
era_reward-suc e =
    let half : 50 / 2 ^ suc e ≡ 50 / 2 ^ e / 2 =
      rw (pow-suc 2 e) (sym (div-div-eq-div-mul 50 (2 ^ e) 2)) in
    ground (arith, half)

-- Each halving lowers the reward or leaves it.
era_reward-add : (d e : ℕ) → era_reward (d + e) ≤ era_reward e
era_reward-add zero e = let same_era : 0 + e ≡ e = omega arith in rw same_era (omega arith)
era_reward-add (suc d) e =
    let next : suc d + e ≡ suc (d + e) = omega arith in
    rw next (omega (arith, era_reward-suc (d + e), era_reward-add d e))

era_reward_antitone : (d e : ℕ) → d ≤ e → era_reward e ≤ era_reward d
era_reward_antitone d e h =
    let split : e ≡ e - d + d = omega arith in rw split (era_reward-add (e - d) d)

era_reward_zero : era_reward 0 ≡ 50
unfolding era_reward
era_reward_zero = refl

era_first : (height : ℕ) → height < halving_interval → era height ≡ 0
unfolding era
era_first height h = omega arith

-- A reward never takes the supply over the hard cap and is at most the initial reward; it is the
-- whole remainder of the supply when that is no more than the reward of the height's era.
pub block_reward_bounds :
    (height total : ℕ)
    → total ≤ hard_cap
    → (total + block_reward height total ≤ hard_cap)
      × (block_reward height total ≤ initial_block_reward)
      × (supply_remaining total ≤ era_reward (era height)
          → total + block_reward height total ≡ hard_cap)
unfolding block_reward supply_remaining
block_reward_bounds height total h =
    let most = era_reward_antitone 0 (era height) (omega arith) in
    (ground arith, ground (arith, most, era_reward_zero), λ last. ground arith)

-- The supply never passes the cap, at any height.
pub minted-le : (n : ℕ) → minted n ≤ hard_cap
unfolding minted
minted-le zero = omega arith
minted-le (suc n) = (block_reward_bounds (suc n) (minted n) (minted-le n)).0

block_reward_first :
    (height total : ℕ)
    → height < halving_interval
    → total ≤ hard_cap
    → block_reward height total ≡ min 50 (hard_cap - total)
unfolding block_reward
block_reward_first height total h le = rw (era_first height h) (rw era_reward_zero (ground arith))

-- Before the first halving the supply is 50 for each block, until the cap is met exactly.
pub minted_first_era :
    (n : ℕ) → n < halving_interval → minted n ≡ min (initial_block_reward * n) hard_cap
unfolding minted
minted_first_era zero h = refl
minted_first_era (suc n) h = omega (
  arith,
  minted_first_era n (omega arith),
  minted-le n,
  block_reward_first (suc n) (minted n) h (minted-le n),
)

-- At one supply a later block never earns more.
pub block_reward_antitone : (g h total : ℕ) → g ≤ h → block_reward h total ≤ block_reward g total
unfolding block_reward era
block_reward_antitone g h total le =
    let falls = era_reward_antitone (g / 1576800000) (h / 1576800000) (omega arith) in ground arith
