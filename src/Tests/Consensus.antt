-- ===== src/Tests/Consensus.antt =====
-- Difficulty, emission, checkpoints and the election at concrete inputs.
use bina_blockchain_l.Prelude.{
  ℤ, pos, ℕ, ◌+◌, ◌≤◌, ◌≡◌, refl, true, false, some, [], ◌∷◌, ◌++◌, arith, All, ok, Bytes-discrete,
  bytes_key, nat_key,
}
use bina_blockchain_l.Block.{leading_zero_bits, top_bits_zero, header_hash, meets_difficulty}
use bina_blockchain_l.Difficulty.{
  min_bits, max_bits, max_delta_bits, Adjuster, new_adjuster, restore, replay, adjustment,
}
use bina_blockchain_l.Difficulty.Bounds.{
  new_adjuster-IsBounded, adjustment_bounds, replay-IsBounded,
}
use bina_blockchain_l.Difficulty.Replay.{SameConsensus, restore-resumes}
use bina_blockchain_l.Emission.{
  hard_cap, initial_block_reward, era, era_reward, block_reward, supply_remaining,
}
use bina_blockchain_l.Emission.Schedule.{block_reward_bounds}
use bina_blockchain_l.Crypto.{key_address}
use bina_blockchain_l.Claims.{
  SignedBlockClaim, sign, verify, block_hash, work_bits, election_score, claim_is_better, better_of,
  reduce_claims, select_winning_claim,
}
use bina_blockchain_l.Claims.Election.{
  IsAmong, here, there, select_winning_claim-IsBest, select_winning_claim-order_free,
}
use bina_blockchain_l.Claims.Verify.{IsProven, verify-IsProven, verify-sign}
use bina_blockchain_l.Tests.Fixtures.{toy, toy_wallet, toy-Owns, toy_header}

-- A logarithm that always answers one bit more.
abbrev one_up : ℕ → ℕ → ℤ
one_up actual target = pos 1

abbrev started : Adjuster
started = new_adjuster 30 0

adjustment_bounds_example :
    (min_bits ≤ (adjustment one_up started 20 400).new_bits)
    × ((adjustment one_up started 20 400).new_bits ≤ max_bits)
    × ((adjustment one_up started 20 400).new_bits ≤ started.current_bits + max_delta_bits)
    × (started.current_bits ≤ (adjustment one_up started 20 400).new_bits + max_delta_bits)
adjustment_bounds_example = adjustment_bounds one_up started 20 400 (new_adjuster-IsBounded 30 0)

abbrev saved : Adjuster
saved = replay one_up started ((20, 400) ∷ [])

restore-resumes_example :
    SameConsensus
      (replay one_up
        (restore saved.current_bits saved.epoch_start_ms saved.epoch_start_height)
        ((40, 900) ∷ []))
      (replay one_up started (((20, 400) ∷ []) ++ (40, 900) ∷ []))
restore-resumes_example =
    restore-resumes one_up started ((20, 400) ∷ []) ((40, 900) ∷ [])
      (replay-IsBounded one_up started ((20, 400) ∷ []) (new_adjuster-IsBounded 30 0))

block_reward_bounds_example :
    (1999999999 + block_reward 5 1999999999 ≤ hard_cap)
    × (block_reward 5 1999999999 ≤ initial_block_reward)
    × (supply_remaining 1999999999 ≤ era_reward (era 5)
        → 1999999999 + block_reward 5 1999999999 ≡ hard_cap)
block_reward_bounds_example = block_reward_bounds 5 1999999999 (omega arith)

abbrev toy_claim : SignedBlockClaim
toy_claim = sign toy toy_header toy_wallet []

toy_address : toy_header.miner_address ≡ key_address toy toy_wallet.public
unfolding key_address
toy_address = refl

toy_work : meets_difficulty (header_hash toy toy_header) toy_header.difficulty_bits ≡ true
unfolding meets_difficulty header_hash top_bits_zero
toy_work = refl

toy_claim_verifies : verify toy toy_claim ≡ ok tt
toy_claim_verifies = verify-sign toy toy_header toy_wallet [] toy-Owns toy_address toy_work

verify-sign_example : verify toy (sign toy toy_header toy_wallet []) ≡ ok tt
verify-sign_example = verify-sign toy toy_header toy_wallet [] toy-Owns toy_address toy_work

verify-IsProven_example : IsProven toy toy_claim
verify-IsProven_example = verify-IsProven toy toy_claim toy_claim_verifies

abbrev first : SignedBlockClaim
first = record { header = toy_header; public_key = []; signature = [] }

abbrev second : SignedBlockClaim
second = record { header = record toy_header { nonce = 10 }; public_key = []; signature = [] }

select_winning_claim-IsBest_example :
    (w : SignedBlockClaim) × (select_winning_claim toy (first ∷ second ∷ []) ≡ some w)
    × IsAmong w (first ∷ second ∷ [])
    × All (λ d. claim_is_better toy d w ≡ false) (first ∷ second ∷ [])
select_winning_claim-IsBest_example = select_winning_claim-IsBest toy first (second ∷ [])

swap :
    {a b : SignedBlockClaim} (c : SignedBlockClaim)
    → IsAmong c (a ∷ b ∷ [])
    → IsAmong c (b ∷ a ∷ [])
swap c (here e) = there (here e)
swap c (there (here e)) = here e
swap c (there (there m)) = elim m [ ]

first_wins : select_winning_claim toy (first ∷ second ∷ []) ≡ some first
unfolding select_winning_claim reduce_claims better_of claim_is_better work_bits leading_zero_bits
    header_hash Bytes-discrete election_score
first_wins = refl

second_wins : select_winning_claim toy (second ∷ first ∷ []) ≡ some second
unfolding select_winning_claim reduce_claims better_of claim_is_better work_bits leading_zero_bits
    header_hash Bytes-discrete election_score
second_wins = refl

select_winning_claim-order_free_example : block_hash toy first ≡ block_hash toy second
select_winning_claim-order_free_example =
    select_winning_claim-order_free toy (first ∷ second ∷ []) (second ∷ first ∷ []) first second
      (λ c. (swap c, swap c)) first_wins second_wins
