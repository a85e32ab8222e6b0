-- ===== src/Node/Accept.antt =====
-- `accept_signed_claim` of l1-chain/node/src/main.rs. The locks are always granted, and the clock is the
-- argument `now`.
pub mod Admission
pub mod Execution
use bina_blockchain_l.Prelude.{
  ℕ, zero, suc, ◌+◌, ◌-◌, ◌*◌, ◌/◌, ◌%◌, ◌^◌, ◌≤◌, ◌<◌, min, max, ◌≡◌, refl, sym, ap, ◌∙◌, ◌≢◌, ◌↔◌,
  ◌⊎◌, inl, inr, Bool, true, false, not, ◌&&◌, ◌||◌, Option, none, some, List, [], ◌∷◌, ◌++◌, map,
  arith, dec_lt, ℕ_discrete, ltb, leb, ◌==◌, if◌then◌else◌, ltb→lt, ltb→le, lt→ltb, le→ltb, leb→le,
  le→leb, ==→eq, ==_refl, ==_ne, tests, Bool-cases, Option-cases, Bool-ext, length, take, drop,
  replicate, get_or, length-append, length-replicate, length-take, length-drop, take-append,
  drop-append, append_cancel, take_within, drop_within, All, All-append, all, filter, u64_mod,
  u64_max, saturating_add, checked_add, wrapping_add, saturating_sub, saturating_add_small,
  wrapping_add_small, Result, ok, err, ◌>>=◌, ◌>>◌, ensure, ok_or, is_ok, >>=-eq-ok, Result-cases,
  Bytes, Bytes-discrete, bytes_lt, bytes_lt_irrefl, bytes_lt_trans, bytes_lt_total, bytes_lt_asymm,
  le_bytes, of_le_bytes, length-le_bytes, of_le_bytes-le_bytes, codes, le_bytes_injective, Key,
  bytes_key, nat_key, same, same→eq, same_refl, same_ne, member, member-append, set_insert,
  set_remove, lookup, insert, erase, keys, lookup-insert, lookup-erase, member-keys-insert,
}
use bina_blockchain_l.External.{External}
use bina_blockchain_l.Emission.{block_reward}
use bina_blockchain_l.Block.{L1BlockHeader, timestamp_is_valid}
use bina_blockchain_l.Transaction.{SignedTransaction, merkle_root, max_txs_per_block}
use bina_blockchain_l.Claims.{ClaimError, SignedBlockClaim, verify}
use bina_blockchain_l.Checkpoint.{BtcCheckpointProof, is_checkpoint_height, seed_hash, plausible}
use bina_blockchain_l.Ledger.{Ledger}
use bina_blockchain_l.Ledger.Execution.{simulate_block_execution}
use bina_blockchain_l.Node.{
  NodeState, PendingClaim, Candidates, candidates_at, max_future_ms, btc_height_tolerance,
}

pub data ClaimReject : Type 0 where
  invalid_claim : ClaimError → ClaimReject
  too_many_transactions merkle_mismatch no_genesis : ClaimReject
  wrong_height wrong_parent wrong_difficulty bad_timestamp : ClaimReject
  no_checkpoint checkpoint_mismatch checkpoint_implausible wrong_seed : ClaimReject
  transaction_refused state_root_mismatch already_submitted : ClaimReject

abbrev pub is_root : Option Bytes → Bytes → Bool
is_root none root = false
is_root (some r) root = same r root

module _ (x : External) where
  -- The checkpoint rule of phase 1.
  unfoldable pub check_checkpoint :
      NodeState → L1BlockHeader → Option BtcCheckpointProof → Result ClaimReject (Unit {0})
  check_checkpoint s h proof =
      if is_checkpoint_height h.height
      then (do
        p ← ok_or proof no_checkpoint
        ensure (same (seed_hash x p) h.bitcoin_seed_hash) checkpoint_mismatch
        ensure
            (plausible p s.btc_checkpoint_tip_height s.last_observed_btc.tip_height
              btc_height_tolerance)
            checkpoint_implausible)
      else ensure (same h.bitcoin_seed_hash s.btc_seed_hash) wrong_seed

  -- Phase 1: the checks against the node's state; the result is the block's reward.
  unfoldable pub check_structure :
      NodeState → ℕ → L1BlockHeader → Option BtcCheckpointProof → Result ClaimReject ℕ
  unfolding check_checkpoint
  check_structure s now h proof = do
    ensure (not (same s.genesis_hash (replicate 32 0))) no_genesis
    ensure (h.height == wrapping_add s.chain_height 1) wrong_height
    ensure (same h.prev_hash s.tip_hash) wrong_parent
    ensure (h.difficulty_bits == s.difficulty_bits) wrong_difficulty
    ensure (timestamp_is_valid h.timestamp s.last_block_timestamp_ms now max_future_ms)
        bad_timestamp
    check_checkpoint s h proof
    ok (block_reward h.height s.total_mined_bina)

  -- Phase 2: the transactions are executed again.
  unfoldable pub check_execution :
      Ledger → L1BlockHeader → List SignedTransaction → ℕ → Result ClaimReject (Unit {0})
  check_execution l h txs reward = do
    let (applied, root) = simulate_block_execution x l txs (x.hex_encode h.miner_address) reward
    ensure (length applied == length txs) transaction_refused
    ensure (same root h.state_root) state_root_mismatch

  -- All checks before the claim is admitted, in order.
  unfoldable pub check_claim :
      NodeState
      → Ledger
      → ℕ
      → SignedBlockClaim
      → Option BtcCheckpointProof
      → List SignedTransaction
      → Result ClaimReject (Unit {0})
  check_claim s l now c proof txs = do
    elim (verify x c) [ ok u ↦ ok u | err e ↦ err (invalid_claim e) ]
    ensure (leb (length txs) max_txs_per_block) too_many_transactions
    ensure (is_root (merkle_root x txs) c.header.merkle_root) merkle_mismatch
    reward ← check_structure s now c.header proof
    check_execution l c.header txs reward

  -- Phase 3: one claim for each miner and height.
  unfoldable pub admit :
      NodeState
      → SignedBlockClaim
      → Option BtcCheckpointProof
      → List SignedTransaction
      → Result ClaimReject (Unit {0}) × NodeState
  admit s c proof txs =
      let miner = x.hex_encode c.header.miner_address in
      let claims = candidates_at c.header.height s.pending_claims in
      if member miner (keys claims) then (err already_submitted, s) else (
        ok tt,
        record s {
          pending_claims =
              insert c.header.height
                (insert miner (record { claim = c; btc_checkpoint = proof; transactions = txs })
                  claims)
                s.pending_claims;
        },
      )

  -- `accept_signed_claim`
  unfoldable pub accept_signed_claim :
      NodeState
      → Ledger
      → ℕ
      → SignedBlockClaim
      → Option BtcCheckpointProof
      → List SignedTransaction
      → Result ClaimReject (Unit {0}) × NodeState
  accept_signed_claim s l now c proof txs = elim (check_claim s l now c proof txs) [
    | err e ↦ (err e, s)
    | ok u ↦ admit s c proof txs
  ]
