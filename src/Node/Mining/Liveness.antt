-- ===== src/Node/Mining/Liveness.antt =====
-- A block that an honest node mines is accepted by every node that agrees with it: the candidate of
-- `mining_loop` against `accept_signed_claim`, of l1-chain/node/src/main.rs.
use bina_blockchain_l.Prelude.{
  ℕ, zero, suc, ◌≤◌, ◌<◌, max, ◌≡◌, refl, ap, ◌∙◌, inl, inr, true, false, Option, none, some, List,
  [], ◌∷◌, arith, leb, le→leb, ==_refl, Option-cases, length, take, replicate, u64_max,
  saturating_add, wrapping_add, ok, Bytes, bytes_key, nat_key, same, same_refl, member, keys,
}
use bina_blockchain_l.External.{External}
use bina_blockchain_l.Block.{L1BlockHeader, header_hash, meets_difficulty, timestamp_is_valid}
use bina_blockchain_l.Difficulty.{Adjuster}
use bina_blockchain_l.Transaction.{SignedTransaction, merkle_root, max_txs_per_block}
use bina_blockchain_l.Transaction.Merkle.{merkle_root_ends}
use bina_blockchain_l.Crypto.{WalletKeypair, key_address}
use bina_blockchain_l.Crypto.Signing.{Owns}
use bina_blockchain_l.Claims.{SignedBlockClaim, sign, verify}
use bina_blockchain_l.Claims.Verify.{verify-sign}
use bina_blockchain_l.Checkpoint.{
  BtcCheckpointProof, BtcEntropyState, from_state, seed_hash, bitcoin_seed_hash,
  is_checkpoint_height, plausible,
}
use bina_blockchain_l.Ledger.{Ledger}
use bina_blockchain_l.Ledger.Maps.{Amounts}
use bina_blockchain_l.Ledger.StateRoot.{Overlay}
use bina_blockchain_l.Ledger.Execution.{simulate_step, simulate_loop, simulate_block_execution}
use bina_blockchain_l.Node.{NodeState, max_future_ms, btc_height_tolerance, candidates_at}
use bina_blockchain_l.Node.Accept.{
  is_root, check_checkpoint, check_structure, check_execution, check_claim, admit,
  accept_signed_claim,
}
use bina_blockchain_l.Node.Accept.Execution.{simulate_loop-length}
use bina_blockchain_l.Node.Mining.{seed_or, proof_of, build_candidate, sign_mined}

-- The dry run of what a dry run kept keeps it all, with the same effect.
simulate_loop-idempotent :
    (x : External) (b n : Amounts) (o : Overlay) (txs : List SignedTransaction) (miner : Bytes)
    → simulate_loop x b n o (simulate_loop x b n o txs miner).0 miner
      ≡ simulate_loop x b n o txs miner
unfolding simulate_loop
simulate_loop-idempotent x b n o [] miner = refl
simulate_loop-idempotent x b n o (s ∷ txs) miner =
    elim (Option-cases (simulate_step x b n o s miner)) [
      | inl dropped ↦ rw (dropped, simulate_loop) (simulate_loop-idempotent x b n o txs miner)
      | inr (o', kept) ↦
          rw (kept, simulate_loop)
            (rw (kept, simulate_loop)
              (ap (λ (r : List SignedTransaction × Overlay). (s ∷ r.0, r.1))
                (simulate_loop-idempotent x b n o' txs miner)))
    ]

pub simulate_block_execution-idempotent :
    (x : External) (l : Ledger) (txs : List SignedTransaction) (miner : Bytes) (reward : ℕ)
    → simulate_block_execution x l (simulate_block_execution x l txs miner reward).0 miner reward
      ≡ simulate_block_execution x l txs miner reward
unfolding simulate_block_execution
simulate_block_execution-idempotent x l txs miner reward =
    rw (simulate_loop-idempotent x l.balances l.nonces [] txs miner) refl

-- A dry run reads the balances and the nonces only.
simulate_block_execution-agrees :
    (x : External) (l l' : Ledger) (txs : List SignedTransaction) (miner : Bytes) (reward : ℕ)
    → l'.balances ≡ l.balances
    → l'.nonces ≡ l.nonces
    → simulate_block_execution x l' txs miner reward ≡ simulate_block_execution x l txs miner reward
unfolding simulate_block_execution
simulate_block_execution-agrees x l l' txs miner reward balances nonces = rw (balances, nonces) refl

pub check_execution-reproduced :
    (x : External) (l : Ledger) (h : L1BlockHeader) (txs : List SignedTransaction) (reward : ℕ)
    (run : List SignedTransaction × Bytes)
    → simulate_block_execution x l txs (x.hex_encode h.miner_address) reward ≡ run
    → run.0 ≡ txs
    → run.1 ≡ h.state_root
    → check_execution x l h txs reward ≡ ok tt
unfolding check_execution
check_execution-reproduced x l h txs reward run e kept root =
    rw e (rw (kept, root) (rw (==_refl (length txs), same_refl h.state_root) refl))

-- A node that accepts the blocks of another: the same chain and the same ledger.
pub record Agrees (s s' : NodeState) (l l' : Ledger) (a : Adjuster) : Type 0 where
  pub started : same s'.genesis_hash (replicate 32 0) ≡ false
  pub height : s'.chain_height ≡ s.chain_height
  pub tip : s'.tip_hash ≡ s.tip_hash
  pub bits : s'.difficulty_bits ≡ a.current_bits
  pub time : s'.last_block_timestamp_ms ≡ s.last_block_timestamp_ms
  pub seed : s'.btc_seed_hash ≡ s.btc_seed_hash
  pub mined : s'.total_mined_bina ≡ s.total_mined_bina
  pub balances : l'.balances ≡ l.balances
  pub nonces : l'.nonces ≡ l.nonces

-- The observation that the candidate pins: none, except at a checkpoint height, where it is plausible to the
-- other node.
abbrev pub IsPlausible : NodeState → ℕ → Option BtcEntropyState → Type 0
IsPlausible s' height none = is_checkpoint_height height ≡ false
IsPlausible s' height (some fresh) =
    (is_checkpoint_height height ≡ true)
    × (plausible (from_state fresh) s'.btc_checkpoint_tip_height s'.last_observed_btc.tip_height
          btc_height_tolerance
        ≡ true)

check_checkpoint-candidate :
    (x : External) (s s' : NodeState) (h : L1BlockHeader) (fresh : Option BtcEntropyState)
    → s'.btc_seed_hash ≡ s.btc_seed_hash
    → h.bitcoin_seed_hash ≡ seed_or x s.btc_seed_hash fresh
    → IsPlausible s' h.height fresh
    → check_checkpoint x s' h (proof_of fresh) ≡ ok tt
unfolding check_checkpoint seed_hash bitcoin_seed_hash from_state
check_checkpoint-candidate x s s' h none agree seed p =
    rw (p, seed, agree) (rw (same_refl s.btc_seed_hash) refl)
check_checkpoint-candidate x s s' h (some fresh) agree seed p =
    rw (p.0, seed) (rw (same_refl (bitcoin_seed_hash x fresh), p.1) refl)

timestamp_lem :
    (now last now' : ℕ)
    → last < u64_max
    → max now (saturating_add last 1) ≤ saturating_add now' max_future_ms
    → timestamp_is_valid (max now (saturating_add last 1)) last now' max_future_ms ≡ true
unfolding timestamp_is_valid
timestamp_lem now last now' h young = ground arith

length-take_le : {A : Type 0} (n : ℕ) (l : List A) → length (take n l) ≤ n
length-take_le zero l = omega arith
length-take_le (suc n) [] = omega arith
length-take_le (suc n) (a ∷ l) = omega (arith, length-take_le n l)

module _ (x : External) (s s' : NodeState) (l l' : Ledger) (a : Adjuster)
    (agree : Agrees s s' l l' a) where
  check_structure-candidate :
      (now now' nonce : ℕ) (miner : Bytes) (fresh : Option BtcEntropyState)
      (pending : List SignedTransaction)
      → let c = build_candidate x s l a now miner fresh pending in
        s.last_block_timestamp_ms < u64_max
        → c.template.timestamp ≤ saturating_add now' max_future_ms
        → IsPlausible s' c.template.height fresh
        → check_structure x s' now' (record c.template { nonce = nonce }) c.checkpoint_proof
          ≡ ok c.reward
  unfolding check_structure build_candidate
  check_structure-candidate now now' nonce miner fresh pending early young pinned =
      let c = build_candidate x s l a now miner fresh pending in
      let h = record c.template { nonce = nonce } in
      rw
        (
          agree.started,
          agree.height,
          ==_refl (wrapping_add s.chain_height 1),
          agree.tip,
          same_refl s.tip_hash,
          agree.bits,
          ==_refl a.current_bits,
          agree.time,
          timestamp_lem now s.last_block_timestamp_ms now' early young,
          check_checkpoint-candidate x s s' h fresh agree.seed refl pinned,
          agree.mined,
        )
        refl

  check_execution-candidate :
      (now nonce : ℕ) (miner : Bytes) (fresh : Option BtcEntropyState)
      (pending : List SignedTransaction)
      → let c = build_candidate x s l a now miner fresh pending in
        check_execution x l' (record c.template { nonce = nonce }) c.applied_txs c.reward ≡ ok tt
  unfolding check_execution build_candidate
  check_execution-candidate now nonce miner fresh pending =
      let c = build_candidate x s l a now miner fresh pending in
      let m = x.hex_encode miner in
      let run = simulate_block_execution x l (take max_txs_per_block pending) m c.reward in
      check_execution-reproduced x l' (record c.template { nonce = nonce }) run.0 c.reward run
        (simulate_block_execution-agrees x l l' run.0 m c.reward agree.balances agree.nonces
          ∙ simulate_block_execution-idempotent x l (take max_txs_per_block pending) m c.reward)
        refl refl

  length-applied_txs :
      (now : ℕ) (miner : Bytes) (fresh : Option BtcEntropyState) (pending : List SignedTransaction)
      → leb (length (build_candidate x s l a now miner fresh pending).applied_txs) max_txs_per_block
        ≡ true
  unfolding build_candidate simulate_block_execution
  length-applied_txs now miner fresh pending = le→leb _ _ (
      omega (
        arith,
        simulate_loop-length x l.balances l.nonces [] (take max_txs_per_block pending)
            (x.hex_encode miner),
        length-take_le max_txs_per_block pending,
      ))

  merkle_root-candidate :
      (now : ℕ) (miner : Bytes) (fresh : Option BtcEntropyState) (pending : List SignedTransaction)
      → let c = build_candidate x s l a now miner fresh pending in
        is_root (merkle_root x c.applied_txs) c.template.merkle_root ≡ true
  unfolding build_candidate
  merkle_root-candidate now miner fresh pending =
      let c = build_candidate x s l a now miner fresh pending in
      let (r, e) = merkle_root_ends x c.applied_txs in rw e (same_refl r)

accept_signed_claim-passes :
    (x : External) (s : NodeState) (l : Ledger) (now reward : ℕ) (c : SignedBlockClaim)
    (proof : Option BtcCheckpointProof) (txs : List SignedTransaction)
    → verify x c ≡ ok tt
    → leb (length txs) max_txs_per_block ≡ true
    → is_root (merkle_root x txs) c.header.merkle_root ≡ true
    → check_structure x s now c.header proof ≡ ok reward
    → check_execution x l c.header txs reward ≡ ok tt
    → member
        (x.hex_encode c.header.miner_address)
        (keys (candidates_at c.header.height s.pending_claims))
      ≡ false
    → (accept_signed_claim x s l now c proof txs).0 ≡ ok tt
unfolding check_claim accept_signed_claim admit
accept_signed_claim-passes x s l now reward c proof txs genuine few root structure execution new =
    let checked : check_claim x s l now c proof txs ≡ ok tt =
      rw (genuine, few, root, structure) execution in
    rw (checked, accept_signed_claim) (rw (new, admit) refl)

-- A block that a node mines by the rules is accepted by every node that agrees with it on the chain and the
-- ledger: if the nonce meets the difficulty, the wallet owns the miner's address, the clock of the other node
-- is not so far behind that the timestamp is too far ahead for it, the observation that is pinned at
-- a checkpoint height is plausible to it, and it has no claim of this miner at this height yet, then
-- it accepts the signed claim with its transactions.
pub accept_signed_claim-mined :
    (x : External) (s s' : NodeState) (l l' : Ledger) (a : Adjuster) (now now' nonce : ℕ)
    (k : WalletKeypair) (randomness : Bytes) (fresh : Option BtcEntropyState)
    (pending : List SignedTransaction)
    → let miner = key_address x k.public in
      let c = build_candidate x s l a now miner fresh pending in
      let header = record c.template { nonce = nonce } in
      Agrees s s' l l' a
      → s.last_block_timestamp_ms < u64_max
      → c.template.timestamp ≤ saturating_add now' max_future_ms
      → IsPlausible s' c.template.height fresh
      → Owns x k
      → meets_difficulty (header_hash x header) c.template.difficulty_bits ≡ true
      → member (x.hex_encode miner) (keys (candidates_at c.template.height s'.pending_claims))
        ≡ false
      → (accept_signed_claim x s' l' now'
          (sign_mined x c nonce k randomness)
          c.checkpoint_proof
          c.applied_txs).0
        ≡ ok tt
unfolding sign_mined sign build_candidate
accept_signed_claim-mined x s s' l l' a now now' nonce k randomness fresh pending agree early young
      pinned owns work new =
    let miner = key_address x k.public in
    let c = build_candidate x s l a now miner fresh pending in
    accept_signed_claim-passes x s' l' now' c.reward (sign_mined x c nonce k randomness)
      c.checkpoint_proof c.applied_txs
      (verify-sign x (record c.template { nonce = nonce }) k randomness owns refl work)
      (length-applied_txs x s s' l l' a agree now miner fresh pending)
      (merkle_root-candidate x s s' l l' a agree now miner fresh pending)
      (check_structure-candidate x s s' l l' a agree now now' nonce miner fresh pending early young
        pinned)
      (check_execution-candidate x s s' l l' a agree now nonce miner fresh pending) new
