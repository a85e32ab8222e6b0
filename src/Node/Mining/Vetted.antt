-- ===== src/Node/Mining/Vetted.antt =====
-- Every pending claim of the next height was checked on the node's tip: `accept_signed_claim` and the
-- candidate of `mining_loop`, of l1-chain/node/src/main.rs.
use bina_blockchain_l.Prelude.{
  ℕ, ◌<◌, max, ◌≡◌, refl, sym, ap, ◌∙◌, inl, inr, true, not, Option, List, [], ◌∷◌, arith, leb,
  ◌==◌, ==→eq, Bool-cases, length, take, replicate, All, u64_max, saturating_add, wrapping_add, ok,
  ensure, >>=-eq-ok, ok_injective, ensure-ok, Bytes, bytes_key, nat_key, same, same→eq, member,
  insert, keys,
}
use mathlib.Core.Path.{subst}
use bina_blockchain_l.External.{External}
use bina_blockchain_l.Block.{L1BlockHeader, timestamp_is_valid}
use bina_blockchain_l.Transaction.{SignedTransaction, merkle_root, max_txs_per_block}
use bina_blockchain_l.Claims.{SignedBlockClaim}
use bina_blockchain_l.Claims as Claims
use bina_blockchain_l.Checkpoint.{BtcCheckpointProof}
use bina_blockchain_l.Emission.{block_reward}
use bina_blockchain_l.Node.{NodeState, PendingClaim, Candidates, candidates_at, max_future_ms}
use bina_blockchain_l.Node.Accept.{
  is_root, check_checkpoint, check_structure, check_execution, check_claim, accept_signed_claim,
}
use bina_blockchain_l.Node.Accept.Admission.{candidates_at-insert, accept_signed_claim-cases}
use bina_blockchain_l.Node.Sync.{Replica}
use bina_blockchain_l.Node.Mining.{build_candidate, sign_mined, submit_local}
use bina_blockchain_l.Node.Mining.Liveness.{
  check_execution-reproduced, simulate_block_execution-idempotent,
}
use bina_blockchain_l.Crypto.{WalletKeypair, key_address}
use bina_blockchain_l.Crypto.Signing.{Owns}
use bina_blockchain_l.Claims.Verify.{verify-sign}
use bina_blockchain_l.Block.{header_hash, meets_difficulty}
use bina_blockchain_l.Checkpoint.{BtcEntropyState}
use bina_blockchain_l.Ledger.Execution.{simulate_block_execution}
use bina_blockchain_l.Node.Mining.Final.{IsVetted, AreVetted}
use bina_blockchain_l.Gossip.Delivery.{claim_verified}

later_lem : (t s now : ℕ) → timestamp_is_valid t s now max_future_ms ≡ true → s < t
unfolding timestamp_is_valid
later_lem t s now h = ground arith

-- What the checks of the header against the state say.
check_structure-ok :
    (x : External) (s : NodeState) (now : ℕ) (h : L1BlockHeader) (proof : Option BtcCheckpointProof)
    (reward : ℕ)
    → check_structure x s now h proof ≡ ok reward
    → (h.height ≡ wrapping_add s.chain_height 1)
      × (h.prev_hash ≡ s.tip_hash)
      × (s.last_block_timestamp_ms < h.timestamp)
      × (reward ≡ block_reward h.height s.total_mined_bina)
unfolding check_structure
check_structure-ok x s now h proof reward e =
    let (_, k1, r1) = >>=-eq-ok (ensure (not (same s.genesis_hash (replicate 32 0))) _) _ e in
    let (_, k2, r2) = >>=-eq-ok (ensure (h.height == wrapping_add s.chain_height 1) _) _ r1 in
    let (_, k3, r3) = >>=-eq-ok (ensure (same h.prev_hash s.tip_hash) _) _ r2 in
    let (_, k4, r4) = >>=-eq-ok (ensure (h.difficulty_bits == s.difficulty_bits) _) _ r3 in
    let (_, k5, r5) =
      >>=-eq-ok
        (ensure (timestamp_is_valid h.timestamp s.last_block_timestamp_ms now max_future_ms) _) _
        r4 in
    let (_, k6, r6) = >>=-eq-ok (check_checkpoint x s h proof) _ r5 in
    (
      ==→eq _ _ (ensure-ok _ _ k2),
      same→eq _ _ (ensure-ok _ _ k3),
      later_lem _ _ now (ensure-ok _ _ k5),
      sym (ok_injective _ reward r6),
    )

check_claim-IsVetted :
    (x : External) (p : Replica) (now : ℕ) (c : SignedBlockClaim)
    (proof : Option BtcCheckpointProof) (txs : List SignedTransaction)
    → check_claim x p.state p.ledger now c proof txs ≡ ok tt
    → IsVetted x p
        (wrapping_add p.state.chain_height 1)
        (record { claim = c; btc_checkpoint = proof; transactions = txs })
unfolding check_claim
check_claim-IsVetted x p now c proof txs e =
    let (_, k1, r1) = >>=-eq-ok _ _ e in
    let (_, k2, r2) = >>=-eq-ok (ensure (leb (length txs) max_txs_per_block) _) _ r1 in
    let (_, k3, r3) =
      >>=-eq-ok (ensure (is_root (merkle_root x txs) c.header.merkle_root) _) _ r2 in
    let (reward, k4, r4) = >>=-eq-ok (check_structure x p.state now c.header proof) _ r3 in
    let (height, parent, later, is_reward) =
      check_structure-ok x p.state now c.header proof reward k4 in
    (
      claim_verified _ k1,
      height,
      parent,
      later,
      subst (λ r. check_execution x p.ledger c.header txs r ≡ ok tt)
          (is_reward ∙ ap (λ h. block_reward h p.state.total_mined_bina) height) r4,
    )

insert-All {κ} :
    (P : PendingClaim → Type κ) (k : Bytes) (v : PendingClaim) (cs : Candidates)
    → P v
    → All (λ e. P e.1) cs
    → All (λ e. P e.1) (insert k v cs)
insert-All P k v [] here rest = (here, tt)
insert-All P k v ((i, w) ∷ cs) here rest = elim (Bool-cases (same k i)) [
  | inl equal ↦ rw equal (here, rest.1)
  | inr other ↦ rw other (rest.0, insert-All P k v cs here rest.1)
]

-- One more candidate that was checked.
insert-AreVetted :
    (x : External) (p : Replica) (height : ℕ) (miner : Bytes) (c : PendingClaim)
    → IsVetted x p height c
    → AreVetted x p height
    → All
        (λ e. IsVetted x p height e.1)
        (candidates_at height (
          insert height
            (insert miner c (candidates_at height p.state.pending_claims))
            p.state.pending_claims))
insert-AreVetted x p height miner c here rest =
    let cs = insert miner c (candidates_at height p.state.pending_claims) in
    subst (All (λ e. IsVetted x p height e.1))
      (sym (candidates_at-insert height cs p.state.pending_claims))
      (insert-All (IsVetted x p height) miner c _ here rest)

-- A claim that arrives, accepted or not, leaves all candidates of the next height checked on the node's tip
-- and ledger.
pub accept_signed_claim-AreVetted :
    (x : External) (p : Replica) (now : ℕ) (c : SignedBlockClaim)
    (proof : Option BtcCheckpointProof) (txs : List SignedTransaction)
    → let height = wrapping_add p.state.chain_height 1 in
      AreVetted x p height
      → AreVetted x
          (record p { state = (accept_signed_claim x p.state p.ledger now c proof txs).1 })
          height
accept_signed_claim-AreVetted x p now c proof txs vetted =
    let height = wrapping_add p.state.chain_height 1 in
    elim (accept_signed_claim-cases x p.state p.ledger now c proof txs) [
      | inl (e, refused) ↦ rw refused vetted
      | inr (passed, _, accepted) ↦
          let here = check_claim-IsVetted x p now c proof txs passed in
          rw accepted (
            subst
              (λ k.
                All (λ e. IsVetted x p height e.1)
                  (candidates_at height (
                    insert k
                      (insert (x.hex_encode c.header.miner_address)
                        (record { claim = c; btc_checkpoint = proof; transactions = txs })
                        (candidates_at k p.state.pending_claims))
                      p.state.pending_claims)))
              (sym here.1)
              (insert-AreVetted x p height (x.hex_encode c.header.miner_address)
                (record { claim = c; btc_checkpoint = proof; transactions = txs }) here vetted))
    ]

advance_lem : (now last : ℕ) → last < u64_max → last < max now (saturating_add last 1)
advance_lem now last h = ground arith

-- The own candidate, once it is mined and signed, was checked too.
sign_mined-IsVetted :
    (x : External) (p : Replica) (now nonce : ℕ) (k : WalletKeypair) (randomness : Bytes)
    (fresh : Option BtcEntropyState) (pending : List SignedTransaction)
    → let c =
        build_candidate x p.state p.ledger p.adjuster now (key_address x k.public) fresh pending in
      p.state.last_block_timestamp_ms < u64_max
      → Owns x k
      → meets_difficulty
          (header_hash x (record c.template { nonce = nonce }))
          c.template.difficulty_bits
        ≡ true
      → IsVetted x p (wrapping_add p.state.chain_height 1) (record {
        claim = sign_mined x c nonce k randomness;
        btc_checkpoint = c.checkpoint_proof;
        transactions = c.applied_txs;
      })
unfolding build_candidate sign_mined Claims.sign
sign_mined-IsVetted x p now nonce k randomness fresh pending early owns work =
    let miner = key_address x k.public in
    let c = build_candidate x p.state p.ledger p.adjuster now miner fresh pending in
    let h = record c.template { nonce = nonce } in
    let txs = take max_txs_per_block pending in
    let run = simulate_block_execution x p.ledger txs (x.hex_encode miner) c.reward in
    (
      verify-sign x h k randomness owns refl work,
      refl,
      refl,
      advance_lem now p.state.last_block_timestamp_ms early,
      check_execution-reproduced x p.ledger h run.0 c.reward run
          (simulate_block_execution-idempotent x p.ledger txs (x.hex_encode miner) c.reward) refl
          refl,
    )

-- The node's own candidate keeps the candidates of the next height vetted: if all of them were, if the key is the
-- node's, the nonce gives a hash that meets the difficulty and the last timestamp is not the largest u64, then after
-- the candidate is signed and entered all of them are still checked on the node's tip and ledger.
pub submit_local-AreVetted :
    (x : External) (p : Replica) (now nonce : ℕ) (k : WalletKeypair) (randomness : Bytes)
    (fresh : Option BtcEntropyState) (pending : List SignedTransaction)
    → let c =
        build_candidate x p.state p.ledger p.adjuster now (key_address x k.public) fresh pending in
      let height = wrapping_add p.state.chain_height 1 in
      p.state.last_block_timestamp_ms < u64_max
      → Owns x k
      → meets_difficulty
          (header_hash x (record c.template { nonce = nonce }))
          c.template.difficulty_bits
        ≡ true
      → AreVetted x p height
      → let mine : PendingClaim = record {
        claim = sign_mined x c nonce k randomness;
        btc_checkpoint = c.checkpoint_proof;
        transactions = c.applied_txs;
      } in
        AreVetted x (record p { state = submit_local x p.state height mine }) height
unfolding submit_local
submit_local-AreVetted x p now nonce k randomness fresh pending early owns work vetted =
    let height = wrapping_add p.state.chain_height 1 in
    let c =
      build_candidate x p.state p.ledger p.adjuster now (key_address x k.public) fresh pending in
    let mine : PendingClaim = record {
      claim = sign_mined x c nonce k randomness;
      btc_checkpoint = c.checkpoint_proof;
      transactions = c.applied_txs;
    } in
    let miner = x.hex_encode mine.claim.header.miner_address in
    let cs = candidates_at height p.state.pending_claims in
    let here = sign_mined-IsVetted x p now nonce k randomness fresh pending early owns work in
    elim (Bool-cases (member miner (keys cs))) [
      | inl known ↦ rw known (
          subst (All (λ e. IsVetted x p height e.1))
            (sym (candidates_at-insert height cs p.state.pending_claims)) vetted)
      | inr new ↦ rw new (insert-AreVetted x p height miner mine here vetted)
    ]
