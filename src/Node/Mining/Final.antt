-- ===== src/Node/Mining/Final.antt =====
-- What a round of `mining_loop` in l1-chain/node/src/main.rs makes final.
use bina_blockchain_l.Prelude.{
  ℤ, ℕ, ◌+◌, ◌/◌, ◌≤◌, ◌<◌, ◌≡◌, refl, sym, ap, ◌∙◌, Bool, true, List, [], ◌∷◌, map, arith, All,
  u64_max, ok, err, ensure, ok_or, is_ok, >>=-eq-ok, ok_injective, ok_or-ok, Bytes, bytes_key,
  nat_key, member,
}
use mathlib.Core.Path.{subst}
use bina_blockchain_l.External.{External}
use bina_blockchain_l.Claims.{SignedBlockClaim, block_hash}
use bina_blockchain_l.Claims as Claims
use bina_blockchain_l.Emission.{hard_cap, block_reward}
use bina_blockchain_l.Randomness.{RandomnessOutput, SpendError, from_block, consume, mark_spent}
use bina_blockchain_l.Ledger.Conservation.{IsBacked}
use bina_blockchain_l.Ledger.StateRoot.{state_root}
use bina_blockchain_l.Ledger.Execution.{apply_block}
use bina_blockchain_l.Node.{PendingClaim, Candidates, candidates_at}
use bina_blockchain_l.Node.Accept.{check_execution}
use bina_blockchain_l.Node.Accept.Execution.{check_execution-apply_block}
use bina_blockchain_l.Node.ForkChoice.{select_winning_pending, select_winning_pending-All}
use bina_blockchain_l.Node.Sync.{Replica}
use bina_blockchain_l.Node.Mining.{
  no_candidate, nullifier_collision, Finalized, Round, record_of, apply_winner, finish_round,
}

-- A candidate that the node's rules admitted on its present tip: its claim verifies, it is of the height,
-- it names the tip as its parent, its timestamp is later than the tip's, and its transactions give its
-- state root on the node's ledger with the reward of the height.
abbrev pub IsVetted : External → Replica → ℕ → PendingClaim → Type 0
IsVetted x p height c =
    (Claims.verify x c.claim ≡ ok tt)
    × (c.claim.header.height ≡ height)
    × (c.claim.header.prev_hash ≡ p.state.tip_hash)
    × (p.state.last_block_timestamp_ms < c.claim.header.timestamp)
    × (check_execution x p.ledger c.claim.header c.transactions
          (block_reward height p.state.total_mined_bina)
        ≡ ok tt)

-- All candidates of the next height are.
abbrev pub AreVetted : External → Replica → ℕ → Type 0
AreVetted x p height =
    All (λ e. IsVetted x p height e.1) (candidates_at height p.state.pending_claims)

-- What a round that ends leaves.
apply_winner-ok :
    (log_delta : ℕ → ℕ → ℤ) (x : External) (io : Bool) (p : Replica) (rd : Round) (w : PendingClaim)
    (f : Finalized)
    → apply_winner log_delta x io p rd w ≡ ok f
    → (f.replica.state.tip_hash ≡ block_hash x w.claim)
      × (f.replica.state.chain_height ≡ rd.height)
      × (f.replica.state.last_block_timestamp_ms ≡ w.claim.header.timestamp)
      × (f.replica.ledger
          ≡ apply_block x io p.ledger rd.height w.transactions
              (x.hex_encode w.claim.header.miner_address)
              rd.reward
              (w.claim.header.timestamp / 1000))
      × (f.stored.prev_hash ≡ x.hex_encode w.claim.header.prev_hash)
      × (f.stored.block_hash ≡ x.hex_encode (block_hash x w.claim))
unfolding apply_winner record_of
apply_winner-ok log_delta x io p rd w f h =
    let rand = from_block x rd.height (block_hash x w.claim) w.claim.header.bitcoin_seed_hash in
    let (_, k1, r1) =
      >>=-eq-ok (ensure (is_ok (consume p.state.nullifiers rand).0) nullifier_collision) _ h in
    let made = ok_injective _ f r1 in
    (
      sym (ap (λ (f : Finalized). f.replica.state.tip_hash) made),
      sym (ap (λ (f : Finalized). f.replica.state.chain_height) made),
      sym (ap (λ (f : Finalized). f.replica.state.last_block_timestamp_ms) made),
      sym (ap (λ (f : Finalized). f.replica.ledger) made),
      sym (ap (λ (f : Finalized). f.stored.prev_hash) made),
      sym (ap (λ (f : Finalized). f.stored.block_hash) made),
    )

map-All {κ} :
    (P : PendingClaim → Type κ) (cs : Candidates) → All (λ e. P e.1) cs → All P (map (λ e. e.1) cs)
map-All P [] h = tt
map-All P (c ∷ cs) h = (h.0, map-All P cs h.1)

-- When all candidates of a height were admitted on the node's tip, the block that a round makes final
-- extends the chain: it names the old tip as its parent and is the new tip, its claim verifies, its
-- timestamp is later, and the state root of the new ledger is the one in its header, provided the ledger is
-- backed by mined coins, the nonces are below the largest u64 and the reward fits the supply.
pub finish_round-extends :
    (log_delta : ℕ → ℕ → ℤ) (x : External) (p : Replica) (rd : Round) (f : Finalized)
    → IsBacked p.ledger
    → AreVetted x p rd.height
    → All
        (λ e. All (λ s. s.tx.nonce < u64_max) e.1.transactions)
        (candidates_at rd.height p.state.pending_claims)
    → rd.reward ≡ block_reward rd.height p.state.total_mined_bina
    → p.ledger.total_mined + rd.reward ≤ hard_cap
    → finish_round log_delta x true p rd ≡ ok f
    → (w : PendingClaim) × (Claims.verify x w.claim ≡ ok tt)
      × (w.claim.header.prev_hash ≡ p.state.tip_hash)
      × (f.replica.state.tip_hash ≡ block_hash x w.claim)
      × (f.replica.state.chain_height ≡ rd.height)
      × (p.state.last_block_timestamp_ms < f.replica.state.last_block_timestamp_ms)
      × (state_root x f.replica.ledger.balances f.replica.ledger.nonces ≡ w.claim.header.state_root)
unfolding finish_round
finish_round-extends log_delta x p rd f backed vetted below reward fits h =
    let cs = candidates_at rd.height p.state.pending_claims in
    let (w, k1, r1) =
      >>=-eq-ok (ok_or (select_winning_pending x (map (λ e. e.1) cs)) no_candidate) _ h in
    let chosen = ok_or-ok _ _ w k1 in
    let v =
      select_winning_pending-All x (IsVetted x p rd.height) (map (λ e. e.1) cs) w chosen
        (map-All (IsVetted x p rd.height) cs vetted) in
    let small =
      select_winning_pending-All x (λ w. All (λ s. s.tx.nonce < u64_max) w.transactions)
        (map (λ e. e.1) cs) w chosen
        (map-All (λ w. All (λ s. s.tx.nonce < u64_max) w.transactions) cs below) in
    let (tip, height, time, ledger, _, _) = apply_winner-ok log_delta x true p rd w f r1 in
    let h = w.claim.header in
    let (_, root) =
      check_execution-apply_block x p.ledger h w.transactions rd.reward rd.height
        (h.timestamp / 1000) backed small fits
        (subst (λ r. check_execution x p.ledger h w.transactions r ≡ ok tt) (sym reward) v.4) in
    (
      w,
      v.0,
      v.2,
      tip,
      height,
      omega (arith, time, v.3),
      ap (λ m. state_root x m.balances m.nonces) ledger ∙ root,
    )

consume-spent :
    (spent : List Bytes) (r : RandomnessOutput)
    → member r.nullifier spent ≡ true
    → (consume spent r).0 ≡ err SpendError.double_spend
unfolding consume mark_spent
consume-spent spent r h = rw h refl

-- A block whose randomness is already spent cannot be made final: the round panics.
pub apply_winner-spent :
    (log_delta : ℕ → ℕ → ℤ) (x : External) (io : Bool) (p : Replica) (rd : Round) (w : PendingClaim)
    → member
        (from_block x rd.height (block_hash x w.claim) w.claim.header.bitcoin_seed_hash).nullifier
        p.state.nullifiers
      ≡ true
    → apply_winner log_delta x io p rd w ≡ err nullifier_collision
unfolding apply_winner
apply_winner-spent log_delta x io p rd w spent =
    let rand = from_block x rd.height (block_hash x w.claim) w.claim.header.bitcoin_seed_hash in
    rw (consume-spent p.state.nullifiers rand spent) refl
