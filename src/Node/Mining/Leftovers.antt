-- ===== src/Node/Mining/Leftovers.antt =====
-- What a rollback by `reconcile_fork` leaves for the rounds of `mining_loop`, of
-- l1-chain/node/src/main.rs.
use bina_blockchain_l.Prelude.{
  ℤ, ℕ, ◌<◌, ◌≡◌, refl, ap, ◌∙◌, inl, inr, Bool, true, Option, none, some, List, [], ◌∷◌, map,
  arith, ltb, if◌then◌else◌, lt→ltb, Bool-cases, ok, err, ensure, is_ok, >>=-eq-ok, ok_injective,
  ensure-ok, bytes_key, nat_key, same, same→eq, same_refl, member, set_insert, member-set_insert,
  lookup,
}
use bina_blockchain_l.External.{External}
use bina_blockchain_l.Transaction.{SignedTransaction}
use bina_blockchain_l.Checkpoint.{BtcCheckpointProof}
use bina_blockchain_l.Ledger.{Ledger}
use bina_blockchain_l.Claims.{SignedBlockClaim, block_hash}
use bina_blockchain_l.Randomness.{RandomnessOutput, NullifierSet, from_block, consume, mark_spent}
use bina_blockchain_l.Node.Accept.{accept_signed_claim}
use bina_blockchain_l.Node.Accept.Admission.{accept_signed_claim-cases}
use bina_blockchain_l.Node.{NodeState, PendingClaim, Candidates, candidates_at}
use bina_blockchain_l.Node.ForkChoice.{select_winning_pending}
use bina_blockchain_l.Node.Sync.{Replica, retain_above}
use bina_blockchain_l.Store.{Json, BlockStore}
use bina_blockchain_l.Node.Reorg.{Disk, Chain, Rollback, roll_back}
use bina_blockchain_l.Node.Mining.{
  nullifier_collision, Round, Finalized, apply_winner, finish_round,
}
use bina_blockchain_l.Node.Mining.Final.{apply_winner-spent}

lookup-retain_above :
    (height k : ℕ) (pending : List (ℕ × Candidates))
    → lookup k (retain_above height pending) ≡ (if ltb height k then lookup k pending else none)
lookup-retain_above height k [] = ground arith
lookup-retain_above height k ((j, c) ∷ pending) =
    let rest = lookup-retain_above height k pending in
    elim (Bool-cases (same k j)) [
      | inl here ↦
          let equal = same→eq k j here in
          elim (Bool-cases (ltb height j)) [
            | inl kept ↦ rw (kept, equal) (rw (kept, same_refl j) refl)
            | inr dropped ↦
                rw (dropped, equal) (lookup-retain_above height j pending ∙ rw dropped refl)
          ]
      | inr other ↦ elim (Bool-cases (ltb height j)) [
        | inl kept ↦ rw (kept, other) rest
        | inr dropped ↦ rw (dropped, other) rest
      ]
    ]

-- Candidates above a height survive `retain`, the others do not.
pub candidates_at-retain_above :
    (height k : ℕ) (pending : List (ℕ × Candidates))
    → candidates_at k (retain_above height pending)
      ≡ (if ltb height k then candidates_at k pending else [])
unfolding candidates_at
candidates_at-retain_above height k pending = elim (Bool-cases (ltb height k)) [
  | inl above ↦ rw (lookup-retain_above height k pending, above, candidates_at) refl
  | inr below ↦ rw (lookup-retain_above height k pending, below, candidates_at) refl
]

-- A rollback keeps every pending claim above the fork point, though it was checked on a tip that is no
-- longer the node's.
pub roll_back-candidates :
    (x : External) (j : Json) (disk : Disk) (n : Chain) (b : Rollback) (k : ℕ)
    → b.fork_point < k
    → candidates_at k (roll_back x j disk n b).replica.state.pending_claims
      ≡ candidates_at k n.replica.state.pending_claims
unfolding roll_back
roll_back-candidates x j disk n b k above =
    candidates_at-retain_above b.fork_point k n.replica.state.pending_claims
    ∙ rw (lt→ltb b.fork_point k above) refl

consume-member :
    (spent : NullifierSet) (r : RandomnessOutput)
    → is_ok (consume spent r).0 ≡ true
    → member r.nullifier (consume spent r).1 ≡ true
unfolding consume mark_spent
consume-member spent r h =
    let inserted : member r.nullifier (set_insert r.nullifier spent) ≡ true =
      rw (member-set_insert r.nullifier r.nullifier spent, same_refl r.nullifier) refl in
    elim (Bool-cases (member r.nullifier spent)) [
      | inl known ↦ rw known (rw known at inserted)
      | inr fresh ↦ rw fresh (rw fresh at inserted)
    ]

-- The block that a round made final has spent its randomness.
apply_winner-spends :
    (log_delta : ℕ → ℕ → ℤ) (x : External) (io : Bool) (p : Replica) (rd : Round) (w : PendingClaim)
    (f : Finalized)
    → apply_winner log_delta x io p rd w ≡ ok f
    → member
        (from_block x rd.height (block_hash x w.claim) w.claim.header.bitcoin_seed_hash).nullifier
        f.replica.state.nullifiers
      ≡ true
unfolding apply_winner
apply_winner-spends log_delta x io p rd w f h =
    let rand = from_block x rd.height (block_hash x w.claim) w.claim.header.bitcoin_seed_hash in
    let (_, k1, r1) =
      >>=-eq-ok (ensure (is_ok (consume p.state.nullifiers rand).0) nullifier_collision) _ h in
    let made = ok_injective _ f r1 in
    let after : (consume p.state.nullifiers rand).1 ≡ f.replica.state.nullifiers =
      ap (λ (f : Finalized). f.replica.state.nullifiers) made in
    rw (← after) (consume-member p.state.nullifiers rand (ensure-ok _ _ k1))

accept_signed_claim-nullifiers :
    (x : External) (s : NodeState) (l : Ledger) (now : ℕ) (c : SignedBlockClaim)
    (proof : Option BtcCheckpointProof) (txs : List SignedTransaction)
    → (accept_signed_claim x s l now c proof txs).1.nullifiers ≡ s.nullifiers
accept_signed_claim-nullifiers x s l now c proof txs =
    elim (accept_signed_claim-cases x s l now c proof txs) [
      | inl (e, refused) ↦ rw refused refl
      | inr (passed, _, accepted) ↦ rw accepted refl
    ]

-- A rollback does not forget the randomness of the blocks it gives up: when a block was made final, the node rolled
-- back, and the same claim is submitted again and wins an election of the same height, the end of that
-- round panics, whatever the rollback went back to.
pub finish_round-panics :
    (log_delta : ℕ → ℕ → ℤ) (x : External) (io io' : Bool) (j : Json) (disk : Disk) (p : Replica)
    (rd rd' : Round) (w : PendingClaim) (f : Finalized) (st : BlockStore) (b : Rollback) (now : ℕ)
    → apply_winner log_delta x io p rd w ≡ ok f
    → rd'.height ≡ rd.height
    → let back = (roll_back x j disk (record { replica = f.replica; store = st }) b).replica in
      let again = record back {
        state =
            (accept_signed_claim x back.state back.ledger now w.claim w.btc_checkpoint
              w.transactions).1;
      } in
      select_winning_pending x
          (map (λ e. e.1) (candidates_at rd'.height again.state.pending_claims))
        ≡ some w
      → finish_round log_delta x io' again rd' ≡ err nullifier_collision
unfolding finish_round roll_back
finish_round-panics log_delta x io io' j disk p rd rd' w f st b now done same_height chosen =
    let back = (roll_back x j disk (record { replica = f.replica; store = st }) b).replica in
    let again = record back {
      state =
          (accept_signed_claim x back.state back.ledger now w.claim w.btc_checkpoint
            w.transactions).1;
    } in
    let kept : again.state.nullifiers ≡ f.replica.state.nullifiers =
      accept_signed_claim-nullifiers x back.state back.ledger now w.claim w.btc_checkpoint
        w.transactions in
    rw chosen (
      apply_winner-spent log_delta x io' again rd' w
        (rw (kept, same_height) (apply_winner-spends log_delta x io p rd w f done)))
