-- ===== src/Node/Accept/Admission.antt =====
-- What `accept_signed_claim` of l1-chain/node/src/main.rs does to the node's state.
use bina_blockchain_l.Prelude.{
  ℕ, ◌≡◌, refl, ◌⊎◌, inl, inr, Bool, true, false, Option, some, List, arith, Bool-cases, ok, err,
  Result-cases, bytes_key, nat_key, same_refl, member, lookup, insert, keys, lookup-insert,
  member-keys-insert,
}
use bina_blockchain_l.External.{External}
use bina_blockchain_l.Transaction.{SignedTransaction}
use bina_blockchain_l.Claims.{SignedBlockClaim}
use bina_blockchain_l.Checkpoint.{BtcCheckpointProof}
use bina_blockchain_l.Ledger.{Ledger}
use bina_blockchain_l.Node.{NodeState, PendingClaim, Candidates, candidates_at}
use bina_blockchain_l.Node.Accept.{
  ClaimReject, already_submitted, check_claim, admit, accept_signed_claim,
}

pub candidates_at-insert :
    (height : ℕ) (cs : Candidates) (pending : List (ℕ × Candidates))
    → candidates_at height (insert height cs pending) ≡ cs
unfolding candidates_at
candidates_at-insert height cs pending =
    rw (lookup-insert height height cs pending, same_refl height, candidates_at) refl

-- The state with one more candidate.
abbrev pub admitted :
    External
    → NodeState
    → SignedBlockClaim
    → Option BtcCheckpointProof
    → List SignedTransaction
    → NodeState
admitted x s c proof txs =
    let claims = candidates_at c.header.height s.pending_claims in
    record s {
      pending_claims =
          insert c.header.height
            (insert (x.hex_encode c.header.miner_address)
              (record { claim = c; btc_checkpoint = proof; transactions = txs }) claims)
            s.pending_claims;
    }

abbrev pub is_known : External → NodeState → SignedBlockClaim → Bool
is_known x s c =
    member (x.hex_encode c.header.miner_address)
      (keys (candidates_at c.header.height s.pending_claims))

pub accept_signed_claim-cases :
    (x : External) (s : NodeState) (l : Ledger) (now : ℕ) (c : SignedBlockClaim)
    (proof : Option BtcCheckpointProof) (txs : List SignedTransaction)
    → ((e : ClaimReject) × (accept_signed_claim x s l now c proof txs ≡ (err e, s)))
      ⊎ ((check_claim x s l now c proof txs ≡ ok tt)
          × (is_known x s c ≡ false)
          × (accept_signed_claim x s l now c proof txs ≡ (ok tt, admitted x s c proof txs)))
unfolding accept_signed_claim admit
accept_signed_claim-cases x s l now c proof txs =
    elim (Result-cases (check_claim x s l now c proof txs)) [
      | inl (e, refused) ↦ inl (e, rw (refused, accept_signed_claim) refl)
      | inr (u, passed) ↦ elim (Bool-cases (is_known x s c)) [
        | inl known ↦
            inl (already_submitted, rw (passed, accept_signed_claim) (rw (known, admit) refl))
        | inr fresh ↦ inr (passed, fresh, rw (passed, accept_signed_claim) (rw (fresh, admit) refl))
      ]
    ]

-- A known miner's claim is refused.
accept_signed_claim-known :
    (x : External) (s : NodeState) (l : Ledger) (now : ℕ) (c : SignedBlockClaim)
    (proof : Option BtcCheckpointProof) (txs : List SignedTransaction)
    → is_known x s c ≡ true
    → (e : ClaimReject) × (accept_signed_claim x s l now c proof txs ≡ (err e, s))
accept_signed_claim-known x s l now c proof txs known =
    elim (accept_signed_claim-cases x s l now c proof txs) [
      | inl refused ↦ refused
      | inr (_, fresh, _) ↦ ground arith
    ]

-- A claim that is not accepted leaves the whole state as it was. An accepted claim passed every check,
-- was the first of its miner at its height, and is found among the candidates with its transactions.
pub accept_signed_claim-outcome :
    (x : External) (s : NodeState) (l : Ledger) (now : ℕ) (c : SignedBlockClaim)
    (proof : Option BtcCheckpointProof) (txs : List SignedTransaction)
    → let miner = x.hex_encode c.header.miner_address in
      let (r, s') = accept_signed_claim x s l now c proof txs in
      ((e : ClaimReject) × (r ≡ err e) × (s' ≡ s))
      ⊎ ((r ≡ ok tt)
          × (check_claim x s l now c proof txs ≡ ok tt)
          × (member miner (keys (candidates_at c.header.height s.pending_claims)) ≡ false)
          × (lookup miner (candidates_at c.header.height s'.pending_claims)
              ≡ some (record { claim = c; btc_checkpoint = proof; transactions = txs })))
accept_signed_claim-outcome x s l now c proof txs =
    let miner = x.hex_encode c.header.miner_address in
    let before = candidates_at c.header.height s.pending_claims in
    let here : PendingClaim = record { claim = c; btc_checkpoint = proof; transactions = txs } in
    elim (accept_signed_claim-cases x s l now c proof txs) [
      | inl (e, refused) ↦ inl (e, rw refused refl, rw refused refl)
      | inr (passed, fresh, accepted) ↦ inr (
        rw accepted refl,
        passed,
        fresh,
        rw
            (
              accepted,
              candidates_at-insert c.header.height (insert miner here before) s.pending_claims,
            )
            (rw (lookup-insert miner miner here before, same_refl miner) refl),
      )
    ]

-- The first claim stands: in the state that an accepted claim leaves, no claim of the same miner at
-- the same height is accepted, at whatever time, whatever it holds and whatever the ledger.
pub accept_signed_claim-once :
    (x : External) (s : NodeState) (l l' : Ledger) (now now' : ℕ) (c c' : SignedBlockClaim)
    (proof proof' : Option BtcCheckpointProof) (txs txs' : List SignedTransaction)
    → (accept_signed_claim x s l now c proof txs).0 ≡ ok tt
    → c'.header.height ≡ c.header.height
    → c'.header.miner_address ≡ c.header.miner_address
    → let s' = (accept_signed_claim x s l now c proof txs).1 in
      (e : ClaimReject) × (accept_signed_claim x s' l' now' c' proof' txs' ≡ (err e, s'))
accept_signed_claim-once x s l l' now now' c c' proof proof' txs txs' h same_height same_miner =
    let miner = x.hex_encode c.header.miner_address in
    let before = candidates_at c.header.height s.pending_claims in
    let here : PendingClaim = record { claim = c; btc_checkpoint = proof; transactions = txs } in
    let known : is_known x (admitted x s c proof txs) c' ≡ true =
      rw
        (
          same_height,
          same_miner,
          candidates_at-insert c.header.height (insert miner here before) s.pending_claims,
        )
        (rw (member-keys-insert miner miner here before, same_refl miner) refl) in
    elim (accept_signed_claim-cases x s l now c proof txs) [
      | inl (e, refused) ↦ ground (arith, refused)
      | inr (passed, fresh, accepted) ↦
          rw accepted
            (accept_signed_claim-known x (admitted x s c proof txs) l' now' c' proof' txs' known)
    ]
