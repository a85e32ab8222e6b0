-- ===== src/Gossip/Envelopes.antt =====
-- What an envelope promises: `BlockClaimEnvelope` of l1-chain/node/src/envelope.rs.
use bina_blockchain_l.Prelude.{
  ℕ, ◌≡◌, refl, ap, ◌↔◌, Bool, true, false, ◌&&◌, Option, none, some, List, ◌==◌, ==→eq, ==_refl,
  Result, ok, err, ensure, >>=-eq-ok, ensure-ok, Bytes, bytes_key, nat_key, same, same→eq,
  same_refl,
}
use bina_blockchain_l.External.{External}
use bina_blockchain_l.Transaction.{SignedTransaction, merkle_root}
use bina_blockchain_l.Claims.{SignedBlockClaim}
use bina_blockchain_l.Claims as Claims
use bina_blockchain_l.Checkpoint.{BtcCheckpointProof}
use bina_blockchain_l.Node.Accept.{is_root}
use bina_blockchain_l.Gossip.{
  DerivedFields, BlockClaimEnvelope, from_claim_error, same_derived, derived_from_claim, from_claim,
  verify_envelope,
}

pub &&-true : (a b : Bool) → (a && b) ≡ true → (a ≡ true) × (b ≡ true)
&&-true true b h = (refl, h)
&&-true false b h = cc

pub is_root-true : (r : Option Bytes) (root : Bytes) → is_root r root ≡ true → r ≡ some root
is_root-true none root h = cc
is_root-true (some r) root h = ap some (same→eq r root h)

from_claim_error-ok :
    (r : Result Claims.ClaimError (Unit {0})) {u : Unit {0}} → from_claim_error r ≡ ok u → r ≡ ok tt
from_claim_error-ok (ok u) h = refl
from_claim_error-ok (err e) h = cc

same_derived_refl : (d : DerivedFields) → same_derived d d ≡ true
same_derived_refl d =
    rw
      (
        same_refl d.header_hash,
        same_refl d.claim_digest,
        ==_refl d.work_bits,
        same_refl d.election_score,
      )
      refl

same_derived→eq : (a b : DerivedFields) → same_derived a b ≡ true → a ≡ b
same_derived→eq a b h =
    let (e1, r1) = &&-true (same a.header_hash b.header_hash) _ h in
    let (e2, r2) = &&-true (same a.claim_digest b.claim_digest) _ r1 in
    let (e3, e4) = &&-true (a.work_bits == b.work_bits) _ r2 in
    rw
      (
        same→eq a.header_hash b.header_hash e1,
        same→eq a.claim_digest b.claim_digest e2,
        ==→eq a.work_bits b.work_bits e3,
        same→eq a.election_score b.election_score e4,
      )
      refl

-- An envelope that passes verification carries a valid claim, the fields derived from it, and the
-- transactions whose Merkle root it signs.
pub verify_envelope-IsGenuine :
    (x : External) (e : BlockClaimEnvelope)
    → verify_envelope x e ≡ ok tt
    → (Claims.verify x e.claim ≡ ok tt)
      × (e.derived ≡ derived_from_claim x e.claim)
      × (merkle_root x e.transactions ≡ some e.claim.header.merkle_root)
unfolding verify_envelope
verify_envelope-IsGenuine x e h =
    let (u, claim_ok, r1) = >>=-eq-ok _ _ h in
    let (_, k1, r2) =
      >>=-eq-ok (ensure (same_derived e.derived (derived_from_claim x e.claim)) _) _ r1 in
    (
      from_claim_error-ok _ claim_ok,
      same_derived→eq _ _ (ensure-ok _ _ k1),
      is_root-true _ _ (ensure-ok _ _ r2),
    )

-- The envelope of a claim passes verification exactly when the claim does and its Merkle root is that of
-- the transactions that travel with it, whatever the network, the clock and the hop limit.
pub verify_envelope-from_claim :
    (x : External) (now ttl : ℕ) (network : Bytes) (c : SignedBlockClaim)
    (proof : Option BtcCheckpointProof) (txs : List SignedTransaction)
    → (verify_envelope x (from_claim x now network ttl c proof txs) ≡ ok tt)
      ↔ ((Claims.verify x c ≡ ok tt) × (merkle_root x txs ≡ some c.header.merkle_root))
unfolding verify_envelope from_claim
verify_envelope-from_claim x now ttl network c proof txs =
    let e = from_claim x now network ttl c proof txs in
    (
      λ h. let (claim_ok, _, root) = verify_envelope-IsGenuine x e h in (claim_ok, root),
      λ h.
          rw (h.0, h.1, same_derived_refl (derived_from_claim x c), same_refl c.header.merkle_root)
            refl,
    )
