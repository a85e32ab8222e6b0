-- ===== src/Gossip/Delivery.antt =====
-- The delivery of a block claim to a node: `BlockClaimEnvelope::from_claim` of
-- l1-chain/node/src/envelope.rs and `handle_p2p_message` of l1-chain/node/src/main.rs.
use bina_blockchain_l.Prelude.{
  ℕ, ◌-◌, ◌≤◌, ◌≡◌, refl, inl, inr, true, false, not, ◌||◌, Option, some, List, map, arith, ltb,
  leb, ◌==◌, le→ltb, length, filter, saturating_add, Result, ok, err, ensure, >>=-eq-ok, ensure-ok,
  bytes_key, nat_key, same_refl, member,
}
use bina_blockchain_l.External.{External}
use bina_blockchain_l.Transaction.{SignedTransaction, merkle_root, max_txs_per_block}
use bina_blockchain_l.Claims.{SignedBlockClaim}
use bina_blockchain_l.Claims as Claims
use bina_blockchain_l.Checkpoint.{BtcCheckpointProof}
use bina_blockchain_l.Ledger.{Ledger}
use bina_blockchain_l.Node.{NodeState}
use bina_blockchain_l.Node.Accept.{accept_signed_claim, check_claim, invalid_claim, is_root}
use bina_blockchain_l.Node.Accept.Admission.{accept_signed_claim-outcome}
use bina_blockchain_l.Node.RateLimit.{Buckets, allow}
use bina_blockchain_l.Node.Peers.{SocketAddress, all_peers}
use bina_blockchain_l.Gossip.{
  BinaMessage, block_claim, max_body_bytes, route_p2p_message, Gossip, Runtime, from_claim,
  message_max_age_secs, handle_p2p_message, relay_message, broadcast_message, is_address,
}
use bina_blockchain_l.Gossip.Envelopes.{verify_envelope-from_claim, is_root-true}
use bina_blockchain_l.Gossip.Flow.{
  is_current, stepped, incoming_claim-passes, incoming_claim-peers, handle_claim-passed,
}

pub claim_verified :
    (r : Result Claims.ClaimError (Unit {0})) {u : Unit {0}}
    → elim r [ ok u ↦ ok u | err e ↦ err (invalid_claim e) ] ≡ ok u
    → r ≡ ok tt
claim_verified (ok u) h = refl
claim_verified (err e) h = cc

-- An accepted claim verifies, and its Merkle root is that of its transactions.
accept_signed_claim-genuine :
    (x : External) (s : NodeState) (l : Ledger) (now : ℕ) (c : SignedBlockClaim)
    (proof : Option BtcCheckpointProof) (txs : List SignedTransaction)
    → (accept_signed_claim x s l now c proof txs).0 ≡ ok tt
    → (Claims.verify x c ≡ ok tt) × (merkle_root x txs ≡ some c.header.merkle_root)
unfolding check_claim
accept_signed_claim-genuine x s l now c proof txs h =
    elim (accept_signed_claim-outcome x s l now c proof txs) [
      | inl (e, refused, _) ↦ cc
      | inr (_, passed, _, _) ↦
          let (_, k1, r1) = >>=-eq-ok _ _ passed in
          let (_, k2, r2) = >>=-eq-ok (ensure (leb (length txs) max_txs_per_block) _) _ r1 in
          let (_, k3, r3) =
            >>=-eq-ok (ensure (is_root (merkle_root x txs) c.header.merkle_root) _) _ r2 in
          (claim_verified _ k1, is_root-true _ _ (ensure-ok _ _ k3))
    ]

young_lem :
    (ttl sent now : ℕ)
    → now ≤ saturating_add sent message_max_age_secs
    → 1 ≤ ttl
    → not ((ttl == 0) || ltb (saturating_add sent message_max_age_secs) now) ≡ true
young_lem ttl sent now h hops = ground arith

-- The handler delivers a claim that the node's rules accept.
pub handle_p2p_message-delivers :
    (rt : Runtime) (x : External) (g : Gossip) (s : NodeState) (l : Ledger)
    (sent now now_ms ttl : ℕ) (peer : SocketAddress) (c : SignedBlockClaim)
    (proof : Option BtcCheckpointProof) (txs : List SignedTransaction)
    → let e = from_claim x sent g.network ttl c proof txs in
      now ≤ saturating_add sent message_max_age_secs
      → 1 ≤ ttl
      → member e.message_id g.seen.seen ≡ false
      → (accept_signed_claim x s l now_ms c proof txs).0 ≡ ok tt
      → let after = handle_p2p_message rt x g s l now now_ms peer (block_claim e) in
        (after.state ≡ (accept_signed_claim x s l now_ms c proof txs).1)
        × ((2 ≤ ttl)
            → after.sent
              ≡ map
                  (λ a. record { receiver = a; message = block_claim (record e { ttl = ttl - 1 }) })
                  (filter (λ a. not (is_address (some peer) a)) (all_peers g.peers)))
unfolding from_claim relay_message broadcast_message
handle_p2p_message-delivers rt x g s l sent now now_ms ttl peer c proof txs young hops fresh
      accepted =
    let e = from_claim x sent g.network ttl c proof txs in
    let genuine =
      (verify_envelope-from_claim x sent ttl g.network c proof txs).1
        (accept_signed_claim-genuine x s l now_ms c proof txs accepted) in
    let current : is_current g now e ≡ true =
      rw (same_refl g.network) (young_lem ttl sent now young hops) in
    let passed =
      (incoming_claim-passes rt x g now e (stepped e)).1 (current, fresh, genuine, refl) in
    let handled = handle_claim-passed rt x g s l now now_ms peer e (stepped e) passed in
    (
      rw handled refl,
      λ many.
          let more : ltb 0 (ttl - 1) ≡ true = ground arith in
          rw handled (rw (accepted, more, incoming_claim-peers rt x g now e) refl),
    )

-- A claim that a node's rules accept is delivered if the JSON text of its envelope is at most 64 KiB long and the
-- sender's budget of requests is not used up: the envelope made of it reaches the consensus state of every
-- node of the same network that has not seen it and whose clock is at most thirty seconds ahead, just as
-- if the claim had been submitted there; and with a hop limit of at least two it is sent on to every known
-- peer but the one it came from.
pub route_p2p_message-delivers :
    (body_length : BinaMessage → ℕ) (rt : Runtime) (x : External) (buckets : Buckets) (instant : ℕ)
    (g : Gossip) (s : NodeState) (l : Ledger) (sent now now_ms ttl : ℕ) (peer : SocketAddress)
    (c : SignedBlockClaim) (proof : Option BtcCheckpointProof) (txs : List SignedTransaction)
    → let e = from_claim x sent g.network ttl c proof txs in
      now ≤ saturating_add sent message_max_age_secs
      → 1 ≤ ttl
      → member e.message_id g.seen.seen ≡ false
      → (accept_signed_claim x s l now_ms c proof txs).0 ≡ ok tt
      → body_length (block_claim e) ≤ max_body_bytes
      → (allow buckets instant peer.ip).0 ≡ true
      → let after =
          (route_p2p_message body_length rt x buckets instant g s l now now_ms peer
            (block_claim e)).1 in
        (after.state ≡ (accept_signed_claim x s l now_ms c proof txs).1)
        × ((2 ≤ ttl)
            → after.sent
              ≡ map
                  (λ a. record { receiver = a; message = block_claim (record e { ttl = ttl - 1 }) })
                  (filter (λ a. not (is_address (some peer) a)) (all_peers g.peers)))
unfolding route_p2p_message
route_p2p_message-delivers body_length rt x buckets instant g s l sent now now_ms ttl peer c proof
      txs young hops fresh accepted fits granted =
    let e = from_claim x sent g.network ttl c proof txs in
    rw (le→ltb max_body_bytes (body_length (block_claim e)) fits, granted)
      (handle_p2p_message-delivers rt x g s l sent now now_ms ttl peer c proof txs young hops fresh
        accepted)
