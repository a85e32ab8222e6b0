-- ===== src/Tests/Relay.antt =====
-- A block claim on its way between nodes.
use bina_blockchain_l.Prelude.{
  ℕ, ◌+◌, ◌-◌, ◌*◌, ◌≤◌, ◌<◌, ◌≡◌, refl, ◌↔◌, true, false, not, none, some, [], ◌∷◌, map, arith,
  length, filter, ok, err, Bytes, Bytes-discrete, codes, bytes_key, nat_key, member,
}
use mathlib.Core.List.{Memᴰ}
use bina_blockchain_l.Claims as Claims
use bina_blockchain_l.Node.Accept.{accept_signed_claim}
use bina_blockchain_l.Node.Peers.{SocketAddress, all_peers, address_key}
use bina_blockchain_l.Gossip.{
  BinaMessage, route_p2p_message, BlockClaimEnvelope, block_claim, Gossip, Runtime, from_claim,
  verify_envelope, incoming_claim, handle_p2p_message, is_address, bad_claim,
}
use bina_blockchain_l.Gossip.Flow.{
  is_current, stepped, incoming_claim-passes, handle_p2p_message-shadowed,
}
use bina_blockchain_l.Gossip.Relays.{relay, origin, hop, Relays-bounded}
use bina_blockchain_l.Gossip.Delivery.{handle_p2p_message-delivers, route_p2p_message-delivers}
use bina_blockchain_l.Block.{meets_difficulty, header_hash, top_bits_zero, timestamp_is_valid}
use bina_blockchain_l.Checkpoint.{is_checkpoint_height}
use bina_blockchain_l.Transaction.{merkle_root, root_of, verify_transaction, from_hex, tx_id}
use bina_blockchain_l.Claims.{sign, block_hash}
use bina_blockchain_l.Ledger.Maps.{amount_of}
use bina_blockchain_l.Ledger.StateRoot.{read, state_root_with_overlay, compute_state_root}
use bina_blockchain_l.Ledger.Execution.{simulate_block_execution, simulate_loop, simulate_step}
use bina_blockchain_l.Node.{candidates_at}
use bina_blockchain_l.Node.RateLimit.{allow, allow_entry}
use bina_blockchain_l.Node.Accept.{
  admit, check_structure, check_checkpoint, check_claim, check_execution,
}
use bina_blockchain_l.Crypto.{
  CryptoError, key_from_bytes, key_to_bytes, signature_to_bytes, keypair_sign, key_address,
  key_verify, signature_from_bytes,
}
use bina_blockchain_l.Tests.Fixtures.{
  toy, toy_state, toy_ledger, toy_claim, signed_payment, claim_accepted, public_only, seed_peer,
}

abbrev net : Bytes
net = codes "net"

abbrev rt : Runtime
rt = record { set_order = λ ids. ids; classes = public_only; parse_address = λ s. none }

abbrev other_peer : SocketAddress
other_peer = record seed_peer { port = 9 }

abbrev gossip : Gossip
gossip = record {
  peers = record {
    peers = (address_key seed_peer, seed_peer) ∷ (address_key other_peer, other_peer) ∷ [];
    max_peers = 8;
    allow_loopback = false;
    allow_private = false;
  };
  seen = record { seen = []; max_size = 4 };
  network = net;
}

abbrev envelope : BlockClaimEnvelope
envelope = from_claim toy 100 net 8 toy_claim none []

-- The same identifier with a claim that nobody signed.
abbrev forged : BlockClaimEnvelope
forged = record envelope { claim = record toy_claim { public_key = [] } }

new_id : member envelope.message_id gossip.seen.seen ≡ false
new_id = refl

-- A claim with one transfer, of the same header.
paid_accepted :
    (accept_signed_claim toy toy_state toy_ledger 1000 toy_claim none (signed_payment ∷ [])).0
    ≡ ok tt
unfolding accept_signed_claim check_claim Claims.verify key_from_bytes key_address key_verify
    signature_from_bytes meets_difficulty header_hash top_bits_zero block_hash sign Bytes-discrete
    merkle_root root_of check_structure check_checkpoint timestamp_is_valid is_checkpoint_height
    check_execution simulate_block_execution simulate_loop read amount_of state_root_with_overlay
    compute_state_root admit candidates_at key_to_bytes signature_to_bytes keypair_sign
    verify_transaction from_hex tx_id simulate_step
paid_accepted = refl

abbrev paid : BlockClaimEnvelope
paid = from_claim toy 100 net 8 toy_claim none (signed_payment ∷ [])

-- A message is as long as the number of its transfers, times a thousand.
abbrev body_length : BinaMessage → ℕ
body_length (block_claim e) = 1000 + 1000 * length e.transactions
body_length m = 100

paid_fits : body_length (block_claim paid) ≤ 65536
unfolding from_claim
paid_fits = omega arith

is_granted : (allow [] 5 seed_peer.ip).0 ≡ true
unfolding allow allow_entry
is_granted = refl

route_p2p_message-delivers_example :
    let after =
      (route_p2p_message body_length rt toy [] 5 gossip toy_state toy_ledger 110 1000 seed_peer
        (block_claim paid)).1 in
    (after.state
      ≡ (accept_signed_claim toy toy_state toy_ledger 1000 toy_claim none (signed_payment ∷ [])).1)
    × ((2 ≤ 8)
        → after.sent
          ≡ map
              (λ a. record { receiver = a; message = block_claim (record paid { ttl = 8 - 1 }) })
              (filter (λ a. not (is_address (some seed_peer) a)) (all_peers gossip.peers)))
route_p2p_message-delivers_example =
    route_p2p_message-delivers body_length rt toy [] 5 gossip toy_state toy_ledger 100 110 1000 8
      seed_peer toy_claim none (signed_payment ∷ []) (omega arith) (omega arith) new_id
      paid_accepted paid_fits is_granted

forged_current : is_current gossip 110 forged ≡ true
unfolding from_claim Bytes-discrete
forged_current = refl

forged_bad : verify_envelope toy forged ≡ err (bad_claim (Claims.crypto CryptoError.key_length))
unfolding verify_envelope from_claim Claims.verify key_from_bytes Bytes-discrete
forged_bad = refl

handle_p2p_message-shadowed_example :
    let first =
      handle_p2p_message rt toy gossip toy_state toy_ledger 110 1000 seed_peer
        (block_claim forged) in
    let second =
      handle_p2p_message rt toy first.gossip first.state toy_ledger 111 2000 other_peer
        (block_claim envelope) in
    (second.state ≡ toy_state) × (first.sent ≡ []) × (second.sent ≡ [])
handle_p2p_message-shadowed_example =
    handle_p2p_message-shadowed rt toy gossip toy_state toy_ledger 110 111 1000 2000 seed_peer
      other_peer forged envelope _ forged_current forged_bad refl

incoming_claim-passes_example :
    ((incoming_claim rt toy gossip 110 envelope).0 ≡ some (stepped envelope)) ↔ (
      (is_current gossip 110 envelope ≡ true)
      × (member envelope.message_id gossip.seen.seen ≡ false)
      × (verify_envelope toy envelope ≡ ok tt)
      × (stepped envelope ≡ stepped envelope))
incoming_claim-passes_example = incoming_claim-passes rt toy gossip 110 envelope (stepped envelope)

delivered :
    let after =
      handle_p2p_message rt toy gossip toy_state toy_ledger 110 1000 seed_peer
        (block_claim envelope) in
    (after.state ≡ (accept_signed_claim toy toy_state toy_ledger 1000 toy_claim none []).1)
    × ((2 ≤ 8)
        → after.sent
          ≡ map
              (λ a. record {
                receiver = a;
                message = block_claim (record envelope { ttl = 8 - 1 });
              })
              (filter (λ a. not (is_address (some seed_peer) a)) (all_peers gossip.peers)))
delivered =
    handle_p2p_message-delivers rt toy gossip toy_state toy_ledger 100 110 1000 8 seed_peer
      toy_claim none [] (omega arith) (omega arith) new_id claim_accepted

sent_on :
    Memᴰ
      (record { receiver = other_peer; message = block_claim (record envelope { ttl = 7 }) })
      (handle_p2p_message rt toy gossip toy_state toy_ledger 110 1000 seed_peer
        (block_claim envelope)).sent
unfolding all_peers Bytes-discrete address_key
sent_on = rw (delivered.1 (omega arith)) (Memᴰ.head refl)

Relays-bounded_example :
    (7 + 1 ≡ 8)
    × ((stepped envelope) ≡ record envelope { ttl = 7 })
    × ((1 ≤ 1) → (1 < 8) × (verify_envelope toy envelope ≡ ok tt))
unfolding from_claim
Relays-bounded_example = Relays-bounded {rt = rt} {x = toy} {e = envelope} (
    hop origin (
      relay gossip toy_state toy_ledger 110 1000 seed_peer other_peer envelope (stepped envelope)
        sent_on))
