-- ===== src/Gossip.antt =====
-- The peer-to-peer messages of l1-chain/node/src/envelope.rs, their handling in
-- l1-chain/node/src/gossip.rs, and the handlers of l1-chain/node/src/main.rs that call it. A request to
-- a peer is a value in the list of those that were sent; its answer changes nothing.
pub mod Seen
pub mod Envelopes
pub mod Flow
pub mod Relays
pub mod Delivery
use bina_blockchain_l.Prelude.{
  ℕ, zero, suc, ◌+◌, ◌-◌, ◌*◌, ◌/◌, ◌%◌, ◌^◌, ◌≤◌, ◌<◌, min, max, ◌≡◌, refl, sym, ap, ◌∙◌, ◌≢◌, ◌↔◌,
  ◌⊎◌, inl, inr, Bool, true, false, not, ◌&&◌, ◌||◌, Option, none, some, List, [], ◌∷◌, ◌++◌, map,
  arith, dec_lt, ℕ_discrete, ltb, leb, ◌==◌, if◌then◌else◌, ltb→lt, ltb→le, lt→ltb, le→ltb, leb→le,
  le→leb, ==→eq, ==_refl, ==_ne, tests, Bool-cases, Option-cases, Bool-ext, length, take, drop,
  replicate, get_or, length-append, length-replicate, length-take, length-drop, take-append,
  drop-append, append_cancel, take_within, drop_within, All, All-append, all, filter, u64_mod,
  u64_max, saturating_add, checked_add, wrapping_add, saturating_sub, saturating_add_small,
  wrapping_add_small, Result, ok, err, ◌>>=◌, ◌>>◌, ensure, ok_or, is_ok, >>=-eq-ok, ok_injective,
  Result-cases, Bytes, Bytes-discrete, bytes_lt, bytes_lt_irrefl, bytes_lt_trans, bytes_lt_total,
  bytes_lt_asymm, le_bytes, of_le_bytes, length-le_bytes, of_le_bytes-le_bytes, codes,
  le_bytes_injective, Key, bytes_key, nat_key, same, same→eq, same_refl, same_ne, member,
  member-append, set_insert, set_remove, lookup, insert, erase, keys, lookup-insert, lookup-erase,
  member-keys-insert,
}
use bina_blockchain_l.External.{External}
use bina_blockchain_l.Transaction.{SignedTransaction, merkle_root}
use bina_blockchain_l.Claims.{
  SignedBlockClaim, ClaimError, block_hash, claim_message, work_bits, election_score,
}
use bina_blockchain_l.Claims as Claims
use bina_blockchain_l.Checkpoint.{BtcCheckpointProof, seed_hash}
use bina_blockchain_l.Ledger.{Ledger}
use bina_blockchain_l.Node.{NodeState}
use bina_blockchain_l.Node.Accept.{ClaimReject, accept_signed_claim, is_root}
use bina_blockchain_l.Node.RateLimit.{Buckets, allow}
use bina_blockchain_l.Node.Peers.{
  AddressClasses, SocketAddress, PeerList, add, all_peers, address_key,
}

abbrev pub message_tag : Bytes
message_tag = codes "BINA-P2P-MSG-v1"

abbrev pub message_max_age_secs : ℕ
message_max_age_secs = 30

abbrev pub default_p2p_ttl : ℕ
default_p2p_ttl = 8

pub record DerivedFields : Type 0 where
  pub header_hash : Bytes
  pub claim_digest : Bytes
  pub work_bits : ℕ
  pub election_score : Bytes

pub record BlockClaimEnvelope : Type 0 where
  pub network : Bytes
  pub message_id : Bytes
  pub sent_at_unix : ℕ
  pub ttl : ℕ
  pub claim : SignedBlockClaim
  pub btc_checkpoint : Option BtcCheckpointProof
  pub transactions : List SignedTransaction
  pub derived : DerivedFields

pub record PeerHelloEnvelope : Type 0 where
  pub network : Bytes
  pub version : ℕ
  pub best_height : ℕ
  pub best_hash : Bytes
  pub listen_addr : Bytes

pub data BinaMessage : Type 0 where
  block_claim : BlockClaimEnvelope → BinaMessage
  peer_hello : PeerHelloEnvelope → BinaMessage
  peer_list : List Bytes → BinaMessage
  ping : ℕ → ℕ → BinaMessage

pub data EnvelopeError : Type 0 where
  bad_claim : ClaimError → EnvelopeError
  derived_mismatch merkle_mismatch : EnvelopeError

-- The conversion of the operator `?`.
abbrev pub from_claim_error : Result ClaimError (Unit {0}) → Result EnvelopeError (Unit {0})
from_claim_error (ok u) = ok u
from_claim_error (err e) = err (bad_claim e)

-- `SeenMessages`; the set is a list without repetition.
pub record SeenMessages : Type 0 where
  pub seen : List Bytes
  pub max_size : ℕ

pub record Gossip : Type 0 where
  pub peers : PeerList
  pub seen : SeenMessages
  pub network : Bytes

-- What the standard library decides: the order in which a `HashSet` is walked, the classes of
-- addresses, and the text of an address.
pub record Runtime : Type 0 where
  pub set_order : List Bytes → List Bytes
  pub classes : AddressClasses
  pub parse_address : Bytes → Option SocketAddress

abbrev pub remove_each : List Bytes → List Bytes → List Bytes
remove_each [] seen = seen
remove_each (id ∷ ids) seen = remove_each ids (set_remove id seen)

-- A full set loses half of its bound, whichever come first in its order.
unfoldable pub make_room : Runtime → SeenMessages → List Bytes
make_room rt m =
    if leb m.max_size (length m.seen)
    then remove_each (take (m.max_size / 2) (rt.set_order m.seen)) m.seen
    else m.seen

-- `SeenMessages::mark_seen`: whether the identifier is new.
unfoldable pub mark_seen : Runtime → SeenMessages → Bytes → Bool × SeenMessages
unfolding make_room
mark_seen rt m id =
    if member id m.seen
    then (false, m)
    else (true, record m { seen = set_insert id (make_room rt m) })

-- The derived equality of `DerivedFields`.
abbrev pub same_derived : DerivedFields → DerivedFields → Bool
same_derived a b =
    same a.header_hash b.header_hash
    && (same a.claim_digest b.claim_digest
        && ((a.work_bits == b.work_bits) && same a.election_score b.election_score))

module _ (x : External) where
  -- `DerivedFields::from_claim`
  unfoldable pub derived_from_claim : SignedBlockClaim → DerivedFields
  derived_from_claim c = record {
    header_hash = x.hex_encode (block_hash x c);
    claim_digest = x.hex_encode (claim_message x c.header);
    work_bits = Claims.work_bits x c;
    election_score = x.hex_encode (Claims.election_score x c.header);
  }

  checkpoint_bytes : Option BtcCheckpointProof → Bytes
  checkpoint_bytes none = []
  checkpoint_bytes (some proof) = seed_hash x proof

  unfoldable pub message_id :
      Bytes → ℕ → SignedBlockClaim → DerivedFields → Option BtcCheckpointProof → Bytes
  unfolding checkpoint_bytes
  message_id network sent c d proof = x.hex_encode (
      x.blake3 (
        message_tag
        ++ (network
            ++ (le_bytes 8 sent
                ++ (d.header_hash
                    ++ (d.claim_digest
                        ++ (d.election_score ++ (c.signature ++ checkpoint_bytes proof))))))))

  -- `BlockClaimEnvelope::from_claim`, at the clock's value.
  unfoldable pub from_claim :
      ℕ
      → Bytes
      → ℕ
      → SignedBlockClaim
      → Option BtcCheckpointProof
      → List SignedTransaction
      → BlockClaimEnvelope
  unfolding derived_from_claim message_id
  from_claim now network ttl c proof txs = record {
    network = network;
    message_id = message_id network now c (derived_from_claim c) proof;
    sent_at_unix = now;
    ttl = ttl;
    claim = c;
    btc_checkpoint = proof;
    transactions = txs;
    derived = derived_from_claim c;
  }

  -- `BlockClaimEnvelope::verify`
  unfoldable pub verify_envelope : BlockClaimEnvelope → Result EnvelopeError (Unit {0})
  unfolding derived_from_claim
  verify_envelope e = do
    from_claim_error (Claims.verify x e.claim)
    ensure (same_derived e.derived (derived_from_claim e.claim)) derived_mismatch
    ensure (is_root (merkle_root x e.transactions) e.claim.header.merkle_root) merkle_mismatch

-- A `for` loop of `peers.add` over the addresses that parse.
unfoldable pub add_parsed : Runtime → PeerList → List Bytes → PeerList
add_parsed rt l [] = l
add_parsed rt l (text ∷ texts) =
    add_parsed rt (elim (rt.parse_address text) [ none ↦ l | some a ↦ (add rt.classes l a).1 ])
      texts

-- The branch of `handle_incoming` for a block claim, at the clock's value in seconds.
unfoldable pub incoming_claim :
    Runtime → External → Gossip → ℕ → BlockClaimEnvelope → Option BlockClaimEnvelope × Gossip
incoming_claim rt x g now e =
    if not (same e.network g.network)
    then (none, g)
    else if (e.ttl == 0) || ltb (saturating_add e.sent_at_unix message_max_age_secs) now
    then (none, g)
    else let (fresh, seen) = mark_seen rt g.seen e.message_id in
      if not fresh then (none, record g { seen = seen }) else (
        elim (verify_envelope x e) [
          | err why ↦ none
          | ok u ↦ some (record e { ttl = saturating_sub e.ttl 1 })
        ],
        record g { seen = seen },
      )

-- `Gossip::handle_incoming`
unfoldable pub handle_incoming :
    Runtime → External → Gossip → ℕ → BinaMessage → Option BinaMessage × Gossip
unfolding incoming_claim
handle_incoming rt x g now (block_claim e) =
    let (out, g') = incoming_claim rt x g now e in
    (elim out [ none ↦ none | some e' ↦ some (block_claim e') ], g')
handle_incoming rt x g now (peer_hello h) =
    if not (same h.network g.network)
    then (none, g)
    else (some (peer_hello h), record g { peers = add_parsed rt g.peers (h.listen_addr ∷ []) })
handle_incoming rt x g now (peer_list peers) =
    (some (peer_list peers), record g { peers = add_parsed rt g.peers peers })
handle_incoming rt x g now (ping nonce height) = (some (ping nonce height), g)

-- `broadcast_message`: every peer but one is sent the message.
pub record Sent : Type 0 where
  pub receiver : SocketAddress
  pub message : BinaMessage

abbrev pub is_address : Option SocketAddress → SocketAddress → Bool
is_address none a = false
is_address (some b) a = same (address_key a) (address_key b)

unfoldable pub broadcast_message : Gossip → BinaMessage → Option SocketAddress → List Sent
broadcast_message g m except =
    map (λ a. record { receiver = a; message = m })
      (filter (λ a. not (is_address except a)) (all_peers g.peers))

-- `broadcast_claim`
unfoldable pub broadcast_claim : Runtime → Gossip → BlockClaimEnvelope → List Sent × Gossip
unfolding broadcast_message
broadcast_claim rt g e =
    let g' = record g { seen = (mark_seen rt g.seen e.message_id).1 } in
    (broadcast_message g' (block_claim e) none, g')

unfoldable pub relay_message : Gossip → BinaMessage → SocketAddress → List Sent
unfolding broadcast_message
relay_message g m except = broadcast_message g m (some except)

-- What a handler leaves: the gossip and consensus state, and the messages it sends.
pub record Handled : Type 0 where
  pub gossip : Gossip
  pub state : NodeState
  pub sent : List Sent

-- `handle_p2p_message`; the clock is read in seconds and in milliseconds.
unfoldable pub handle_p2p_message :
    Runtime → External → Gossip → NodeState → Ledger → ℕ → ℕ → SocketAddress → BinaMessage → Handled
unfolding handle_incoming relay_message
handle_p2p_message rt x g s l now now_ms peer m =
    let (out, g') = handle_incoming rt x g now m in
    elim out [
      | some (block_claim e) ↦
          let (answer, s') =
            accept_signed_claim x s l now_ms e.claim e.btc_checkpoint e.transactions in
          record {
            gossip = g';
            state = s';
            sent =
                if is_ok answer && ltb 0 e.ttl then relay_message g' (block_claim e) peer else [];
          }
      | other ↦ record { gossip = g'; state = s; sent = [] }
    ]

abbrev pub max_body_bytes : ℕ
max_body_bytes = 65536

-- The route `/p2p/message` to the handler: a body over the bound is refused, and then a sender whose budget of
-- requests is used up. `body_length` is the length of a message's JSON text, and `instant` the
-- monotonic clock in milliseconds.
unfoldable pub route_p2p_message :
    (BinaMessage → ℕ)
    → Runtime
    → External
    → Buckets
    → ℕ
    → Gossip
    → NodeState
    → Ledger
    → ℕ
    → ℕ
    → SocketAddress
    → BinaMessage
    → Buckets × Handled
unfolding handle_p2p_message
route_p2p_message body_length rt x buckets instant g s l now now_ms peer m =
    let refused : Handled = record { gossip = g; state = s; sent = [] } in
    if ltb max_body_bytes (body_length m) then (buckets, refused) else (
      (allow buckets instant peer.ip).1,
      if (allow buckets instant peer.ip).0
          then handle_p2p_message rt x g s l now now_ms peer m
          else refused,
    )

-- The effect of `handle_submit_claim`: a claim that a miner submits is broadcast once it is accepted.
unfoldable pub handle_submit_claim :
    Runtime
    → External
    → Gossip
    → NodeState
    → Ledger
    → ℕ
    → ℕ
    → SignedBlockClaim
    → Option BtcCheckpointProof
    → List SignedTransaction
    → Result ClaimReject (Unit {0}) × Handled
unfolding broadcast_claim
handle_submit_claim rt x g s l now now_ms c proof txs =
    let (answer, s') = accept_signed_claim x s l now_ms c proof txs in
    elim answer [
      | err why ↦ (err why, record { gossip = g; state = s'; sent = [] })
      | ok u ↦
          let (sent, g') =
            broadcast_claim rt g (from_claim x now g.network default_p2p_ttl c proof txs) in
          (ok tt, record { gossip = g'; state = s'; sent = sent })
    ]

-- `handle_peer_hello`: whether the answer is 200.
unfoldable pub handle_peer_hello : Runtime → Gossip → PeerHelloEnvelope → Bool × Gossip
handle_peer_hello rt g h =
    if not (same h.network g.network) then (false, g) else elim (rt.parse_address h.listen_addr) [
      | none ↦ (false, g)
      | some a ↦ (true, record g { peers = (add rt.classes g.peers a).1 })
    ]
