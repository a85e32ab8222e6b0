-- ===== src/Gossip/Flow.antt =====
-- The way of a block claim through the network: `handle_incoming` of l1-chain/node/src/gossip.rs and
-- `handle_p2p_message` of l1-chain/node/src/main.rs.
use bina_blockchain_l.Prelude.{
  ℕ, ◌≡◌, refl, sym, ap, ◌∙◌, ◌↔◌, inl, inr, Bool, true, false, not, ◌&&◌, ◌||◌, Option, none, some,
  [], arith, ltb, ◌==◌, if◌then◌else◌, Bool-cases, Option-cases, saturating_add, saturating_sub,
  Result, ok, err, is_ok, bytes_key, nat_key, same, member,
}
use bina_blockchain_l.External.{External}
use bina_blockchain_l.Ledger.{Ledger}
use bina_blockchain_l.Node.{NodeState}
use bina_blockchain_l.Node.Accept.{accept_signed_claim}
use bina_blockchain_l.Node.Peers.{SocketAddress}
use bina_blockchain_l.Gossip.{
  BlockClaimEnvelope, EnvelopeError, block_claim, Gossip, Runtime, verify_envelope, mark_seen,
  message_max_age_secs, incoming_claim, handle_incoming, handle_p2p_message, relay_message,
}
use bina_blockchain_l.Gossip.Seen.{mark_seen-fresh, mark_seen-member}

-- The tests on an envelope before its identifier is looked at.
abbrev pub is_current : Gossip → ℕ → BlockClaimEnvelope → Bool
is_current g now e =
    same e.network g.network
    && not ((e.ttl == 0) || ltb (saturating_add e.sent_at_unix message_max_age_secs) now)

abbrev pub stepped : BlockClaimEnvelope → BlockClaimEnvelope
stepped e = record e { ttl = saturating_sub e.ttl 1 }

pass_guards {ℓ} :
    {A : Type ℓ} (ours old : Bool) (p q : A)
    → (ours && not old) ≡ true
    → (if not ours then p else if old then p else q) ≡ q
pass_guards true true p q h = cc
pass_guards true false p q h = refl
pass_guards false old p q h = cc

stop_at_guards {ℓ} :
    {A : Type ℓ} (ours old : Bool) (p q : A)
    → (ours && not old) ≡ false
    → (if not ours then p else if old then p else q) ≡ p
stop_at_guards true true p q h = refl
stop_at_guards true false p q h = cc
stop_at_guards false old p q h = refl

not-true : (b : Bool) → not b ≡ true → b ≡ false
not-true true h = cc
not-true false h = refl

join_pairs {ℓ κ} :
    {A : Type ℓ} {B : Type κ} (fresh : Bool) (p q : A) (g : B)
    → ◌≡◌ {A = A × B} (if not fresh then (p, g) else (q, g)) (if not fresh then p else q, g)
join_pairs true p q g = refl
join_pairs false p q g = refl

-- The ways of an envelope: stopped at the first tests, known, or marked and then verified.
incoming_claim-current :
    (rt : Runtime) (x : External) (g : Gossip) (now : ℕ) (e : BlockClaimEnvelope)
    → is_current g now e ≡ true
    → incoming_claim rt x g now e ≡ (
      if not (mark_seen rt g.seen e.message_id).0
          then none
          else elim (verify_envelope x e) [ err why ↦ none | ok u ↦ some (stepped e) ],
      record g { seen = (mark_seen rt g.seen e.message_id).1 },
    )
unfolding incoming_claim
incoming_claim-current rt x g now e h =
    let old = (e.ttl == 0) || ltb (saturating_add e.sent_at_unix message_max_age_secs) now in
    pass_guards (same e.network g.network) old _ _ h
    ∙ join_pairs (mark_seen rt g.seen e.message_id).0 _ _ _

incoming_claim-stale :
    (rt : Runtime) (x : External) (g : Gossip) (now : ℕ) (e : BlockClaimEnvelope)
    → is_current g now e ≡ false
    → incoming_claim rt x g now e ≡ (none, g)
unfolding incoming_claim
incoming_claim-stale rt x g now e h =
    let old = (e.ttl == 0) || ltb (saturating_add e.sent_at_unix message_max_age_secs) now in
    stop_at_guards (same e.network g.network) old _ _ h

passed_on :
    (fresh : Bool) (r : Result EnvelopeError (Unit {0})) (e out : BlockClaimEnvelope)
    → ◌≡◌ {A = Option BlockClaimEnvelope}
        (if not fresh then none else elim r [ err why ↦ none | ok u ↦ some e ])
        (some out)
    → (fresh ≡ true) × (r ≡ ok tt) × (out ≡ e)
passed_on true (ok u) e out h = (refl, refl, cc)
passed_on true (err why) e out h = cc
passed_on false r e out h = cc

-- A block claim is passed on exactly when it is of this network, its hop limit is not used up, it is at most
-- thirty seconds old, its identifier is new, and its content verifies; then its hop limit is one less
-- and nothing else of it changes.
pub incoming_claim-passes :
    (rt : Runtime) (x : External) (g : Gossip) (now : ℕ) (e out : BlockClaimEnvelope)
    → ((incoming_claim rt x g now e).0 ≡ some out) ↔ (
        (is_current g now e ≡ true)
        × (member e.message_id g.seen.seen ≡ false)
        × (verify_envelope x e ≡ ok tt)
        × (out ≡ stepped e))
incoming_claim-passes rt x g now e out = (
  λ h. elim (Bool-cases (is_current g now e)) [
    | inl current ↦
        let (fresh, genuine, same_out) =
          passed_on (mark_seen rt g.seen e.message_id).0 (verify_envelope x e) (stepped e) out
            (sym (ap (λ p. p.0) (incoming_claim-current rt x g now e current)) ∙ h) in
        (
          current,
          not-true _ (sym (mark_seen-fresh rt g.seen e.message_id) ∙ fresh),
          genuine,
          same_out,
        )
    | inr stale ↦
        let clash : ◌≡◌ {A = Option BlockClaimEnvelope} none (some out) =
          sym (ap (λ p. p.0) (incoming_claim-stale rt x g now e stale)) ∙ h in
        cc
  ],
  λ h.
      rw
        (
          incoming_claim-current rt x g now e h.0,
          mark_seen-fresh rt g.seen e.message_id,
          h.1,
          h.2,
          h.3,
        )
        refl,
)

-- What `handle_p2p_message` does with a block claim that is not passed on, and with one that is.
pub handle_claim-dropped :
    (rt : Runtime) (x : External) (g : Gossip) (s : NodeState) (l : Ledger) (now now_ms : ℕ)
    (peer : SocketAddress) (e : BlockClaimEnvelope)
    → (incoming_claim rt x g now e).0 ≡ none
    → handle_p2p_message rt x g s l now now_ms peer (block_claim e)
      ≡ record { gossip = (incoming_claim rt x g now e).1; state = s; sent = [] }
unfolding handle_p2p_message handle_incoming
handle_claim-dropped rt x g s l now now_ms peer e h = rw (h, handle_p2p_message) refl

pub handle_claim-passed :
    (rt : Runtime) (x : External) (g : Gossip) (s : NodeState) (l : Ledger) (now now_ms : ℕ)
    (peer : SocketAddress) (e out : BlockClaimEnvelope)
    → (incoming_claim rt x g now e).0 ≡ some out
    → let answer = accept_signed_claim x s l now_ms out.claim out.btc_checkpoint out.transactions in
      let g' = (incoming_claim rt x g now e).1 in
      handle_p2p_message rt x g s l now now_ms peer (block_claim e) ≡ record {
        gossip = g';
        state = answer.1;
        sent =
            if is_ok answer.0 && ltb 0 out.ttl then relay_message g' (block_claim out) peer else [];
      }
unfolding handle_p2p_message handle_incoming
handle_claim-passed rt x g s l now now_ms peer e out h = rw (h, handle_p2p_message) refl

pub incoming_claim-peers :
    (rt : Runtime) (x : External) (g : Gossip) (now : ℕ) (e : BlockClaimEnvelope)
    → (incoming_claim rt x g now e).1.peers ≡ g.peers
incoming_claim-peers rt x g now e = elim (Bool-cases (is_current g now e)) [
  | inl current ↦ rw (incoming_claim-current rt x g now e current) refl
  | inr stale ↦ rw (incoming_claim-stale rt x g now e stale) refl
]

-- After an envelope passed the first tests, its identifier is known.
incoming_claim-marks :
    (rt : Runtime) (x : External) (g : Gossip) (now : ℕ) (e : BlockClaimEnvelope)
    → is_current g now e ≡ true
    → member e.message_id (incoming_claim rt x g now e).1.seen.seen ≡ true
incoming_claim-marks rt x g now e h =
    rw (incoming_claim-current rt x g now e h) (mark_seen-member rt g.seen e.message_id)

-- A known identifier, and content that does not verify, stop an envelope.
incoming_claim-known :
    (rt : Runtime) (x : External) (g : Gossip) (now : ℕ) (e : BlockClaimEnvelope)
    → member e.message_id g.seen.seen ≡ true
    → (incoming_claim rt x g now e).0 ≡ none
incoming_claim-known rt x g now e known = elim (Option-cases (incoming_claim rt x g now e).0) [
  | inl stopped ↦ stopped
  | inr (out, passed) ↦
      let (_, fresh, _, _) = (incoming_claim-passes rt x g now e out).0 passed in ground arith
]

incoming_claim-bad :
    (rt : Runtime) (x : External) (g : Gossip) (now : ℕ) (e : BlockClaimEnvelope)
    (why : EnvelopeError)
    → verify_envelope x e ≡ err why
    → (incoming_claim rt x g now e).0 ≡ none
incoming_claim-bad rt x g now e why bad = elim (Option-cases (incoming_claim rt x g now e).0) [
  | inl stopped ↦ stopped
  | inr (out, passed) ↦
      let (_, _, genuine, _) = (incoming_claim-passes rt x g now e out).0 passed in cc
]

-- An envelope whose content does not verify uses up its identifier: after it was received, the genuine
-- envelope of the same identifier is dropped too, and neither changes the consensus state nor is sent on.
pub handle_p2p_message-shadowed :
    (rt : Runtime) (x : External) (g : Gossip) (s : NodeState) (l : Ledger)
    (now now' now_ms now_ms' : ℕ) (peer peer' : SocketAddress) (forged genuine : BlockClaimEnvelope)
    (why : EnvelopeError)
    → is_current g now forged ≡ true
    → verify_envelope x forged ≡ err why
    → forged.message_id ≡ genuine.message_id
    → let first = handle_p2p_message rt x g s l now now_ms peer (block_claim forged) in
      let second =
        handle_p2p_message rt x first.gossip first.state l now' now_ms' peer'
          (block_claim genuine) in
      (second.state ≡ s) × (first.sent ≡ []) × (second.sent ≡ [])
handle_p2p_message-shadowed rt x g s l now now' now_ms now_ms' peer peer' forged genuine why current
      bad ids =
    let g' = (incoming_claim rt x g now forged).1 in
    let known : member genuine.message_id g'.seen.seen ≡ true =
      rw (← ids) (incoming_claim-marks rt x g now forged current) in
    rw
      (
        handle_claim-dropped rt x g s l now now_ms peer forged
            (incoming_claim-bad rt x g now forged why bad),
        handle_claim-dropped rt x g' s l now' now_ms' peer' genuine
            (incoming_claim-known rt x g' now' genuine known),
      )
      (refl, refl, refl)
