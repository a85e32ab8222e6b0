-- ===== src/Gossip/Relays.antt =====
-- Relays of a block claim from node to node: `handle_p2p_message` and `relay_message` of
-- l1-chain/node/src/main.rs and l1-chain/node/src/gossip.rs.
use bina_blockchain_l.Prelude.{
  ℕ, ◌+◌, ◌-◌, ◌≤◌, ◌<◌, ◌≡◌, refl, sym, ap, ◌∙◌, inl, inr, Bool, true, false, ◌&&◌, List, [], ◌∷◌,
  map, arith, ltb, if◌then◌else◌, ltb→lt, Option-cases, All, saturating_sub, ok, is_ok, bytes_key,
  nat_key,
}
use mathlib.Core.List.{Memᴰ}
use mathlib.Core.List.Memᴰ
use mathlib.Core.Path.{subst}
use bina_blockchain_l.External.{External}
use bina_blockchain_l.Ledger.{Ledger}
use bina_blockchain_l.Node.{NodeState}
use bina_blockchain_l.Node.Accept.{accept_signed_claim}
use bina_blockchain_l.Node.Peers.{SocketAddress}
use bina_blockchain_l.Gossip.{
  BlockClaimEnvelope, BinaMessage, block_claim, Gossip, Runtime, Sent, Handled, verify_envelope,
  incoming_claim, handle_p2p_message, relay_message, broadcast_message,
}
use bina_blockchain_l.Gossip.Envelopes.{&&-true}
use bina_blockchain_l.Gossip.Flow.{
  stepped, incoming_claim-passes, handle_claim-dropped, handle_claim-passed,
}

All-carry :
    (m : BinaMessage) (l : List SocketAddress)
    → All (λ (sent : Sent). sent.message ≡ m) (map (λ a. record { receiver = a; message = m }) l)
All-carry m [] = tt
All-carry m (a ∷ l) = (refl, All-carry m l)

relay_message-carries :
    (g : Gossip) (m : BinaMessage) (peer : SocketAddress)
    → All (λ (sent : Sent). sent.message ≡ m) (relay_message g m peer)
unfolding relay_message broadcast_message
relay_message-carries g m peer = All-carry m _

All-Memᴰ {ℓ κ} : {A : Type ℓ} (P : A → Type κ) {a : A} {l : List A} → Memᴰ a l → All P l → P a
All-Memᴰ P (Memᴰ.head e) h = subst P (sym e) h.0
All-Memᴰ P (Memᴰ.tail m) h = All-Memᴰ P m h.1

Memᴰ-if {ℓ} :
    {A : Type ℓ} (b : Bool) {a : A} {l : List A}
    → Memᴰ a (if b then l else [])
    → (b ≡ true) × Memᴰ a l
Memᴰ-if true m = (refl, m)
Memᴰ-if false m = absurd (Memᴰ.not-nil m)

-- One relay: some node that received the first envelope sent the second to some receiver.
pub data Relay (rt : Runtime) (x : External)
    : BlockClaimEnvelope → BlockClaimEnvelope → Type 0 where
  relay :
      (g : Gossip) (s : NodeState) (l : Ledger) (now now_ms : ℕ) (peer receiver : SocketAddress)
      (e out : BlockClaimEnvelope)
      → Memᴰ
          (record { receiver = receiver; message = block_claim out })
          (handle_p2p_message rt x g s l now now_ms peer (block_claim e)).sent
      → Relay rt x e out

-- A number of relays, one after the other, through nodes in any states.
pub data Relays (rt : Runtime) (x : External) (e : BlockClaimEnvelope)
    : BlockClaimEnvelope → ℕ → Type 0 where
  origin : Relays rt x e e 0
  hop :
      {mid out : BlockClaimEnvelope} {n : ℕ}
      → Relays rt x e mid n
      → Relay rt x mid out
      → Relays rt x e out (n + 1)

room_lem : (before after : ℕ) → after ≡ saturating_sub before 1 → 0 < after → 2 ≤ before
room_lem before after h some_hop = ground arith

relay_lem :
    {rt : Runtime} {x : External} {e out : BlockClaimEnvelope}
    → Relay rt x e out
    → (out ≡ stepped e) × (2 ≤ e.ttl) × (verify_envelope x e ≡ ok tt)
relay_lem {rt = rt} {x = x} (relay g s l now now_ms peer receiver e out sent) =
    elim (Option-cases (incoming_claim rt x g now e).0) [
      | inl stopped ↦
          let here : Sent = record { receiver = receiver; message = block_claim out } in
          absurd (
            Memᴰ.not-nil (
              subst (λ (h : Handled). Memᴰ here h.sent)
                (handle_claim-dropped rt x g s l now now_ms peer e stopped) sent))
      | inr (m, passed) ↦
          let (_, _, genuine, made) = (incoming_claim-passes rt x g now e m).0 passed in
          let answer = accept_signed_claim x s l now_ms m.claim m.btc_checkpoint m.transactions in
          let g' = (incoming_claim rt x g now e).1 in
          let here : Sent = record { receiver = receiver; message = block_claim out } in
          let (some_hop, inside) : ((is_ok answer.0 && ltb 0 m.ttl) ≡ true)
              × Memᴰ here (relay_message g' (block_claim m) peer) =
            Memᴰ-if (is_ok answer.0 && ltb 0 m.ttl) (
              subst (λ (h : Handled). Memᴰ here h.sent)
                (handle_claim-passed rt x g s l now now_ms peer e m passed) sent) in
          let same_message : block_claim out ≡ block_claim m =
            All-Memᴰ (λ (sent : Sent). sent.message ≡ block_claim m) inside
              (relay_message-carries g' (block_claim m) peer) in
          let same_ttl : m.ttl ≡ saturating_sub e.ttl 1 =
            ap (λ (m : BlockClaimEnvelope). m.ttl) made in
          (
            cc,
            room_lem e.ttl m.ttl same_ttl (ltb→lt 0 m.ttl (&&-true (is_ok answer.0) _ some_hop).1),
            genuine,
          )
    ]

-- Verification does not read the hop limit.
verify_envelope-ttl :
    (x : External) (e : BlockClaimEnvelope) (ttl : ℕ)
    → verify_envelope x (record e { ttl = ttl }) ≡ verify_envelope x e
unfolding verify_envelope
verify_envelope-ttl x e ttl = refl

-- An envelope relayed any number of times has one hop less for each relay and is otherwise the one that was
-- sent; so it is relayed fewer times than its hop limit, and if it was relayed at all its content
-- verifies.
pub Relays-bounded :
    {rt : Runtime} {x : External} {e out : BlockClaimEnvelope} {n : ℕ}
    → Relays rt x e out n
    → (out.ttl + n ≡ e.ttl)
      × (out ≡ record e { ttl = out.ttl })
      × ((1 ≤ n) → (n < e.ttl) × (verify_envelope x e ≡ ok tt))
Relays-bounded {e = e} origin = (omega arith, refl, λ h. ground arith)
Relays-bounded {x = x} {e = e} {out = out} (hop {mid = mid} {n = n} rs r) =
    let (hops, content, least) = Relays-bounded rs in
    let (after, room, genuine) = relay_lem r in
    let one_less : out.ttl ≡ mid.ttl - 1 = ap (λ (m : BlockClaimEnvelope). m.ttl) after in
    (
      omega arith,
      after
          ∙ (ap (λ t. record mid { ttl = t }) (sym one_less)
              ∙ ap (λ (m : BlockClaimEnvelope). record m { ttl = out.ttl }) content),
      λ h. (
        omega arith,
        sym (verify_envelope-ttl x e mid.ttl) ∙ (sym (ap (verify_envelope x) content) ∙ genuine),
      ),
    )
