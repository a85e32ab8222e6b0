-- ===== src/Node/Mining/Forgotten.antt =====
-- A checkpoint that a round of `mining_loop` makes final, and the block after it from a peer, of
-- l1-chain/node/src/main.rs.
use bina_blockchain_l.Prelude.{
  ℤ, ℕ, ◌+◌, ◌≤◌, ◌≡◌, refl, sym, ap, ◌∙◌, Bool, true, false, some, arith, ok, ensure, is_ok,
  >>=-eq-ok, ok_injective, bytes_key, nat_key,
}
use mathlib.Core.Path.{subst}
use bina_blockchain_l.External.{External}
use bina_blockchain_l.Checkpoint.{BtcCheckpointProof, is_checkpoint_height}
use bina_blockchain_l.Randomness.{from_block, consume}
use bina_blockchain_l.Claims.{block_hash}
use bina_blockchain_l.Node.{PendingClaim, BlockRecord}
use bina_blockchain_l.Node.Sync.{Replica, check_record, adopt_state, pinned_btc_height, sync_record}
use bina_blockchain_l.Node.Sync.Records.{check_record-ok}
use bina_blockchain_l.Node.Mining.{nullifier_collision, Round, Finalized, apply_winner}

next_is_plain :
    (h : ℕ) → 1 ≤ h → is_checkpoint_height h ≡ true → is_checkpoint_height (h + 1) ≡ false
unfolding is_checkpoint_height
next_is_plain h positive e = ground arith

-- The end of a round writes the height of the checkpoint into the state and leaves the loop's local.
apply_winner-pins :
    (log_delta : ℕ → ℕ → ℤ) (x : External) (io : Bool) (p : Replica) (rd : Round) (w : PendingClaim)
    (f : Finalized) (proof : BtcCheckpointProof)
    → is_checkpoint_height rd.height ≡ true
    → w.btc_checkpoint ≡ some proof
    → apply_winner log_delta x io p rd w ≡ ok f
    → (f.replica.state.btc_checkpoint_tip_height ≡ proof.tip_height)
      × (f.replica.state.chain_height ≡ rd.height)
      × (f.replica.btc_checkpoint_tip_height ≡ p.btc_checkpoint_tip_height)
unfolding apply_winner
apply_winner-pins log_delta x io p rd w f proof ckpt proven h =
    let rand = from_block x rd.height (block_hash x w.claim) w.claim.header.bitcoin_seed_hash in
    let (_, k1, r1) =
      >>=-eq-ok (ensure (is_ok (consume p.state.nullifiers rand).0) nullifier_collision) _ h in
    let made = ok_injective _ f r1 in
    (
      sym (ap (λ (f : Finalized). f.replica.state.btc_checkpoint_tip_height) made)
          ∙ rw (ckpt, proven) refl,
      sym (ap (λ (f : Finalized). f.replica.state.chain_height) made),
      sym (ap (λ (f : Finalized). f.replica.btc_checkpoint_tip_height) made),
    )

-- A block from a peer writes the loop's local into the state, unless it is a checkpoint itself.
sync_record-writes_local :
    (log_delta : ℕ → ℕ → ℤ) (x : External) (io : Bool) (p q : Replica) (now : ℕ) (r : BlockRecord)
    → sync_record log_delta x io p now r ≡ ok q
    → (r.height ≡ p.state.chain_height + 1)
      × (q.state.btc_checkpoint_tip_height ≡ pinned_btc_height p r)
unfolding sync_record adopt_state
sync_record-writes_local log_delta x io p q now r e =
    let ((c, applied), k1, e1) = >>=-eq-ok (check_record x p.state p.ledger p.adjuster now r) _ e in
    let (linked, _, _) = check_record-ok x p.state p.ledger p.adjuster now r c applied k1 in
    let made = ok_injective _ q e1 in
    (linked.next_height, sym (ap (λ (q : Replica). q.state.btc_checkpoint_tip_height) made))

-- A checkpoint that a node mines itself is forgotten at the next block from a peer: the end of the round pins the
-- checkpoint's Bitcoin height, and the first record that is applied after it puts back the height that the
-- loop had before the round.
pub sync_record-forgets_checkpoint :
    (log_delta : ℕ → ℕ → ℤ) (x : External) (io io' : Bool) (p q : Replica) (rd : Round)
    (w : PendingClaim) (f : Finalized) (proof : BtcCheckpointProof) (now : ℕ) (r : BlockRecord)
    → 1 ≤ rd.height
    → is_checkpoint_height rd.height ≡ true
    → w.btc_checkpoint ≡ some proof
    → apply_winner log_delta x io p rd w ≡ ok f
    → sync_record log_delta x io' f.replica now r ≡ ok q
    → (f.replica.state.btc_checkpoint_tip_height ≡ proof.tip_height)
      × (q.state.btc_checkpoint_tip_height ≡ p.btc_checkpoint_tip_height)
sync_record-forgets_checkpoint log_delta x io io' p q rd w f proof now r positive ckpt proven done
      applied =
    let (pinned, height, kept) = apply_winner-pins log_delta x io p rd w f proof ckpt proven done in
    let (next, written) = sync_record-writes_local log_delta x io' f.replica q now r applied in
    let plain : is_checkpoint_height r.height ≡ false =
      subst (λ h. is_checkpoint_height h ≡ false) (sym (next ∙ ap (λ h. h + 1) height))
        (next_is_plain rd.height positive ckpt) in
    (pinned, written ∙ (rw plain kept))
