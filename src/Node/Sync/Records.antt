-- ===== src/Node/Sync/Records.antt =====
-- What a record that `sync_forward_from_peer` of l1-chain/node/src/main.rs applies has proved, and what
-- the application does.
use bina_blockchain_l.Prelude.{
  ℤ, ℕ, ◌+◌, ◌/◌, ◌≤◌, ◌<◌, ◌≡◌, sym, ap, ◌∙◌, Bool, true, ◌&&◌, ◌||◌, List, [], arith, leb, ◌==◌,
  ==→eq, length, All, u64_max, ok, ensure, ok_or, is_ok, >>=-eq-ok, ok_injective, ensure-ok, Bytes,
  bytes_key, nat_key, same, same→eq,
}
use mathlib.Core.Path.{subst}
use bina_blockchain_l.External.{External}
use bina_blockchain_l.Emission.{hard_cap}
use bina_blockchain_l.Block.{L1BlockHeader, timestamp_is_valid}
use bina_blockchain_l.Difficulty.{Adjuster}
use bina_blockchain_l.Transaction.{SignedTransaction, merkle_root, max_txs_per_block}
use bina_blockchain_l.Claims.{SignedBlockClaim, verify, block_hash}
use bina_blockchain_l.Checkpoint.{is_checkpoint_height}
use bina_blockchain_l.Ledger.{Ledger}
use bina_blockchain_l.Ledger.Conservation.{IsBacked}
use bina_blockchain_l.Ledger.StateRoot.{state_root}
use bina_blockchain_l.Ledger.Execution.{simulate_block_execution, apply_all, apply_block}
use bina_blockchain_l.Ledger.Execution.Refinement.{simulate_block_execution-apply_block}
use bina_blockchain_l.Node.{NodeState, BlockRecord, max_future_ms}
use bina_blockchain_l.Node.Accept.{is_root}
use bina_blockchain_l.Node.Accept.Execution.{simulate_loop-all}
use bina_blockchain_l.Node.Sync.{
  Replica, header_from_record, hex_to_32, address_of_hex, check_header, check_record, adopt_state,
  sync_record,
}

-- The fields of the header that the record and the chain fix.
header_from_record-fields :
    (x : External) (r : BlockRecord) (prev : Bytes) (h : L1BlockHeader)
    → header_from_record x r prev ≡ ok h
    → (h.height ≡ r.height) × (h.prev_hash ≡ prev)
unfolding header_from_record
header_from_record-fields x r prev h e =
    let (a, _, e1) = >>=-eq-ok (address_of_hex x r.miner_address) _ e in
    let (b, _, e2) = >>=-eq-ok (hex_to_32 x r.btc_seed) _ e1 in
    let (m, _, e3) = >>=-eq-ok (hex_to_32 x r.merkle_root) _ e2 in
    let (s, _, e4) = >>=-eq-ok (hex_to_32 x r.state_root) _ e3 in (cc, cc)

-- What the checks of a header leave known.
pub record IsLinked (x : External) (s : NodeState) (a : Adjuster) (r : BlockRecord)
    (c : SignedBlockClaim) : Type 0 where
  pub next_height : r.height ≡ s.chain_height + 1
  pub signed_height : c.header.height ≡ r.height
  pub parent : c.header.prev_hash ≡ s.tip_hash
  pub later : s.last_block_timestamp_ms < c.header.timestamp
  pub required_bits : c.header.difficulty_bits ≡ a.current_bits
  pub verified : is_ok (verify x c) ≡ true
  pub commits : is_root (merkle_root x r.transactions) c.header.merkle_root ≡ true

later_lem : (t s now : ℕ) → timestamp_is_valid t s now max_future_ms ≡ true → s < t
unfolding timestamp_is_valid
later_lem t s now h = ground arith

check_header-IsLinked :
    (x : External) (s : NodeState) (a : Adjuster) (now : ℕ) (r : BlockRecord) (c : SignedBlockClaim)
    → check_header x s a now r ≡ ok c
    → IsLinked x s a r c
unfolding check_header
check_header-IsLinked x s a now r c e =
    let (_, k1, e1) = >>=-eq-ok (ensure (r.height == s.chain_height + 1) _) _ e in
    let (_, k2, e2) = >>=-eq-ok (ensure (same r.prev_hash (x.hex_encode s.tip_hash)) _) _ e1 in
    let (h, k3, e3) = >>=-eq-ok (header_from_record x r s.tip_hash) _ e2 in
    let (_, k4, e4) =
      >>=-eq-ok
        (ensure (timestamp_is_valid h.timestamp s.last_block_timestamp_ms now max_future_ms) _) _
        e3 in
    let (_, k5, e5) = >>=-eq-ok (ensure (h.difficulty_bits == a.current_bits) _) _ e4 in
    let (_, k6, e6) =
      >>=-eq-ok
        (ensure (is_checkpoint_height r.height || same r.btc_seed (x.hex_encode s.btc_seed_hash)) _)
        _ e5 in
    let (pk, k7, e7) = >>=-eq-ok (ok_or (x.hex_decode r.miner_public_key) _) _ e6 in
    let (sg, k8, e8) = >>=-eq-ok (ok_or (x.hex_decode r.miner_signature) _) _ e7 in
    let c' : SignedBlockClaim = record { header = h; public_key = pk; signature = sg } in
    let (_, k9, e9) = >>=-eq-ok (ensure (is_ok (verify x c')) _) _ e8 in
    let (_, k10, e10) =
      >>=-eq-ok (ensure (same (x.hex_encode (block_hash x c')) r.block_hash) _) _ e9 in
    let (_, k11, e11) =
      >>=-eq-ok (ensure (is_root (merkle_root x r.transactions) h.merkle_root) _) _ e10 in
    let (_, k12, e12) =
      >>=-eq-ok (ensure (leb (length r.transactions) max_txs_per_block) _) _ e11 in
    let made = ok_injective c' c e12 in
    let fields = header_from_record-fields x r s.tip_hash h k3 in
    subst (IsLinked x s a r) made (record {
      next_height = ==→eq _ _ (ensure-ok _ _ k1);
      signed_height = fields.0;
      parent = fields.1;
      later = later_lem _ _ _ (ensure-ok _ _ k4);
      required_bits = ==→eq _ _ (ensure-ok _ _ k5);
      verified = ensure-ok _ _ k9;
      commits = ensure-ok _ _ k11;
    })

-- The two parts of the check of a record.
pub check_record-ok :
    (x : External) (s : NodeState) (l : Ledger) (a : Adjuster) (now : ℕ) (r : BlockRecord)
    (c : SignedBlockClaim) (applied : List SignedTransaction)
    → check_record x s l a now r ≡ ok (c, applied)
    → let (kept, root) =
        simulate_block_execution x l r.transactions r.miner_address r.reward_bina in
      IsLinked x s a r c × (length kept ≡ length r.transactions) × (root ≡ c.header.state_root)
unfolding check_record
check_record-ok x s l a now r c applied e =
    let run = simulate_block_execution x l r.transactions r.miner_address r.reward_bina in
    let (c', k1, e1) = >>=-eq-ok (check_header x s a now r) _ e in
    let (_, k2, e2) =
      >>=-eq-ok
        (ensure (length run.0 == length r.transactions && same run.1 c'.header.state_root) _) _
        e1 in
    let made = ap (λ v. v.0) (ok_injective _ _ e2) in
    let both = ensure-ok _ _ k2 in
    let full : (length run.0 == length r.transactions) ≡ true = ground arith in
    let root : same run.1 c'.header.state_root ≡ true = ground arith in
    (
      subst (IsLinked x s a r) made (check_header-IsLinked x s a now r c' k1),
      ==→eq _ _ full,
      same→eq _ _ root ∙ ap (λ d. d.header.state_root) made,
    )

-- A record that is applied extends the chain by one block: its claim verifies and names the old tip
-- as its parent, the new tip is the claim's block hash, the height grows by one, the timestamp grows
-- strictly, the block's difficulty is the one that the rule required, and its transactions have the
-- Merkle root in the header.
pub sync_record-extends :
    (d : ℕ → ℕ → ℤ) (x : External) (io : Bool) (p q : Replica) (now : ℕ) (r : BlockRecord)
    → sync_record d x io p now r ≡ ok q
    → (c : SignedBlockClaim) × IsLinked x p.state p.adjuster r c
      × (q.state.tip_hash ≡ block_hash x c)
      × (q.state.chain_height ≡ p.state.chain_height + 1)
      × (p.state.last_block_timestamp_ms < q.state.last_block_timestamp_ms)
unfolding sync_record adopt_state
sync_record-extends d x io p q now r e =
    let ((c, applied), k1, e1) = >>=-eq-ok (check_record x p.state p.ledger p.adjuster now r) _ e in
    let (linked, _, _) = check_record-ok x p.state p.ledger p.adjuster now r c applied k1 in
    let made = ok_injective _ q e1 in
    let tip : block_hash x c ≡ q.state.tip_hash = ap (λ v. v.state.tip_hash) made in
    let height : r.height ≡ q.state.chain_height = ap (λ v. v.state.chain_height) made in
    let time : c.header.timestamp ≡ q.state.last_block_timestamp_ms =
      ap (λ v. v.state.last_block_timestamp_ms) made in
    (c, linked, sym tip, sym height ∙ linked.next_height, omega (arith, time, linked.later))

-- A record that is applied does to the ledger what its header says: on a ledger whose balances are
-- backed by mined coins, with nonces below the largest u64 and a reward that fits the supply, every
-- transaction of the record applies, and the state root of the new ledger is the one in the header.
pub sync_record-state_root :
    (d : ℕ → ℕ → ℤ) (x : External) (p q : Replica) (now : ℕ) (r : BlockRecord)
    → IsBacked p.ledger
    → All (λ s. s.tx.nonce < u64_max) r.transactions
    → p.ledger.total_mined + r.reward_bina ≤ hard_cap
    → sync_record d x true p now r ≡ ok q
    → (c : SignedBlockClaim) × IsLinked x p.state p.adjuster r c
      × ((apply_all x true p.ledger r.height r.transactions r.miner_address (r.timestamp / 1000)).0
          ≡ true)
      × (state_root x q.ledger.balances q.ledger.nonces ≡ c.header.state_root)
unfolding sync_record simulate_block_execution
sync_record-state_root d x p q now r k below fits e =
    let l = p.ledger in
    let ts = r.timestamp / 1000 in
    let ((c, applied), k1, e1) = >>=-eq-ok (check_record x p.state l p.adjuster now r) _ e in
    let (linked, full, root) = check_record-ok x p.state l p.adjuster now r c applied k1 in
    let all_kept = simulate_loop-all x l.balances l.nonces [] r.transactions r.miner_address full in
    let (all_ok, same_root) =
      simulate_block_execution-apply_block x l r.height r.transactions r.miner_address r.reward_bina
        ts k below fits in
    let after : apply_block x true l r.height r.transactions r.miner_address r.reward_bina ts
        ≡ q.ledger =
      ap (λ v. v.ledger) (ok_injective _ q e1) in
    (
      c,
      linked,
      rw all_kept at all_ok,
      ap (λ m. state_root x m.balances m.nonces) (sym after) ∙ ((rw all_kept at same_root) ∙ root),
    )
