-- ===== src/Node/Reorg/Depth.antt =====
-- What `reconcile_fork` of l1-chain/node/src/main.rs refuses, what it keeps, and how deep it goes.
use bina_blockchain_l.Prelude.{
  ℕ, zero, suc, ◌+◌, ◌≤◌, ◌≡◌, refl, ap, ◌∙◌, true, not, Option, none, some, arith, ltb, leb,
  saturating_sub, Result, ok, err, ensure, ok_or, >>=-eq-ok, ok_injective, ensure-ok, Bytes,
  bytes_key, nat_key,
}
use mathlib.Core.Path.{subst}
use bina_blockchain_l.External.{External}
use bina_blockchain_l.Difficulty.{Adjuster}
use bina_blockchain_l.Checkpoint.{governing_checkpoint_height}
use bina_blockchain_l.Ledger.Replay.{open_scoped}
use bina_blockchain_l.Node.{NodeState, BlockRecord}
use bina_blockchain_l.Store.{Json, StoreError, BlockStore, get}
use bina_blockchain_l.Node.Sync.{Replica}
use bina_blockchain_l.Node.Reorg.{
  ReorgStop, Disk, Chain, Rollback, max_auto_reorg_depth, decoded, hash_of, tip_at, seed_at,
  retained, plan_rollback,
}

-- What a planned rollback was read from: the depth is within the bounds, and the new tip, its timestamp
-- and the pinned seed are those of blocks that the store keeps.
pub record IsGrounded (x : External) (j : Json) (n : Chain) (fork_point : ℕ) (b : Rollback)
    : Type 0 where
  pub point : b.fork_point ≡ fork_point
  pub shallow : n.replica.state.chain_height ≤ fork_point + 18
  pub positive : 1 ≤ fork_point
  pub same_epoch : n.replica.adjuster.epoch_start_height ≤ fork_point
  pub tip_block :
      (r : BlockRecord) × (get j n.store fork_point ≡ ok (some r))
      × (decoded x r.block_hash ≡ some b.new_tip)
      × (r.timestamp ≡ b.new_timestamp)
  pub seed_block :
      (r : BlockRecord) × (get j n.store (governing_checkpoint_height fork_point) ≡ ok (some r))
      × (decoded x r.btc_seed ≡ some b.new_seed)
      × (r.btc_height ≡ b.new_seed_height)
  pub ledger_rows : b.new_ledger ≡ open_scoped n.replica.ledger.csv fork_point

retained-ok :
    (r : Result StoreError (Option BlockRecord)) (b : BlockRecord)
    → retained r ≡ ok b
    → r ≡ ok (some b)
retained-ok (ok none) b h = cc
retained-ok (ok (some r)) b h = rw (ok_injective r b h) refl
retained-ok (err e) b h = cc

hash_of-ok :
    (x : External) (r : BlockRecord) (field : BlockRecord → Bytes) (b : Bytes)
    → hash_of x r field ≡ ok b
    → decoded x (field r) ≡ some b
unfolding hash_of
hash_of-ok x r field b h = ok_or-ok (decoded x (field r)) h
  where
    ok_or-ok : (o : Option Bytes) → ok_or o ReorgStop.not_retained ≡ ok b → o ≡ some b
    ok_or-ok none h = cc
    ok_or-ok (some a) h = ap some (ok_injective a b h)

tip_at-ok :
    (x : External) (j : Json) (st : BlockStore) (s : NodeState) (a : Adjuster) (fork_point : ℕ)
    (out : Bytes × ℕ)
    → 1 ≤ fork_point
    → tip_at x j st s a fork_point ≡ ok out
    → (r : BlockRecord) × (get j st fork_point ≡ ok (some r))
      × (decoded x r.block_hash ≡ some out.0)
      × (r.timestamp ≡ out.1)
unfolding tip_at
tip_at-ok x j st s a zero out positive h = absurd (ground arith)
tip_at-ok x j st s a (suc f) out positive h =
    let (r, k1, r1) = >>=-eq-ok (retained (get j st (suc f))) _ h in
    let (tip, k2, r2) = >>=-eq-ok (hash_of x r (λ r. r.block_hash)) _ r1 in
    let made = ok_injective _ out r2 in
    (
      r,
      retained-ok _ r k1,
      hash_of-ok x r (λ r. r.block_hash) tip k2 ∙ ap (λ (o : Bytes × ℕ). some o.0) made,
      ap (λ (o : Bytes × ℕ). o.1) made,
    )

seed_at-ok :
    (x : External) (j : Json) (st : BlockStore) (p : Replica) (governing : ℕ) (out : Bytes × ℕ)
    → 1 ≤ governing
    → seed_at x j st p governing ≡ ok out
    → (r : BlockRecord) × (get j st governing ≡ ok (some r))
      × (decoded x r.btc_seed ≡ some out.0)
      × (r.btc_height ≡ out.1)
unfolding seed_at
seed_at-ok x j st p zero out positive h = absurd (ground arith)
seed_at-ok x j st p (suc f) out positive h =
    let (r, k1, r1) = >>=-eq-ok (retained (get j st (suc f))) _ h in
    let (seed, k2, r2) = >>=-eq-ok (hash_of x r (λ r. r.btc_seed)) _ r1 in
    let made = ok_injective _ out r2 in
    (
      r,
      retained-ok _ r k1,
      hash_of-ok x r (λ r. r.btc_seed) seed k2 ∙ ap (λ (o : Bytes × ℕ). some o.0) made,
      ap (λ (o : Bytes × ℕ). o.1) made,
    )

governing_positive : (f : ℕ) → 1 ≤ f → 1 ≤ governing_checkpoint_height f
unfolding governing_checkpoint_height
governing_positive f h = ground arith

deep_enough :
    (fork height : ℕ)
    → not (leb fork (saturating_sub height max_auto_reorg_depth)) ≡ true
    → (height ≤ fork + 18) × (1 ≤ fork)
deep_enough fork height h = ground arith

not_before : (fork start : ℕ) → not (ltb fork start) ≡ true → start ≤ fork
not_before fork start h = ground arith

-- A rollback that is planned goes at most eighteen blocks back, never below the first block and never
-- across the start of the difficulty epoch; it restores the hash and the timestamp of the block that
-- the store keeps at the fork point, the Bitcoin seed and height of the block of its governing checkpoint, and the
-- ledger of the rows up to the fork point.
pub plan_rollback-IsGrounded :
    (x : External) (j : Json) (disk : Disk) (n : Chain) (fork_point : ℕ) (b : Rollback)
    → plan_rollback x j disk n fork_point ≡ ok b
    → IsGrounded x j n fork_point b
unfolding plan_rollback
plan_rollback-IsGrounded x j disk n fork_point b h =
    let s = n.replica.state in
    let a = n.replica.adjuster in
    let (_, k1, r1) =
      >>=-eq-ok
        (ensure (not (leb fork_point (saturating_sub s.chain_height max_auto_reorg_depth))) _) _
        h in
    let (_, k2, r2) = >>=-eq-ok (ensure (not (ltb fork_point a.epoch_start_height)) _) _ r1 in
    let (tip, k3, r3) = >>=-eq-ok (tip_at x j n.store s a fork_point) _ r2 in
    let (seed, k4, r4) =
      >>=-eq-ok (seed_at x j n.store n.replica (governing_checkpoint_height fork_point)) _ r3 in
    let (_, k5, r5) = >>=-eq-ok (ensure disk.opens_ledger _) _ r4 in
    let (_, k6, r6) = >>=-eq-ok (ensure disk.rolls_back _) _ r5 in
    let made = ok_injective _ b r6 in
    let (shallow, positive) = deep_enough fork_point s.chain_height (ensure-ok _ _ k1) in
    subst (IsGrounded x j n fork_point) made (record {
      point = refl;
      shallow = shallow;
      positive = positive;
      same_epoch = not_before fork_point a.epoch_start_height (ensure-ok _ _ k2);
      tip_block = tip_at-ok x j n.store s a fork_point tip positive k3;
      seed_block =
          seed_at-ok x j n.store n.replica _ seed (governing_positive fork_point positive) k4;
      ledger_rows = refl;
    })
