-- ===== src/Node/Reorg.antt =====
-- The reconciliation of a fork: `sync_forward_from_peer` as a whole and `reconcile_fork`, of
-- l1-chain/node/src/main.rs. A peer's answers are the values of the requests to it; log lines are left
-- out. The local variables that stand for the chain are those of Node.Sync.
pub mod Linked
pub mod Probe
pub mod Depth
pub mod Epoch
pub mod Outcome
use bina_blockchain_l.Prelude.{
  ℤ, ℕ, zero, suc, ◌+◌, ◌-◌, ◌*◌, ◌/◌, ◌%◌, ◌^◌, ◌≤◌, ◌<◌, min, max, ◌≡◌, refl, sym, ap, ◌∙◌, ◌≢◌,
  ◌↔◌, ◌⊎◌, inl, inr, Bool, true, false, not, ◌&&◌, ◌||◌, Option, none, some, List, [], ◌∷◌, ◌++◌,
  map, arith, dec_lt, ℕ_discrete, ltb, leb, ◌==◌, if◌then◌else◌, ltb→lt, ltb→le, lt→ltb, le→ltb,
  leb→le, le→leb, ==→eq, ==_refl, ==_ne, tests, Bool-cases, Option-cases, Bool-ext, length, take,
  drop, replicate, get_or, length-append, length-replicate, length-take, length-drop, take-append,
  drop-append, append_cancel, take_within, drop_within, All, All-append, all, filter, u64_mod,
  u64_max, saturating_add, checked_add, wrapping_add, saturating_sub, saturating_add_small,
  wrapping_add_small, Result, ok, err, ◌>>=◌, ◌>>◌, ensure, ok_or, is_ok, >>=-eq-ok, ok_injective,
  ensure-ok, Result-cases, Bytes, Bytes-discrete, bytes_lt, bytes_lt_irrefl, bytes_lt_trans,
  bytes_lt_total, bytes_lt_asymm, le_bytes, of_le_bytes, length-le_bytes, of_le_bytes-le_bytes,
  codes, le_bytes_injective, Key, bytes_key, nat_key, same, same→eq, same_refl, same_ne, member,
  member-append, set_insert, set_remove, lookup, insert, erase, keys, lookup-insert, lookup-erase,
  member-keys-insert,
}
use bina_blockchain_l.External.{External}
use bina_blockchain_l.Difficulty.{Adjuster, epoch_size}
use bina_blockchain_l.Transaction.{SignedTransaction, tx_id}
use bina_blockchain_l.Checkpoint.{governing_checkpoint_height}
use bina_blockchain_l.Ledger.{Ledger}
use bina_blockchain_l.Ledger.Replay.{open_scoped}
use bina_blockchain_l.Node.{NodeState, BlockRecord, StoreCall, PendingClaim}
use bina_blockchain_l.Node.ForkChoice.{PeerStatus, select_best_peer}
use bina_blockchain_l.Node.Sync.{Replica, hex_to_32, retain_above, add_work, sync_record}
use bina_blockchain_l.Store.{
  Json, StoreError, BlockStore, get, get_range, find, block_hash_at, rollback_above,
}
use bina_blockchain_l.Store as Store
use bina_blockchain_l.Store.Pending.{mempool_insert, mempool_remove}

abbrev pub max_auto_reorg_depth : ℕ
max_auto_reorg_depth = epoch_size - 1

-- A node: the replica of the chain with the block store that keeps it.
pub record Chain : Type 0 where
  pub replica : Replica
  pub store : BlockStore

-- Which writes succeed: the file of the ledger, the rollback of the store, and its other writes.
pub record Disk : Type 0 where
  pub opens_ledger : Bool
  pub rolls_back : Bool
  pub writes : Bool

-- The calls of the store that the state recorded, in their order.
abbrev pub run_call : External → Json → Bool → BlockStore → StoreCall → BlockStore
run_call x j io st (StoreCall.insert_block r) = (Store.insert_block j io st r).1
run_call x j io st (StoreCall.mempool_insert t) = (mempool_insert x j io st t).1
run_call x j io st (StoreCall.mempool_remove id) = (mempool_remove x io st id).1

abbrev pub run_calls : External → Json → Bool → BlockStore → List StoreCall → BlockStore
run_calls x j io st [] = st
run_calls x j io st (call ∷ calls) = run_calls x j io (run_call x j io st call) calls

-- The replica's recorded calls are made, and its record is cleared.
unfoldable pub persist : External → Json → Bool → Replica → BlockStore → Chain
persist x j io p st = record {
  replica = record p { state = record p.state { store_calls = [] } };
  store = run_calls x j io st p.state.store_calls;
}

-- The records of a page in their order: whether one of them stopped the loop, and how many were applied.
unfoldable pub sync_records :
    (ℕ → ℕ → ℤ) → External → Json → Bool → ℕ → Chain → List BlockRecord → Bool × ℕ × Chain
unfolding persist
sync_records log_delta x j io now n [] = (false, 0, n)
sync_records log_delta x j io now n (r ∷ page) = elim (sync_record log_delta x io n.replica now r) [
  | err why ↦ (true, 0, n)
  | ok p ↦
      let (stop, synced, last) =
        sync_records log_delta x j io now (persist x j io p n.store) page in
      (stop, suc synced, last)
]

-- `sync_forward_from_peer`: pages until the target's height, an empty page, a failed request (`none`) or
-- a record that does not pass. The list holds the answers that the peer gives, with the clock's
-- value at each; it ends where the peer stops answering.
unfoldable pub sync_forward :
    (ℕ → ℕ → ℤ)
    → External
    → Json
    → Bool
    → ℕ
    → Chain
    → List (ℕ × Option (List BlockRecord))
    → ℕ × Chain
unfolding sync_records
sync_forward log_delta x j io target n [] = (0, n)
sync_forward log_delta x j io target n ((now, none) ∷ answers) = (0, n)
sync_forward log_delta x j io target n ((now, some []) ∷ answers) = (0, n)
sync_forward log_delta x j io target n ((now, some (r ∷ page)) ∷ answers) =
    let (stop, synced, mid) = sync_records log_delta x j io now n (r ∷ page) in
    let (more, last) = sync_forward log_delta x j io target mid answers in
    if leb target n.replica.state.chain_height
    then (0, n)
    else if stop
    then (synced, mid)
    else (synced + more, last)

-- Why a reconciliation is given up before it changes anything.
pub data ReorgStop : Type 0 where
  no_heavier_peer lower_peer no_answer no_local_record too_deep before_epoch : ReorgStop
  not_retained ledger_failed store_failed : ReorgStop

abbrev pub decoded : External → Bytes → Option Bytes
decoded x s = elim (hex_to_32 x s) [ ok b ↦ some b | err e ↦ none ]

-- What a probe of one height does: found, searched further, or given up.
abbrev pub compare_at : Option Bytes → Option Bytes → ℕ → Result ReorgStop ℕ → Result ReorgStop ℕ
compare_at none mine found further = err no_answer
compare_at (some p) none found further = err no_local_record
compare_at (some p) (some l) found further = if same l p then ok found else further

module _ (x : External) where
  -- The closure `local_hash_at`.
  unfoldable pub local_hash_at : BlockStore → ℕ → Option Bytes
  local_hash_at st h = elim (block_hash_at st h) [ none ↦ none | some s ↦ decoded x s ]

  -- The peer's hash at a height, from its answer.
  unfoldable pub peer_hash_at : Option (List BlockRecord) → ℕ → Option Bytes
  peer_hash_at none h = none
  peer_hash_at (some records) h = elim (find (λ r. r.height == h) records) [
    | none ↦ none
    | some r ↦ decoded x r.block_hash
  ]

  -- The loop that searches for the common ancestor downwards, to the floor.
  unfoldable pub probe : BlockStore → (ℕ → Option (List BlockRecord)) → ℕ → ℕ → Result ReorgStop ℕ
  unfolding local_hash_at peer_hash_at
  probe st headers floor zero = ok zero
  probe st headers floor (suc h) =
      let further = probe st headers floor h in
      if ltb floor (suc h)
      then compare_at (peer_hash_at (headers (suc h)) (suc h)) (local_hash_at st (suc h)) (suc h)
          further
      else ok (suc h)

-- What the rollback needs, all of it read before anything changes.
pub record Rollback : Type 0 where
  pub fork_point : ℕ
  pub rolled_back : List BlockRecord
  pub new_tip : Bytes
  pub new_timestamp : ℕ
  pub new_seed : Bytes
  pub new_seed_height : ℕ
  pub new_ledger : Ledger

-- `unwrap_or_default`
abbrev pub or_empty : Result StoreError (List BlockRecord) → List BlockRecord
or_empty (ok l) = l
or_empty (err e) = []

-- `Ok(Some(b))` and a hash that decodes.
abbrev pub retained : Result StoreError (Option BlockRecord) → Result ReorgStop BlockRecord
retained (ok (some r)) = ok r
retained (ok none) = err not_retained
retained (err e) = err not_retained

-- `requeue_rolled_back_transactions`: the transactions of the blocks in their order.
abbrev pub requeued : List BlockRecord → List SignedTransaction
requeued [] = []
requeued (r ∷ records) = r.transactions ++ requeued records

-- The work of a list of blocks.
abbrev pub work_of : List BlockRecord → ℕ → ℕ
work_of [] work = work
work_of (r ∷ records) work = work_of records (add_work work r.difficulty_bits)

module _ (x : External) where
  hash_of : BlockRecord → (BlockRecord → Bytes) → Result ReorgStop Bytes
  hash_of r field = ok_or (decoded x (field r)) not_retained

  -- The tip and the timestamp at the fork point.
  tip_at : Json → BlockStore → NodeState → Adjuster → ℕ → Result ReorgStop (Bytes × ℕ)
  unfolding hash_of
  tip_at j st s a zero = ok (s.genesis_hash, a.epoch_start_ms)
  tip_at j st s a (suc h) = do
    r ← retained (get j st (suc h))
    tip ← hash_of r (λ r. r.block_hash)
    ok (tip, r.timestamp)

  -- The pinned seed and its Bitcoin height, from the block of the checkpoint that governs a height.
  seed_at : Json → BlockStore → Replica → ℕ → Result ReorgStop (Bytes × ℕ)
  unfolding hash_of
  seed_at j st p zero = ok (p.state.btc_seed_hash, p.btc_checkpoint_tip_height)
  seed_at j st p (suc governing) = do
    r ← retained (get j st (suc governing))
    seed ← hash_of r (λ r. r.btc_seed)
    ok (seed, r.btc_height)

  -- The refusals after the probe, and what the rollback to the fork point reads.
  unfoldable pub plan_rollback : Json → Disk → Chain → ℕ → Result ReorgStop Rollback
  unfolding tip_at seed_at
  plan_rollback j disk n fork_point = do
    let s = n.replica.state
    ensure (not (leb fork_point (saturating_sub s.chain_height max_auto_reorg_depth))) too_deep
    ensure (not (ltb fork_point n.replica.adjuster.epoch_start_height)) before_epoch
    (tip, timestamp) ← tip_at j n.store s n.replica.adjuster fork_point
    (seed, seed_height) ← seed_at j n.store n.replica (governing_checkpoint_height fork_point)
    ensure disk.opens_ledger ledger_failed
    ensure disk.rolls_back store_failed
    ok (record {
      fork_point = fork_point;
      rolled_back =
          or_empty
            (get_range j n.store (fork_point + 1) s.chain_height (s.chain_height - fork_point + 1));
      new_tip = tip;
      new_timestamp = timestamp;
      new_seed = seed;
      new_seed_height = seed_height;
      new_ledger = open_scoped n.replica.ledger.csv fork_point;
    })

  abbrev pub requeue :
      List SignedTransaction → List (Bytes × SignedTransaction) → List (Bytes × SignedTransaction)
  requeue [] m = m
  requeue (t ∷ txs) m = requeue txs (insert (tx_id x t) t m)

  -- The rollback itself. The adjuster and the set of nullifiers stay as they are.
  unfoldable pub roll_back : Json → Disk → Chain → Rollback → Chain
  roll_back j disk n b =
      let s = n.replica.state in
      let txs = requeued b.rolled_back in
      record {
        replica = record n.replica {
          ledger = b.new_ledger;
          btc_checkpoint_tip_height = b.new_seed_height;
          state = record s {
            pending_claims = retain_above b.fork_point s.pending_claims;
            chain_height = b.fork_point;
            tip_hash = b.new_tip;
            last_block_timestamp_ms = b.new_timestamp;
            btc_seed_hash = b.new_seed;
            btc_checkpoint_tip_height = b.new_seed_height;
            chain_work = saturating_sub s.chain_work (work_of b.rolled_back 0);
            total_mined_bina = b.new_ledger.total_mined;
            mempool = requeue txs s.mempool;
          };
        };
        store =
            run_calls x j disk.writes (rollback_above true n.store b.fork_point).1
              (map (λ t. StoreCall.mempool_insert t) txs);
      }

-- The answers of one peer: to the probes, and to the requests of pages.
pub record PeerAnswers : Type 0 where
  pub headers : ℕ → Option (List BlockRecord)
  pub pages : List (ℕ × Option (List BlockRecord))

-- `reconcile_fork`: given up, or the number of blocks adopted and the node after it.
unfoldable pub reconcile_fork :
    (ℕ → ℕ → ℤ)
    → External
    → Json
    → Disk
    → Chain
    → List PeerStatus
    → (PeerStatus → PeerAnswers)
    → Result ReorgStop ℕ × Chain
unfolding probe plan_rollback roll_back sync_forward
reconcile_fork log_delta x j disk n statuses answers =
    let s = n.replica.state in
    let height = s.chain_height in
    elim (select_best_peer statuses s.genesis_hash s.chain_work) [
      | none ↦ (err no_heavier_peer, n)
      | some best ↦
          let peer = answers best in
          let floor = saturating_sub height max_auto_reorg_depth in
          if ltb best.height height
          then (err lower_peer, n)
          else elim (probe x n.store peer.headers floor height) [
            | err why ↦ (err why, n)
            | ok fork_point ↦
                if fork_point == height
                then (let (synced, last) =
                      sync_forward log_delta x j disk.writes best.height n peer.pages in
                    (ok synced, last))
                else elim (plan_rollback x j disk n fork_point) [
                  | err why ↦ (err why, n)
                  | ok b ↦
                      let (synced, last) =
                        sync_forward log_delta x j disk.writes best.height (roll_back x j disk n b)
                          peer.pages in
                      (ok synced, last)
                ]
          ]
    ]
