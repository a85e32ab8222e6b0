-- ===== src/Node/Reorg/Outcome.antt =====
-- The ends of `reconcile_fork` and of `sync_forward_from_peer` of l1-chain/node/src/main.rs.
use bina_blockchain_l.Prelude.{
  ℤ, ℕ, ◌+◌, ◌≤◌, ◌≡◌, refl, ap, ◌∙◌, ◌⊎◌, inl, inr, Bool, false, Option, none, some, List, [], ◌∷◌,
  arith, ltb, leb, ◌==◌, Bool-cases, Option-cases, saturating_sub, Result, ok, err, Result-cases,
  bytes_key, nat_key,
}
use bina_blockchain_l.External.{External}
use bina_blockchain_l.Node.{BlockRecord}
use bina_blockchain_l.Node.ForkChoice.{PeerStatus, select_best_peer}
use bina_blockchain_l.Node.Sync.{sync_record}
use bina_blockchain_l.Node.Sync.Records.{sync_record-extends}
use bina_blockchain_l.Store.{Json}
use bina_blockchain_l.Node.Reorg.{
  ReorgStop, Disk, Chain, Rollback, PeerAnswers, max_auto_reorg_depth, plan_rollback, roll_back,
  probe, persist, sync_records, sync_forward, reconcile_fork,
}
use bina_blockchain_l.Node.Reorg.Depth.{IsGrounded, plan_rollback-IsGrounded}

abbrev pub chain_height_of : Chain → ℕ
chain_height_of n = n.replica.state.chain_height

sync_records-height :
    (log_delta : ℕ → ℕ → ℤ) (x : External) (j : Json) (io : Bool) (now : ℕ) (n : Chain)
    (page : List BlockRecord)
    → let (stop, synced, last) = sync_records log_delta x j io now n page in
      chain_height_of last ≡ chain_height_of n + synced
unfolding sync_records persist
sync_records-height log_delta x j io now n [] = omega arith
sync_records-height log_delta x j io now n (r ∷ page) =
    elim (Result-cases (sync_record log_delta x io n.replica now r)) [
      | inl (why, stopped) ↦ rw (stopped, sync_records) (omega arith)
      | inr (p, applied) ↦
          let (_, _, _, higher, _) = sync_record-extends log_delta x io n.replica p now r applied in
          let rest = sync_records-height log_delta x j io now (persist x j io p n.store) page in
          rw (applied, sync_records) (omega (arith, rest, higher))
    ]

-- The loop of pages adds to the chain exactly the number of blocks that it reports.
pub sync_forward-height :
    (log_delta : ℕ → ℕ → ℤ) (x : External) (j : Json) (io : Bool) (target : ℕ) (n : Chain)
    (answers : List (ℕ × Option (List BlockRecord)))
    → let (synced, last) = sync_forward log_delta x j io target n answers in
      chain_height_of last ≡ chain_height_of n + synced
unfolding sync_forward
sync_forward-height log_delta x j io target n [] = omega arith
sync_forward-height log_delta x j io target n ((now, none) ∷ answers) = omega arith
sync_forward-height log_delta x j io target n ((now, some []) ∷ answers) = omega arith
sync_forward-height log_delta x j io target n ((now, some (r ∷ page)) ∷ answers) =
    let here = sync_records-height log_delta x j io now n (r ∷ page) in
    let mid = (sync_records log_delta x j io now n (r ∷ page)).2 in
    let rest = sync_forward-height log_delta x j io target mid answers in
    elim (Bool-cases (leb target (chain_height_of n))) [
      | inl reached ↦ rw (reached, sync_forward) (omega arith)
      | inr below ↦ elim (Bool-cases (sync_records log_delta x j io now n (r ∷ page)).0) [
        | inl stop ↦ rw (below, stop, sync_forward) here
        | inr going ↦ rw (below, going, sync_forward) (omega (arith, here, rest))
      ]
    ]

abbrev counted : ℕ × Chain → Result ReorgStop ℕ × Chain
counted (synced, last) = (ok synced, last)

-- The ways of a reconciliation: it is refused; the peer is on the own chain; or the chain is rolled back.
data IsOutcome (log_delta : ℕ → ℕ → ℤ) (x : External) (j : Json) (disk : Disk) (n : Chain)
    (answers : PeerStatus → PeerAnswers) : Result ReorgStop ℕ × Chain → Type 0 where
  refused : (why : ReorgStop) → IsOutcome log_delta x j disk n answers (err why, n)
  forward :
      (best : PeerStatus)
      → IsOutcome log_delta x j disk n answers
          (counted (sync_forward log_delta x j disk.writes best.height n (answers best).pages))
  rolled :
      (best : PeerStatus) (fork_point : ℕ) (b : Rollback)
      → (fork_point == chain_height_of n) ≡ false
      → plan_rollback x j disk n fork_point ≡ ok b
      → IsOutcome log_delta x j disk n answers (
          counted (
            sync_forward log_delta x j disk.writes best.height
              (roll_back x j disk n b)
              (answers best).pages))

reconcile_fork-IsOutcome :
    (log_delta : ℕ → ℕ → ℤ) (x : External) (j : Json) (disk : Disk) (n : Chain)
    (statuses : List PeerStatus) (answers : PeerStatus → PeerAnswers)
    → IsOutcome log_delta x j disk n answers (reconcile_fork log_delta x j disk n statuses answers)
unfolding reconcile_fork
reconcile_fork-IsOutcome log_delta x j disk n statuses answers =
    let s = n.replica.state in
    let height = chain_height_of n in
    let floor = saturating_sub height max_auto_reorg_depth in
    elim (Option-cases (select_best_peer statuses s.genesis_hash s.chain_work)) [
      | inl alone ↦ rw (alone, reconcile_fork) (refused ReorgStop.no_heavier_peer)
      | inr (best, chosen) ↦ elim (Bool-cases (ltb best.height height)) [
        | inl lower ↦ rw (chosen, lower, reconcile_fork) (refused ReorgStop.lower_peer)
        | inr enough ↦ elim (Result-cases (probe x n.store (answers best).headers floor height)) [
          | inl (why, lost) ↦ rw (chosen, enough, lost, reconcile_fork) (refused why)
          | inr (fork_point, found) ↦ elim (Bool-cases (fork_point == height)) [
            | inl own ↦ rw (chosen, enough, found, own, reconcile_fork) (forward best)
            | inr split ↦ elim (Result-cases (plan_rollback x j disk n fork_point)) [
              | inl (why, stopped) ↦
                  rw (chosen, enough, found, split, stopped, reconcile_fork) (refused why)
              | inr (b, planned) ↦
                  rw (chosen, enough, found, split, planned, reconcile_fork)
                    (rolled best fork_point b split planned)
            ]
          ]
        ]
      ]
    ]

roll_back-height :
    (x : External) (j : Json) (disk : Disk) (n : Chain) (b : Rollback)
    → chain_height_of (roll_back x j disk n b) ≡ b.fork_point
unfolding roll_back
roll_back-height x j disk n b = refl

-- A reconciliation that is given up leaves the node as it was. Otherwise the chain's height is the number of blocks
-- it reports above a base: the old tip, or the fork point of a rollback that is grounded in the node's own store
-- and ledger file, and lies below the old tip by eighteen blocks at most.
pub reconcile_fork-outcome :
    (log_delta : ℕ → ℕ → ℤ) (x : External) (j : Json) (disk : Disk) (n : Chain)
    (statuses : List PeerStatus) (answers : PeerStatus → PeerAnswers)
    → let (result, after) = reconcile_fork log_delta x j disk n statuses answers in
      ((why : ReorgStop) × (result ≡ err why) × (after ≡ n))
      ⊎ ((synced base : ℕ) × (result ≡ ok synced)
          × (chain_height_of after ≡ base + synced)
          × ((base ≡ chain_height_of n)
              ⊎ ((b : Rollback) × IsGrounded x j n base b × (chain_height_of n ≤ base + 18))))
reconcile_fork-outcome log_delta x j disk n statuses answers =
    outcome_of _ (reconcile_fork-IsOutcome log_delta x j disk n statuses answers)
  where
    outcome_of :
        (out : Result ReorgStop ℕ × Chain)
        → IsOutcome log_delta x j disk n answers out
        → ((why : ReorgStop) × (out.0 ≡ err why) × (out.1 ≡ n))
          ⊎ ((synced base : ℕ) × (out.0 ≡ ok synced)
              × (chain_height_of out.1 ≡ base + synced)
              × ((base ≡ chain_height_of n)
                  ⊎ ((b : Rollback) × IsGrounded x j n base b × (chain_height_of n ≤ base + 18))))
    outcome_of _ (refused why) = inl (why, refl, refl)
    outcome_of _ (forward best) = inr (
      (sync_forward log_delta x j disk.writes best.height n (answers best).pages).0,
      chain_height_of n,
      refl,
      sync_forward-height log_delta x j disk.writes best.height n (answers best).pages,
      inl refl,
    )
    outcome_of _ (rolled best fork_point b split planned) =
        let grounded = plan_rollback-IsGrounded x j disk n fork_point b planned in
        inr (
          (sync_forward log_delta x j disk.writes best.height (roll_back x j disk n b)
              (answers best).pages).0,
          fork_point,
          refl,
          sync_forward-height log_delta x j disk.writes best.height (roll_back x j disk n b)
                (answers best).pages
              ∙ ap
                  (λ h.
                    h
                    + (sync_forward log_delta x j disk.writes best.height (roll_back x j disk n b)
                        (answers best).pages).0)
                  (roll_back-height x j disk n b ∙ grounded.point),
          inr (b, grounded, grounded.shallow),
        )
