-- ===== src/Node/Accept/Execution.antt =====
-- What a claim that passes `accept_signed_claim` of l1-chain/node/src/main.rs promises about its
-- transactions.
use bina_blockchain_l.Prelude.{
  ℕ, suc, ◌+◌, ◌≤◌, ◌<◌, ◌≡◌, refl, ap, ◌∙◌, inl, inr, true, List, [], ◌∷◌, arith, ◌==◌, ==→eq,
  Bool-cases, Option-cases, length, All, u64_max, ok, Bytes, bytes_key, nat_key, same, same→eq,
}
use bina_blockchain_l.External.{External}
use bina_blockchain_l.Emission.{hard_cap}
use bina_blockchain_l.Block.{L1BlockHeader}
use bina_blockchain_l.Transaction.{SignedTransaction}
use bina_blockchain_l.Ledger.{Ledger}
use bina_blockchain_l.Ledger.Conservation.{IsBacked}
use bina_blockchain_l.Ledger.StateRoot.{state_root}
use bina_blockchain_l.Ledger.Execution.{
  simulate_step, simulate_loop, simulate_block_execution, apply_all, apply_block,
}
use bina_blockchain_l.Ledger.Execution.Refinement.{simulate_block_execution-apply_block}
use bina_blockchain_l.Ledger.Maps.{Amounts}
use bina_blockchain_l.Ledger.StateRoot.{Overlay}
use bina_blockchain_l.Node.Accept.{check_execution}

-- The dry run keeps at most as many transactions as it is given.
pub simulate_loop-length :
    (x : External) (b n : Amounts) (o : Overlay) (txs : List SignedTransaction) (miner : Bytes)
    → length (simulate_loop x b n o txs miner).0 ≤ length txs
unfolding simulate_loop
simulate_loop-length x b n o [] miner = omega arith
simulate_loop-length x b n o (s ∷ txs) miner = elim (Option-cases (simulate_step x b n o s miner)) [
  | inl dropped ↦
      rw (dropped, simulate_loop) (omega (arith, simulate_loop-length x b n o txs miner))
  | inr (o', kept) ↦
      rw (kept, simulate_loop) (omega (arith, simulate_loop-length x b n o' txs miner))
]

-- A dry run that keeps as many transactions as it is given keeps them all.
pub simulate_loop-all :
    (x : External) (b n : Amounts) (o : Overlay) (txs : List SignedTransaction) (miner : Bytes)
    → length (simulate_loop x b n o txs miner).0 ≡ length txs
    → (simulate_loop x b n o txs miner).0 ≡ txs
unfolding simulate_loop
simulate_loop-all x b n o [] miner h = refl
simulate_loop-all x b n o (s ∷ txs) miner h = elim (Option-cases (simulate_step x b n o s miner)) [
  | inl dropped ↦
      let kept : length (simulate_loop x b n o txs miner).0 ≡ suc (length txs) =
        rw (dropped, simulate_loop) at h in
      absurd (omega (arith, kept, simulate_loop-length x b n o txs miner))
  | inr (o', kept) ↦
      let rest : suc (length (simulate_loop x b n o' txs miner).0) ≡ suc (length txs) =
        rw (kept, simulate_loop) at h in
      rw (kept, simulate_loop)
        (ap (λ ts. s ∷ ts) (simulate_loop-all x b n o' txs miner (omega (arith, rest))))
]

-- What the two tests of the execution check say.
check_execution-ok :
    (x : External) (l : Ledger) (h : L1BlockHeader) (txs : List SignedTransaction) (reward : ℕ)
    → check_execution x l h txs reward ≡ ok tt
    → let (applied, root) =
        simulate_block_execution x l txs (x.hex_encode h.miner_address) reward in
      (length applied ≡ length txs) × (root ≡ h.state_root)
unfolding check_execution
check_execution-ok x l h txs reward passed =
    let run = simulate_block_execution x l txs (x.hex_encode h.miner_address) reward in
    elim (Bool-cases (length run.0 == length txs)) [
      | inr dropped ↦ ground arith
      | inl full ↦ elim (Bool-cases (same run.1 h.state_root)) [
        | inr other ↦ ground arith
        | inl root ↦ (==→eq _ _ full, same→eq _ _ root)
      ]
    ]

-- A block whose claim passes the execution check does what its header says: on a ledger whose balances
-- are backed by mined coins, with nonces below the largest u64 and a reward that fits the supply,
-- every transaction of the block applies when the block is applied, in the given order, and the state
-- root of the resulting ledger is the one in the header.
pub check_execution-apply_block :
    (x : External) (l : Ledger) (h : L1BlockHeader) (txs : List SignedTransaction)
    (reward height ts : ℕ)
    → IsBacked l
    → All (λ s. s.tx.nonce < u64_max) txs
    → l.total_mined + reward ≤ hard_cap
    → check_execution x l h txs reward ≡ ok tt
    → let miner = x.hex_encode h.miner_address in
      let l' = apply_block x true l height txs miner reward ts in
      ((apply_all x true l height txs miner ts).0 ≡ true)
      × (state_root x l'.balances l'.nonces ≡ h.state_root)
unfolding simulate_block_execution
check_execution-apply_block x l h txs reward height ts k below fits passed =
    let miner = x.hex_encode h.miner_address in
    let (full, root) = check_execution-ok x l h txs reward passed in
    let all_kept = simulate_loop-all x l.balances l.nonces [] txs miner full in
    let (all_ok, same_root) =
      simulate_block_execution-apply_block x l height txs miner reward ts k below fits in
    (rw all_kept at all_ok, (rw all_kept at same_root) ∙ root)
