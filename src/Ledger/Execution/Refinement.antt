-- ===== src/Ledger/Execution/Refinement.antt =====
-- The dry run of a block in l1-chain/core/src/rewards.rs against its real execution.
use bina_blockchain_l.Prelude.{
  ℕ, ◌+◌, ◌≤◌, ◌<◌, ◌≡◌, refl, sym, ◌∙◌, ◌⊎◌, inl, inr, true, none, some, List, [], ◌∷◌, arith, ltb,
  ◌==◌, if◌then◌else◌, lt→ltb, le→ltb, tests, Bool-cases, All, u64_max, saturating_add,
  wrapping_add, saturating_add_small, wrapping_add_small, ok, err, Result-cases, Bytes, bytes_key,
  nat_key,
}
use bina_blockchain_l.External.{External}
use bina_blockchain_l.Emission.{hard_cap}
use bina_blockchain_l.Transaction.{SignedTransaction, verify_transaction, from_hex}
use bina_blockchain_l.Ledger.{
  LedgerError, Ledger, balance, nonce_of, append_row, credit, admissible,
}
use bina_blockchain_l.Ledger.Maps.{Amounts, credit_balance, amount_of-le-sum_of}
use bina_blockchain_l.Ledger.Conservation.{
  IsAdmissible, admissible-IsAdmissible, after_transfer, transfer_row, apply_transaction-admissible,
  IsBacked, apply_transaction-IsBacked,
}
use bina_blockchain_l.Ledger.StateRoot.{Overlay, state_root}
use bina_blockchain_l.Ledger.Execution.{
  overlay_credit, overlay_transfer, simulate_step, simulate_loop, simulate_block_execution,
  apply_all, apply_block,
}
use bina_blockchain_l.Ledger.Execution.Agreement.{
  Agrees, Agrees-start, overlay_credit-Agrees, overlay_transfer-Agrees, Agrees-state_root,
}

-- Where the overlay agrees with a ledger, the dry run drops a transaction exactly if that ledger
-- refuses it.
pub simulate_step-admissible :
    (x : External) (b n : Amounts) (o : Overlay) (l : Ledger) (s : SignedTransaction)
    (miner : Bytes)
    → Agrees b n o l.balances l.nonces
    → ((e : LedgerError) × (simulate_step x b n o s miner ≡ none) × (admissible x l s ≡ err e))
      ⊎ ((d : ℕ) × (simulate_step x b n o s miner ≡ some (overlay_transfer x b n o s miner d))
          × (admissible x l s ≡ ok d))
unfolding simulate_step admissible
simulate_step-admissible x b n o l s miner g =
    let from = from_hex x s in
    let bal = g.balances_agree from in
    let non = g.nonces_agree from in
    let d = s.tx.amount + s.tx.fee in
    elim (Result-cases (verify_transaction x s)) [
      | inl (e, h) ↦ inl (LedgerError.invalid e, rw h, rw h)
      | inr (u, h) ↦ elim (Bool-cases (s.tx.nonce == nonce_of l from)) [
        | inr wrong ↦ inl (LedgerError.bad_nonce, ground arith, ground arith)
        | inl right ↦ elim (Bool-cases (ltb u64_max d)) [
          | inl over ↦ inl (LedgerError.overflow, ground arith, ground arith)
          | inr fits ↦ elim (Bool-cases (ltb (balance l from) d)) [
            | inl short ↦ inl (LedgerError.insufficient, ground arith, ground arith)
            | inr covered ↦ inr (d, ground arith, ground arith)
          ]
        ]
      ]
    ]

-- Adding a transfer to the overlay and to the ledger keeps them in agreement, while the nonce is
-- below the largest u64.
overlay_transfer-after_transfer :
    (x : External) (b n : Amounts) (o : Overlay) (l : Ledger) (s : SignedTransaction)
    (miner : Bytes) (d : ℕ)
    → Agrees b n o l.balances l.nonces
    → IsAdmissible x l s d
    → s.tx.nonce < u64_max
    → Agrees b n
        (overlay_transfer x b n o s miner d)
        (after_transfer x l s miner d).balances
        (after_transfer x l s miner d).nonces
unfolding after_transfer
overlay_transfer-after_transfer x b n o l s miner d g a below =
    let next : saturating_add s.tx.nonce 1 ≡ wrapping_add (nonce_of l (from_hex x s)) 1 =
      saturating_add_small s.tx.nonce 1 (omega arith)
      ∙ (omega (arith, a.nonce_matches, wrapping_add_small (nonce_of l (from_hex x s)) 1)) in
    rw next (overlay_transfer-Agrees x b n o l.balances l.nonces s miner d g)

-- The ledger after a transfer that is known to be admissible and whose row is written.
abbrev stepped : External → Ledger → ℕ → SignedTransaction → Bytes → ℕ → ℕ → Ledger
stepped x l height s miner ts d =
    (append_row {A = Unit {0}} true (transfer_row x l height s miner ts)
      (after_transfer x l s miner d) tt).1

-- The loop of the dry run from an overlay that agrees with a ledger: the transactions that it keeps
-- all apply to that ledger, and the overlay and the ledger agree again at the end.
simulate_loop-apply_all :
    (x : External) (b n : Amounts) (o : Overlay) (l : Ledger) (height : ℕ)
    (txs : List SignedTransaction) (miner : Bytes) (ts : ℕ)
    → Agrees b n o l.balances l.nonces
    → IsBacked l
    → All (λ s. s.tx.nonce < u64_max) txs
    → let (applied, o') = simulate_loop x b n o txs miner in
      let (all_ok, l') = apply_all x true l height applied miner ts in
      (all_ok ≡ true)
      × Agrees b n o' l'.balances l'.nonces
      × IsBacked l'
      × (l'.total_mined ≡ l.total_mined)
unfolding simulate_loop apply_all after_transfer
simulate_loop-apply_all x b n o l height [] miner ts g k below = (refl, g, k, refl)
simulate_loop-apply_all x b n o l height (s ∷ txs) miner ts g k below =
    elim (simulate_step-admissible x b n o l s miner g) [
      | inl (e, dropped, refused) ↦
          rw (dropped, simulate_loop)
            (simulate_loop-apply_all x b n o l height txs miner ts g k below.1)
      | inr (d, kept, accepted) ↦
          let a = admissible-IsAdmissible x l s d accepted in
          let l₁ = stepped x l height s miner ts d in
          let same_state = apply_transaction-admissible x true l height s miner ts d accepted in
          let backed : IsBacked l₁ =
            rw same_state at (apply_transaction-IsBacked x true l height s miner ts k) in
          rw (kept, simulate_loop)
            (rw same_state (
              simulate_loop-apply_all x b n (overlay_transfer x b n o s miner d) l₁ height txs miner
                ts (overlay_transfer-after_transfer x b n o l s miner d g a below.0) backed
                below.1))
    ]

-- A reward that fits the supply is credited alike on the overlay and on the ledger.
credit-overlay_credit :
    (x : External) (b n : Amounts) (o : Overlay) (l : Ledger) (height : ℕ) (miner : Bytes)
    (reward ts : ℕ)
    → Agrees b n o l.balances l.nonces
    → IsBacked l
    → l.total_mined + reward ≤ hard_cap
    → let l' = (credit true l height miner reward ts).1 in
      Agrees b n
        (if ltb 0 reward then overlay_credit x b n o miner reward else o)
        l'.balances
        l'.nonces
unfolding credit
credit-overlay_credit x b n o l height miner reward ts g k fits = elim (Bool-cases (reward == 0)) [
  | inl none_left ↦ rw (none_left, le→ltb 0 reward (omega tests)) g
  | inr some_left ↦
      let small : saturating_add (balance l miner) reward ≡ wrapping_add (balance l miner) reward =
        let bound : balance l miner + reward ≤ u64_max =
          omega (arith, amount_of-le-sum_of miner l.balances, k.backed, k.capped) in
        saturating_add_small (balance l miner) reward bound
        ∙ sym (wrapping_add_small (balance l miner) reward bound) in
      rw (some_left, lt→ltb 0 reward (ground arith))
        (rw (← small) (
          unfold credit_balance in
          overlay_credit-Agrees x b n o l.balances l.nonces miner reward g))
]

-- The dry run of a block predicts its execution: on a ledger whose balances are backed by mined coins,
-- with nonces below the largest u64 and a reward that fits the supply, every transaction that the dry
-- run keeps applies to the ledger when the block is applied, and the state root of the resulting ledger
-- is the root that the dry run returned.
pub simulate_block_execution-apply_block :
    (x : External) (l : Ledger) (height : ℕ) (txs : List SignedTransaction) (miner : Bytes)
    (reward ts : ℕ)
    → IsBacked l
    → All (λ s. s.tx.nonce < u64_max) txs
    → l.total_mined + reward ≤ hard_cap
    → let (applied, root) = simulate_block_execution x l txs miner reward in
      let l' = apply_block x true l height applied miner reward ts in
      ((apply_all x true l height applied miner ts).0 ≡ true)
      × (state_root x l'.balances l'.nonces ≡ root)
unfolding simulate_block_execution apply_block
simulate_block_execution-apply_block x l height txs miner reward ts k below fits =
    let (all_ok, g, k', total) =
      simulate_loop-apply_all x l.balances l.nonces [] l height txs miner ts
        (Agrees-start l.balances l.nonces) k below in
    let applied = (simulate_loop x l.balances l.nonces [] txs miner).0 in
    let o = (simulate_loop x l.balances l.nonces [] txs miner).1 in
    let l' = (apply_all x true l height applied miner ts).1 in
    (
      all_ok,
      Agrees-state_root x l.balances l.nonces
          (if ltb 0 reward then overlay_credit x l.balances l.nonces o miner reward else o) _ _
          (credit-overlay_credit x l.balances l.nonces o l' height miner reward ts g k'
            (rw total fits)),
    )
