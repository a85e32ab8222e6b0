-- ===== src/Ledger/Replay/Restart.antt =====
-- The rows that the ledger of l1-chain/core/src/rewards.rs appends, and their replay.
use bina_blockchain_l.Prelude.{
  ℕ, ◌+◌, ◌≤◌, ◌<◌, ◌≡◌, refl, sym, ap, ◌∙◌, inl, inr, true, List, [], ◌∷◌, ◌++◌, arith, ltb, ◌==◌,
  lt→ltb, Bool-cases, u64_max, saturating_add, wrapping_add, saturating_add_small,
  wrapping_add_small, Bytes, bytes_key, nat_key,
}
use bina_blockchain_l.External.{External}
use bina_blockchain_l.Emission.{hard_cap}
use bina_blockchain_l.Transaction.{SignedTransaction, from_hex}
use bina_blockchain_l.Ledger.{
  Row, Ledger, balance, nonce_of, credit, credit_transfer, apply_transaction,
}
use bina_blockchain_l.Ledger.Maps.{credit_balance, debit, amount_of-le-sum_of}
use bina_blockchain_l.Ledger.Conservation.{
  IsAdmissible, after_transfer, transfer_row, apply_transaction_outcome, IsBacked,
}
use bina_blockchain_l.Ledger.Replay.{Rebuilt, replay_row, replay_rows}

-- The rows hold the ledger: replaying all of them gives the ledger in memory.
abbrev pub IsSynced : Ledger → Type 0
IsSynced l = replay_rows ([], [], 0) l.csv ≡ (l.balances, l.nonces, l.total_mined)

replay_rows-append :
    (r : Rebuilt) (rows : List Row) (row : Row)
    → replay_rows r (rows ++ row ∷ []) ≡ replay_row (replay_rows r rows) row
unfolding replay_rows
replay_rows-append r [] row = refl
replay_rows-append r (first ∷ rows) row = replay_rows-append (replay_row r first) rows row

transfer-replay :
    (x : External) (l : Ledger) (height : ℕ) (s : SignedTransaction) (miner : Bytes) (ts d : ℕ)
    → IsAdmissible x l s d
    → s.tx.nonce < u64_max
    → replay_row (l.balances, l.nonces, l.total_mined) (transfer_row x l height s miner ts) ≡ (
      (after_transfer x l s miner d).balances,
      (after_transfer x l s miner d).nonces,
      l.total_mined,
    )
unfolding replay_row after_transfer debit credit_transfer
transfer-replay x l height s miner ts d a below =
    let sum : saturating_add s.tx.amount s.tx.fee ≡ d =
      saturating_add_small s.tx.amount s.tx.fee (omega (arith, a.debit_sum, a.no_overflow))
      ∙ a.debit_sum in
    let next : ltb (nonce_of l (from_hex x s)) (saturating_add s.tx.nonce 1) ≡ true =
      lt→ltb _ _ (omega (arith, a.nonce_matches, saturating_add_small s.tx.nonce 1)) in
    rw (sum, next)

-- After a transfer, applied or refused, the rows hold the ledger, if they did before and the transfer's
-- nonce is not the largest u64. The text of the rows is left out.
pub apply_transaction-IsSynced :
    (x : External) (l : Ledger) (height : ℕ) (s : SignedTransaction) (miner : Bytes) (ts : ℕ)
    → s.tx.nonce < u64_max
    → IsSynced l
    → IsSynced (apply_transaction x true l height s miner ts).1
unfolding after_transfer
apply_transaction-IsSynced x l height s miner ts below h =
    elim (apply_transaction_outcome x true l height s miner ts) [
      | inl (e, refused, e') ↦ rw e' h
      | inr (d, a, e') ↦
          let row = transfer_row x l height s miner ts in
          rw e' (
            replay_rows-append ([], [], 0) l.csv row
            ∙ ap (λ r. replay_row r row) h
            ∙ transfer-replay x l height s miner ts d a below)
    ]

-- After the credit of a reward that fits the supply, on a ledger whose balances are backed by mined
-- coins, the rows hold the ledger, if they did before. The text of the rows is left out.
pub credit-IsSynced :
    (l : Ledger) (height : ℕ) (miner : Bytes) (reward ts : ℕ)
    → IsBacked l
    → l.total_mined + reward ≤ hard_cap
    → IsSynced l
    → IsSynced (credit true l height miner reward ts).1
unfolding credit replay_row credit_balance
credit-IsSynced l height miner reward ts k fits h = elim (Bool-cases (reward == 0)) [
  | inl none_left ↦ rw none_left h
  | inr some_left ↦
      let row = Row.reward_row height miner reward (saturating_add l.total_mined reward) ts in
      let bound : balance l miner + reward ≤ u64_max =
        omega (arith, amount_of-le-sum_of miner l.balances, k.backed, k.capped) in
      let small : saturating_add (balance l miner) reward ≡ wrapping_add (balance l miner) reward =
        saturating_add_small (balance l miner) reward bound
        ∙ sym (wrapping_add_small (balance l miner) reward bound) in
      rw some_left
        (replay_rows-append ([], [], 0) l.csv row ∙ ap (λ r. replay_row r row) h ∙ (rw small))
]
