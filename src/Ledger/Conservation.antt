-- ===== src/Ledger/Conservation.antt =====
-- What a transfer and a reward do to the ledger of l1-chain/core/src/rewards.rs: sums are kept, errors
-- change nothing, and the supply bounds every balance.
use bina_blockchain_l.Prelude.{
  ℕ, ◌+◌, ◌-◌, ◌≤◌, ◌≡◌, refl, ◌⊎◌, inl, inr, Bool, true, false, arith, ◌==◌, if◌then◌else◌, le→ltb,
  Bool-cases, u64_max, saturating_add, wrapping_add, saturating_add_small, wrapping_add_small, ok,
  err, Result-cases, Bytes, bytes_key, nat_key, insert,
}
use bina_blockchain_l.External.{External}
use bina_blockchain_l.Emission.{hard_cap, block_reward}
use bina_blockchain_l.Emission.Schedule.{block_reward_bounds}
use bina_blockchain_l.Transaction.{SignedTransaction, verify_transaction, from_hex, to_hex, tx_id}
use bina_blockchain_l.Ledger.Maps.{
  Amounts, amount_of, credit_balance, debit_checked, sum_of, sum_of-insert, amount_of-le-sum_of,
}
use bina_blockchain_l.Ledger.{
  LedgerError, Ledger, Row, balance, nonce_of, is_empty, append_row, credit, admissible,
  credit_transfer, execute, apply_transaction,
}

-- What the checks of `apply_transaction` have established.
pub record IsAdmissible (x : External) (l : Ledger) (s : SignedTransaction) (debit_total : ℕ)
    : Type 0 where
  pub verified : verify_transaction x s ≡ ok tt
  pub nonce_matches : s.tx.nonce ≡ nonce_of l (from_hex x s)
  pub debit_sum : s.tx.amount + s.tx.fee ≡ debit_total
  pub no_overflow : debit_total ≤ u64_max
  pub covered : debit_total ≤ balance l (from_hex x s)

pub admissible-IsAdmissible :
    (x : External) (l : Ledger) (s : SignedTransaction) (d : ℕ)
    → admissible x l s ≡ ok d
    → IsAdmissible x l s d
unfolding admissible
admissible-IsAdmissible x l s d h = ground arith

-- What a transfer leaves of the sum of all balances: all of it, less the fee if no miner takes it.
unfoldable pub burned : SignedTransaction → Bytes → ℕ
burned s miner = if is_empty miner then s.tx.fee else 0

credit_balance-sum :
    (m : Amounts) (a : Bytes) (v : ℕ)
    → sum_of m + v ≤ u64_max
    → sum_of (credit_balance m a v) ≡ sum_of m + v
unfolding credit_balance
credit_balance-sum m a v h = omega (
  arith,
  sum_of-insert a (saturating_add (amount_of a m) v) m,
  amount_of-le-sum_of a m,
  saturating_add_small (amount_of a m) v,
)

credit_transfer-sum :
    (x : External) (m : Amounts) (s : SignedTransaction) (miner : Bytes)
    → sum_of m + s.tx.amount + s.tx.fee ≤ u64_max
    → sum_of (credit_transfer x m s miner) + burned s miner ≡ sum_of m + s.tx.amount + s.tx.fee
unfolding credit_transfer burned
credit_transfer-sum x m s miner h =
    let paid = credit_balance m (to_hex x s) s.tx.amount in
    ground
      (arith, credit_balance-sum m (to_hex x s) s.tx.amount, credit_balance-sum paid miner s.tx.fee)

debit_checked_lem :
    (m : Amounts) (a : Bytes) (v : ℕ)
    → v ≤ amount_of a m
    → debit_checked m a v ≡ (true, insert a (amount_of a m - v) m)
unfolding debit_checked
debit_checked_lem m a v h = rw (le→ltb (amount_of a m) v h)

-- The ledger in memory after a transfer whose checks have passed.
unfoldable pub after_transfer : External → Ledger → SignedTransaction → Bytes → ℕ → Ledger
after_transfer x l s miner debit_total = record l {
  balances =
      credit_transfer x (insert (from_hex x s) (balance l (from_hex x s) - debit_total) l.balances)
        s miner;
  nonces = insert (from_hex x s) (saturating_add s.tx.nonce 1) l.nonces;
}

abbrev pub transfer_row : External → Ledger → ℕ → SignedTransaction → Bytes → ℕ → Row
transfer_row x l height s miner ts =
    Row.tx_row height (tx_id x s) (from_hex x s) (to_hex x s) s.tx.amount s.tx.fee s.tx.nonce miner
      l.total_mined ts

pub apply_transaction-admissible :
    (x : External) (io : Bool) (l : Ledger) (height : ℕ) (s : SignedTransaction) (miner : Bytes)
    (ts d : ℕ)
    → admissible x l s ≡ ok d
    → apply_transaction x io l height s miner ts
      ≡ append_row io (transfer_row x l height s miner ts) (after_transfer x l s miner d) tt
unfolding apply_transaction execute after_transfer
apply_transaction-admissible x io l height s miner ts d h =
    let a = admissible-IsAdmissible x l s d h in
    rw (h, apply_transaction)
      (rw (debit_checked_lem l.balances (from_hex x s) d a.covered, execute))

-- A transfer fails one of its checks and leaves the ledger as it was, or passes them and leaves the
-- debited and credited balances and the next nonce in memory, also if the row could not be written.
pub apply_transaction_outcome :
    (x : External) (io : Bool) (l : Ledger) (height : ℕ) (s : SignedTransaction) (miner : Bytes)
    (ts : ℕ)
    → ((e : LedgerError) × (admissible x l s ≡ err e)
        × (apply_transaction x io l height s miner ts ≡ (err e, l)))
      ⊎ ((d : ℕ) × IsAdmissible x l s d
          × (apply_transaction x io l height s miner ts
              ≡ append_row io
                  (Row.tx_row height
                    (tx_id x s)
                    (from_hex x s)
                    (to_hex x s)
                    s.tx.amount
                    s.tx.fee
                    s.tx.nonce
                    miner
                    l.total_mined
                    ts)
                  (after_transfer x l s miner d)
                  tt))
unfolding apply_transaction execute after_transfer
apply_transaction_outcome x io l height s miner ts = elim (Result-cases (admissible x l s)) [
  | inl (e, h) ↦ inl (e, h, rw (h, apply_transaction))
  | inr (d, h) ↦
      let a = admissible-IsAdmissible x l s d h in
      inr (
        d,
        a,
        rw (h, apply_transaction)
            (rw (debit_checked_lem l.balances (from_hex x s) d a.covered, execute)),
      )
]

pub append_row-state :
    {A : Type 0} (io : Bool) (row : Row) (l : Ledger) (a : A)
    → ((append_row io row l a).1.balances ≡ l.balances)
      × ((append_row io row l a).1.nonces ≡ l.nonces)
      × ((append_row io row l a).1.total_mined ≡ l.total_mined)
append_row-state true row l a = (refl, refl, refl)
append_row-state false row l a = (refl, refl, refl)

-- Every balance is backed by mined coins, and those are within the hard cap.
pub record IsBacked (l : Ledger) : Type 0 where
  pub backed : sum_of l.balances ≤ l.total_mined
  pub capped : l.total_mined ≤ hard_cap

after_transfer-sum :
    (x : External) (l : Ledger) (s : SignedTransaction) (miner : Bytes) (d : ℕ)
    → IsAdmissible x l s d
    → sum_of l.balances ≤ u64_max
    → sum_of (after_transfer x l s miner d).balances + burned s miner ≡ sum_of l.balances
unfolding after_transfer
after_transfer-sum x l s miner d a h =
    let from = from_hex x s in
    let debited = insert from (balance l from - d) l.balances in
    omega (
      arith,
      sum_of-insert from (balance l from - d) l.balances,
      a.covered,
      a.debit_sum,
      credit_transfer-sum x debited s miner,
    )

after_transfer-total :
    (x : External) (l : Ledger) (s : SignedTransaction) (miner : Bytes) (d : ℕ)
    → (after_transfer x l s miner d).total_mined ≡ l.total_mined
unfolding after_transfer
after_transfer-total x l s miner d = refl

-- A transfer that is applied keeps the sum of all balances, less its fee where no miner is named, and
-- creates no coins; the hypothesis is that the ledger's balances are backed by mined coins.
pub apply_transaction-sum :
    (x : External) (io : Bool) (l : Ledger) (height : ℕ) (s : SignedTransaction) (miner : Bytes)
    (ts : ℕ)
    → IsBacked l
    → (apply_transaction x io l height s miner ts).0 ≡ ok tt
    → let l' = (apply_transaction x io l height s miner ts).1 in
      (sum_of l'.balances + burned s miner ≡ sum_of l.balances) × (l'.total_mined ≡ l.total_mined)
apply_transaction-sum x io l height s miner ts b done =
    elim (apply_transaction_outcome x io l height s miner ts) [
      | inl (e, h, same_l) ↦ cc
      | inr (d, a, same_l) ↦
          let row =
            Row.tx_row height (tx_id x s) (from_hex x s) (to_hex x s) s.tx.amount s.tx.fee
              s.tx.nonce miner l.total_mined ts in
          rw same_l (
            rw (append_row-state io row (after_transfer x l s miner d) tt).0
                (after_transfer-sum x l s miner d a (omega (arith, b.backed, b.capped))),
            rw (append_row-state io row (after_transfer x l s miner d) tt).2
                (after_transfer-total x l s miner d),
          )
    ]

-- A ledger whose balances are backed by mined coins stays so after every transfer, applied or
-- refused, and whether or not the row is written.
pub apply_transaction-IsBacked :
    (x : External) (io : Bool) (l : Ledger) (height : ℕ) (s : SignedTransaction) (miner : Bytes)
    (ts : ℕ)
    → IsBacked l
    → IsBacked (apply_transaction x io l height s miner ts).1
apply_transaction-IsBacked x io l height s miner ts b =
    elim (apply_transaction_outcome x io l height s miner ts) [
      | inl (e, h, same_l) ↦ rw same_l b
      | inr (d, a, same_l) ↦
          let row =
            Row.tx_row height (tx_id x s) (from_hex x s) (to_hex x s) s.tx.amount s.tx.fee
              s.tx.nonce miner l.total_mined ts in
          let state = append_row-state io row (after_transfer x l s miner d) tt in
          let total = after_transfer-total x l s miner d in
          let kept = after_transfer-sum x l s miner d a (omega (arith, b.backed, b.capped)) in
          rw same_l (record {
            backed = rw (state.0, state.2) (omega (arith, b.backed));
            capped = rw state.2 (omega (arith, b.capped));
          })
    ]

wrapping_credit-sum :
    (m : Amounts) (a : Bytes) (v : ℕ)
    → sum_of m + v ≤ u64_max
    → sum_of (insert a (wrapping_add (amount_of a m) v) m) ≡ sum_of m + v
wrapping_credit-sum m a v h = omega (
  arith,
  sum_of-insert a (wrapping_add (amount_of a m) v) m,
  amount_of-le-sum_of a m,
  wrapping_add_small (amount_of a m) v,
)

-- A ledger whose balances are backed by mined coins stays so after the credit of the reward that its
-- height and total give, whether or not the row is written.
pub credit-IsBacked :
    (io : Bool) (l : Ledger) (height : ℕ) (miner : Bytes) (ts : ℕ)
    → IsBacked l
    → IsBacked (credit io l height miner (block_reward height l.total_mined) ts).1
unfolding credit
credit-IsBacked io l height miner ts b =
    let reward = block_reward height l.total_mined in
    let fits = (block_reward_bounds height l.total_mined b.capped).0 in
    let total = saturating_add l.total_mined reward in
    let new_balance = wrapping_add (balance l miner) reward in
    let l' : Ledger = record l {
      balances = insert miner new_balance l.balances;
      total_mined = total;
    } in
    let state = append_row-state io (Row.reward_row height miner reward total ts) l' new_balance in
    elim (Bool-cases (reward == 0)) [
      | inl none_left ↦ rw none_left b
      | inr some_left ↦ rw some_left (record {
        backed =
            rw (state.0, state.2)
              (omega (
                arith,
                b.backed,
                fits,
                saturating_add_small l.total_mined reward,
                wrapping_credit-sum l.balances miner reward,
              ));
        capped = rw state.2 (omega (arith, fits, saturating_add_small l.total_mined reward));
      })
    ]
