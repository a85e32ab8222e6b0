-- ===== src/Ledger.antt =====
-- The reward ledger of l1-chain/core/src/rewards.rs. A HashMap is an association list; the CSV file is
-- the list of its rows, with the columns that a row is read back from. A write to the file may fail:
-- `io` says whether it goes through.
pub mod Maps
pub mod StateRoot
pub mod Execution
pub mod Text
pub mod Replay
pub mod Conservation
pub mod Nonces
use bina_blockchain_l.Prelude.{
  ℕ, zero, suc, ◌+◌, ◌-◌, ◌*◌, ◌/◌, ◌%◌, ◌^◌, ◌≤◌, ◌<◌, min, max, ◌≡◌, refl, sym, ap, ◌∙◌, ◌≢◌, ◌↔◌,
  ◌⊎◌, inl, inr, Bool, true, false, not, ◌&&◌, ◌||◌, Option, none, some, List, [], ◌∷◌, ◌++◌, map,
  arith, dec_lt, ℕ_discrete, ltb, leb, ◌==◌, if◌then◌else◌, ltb→lt, ltb→le, lt→ltb, le→ltb, leb→le,
  le→leb, ==→eq, ==_refl, ==_ne, tests, Bool-cases, Option-cases, Bool-ext, length, take, drop,
  replicate, get_or, length-append, length-replicate, length-take, length-drop, take-append,
  drop-append, append_cancel, take_within, drop_within, All, All-append, all, filter, u64_mod,
  u64_max, saturating_add, checked_add, wrapping_add, saturating_sub, saturating_add_small,
  wrapping_add_small, Result, ok, err, ◌>>=◌, ◌>>◌, ensure, ok_or, is_ok, >>=-eq-ok, Bytes,
  Bytes-discrete, bytes_lt, bytes_lt_irrefl, bytes_lt_trans, bytes_lt_total, bytes_lt_asymm,
  le_bytes, of_le_bytes, length-le_bytes, of_le_bytes-le_bytes, codes, le_bytes_injective, Key,
  bytes_key, nat_key, same, same→eq, same_refl, same_ne, member, member-append, set_insert,
  set_remove, lookup, insert, erase, keys, lookup-insert, lookup-erase, member-keys-insert,
}
use bina_blockchain_l.External.{External}
use bina_blockchain_l.Transaction.{
  TxError, Transaction, SignedTransaction, verify_transaction, from_hex, to_hex, tx_id,
}
use Maps.{Amounts, amount_of, credit_balance, debit_checked}

pub data LedgerError : Type 0 where
  invalid : TxError → LedgerError
  bad_nonce overflow insufficient : LedgerError
  io_failed : LedgerError

-- A row of ledger.csv: a reward, or a transfer (a line that begins with `tx`).
pub data Row : Type 0 where
  reward_row : (height : ℕ) (addr : Bytes) (reward total timestamp : ℕ) → Row
  tx_row :
      (height : ℕ) (id from to : Bytes) (amount fee nonce : ℕ) (miner : Bytes) (total timestamp : ℕ)
      → Row

-- `RewardLedger`
pub record Ledger : Type 0 where
  pub balances : Amounts
  pub nonces : Amounts
  pub total_mined : ℕ
  pub csv : List Row

abbrev pub balance : Ledger → Bytes → ℕ
balance l a = amount_of a l.balances

abbrev pub nonce_of : Ledger → Bytes → ℕ
nonce_of l a = amount_of a l.nonces

abbrev pub is_empty : Bytes → Bool
is_empty [] = true
is_empty (b ∷ bs) = false

-- The append to the file, after the state in memory has changed.
abbrev pub append_row : {A : Type 0} → Bool → Row → Ledger → A → Result LedgerError A × Ledger
append_row true row l a = (ok a, record l { csv = l.csv ++ row ∷ [] })
append_row false row l a = (err io_failed, l)

-- `RewardLedger::credit`
unfoldable pub credit : Bool → Ledger → ℕ → Bytes → ℕ → ℕ → Result LedgerError ℕ × Ledger
credit io l height miner reward timestamp =
    if reward == 0
    then (ok (balance l miner), l)
    else let total = saturating_add l.total_mined reward in
      let new_balance = wrapping_add (balance l miner) reward in
      append_row io (reward_row height miner reward total timestamp)
        (record l { balances = insert miner new_balance l.balances; total_mined = total })
        new_balance

module _ (x : External) where
  -- The checks of `apply_transaction`, in order; the result is the sum to debit.
  unfoldable pub admissible : Ledger → SignedTransaction → Result LedgerError ℕ
  admissible l s = do
    elim (verify_transaction x s) [ ok u ↦ ok u | err e ↦ err (invalid e) ]
    ensure (s.tx.nonce == nonce_of l (from_hex x s)) bad_nonce
    debit_total ← ok_or (checked_add s.tx.amount s.tx.fee) overflow
    ensure (not (ltb (balance l (from_hex x s)) debit_total)) insufficient
    ok debit_total

  -- The credits of a transfer that has been debited: the recipient's, and the fee's if there is a
  -- fee and a miner.
  unfoldable pub credit_transfer : Amounts → SignedTransaction → Bytes → Amounts
  credit_transfer balances s miner =
      let paid = credit_balance balances (to_hex x s) s.tx.amount in
      if ltb 0 s.tx.fee && not (is_empty miner) then credit_balance paid miner s.tx.fee else paid

  -- What `apply_transaction` does once its checks have passed.
  unfoldable pub execute :
      Bool → Ledger → ℕ → SignedTransaction → Bytes → ℕ → ℕ → Result LedgerError (Unit {0}) × Ledger
  execute io l height s miner timestamp debit_total =
      let (debited, balances) = debit_checked l.balances (from_hex x s) debit_total in
      if debited
      then append_row io
          (tx_row height (tx_id x s) (from_hex x s) (to_hex x s) s.tx.amount s.tx.fee s.tx.nonce
            miner l.total_mined timestamp)
          (record l {
            balances = credit_transfer balances s miner;
            nonces = insert (from_hex x s) (saturating_add s.tx.nonce 1) l.nonces;
          })
          tt
      else (err insufficient, record l { balances = balances })

  -- `RewardLedger::apply_transaction`
  unfoldable pub apply_transaction :
      Bool → Ledger → ℕ → SignedTransaction → Bytes → ℕ → Result LedgerError (Unit {0}) × Ledger
  apply_transaction io l height s miner timestamp = elim (admissible l s) [
    | err e ↦ (err e, l)
    | ok debit_total ↦ execute io l height s miner timestamp debit_total
  ]
