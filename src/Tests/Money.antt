-- ===== src/Tests/Money.antt =====
-- The ledger at concrete inputs.
use bina_blockchain_l.Prelude.{
  ℕ, ◌+◌, ◌/◌, ◌%◌, ◌≤◌, ◌<◌, ◌≡◌, refl, true, false, List, [], ◌∷◌, ◌++◌, map, arith, All, u64_max,
  ok, err, Bytes, Bytes-discrete, codes, bytes_key, nat_key, member, keys,
}
use bina_blockchain_l.Transaction.{SignedTransaction, verify_transaction, from_hex}
use bina_blockchain_l.Ledger.{Row, bad_nonce, admissible, execute, apply_transaction}
use bina_blockchain_l.Ledger.Maps.{Amounts, amount_of, debit_checked}
use bina_blockchain_l.Ledger.Conservation.{IsBacked, apply_transaction-IsBacked}
use bina_blockchain_l.Ledger.StateRoot.{
  read, state_root, state_root_with_overlay, state_root-extensional,
}
use bina_blockchain_l.Ledger.Execution.{simulate_block_execution, apply_all, apply_block}
use bina_blockchain_l.Ledger.Execution.Refinement.{simulate_block_execution-apply_block}
use bina_blockchain_l.External.{External}
use bina_blockchain_l.Ledger.Text.{row_line, read_file}
use bina_blockchain_l.Ledger.Text.Numbers.{IsPlain}
use bina_blockchain_l.Ledger.Text.ReadBack.{HexIsPlain, IsWritable, read_back, read_file-row_line}
use bina_blockchain_l.Ledger.Nonces.{LedgerCall, apply_calls, apply_transaction-once}
use bina_blockchain_l.Tests.Fixtures.{
  toy, alice, bob, signed_payment, second_payment, toy_ledger, toy_ledger-IsBacked,
}

abbrev block : List SignedTransaction
block = signed_payment ∷ second_payment ∷ []

block_nonces : All (λ s. s.tx.nonce < u64_max) block
block_nonces = (omega arith, (omega arith, tt))

simulate_block_execution-apply_block_example :
    let (applied, root) = simulate_block_execution toy toy_ledger block bob 50 in
    let l' = apply_block toy true toy_ledger 1 applied bob 50 7 in
    ((apply_all toy true toy_ledger 1 applied bob 7).0 ≡ true)
    × (state_root toy l'.balances l'.nonces ≡ root)
simulate_block_execution-apply_block_example =
    simulate_block_execution-apply_block toy toy_ledger 1 block bob 50 7 toy_ledger-IsBacked
      block_nonces (omega arith)

payment_applies : (apply_transaction toy true toy_ledger 1 signed_payment bob 7).0 ≡ ok tt
unfolding apply_transaction admissible execute verify_transaction Bytes-discrete amount_of from_hex
    debit_checked
payment_applies = refl

-- A reward and the block's own transactions, in blocks of two other miners.
abbrev in_between : List LedgerCall
in_between =
    LedgerCall.reward true 1 bob 50 7
    ∷ LedgerCall.transfer true 2 second_payment alice 9
    ∷ LedgerCall.transfer false 2 signed_payment alice 9
    ∷ []

apply_transaction-once_example :
    let later =
      apply_calls toy (apply_transaction toy true toy_ledger 1 signed_payment bob 7).1 in_between in
    apply_transaction toy true later 3 signed_payment alice 11 ≡ (err bad_nonce, later)
apply_transaction-once_example =
    apply_transaction-once toy true true toy_ledger 1 3 signed_payment in_between bob alice 7 11
      (omega arith) (tt, ((omega arith), ((omega arith), tt))) payment_applies

apply_transaction-IsBacked_example :
    IsBacked (apply_transaction toy true toy_ledger 1 signed_payment bob 7).1
apply_transaction-IsBacked_example =
    apply_transaction-IsBacked toy true toy_ledger 1 signed_payment bob 7 toy_ledger-IsBacked

abbrev one_order : Amounts
one_order = (0 ∷ [], 1) ∷ (1 ∷ [], 2) ∷ []

abbrev other_order : Amounts
other_order = (1 ∷ [], 2) ∷ (0 ∷ [], 1) ∷ []

same_reads : (a : Bytes) → read one_order [] [] a ≡ read other_order [] [] a
unfolding read amount_of
same_reads a = ground arith

same_members :
    (a : Bytes)
    → member a (keys one_order ++ (keys {V = ℕ} [] ++ keys {V = ℕ × ℕ} []))
      ≡ member a (keys other_order ++ (keys {V = ℕ} [] ++ keys {V = ℕ × ℕ} []))
same_members a = ground arith

state_root-extensional_example :
    state_root_with_overlay toy one_order [] [] ≡ state_root_with_overlay toy other_order [] []
state_root-extensional_example =
    state_root-extensional toy one_order other_order [] [] [] [] same_reads same_members

-- Two letters for a byte.
abbrev two_letters : Bytes → Bytes
two_letters [] = []
two_letters (c ∷ b) = (97 + c / 16 % 16) ∷ ((97 + c % 16) ∷ two_letters b)

abbrev lettered : External
lettered = record toy { hex_encode = two_letters }

lettered-HexIsPlain : HexIsPlain lettered
lettered-HexIsPlain [] = tt
lettered-HexIsPlain (c ∷ b) =
    let high : 97 + c / 16 % 16 < 113 = omega arith in
    let low : 97 + c % 16 < 113 = omega arith in
    (
      (omega arith, omega arith, λ e. absurd (omega arith)),
      ((omega arith, omega arith, λ e. absurd (omega arith)), lettered-HexIsPlain b),
    )

abbrev two_rows : List Row
two_rows =
    Row.reward_row 1 (97 ∷ []) 50 50 1700
    ∷ Row.tx_row 2 (1 ∷ 2 ∷ []) (97 ∷ []) (98 ∷ []) 5 1 0 (99 ∷ []) 50 1800
    ∷ []

letter-IsPlain : (c : ℕ) → 97 ≤ c → c ≤ 122 → IsPlain (c ∷ [])
letter-IsPlain c low high = ((omega arith, omega arith, λ e. absurd (omega arith)), tt)

two_rows-IsWritable : All IsWritable two_rows
two_rows-IsWritable =
    let a = letter-IsPlain 97 (omega arith) (omega arith) in
    let b = letter-IsPlain 98 (omega arith) (omega arith) in
    let c = letter-IsPlain 99 (omega arith) (omega arith) in
    (
      (a, omega arith, omega arith, omega arith),
      ((a, b, c, omega arith, omega arith, omega arith, omega arith, omega arith), tt),
    )

read_file-row_line_example :
    read_file lettered (codes "height" ∷ map (row_line lettered) two_rows) ≡ map read_back two_rows
read_file-row_line_example =
    read_file-row_line lettered (codes "height") two_rows (λ s h. refl) lettered-HexIsPlain
      two_rows-IsWritable
