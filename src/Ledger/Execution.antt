-- ===== src/Ledger/Execution.antt =====
-- Block execution of l1-chain/core/src/rewards.rs: the dry run over an overlay, and the application of
-- a block to the ledger as the sync loop of l1-chain/node/src/main.rs does it.
pub mod Agreement
pub mod Refinement
use bina_blockchain_l.Prelude.{
  ℕ, zero, suc, ◌+◌, ◌-◌, ◌*◌, ◌/◌, ◌%◌, ◌^◌, ◌≤◌, ◌<◌, min, max, ◌≡◌, refl, sym, ap, ◌∙◌, ◌≢◌, ◌↔◌,
  ◌⊎◌, inl, inr, Bool, true, false, not, ◌&&◌, ◌||◌, Option, none, some, List, [], ◌∷◌, ◌++◌, map,
  arith, dec_lt, ℕ_discrete, ltb, leb, ◌==◌, if◌then◌else◌, ltb→lt, ltb→le, lt→ltb, le→ltb, leb→le,
  le→leb, ==→eq, ==_refl, ==_ne, tests, Bool-cases, Option-cases, Bool-ext, length, take, drop,
  replicate, get_or, length-append, length-replicate, length-take, length-drop, take-append,
  drop-append, append_cancel, take_within, drop_within, All, All-append, all, filter, u64_mod,
  u64_max, saturating_add, checked_add, wrapping_add, saturating_sub, saturating_add_small,
  wrapping_add_small, Result, ok, err, ◌>>=◌, ◌>>◌, ensure, ok_or, is_ok, >>=-eq-ok, Result-cases,
  Bytes, Bytes-discrete, bytes_lt, bytes_lt_irrefl, bytes_lt_trans, bytes_lt_total, bytes_lt_asymm,
  le_bytes, of_le_bytes, length-le_bytes, of_le_bytes-le_bytes, codes, le_bytes_injective, Key,
  bytes_key, nat_key, same, same→eq, same_refl, same_ne, member, member-append, set_insert,
  set_remove, lookup, insert, erase, keys, lookup-insert, lookup-erase, member-keys-insert,
}
use bina_blockchain_l.External.{External}
use bina_blockchain_l.Transaction.{SignedTransaction, verify_transaction, from_hex, to_hex}
use bina_blockchain_l.Ledger.{Ledger, is_empty, credit, apply_transaction}
use bina_blockchain_l.Ledger.Maps.{Amounts}
use bina_blockchain_l.Ledger.StateRoot.{Overlay, read, state_root_with_overlay}

module _ (x : External) (balances nonces : Amounts) where
  -- Adds to a balance of the overlay, as three places of the dry run do.
  unfoldable pub overlay_credit : Overlay → Bytes → ℕ → Overlay
  overlay_credit o a v =
      insert a (saturating_add (read balances nonces o a).0 v, (read balances nonces o a).1) o

  -- The effect of a transfer that passes its checks.
  unfoldable pub overlay_transfer : Overlay → SignedTransaction → Bytes → ℕ → Overlay
  unfolding overlay_credit
  overlay_transfer o s miner debit_total =
      let (from_balance, from_nonce) = read balances nonces o (from_hex x s) in
      let debited =
        insert (from_hex x s) (from_balance - debit_total, wrapping_add from_nonce 1) o in
      let paid = overlay_credit debited (to_hex x s) s.tx.amount in
      if ltb 0 s.tx.fee && not (is_empty miner) then overlay_credit paid miner s.tx.fee else paid

  -- One round of the loop; `none` where the loop continues without the transaction.
  unfoldable pub simulate_step : Overlay → SignedTransaction → Bytes → Option Overlay
  simulate_step o s miner =
      if not (is_ok (verify_transaction x s))
      then none
      else if not (s.tx.nonce == (read balances nonces o (from_hex x s)).1)
      then none
      else elim (checked_add s.tx.amount s.tx.fee) [
        | none ↦ none
        | some debit_total ↦
            if ltb (read balances nonces o (from_hex x s)).0 debit_total
            then none
            else some (overlay_transfer o s miner debit_total)
      ]

  unfoldable pub simulate_loop :
      Overlay → List SignedTransaction → Bytes → List SignedTransaction × Overlay
  simulate_loop o [] miner = ([], o)
  simulate_loop o (s ∷ txs) miner =
      let skipped = simulate_loop o txs miner in
      elim (simulate_step o s miner) [
        | none ↦ skipped
        | some o' ↦ let (applied, last) = simulate_loop o' txs miner in (s ∷ applied, last)
      ]

-- `simulate_block_execution`
unfoldable pub simulate_block_execution :
    External → Ledger → List SignedTransaction → Bytes → ℕ → List SignedTransaction × Bytes
simulate_block_execution x l txs miner reward =
    let (applied, o) = simulate_loop x l.balances l.nonces [] txs miner in
    let o' = if ltb 0 reward then overlay_credit x l.balances l.nonces o miner reward else o in
    (applied, state_root_with_overlay x l.balances l.nonces o')

-- Each transaction is applied; a failure is only logged. The flag says whether none failed.
unfoldable pub apply_all :
    External → Bool → Ledger → ℕ → List SignedTransaction → Bytes → ℕ → Bool × Ledger
apply_all x io l height [] miner ts = (true, l)
apply_all x io l height (s ∷ txs) miner ts =
    let (r, l') = apply_transaction x io l height s miner ts in
    let (rest, last) = apply_all x io l' height txs miner ts in (is_ok r && rest, last)

-- A finalized block: its transactions, and then its reward.
unfoldable pub apply_block :
    External → Bool → Ledger → ℕ → List SignedTransaction → Bytes → ℕ → ℕ → Ledger
unfolding apply_all
apply_block x io l height txs miner reward ts =
    (credit io (apply_all x io l height txs miner ts).1 height miner reward ts).1
