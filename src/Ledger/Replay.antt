-- ===== src/Ledger/Replay.antt =====
-- Rebuilding the ledger from its rows, as `open` and `open_scoped` of l1-chain/core/src/rewards.rs do. A row is
-- what a line of the file is read as; Ledger.Text models the lines.
pub mod Restart
use bina_blockchain_l.Prelude.{
  ℕ, zero, suc, ◌+◌, ◌-◌, ◌*◌, ◌/◌, ◌%◌, ◌^◌, ◌≤◌, ◌<◌, min, max, ◌≡◌, refl, sym, ap, ◌∙◌, ◌≢◌, ◌↔◌,
  ◌⊎◌, inl, inr, Bool, true, false, not, ◌&&◌, ◌||◌, Option, none, some, List, [], ◌∷◌, ◌++◌, map,
  arith, dec_lt, ℕ_discrete, ltb, leb, ◌==◌, if◌then◌else◌, ltb→lt, ltb→le, lt→ltb, le→ltb, leb→le,
  le→leb, ==→eq, ==_refl, ==_ne, tests, Bool-cases, Option-cases, Bool-ext, length, take, drop,
  replicate, get_or, length-append, length-replicate, length-take, length-drop, take-append,
  drop-append, append_cancel, take_within, drop_within, All, All-append, all, filter, u64_mod,
  u64_max, saturating_add, checked_add, wrapping_add, saturating_sub, saturating_add_small,
  wrapping_add_small, Result, ok, err, ◌>>=◌, ◌>>◌, ensure, ok_or, is_ok, >>=-eq-ok, Result-cases,
  Bytes, Bytes-discrete, bytes_lt, bytes_lt_irrefl, bytes_lt_trans, bytes_lt_total, bytes_lt_asymm,
  le_bytes, of_le_bytes, length-le_bytes, of_le_bytes-le_bytes, codes, le_bytes_injective, Key,
  bytes_key, nat_key, same, same→eq, same_refl, same_ne, member, member-append, set_insert,
  set_remove, lookup, insert, erase, keys, lookup-insert, lookup-erase, member-keys-insert,
}
use bina_blockchain_l.Ledger.{Row, Ledger, is_empty}
use bina_blockchain_l.Ledger.Maps.{Amounts, amount_of, credit_balance, debit}

-- What is rebuilt: balances, nonces and the supply.
abbrev pub Rebuilt : Type 0
Rebuilt = Amounts × Amounts × ℕ

-- `let entry = nonces.entry(from).or_insert(0); if next_nonce > *entry { *entry = next_nonce; }`
unfoldable pub note_nonce : Amounts → Bytes → ℕ → Amounts
note_nonce n from next =
    insert from (if ltb (amount_of from n) next then next else amount_of from n) n

-- The balances after a transfer row.
unfoldable pub replay_transfer : Amounts → Bytes → Bytes → ℕ → ℕ → Bytes → Amounts
replay_transfer b from to amount fee miner =
    let paid = credit_balance (debit b from (saturating_add amount fee)) to amount in
    if ltb 0 fee && not (is_empty miner) then credit_balance paid miner fee else paid

-- A row under `open`, which takes the supply from the row.
unfoldable pub replay_row : Rebuilt → Row → Rebuilt
unfolding note_nonce replay_transfer
replay_row (b, n, t) (Row.reward_row height addr reward total ts) =
    (credit_balance b addr reward, n, total)
replay_row (b, n, t) (Row.tx_row height id from to amount fee nonce miner total ts) =
    (replay_transfer b from to amount fee miner, note_nonce n from (saturating_add nonce 1), total)

unfoldable pub replay_rows : Rebuilt → List Row → Rebuilt
replay_rows r [] = r
replay_rows r (row ∷ rows) = replay_rows (replay_row r row) rows

-- `RewardLedger::open` on an existing file.
unfoldable pub open_ledger : List Row → Ledger
open_ledger rows =
    let (b, n, t) = replay_rows ([], [], 0) rows in
    record { balances = b; nonces = n; total_mined = t; csv = rows }

abbrev pub height_of : Row → ℕ
height_of (Row.reward_row height addr reward total ts) = height
height_of (Row.tx_row height id from to amount fee nonce miner total ts) = height

-- The rows that `open_scoped` keeps: those up to the active height.
unfoldable pub rows_within : ℕ → List Row → List Row
rows_within active [] = []
rows_within active (row ∷ rows) =
    if ltb active (height_of row) then rows_within active rows else row ∷ rows_within active rows

-- `latest_reward_index`: for each height the index of its last reward row.
unfoldable pub latest_rewards : ℕ → List Row → List (ℕ × ℕ) → List (ℕ × ℕ)
latest_rewards index [] latest = latest
latest_rewards index (Row.reward_row height addr reward total ts ∷ rows) latest =
    latest_rewards (index + 1) rows (insert height index latest)
latest_rewards index (Row.tx_row height id from to amount fee nonce miner total ts ∷ rows) latest =
    latest_rewards (index + 1) rows latest

abbrev pub is_latest : ℕ → ℕ → List (ℕ × ℕ) → Bool
is_latest height index latest = elim (lookup height latest) [ none ↦ false | some i ↦ i == index ]

-- The second pass of `open_scoped`: a reward counts only from the last row of its height, a transfer
-- from every row.
unfoldable pub replay_scoped : List (ℕ × ℕ) → ℕ → Rebuilt → List Row → Rebuilt
unfolding note_nonce replay_transfer
replay_scoped latest index r [] = r
replay_scoped latest index (b, n, t) (Row.reward_row height addr reward total ts ∷ rows) =
    replay_scoped latest (index + 1)
      (if is_latest height index latest
        then (credit_balance b addr reward, n, saturating_add t reward)
        else (b, n, t))
      rows
replay_scoped latest index (b, n, t)
      (Row.tx_row height id from to amount fee nonce miner total ts ∷ rows) =
    replay_scoped latest (index + 1)
      (replay_transfer b from to amount fee miner, note_nonce n from (saturating_add nonce 1), t)
      rows

-- `RewardLedger::open_scoped` on an existing file.
unfoldable pub open_scoped : List Row → ℕ → Ledger
unfolding rows_within latest_rewards replay_scoped
open_scoped rows active =
    let kept = rows_within active rows in
    let (b, n, t) = replay_scoped (latest_rewards 0 kept []) 0 ([], [], 0) kept in
    record { balances = b; nonces = n; total_mined = t; csv = rows }
