-- ===== src/Store.antt =====
-- The block store of l1-chain/node/src/store.rs: its tables as lists of rows, and each method as what
-- its SQL statements do to them. A u64 is stored as an i64 of the same bits.
pub mod Rows
pub mod Blocks
pub mod Ranges
pub mod Pending
use bina_blockchain_l.Prelude.{
  ℕ, zero, suc, ◌+◌, ◌-◌, ◌*◌, ◌/◌, ◌%◌, ◌^◌, ◌≤◌, ◌<◌, min, max, ◌≡◌, refl, sym, ap, ◌∙◌, ◌≢◌, ◌↔◌,
  ◌⊎◌, inl, inr, Bool, true, false, not, ◌&&◌, ◌||◌, Option, none, some, List, [], ◌∷◌, ◌++◌, map,
  arith, dec_lt, ℕ_discrete, ltb, leb, ◌==◌, if◌then◌else◌, ltb→lt, ltb→le, lt→ltb, le→ltb, leb→le,
  le→leb, ==→eq, ==_refl, ==_ne, tests, Bool-cases, Option-cases, Bool-ext, length, take, drop,
  replicate, get_or, length-append, length-replicate, length-take, length-drop, take-append,
  drop-append, append_cancel, take_within, drop_within, All, All-append, all, filter, u64_mod,
  u64_max, saturating_add, checked_add, wrapping_add, saturating_sub, saturating_add_small,
  wrapping_add_small, Result, ok, err, ◌>>=◌, ◌>>◌, ensure, ok_or, is_ok, >>=-eq-ok, Result-cases,
  Bytes, Bytes-discrete, bytes_lt, bytes_lt_irrefl, bytes_lt_trans, bytes_lt_total, bytes_lt_asymm,
  le_bytes, of_le_bytes, length-le_bytes, of_le_bytes-le_bytes, codes, le_bytes_injective, Key,
  bytes_key, nat_key, same, same→eq, same_refl, same_ne, member, member-append, set_insert,
  set_remove, lookup, insert, erase, keys, lookup-insert, lookup-erase, member-keys-insert,
}
use bina_blockchain_l.Transaction.{SignedTransaction}
use bina_blockchain_l.Node.{BlockRecord}

-- `serde_json` on a signed transaction.
pub record Json : Type 0 where
  pub to_json : SignedTransaction → Bytes
  pub from_json : Bytes → Option SignedTransaction

pub data StoreError : Type 0 where
  database malformed_json : StoreError

-- `as i64`, moved up by 2^63: the order of these numbers is the order of the signed column.
abbrev pub as_i64 : ℕ → ℕ
as_i64 n = (n + 9223372036854775808) % u64_mod

-- A row of `block_transactions`.
pub record TxRow : Type 0 where
  pub row_height : ℕ
  pub tx_index : ℕ
  pub tx_json : Bytes

-- The three tables. A row of `blocks` is a record whose two fields that are no columns, the list of
-- transactions and the time in seconds, are empty. The rows stand in the order of their keys.
pub record BlockStore : Type 0 where
  pub blocks : List BlockRecord
  pub block_transactions : List TxRow
  pub mempool : List (Bytes × Bytes)

unfoldable pub empty_store : BlockStore
empty_store = record { blocks = []; block_transactions = []; mempool = [] }

-- The columns that `insert_block` writes.
abbrev pub row_of : BlockRecord → BlockRecord
row_of r = record r { mined_timestamp_secs = 0; transactions = [] }

unfoldable pub row_to_record : BlockRecord → BlockRecord
row_to_record row = record row { mined_timestamp_secs = row.timestamp / 1000; transactions = [] }

-- `INSERT` into a table ordered by its primary key.
unfoldable pub place : BlockRecord → List BlockRecord → List BlockRecord
place r [] = r ∷ []
place r (q ∷ rows) =
    if ltb (as_i64 r.height) (as_i64 q.height) then r ∷ q ∷ rows else q ∷ place r rows

-- The rows that `OR REPLACE` deletes: those of the same key or of the same unique hash.
abbrev pub clashes : BlockRecord → BlockRecord → Bool
clashes r q = q.height == r.height || same q.block_hash r.block_hash

abbrev pub without : BlockRecord → List BlockRecord → List BlockRecord
without r rows = filter (λ q. not (clashes r q)) rows

-- The rows of a list of transactions, from an index on.
unfoldable pub tx_rows : Json → ℕ → ℕ → List SignedTransaction → List TxRow
tx_rows j height i [] = []
tx_rows j height i (t ∷ txs) =
    record { row_height = height; tx_index = i; tx_json = j.to_json t }
    ∷ tx_rows j height (i + 1) txs

-- `BlockStore::insert_block`, one database transaction; the flag says whether it commits.
unfoldable pub insert_block :
    Json → Bool → BlockStore → BlockRecord → Result StoreError (Unit {0}) × BlockStore
unfolding place tx_rows
insert_block j io s r =
    if io
    then (
      ok tt,
      record s {
        blocks = place (row_of r) (without r s.blocks);
        block_transactions =
            filter (λ t. not (t.row_height == r.height)) s.block_transactions
            ++ tx_rows j r.height 0 r.transactions;
      },
    )
    else (err database, s)

-- `ORDER BY tx_index ASC`
unfoldable pub place_tx : TxRow → List TxRow → List TxRow
place_tx t [] = t ∷ []
place_tx t (u ∷ rows) = if ltb u.tx_index t.tx_index then u ∷ place_tx t rows else t ∷ u ∷ rows

unfoldable pub order_by_index : List TxRow → List TxRow
unfolding place_tx
order_by_index [] = []
order_by_index (t ∷ rows) = place_tx t (order_by_index rows)

unfoldable pub parse_rows : Json → List TxRow → Result StoreError (List SignedTransaction)
parse_rows j [] = ok []
parse_rows j (t ∷ rows) = do
  first ← ok_or (j.from_json t.tx_json) malformed_json
  rest ← parse_rows j rows
  ok (first ∷ rest)

unfoldable pub get_transactions : Json → BlockStore → ℕ → Result StoreError (List SignedTransaction)
get_transactions j s height =
    parse_rows j (order_by_index (filter (λ t. t.row_height == height) s.block_transactions))

-- The first row that passes a test, `optional`.
abbrev pub find : (BlockRecord → Bool) → List BlockRecord → Option BlockRecord
find test [] = none
find test (q ∷ rows) = if test q then some q else find test rows

abbrev pub row_at : ℕ → List BlockRecord → Option BlockRecord
row_at height = find (λ q. q.height == height)

-- A row with its transactions.
unfoldable pub complete : Json → BlockStore → BlockRecord → Result StoreError BlockRecord
unfolding row_to_record
complete j s row = do
  txs ← get_transactions j s row.height
  ok (record (row_to_record row) { transactions = txs })

unfoldable pub complete_found :
    Json → BlockStore → Option BlockRecord → Result StoreError (Option BlockRecord)
complete_found j s none = ok none
complete_found j s (some row) = do r ← complete j s row; ok (some r)

-- `BlockStore::get`
unfoldable pub get : Json → BlockStore → ℕ → Result StoreError (Option BlockRecord)
get j s height = complete_found j s (row_at height s.blocks)

unfoldable pub get_by_hash : Json → BlockStore → Bytes → Result StoreError (Option BlockRecord)
get_by_hash j s hash = complete_found j s (find (λ q. same q.block_hash hash) s.blocks)

unfoldable pub complete_all :
    Json → BlockStore → List BlockRecord → Result StoreError (List BlockRecord)
complete_all j s [] = ok []
complete_all j s (row ∷ rows) = do
  first ← complete j s row
  rest ← complete_all j s rows
  ok (first ∷ rest)

abbrev pub within : ℕ → ℕ → BlockRecord → Bool
within from to q = leb (as_i64 from) (as_i64 q.height) && leb (as_i64 q.height) (as_i64 to)

-- `BlockStore::get_range`
unfoldable pub get_range : Json → BlockStore → ℕ → ℕ → ℕ → Result StoreError (List BlockRecord)
get_range j s from to limit = complete_all j s (take limit (filter (within from to) s.blocks))

-- The row of the largest key, which stands last.
abbrev pub last_row : List BlockRecord → Option BlockRecord
last_row [] = none
last_row (q ∷ rows) = elim (last_row rows) [ none ↦ some q | some l ↦ some l ]

-- `BlockStore::tip_height`: `MAX(height)`, 0 if there is none.
unfoldable pub tip_height : BlockStore → ℕ
tip_height s = elim (last_row s.blocks) [ none ↦ 0 | some q ↦ q.height ]

unfoldable pub block_hash_at : BlockStore → ℕ → Option Bytes
block_hash_at s height = elim (row_at height s.blocks) [ none ↦ none | some q ↦ some q.block_hash ]

abbrev pub not_above : ℕ → ℕ → Bool
not_above height h = leb (as_i64 h) (as_i64 height)

-- `BlockStore::rollback_above`
unfoldable pub rollback_above : Bool → BlockStore → ℕ → Result StoreError (Unit {0}) × BlockStore
rollback_above io s height =
    if io
    then (
      ok tt,
      record s {
        blocks = filter (λ q. not_above height q.height) s.blocks;
        block_transactions = filter (λ t. not_above height t.row_height) s.block_transactions;
      },
    )
    else (err database, s)

-- `BlockStore::latest_checkpoint`: the newest row that pins a real checkpoint.
unfoldable pub latest_checkpoint : BlockStore → Option (Bytes × ℕ)
latest_checkpoint s =
    elim (last_row (filter (λ q. ltb (as_i64 0) (as_i64 q.btc_height)) s.blocks)) [
      | none ↦ none
      | some q ↦ some (q.btc_seed, q.btc_height)
    ]

unfoldable pub all_nullifiers : BlockStore → List Bytes
all_nullifiers s = map (λ q. q.nullifier) s.blocks
