-- ===== src/Store/Rows.antt =====
-- The rows of a block in the tables of l1-chain/node/src/store.rs: what `insert_block` of that file
-- leaves in them, and the order of the keys.
use bina_blockchain_l.Prelude.{
  ℕ, ◌+◌, ◌≤◌, ◌<◌, ◌≡◌, refl, ◌≢◌, inl, inr, Bool, true, false, not, none, some, List, [], ◌∷◌,
  ◌++◌, arith, ltb, ◌==◌, if◌then◌else◌, ltb→lt, ltb→le, Bool-cases, All, filter, u64_max, ok,
  bytes_key, nat_key, same,
}
use mathlib.Core.List.{append-nil}
use bina_blockchain_l.Transaction.{SignedTransaction}
use bina_blockchain_l.Node.{BlockRecord}
use bina_blockchain_l.Store.{
  Json, TxRow, BlockStore, as_i64, place, without, tx_rows, place_tx, order_by_index, parse_rows,
  get_transactions, row_at, not_above, insert_block, rollback_above,
}

-- A row is found by its key among the rows that stay after a deletion.
pub row_at-place :
    (k : ℕ) (r : BlockRecord) (rows : List BlockRecord)
    → row_at r.height rows ≡ none
    → row_at k (place r rows) ≡ (if r.height == k then some r else row_at k rows)
unfolding place
row_at-place k r [] h = refl
row_at-place k r (q ∷ rows) h = ground (arith, row_at-place k r rows)

pub row_at-without_self :
    (r : BlockRecord) (rows : List BlockRecord) → row_at r.height (without r rows) ≡ none
row_at-without_self r [] = refl
row_at-without_self r (q ∷ rows) = ground (arith, row_at-without_self r rows)

-- No row of another height has the hash of a record.
abbrev pub IsNewHash : BlockRecord → List BlockRecord → Type 0
IsNewHash r = All (λ q. same q.block_hash r.block_hash ≡ true → q.height ≡ r.height)

pub row_at-without :
    (k : ℕ) (r : BlockRecord) (rows : List BlockRecord)
    → IsNewHash r rows
    → (r.height ≢ k)
    → row_at k (without r rows) ≡ row_at k rows
row_at-without k r [] h ne = refl
row_at-without k r (q ∷ rows) h ne = ground (arith, h.0, row_at-without k r rows h.1)

pub row_at-filter_above :
    (k height : ℕ) (rows : List BlockRecord)
    → row_at k (filter (λ q. not_above height q.height) rows)
      ≡ (if not_above height k then row_at k rows else none)
row_at-filter_above k height [] = ground arith
row_at-filter_above k height (q ∷ rows) = ground (arith, row_at-filter_above k height rows)

-- The keys ascend, so each height has one row.
abbrev pub AllAbove : ℕ → List BlockRecord → Type 0
AllAbove h = All (λ q. h < as_i64 q.height)

abbrev pub IsOrdered : List BlockRecord → Type 0
IsOrdered [] = Unit
IsOrdered (q ∷ rows) = AllAbove (as_i64 q.height) rows × IsOrdered rows

filter-AllAbove :
    (p : BlockRecord → Bool) (h : ℕ) (rows : List BlockRecord)
    → AllAbove h rows
    → AllAbove h (filter p rows)
filter-AllAbove p h [] a = tt
filter-AllAbove p h (q ∷ rows) a = ground (arith, filter-AllAbove p h rows a.1)

pub filter-IsOrdered :
    (p : BlockRecord → Bool) (rows : List BlockRecord) → IsOrdered rows → IsOrdered (filter p rows)
filter-IsOrdered p [] o = tt
filter-IsOrdered p (q ∷ rows) o =
    ground (arith, filter-AllAbove p (as_i64 q.height) rows o.0, filter-IsOrdered p rows o.1)

raise : (h k : ℕ) (rows : List BlockRecord) → h ≤ k → AllAbove k rows → AllAbove h rows
raise h k [] le a = tt
raise h k (q ∷ rows) le a = (omega (arith, a.0), raise h k rows le a.1)

place-AllAbove :
    (h : ℕ) (r : BlockRecord) (rows : List BlockRecord)
    → h < as_i64 r.height
    → AllAbove h rows
    → AllAbove h (place r rows)
unfolding place
place-AllAbove h r [] lt a = (lt, tt)
place-AllAbove h r (q ∷ rows) lt a = elim (Bool-cases (ltb (as_i64 r.height) (as_i64 q.height))) [
  | inl first ↦ rw first (lt, a)
  | inr later ↦ rw later (a.0, place-AllAbove h r rows lt a.1)
]

-- Two heights below 2^64 with one key are one height.
as_i64_injective : (m n : ℕ) → m ≤ u64_max → n ≤ u64_max → as_i64 m ≡ as_i64 n → m ≡ n
as_i64_injective m n hm hn e = omega arith

row_at-none-other :
    (k : ℕ) (q : BlockRecord) (rows : List BlockRecord)
    → row_at k (q ∷ rows) ≡ none
    → (q.height == k) ≡ false
row_at-none-other k q rows n = ground arith

row_at-none-tail :
    (k : ℕ) (q : BlockRecord) (rows : List BlockRecord)
    → row_at k (q ∷ rows) ≡ none
    → row_at k rows ≡ none
row_at-none-tail k q rows n = ground arith

pub place-IsOrdered :
    (r : BlockRecord) (rows : List BlockRecord)
    → r.height ≤ u64_max
    → All (λ q. q.height ≤ u64_max) rows
    → row_at r.height rows ≡ none
    → IsOrdered rows
    → IsOrdered (place r rows)
unfolding place
place-IsOrdered r [] hr hs n o = (tt, tt)
place-IsOrdered r (q ∷ rows) hr hs n o =
    let other : (q.height == r.height) ≡ false = row_at-none-other r.height q rows n in
    elim (Bool-cases (ltb (as_i64 r.height) (as_i64 q.height))) [
      | inl first ↦
          let lt = ltb→lt _ _ first in
          rw first ((lt, raise (as_i64 r.height) (as_i64 q.height) rows (omega arith) o.0), o)
      | inr later ↦
          let rest = row_at-none-tail r.height q rows n in
          let lt : as_i64 q.height < as_i64 r.height =
            elim (Bool-cases (ltb (as_i64 q.height) (as_i64 r.height))) [
              | inl below ↦ ltb→lt _ _ below
              | inr level ↦
                  let e =
                    as_i64_injective q.height r.height hs.0 hr
                      (omega (arith, ltb→le _ _ later, ltb→le _ _ level)) in
                  ground (arith, e)
            ] in
          rw later (
            place-AllAbove (as_i64 q.height) r rows lt o.0,
            place-IsOrdered r rows hr hs.1 rest o.1,
          )
    ]

-- The rows of a list of transactions are in the order of their index.
tx_rows-ordered :
    (j : Json) (h i : ℕ) (txs : List SignedTransaction)
    → order_by_index (tx_rows j h i txs) ≡ tx_rows j h i txs
unfolding order_by_index tx_rows
tx_rows-ordered j h i [] = refl
tx_rows-ordered j h i (t ∷ txs) = rw (tx_rows-ordered j h (i + 1) txs) (place_tx-first j h i t txs)
  where
    place_tx-first :
        (j : Json) (h i : ℕ) (t : SignedTransaction) (txs : List SignedTransaction)
        → place_tx
            (record { row_height = h; tx_index = i; tx_json = j.to_json t })
            (tx_rows j h (i + 1) txs)
          ≡ record { row_height = h; tx_index = i; tx_json = j.to_json t } ∷ tx_rows j h (i + 1) txs
    place_tx-first j h i t [] = refl
    place_tx-first j h i t (u ∷ txs) = ground arith

-- The rows of one height, where those of that height are only the ones just written.
filter-tx_rows :
    (j : Json) (k h i : ℕ) (txs : List SignedTransaction)
    → filter (λ t. t.row_height == k) (tx_rows j h i txs)
      ≡ (if h == k then tx_rows j h i txs else [])
unfolding tx_rows
filter-tx_rows j k h i [] = ground arith
filter-tx_rows j k h i (t ∷ txs) = ground (arith, filter-tx_rows j k h (i + 1) txs)

rows_after :
    (k h : ℕ) (old new : List TxRow)
    → filter (λ t. t.row_height == k) (filter (λ t. not (t.row_height == h)) old ++ new) ≡ (
        if h == k
        then filter (λ t. t.row_height == k) new
        else filter (λ t. t.row_height == k) old ++ filter (λ t. t.row_height == k) new)
rows_after k h [] new = ground arith
rows_after k h (t ∷ old) new = ground (arith, rows_after k h old new)

rows_not_above :
    (k h : ℕ) (rows : List TxRow)
    → filter (λ t. t.row_height == k) (filter (λ t. not_above h t.row_height) rows)
      ≡ (if not_above h k then filter (λ t. t.row_height == k) rows else [])
rows_not_above k h [] = ground arith
rows_not_above k h (t ∷ rows) = ground (arith, rows_not_above k h rows)

-- `serde_json` reads back what it wrote.
abbrev pub ReadsBack : Json → Type 0
ReadsBack j = (t : SignedTransaction) → j.from_json (j.to_json t) ≡ some t

parse_rows-tx_rows :
    (j : Json) (h i : ℕ) (txs : List SignedTransaction)
    → ReadsBack j
    → parse_rows j (tx_rows j h i txs) ≡ ok txs
unfolding parse_rows tx_rows
parse_rows-tx_rows j h i [] back = refl
parse_rows-tx_rows j h i (t ∷ txs) back = rw (back t, parse_rows-tx_rows j h (i + 1) txs back) refl

-- The transactions of each height after a block is written and after a rollback.
pub get_transactions-insert_block :
    (j : Json) (s : BlockStore) (r : BlockRecord) (k : ℕ)
    → ReadsBack j
    → get_transactions j (insert_block j true s r).1 k
      ≡ (if r.height == k then ok r.transactions else get_transactions j s k)
unfolding get_transactions insert_block
get_transactions-insert_block j s r k back =
    rw
      (
        rows_after k r.height s.block_transactions (tx_rows j r.height 0 r.transactions),
        filter-tx_rows j k r.height 0 r.transactions,
      )
      (elim (Bool-cases (r.height == k)) [
        | inl here ↦
            rw (here, tx_rows-ordered j r.height 0 r.transactions)
              (parse_rows-tx_rows j r.height 0 r.transactions back)
        | inr there ↦ rw (there, append-nil) refl
      ])

pub get_transactions-rollback_above :
    (j : Json) (s : BlockStore) (h k : ℕ)
    → not_above h k ≡ true
    → get_transactions j (rollback_above true s h).1 k ≡ get_transactions j s k
unfolding get_transactions rollback_above
get_transactions-rollback_above j s h k kept =
    rw (rows_not_above k h s.block_transactions, kept) refl
