-- ===== src/Store/Blocks.antt =====
-- What the methods of l1-chain/node/src/store.rs promise about blocks: a map from heights to records.
use bina_blockchain_l.Prelude.{
  ℕ, ◌/◌, ◌≤◌, ◌≡◌, refl, sym, ap, ◌∙◌, inl, inr, Bool, true, false, none, some, List, [], ◌∷◌,
  arith, ltb, ◌==◌, if◌then◌else◌, ==→eq, ==_refl, Bool-cases, Option-cases, All, filter, u64_max,
  ok, ◌>>=◌, bytes_key, nat_key,
}
use bina_blockchain_l.Node.{BlockRecord}
use bina_blockchain_l.Store.{
  Json, BlockStore, as_i64, row_of, row_to_record, place, without, row_at, not_above, complete,
  complete_found, get_transactions, get, insert_block, rollback_above,
}
use bina_blockchain_l.Store.Rows.{
  ReadsBack, IsNewHash, IsOrdered, row_at-place, row_at-without, row_at-without_self,
  row_at-filter_above, filter-IsOrdered, place-IsOrdered, get_transactions-insert_block,
  get_transactions-rollback_above,
}

-- The record that is read back: the time in seconds is computed from the time in milliseconds.
abbrev pub as_read : BlockRecord → BlockRecord
as_read r = record r { mined_timestamp_secs = r.timestamp / 1000 }

row_at-height :
    (k : ℕ) (rows : List BlockRecord) (q : BlockRecord) → row_at k rows ≡ some q → q.height ≡ k
row_at-height k [] q h = cc
row_at-height k (p ∷ rows) q h = elim (Bool-cases (p.height == k)) [
  | inl here ↦ let e : p ≡ q = ground arith in sym (ap (λ v. v.height) e) ∙ ==→eq _ _ here
  | inr there ↦ row_at-height k rows q (ground arith)
]

-- Reading a height depends only on its row and on its transactions.
get-cong :
    (j : Json) (s t : BlockStore) (k : ℕ)
    → row_at k s.blocks ≡ row_at k t.blocks
    → get_transactions j s k ≡ get_transactions j t k
    → get j s k ≡ get j t k
unfolding get complete_found complete
get-cong j s t k e txs = elim (Option-cases (row_at k t.blocks)) [
  | inl missing ↦ rw (e, missing) refl
  | inr (q, found) ↦ let h = row_at-height k t.blocks q found in rw (e, found) (rw (h, txs) refl)
]

row_at-insert_block :
    (j : Json) (s : BlockStore) (r : BlockRecord) (k : ℕ)
    → IsNewHash r s.blocks
    → row_at k (insert_block j true s r).1.blocks
      ≡ (if r.height == k then some (row_of r) else row_at k s.blocks)
unfolding insert_block
row_at-insert_block j s r k fresh =
    row_at-place k (row_of r) (without r s.blocks) (row_at-without_self r s.blocks)
    ∙ (elim (Bool-cases (r.height == k)) [
      | inl here ↦ rw here
      | inr there ↦ rw there (row_at-without k r s.blocks fresh (λ e. ground arith))
    ])

get_row :
    (j : Json) (s : BlockStore) (k : ℕ) (q : BlockRecord)
    → row_at k s.blocks ≡ some q
    → get j s k ≡ (
        get_transactions j s q.height >>= λ txs.
        ok (some (record (row_to_record q) { transactions = txs })))
unfolding get complete_found complete
get_row j s k q e = rw e (ground arith)

-- The store is a map: after a block is written, its height gives that record, with the seconds of its mining
-- computed again from its timestamp, and every other height what it gave before, if no block of another
-- height has the same hash, and if JSON reads back the transactions that it wrote.
pub get-insert_block :
    (j : Json) (s : BlockStore) (r : BlockRecord) (k : ℕ)
    → ReadsBack j
    → IsNewHash r s.blocks
    → get j (insert_block j true s r).1 k
      ≡ (if r.height == k then ok (some (as_read r)) else get j s k)
unfolding row_to_record
get-insert_block j s r k back fresh = elim (Bool-cases (r.height == k)) [
  | inl here ↦
      let s' = (insert_block j true s r).1 in
      let found : row_at k s'.blocks ≡ some (row_of r) =
        row_at-insert_block j s r k fresh ∙ (rw here) in
      let txs : get_transactions j s' r.height ≡ ok r.transactions =
        get_transactions-insert_block j s r r.height back ∙ (rw (==_refl r.height)) in
      rw here (get_row j s' k (row_of r) found ∙ (rw (txs, row_to_record) refl))
  | inr there ↦ rw there (
      get-cong j (insert_block j true s r).1 s k (row_at-insert_block j s r k fresh ∙ (rw there))
        (get_transactions-insert_block j s r k back ∙ (rw there)))
]

row_at-rollback_above :
    (s : BlockStore) (h k : ℕ)
    → row_at k (rollback_above true s h).1.blocks
      ≡ (if not_above h k then row_at k s.blocks else none)
unfolding rollback_above
row_at-rollback_above s h k = row_at-filter_above k h s.blocks

get_missing : (j : Json) (s : BlockStore) (k : ℕ) → row_at k s.blocks ≡ none → get j s k ≡ ok none
unfolding get complete_found
get_missing j s k e = rw e refl

-- A rollback forgets exactly the heights above, in the order of the signed column.
pub get-rollback_above :
    (j : Json) (s : BlockStore) (h k : ℕ)
    → get j (rollback_above true s h).1 k ≡ (if not_above h k then get j s k else ok none)
get-rollback_above j s h k = elim (Bool-cases (not_above h k)) [
  | inl kept ↦ rw kept (
      get-cong j (rollback_above true s h).1 s k (row_at-rollback_above s h k ∙ (rw kept))
        (get_transactions-rollback_above j s h k kept))
  | inr gone ↦
      rw gone
        (get_missing j (rollback_above true s h).1 k (row_at-rollback_above s h k ∙ (rw gone)))
]

-- The tables of a store that only its methods write: the keys ascend and are u64.
pub record IsTidy (s : BlockStore) : Type 0 where
  pub ordered : IsOrdered s.blocks
  pub words : All (λ q. q.height ≤ u64_max) s.blocks

All-filter :
    (p : BlockRecord → Bool) (rows : List BlockRecord)
    → All (λ q. q.height ≤ u64_max) rows
    → All (λ q. q.height ≤ u64_max) (filter p rows)
All-filter p [] h = tt
All-filter p (q ∷ rows) h = ground (arith, All-filter p rows h.1)

All-place :
    (r : BlockRecord) (rows : List BlockRecord)
    → r.height ≤ u64_max
    → All (λ q. q.height ≤ u64_max) rows
    → All (λ q. q.height ≤ u64_max) (place r rows)
unfolding place
All-place r [] hr h = (hr, tt)
All-place r (q ∷ rows) hr h = elim (Bool-cases (ltb (as_i64 r.height) (as_i64 q.height))) [
  | inl first ↦ rw first (hr, h)
  | inr later ↦ rw later (h.0, All-place r rows hr h.1)
]

-- Writing a block and rolling back keep one row for each height, in order.
pub insert_block-IsTidy :
    (j : Json) (io : Bool) (s : BlockStore) (r : BlockRecord)
    → r.height ≤ u64_max
    → IsTidy s
    → IsTidy (insert_block j io s r).1
unfolding insert_block
insert_block-IsTidy j false s r hr t = t
insert_block-IsTidy j true s r hr t =
    let rest = filter-IsOrdered _ s.blocks t.ordered in
    let small = All-filter _ s.blocks t.words in
    record {
      ordered =
          place-IsOrdered (row_of r) (without r s.blocks) hr small (row_at-without_self r s.blocks)
            rest;
      words = All-place (row_of r) (without r s.blocks) hr small;
    }

pub rollback_above-IsTidy :
    (io : Bool) (s : BlockStore) (h : ℕ) → IsTidy s → IsTidy (rollback_above io s h).1
unfolding rollback_above
rollback_above-IsTidy false s h t = t
rollback_above-IsTidy true s h t = record {
  ordered = filter-IsOrdered _ s.blocks t.ordered;
  words = All-filter _ s.blocks t.words;
}
