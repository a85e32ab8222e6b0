-- ===== src/Node/Mempool.antt =====
-- `enqueue_transaction` and `requeue_rolled_back_transactions` of l1-chain/node/src/main.rs.
use bina_blockchain_l.Prelude.{
  ℕ, ◌+◌, ◌≤◌, ◌≡◌, refl, ◌∙◌, ◌⊎◌, inl, inr, not, ◌&&◌, some, List, [], ◌∷◌, ◌++◌, arith, ltb, leb,
  ◌==◌, if◌then◌else◌, Bool-cases, length, u64_max, checked_add, Result, ok, err, ◌>>=◌, ◌>>◌,
  ensure, ok_or, Result-cases, Bytes, bytes_key, nat_key, member, lookup, insert, keys,
  lookup-insert,
}
use bina_blockchain_l.External.{External}
use bina_blockchain_l.Transaction.{SignedTransaction, verify_transaction, from_hex, tx_id}
use bina_blockchain_l.Ledger.{
  LedgerError, bad_nonce, overflow, insufficient, Ledger, balance, nonce_of, admissible,
}
use bina_blockchain_l.Node.{NodeState, BlockRecord, StoreCall, max_mempool_size}

pub data EnqueueError : Type 0 where
  rejected : LedgerError → EnqueueError
  mempool_full : EnqueueError

module _ (x : External) where
  -- The checks against the last confirmed state.
  unfoldable pub check_pending : Ledger → SignedTransaction → Result EnqueueError (Unit {0})
  check_pending l s = do
    elim (verify_transaction x s) [ ok u ↦ ok u | err e ↦ err (rejected (LedgerError.invalid e)) ]
    ensure (s.tx.nonce == nonce_of l (from_hex x s)) (rejected bad_nonce)
    debit_total ← ok_or (checked_add s.tx.amount s.tx.fee) (rejected overflow)
    ensure (not (ltb (balance l (from_hex x s)) debit_total)) (rejected insufficient)

  unfoldable pub enqueue_transaction :
      NodeState → Ledger → SignedTransaction → Result EnqueueError (Unit {0}) × NodeState
  unfolding check_pending
  enqueue_transaction s l signed = elim (check_pending l signed) [
    | err e ↦ (err e, s)
    | ok u ↦
        if leb max_mempool_size (length s.mempool) && not (member (tx_id x signed) (keys s.mempool))
        then (err mempool_full, s)
        else (
          ok tt,
          record s {
            mempool = insert (tx_id x signed) signed s.mempool;
            store_calls = s.store_calls ++ StoreCall.mempool_insert signed ∷ [];
          },
        )
  ]

  requeue_block : NodeState → List SignedTransaction → NodeState
  requeue_block s [] = s
  requeue_block s (t ∷ txs) =
      requeue_block
        (record s {
          mempool = insert (tx_id x t) t s.mempool;
          store_calls = s.store_calls ++ StoreCall.mempool_insert t ∷ [];
        })
        txs

  -- Every transaction of every rolled-back block goes back.
  unfoldable pub requeue_rolled_back_transactions : NodeState → List BlockRecord → NodeState
  unfolding requeue_block
  requeue_rolled_back_transactions s [] = s
  requeue_rolled_back_transactions s (b ∷ blocks) =
      requeue_rolled_back_transactions (requeue_block s b.transactions) blocks

length-insert {ℓ} :
    {V : Type ℓ} (k : Bytes) (v : V) (m : List (Bytes × V))
    → length (insert k v m) ≡ (if member k (keys m) then length m else length m + 1)
length-insert k v [] = omega arith
length-insert k v ((j, w) ∷ m) = ground (arith, length-insert k v m)

-- The gate of the mempool agrees with the ledger: a transaction is refused with the error that the
-- ledger would give, or passes and the ledger would apply it.
pub check_pending-admissible :
    (x : External) (l : Ledger) (s : SignedTransaction)
    → ((e : LedgerError) × (check_pending x l s ≡ err (rejected e)) × (admissible x l s ≡ err e))
      ⊎ ((d : ℕ) × (check_pending x l s ≡ ok tt) × (admissible x l s ≡ ok d))
unfolding check_pending admissible
check_pending-admissible x l s =
    let from = from_hex x s in
    let d = s.tx.amount + s.tx.fee in
    elim (Result-cases (verify_transaction x s)) [
      | inl (e, h) ↦ inl (LedgerError.invalid e, rw h, rw h)
      | inr (u, h) ↦ elim (Bool-cases (s.tx.nonce == nonce_of l from)) [
        | inr wrong ↦ inl (bad_nonce, ground arith, ground arith)
        | inl right ↦ elim (Bool-cases (ltb u64_max d)) [
          | inl over ↦ inl (overflow, ground arith, ground arith)
          | inr fits ↦ elim (Bool-cases (ltb (balance l from) d)) [
            | inl short ↦ inl (insufficient, ground arith, ground arith)
            | inr covered ↦ inr (d, ground arith, ground arith)
          ]
        ]
      ]
    ]

-- A mempool within its limit stays within it, and a submission is accepted and then found in the
-- mempool, or leaves the state as it was.
pub enqueue_transaction-bounded :
    (x : External) (s : NodeState) (l : Ledger) (signed : SignedTransaction)
    → length s.mempool ≤ max_mempool_size
    → (length (enqueue_transaction x s l signed).1.mempool ≤ max_mempool_size)
      × (((enqueue_transaction x s l signed).0 ≡ ok tt)
            × (lookup (tx_id x signed) (enqueue_transaction x s l signed).1.mempool ≡ some signed)
          ⊎ ((enqueue_transaction x s l signed).1 ≡ s))
unfolding enqueue_transaction
enqueue_transaction-bounded x s l signed h = elim (Result-cases (check_pending x l signed)) [
  | inl (e, refused) ↦ rw (refused, enqueue_transaction) (h, inr refl)
  | inr (u, passed) ↦
      let k = tx_id x signed in
      let found : lookup k (insert k signed s.mempool) ≡ some signed =
        lookup-insert k k signed s.mempool ∙ (ground arith) in
      elim (Bool-cases (member k (keys s.mempool))) [
        | inl known ↦
            let same_size : length (insert k signed s.mempool) ≡ length s.mempool =
              length-insert k signed s.mempool ∙ (rw known) in
            ground (arith, same_size, found)
        | inr fresh ↦ elim (Bool-cases (leb max_mempool_size (length s.mempool))) [
          | inl full ↦ ground arith
          | inr room ↦
              let one_more : length (insert k signed s.mempool) ≡ length s.mempool + 1 =
                length-insert k signed s.mempool ∙ (rw fresh) in
              ground (arith, one_more, found)
        ]
      ]
]
