-- ===== src/Store/Pending.antt =====
-- The table of pending transactions in l1-chain/node/src/store.rs.
use bina_blockchain_l.Prelude.{
  ◌≡◌, refl, sym, ap, ◌∙◌, inl, inr, Bool, none, some, List, [], ◌∷◌, map, if◌then◌else◌,
  Bool-cases, All, Result, ok, err, Bytes, bytes_key, nat_key, same, same→eq, insert, erase,
}
use bina_blockchain_l.External.{External}
use bina_blockchain_l.Transaction.{SignedTransaction, tx_id}
use bina_blockchain_l.Store.{Json, StoreError, database, BlockStore}
use bina_blockchain_l.Store.Rows.{ReadsBack}

-- `BlockStore::mempool_insert`, keyed by the transaction's id in hexadecimal.
unfoldable pub mempool_insert :
    External
    → Json
    → Bool
    → BlockStore
    → SignedTransaction
    → Result StoreError (Unit {0}) × BlockStore
mempool_insert x j io s t =
    if io
    then (ok tt, record s { mempool = insert (x.hex_encode (tx_id x t)) (j.to_json t) s.mempool })
    else (err database, s)

-- `BlockStore::mempool_remove`
unfoldable pub mempool_remove :
    External → Bool → BlockStore → Bytes → Result StoreError (Unit {0}) × BlockStore
mempool_remove x io s id =
    if io
    then (ok tt, record s { mempool = erase (x.hex_encode id) s.mempool })
    else (err database, s)

-- The rows that still parse, and the keys of those that do not.
unfoldable pub sort_out : Json → List (Bytes × Bytes) → List SignedTransaction × List Bytes
sort_out j [] = ([], [])
sort_out j ((id, json) ∷ rows) =
    let (out, corrupt) = sort_out j rows in
    elim (j.from_json json) [ some t ↦ (t ∷ out, corrupt) | none ↦ (out, id ∷ corrupt) ]

abbrev pub erase_all : List Bytes → List (Bytes × Bytes) → List (Bytes × Bytes)
erase_all [] m = m
erase_all (id ∷ ids) m = erase_all ids (erase id m)

-- `BlockStore::mempool_load`, with every deletion granted.
unfoldable pub mempool_load : Json → BlockStore → List SignedTransaction × BlockStore
unfolding sort_out
mempool_load j s =
    let (out, corrupt) = sort_out j s.mempool in
    (out, record s { mempool = erase_all corrupt s.mempool })

-- Every row is the JSON of a transaction under its id.
IsFaithful : External → Json → List (Bytes × Bytes) → Type 0
IsFaithful x j =
    All (λ e. (t : SignedTransaction) × (e.0 ≡ x.hex_encode (tx_id x t)) × (e.1 ≡ j.to_json t))

insert-IsFaithful :
    (x : External) (j : Json) (t : SignedTransaction) (m : List (Bytes × Bytes))
    → IsFaithful x j m
    → IsFaithful x j (insert (x.hex_encode (tx_id x t)) (j.to_json t) m)
unfolding IsFaithful
insert-IsFaithful x j t [] h = ((t, refl, refl), tt)
insert-IsFaithful x j t ((k, w) ∷ m) h = elim (Bool-cases (same (x.hex_encode (tx_id x t)) k)) [
  | inl here ↦ rw here ((t, sym (same→eq _ _ here), refl), h.1)
  | inr there ↦ rw there (h.0, insert-IsFaithful x j t m h.1)
]

erase-IsFaithful :
    (x : External) (j : Json) (k : Bytes) (m : List (Bytes × Bytes))
    → IsFaithful x j m
    → IsFaithful x j (erase k m)
unfolding IsFaithful
erase-IsFaithful x j k [] h = tt
erase-IsFaithful x j k ((i, w) ∷ m) h = elim (Bool-cases (same k i)) [
  | inl here ↦ rw here (erase-IsFaithful x j k m h.1)
  | inr there ↦ rw there (h.0, erase-IsFaithful x j k m h.1)
]

-- The JSON of a list of transactions, under their ids.
abbrev pub rows_for : External → Json → List SignedTransaction → List (Bytes × Bytes)
rows_for x j = map (λ t. (x.hex_encode (tx_id x t), j.to_json t))

sort_out-rows :
    (x : External) (j : Json) (txs : List SignedTransaction)
    → ReadsBack j
    → sort_out j (rows_for x j txs) ≡ (txs, [])
unfolding sort_out
sort_out-rows x j [] back = refl
sort_out-rows x j (t ∷ txs) back = simp (sort_out-rows x j txs back, back t)

-- A restart loads the pending transactions exactly as they were written, and drops no row.
pub mempool_load-rows :
    (x : External) (j : Json) (s : BlockStore) (txs : List SignedTransaction)
    → ReadsBack j
    → s.mempool ≡ rows_for x j txs
    → mempool_load j s ≡ (txs, s)
unfolding mempool_load
mempool_load-rows x j s txs back e = rw (ap (sort_out j) e ∙ sort_out-rows x j txs back)
