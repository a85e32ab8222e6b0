-- ===== src/Transaction/Merkle.antt =====
-- The Merkle root of l1-chain/core/src/transaction.rs: it ends, and what it commits to.
use bina_blockchain_l.Prelude.{
  ℕ, zero, suc, ◌+◌, ◌-◌, ◌*◌, ◌/◌, ◌≤◌, ◌<◌, ◌≡◌, refl, sym, ap, ◌∙◌, ◌≢◌, inl, inr, some, List,
  [], ◌∷◌, ◌++◌, map, arith, ltb, lt→ltb, tests, Bool-cases, length, replicate, get_or,
  length-append, Bytes, bytes_key, nat_key,
}
use mathlib.Core.List.{map-append}
use bina_blockchain_l.External.{External}
use bina_blockchain_l.Transaction.{
  SignedTransaction, tx_id, merkle_node, next_layer, merkle_loop, root_of, merkle_root,
}

module _ (x : External) where
  length-next_layer : (l : List Bytes) → length (next_layer x l) ≡ (length l + 1) / 2
  unfolding next_layer
  length-next_layer [] = omega arith
  length-next_layer (a ∷ []) = omega arith
  length-next_layer (a ∷ b ∷ l) = omega (arith, length-next_layer l)

  -- With as much fuel as leaves the loop ends, and more fuel changes nothing.
  merkle_loop_fuel :
      (f g : ℕ) (l : List Bytes)
      → 0 < f
      → 0 < g
      → length l ≤ f
      → length l ≤ g
      → merkle_loop x f l ≡ merkle_loop x g l
  unfolding merkle_loop
  merkle_loop_fuel zero g l pf pg hf hg = absurd (omega arith)
  merkle_loop_fuel (suc f) zero l pf pg hf hg = absurd (omega arith)
  merkle_loop_fuel (suc f) (suc g) l pf pg hf hg = elim (Bool-cases (ltb 1 (length l))) [
    | inr done ↦ rw done refl
    | inl more ↦ rw more (
        merkle_loop_fuel f g (next_layer x l) (omega tests) (omega tests)
          (omega (tests, length-next_layer l)) (omega (tests, length-next_layer l)))
  ]

  merkle_loop_ends :
      (f : ℕ) (l : List Bytes) → 0 < f → length l ≤ f → (r : Bytes) × (merkle_loop x f l ≡ some r)
  unfolding merkle_loop
  merkle_loop_ends zero l p h = absurd (omega arith)
  merkle_loop_ends (suc f) l p h = elim (Bool-cases (ltb 1 (length l))) [
    | inr done ↦ (get_or l 0 (replicate 32 0), rw done)
    | inl more ↦
        rw more
          (merkle_loop_ends f (next_layer x l) (omega tests) (omega (tests, length-next_layer l)))
  ]

  root_of_ends : (l : List Bytes) → (r : Bytes) × (root_of x l ≡ some r)
  unfolding root_of
  root_of_ends [] = (replicate 32 0, refl)
  root_of_ends (a ∷ l) = merkle_loop_ends (length (a ∷ l)) (a ∷ l) (omega arith) (omega arith)

  -- An odd layer and the layer with its last element doubled have the same next layer.
  next_layer-duplicate :
      (k : ℕ) (l : List Bytes) (c : Bytes)
      → length l ≡ 2 * k
      → next_layer x (l ++ c ∷ []) ≡ next_layer x (l ++ c ∷ c ∷ [])
  unfolding next_layer
  next_layer-duplicate k [] c h = refl
  next_layer-duplicate k (a ∷ []) c h = absurd (omega arith)
  next_layer-duplicate k (a ∷ b ∷ l) c h =
      ap (◌∷◌ (merkle_node x a b)) (next_layer-duplicate (k - 1) l c (omega arith))

  -- One round of the loop on a layer of two or more.
  merkle_loop_round :
      (f : ℕ) (l : List Bytes)
      → 1 < length l
      → length l ≤ f
      → merkle_loop x f l ≡ merkle_loop x f (next_layer x l)
  unfolding merkle_loop
  merkle_loop_round zero l long fuel = absurd (omega arith)
  merkle_loop_round (suc f) l long fuel = rw (lt→ltb 1 (length l) long) (
      merkle_loop_fuel f (suc f) (next_layer x l) (omega arith) (omega arith)
        (omega (arith, length-next_layer l)) (omega (arith, length-next_layer l)))

  root_of-loop :
      (f : ℕ) (l : List Bytes) → 0 < length l → length l ≤ f → root_of x l ≡ merkle_loop x f l
  unfolding root_of
  root_of-loop f [] p h = absurd (omega arith)
  root_of-loop f (a ∷ l) p h =
      merkle_loop_fuel (length (a ∷ l)) f (a ∷ l) (omega arith) (omega arith) (omega arith) h

  pub root_of-duplicate :
      (k : ℕ) (l : List Bytes) (c : Bytes)
      → length l ≡ 2 * k
      → 0 < k
      → root_of x (l ++ c ∷ []) ≡ root_of x (l ++ c ∷ c ∷ [])
  root_of-duplicate k l c h p =
      let n = length l + 2 in
      let one = length-append l (c ∷ []) in
      let two = length-append l (c ∷ c ∷ []) in
      root_of-loop n (l ++ c ∷ []) (omega arith) (omega arith)
      ∙ merkle_loop_round n (l ++ c ∷ []) (omega arith) (omega arith)
      ∙ ap (merkle_loop x n) (next_layer-duplicate k l c h)
      ∙ sym (merkle_loop_round n (l ++ c ∷ c ∷ []) (omega arith) (omega arith))
      ∙ sym (root_of-loop n (l ++ c ∷ c ∷ []) (omega arith) (omega arith))

-- The loop over the layers ends for every list of transactions.
pub merkle_root_ends :
    (x : External) (txs : List SignedTransaction) → (r : Bytes) × (merkle_root x txs ≡ some r)
unfolding merkle_root
merkle_root_ends x txs = root_of_ends x (map (tx_id x) txs)

length-map-tx_id :
    (x : External) (txs : List SignedTransaction) → length (map (tx_id x) txs) ≡ length txs
length-map-tx_id x [] = refl
length-map-tx_id x (t ∷ txs) = ap suc (length-map-tx_id x txs)

-- An odd list of three or more transactions and the list in which its last transaction stands twice
-- have the same root: the root does not bind the number of transactions.
pub merkle_root-duplicate_last :
    (x : External) (k : ℕ) (txs : List SignedTransaction) (t : SignedTransaction)
    → length txs ≡ 2 * k
    → 0 < k
    → merkle_root x (txs ++ t ∷ []) ≡ merkle_root x (txs ++ t ∷ t ∷ [])
unfolding merkle_root
merkle_root-duplicate_last x k txs t h p = rw (map-append (tx_id x) txs (t ∷ [])) (
    rw (map-append (tx_id x) txs (t ∷ t ∷ []))
      (root_of-duplicate x k (map (tx_id x) txs) (tx_id x t) (length-map-tx_id x txs ∙ h) p))

-- Two different messages with one hash.
abbrev pub Collision : External → Type 0
Collision x = (a : Bytes) × (b : Bytes) × (a ≢ b) × (x.blake3 a ≡ x.blake3 b)
