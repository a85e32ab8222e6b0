-- ===== src/Ledger/Nonces.antt =====
-- Replay protection by nonces in the ledger of l1-chain/core/src/rewards.rs.
use bina_blockchain_l.Prelude.{
  ℕ, ◌≤◌, ◌<◌, ◌≡◌, refl, ap, inl, inr, Bool, List, [], ◌∷◌, arith, ◌==◌, if◌then◌else◌, ==_ne,
  Bool-cases, All, u64_max, saturating_add, ok, err, Bytes, bytes_key, nat_key, same, same_refl,
}
use bina_blockchain_l.External.{External}
use bina_blockchain_l.Transaction.{SignedTransaction, verify_transaction, from_hex}
use bina_blockchain_l.Ledger.{
  LedgerError, bad_nonce, Ledger, nonce_of, admissible, credit, apply_transaction,
}
use bina_blockchain_l.Ledger.Maps.{amount_of, amount_of-insert}
use bina_blockchain_l.Ledger.Conservation.{
  after_transfer, transfer_row, apply_transaction_outcome, append_row-state,
}

after_transfer-nonce :
    (x : External) (l : Ledger) (s : SignedTransaction) (miner : Bytes) (d : ℕ) (a : Bytes)
    → amount_of a (after_transfer x l s miner d).nonces
      ≡ (if same a (from_hex x s) then saturating_add s.tx.nonce 1 else nonce_of l a)
unfolding after_transfer
after_transfer-nonce x l s miner d a =
    amount_of-insert a (from_hex x s) (saturating_add s.tx.nonce 1) l.nonces

-- A nonce that fits a u64 never goes down.
apply_transaction-nonce_mono :
    (x : External) (io : Bool) (l : Ledger) (height : ℕ) (s : SignedTransaction) (miner : Bytes)
    (ts : ℕ) (a : Bytes)
    → s.tx.nonce ≤ u64_max
    → nonce_of l a ≤ nonce_of (apply_transaction x io l height s miner ts).1 a
apply_transaction-nonce_mono x io l height s miner ts a word =
    elim (apply_transaction_outcome x io l height s miner ts) [
      | inl (e, kept, e') ↦ rw e' (omega arith)
      | inr (d, ad, e') ↦ rw e' (
          rw
            (append_row-state io (transfer_row x l height s miner ts) (after_transfer x l s miner d)
              tt).1
            (ground (arith, after_transfer-nonce x l s miner d a, ad.nonce_matches)))
    ]

admissible-old_nonce :
    (x : External) (l : Ledger) (s : SignedTransaction)
    → verify_transaction x s ≡ ok tt
    → s.tx.nonce < nonce_of l (from_hex x s)
    → admissible x l s ≡ err bad_nonce
unfolding admissible
admissible-old_nonce x l s v old =
    rw (v, ==_ne s.tx.nonce (nonce_of l (from_hex x s)) (omega arith))

-- A transfer that was applied has verified, and its sender's nonce has passed it.
applied_once :
    (x : External) (io : Bool) (l : Ledger) (height : ℕ) (s : SignedTransaction) (miner : Bytes)
    (ts : ℕ)
    → s.tx.nonce < u64_max
    → (apply_transaction x io l height s miner ts).0 ≡ ok tt
    → (verify_transaction x s ≡ ok tt)
      × (s.tx.nonce < nonce_of (apply_transaction x io l height s miner ts).1 (from_hex x s))
applied_once x io l height s miner ts below done =
    elim (apply_transaction_outcome x io l height s miner ts) [
      | inl (e, kept, e') ↦ cc
      | inr (d, ad, e') ↦ (
        ad.verified,
        rw e' (
            rw
              (append_row-state io (transfer_row x l height s miner ts)
                (after_transfer x l s miner d) tt).1
              (ground (
                arith,
                after_transfer-nonce x l s miner d (from_hex x s),
                same_refl (from_hex x s),
              ))),
      )
    ]

refused :
    (x : External) (io : Bool) (l : Ledger) (height : ℕ) (s : SignedTransaction) (miner : Bytes)
    (ts : ℕ) (e : LedgerError)
    → admissible x l s ≡ err e
    → apply_transaction x io l height s miner ts ≡ (err e, l)
unfolding apply_transaction
refused x io l height s miner ts e h = rw (h, apply_transaction)

-- An operation of the ledger, with all its arguments.
pub data LedgerCall : Type 0 where
  transfer : Bool → ℕ → SignedTransaction → Bytes → ℕ → LedgerCall
  reward : Bool → ℕ → Bytes → ℕ → ℕ → LedgerCall

abbrev pub apply_call : External → Ledger → LedgerCall → Ledger
apply_call x l (LedgerCall.transfer io height s miner ts) =
    (apply_transaction x io l height s miner ts).1
apply_call x l (LedgerCall.reward io height miner amount ts) =
    (credit io l height miner amount ts).1

abbrev pub apply_calls : External → Ledger → List LedgerCall → Ledger
apply_calls x l [] = l
apply_calls x l (call ∷ calls) = apply_calls x (apply_call x l call) calls

-- The nonces of the call fit a u64.
abbrev pub IsWordCall : LedgerCall → Type 0
IsWordCall (LedgerCall.transfer io height s miner ts) = s.tx.nonce ≤ u64_max
IsWordCall (LedgerCall.reward io height miner amount ts) = Unit {0}

credit-nonces :
    (io : Bool) (l : Ledger) (height : ℕ) (miner : Bytes) (amount ts : ℕ)
    → (credit io l height miner amount ts).1.nonces ≡ l.nonces
unfolding credit
credit-nonces io l height miner amount ts = elim (Bool-cases (amount == 0)) [
  | inl nothing ↦ rw nothing refl
  | inr some_coins ↦ rw some_coins (append_row-state io _ _ _).1
]

apply_calls-nonce_mono :
    (x : External) (l : Ledger) (calls : List LedgerCall) (a : Bytes)
    → All IsWordCall calls
    → nonce_of l a ≤ nonce_of (apply_calls x l calls) a
apply_calls-nonce_mono x l [] a words = omega arith
apply_calls-nonce_mono x l (LedgerCall.transfer io height s miner ts ∷ calls) a words =
    let l' = (apply_transaction x io l height s miner ts).1 in
    omega (
      arith,
      apply_transaction-nonce_mono x io l height s miner ts a words.0,
      apply_calls-nonce_mono x l' calls a words.1,
    )
apply_calls-nonce_mono x l (LedgerCall.reward io height miner amount ts ∷ calls) a words =
    let l' = (credit io l height miner amount ts).1 in
    let kept : nonce_of l' a ≡ nonce_of l a =
      ap (amount_of a) (credit-nonces io l height miner amount ts) in
    omega (arith, kept, apply_calls-nonce_mono x l' calls a words.1)

-- A transfer that was applied is refused ever after: whatever transfers and rewards the ledger takes in
-- between, in whatever blocks, a second application in any block, for any miner and at any time fails on its
-- nonce and changes nothing, if its nonce is below the largest u64 and the others' fit a u64.
pub apply_transaction-once :
    (x : External) (io io' : Bool) (l : Ledger) (height height' : ℕ) (s : SignedTransaction)
    (calls : List LedgerCall) (miner miner' : Bytes) (ts ts' : ℕ)
    → s.tx.nonce < u64_max
    → All IsWordCall calls
    → (apply_transaction x io l height s miner ts).0 ≡ ok tt
    → let later = apply_calls x (apply_transaction x io l height s miner ts).1 calls in
      apply_transaction x io' later height' s miner' ts' ≡ (err bad_nonce, later)
apply_transaction-once x io io' l height height' s calls miner miner' ts ts' below words done =
    let l' = (apply_transaction x io l height s miner ts).1 in
    let later = apply_calls x l' calls in
    let (v, advanced) = applied_once x io l height s miner ts below done in
    refused x io' later height' s miner' ts' bad_nonce (
      admissible-old_nonce x later s v
        (omega (arith, advanced, apply_calls-nonce_mono x l' calls (from_hex x s) words)))
