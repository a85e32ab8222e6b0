-- ===== src/Ledger/Execution/Agreement.antt =====
-- The overlay of a dry run against the ledger's own maps, in l1-chain/core/src/rewards.rs.
use bina_blockchain_l.Prelude.{
  ℕ, ◌-◌, ◌≡◌, refl, sym, inl, inr, not, ◌&&◌, ◌||◌, [], ◌++◌, arith, ltb, if◌then◌else◌,
  Bool-cases, saturating_add, wrapping_add, Bytes, bytes_key, nat_key, same, member, member-append,
  insert, keys, lookup-insert, member-keys-insert,
}
use mathlib.Core.List.{append-nil}
use bina_blockchain_l.External.{External}
use bina_blockchain_l.Transaction.{SignedTransaction, from_hex, to_hex}
use bina_blockchain_l.Ledger.{is_empty, credit_transfer}
use bina_blockchain_l.Ledger.Maps.{Amounts, amount_of, credit_balance, amount_of-insert}
use bina_blockchain_l.Ledger.StateRoot.{
  Overlay, read, state_root_with_overlay, state_root, state_root-extensional,
}
use bina_blockchain_l.Ledger.Execution.{overlay_credit, overlay_transfer}

-- Under the overlay the parent's maps hold what the maps `bal` and `non` hold, for the same addresses.
pub record Agrees (b n : Amounts) (o : Overlay) (bal non : Amounts) : Type 0 where
  pub balances_agree : (a : Bytes) → (read b n o a).0 ≡ amount_of a bal
  pub nonces_agree : (a : Bytes) → (read b n o a).1 ≡ amount_of a non
  pub entries_agree :
      (a : Bytes) → member a (keys b ++ (keys n ++ keys o)) ≡ member a (keys bal ++ keys non)

pub Agrees-start : (b n : Amounts) → Agrees b n [] b n
unfolding read
Agrees-start b n = record {
  balances_agree = λ a. refl;
  nonces_agree = λ a. refl;
  entries_agree = λ a. rw (append-nil (keys n));
}

read-insert :
    (b n : Amounts) (o : Overlay) (k a : Bytes) (v : ℕ × ℕ)
    → read b n (insert k v o) a ≡ (if same a k then v else read b n o a)
unfolding read
read-insert b n o k a v = ground (arith, lookup-insert a k v o)

entries-insert :
    (b n : Amounts) (o : Overlay) (k a : Bytes) (v : ℕ × ℕ)
    → member a (keys b ++ (keys n ++ keys (insert k v o)))
      ≡ (same a k || member a (keys b ++ (keys n ++ keys o)))
entries-insert b n o k a v = ground (
  arith,
  member-append a (keys b) (keys n ++ keys (insert k v o)),
  member-append a (keys b) (keys n ++ keys o),
  member-append a (keys n) (keys (insert k v o)),
  member-append a (keys n) (keys o),
  member-keys-insert a k v o,
)

pub overlay_credit-Agrees :
    (x : External) (b n : Amounts) (o : Overlay) (bal non : Amounts) (k : Bytes) (v : ℕ)
    → Agrees b n o bal non
    → Agrees b n (overlay_credit x b n o k v) (credit_balance bal k v) non
unfolding overlay_credit credit_balance
overlay_credit-Agrees x b n o bal non k v g =
    let w = saturating_add (amount_of k bal) v in
    record {
      balances_agree = λ a. ground (
        arith,
        read-insert b n o k a (saturating_add (read b n o k).0 v, (read b n o k).1),
        g.balances_agree a,
        g.balances_agree k,
        amount_of-insert a k w bal,
      );
      nonces_agree = λ a. ground (
        arith,
        read-insert b n o k a (saturating_add (read b n o k).0 v, (read b n o k).1),
        g.nonces_agree a,
      );
      entries_agree = λ a. ground (
        arith,
        entries-insert b n o k a (saturating_add (read b n o k).0 v, (read b n o k).1),
        g.entries_agree a,
        member-append a (keys (insert k w bal)) (keys non),
        member-append a (keys bal) (keys non),
        member-keys-insert a k w bal,
      );
    }

overlay_debit-Agrees :
    (b n : Amounts) (o : Overlay) (bal non : Amounts) (k : Bytes) (v m : ℕ)
    → Agrees b n o bal non
    → Agrees b n (insert k (v, m) o) (insert k v bal) (insert k m non)
overlay_debit-Agrees b n o bal non k v m g = record {
  balances_agree = λ a.
      ground (arith, read-insert b n o k a (v, m), g.balances_agree a, amount_of-insert a k v bal);
  nonces_agree = λ a.
      ground (arith, read-insert b n o k a (v, m), g.nonces_agree a, amount_of-insert a k m non);
  entries_agree = λ a. ground (
    arith,
    entries-insert b n o k a (v, m),
    g.entries_agree a,
    member-append a (keys (insert k v bal)) (keys (insert k m non)),
    member-append a (keys bal) (keys non),
    member-keys-insert a k v bal,
    member-keys-insert a k m non,
  );
}

-- A transfer on the overlay and on the maps keeps them in agreement.
pub overlay_transfer-Agrees :
    (x : External) (b n : Amounts) (o : Overlay) (bal non : Amounts) (s : SignedTransaction)
    (miner : Bytes) (d : ℕ)
    → Agrees b n o bal non
    → Agrees b n
        (overlay_transfer x b n o s miner d)
        (credit_transfer x (insert (from_hex x s) (amount_of (from_hex x s) bal - d) bal) s miner)
        (insert (from_hex x s) (wrapping_add (amount_of (from_hex x s) non) 1) non)
unfolding overlay_transfer credit_transfer
overlay_transfer-Agrees x b n o bal non s miner d g =
    let from = from_hex x s in
    let non' = insert from (wrapping_add (amount_of from non) 1) non in
    let bal' = insert from (amount_of from bal - d) bal in
    let debited = insert from (amount_of from bal - d, wrapping_add (amount_of from non) 1) o in
    let paid = overlay_credit-Agrees x b n debited bal' non' (to_hex x s) s.tx.amount (
      overlay_debit-Agrees b n o bal non from (amount_of from bal - d)
        (wrapping_add (amount_of from non) 1) g) in
    rw (g.balances_agree from, g.nonces_agree from)
      (elim (Bool-cases (ltb 0 s.tx.fee && not (is_empty miner))) [
        | inl fee_paid ↦ rw fee_paid (overlay_credit-Agrees x b n _ _ non' miner s.tx.fee paid)
        | inr no_fee ↦ rw no_fee paid
      ])

Agrees-read :
    (b n : Amounts) (o : Overlay) (bal non : Amounts) (a : Bytes)
    → Agrees b n o bal non
    → read bal non [] a ≡ read b n o a
unfolding read
Agrees-read b n o bal non a g = λ i. (sym (g.balances_agree a) i, sym (g.nonces_agree a) i)

-- Maps that agree under an overlay have the root that the overlay gives.
pub Agrees-state_root :
    (x : External) (b n : Amounts) (o : Overlay) (bal non : Amounts)
    → Agrees b n o bal non
    → state_root x bal non ≡ state_root_with_overlay x b n o
unfolding state_root
Agrees-state_root x b n o bal non g =
    state_root-extensional x bal b non n [] o (λ a. Agrees-read b n o bal non a g)
      (λ a. rw (append-nil (keys non)) (sym (g.entries_agree a)))
