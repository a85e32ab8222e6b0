-- ===== src/Ledger/Maps.antt =====
-- The balance and nonce maps of l1-chain/core/src/rewards.rs and the helpers that change them.
use bina_blockchain_l.Prelude.{
  ℕ, ◌+◌, ◌-◌, ◌≤◌, ◌≡◌, Bool, true, false, none, some, List, [], ◌∷◌, arith, ltb, if◌then◌else◌,
  saturating_add, saturating_sub, Bytes, bytes_key, nat_key, same, lookup, insert, lookup-insert,
}

-- `HashMap<String, u64>`
abbrev pub Amounts : Type 0
Amounts = List (Bytes × ℕ)

-- `.get(a).copied().unwrap_or(0)`, also what `entry(a).or_insert(0)` reads.
unfoldable pub amount_of : Bytes → Amounts → ℕ
amount_of a m = elim (lookup a m) [ none ↦ 0 | some v ↦ v ]

unfoldable pub credit_balance : Amounts → Bytes → ℕ → Amounts
credit_balance m a amount = insert a (saturating_add (amount_of a m) amount) m

unfoldable pub debit : Amounts → Bytes → ℕ → Amounts
debit m a amount = insert a (saturating_sub (amount_of a m) amount) m

-- Whether the sum is there; the entry is made in either case.
unfoldable pub debit_checked : Amounts → Bytes → ℕ → Bool × Amounts
debit_checked m a amount =
    if ltb (amount_of a m) amount
    then (false, insert a (amount_of a m) m)
    else (true, insert a (amount_of a m - amount) m)

pub amount_of-insert :
    (a b : Bytes) (v : ℕ) (m : Amounts)
    → amount_of a (insert b v m) ≡ (if same a b then v else amount_of a m)
unfolding amount_of
amount_of-insert a b v m = ground (arith, lookup-insert a b v m)

-- The sum of all entries.
unfoldable pub sum_of : Amounts → ℕ
sum_of [] = 0
sum_of ((a, v) ∷ m) = v + sum_of m

-- An entry that is set moves the sum from its old value to its new one.
pub sum_of-insert :
    (a : Bytes) (v : ℕ) (m : Amounts) → sum_of (insert a v m) + amount_of a m ≡ sum_of m + v
unfolding sum_of amount_of
sum_of-insert a v [] = omega arith
sum_of-insert a v ((b, w) ∷ m) = ground (arith, sum_of-insert a v m)

pub amount_of-le-sum_of : (a : Bytes) (m : Amounts) → amount_of a m ≤ sum_of m
unfolding sum_of amount_of
amount_of-le-sum_of a [] = omega arith
amount_of-le-sum_of a ((b, w) ∷ m) = ground (arith, amount_of-le-sum_of a m)
