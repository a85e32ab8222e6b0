-- ===== src/Store/Ranges.antt =====
-- Pages of blocks, the tip and the last checkpoint in l1-chain/node/src/store.rs.
use bina_blockchain_l.Prelude.{
  ℕ, zero, suc, ◌≤◌, ◌<◌, ◌≡◌, refl, sym, ap, ◌∙◌, ◌≢◌, inl, inr, Bool, some, List, [], ◌∷◌, arith,
  ◌==◌, ==→eq, ==_refl, Bool-cases, length, take, length-take, All, filter, ok, >>=-eq-ok,
  ok_injective, bytes_key, nat_key,
}
use mathlib.Core.Path.{subst}
use bina_blockchain_l.Node.{BlockRecord}
use bina_blockchain_l.Store.{
  Json, BlockStore, as_i64, row_to_record, row_at, within, complete, complete_found, complete_all,
  get_transactions, get, get_range,
}
use bina_blockchain_l.Store.Rows.{IsOrdered, AllAbove, filter-IsOrdered}
use bina_blockchain_l.Store.Blocks.{IsTidy}

-- In ordered rows each row is the one that its height finds.
found_elsewhere :
    (h : ℕ) (q : BlockRecord) (rows : List BlockRecord)
    → as_i64 h ≢ as_i64 q.height
    → row_at h (q ∷ rows) ≡ row_at h rows
found_elsewhere h q rows ne = elim (Bool-cases (q.height == h)) [
  | inl e ↦ absurd (ne (ap as_i64 (sym (==→eq _ _ e))))
  | inr other ↦ rw other
]

Found : List BlockRecord → List BlockRecord → Type 0
Found table = All (λ q. row_at q.height table ≡ some q)

Found-cons :
    (q : BlockRecord) (table rows : List BlockRecord)
    → AllAbove (as_i64 q.height) rows
    → Found table rows
    → Found (q ∷ table) rows
unfolding Found
Found-cons q table [] a f = tt
Found-cons q table (p ∷ rows) a f = (
  found_elsewhere p.height q table (λ e. omega (arith, a.0, e)) ∙ f.0,
  Found-cons q table rows a.1 f.1,
)

Found-self : (rows : List BlockRecord) → IsOrdered rows → Found rows rows
unfolding Found
Found-self [] o = tt
Found-self (q ∷ rows) o = (rw (==_refl q.height), Found-cons q rows rows o.0 (Found-self rows o.1))

Found-filter :
    (p : BlockRecord → Bool) (table rows : List BlockRecord)
    → Found table rows
    → Found table (filter p rows)
unfolding Found
Found-filter p table [] f = tt
Found-filter p table (q ∷ rows) f = ground (arith, Found-filter p table rows f.1)

Found-take : (n : ℕ) (table rows : List BlockRecord) → Found table rows → Found table (take n rows)
unfolding Found
Found-take zero table rows f = tt
Found-take (suc n) table [] f = tt
Found-take (suc n) table (q ∷ rows) f = (f.0, Found-take n table rows f.1)

AllAbove-take : (n h : ℕ) (rows : List BlockRecord) → AllAbove h rows → AllAbove h (take n rows)
AllAbove-take zero h rows a = tt
AllAbove-take (suc n) h [] a = tt
AllAbove-take (suc n) h (q ∷ rows) a = (a.0, AllAbove-take n h rows a.1)

IsOrdered-take : (n : ℕ) (rows : List BlockRecord) → IsOrdered rows → IsOrdered (take n rows)
IsOrdered-take zero rows o = tt
IsOrdered-take (suc n) [] o = tt
IsOrdered-take (suc n) (q ∷ rows) o =
    (AllAbove-take n (as_i64 q.height) rows o.0, IsOrdered-take n rows o.1)

Inside : ℕ → ℕ → List BlockRecord → Type 0
Inside from to = All (λ q. (as_i64 from ≤ as_i64 q.height) × (as_i64 q.height ≤ as_i64 to))

within-filter :
    (from to : ℕ) (rows : List BlockRecord) → Inside from to (filter (within from to) rows)
unfolding Inside
within-filter from to [] = tt
within-filter from to (q ∷ rows) = elim (Bool-cases (within from to q)) [
  | inl yes_in ↦ rw (yes_in, filter) ((ground arith, ground arith), within-filter from to rows)
  | inr out ↦ rw (out, filter) (within-filter from to rows)
]

within-take :
    (from to n : ℕ) (rows : List BlockRecord) → Inside from to rows → Inside from to (take n rows)
unfolding Inside
within-take from to zero rows h = tt
within-take from to (suc n) [] h = tt
within-take from to (suc n) (q ∷ rows) h = (h.0, within-take from to n rows h.1)

-- A completed row keeps its height, and is what its height gives.
complete_lem :
    (j : Json) (s : BlockStore) (q r : BlockRecord)
    → row_at q.height s.blocks ≡ some q
    → complete j s q ≡ ok r
    → (q.height ≡ r.height) × (get j s q.height ≡ ok (some r))
unfolding get complete complete_found row_to_record
complete_lem j s q r found e =
    let (txs, _, e1) = >>=-eq-ok (get_transactions j s q.height) _ e in
    (ap (λ v. v.height) (ok_injective _ r e1), rw (found, complete_found) (rw e refl))

complete_all-All :
    (j : Json) (s : BlockStore) (P : ℕ → Type 0) (rows rs : List BlockRecord)
    → Found s.blocks rows
    → complete_all j s rows ≡ ok rs
    → All (λ q. P q.height) rows
    → All (λ r. P r.height) rs
unfolding complete_all Found
complete_all-All j s P [] rs f e a = subst (All (λ r. P r.height)) (ok_injective [] rs e) tt
complete_all-All j s P (q ∷ rows) rs f e a =
    let (r, e1, e2) = >>=-eq-ok (complete j s q) _ e in
    let (rest, e3, e4) = >>=-eq-ok (complete_all j s rows) _ e2 in
    let (h, _) = complete_lem j s q r f.0 e1 in
    subst (All (λ v. P v.height)) (ok_injective (r ∷ rest) rs e4)
      (subst P h a.0, complete_all-All j s P rows rest f.1 e3 a.1)

complete_all-get :
    (j : Json) (s : BlockStore) (rows rs : List BlockRecord)
    → Found s.blocks rows
    → complete_all j s rows ≡ ok rs
    → All (λ r. get j s r.height ≡ ok (some r)) rs
unfolding complete_all Found
complete_all-get j s [] rs f e =
    subst (All (λ r. get j s r.height ≡ ok (some r))) (ok_injective [] rs e) tt
complete_all-get j s (q ∷ rows) rs f e =
    let (r, e1, e2) = >>=-eq-ok (complete j s q) _ e in
    let (rest, e3, e4) = >>=-eq-ok (complete_all j s rows) _ e2 in
    let (h, g) = complete_lem j s q r f.0 e1 in
    subst (All (λ v. get j s v.height ≡ ok (some v))) (ok_injective (r ∷ rest) rs e4)
      (ap (get j s) (sym h) ∙ g, complete_all-get j s rows rest f.1 e3)

complete_all-IsOrdered :
    (j : Json) (s : BlockStore) (rows rs : List BlockRecord)
    → Found s.blocks rows
    → complete_all j s rows ≡ ok rs
    → IsOrdered rows
    → IsOrdered rs × (length rs ≡ length rows)
unfolding complete_all Found
complete_all-IsOrdered j s [] rs f e o =
    subst (λ v. IsOrdered v × (length v ≡ 0)) (ok_injective [] rs e) (tt, refl)
complete_all-IsOrdered j s (q ∷ rows) rs f e o =
    let (r, e1, e2) = >>=-eq-ok (complete j s q) _ e in
    let (rest, e3, e4) = >>=-eq-ok (complete_all j s rows) _ e2 in
    let (h, _) = complete_lem j s q r f.0 e1 in
    let (o', len) = complete_all-IsOrdered j s rows rest f.1 e3 o.1 in
    let above = complete_all-All j s (λ k. as_i64 q.height < as_i64 k) rows rest f.1 e3 o.0 in
    subst (λ v. IsOrdered v × (length v ≡ suc (length rows))) (ok_injective (r ∷ rest) rs e4)
      ((subst (λ k. AllAbove (as_i64 k) rest) h above, o'), ap suc len)

-- A page of blocks holds at most as many records as asked for, each of a height in the range, by
-- ascending height, and each is the record that its height gives.
pub get_range-page :
    (j : Json) (s : BlockStore) (from to limit : ℕ) (rs : List BlockRecord)
    → IsTidy s
    → get_range j s from to limit ≡ ok rs
    → (length rs ≤ limit)
      × All (λ r. (as_i64 from ≤ as_i64 r.height) × (as_i64 r.height ≤ as_i64 to)) rs
      × IsOrdered rs
      × All (λ r. get j s r.height ≡ ok (some r)) rs
unfolding get_range Inside
get_range-page j s from to limit rs t e =
    let rows = filter (within from to) s.blocks in
    let f =
      Found-take limit s.blocks rows
        (Found-filter (within from to) s.blocks s.blocks (Found-self s.blocks t.ordered)) in
    let o = IsOrdered-take limit rows (filter-IsOrdered (within from to) s.blocks t.ordered) in
    let (o', len) = complete_all-IsOrdered j s (take limit rows) rs f e o in
    let inside = within-take from to limit rows (within-filter from to s.blocks) in
    (
      omega (arith, len, length-take limit rows),
      complete_all-All j s (λ k. (as_i64 from ≤ as_i64 k) × (as_i64 k ≤ as_i64 to))
          (take limit rows) rs f e inside,
      o',
      complete_all-get j s (take limit rows) rs f e,
    )
