-- ===== src/Node/Reorg/Probe.antt =====
-- The search for the common ancestor in `reconcile_fork` of l1-chain/node/src/main.rs.
use bina_blockchain_l.Prelude.{
  ℕ, zero, suc, ◌≤◌, ◌<◌, ◌≡◌, refl, sym, ap, ◌∙◌, ◌⊎◌, inl, inr, false, Option, none, some, List,
  arith, dec_lt, ltb, if◌then◌else◌, Bool-cases, Result, ok, ok_injective, Bytes, bytes_key,
  nat_key, same, same→eq,
}
use bina_blockchain_l.External.{External}
use bina_blockchain_l.Node.{BlockRecord}
use bina_blockchain_l.Store.{BlockStore}
use bina_blockchain_l.Node.Reorg.{ReorgStop, local_hash_at, peer_hash_at, compare_at, probe}

-- Both chains have a hash at a height, and it is the same, or another.
abbrev pub IsShared : External → BlockStore → (ℕ → Option (List BlockRecord)) → ℕ → Type 0
IsShared x st headers h =
    (hash : Bytes) × (local_hash_at x st h ≡ some hash) × (peer_hash_at x (headers h) h ≡ some hash)

abbrev pub IsSplit : External → BlockStore → (ℕ → Option (List BlockRecord)) → ℕ → Type 0
IsSplit x st headers h =
    (mine theirs : Bytes) × (local_hash_at x st h ≡ some mine)
    × (peer_hash_at x (headers h) h ≡ some theirs)
    × (same mine theirs ≡ false)

compare_at-ok :
    (p l : Option Bytes) (found f : ℕ) (further : Result ReorgStop ℕ)
    → compare_at p l found further ≡ ok f
    → ((f ≡ found) × (hash : Bytes) × (l ≡ some hash) × (p ≡ some hash))
      ⊎ ((further ≡ ok f)
          × (mine theirs : Bytes) × (l ≡ some mine)
          × (p ≡ some theirs)
          × (same mine theirs ≡ false))
compare_at-ok none l found f further h = cc
compare_at-ok (some p) none found f further h = cc
compare_at-ok (some p) (some l) found f further h = elim (Bool-cases (same l p)) [
  | inl equal ↦
      let good : Result ReorgStop ℕ = ok found in
      let e : (if same l p then good else further) ≡ good = rw equal refl in
      inl (ok_injective f found (sym h ∙ e), l, refl, ap some (sym (same→eq l p equal)))
  | inr other ↦
      let good : Result ReorgStop ℕ = ok found in
      let e : (if same l p then good else further) ≡ further = rw other refl in
      inr (sym e ∙ h, l, p, refl, refl, other)
]

-- Where the search ends above its floor, the two chains have the same block; at every height above that
-- point up to the tip both have a block, and the blocks differ. So the point is the highest
-- common ancestor.
pub probe-highest :
    (x : External) (st : BlockStore) (headers : ℕ → Option (List BlockRecord)) (floor h f : ℕ)
    → probe x st headers floor h ≡ ok f
    → (f ≤ h)
      × (floor < f → IsShared x st headers f)
      × ((k : ℕ) → f < k → k ≤ h → IsSplit x st headers k)
unfolding probe
probe-highest x st headers floor zero f e =
    let here : f ≡ 0 = ok_injective f 0 (sym e) in
    (ground arith, λ above. absurd (ground arith), λ k above below. absurd (ground arith))
probe-highest x st headers floor (suc h) f e = elim (Bool-cases (ltb floor (suc h))) [
  | inr low ↦
      let here : f ≡ suc h = ok_injective f (suc h) (sym e ∙ rw low refl) in
      (ground arith, λ above. absurd (ground arith), λ k above below. absurd (ground arith))
  | inl above ↦
      let step : compare_at (peer_hash_at x (headers (suc h)) (suc h)) (local_hash_at x st (suc h))
            (suc h) (probe x st headers floor h)
          ≡ ok f =
        (rw above refl) ∙ e in
      elim (compare_at-ok _ _ (suc h) f _ step) [
        | inl (here, hash, mine, theirs) ↦ (
          ground arith,
          λ _. (hash, rw here mine, rw here theirs),
          λ k low high. absurd (ground arith),
        )
        | inr (further, mine, theirs, m, t, other) ↦
            let (below, shared, split) = probe-highest x st headers floor h f further in
            (
              ground arith,
              shared,
              λ k low high. elim (dec_lt h k) [
                | yes top ↦
                    let here : k ≡ suc h = omega arith in
                    (mine, theirs, rw here m, rw here t, other)
                | no inside ↦ split k low (omega arith)
              ],
            )
      ]
]
