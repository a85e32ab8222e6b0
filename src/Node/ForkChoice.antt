-- ===== src/Node/ForkChoice.antt =====
-- The choices between chains and between claims in l1-chain/node/src/main.rs: `select_best_peer` and
-- `select_winning_pending`.
use bina_blockchain_l.Prelude.{
  ℕ, ◌≤◌, ◌≡◌, refl, sym, ap, inl, inr, Bool, true, false, ◌&&◌, Option, none, some, List, [], ◌∷◌,
  map, arith, ltb, if◌then◌else◌, ltb→lt, ltb→le, Bool-cases, All, filter, Bytes, bytes_key,
  nat_key, same,
}
use mathlib.Core.Path.{subst}
use bina_blockchain_l.External.{External}
use bina_blockchain_l.Claims.{
  SignedBlockClaim, claim_is_better, better_of, reduce_claims, select_winning_claim,
}
use bina_blockchain_l.Node.{PendingClaim}
use bina_blockchain_l.Node.Peers.{SocketAddress}

-- `PeerStatus`
pub record PeerStatus : Type 0 where
  pub addr : SocketAddress
  pub height : ℕ
  pub genesis_hash : Bytes
  pub chain_work : ℕ

-- The test of `filter`.
abbrev pub is_heavier : Bytes → ℕ → PeerStatus → Bool
is_heavier local_genesis local_work p =
    same p.genesis_hash local_genesis && ltb local_work p.chain_work

-- `max_by_key` of the standard library returns the last of the largest.
larger : PeerStatus → Option PeerStatus → Option PeerStatus
larger p none = some p
larger p (some q) = if ltb q.chain_work p.chain_work then some p else some q

max_by_work : List PeerStatus → Option PeerStatus
unfolding larger
max_by_work [] = none
max_by_work (p ∷ ps) = larger p (max_by_work ps)

unfoldable pub select_best_peer : List PeerStatus → Bytes → ℕ → Option PeerStatus
unfolding max_by_work
select_best_peer statuses local_genesis local_work =
    max_by_work (filter (is_heavier local_genesis local_work) statuses)

module _ (x : External) where
  -- The closure of `reduce`.
  better_pending : PendingClaim → PendingClaim → PendingClaim
  better_pending winner candidate =
      if claim_is_better x candidate.claim winner.claim then candidate else winner

  reduce_pending : PendingClaim → List PendingClaim → PendingClaim
  unfolding better_pending
  reduce_pending winner [] = winner
  reduce_pending winner (candidate ∷ claims) =
      reduce_pending (better_pending winner candidate) claims

  unfoldable pub select_winning_pending : List PendingClaim → Option PendingClaim
  unfolding reduce_pending
  select_winning_pending [] = none
  select_winning_pending (claim ∷ claims) = some (reduce_pending claim claims)

-- A result that is right for a test: the element passes and no other that passes has more work, or
-- none passes.
abbrev pub Chosen : (PeerStatus → Bool) → List PeerStatus → Option PeerStatus → Type 0
Chosen test ps none = All (λ p. test p ≡ false) ps
Chosen test ps (some p) =
    (test p ≡ true) × All (λ q. test q ≡ true → q.chain_work ≤ p.chain_work) ps

All-imp {ℓ κ} :
    {A : Type ℓ} {P Q : A → Type κ} (l : List A) → ((a : A) → P a → Q a) → All P l → All Q l
All-imp [] f h = tt
All-imp (a ∷ l) f h = (f a h.0, All-imp l f h.1)

Chosen-skip :
    (test : PeerStatus → Bool) (p : PeerStatus) (ps : List PeerStatus) (m : Option PeerStatus)
    → test p ≡ false
    → Chosen test ps m
    → Chosen test (p ∷ ps) m
Chosen-skip test p ps none fails h = (fails, h)
Chosen-skip test p ps (some q) fails h = (h.0, ((λ passes. ground arith), h.1))

larger-Chosen :
    (test : PeerStatus → Bool) (p : PeerStatus) (ps : List PeerStatus) (m : Option PeerStatus)
    → test p ≡ true
    → Chosen test ps m
    → Chosen test (p ∷ ps) (larger p m)
unfolding larger
larger-Chosen test p ps none passes h =
    let rest : All (λ q. test q ≡ true → q.chain_work ≤ p.chain_work) ps =
      All-imp ps (λ q (fails : test q ≡ false) (e : test q ≡ true). ground arith) h in
    (passes, ((λ _. omega arith), rest))
larger-Chosen test p ps (some q) passes h = elim (Bool-cases (ltb q.chain_work p.chain_work)) [
  | inl more ↦
      let above = ltb→lt q.chain_work p.chain_work more in
      let rest : All (λ r. test r ≡ true → r.chain_work ≤ p.chain_work) ps =
        All-imp ps
          (λ r (f : test r ≡ true → r.chain_work ≤ q.chain_work) (e : test r ≡ true).
            omega (arith, f e, above))
          h.1 in
      rw more (passes, ((λ _. omega arith), rest))
  | inr less ↦ rw less (h.0, ((λ _. ltb→le _ _ less), h.1))
]

max_by_work-Chosen :
    (test : PeerStatus → Bool) (ps : List PeerStatus)
    → Chosen test ps (max_by_work (filter test ps))
unfolding max_by_work
max_by_work-Chosen test [] = tt
max_by_work-Chosen test (p ∷ ps) = elim (Bool-cases (test p)) [
  | inr fails ↦
      let e : filter test (p ∷ ps) ≡ filter test ps = rw (fails, filter) refl in
      subst (λ l. Chosen test (p ∷ ps) (max_by_work l)) (sym e)
        (Chosen-skip test p ps (max_by_work (filter test ps)) fails (max_by_work-Chosen test ps))
  | inl passes ↦
      let e : filter test (p ∷ ps) ≡ p ∷ filter test ps = rw (passes, filter) refl in
      subst (λ l. Chosen test (p ∷ ps) (max_by_work l)) (sym e)
        (larger-Chosen test p ps (max_by_work (filter test ps)) passes (max_by_work-Chosen test ps))
]

-- The chosen peer is on the own genesis and strictly heavier than the own chain, and no reported peer
-- that is so has more work; if none is chosen, no reported peer is so.
pub select_best_peer-heaviest :
    (ps : List PeerStatus) (genesis : Bytes) (work : ℕ)
    → Chosen (is_heavier genesis work) ps (select_best_peer ps genesis work)
unfolding select_best_peer
select_best_peer-heaviest ps genesis work = max_by_work-Chosen (is_heavier genesis work) ps

reduce_pending-claim :
    (x : External) (w : PendingClaim) (ps : List PendingClaim)
    → (reduce_pending x w ps).claim ≡ reduce_claims x w.claim (map (λ p. p.claim) ps)
unfolding reduce_pending better_pending reduce_claims better_of
reduce_pending-claim x w [] = refl
reduce_pending-claim x w (p ∷ ps) = elim (Bool-cases (claim_is_better x p.claim w.claim)) [
  | inl replaced ↦ rw (replaced, reduce_pending, reduce_claims) (reduce_pending-claim x p ps)
  | inr kept ↦ rw (kept, reduce_pending, reduce_claims) (reduce_pending-claim x w ps)
]

abbrev pub carried : Option PendingClaim → Option SignedBlockClaim
carried none = none
carried (some p) = some p.claim

-- The node's choice among pending claims is the election of the core over the claims they carry.
pub select_winning_pending-select_winning_claim :
    (x : External) (ps : List PendingClaim)
    → carried (select_winning_pending x ps) ≡ select_winning_claim x (map (λ p. p.claim) ps)
unfolding select_winning_pending select_winning_claim
select_winning_pending-select_winning_claim x [] = refl
select_winning_pending-select_winning_claim x (p ∷ ps) = ap some (reduce_pending-claim x p ps)

-- The winner of an election is one of the candidates.
reduce_pending-All {κ} :
    (x : External) (P : PendingClaim → Type κ) (w : PendingClaim) (ps : List PendingClaim)
    → P w
    → All P ps
    → P (reduce_pending x w ps)
unfolding reduce_pending better_pending
reduce_pending-All x P w [] here rest = here
reduce_pending-All x P w (p ∷ ps) here rest =
    elim (Bool-cases (claim_is_better x p.claim w.claim)) [
      | inl replaced ↦ rw (replaced, reduce_pending) (reduce_pending-All x P p ps rest.0 rest.1)
      | inr kept ↦ rw (kept, reduce_pending) (reduce_pending-All x P w ps here rest.1)
    ]

some_injective : {a b : PendingClaim} → some a ≡ some b → a ≡ b
some_injective h = cc

pub select_winning_pending-All {κ} :
    (x : External) (P : PendingClaim → Type κ) (ps : List PendingClaim) (w : PendingClaim)
    → select_winning_pending x ps ≡ some w
    → All P ps
    → P w
unfolding select_winning_pending
select_winning_pending-All x P [] w h rest = cc
select_winning_pending-All x P (p ∷ ps) w h rest =
    subst P (some_injective h) (reduce_pending-All x P p ps rest.0 rest.1)
