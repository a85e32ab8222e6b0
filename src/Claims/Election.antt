-- ===== src/Claims/Election.antt =====
-- The election of l1-chain/core/src/claims.rs does not depend on the order of arrival.
use bina_blockchain_l.Prelude.{
  ℕ, ◌≡◌, refl, sym, ◌↔◌, inl, inr, Bool, true, false, not, some, List, [], ◌∷◌, arith, ltb, ◌==◌,
  if◌then◌else◌, Bool-cases, All, Bytes, bytes_lt, bytes_lt_irrefl, bytes_lt_trans, bytes_lt_total,
  bytes_lt_asymm, bytes_key, nat_key, same, same_refl,
}
use mathlib.Core.Path.{subst}
use bina_blockchain_l.External.{External}
use bina_blockchain_l.Claims.{
  SignedBlockClaim, block_hash, work_bits, election_score, claim_is_better, better_of,
  reduce_claims, select_winning_claim,
}

-- An element is in a list, with its place.
pub data IsAmong {ℓ} {A : Type ℓ} (a : A) : List A → Type ℓ where
  here : {b : A} {l : List A} → a ≡ b → IsAmong a (b ∷ l)
  there : {b : A} {l : List A} → IsAmong a l → IsAmong a (b ∷ l)

All-at {ℓ κ} : {A : Type ℓ} {a : A} {l : List A} (P : A → Type κ) → All P l → IsAmong a l → P a
All-at P h (here e) = subst P (sym e) h.0
All-at P h (there m) = All-at P h.1 m

-- The comparison as a function of work, score and hash.
ranks : ℕ → Bytes → Bytes → ℕ → Bytes → Bytes → Bool
ranks w s h w' s' h' =
    if not (w == w') then ltb w' w else if not (same s s') then bytes_lt s s' else bytes_lt h h'

ranks_irrefl : (w : ℕ) (s h : Bytes) → ranks w s h w s h ≡ false
unfolding ranks
ranks_irrefl w s h = ground (arith, bytes_lt_irrefl h, same_refl s)

ranks_trans :
    (w₁ w₂ w₃ : ℕ) (s₁ h₁ s₂ h₂ s₃ h₃ : Bytes)
    → ranks w₁ s₁ h₁ w₂ s₂ h₂ ≡ true
    → ranks w₂ s₂ h₂ w₃ s₃ h₃ ≡ true
    → ranks w₁ s₁ h₁ w₃ s₃ h₃ ≡ true
unfolding ranks
ranks_trans w₁ w₂ w₃ s₁ h₁ s₂ h₂ s₃ h₃ p q =
    ground (arith, bytes_lt_trans s₁ s₂ s₃, bytes_lt_trans h₁ h₂ h₃, bytes_lt_asymm s₁ s₂)

ranks_total :
    (w₁ w₂ : ℕ) (s₁ h₁ s₂ h₂ : Bytes)
    → ranks w₁ s₁ h₁ w₂ s₂ h₂ ≡ false
    → ranks w₂ s₂ h₂ w₁ s₁ h₁ ≡ false
    → h₁ ≡ h₂
unfolding ranks
ranks_total w₁ w₂ s₁ h₁ s₂ h₂ p q = ground (arith, bytes_lt_total s₁ s₂, bytes_lt_total h₁ h₂)

module _ (x : External) where
  abbrev Unbeaten : SignedBlockClaim → List SignedBlockClaim → Type 0
  Unbeaten w = All (λ c. claim_is_better x c w ≡ false)

  -- Being better is a strict order: no claim is better than itself, and a claim better than a
  -- better one is better.
  pub claim_is_better-order :
      (a b c : SignedBlockClaim)
      → (claim_is_better x a a ≡ false)
        × (claim_is_better x a b ≡ true
            → claim_is_better x b c ≡ true
            → claim_is_better x a c ≡ true)
  unfolding claim_is_better ranks
  claim_is_better-order a b c = (
    ranks_irrefl (work_bits x a) (election_score x a.header) (block_hash x a),
    ranks_trans (work_bits x a) (work_bits x b) (work_bits x c) (election_score x a.header)
        (block_hash x a) (election_score x b.header) (block_hash x b) (election_score x c.header)
        (block_hash x c),
  )

  -- Two claims neither of which is better have the same block hash.
  pub claim_is_better-total :
      (a b : SignedBlockClaim)
      → claim_is_better x a b ≡ false
      → claim_is_better x b a ≡ false
      → block_hash x a ≡ block_hash x b
  unfolding claim_is_better ranks
  claim_is_better-total a b =
      ranks_total (work_bits x a) (work_bits x b) (election_score x a.header) (block_hash x a)
        (election_score x b.header) (block_hash x b)

  better_of-keeps :
      (d w c : SignedBlockClaim)
      → claim_is_better x d w ≡ false
      → claim_is_better x d (better_of x w c) ≡ false
  unfolding better_of
  better_of-keeps d w c h = elim (Bool-cases (claim_is_better x c w)) [
    | inr kept ↦ rw kept h
    | inl replaced ↦ rw replaced (elim (Bool-cases (claim_is_better x d c)) [
      | inr worse ↦ worse
      | inl better ↦ let e = (claim_is_better-order d c w).1 better replaced in cc
    ])
  ]

  better_of-Unbeaten : (w c : SignedBlockClaim) → claim_is_better x c (better_of x w c) ≡ false
  unfolding better_of
  better_of-Unbeaten w c = elim (Bool-cases (claim_is_better x c w)) [
    | inr kept ↦ rw (kept, kept)
    | inl replaced ↦ rw replaced (claim_is_better-order c c c).0
  ]

  reduce_claims-keeps :
      (d w : SignedBlockClaim) (rest : List SignedBlockClaim)
      → claim_is_better x d w ≡ false
      → claim_is_better x d (reduce_claims x w rest) ≡ false
  unfolding reduce_claims
  reduce_claims-keeps d w [] h = h
  reduce_claims-keeps d w (c ∷ cs) h =
      reduce_claims-keeps d (better_of x w c) cs (better_of-keeps d w c h)

  reduce_claims-Unbeaten :
      (w : SignedBlockClaim) (rest : List SignedBlockClaim) → Unbeaten (reduce_claims x w rest) rest
  unfolding reduce_claims
  reduce_claims-Unbeaten w [] = tt
  reduce_claims-Unbeaten w (c ∷ cs) = (
    reduce_claims-keeps c (better_of x w c) cs (better_of-Unbeaten w c),
    reduce_claims-Unbeaten (better_of x w c) cs,
  )

  reduce_claims-IsAmong :
      (w : SignedBlockClaim) (rest : List SignedBlockClaim)
      → IsAmong (reduce_claims x w rest) (w ∷ rest)
  unfolding reduce_claims better_of
  reduce_claims-IsAmong w [] = here refl
  reduce_claims-IsAmong w (c ∷ cs) = elim (Bool-cases (claim_is_better x c w)) [
    | inl replaced ↦ rw replaced (there (reduce_claims-IsAmong c cs))
    | inr kept ↦ rw kept (skip (reduce_claims-IsAmong w cs))
  ]
    where
      skip : {a : SignedBlockClaim} → IsAmong a (w ∷ cs) → IsAmong a (w ∷ c ∷ cs)
      skip (here e) = here e
      skip (there m) = there (there m)

  -- Of one claim or more the election returns one of them, and no claim beats it.
  pub select_winning_claim-IsBest :
      (c : SignedBlockClaim) (cs : List SignedBlockClaim)
      → (w : SignedBlockClaim) × (select_winning_claim x (c ∷ cs) ≡ some w)
        × IsAmong w (c ∷ cs)
        × All (λ d. claim_is_better x d w ≡ false) (c ∷ cs)
  unfolding select_winning_claim
  select_winning_claim-IsBest c cs = (
    reduce_claims x c cs,
    refl,
    reduce_claims-IsAmong c cs,
    (reduce_claims-keeps c c cs (claim_is_better-order c c c).0, reduce_claims-Unbeaten c cs),
  )

  winner_lem :
      (l : List SignedBlockClaim) (u : SignedBlockClaim)
      → select_winning_claim x l ≡ some u
      → IsAmong u l × All (λ d. claim_is_better x d u ≡ false) l
  unfolding select_winning_claim
  winner_lem [] u e = cc
  winner_lem (c ∷ cs) u e =
      let (w, chosen, among, best) = select_winning_claim-IsBest c cs in
      subst (λ v. IsAmong v (c ∷ cs) × All (λ d. claim_is_better x d v ≡ false) (c ∷ cs)) (cc)
        (among, best)

  -- Two nodes that have seen the same claims, in any order and any number of times, elect claims with
  -- the same block hash.
  pub select_winning_claim-order_free :
      (ls rs : List SignedBlockClaim) (v w : SignedBlockClaim)
      → ((c : SignedBlockClaim) → IsAmong c ls ↔ IsAmong c rs)
      → select_winning_claim x ls ≡ some v
      → select_winning_claim x rs ≡ some w
      → block_hash x v ≡ block_hash x w
  select_winning_claim-order_free ls rs v w same_claims ev ew =
      let (v_in, v_best) = winner_lem ls v ev in
      let (w_in, w_best) = winner_lem rs w ew in
      claim_is_better-total v w
        (All-at (λ d. claim_is_better x d w ≡ false) w_best ((same_claims v).0 v_in))
        (All-at (λ d. claim_is_better x d v ≡ false) v_best ((same_claims w).1 w_in))
