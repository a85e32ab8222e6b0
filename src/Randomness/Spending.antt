-- ===== src/Randomness/Spending.antt =====
-- One-time use of the outputs of l1-chain/core/src/randomness.rs.
use bina_blockchain_l.Prelude.{
  ◌≡◌, refl, ◌∙◌, ◌≢◌, ◌↔◌, true, false, ◌||◌, List, [], ◌∷◌, arith, if◌then◌else◌, All, ok, err,
  Bytes, bytes_key, nat_key, same, same_refl, same_ne, member, member-append, set_insert,
}
use bina_blockchain_l.External.{External}
use bina_blockchain_l.Randomness.{
  RandomnessOutput, double_spend, from_block, verify_output, NullifierSet, consume, is_spent,
}

-- An output verifies exactly if it is the one derived from its height, block hash and seed.
pub verify_output_iff :
    (x : External) (r : RandomnessOutput)
    → (verify_output x r ≡ true) ↔ (from_block x r.height r.block_hash r.bitcoin_seed_hash ≡ r)
unfolding verify_output from_block
verify_output_iff x r = (λ h. ground arith, λ e. ground arith)

-- Runs of `consume`, each on the set that the one before left.
unfoldable pub consume_all : NullifierSet → List RandomnessOutput → NullifierSet
consume_all spent [] = spent
consume_all spent (r ∷ rs) = consume_all (consume spent r).1 rs

member-set_insert :
    (a b : Bytes) (l : List Bytes) → member a (set_insert b l) ≡ (same a b || member a l)
member-set_insert a b l = ground (arith, member-append a l (b ∷ []))

consume-is_spent :
    (spent : NullifierSet) (r q : RandomnessOutput)
    → is_spent (consume spent r).1 q ≡ (same q.nullifier r.nullifier || is_spent spent q)
unfolding consume is_spent
consume-is_spent spent r q = ground (arith, member-set_insert q.nullifier r.nullifier spent)

consume_all-is_spent :
    (spent : NullifierSet) (rs : List RandomnessOutput) (q : RandomnessOutput)
    → is_spent spent q ≡ true
    → is_spent (consume_all spent rs) q ≡ true
unfolding consume_all
consume_all-is_spent spent [] q h = h
consume_all-is_spent spent (r ∷ rs) q h =
    consume_all-is_spent (consume spent r).1 rs q
      (rw (consume-is_spent spent r q) (ground (arith, h)))

consume_lem :
    (spent : NullifierSet) (r : RandomnessOutput)
    → (consume spent r).0 ≡ (if is_spent spent r then err double_spend else ok r.output)
unfolding consume is_spent
consume_lem spent r = ground arith

-- An output is handed out once: whatever is consumed after it, consuming it again, or any output with
-- its nullifier, is a double spend.
pub consume_once :
    (spent : NullifierSet) (r q : RandomnessOutput) (rs : List RandomnessOutput)
    → q.nullifier ≡ r.nullifier
    → (consume (consume_all (consume spent r).1 rs) q).0 ≡ err double_spend
consume_once spent r q rs same_token =
    let spent_now : is_spent (consume spent r).1 q ≡ true =
      rw (consume-is_spent spent r q) (rw same_token (rw (same_refl r.nullifier))) in
    rw (
      consume_lem (consume_all (consume spent r).1 rs) q,
      consume_all-is_spent (consume spent r).1 rs q spent_now,
    )

consume_all_fresh :
    (spent : NullifierSet) (rs : List RandomnessOutput) (q : RandomnessOutput)
    → All (λ r. q.nullifier ≢ r.nullifier) rs
    → is_spent (consume_all spent rs) q ≡ is_spent spent q
unfolding consume_all
consume_all_fresh spent [] q fresh = refl
consume_all_fresh spent (r ∷ rs) q fresh =
    consume_all_fresh (consume spent r).1 rs q fresh.1
    ∙ consume-is_spent spent r q
    ∙ (rw (same_ne q.nullifier r.nullifier fresh.0))

is_spent_empty : (q : RandomnessOutput) → is_spent [] q ≡ false
unfolding is_spent
is_spent_empty q = refl

-- An output whose nullifier none of the consumed outputs has is handed out, with its random bytes.
pub consume_fresh :
    (rs : List RandomnessOutput) (q : RandomnessOutput)
    → All (λ r. q.nullifier ≢ r.nullifier) rs
    → (consume (consume_all [] rs) q).0 ≡ ok q.output
consume_fresh rs q fresh =
    rw (consume_lem (consume_all [] rs) q, consume_all_fresh [] rs q fresh, is_spent_empty q)
