-- ===== src/Randomness.antt =====
-- Randomness outputs and the nullifier set of l1-chain/core/src/randomness.rs.
pub mod Spending
use bina_blockchain_l.Prelude.{
  ℕ, zero, suc, ◌+◌, ◌-◌, ◌*◌, ◌/◌, ◌%◌, ◌^◌, ◌≤◌, ◌<◌, min, max, ◌≡◌, refl, sym, ap, ◌∙◌, ◌≢◌, ◌↔◌,
  ◌⊎◌, inl, inr, Bool, true, false, not, ◌&&◌, ◌||◌, Option, none, some, List, [], ◌∷◌, ◌++◌, map,
  arith, dec_lt, ℕ_discrete, ltb, leb, ◌==◌, if◌then◌else◌, ltb→lt, ltb→le, lt→ltb, le→ltb, leb→le,
  le→leb, ==→eq, ==_refl, ==_ne, tests, Bool-cases, Option-cases, Bool-ext, length, take, drop,
  replicate, get_or, length-append, length-replicate, length-take, length-drop, take-append,
  drop-append, append_cancel, take_within, drop_within, All, All-append, all, filter, u64_mod,
  u64_max, saturating_add, checked_add, wrapping_add, saturating_sub, saturating_add_small,
  wrapping_add_small, Result, ok, err, ◌>>=◌, ◌>>◌, ensure, ok_or, is_ok, >>=-eq-ok, Result-cases,
  Bytes, Bytes-discrete, bytes_lt, bytes_lt_irrefl, bytes_lt_trans, bytes_lt_total, bytes_lt_asymm,
  le_bytes, of_le_bytes, length-le_bytes, of_le_bytes-le_bytes, codes, le_bytes_injective, Key,
  bytes_key, nat_key, same, same→eq, same_refl, same_ne, member, member-append, set_insert,
  set_remove, lookup, insert, erase, keys, lookup-insert, lookup-erase, member-keys-insert,
}
use bina_blockchain_l.External.{External}

abbrev pub tag_output : Bytes
tag_output = codes "BINA-RAND-v1"

abbrev pub tag_nullifier : Bytes
tag_nullifier = codes "BINA-NULL-v1"

pub record RandomnessOutput : Type 0 where
  pub height : ℕ
  pub block_hash : Bytes
  pub bitcoin_seed_hash : Bytes
  pub output : Bytes
  pub nullifier : Bytes

pub data SpendError : Type 0 where
  double_spend : SpendError

-- `RandomnessOutput::from_block`
unfoldable pub from_block : External → ℕ → Bytes → Bytes → RandomnessOutput
from_block x height block_hash seed =
    let output = x.blake3 (tag_output ++ (le_bytes 8 height ++ (block_hash ++ seed))) in
    record {
      height = height;
      block_hash = block_hash;
      bitcoin_seed_hash = seed;
      output = output;
      nullifier = x.blake3 (tag_nullifier ++ (le_bytes 8 height ++ output));
    }

-- `RandomnessOutput::verify`
unfoldable pub verify_output : External → RandomnessOutput → Bool
verify_output x r =
    let expected = from_block x r.height r.block_hash r.bitcoin_seed_hash in
    same expected.output r.output && same expected.nullifier r.nullifier

-- `NullifierSet`, and its methods `consume`, `is_spent` and `mark_spent`.
abbrev pub NullifierSet : Type 0
NullifierSet = List Bytes

unfoldable pub mark_spent : NullifierSet → Bytes → Bool × NullifierSet
mark_spent spent nullifier = (not (member nullifier spent), set_insert nullifier spent)

unfoldable pub consume : NullifierSet → RandomnessOutput → Result SpendError Bytes × NullifierSet
unfolding mark_spent
consume spent r =
    let (fresh, spent') = mark_spent spent r.nullifier in
    if fresh then (ok r.output, spent') else (err double_spend, spent')

unfoldable pub is_spent : NullifierSet → RandomnessOutput → Bool
is_spent spent r = member r.nullifier spent
