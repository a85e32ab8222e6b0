-- ===== src/Claims.antt =====
-- Signed block claims and the election of l1-chain/core/src/claims.rs.
pub mod Verify
pub mod Election
use bina_blockchain_l.Prelude.{
  ℕ, zero, suc, ◌+◌, ◌-◌, ◌*◌, ◌/◌, ◌%◌, ◌^◌, ◌≤◌, ◌<◌, min, max, ◌≡◌, refl, sym, ap, ◌∙◌, ◌≢◌, ◌↔◌,
  ◌⊎◌, inl, inr, Bool, true, false, not, ◌&&◌, ◌||◌, Option, none, some, List, [], ◌∷◌, ◌++◌, map,
  arith, dec_lt, ℕ_discrete, ltb, leb, ◌==◌, if◌then◌else◌, ltb→lt, ltb→le, lt→ltb, le→ltb, leb→le,
  le→leb, ==→eq, ==_refl, ==_ne, tests, Bool-cases, Option-cases, Bool-ext, length, take, drop,
  replicate, get_or, length-append, length-replicate, length-take, length-drop, take-append,
  drop-append, append_cancel, take_within, drop_within, All, All-append, all, filter, u64_mod,
  u64_max, saturating_add, checked_add, wrapping_add, saturating_sub, saturating_add_small,
  wrapping_add_small, Result, ok, err, ◌>>=◌, ◌>>◌, ensure, ok_or, is_ok, >>=-eq-ok, Bytes,
  Bytes-discrete, bytes_lt, bytes_lt_irrefl, bytes_lt_trans, bytes_lt_total, bytes_lt_asymm,
  le_bytes, of_le_bytes, length-le_bytes, of_le_bytes-le_bytes, codes, le_bytes_injective, Key,
  bytes_key, nat_key, same, same→eq, same_refl, member, member-append, set_insert, set_remove,
  lookup, insert, erase, keys, lookup-insert, lookup-erase, member-keys-insert,
}
use bina_blockchain_l.External.{External}
use bina_blockchain_l.Block.{L1BlockHeader, header_hash, meets_difficulty, leading_zero_bits}
use bina_blockchain_l.Crypto.{
  CryptoError, WalletPublicKey, HybridSignature, WalletKeypair, key_to_bytes, key_from_bytes,
  key_address, key_verify, signature_from_bytes, signature_to_bytes, keypair_sign,
}

abbrev pub claim_tag : Bytes
claim_tag = codes "BINA-BLOCK-CLAIM-v1"

abbrev pub election_tag : Bytes
election_tag = codes "BINA-ELECTION-v1"

pub data ClaimError : Type 0 where
  crypto : CryptoError → ClaimError
  wrong_address work_too_low : ClaimError

abbrev pub from_crypto {ℓ} : {A : Type ℓ} → Result CryptoError A → Result ClaimError A
from_crypto (ok a) = ok a
from_crypto (err e) = err (crypto e)

pub record SignedBlockClaim : Type 0 where
  pub header : L1BlockHeader
  pub public_key : Bytes
  pub signature : Bytes

module _ (x : External) where
  unfoldable pub claim_message : L1BlockHeader → Bytes
  claim_message h = x.blake3 (claim_tag ++ header_hash x h)

  unfoldable pub election_score : L1BlockHeader → Bytes
  election_score h = x.blake3 (
      election_tag
      ++ (le_bytes 8 h.height ++ (h.prev_hash ++ (header_hash x h ++ h.miner_address))))

  unfoldable pub block_hash : SignedBlockClaim → Bytes
  block_hash c = header_hash x c.header

  unfoldable pub work_bits : SignedBlockClaim → ℕ
  unfolding block_hash
  work_bits c = leading_zero_bits (block_hash c)

  -- `SignedBlockClaim::sign`, with the randomness that Falcon draws.
  unfoldable pub sign : L1BlockHeader → WalletKeypair → Bytes → SignedBlockClaim
  sign h k randomness = record {
    header = h;
    public_key = key_to_bytes k.public;
    signature = signature_to_bytes (keypair_sign x k randomness (claim_message h));
  }

  -- `SignedBlockClaim::verify`: the key's address, then the work, then the signature.
  unfoldable pub verify : SignedBlockClaim → Result ClaimError (Unit {0})
  verify c = do
    k ← from_crypto (key_from_bytes x c.public_key)
    ensure (same (key_address x k) c.header.miner_address) wrong_address
    ensure (meets_difficulty (block_hash c) c.header.difficulty_bits) work_too_low
    s ← from_crypto (signature_from_bytes c.signature)
    from_crypto (key_verify x k (claim_message c.header) s)

  -- More work first, then the lower score, then the lower hash.
  unfoldable pub claim_is_better : SignedBlockClaim → SignedBlockClaim → Bool
  claim_is_better candidate incumbent =
      if not (work_bits candidate == work_bits incumbent)
      then ltb (work_bits incumbent) (work_bits candidate)
      else if not (same (election_score candidate.header) (election_score incumbent.header))
      then bytes_lt (election_score candidate.header) (election_score incumbent.header)
      else bytes_lt (block_hash candidate) (block_hash incumbent)

  -- The closure that `reduce` is given.
  unfoldable pub better_of : SignedBlockClaim → SignedBlockClaim → SignedBlockClaim
  better_of winner claim = if claim_is_better claim winner then claim else winner

  unfoldable pub reduce_claims : SignedBlockClaim → List SignedBlockClaim → SignedBlockClaim
  reduce_claims winner [] = winner
  reduce_claims winner (claim ∷ claims) = reduce_claims (better_of winner claim) claims

  unfoldable pub select_winning_claim : List SignedBlockClaim → Option SignedBlockClaim
  unfolding reduce_claims
  select_winning_claim [] = none
  select_winning_claim (claim ∷ claims) = some (reduce_claims claim claims)
