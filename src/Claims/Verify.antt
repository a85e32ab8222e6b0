-- ===== src/Claims/Verify.antt =====
-- What a verified claim of l1-chain/core/src/claims.rs has shown.
use bina_blockchain_l.Prelude.{
  ◌≡◌, refl, ap, ◌∙◌, Bool, true, false, [], arith, length, Result, ok, err, ensure, >>=-eq-ok,
  Bytes, bytes_key, nat_key, same, same→eq, same_refl,
}
use mathlib.Core.List.{append-nil}
use bina_blockchain_l.External.{External}
use bina_blockchain_l.Block.{L1BlockHeader, header_hash, meets_difficulty}
use bina_blockchain_l.Crypto.{
  CryptoError, WalletPublicKey, HybridSignature, WalletKeypair, key_from_bytes, key_address,
  key_verify, signature_from_bytes, signature_to_bytes, keypair_sign,
}
use bina_blockchain_l.Crypto.Encoding.{
  key_from_bytes-key_to_bytes, signature_from_bytes-signature_to_bytes,
}
use bina_blockchain_l.Crypto.Signing.{Owns, key_verify-keypair_sign}
use bina_blockchain_l.Claims.{
  ClaimError, from_crypto, SignedBlockClaim, claim_message, block_hash, sign, verify,
}

-- What `verify` has established when it succeeds.
pub record IsProven (x : External) (c : SignedBlockClaim) : Type 0 where
  pub key : WalletPublicKey
  pub signed : HybridSignature
  pub key_read : key_from_bytes x c.public_key ≡ ok key
  pub address : key_address x key ≡ c.header.miner_address
  pub work : meets_difficulty (block_hash x c) c.header.difficulty_bits ≡ true
  pub signature_read : signature_from_bytes c.signature ≡ ok signed
  pub verified : key_verify x key (claim_message x c.header) signed ≡ ok tt

from_crypto-eq-ok :
    {A : Type 0} (r : Result CryptoError A) {a : A} → from_crypto r ≡ ok a → r ≡ ok a
from_crypto-eq-ok (ok a) h = cc
from_crypto-eq-ok (err e) h = cc

ensure-ok : (b : Bool) (e : ClaimError) {u : Unit {0}} → ensure b e ≡ ok u → b ≡ true
ensure-ok true e h = refl
ensure-ok false e h = cc

-- A claim that verifies carries a key that derives the header's miner address, a block hash that
-- meets the header's difficulty, and a hybrid signature of the header under that key.
pub verify-IsProven : (x : External) (c : SignedBlockClaim) → verify x c ≡ ok tt → IsProven x c
unfolding verify
verify-IsProven x c h =
    let (k, ek, h1) = >>=-eq-ok (from_crypto (key_from_bytes x c.public_key)) _ h in
    let (u, ea, h2) = >>=-eq-ok (ensure (same (key_address x k) c.header.miner_address) _) _ h1 in
    let (v, ew, h3) =
      >>=-eq-ok (ensure (meets_difficulty (block_hash x c) c.header.difficulty_bits) _) _ h2 in
    let (s, es, h4) = >>=-eq-ok (from_crypto (signature_from_bytes c.signature)) _ h3 in
    record {
      key = k;
      signed = s;
      key_read = from_crypto-eq-ok _ ek;
      address = same→eq _ _ (ensure-ok _ _ ea);
      work = ensure-ok _ _ ew;
      signature_read = from_crypto-eq-ok _ es;
      verified = from_crypto-eq-ok _ h4;
    }

-- A header that names the signer's address and meets its own difficulty gives, once signed, a claim
-- that verifies.
pub verify-sign :
    (x : External) (h : L1BlockHeader) (k : WalletKeypair) (randomness : Bytes)
    → Owns x k
    → h.miner_address ≡ key_address x k.public
    → meets_difficulty (header_hash x h) h.difficulty_bits ≡ true
    → verify x (sign x h k randomness) ≡ ok tt
unfolding verify sign block_hash keypair_sign
verify-sign x h k r o ea ew =
    let p = o.1 in
    let key =
      key_from_bytes-key_to_bytes x k.public (ap length o.0 ∙ p.ed_length) p.falcon_length
        (ap x.ed25519_valid_key o.0 ∙ p.ed_valid) p.falcon_valid in
    let s = keypair_sign x k r (claim_message x h) in
    let read = rw (append-nil (signature_to_bytes s)) at (
      signature_from_bytes-signature_to_bytes s [] (p.ed_sign_length (claim_message x h))
        (omega (arith, p.falcon_sign_length r (claim_message x h)))) in
    rw key (
      rw (← ea) (
        rw (same_refl h.miner_address, ew)
          (rw read (ap from_crypto (key_verify-keypair_sign x k r (claim_message x h) o)))))
