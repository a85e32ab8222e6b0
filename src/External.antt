-- ===== src/External.antt =====
-- The third-party functions that l1-chain/core calls: the blake3, sha3, hex, ed25519_dalek and
-- pqcrypto_falcon crates. They are parameters; what a proof needs of them is a named hypothesis.
use bina_blockchain_l.Prelude.{◌≡◌, Bool, true, Option, Bytes, length, ◌<◌, All}

pub record External : Type 0 where
  pub blake3 : Bytes → Bytes
  pub keccak256 : Bytes → Bytes
  -- `str::trim` of the standard library
  pub trim : Bytes → Bytes
  pub hex_encode : Bytes → Bytes
  pub hex_decode : Bytes → Option Bytes
  pub ed25519_valid_key : Bytes → Bool
  pub ed25519_public : Bytes → Bytes
  pub ed25519_sign : Bytes → Bytes → Bytes
  -- key, message, signature
  pub ed25519_verify : Bytes → Bytes → Bytes → Bool
  pub falcon_valid_key : Bytes → Bool
  pub falcon_valid_signature : Bytes → Bool
  -- randomness, key, message: Falcon signatures are randomised
  pub falcon_sign : Bytes → Bytes → Bytes → Bytes
  pub falcon_verify : Bytes → Bytes → Bytes → Bool

-- BLAKE3 returns 32 bytes.
pub record IsDigest (x : External) : Type 0 where
  pub digest_length : (m : Bytes) → length (x.blake3 m) ≡ 32
  pub digest_bytes : (m : Bytes) → All (λ b. b < 256) (x.blake3 m)

-- What the signature crates document for a key pair: its public keys are valid, a signature has
-- the documented length, and verifies under its own key.
pub record IsKeyPair (x : External) (ed_sk falcon_pk falcon_sk : Bytes) : Type 0 where
  pub ed_length : length (x.ed25519_public ed_sk) ≡ 32
  pub ed_valid : x.ed25519_valid_key (x.ed25519_public ed_sk) ≡ true
  pub ed_sign_length : (m : Bytes) → length (x.ed25519_sign ed_sk m) ≡ 64
  pub ed_verifies :
      (m : Bytes) → x.ed25519_verify (x.ed25519_public ed_sk) m (x.ed25519_sign ed_sk m) ≡ true
  pub falcon_length : length falcon_pk ≡ 897
  pub falcon_valid : x.falcon_valid_key falcon_pk ≡ true
  pub falcon_sign_length : (r m : Bytes) → length (x.falcon_sign r falcon_sk m) < 667
  pub falcon_sign_valid :
      (r m : Bytes) → x.falcon_valid_signature (x.falcon_sign r falcon_sk m) ≡ true
  pub falcon_verifies :
      (r m : Bytes) → x.falcon_verify falcon_pk m (x.falcon_sign r falcon_sk m) ≡ true
