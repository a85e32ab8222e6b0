-- ===== src/Crypto/Signing.antt =====
-- Signing and verifying with the hybrid keys of l1-chain/core/src/crypto.rs.
use bina_blockchain_l.Prelude.{
  ◌≡◌, ◌↔◌, true, ◌++◌, arith, length, length-append, take-append, drop-append, ok, Bytes,
  bytes_key, nat_key,
}
use mathlib.Core.List.{append_assoc}
use bina_blockchain_l.External.{External, IsKeyPair}
use bina_blockchain_l.Crypto.{
  WalletPublicKey, HybridSignature, WalletKeypair, key_verify, keypair_sign, to_secret_bytes,
  from_secret_bytes, falcon_sk_bytes,
}

-- Verification succeeds exactly if the Ed25519 part verifies, the Falcon part is a signature, and
-- it verifies too: neither component alone is enough.
pub key_verify_iff :
    (x : External) (k : WalletPublicKey) (msg : Bytes) (s : HybridSignature)
    → (key_verify x k msg s ≡ ok tt) ↔ (
        (x.ed25519_verify k.ed25519 msg s.ed25519 ≡ true)
        × (x.falcon_valid_signature s.falcon ≡ true)
        × (x.falcon_verify k.falcon msg s.falcon ≡ true))
unfolding key_verify
key_verify_iff x k msg s = (λ h. ground arith, λ h. ground arith)

-- The parts of a key pair belong together.
abbrev pub Owns : External → WalletKeypair → Type 0
Owns x k =
    (k.public.ed25519 ≡ x.ed25519_public k.ed_sk) × IsKeyPair x k.ed_sk k.public.falcon k.falcon_sk

-- A signature made with a key pair verifies under its public key.
pub key_verify-keypair_sign :
    (x : External) (k : WalletKeypair) (randomness msg : Bytes)
    → Owns x k
    → key_verify x k.public msg (keypair_sign x k randomness msg) ≡ ok tt
unfolding key_verify keypair_sign
key_verify-keypair_sign x k r msg (e, o) =
    rw (e, o.ed_verifies msg, o.falcon_sign_valid r msg, o.falcon_verifies r msg)

-- A key pair whose public keys belong to its secret keys, these of their documented lengths, is read
-- back from its secret bytes.
pub from_secret_bytes-to_secret_bytes :
    (x : External) (k : WalletKeypair)
    → Owns x k
    → length k.ed_sk ≡ 32
    → length k.falcon_sk ≡ falcon_sk_bytes
    → from_secret_bytes x (to_secret_bytes k) ≡ ok k
unfolding from_secret_bytes to_secret_bytes
from_secret_bytes-to_secret_bytes x k (e, o) hl hf =
    let rest = k.public.falcon ++ k.falcon_sk in
    let len : length (k.ed_sk ++ rest) ≡ 2210 = omega (
      arith,
      length-append k.ed_sk rest,
      length-append k.public.falcon k.falcon_sk,
      o.falcon_length,
    ) in
    let secret = take-append 32 k.ed_sk rest hl in
    let after = drop-append 32 k.ed_sk rest hl in
    let falcon = take-append 897 k.public.falcon k.falcon_sk o.falcon_length in
    let last =
      drop-append 929 (k.ed_sk ++ k.public.falcon) k.falcon_sk
        (omega (arith, length-append k.ed_sk k.public.falcon, o.falcon_length)) in
    let last' = rw (append_assoc k.ed_sk k.public.falcon k.falcon_sk) at last in
    rw (len, secret, after) (rw (falcon, last', o.falcon_valid) (rw (← e)))
