-- ===== src/Crypto.antt =====
-- The hybrid wallet keys and signatures of l1-chain/core/src/crypto.rs. A key or a signature of
-- a crate is its byte string; key generation draws from the operating system and is left out.
pub mod Encoding
pub mod Signing
use bina_blockchain_l.Prelude.{
  ℕ, zero, suc, ◌+◌, ◌-◌, ◌*◌, ◌/◌, ◌%◌, ◌^◌, ◌≤◌, ◌<◌, min, max, ◌≡◌, refl, sym, ap, ◌∙◌, ◌≢◌, ◌↔◌,
  ◌⊎◌, inl, inr, Bool, true, false, not, ◌&&◌, ◌||◌, Option, none, some, List, [], ◌∷◌, ◌++◌, map,
  arith, dec_lt, ℕ_discrete, ltb, leb, ◌==◌, if◌then◌else◌, ltb→lt, ltb→le, lt→ltb, le→ltb, leb→le,
  le→leb, ==→eq, ==_refl, ==_ne, tests, Bool-cases, Option-cases, Bool-ext, length, take, drop,
  replicate, get_or, length-append, length-replicate, length-take, length-drop, take-append,
  drop-append, append_cancel, All, All-append, all, filter, u64_mod, u64_max, saturating_add,
  checked_add, wrapping_add, saturating_sub, saturating_add_small, wrapping_add_small, Result, ok,
  err, ◌>>=◌, ◌>>◌, ensure, ok_or, is_ok, >>=-eq-ok, Bytes, Bytes-discrete, bytes_lt,
  bytes_lt_irrefl, bytes_lt_trans, bytes_lt_total, bytes_lt_asymm, le_bytes, of_le_bytes,
  length-le_bytes, of_le_bytes-le_bytes, codes, le_bytes_injective, Key, bytes_key, nat_key, same,
  same→eq, same_refl, member, member-append, set_insert, set_remove, lookup, insert, erase, keys,
  lookup-insert, lookup-erase, member-keys-insert,
}
use bina_blockchain_l.External.{External}

pub data CryptoError : Type 0 where
  key_length ed25519_key_invalid falcon_key_invalid : CryptoError
  signature_too_short signature_truncated : CryptoError
  ed25519_failed falcon_signature_invalid falcon_failed : CryptoError
  secret_length : CryptoError

abbrev pub falcon_pk_bytes : ℕ
falcon_pk_bytes = 897

abbrev pub falcon_sk_bytes : ℕ
falcon_sk_bytes = 1281

abbrev pub addr_tag : Bytes
addr_tag = codes "BINA-ADDR-v1"

pub record WalletPublicKey : Type 0 where
  pub ed25519 : Bytes
  pub falcon : Bytes

pub record HybridSignature : Type 0 where
  pub ed25519 : Bytes
  pub falcon : Bytes

pub record WalletKeypair : Type 0 where
  pub public : WalletPublicKey
  pub ed_sk : Bytes
  pub falcon_sk : Bytes

-- `WalletPublicKey::to_bytes`: 32 bytes and then 897.
unfoldable pub key_to_bytes : WalletPublicKey → Bytes
key_to_bytes k = k.ed25519 ++ k.falcon

-- `HybridSignature::to_bytes`: the Falcon length as a u16, 64 bytes, the Falcon bytes.
unfoldable pub signature_to_bytes : HybridSignature → Bytes
signature_to_bytes s = le_bytes 2 (length s.falcon % 65536) ++ (s.ed25519 ++ s.falcon)

-- `HybridSignature::from_bytes`
unfoldable pub signature_from_bytes : Bytes → Result CryptoError HybridSignature
signature_from_bytes b =
    if ltb (length b) 66
    then err signature_too_short
    else let flen = get_or b 0 0 + 256 * get_or b 1 0 in
      if ltb (length b) (66 + flen)
      then err signature_truncated
      else ok (record { ed25519 = take 64 (drop 2 b); falcon = take flen (drop 66 b) })

-- `HybridSignature::byte_len`
unfoldable pub signature_byte_len : HybridSignature → ℕ
signature_byte_len s = 2 + 64 + length s.falcon

-- `WalletKeypair::to_secret_bytes`
unfoldable pub to_secret_bytes : WalletKeypair → Bytes
to_secret_bytes k = k.ed_sk ++ (k.public.falcon ++ k.falcon_sk)

module _ (x : External) where
  -- `WalletPublicKey::address`
  unfoldable pub key_address : WalletPublicKey → Bytes
  key_address k = take 20 (x.blake3 (addr_tag ++ (k.ed25519 ++ k.falcon)))

  -- `WalletPublicKey::from_bytes`
  unfoldable pub key_from_bytes : Bytes → Result CryptoError WalletPublicKey
  key_from_bytes b = do
    ensure (length b == 32 + falcon_pk_bytes) key_length
    ensure (x.ed25519_valid_key (take 32 b)) ed25519_key_invalid
    ensure (x.falcon_valid_key (drop 32 b)) falcon_key_invalid
    ok (record { ed25519 = take 32 b; falcon = drop 32 b })

  -- `WalletPublicKey::verify`: both components must pass.
  unfoldable pub key_verify :
      WalletPublicKey → Bytes → HybridSignature → Result CryptoError (Unit {0})
  key_verify k msg s = do
    ensure (x.ed25519_verify k.ed25519 msg s.ed25519) ed25519_failed
    ensure (x.falcon_valid_signature s.falcon) falcon_signature_invalid
    ensure (x.falcon_verify k.falcon msg s.falcon) falcon_failed

  -- `WalletKeypair::sign`, with the randomness that Falcon draws.
  unfoldable pub keypair_sign : WalletKeypair → Bytes → Bytes → HybridSignature
  keypair_sign k randomness msg = record {
    ed25519 = x.ed25519_sign k.ed_sk msg;
    falcon = x.falcon_sign randomness k.falcon_sk msg;
  }

  -- `WalletKeypair::from_secret_bytes`: the Ed25519 public key is derived again. The Falcon keys of
  -- the right length are taken as they are.
  unfoldable pub from_secret_bytes : Bytes → Result CryptoError WalletKeypair
  from_secret_bytes b = do
    ensure (length b == 32 + falcon_pk_bytes + falcon_sk_bytes) secret_length
    let ed_sk = take 32 b
    let falcon_pk = take falcon_pk_bytes (drop 32 b)
    ensure (x.falcon_valid_key falcon_pk) falcon_key_invalid
    ok (record {
      public = record { ed25519 = x.ed25519_public ed_sk; falcon = falcon_pk };
      ed_sk = ed_sk;
      falcon_sk = drop (32 + falcon_pk_bytes) b;
    })
