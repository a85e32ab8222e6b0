-- ===== src/Transaction.antt =====
-- Transfers and their Merkle root, of l1-chain/core/src/transaction.rs.
pub mod Verify
pub mod Merkle
use bina_blockchain_l.Prelude.{
  ℕ, zero, suc, ◌+◌, ◌-◌, ◌*◌, ◌/◌, ◌%◌, ◌^◌, ◌≤◌, ◌<◌, min, max, ◌≡◌, refl, sym, ap, ◌∙◌, ◌≢◌, ◌↔◌,
  ◌⊎◌, inl, inr, Bool, true, false, not, ◌&&◌, ◌||◌, Option, none, some, List, [], ◌∷◌, ◌++◌, map,
  arith, dec_lt, ℕ_discrete, ltb, leb, ◌==◌, if◌then◌else◌, ltb→lt, ltb→le, lt→ltb, le→ltb, leb→le,
  le→leb, ==→eq, ==_refl, ==_ne, tests, Bool-cases, Option-cases, Bool-ext, length, take, drop,
  replicate, get_or, length-append, length-replicate, length-take, length-drop, take-append,
  drop-append, append_cancel, take_within, drop_within, All, All-append, all, filter, u64_mod,
  u64_max, saturating_add, checked_add, wrapping_add, saturating_sub, saturating_add_small,
  wrapping_add_small, Result, ok, err, ◌>>=◌, ◌>>◌, ensure, ok_or, is_ok, >>=-eq-ok, Bytes,
  Bytes-discrete, bytes_lt, bytes_lt_irrefl, bytes_lt_trans, bytes_lt_total, bytes_lt_asymm,
  le_bytes, of_le_bytes, length-le_bytes, of_le_bytes-le_bytes, codes, le_bytes_injective, Key,
  bytes_key, nat_key, same, same→eq, same_refl, member, member-append, set_insert, set_remove,
  lookup, insert, erase, keys, lookup-insert, lookup-erase, member-keys-insert,
}
use bina_blockchain_l.External.{External}
use bina_blockchain_l.Crypto.{
  CryptoError, WalletPublicKey, HybridSignature, WalletKeypair, key_to_bytes, key_from_bytes,
  key_address, key_verify, signature_from_bytes, signature_to_bytes, keypair_sign,
}

abbrev pub tx_domain_tag : Bytes
tx_domain_tag = codes "BINA-TX-v1"

abbrev pub tx_merkle_tag : Bytes
tx_merkle_tag = codes "BINA-TXMERKLE-v1"

abbrev pub tx_id_tag : Bytes
tx_id_tag = codes "BINA-TXID-v1"

abbrev pub ed25519_public_key_bytes : ℕ
ed25519_public_key_bytes = 32

abbrev pub ed25519_signature_bytes : ℕ
ed25519_signature_bytes = 64

abbrev pub max_txs_per_block : ℕ
max_txs_per_block = 2000

pub record Transaction : Type 0 where
  pub from : Bytes
  pub to : Bytes
  pub amount : ℕ
  pub nonce : ℕ
  pub fee : ℕ

pub record SignedTransaction : Type 0 where
  pub tx : Transaction
  pub public_key : Bytes
  pub signature : Bytes

pub data TxError : Type 0 where
  zero_amount send_to_self : TxError
  wrong_from wrong_ed25519_from signature_length : TxError
  ed25519_key_length ed25519_key_invalid ed25519_failed : TxError
  crypto : CryptoError → TxError
  bad_hex address_length : TxError

abbrev pub of_crypto {ℓ} : {A : Type ℓ} → Result CryptoError A → Result TxError A
of_crypto (ok a) = ok a
of_crypto (err e) = err (crypto e)

-- `SignedTransaction::validate_fields`
unfoldable pub validate_fields : SignedTransaction → Result TxError (Unit {0})
validate_fields s = do
  ensure (not (s.tx.amount == 0)) zero_amount
  ensure (not (same s.tx.from s.tx.to)) send_to_self

module _ (x : External) where
  -- `Transaction::digest`
  unfoldable pub digest : Transaction → Bytes
  digest t = x.blake3 (
      tx_domain_tag
      ++ (t.from ++ (t.to ++ (le_bytes 8 t.amount ++ (le_bytes 8 t.nonce ++ le_bytes 8 t.fee)))))

  unfoldable pub ed25519_only_address : Bytes → Result TxError Bytes
  ed25519_only_address public_key = do
    ensure (length public_key == ed25519_public_key_bytes) ed25519_key_length
    ok (take 20 (x.keccak256 public_key))

  -- `SignedTransaction::sign`, with the randomness that Falcon draws.
  unfoldable pub sign_transaction :
      Transaction → WalletKeypair → Bytes → Result TxError SignedTransaction
  sign_transaction t k randomness = do
    ensure (same t.from (key_address x k.public)) wrong_from
    ok (record {
      tx = t;
      public_key = key_to_bytes k.public;
      signature = signature_to_bytes (keypair_sign x k randomness (digest t));
    })

  -- `SignedTransaction::sign_ed25519_only`
  unfoldable pub sign_ed25519_only : Transaction → Bytes → Result TxError SignedTransaction
  sign_ed25519_only t ed_sk = do
    let public_key = x.ed25519_public ed_sk
    address ← ed25519_only_address public_key
    ensure (same t.from address) wrong_ed25519_from
    ok (record { tx = t; public_key = public_key; signature = x.ed25519_sign ed_sk (digest t) })

  unfoldable pub verify_ed25519_only : SignedTransaction → Result TxError (Unit {0})
  unfolding ed25519_only_address
  verify_ed25519_only s = do
    address ← ed25519_only_address s.public_key
    ensure (same s.tx.from address) wrong_ed25519_from
    ensure (length s.signature == ed25519_signature_bytes) signature_length
    ensure (x.ed25519_valid_key s.public_key) ed25519_key_invalid
    ensure (x.ed25519_verify s.public_key (digest s.tx) s.signature) ed25519_failed

  -- The hybrid branch of `SignedTransaction::verify`.
  unfoldable pub verify_hybrid : SignedTransaction → Result TxError (Unit {0})
  verify_hybrid s = do
    k ← of_crypto (key_from_bytes x s.public_key)
    ensure (same (key_address x k) s.tx.from) wrong_from
    h ← of_crypto (signature_from_bytes s.signature)
    of_crypto (key_verify x k (digest s.tx) h)

  unfoldable pub verify_transaction : SignedTransaction → Result TxError (Unit {0})
  unfolding validate_fields verify_ed25519_only verify_hybrid
  verify_transaction s = do
    validate_fields s
    if length s.public_key == ed25519_public_key_bytes
        then verify_ed25519_only s
        else verify_hybrid s

  unfoldable pub tx_id : SignedTransaction → Bytes
  tx_id s = x.blake3 (tx_id_tag ++ (digest s.tx ++ s.signature))

  unfoldable pub from_hex : SignedTransaction → Bytes
  from_hex s = x.hex_encode s.tx.from

  unfoldable pub to_hex : SignedTransaction → Bytes
  to_hex s = x.hex_encode s.tx.to

  -- `strip_prefix("0x")`
  strip_prefix : Bytes → Bytes
  strip_prefix (a ∷ b ∷ rest) = if (a == b'0') && (b == b'x') then rest else a ∷ b ∷ rest
  strip_prefix s = s

  unfoldable pub parse_address_hex : Bytes → Result TxError Bytes
  unfolding strip_prefix
  parse_address_hex address = do
    bytes ← ok_or (x.hex_decode (strip_prefix address)) bad_hex
    ensure (length bytes == 20) address_length
    ok bytes

  -- One node above a pair.
  unfoldable pub merkle_node : Bytes → Bytes → Bytes
  merkle_node a b = x.blake3 (tx_merkle_tag ++ (a ++ b))

  -- The next layer: `chunks(2)`, the last element of an odd layer paired with itself.
  unfoldable pub next_layer : List Bytes → List Bytes
  unfolding merkle_node
  next_layer [] = []
  next_layer (a ∷ []) = merkle_node a a ∷ []
  next_layer (a ∷ b ∷ rest) = merkle_node a b ∷ next_layer rest

  -- `while layer.len() > 1`, on fuel; `none` means that the fuel ran out.
  unfoldable pub merkle_loop : ℕ → List Bytes → Option Bytes
  merkle_loop zero layer = none
  merkle_loop (suc fuel) layer =
      let rest = merkle_loop fuel (next_layer layer) in
      if ltb 1 (length layer) then rest else some (get_or layer 0 (replicate 32 0))

  -- The root of a list of leaves. An empty list has the root of 32 zero bytes.
  unfoldable pub root_of : List Bytes → Option Bytes
  unfolding merkle_loop
  root_of [] = some (replicate 32 0)
  root_of (a ∷ leaves) = merkle_loop (length (a ∷ leaves)) (a ∷ leaves)

  unfoldable pub merkle_root : List SignedTransaction → Option Bytes
  merkle_root txs = root_of (map tx_id txs)
