-- ===== src/Tests/Core.antt =====
-- Blocks, keys, transactions and randomness at concrete inputs.
use bina_blockchain_l.Prelude.{
  ℕ, ◌≡◌, refl, ◌≢◌, [], ◌∷◌, arith, replicate, ok, Bytes-discrete, bytes_key, nat_key,
}
use bina_blockchain_l.Block.Header.{IsSized, preimage_injective}
use bina_blockchain_l.Crypto.{
  HybridSignature, signature_to_bytes, signature_from_bytes, key_to_bytes, keypair_sign,
  key_address, key_from_bytes, key_verify,
}
use bina_blockchain_l.Transaction.{
  SignedTransaction, digest, sign_transaction, verify_transaction, verify_hybrid, merkle_root,
}
use bina_blockchain_l.Transaction.Verify.{verify_transaction-sign_transaction}
use bina_blockchain_l.Transaction.Merkle.{merkle_root-duplicate_last}
use bina_blockchain_l.Randomness.{RandomnessOutput}
use bina_blockchain_l.Tests.Fixtures.{
  toy, length_bytes, toy_wallet, toy-Owns, alice, bob, payment, signed_payment, second_payment,
  toy_header,
}

toy_header-IsSized : IsSized toy_header
toy_header-IsSized = record {
  version_u32 = omega arith;
  height_u64 = omega arith;
  prev_hash_32 = length_bytes 32 3;
  merkle_root_32 = length_bytes 32 0;
  state_root_32 = length_bytes 32 0;
  timestamp_u64 = omega arith;
  nonce_u64 = omega arith;
  miner_address_20 = length_bytes 20 0;
  difficulty_bits_u32 = omega arith;
}

preimage_injective_example : toy_header ≡ toy_header
preimage_injective_example =
    preimage_injective toy_header toy_header toy_header-IsSized toy_header-IsSized refl

abbrev toy_signature : HybridSignature
toy_signature = record { ed25519 = replicate 64 2; falcon = replicate 10 3 }

-- The payment signed with the wallet's two keys.
abbrev hybrid_payment : SignedTransaction
hybrid_payment = record {
  tx = payment;
  public_key = key_to_bytes toy_wallet.public;
  signature = signature_to_bytes (keypair_sign toy toy_wallet [] (digest toy payment));
}

payment_signs : sign_transaction toy payment toy_wallet [] ≡ ok hybrid_payment
unfolding sign_transaction key_address Bytes-discrete
payment_signs = refl

alice-ne-bob : alice ≢ bob
alice-ne-bob e = ground arith

verify_transaction-sign_transaction_example : verify_transaction toy hybrid_payment ≡ ok tt
verify_transaction-sign_transaction_example =
    verify_transaction-sign_transaction toy payment toy_wallet [] {s = hybrid_payment} toy-Owns
      (omega arith) alice-ne-bob payment_signs

hybrid_payment_verifies : verify_hybrid toy hybrid_payment ≡ ok tt
unfolding verify_hybrid key_from_bytes key_to_bytes key_address key_verify signature_from_bytes
    signature_to_bytes keypair_sign Bytes-discrete
hybrid_payment_verifies = refl

merkle_root-duplicate_last_example :
    merkle_root toy (signed_payment ∷ second_payment ∷ signed_payment ∷ [])
    ≡ merkle_root toy (signed_payment ∷ second_payment ∷ signed_payment ∷ signed_payment ∷ [])
merkle_root-duplicate_last_example =
    merkle_root-duplicate_last toy 1 (signed_payment ∷ second_payment ∷ []) signed_payment
      (omega arith) (omega arith)

abbrev token : ℕ → RandomnessOutput
token n = record {
  height = n;
  block_hash = [];
  bitcoin_seed_hash = [];
  output = n ∷ [];
  nullifier = n ∷ [];
}
