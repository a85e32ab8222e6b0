-- ===== src/Tests/Fixtures.antt =====
-- Concrete crates, wallets, transactions, headers and ledgers for the tests.
use bina_blockchain_l.Prelude.{
  ℕ, zero, suc, ◌<◌, ◌≡◌, refl, true, false, none, some, [], ◌∷◌, arith, length, replicate,
  length-replicate, All, ok, Bytes, Bytes-discrete, bytes_key, nat_key,
}
use bina_blockchain_l.External.{External, IsDigest}
use bina_blockchain_l.Ledger.{Ledger}
use bina_blockchain_l.Ledger.Conservation.{IsBacked}
use bina_blockchain_l.Ledger.Maps.{sum_of, amount_of}
use bina_blockchain_l.Block.{
  L1BlockHeader, meets_difficulty, header_hash, top_bits_zero, timestamp_is_valid,
}
use bina_blockchain_l.Checkpoint.{is_checkpoint_height}
use bina_blockchain_l.Crypto.{
  WalletKeypair, key_to_bytes, signature_to_bytes, keypair_sign, key_from_bytes, key_address,
  key_verify, signature_from_bytes,
}
use bina_blockchain_l.Crypto.Signing.{Owns}
use bina_blockchain_l.Transaction.{Transaction, SignedTransaction, merkle_root, root_of}
use bina_blockchain_l.Claims.{SignedBlockClaim, sign, verify, block_hash}
use bina_blockchain_l.Ledger.StateRoot.{read, state_root_with_overlay, compute_state_root}
use bina_blockchain_l.Ledger.Execution.{simulate_block_execution, simulate_loop}
use bina_blockchain_l.Node.{NodeState, candidates_at}
use bina_blockchain_l.Node.Accept.{
  admit, check_structure, check_checkpoint, check_claim, check_execution, accept_signed_claim,
}
use bina_blockchain_l.Node.Peers.{AddressClasses, SocketAddress, v4}

abbrev pub toy : External
toy = record {
  blake3 = λ m. replicate 32 0;
  keccak256 = λ m. replicate 32 0;
  trim = λ s. s;
  hex_encode = λ b. b;
  hex_decode = λ s. some s;
  ed25519_valid_key = λ k. true;
  ed25519_public = λ sk. replicate 32 7;
  ed25519_sign = λ sk m. replicate 64 0;
  ed25519_verify = λ k m s. true;
  falcon_valid_key = λ k. true;
  falcon_valid_signature = λ s. true;
  falcon_sign = λ r k m. [];
  falcon_verify = λ k m s. true;
}

pub length_bytes : (n b : ℕ) → length (replicate n b) ≡ n
length_bytes n b = length-replicate n b

pub All-replicate : (n b : ℕ) → b < 256 → All (λ c. c < 256) (replicate n b)
All-replicate zero b h = tt
All-replicate (suc n) b h = (h, All-replicate n b h)

pub toy-IsDigest : IsDigest toy
toy-IsDigest = record {
  digest_length = λ m. length_bytes 32 0;
  digest_bytes = λ m. All-replicate 32 0 (omega arith);
}

abbrev pub toy_wallet : WalletKeypair
toy_wallet = record {
  public = record { ed25519 = replicate 32 7; falcon = replicate 897 1 };
  ed_sk = replicate 32 5;
  falcon_sk = replicate 1281 2;
}

pub toy-Owns : Owns toy toy_wallet
toy-Owns = (
  refl,
  record {
    ed_length = length_bytes 32 7;
    ed_valid = refl;
    ed_sign_length = λ m. length_bytes 64 0;
    ed_verifies = λ m. refl;
    falcon_length = length_bytes 897 1;
    falcon_valid = refl;
    falcon_sign_length = λ r m. omega arith;
    falcon_sign_valid = λ r m. refl;
    falcon_verifies = λ r m. refl;
  },
)

abbrev pub alice : Bytes
alice = replicate 20 0

abbrev pub bob : Bytes
bob = replicate 20 1

abbrev pub payment : Transaction
payment = record { from = alice; to = bob; amount = 5; nonce = 0; fee = 1 }

-- Signed with an Ed25519 key alone.
abbrev pub signed_payment : SignedTransaction
signed_payment = record { tx = payment; public_key = replicate 32 7; signature = replicate 64 0 }

abbrev pub second_payment : SignedTransaction
second_payment = record {
  tx = record { from = alice; to = bob; amount = 5; nonce = 1; fee = 1 };
  public_key = replicate 32 7;
  signature = replicate 64 0;
}

abbrev pub toy_header : L1BlockHeader
toy_header = record {
  version = 1;
  height = 2;
  prev_hash = replicate 32 3;
  merkle_root = replicate 32 0;
  state_root = replicate 32 0;
  timestamp = 1000;
  nonce = 9;
  miner_address = replicate 20 0;
  difficulty_bits = 25;
  bitcoin_seed_hash = replicate 32 4;
}

abbrev pub toy_ledger : Ledger
toy_ledger = record { balances = (alice, 100) ∷ []; nonces = []; total_mined = 100; csv = [] }

pub toy_ledger-IsBacked : IsBacked toy_ledger
unfolding sum_of
toy_ledger-IsBacked = record { backed = omega arith; capped = omega arith }

abbrev pub toy_state : NodeState
toy_state = record {
  genesis_hash = replicate 32 6;
  tip_hash = replicate 32 3;
  chain_height = 1;
  pending_claims = [];
  mempool = [];
  nullifiers = [];
  last_observed_btc = record {
    tip_hash = replicate 32 1;
    utxo_entropy = replicate 32 1;
    stale_xor_pool = replicate 32 1;
    seed_timestamp = 0;
    tip_height = 100;
    fork_detected = false;
  };
  btc_seed_hash = replicate 32 4;
  btc_checkpoint_tip_height = 100;
  difficulty_bits = 25;
  last_block_timestamp_ms = 500;
  chain_work = 0;
  total_mined_bina = 100;
  store_calls = [];
}

abbrev pub toy_claim : SignedBlockClaim
toy_claim = sign toy toy_header toy_wallet []

-- The node of the fixtures accepts the claim.
pub claim_accepted : (accept_signed_claim toy toy_state toy_ledger 1000 toy_claim none []).0 ≡ ok tt
unfolding accept_signed_claim check_claim verify key_from_bytes key_address key_verify
    signature_from_bytes meets_difficulty header_hash top_bits_zero block_hash sign Bytes-discrete
    merkle_root root_of check_structure check_checkpoint timestamp_is_valid is_checkpoint_height
    check_execution simulate_block_execution simulate_loop read amount_of state_root_with_overlay
    compute_state_root admit candidates_at key_to_bytes signature_to_bytes keypair_sign
claim_accepted = refl

abbrev pub public_only : AddressClasses
public_only = record {
  v4_unspecified = λ ip. false;
  v4_broadcast = λ ip. false;
  v4_multicast = λ ip. false;
  v4_loopback = λ ip. false;
  v4_private = λ ip. false;
  v4_link_local = λ ip. false;
  v6_unspecified = λ ip. false;
  v6_multicast = λ ip. false;
  v6_loopback = λ ip. false;
}

abbrev pub seed_peer : SocketAddress
seed_peer = record { family = v4; ip = 8 ∷ 8 ∷ 8 ∷ 8 ∷ []; port = 8181 }
