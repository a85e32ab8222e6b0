-- ===== src/Tests/Sync.antt =====
-- A record of a peer, applied.
use bina_blockchain_l.Prelude.{
  ℤ, pos, ℕ, ◌/◌, ◌≡◌, refl, true, false, Option, none, some, List, [], ◌∷◌, arith, ℕ_discrete,
  ◌==◌, if◌then◌else◌, length, replicate, ok, Bytes, Bytes-discrete, bytes_key, nat_key,
}
use bina_blockchain_l.Block.{
  L1BlockHeader, meets_difficulty, header_hash, top_bits_zero, timestamp_is_valid,
}
use bina_blockchain_l.Difficulty.{Adjuster, restore, record_block}
use bina_blockchain_l.Checkpoint.{is_checkpoint_height}
use bina_blockchain_l.Crypto.{
  key_to_bytes, signature_to_bytes, keypair_sign, key_from_bytes, key_address, key_verify,
  signature_from_bytes,
}
use bina_blockchain_l.Transaction.{merkle_root, root_of, parse_address_hex}
use bina_blockchain_l.Claims.{SignedBlockClaim, sign, verify, block_hash}
use bina_blockchain_l.Ledger.{Ledger}
use bina_blockchain_l.Ledger.Maps.{amount_of}
use bina_blockchain_l.Ledger.StateRoot.{
  state_root, read, state_root_with_overlay, compute_state_root,
}
use bina_blockchain_l.Ledger.Execution.{
  simulate_block_execution, simulate_loop, apply_all, apply_block,
}
use bina_blockchain_l.Checkpoint.{BtcCheckpointProof}
use bina_blockchain_l.Randomness.{from_block, consume, mark_spent}
use bina_blockchain_l.Store.{empty_store}
use bina_blockchain_l.Node.Reorg.{Chain, sync_records, sync_forward}
use bina_blockchain_l.Node.Reorg.Linked.{Leads, tip_of, sync_forward-Leads}
use bina_blockchain_l.Node.Mining.{Round, Finalized, no_stats, record_of, apply_winner}
use bina_blockchain_l.Node.Mining.Forgotten.{sync_record-forgets_checkpoint}
use bina_blockchain_l.External.{External}
use bina_blockchain_l.Node.Startup.{Started}
use bina_blockchain_l.Tests.Encodings.{toy_json}
use bina_blockchain_l.Node.{BlockRecord, PendingClaim, StoreCall}
use bina_blockchain_l.Node.Sync.{
  Replica, header_from_record, hex_to_32, check_header, check_record, adopt_state, sync_record,
}
use bina_blockchain_l.Node.Sync.Records.{IsLinked, sync_record-state_root}
use bina_blockchain_l.Tests.Fixtures.{
  toy, toy_wallet, toy_header, toy_ledger, toy_ledger-IsBacked, toy_state, alice,
}

abbrev one_up : ℕ → ℕ → ℤ
one_up actual target = pos 1

abbrev toy_claim : SignedBlockClaim
toy_claim = sign toy toy_header toy_wallet []

abbrev toy_record : BlockRecord
toy_record = record {
  height = 2;
  block_hash = replicate 32 0;
  prev_hash = replicate 32 3;
  nonce = 9;
  timestamp = 1000;
  mined_timestamp_secs = 1;
  zero_bits = 256;
  hashes_tried = 0;
  elapsed_ms = 0;
  hashrate_mhs = 0;
  claim_digest = [];
  election_score = [];
  source = [];
  randomness_output = [];
  chain_work_hex = [];
  difficulty_bits = 25;
  miner_address = alice;
  miner_public_key = toy_claim.public_key;
  miner_signature = toy_claim.signature;
  reward_bina = 50;
  nullifier = replicate 32 8;
  btc_seed = replicate 32 4;
  btc_height = 100;
  merkle_root = replicate 32 0;
  state_root = replicate 32 0;
  transactions = [];
}

abbrev before : Replica
before = record {
  state = toy_state;
  ledger = toy_ledger;
  adjuster = restore 25 0 1;
  btc_checkpoint_tip_height = 100;
}

abbrev ledger_after : Ledger
ledger_after = apply_block toy true toy_ledger 2 [] alice 50 (1000 / 1000)

abbrev adjuster_after : Adjuster
adjuster_after = (record_block one_up (restore 25 0 1) 2 1000).0

abbrev after : Replica
after = record {
  state = adopt_state toy toy_state ledger_after adjuster_after 100 toy_record toy_claim [];
  ledger = ledger_after;
  adjuster = adjuster_after;
  btc_checkpoint_tip_height = 100;
}

record_applies : sync_record one_up toy true before 1000 toy_record ≡ ok after
unfolding sync_record check_record check_header header_from_record hex_to_32 parse_address_hex
    timestamp_is_valid is_checkpoint_height restore sign key_to_bytes signature_to_bytes
    keypair_sign verify key_from_bytes key_address key_verify signature_from_bytes meets_difficulty
    top_bits_zero header_hash block_hash merkle_root root_of simulate_block_execution simulate_loop
    read amount_of state_root_with_overlay compute_state_root Bytes-discrete
record_applies = refl

abbrev at_parent : Chain
at_parent = record { replica = before; store = empty_store }

sync_forward-Leads_example :
    let (synced, last) =
      sync_forward one_up toy toy_json true 2 at_parent ((1000, some (toy_record ∷ [])) ∷ []) in
    (cs : List SignedBlockClaim) × (length cs ≡ synced)
    × Leads toy (tip_of at_parent) cs (tip_of last)
sync_forward-Leads_example =
    sync_forward-Leads one_up toy toy_json true 2 at_parent ((1000, some (toy_record ∷ [])) ∷ [])

-- One record is adopted here.
adopts_one :
    (sync_forward one_up toy toy_json true 2 at_parent ((1000, some (toy_record ∷ [])) ∷ [])).0 ≡ 1
unfolding sync_forward sync_records
adopts_one = rw (record_applies, sync_forward, sync_records) refl

sync_record-state_root_example :
    (c : SignedBlockClaim) × IsLinked toy toy_state before.adjuster toy_record c
    × ((apply_all toy true toy_ledger 2 [] alice (1000 / 1000)).0 ≡ true)
    × (state_root toy after.ledger.balances after.ledger.nonces ≡ c.header.state_root)
sync_record-state_root_example =
    sync_record-state_root one_up toy before after 1000 toy_record toy_ledger-IsBacked tt
      (omega arith) record_applies

-- A node at height 20 whose own claim of height 21 is a checkpoint at the Bitcoin height 120.
abbrev below_checkpoint : Replica
below_checkpoint = record {
  state = record toy_state { chain_height = 20 };
  ledger = toy_ledger;
  adjuster = record {
    current_bits = 25;
    epoch_start_ms = 0;
    epoch_start_height = 15;
    last_adjustment = none;
  };
  btc_checkpoint_tip_height = 100;
}

abbrev checkpoint : BtcCheckpointProof
checkpoint = record {
  tip_hash = replicate 32 1;
  tip_height = 120;
  utxo_entropy = replicate 32 1;
  stale_xor_pool = replicate 32 1;
}

abbrev own_claim : PendingClaim
own_claim = record { claim = toy_claim; btc_checkpoint = some checkpoint; transactions = [] }

abbrev round_21 : Round
round_21 = record { height = 21; reward = 50; local_hash = []; stats = no_stats }

abbrev ledger_21 : Ledger
ledger_21 = apply_block toy true toy_ledger 21 [] alice 50 (1000 / 1000)

abbrev adjuster_21 : Adjuster
adjuster_21 = (record_block one_up below_checkpoint.adjuster 21 1000).0

abbrev stored_21 : BlockRecord
stored_21 = record_of toy own_claim 21 false no_stats 50 120 33554432

abbrev pinned : Finalized
pinned = record {
  replica = record {
    state = record toy_state {
      nullifiers = replicate 32 0 ∷ [];
      chain_height = 21;
      total_mined_bina = ledger_21.total_mined;
      difficulty_bits = adjuster_21.current_bits;
      tip_hash = block_hash toy toy_claim;
      btc_checkpoint_tip_height = 120;
      last_block_timestamp_ms = 1000;
      chain_work = 33554432;
      store_calls = StoreCall.insert_block stored_21 ∷ [];
    };
    ledger = ledger_21;
    adjuster = adjuster_21;
    btc_checkpoint_tip_height = 100;
  };
  stored = stored_21;
}

pins : apply_winner one_up toy true below_checkpoint round_21 own_claim ≡ ok pinned
unfolding apply_winner consume from_block mark_spent ℕ_discrete is_checkpoint_height sign
    Bytes-discrete block_hash header_hash
pins = refl

abbrev header_22 : L1BlockHeader
header_22 = record toy_header { height = 22; prev_hash = replicate 32 0; timestamp = 2000 }

abbrev claim_22 : SignedBlockClaim
claim_22 = sign toy header_22 toy_wallet []

abbrev record_22 : BlockRecord
record_22 = record toy_record { height = 22; prev_hash = replicate 32 0; timestamp = 2000 }

abbrev ledger_22 : Ledger
ledger_22 = apply_block toy true ledger_21 22 [] alice 50 (2000 / 1000)

abbrev adjuster_22 : Adjuster
adjuster_22 = (record_block one_up adjuster_21 22 2000).0

abbrev forgotten : Replica
forgotten = record {
  state = adopt_state toy pinned.replica.state ledger_22 adjuster_22 100 record_22 claim_22 [];
  ledger = ledger_22;
  adjuster = adjuster_22;
  btc_checkpoint_tip_height = 100;
}

next_applies : sync_record one_up toy true pinned.replica 1000 record_22 ≡ ok forgotten
unfolding sync_record check_record check_header header_from_record hex_to_32 parse_address_hex
    timestamp_is_valid is_checkpoint_height restore sign key_to_bytes signature_to_bytes
    keypair_sign verify key_from_bytes key_address key_verify signature_from_bytes meets_difficulty
    top_bits_zero header_hash block_hash merkle_root root_of simulate_block_execution simulate_loop
    read amount_of state_root_with_overlay compute_state_root Bytes-discrete record_block ℕ_discrete
next_applies = refl

is_checkpoint : is_checkpoint_height 21 ≡ true
unfolding is_checkpoint_height
is_checkpoint = refl

sync_record-forgets_checkpoint_example :
    (pinned.replica.state.btc_checkpoint_tip_height ≡ 120)
    × (forgotten.state.btc_checkpoint_tip_height ≡ 100)
sync_record-forgets_checkpoint_example =
    sync_record-forgets_checkpoint one_up toy true true below_checkpoint forgotten round_21
      own_claim pinned checkpoint 1000 record_22 (omega arith) is_checkpoint refl pins next_applies

-- Hexadecimal that refuses a text with a leading `g`.
abbrev refuse_g : Bytes → Option Bytes
refuse_g [] = some []
refuse_g (c ∷ s) = if c == 103 then none else some (c ∷ s)

abbrev picky : External
picky = record toy { hex_decode = refuse_g }

abbrev bad_record : BlockRecord
bad_record = record toy_record { nullifier = replicate 32 103 }

abbrev after_bad : Replica
after_bad = record {
  state = adopt_state picky toy_state ledger_after adjuster_after 100 bad_record toy_claim [];
  ledger = ledger_after;
  adjuster = adjuster_after;
  btc_checkpoint_tip_height = 100;
}

abbrev some_start : Started
some_start = record { replica = before; store = empty_store; file = none }
