-- ===== src/Tests/Forks.antt =====
-- A fork of two blocks, and a restart.
use bina_blockchain_l.Prelude.{
  ℤ, pos, ℕ, ◌+◌, ◌≤◌, ◌<◌, ◌≡◌, refl, ◌⊎◌, true, Option, none, some, List, [], ◌∷◌, arith, ◌==◌,
  if◌then◌else◌, replicate, All, ok, err, Bytes, Bytes-discrete, bytes_key, nat_key, member,
}
use bina_blockchain_l.Difficulty.{Adjuster, record_block, replay}
use bina_blockchain_l.Checkpoint.{governing_checkpoint_height}
use bina_blockchain_l.Node.{BlockRecord}
use bina_blockchain_l.Node.ForkChoice.{PeerStatus, select_best_peer}
use bina_blockchain_l.Node.Sync.{hex_to_32}
use bina_blockchain_l.Store.{
  BlockStore, get, get_range, complete, complete_all, complete_found, get_transactions, parse_rows,
  order_by_index, row_to_record, block_hash_at, latest_checkpoint, all_nullifiers,
}
use bina_blockchain_l.Node.Reorg.{
  Chain, Disk, Rollback, PeerAnswers, ReorgStop, local_hash_at, peer_hash_at, probe, plan_rollback,
  reconcile_fork,
}
use bina_blockchain_l.Node.Reorg.Probe.{IsShared, IsSplit, probe-highest}
use bina_blockchain_l.Node.Reorg.Depth.{IsGrounded, plan_rollback-IsGrounded}
use bina_blockchain_l.Node.Reorg.Epoch.{replay-rollback}
use bina_blockchain_l.Node.Reorg.Outcome.{chain_height_of, reconcile_fork-outcome}
use bina_blockchain_l.Node.Startup.{Started, save_chain_state, start_node, resume_of}
use bina_blockchain_l.Node.Startup.Resume.{
  HexReadsBack, IsStorable, IsNotNewer, AreHashes, start_node-resumes,
}
use bina_blockchain_l.Ledger.Replay.{open_scoped}
use bina_blockchain_l.Tests.Fixtures.{toy, toy_state, toy_ledger, alice, seed_peer}
use bina_blockchain_l.Tests.Encodings.{toy_json, toy_file_json, toy_file_json-FileReadsBack}

abbrev one_up : ℕ → ℕ → ℤ
one_up actual target = pos 1

-- A block without transactions whose hash is one byte over and over.
abbrev block_at : ℕ → ℕ → BlockRecord
block_at height byte = record {
  height = height;
  block_hash = replicate 32 byte;
  prev_hash = replicate 32 3;
  nonce = 9;
  timestamp = 1000;
  mined_timestamp_secs = 1;
  zero_bits = 30;
  hashes_tried = 0;
  elapsed_ms = 0;
  hashrate_mhs = 0;
  claim_digest = [];
  election_score = [];
  source = [];
  randomness_output = [];
  chain_work_hex = [];
  difficulty_bits = 25;
  miner_address = alice;
  miner_public_key = [];
  miner_signature = [];
  reward_bina = 50;
  nullifier = replicate 32 8;
  btc_seed = replicate 32 4;
  btc_height = 100;
  merkle_root = replicate 32 0;
  state_root = replicate 32 0;
  transactions = [];
}

abbrev two_blocks : BlockStore
two_blocks = record {
  blocks = block_at 1 11 ∷ block_at 2 12 ∷ [];
  block_transactions = [];
  mempool = [];
}

abbrev node : Chain
node = record {
  replica = record {
    state = record toy_state { chain_height = 2; tip_hash = replicate 32 12 };
    ledger = toy_ledger;
    adjuster = record {
      current_bits = 25;
      epoch_start_ms = 0;
      epoch_start_height = 1;
      last_adjustment = none;
    };
    btc_checkpoint_tip_height = 100;
  };
  store = two_blocks;
}

abbrev disk : Disk
disk = record { opens_ledger = true; rolls_back = true; writes = true }

-- A peer of the same first block and another second one; it serves no page.
abbrev headers : ℕ → Option (List BlockRecord)
headers h = some (if h == 2 then block_at 2 13 ∷ [] else block_at 1 11 ∷ [])

abbrev heavier : PeerStatus
heavier = record { addr = seed_peer; height = 2; genesis_hash = replicate 32 6; chain_work = 5 }

abbrev silent : PeerStatus → PeerAnswers
silent p = record { headers = headers; pages = [] }

abbrev planned : Rollback
planned = record {
  fork_point = 1;
  rolled_back = block_at 2 12 ∷ [];
  new_tip = replicate 32 11;
  new_timestamp = 1000;
  new_seed = replicate 32 4;
  new_seed_height = 100;
  new_ledger = open_scoped [] 1;
}

is_chosen : select_best_peer (heavier ∷ []) (replicate 32 6) 0 ≡ some heavier
unfolding select_best_peer Bytes-discrete
is_chosen = refl

forks_at_1 : probe toy two_blocks headers 0 2 ≡ ok 1
unfolding probe local_hash_at peer_hash_at block_hash_at hex_to_32 Bytes-discrete
forks_at_1 = refl

is_planned : plan_rollback toy toy_json disk node 1 ≡ ok planned
unfolding plan_rollback get get_range complete complete_all get_transactions parse_rows
    row_to_record hex_to_32 governing_checkpoint_height order_by_index complete_found
is_planned = refl

probe-highest_example :
    (1 ≤ 2)
    × ((0 < 1) → IsShared toy two_blocks headers 1)
    × ((k : ℕ) → 1 < k → k ≤ 2 → IsSplit toy two_blocks headers k)
probe-highest_example = probe-highest toy two_blocks headers 0 2 1 forks_at_1

plan_rollback-IsGrounded_example : IsGrounded toy toy_json node 1 planned
plan_rollback-IsGrounded_example =
    plan_rollback-IsGrounded toy toy_json disk node 1 planned is_planned

reconcile_fork-outcome_example :
    let (result, after) = reconcile_fork one_up toy toy_json disk node (heavier ∷ []) silent in
    ((why : ReorgStop) × (result ≡ err why) × (after ≡ node))
    ⊎ ((synced base : ℕ) × (result ≡ ok synced)
        × (chain_height_of after ≡ base + synced)
        × ((base ≡ 2) ⊎ ((b : Rollback) × IsGrounded toy toy_json node base b × (2 ≤ base + 18))))
reconcile_fork-outcome_example =
    reconcile_fork-outcome one_up toy toy_json disk node (heavier ∷ []) silent

abbrev early : Adjuster
early = record {
  current_bits = 25;
  epoch_start_ms = 0;
  epoch_start_height = 1;
  last_adjustment = none;
}

same_epoch : (replay one_up early ((3, 900) ∷ [])).epoch_start_height ≤ 2
unfolding replay record_block
same_epoch = omega arith

replay-rollback_example : replay one_up early ((3, 900) ∷ []) ≡ early
replay-rollback_example =
    replay-rollback one_up early 2 ((3, 900) ∷ []) (omega arith, tt) same_epoch

toy-HexReadsBack : HexReadsBack toy
toy-HexReadsBack b = refl

is_storable : IsStorable node.replica
is_storable = record {
  genesis_length = refl;
  tip_length = refl;
  seed_length = refl;
  work_fits = omega arith;
  least_bits = omega arith;
  most_bits = omega arith;
}

not_newer : IsNotNewer (latest_checkpoint two_blocks) 100
unfolding latest_checkpoint
not_newer = omega arith

spent_hashes : AreHashes toy (all_nullifiers two_blocks)
unfolding all_nullifiers
spent_hashes = ((_, refl, refl), ((_, refl, refl), tt))

start_node-resumes_example :
    let saved =
      save_chain_state toy toy_file_json true none 5
        (replicate 32 6)
        (replicate 32 12)
        2
        (resume_of toy node.replica) in
    (q : Started) × (start_node toy toy_json toy_file_json true toy_state two_blocks saved.1 [] 6
        (replicate 32 6)
        7
      ≡ ok q)
    × (q.replica.state.genesis_hash ≡ replicate 32 6)
    × (q.replica.state.tip_hash ≡ replicate 32 12)
    × (q.replica.state.chain_height ≡ 2)
    × (q.replica.state.difficulty_bits ≡ 25)
    × (q.replica.state.btc_seed_hash ≡ replicate 32 4)
    × (q.replica.state.btc_checkpoint_tip_height ≡ 100)
    × (q.replica.state.last_block_timestamp_ms ≡ 500)
    × (q.replica.state.chain_work ≡ 0)
    × (q.replica.adjuster ≡ early)
    × (q.replica.ledger ≡ open_scoped [] 2)
    × All
        (λ t. (b : Bytes) × (some t ≡ some b) × (member b q.replica.state.nullifiers ≡ true))
        (all_nullifiers two_blocks)
start_node-resumes_example =
    start_node-resumes toy toy_json toy_file_json true toy_state two_blocks none [] 5 6 7
      node.replica toy-HexReadsBack toy_file_json-FileReadsBack is_storable not_newer spent_hashes
