-- ===== src/Node/Mining.antt =====
-- One round of `mining_loop` in l1-chain/node/src/main.rs, in two parts: the candidate that is built and
-- mined, and the block that wins the election and is made final. Between them the handlers may change the
-- pending claims. Counters and values for display are left out.
pub mod Liveness
pub mod Final
pub mod Forgotten
pub mod Vetted
pub mod Leftovers
use bina_blockchain_l.Prelude.{
  ℤ, ℕ, zero, suc, ◌+◌, ◌-◌, ◌*◌, ◌/◌, ◌%◌, ◌^◌, ◌≤◌, ◌<◌, min, max, ◌≡◌, refl, sym, ap, ◌∙◌, ◌≢◌,
  ◌↔◌, ◌⊎◌, inl, inr, Bool, true, false, not, ◌&&◌, ◌||◌, Option, none, some, List, [], ◌∷◌, ◌++◌,
  map, arith, dec_lt, ℕ_discrete, ltb, leb, ◌==◌, if◌then◌else◌, ltb→lt, ltb→le, lt→ltb, le→ltb,
  leb→le, le→leb, ==→eq, ==_refl, ==_ne, tests, Bool-cases, Option-cases, Bool-ext, length, take,
  drop, replicate, get_or, length-append, length-replicate, length-take, length-drop, take-append,
  drop-append, append_cancel, take_within, drop_within, All, All-append, all, filter, u64_mod,
  u64_max, saturating_add, checked_add, wrapping_add, saturating_sub, saturating_add_small,
  wrapping_add_small, Result, ok, err, ◌>>=◌, ◌>>◌, ensure, ok_or, is_ok, >>=-eq-ok, ok_injective,
  ensure-ok, Result-cases, Bytes, Bytes-discrete, bytes_lt, bytes_lt_irrefl, bytes_lt_trans,
  bytes_lt_total, bytes_lt_asymm, le_bytes, of_le_bytes, length-le_bytes, of_le_bytes-le_bytes,
  codes, le_bytes_injective, Key, bytes_key, nat_key, same, same→eq, same_refl, same_ne, member,
  member-append, set_insert, set_remove, lookup, insert, erase, keys, lookup-insert, lookup-erase,
  member-keys-insert,
}
use bina_blockchain_l.External.{External}
use bina_blockchain_l.Block.{L1BlockHeader, leading_zero_bits, meets_difficulty}
use bina_blockchain_l.Difficulty.{Adjuster, record_block}
use bina_blockchain_l.Transaction.{SignedTransaction, tx_id, merkle_root, max_txs_per_block}
use bina_blockchain_l.Crypto.{WalletKeypair, key_address}
use bina_blockchain_l.Claims.{SignedBlockClaim, sign, block_hash, claim_message, election_score}
use bina_blockchain_l.Checkpoint.{
  BtcCheckpointProof, BtcEntropyState, from_state, bitcoin_seed_hash, is_checkpoint_height,
}
use bina_blockchain_l.Emission.{block_reward}
use bina_blockchain_l.Randomness.{from_block, consume}
use bina_blockchain_l.Ledger.{Ledger}
use bina_blockchain_l.Ledger.Execution.{simulate_block_execution, apply_block}
use bina_blockchain_l.Node.{
  NodeState, BlockRecord, StoreCall, PendingClaim, Candidates, candidates_at,
}
use bina_blockchain_l.Node.ForkChoice.{select_winning_pending}
use bina_blockchain_l.Node.Sync.{Replica, add_work, remove_all, retain_above}

-- The observation that a checkpoint pins: the first that is live, once the loop's local height of the
-- checkpoint is not 0.
-- The list holds the observations in the order in which they are fetched; `none` is the wait.
unfoldable pub live_observation : ℕ → List BtcEntropyState → Option BtcEntropyState
live_observation pinned [] = none
live_observation pinned (fresh ∷ later) =
    if (fresh.tip_height == 0) && ltb 0 pinned then live_observation pinned later else some fresh

-- What a round works on before the search for a nonce.
pub record Candidate : Type 0 where
  pub template : L1BlockHeader
  pub checkpoint_proof : Option BtcCheckpointProof
  pub applied_txs : List SignedTransaction
  pub reward : ℕ

-- The root of a list of transactions; it always exists.
abbrev pub root_or_empty : Option Bytes → Bytes
root_or_empty none = []
root_or_empty (some r) = r

abbrev pub seed_or : External → Bytes → Option BtcEntropyState → Bytes
seed_or x pinned none = pinned
seed_or x pinned (some fresh) = bitcoin_seed_hash x fresh

abbrev pub proof_of : Option BtcEntropyState → Option BtcCheckpointProof
proof_of none = none
proof_of (some fresh) = some (from_state fresh)

module _ (x : External) where
  -- The candidate on top of the node's tip. `fresh` is the observation fetched at a checkpoint height, and
  -- `pending` are the values of the mempool in the order of its table.
  unfoldable pub build_candidate :
      NodeState
      → Ledger
      → Adjuster
      → ℕ
      → Bytes
      → Option BtcEntropyState
      → List SignedTransaction
      → Candidate
  build_candidate s l a now miner_address fresh pending =
      let height = wrapping_add s.chain_height 1 in
      let reward = block_reward height s.total_mined_bina in
      let (applied, root) =
        simulate_block_execution x l (take max_txs_per_block pending) (x.hex_encode miner_address)
          reward in
      record {
        template = record {
          version = 1;
          height = height;
          prev_hash = s.tip_hash;
          merkle_root = root_or_empty (merkle_root x applied);
          state_root = root;
          timestamp = max now (saturating_add s.last_block_timestamp_ms 1);
          nonce = 0;
          miner_address = miner_address;
          difficulty_bits = a.current_bits;
          bitcoin_seed_hash = seed_or x s.btc_seed_hash fresh;
        };
        checkpoint_proof = proof_of fresh;
        applied_txs = applied;
        reward = reward;
      }

  -- The state once the candidate is built: a new observation is kept, and the difficulty published.
  unfoldable pub publish : NodeState → Adjuster → Option BtcEntropyState → NodeState
  publish s a none = record s { difficulty_bits = a.current_bits }
  publish s a (some fresh) = record s {
    difficulty_bits = a.current_bits;
    last_observed_btc = fresh;
  }

  -- The candidate with the nonce that the search found, signed.
  unfoldable pub sign_mined : Candidate → ℕ → WalletKeypair → Bytes → SignedBlockClaim
  sign_mined c nonce k randomness = sign x (record c.template { nonce = nonce }) k randomness

  -- `entry(miner).or_insert_with(..)`
  unfoldable pub submit_local : NodeState → ℕ → PendingClaim → NodeState
  submit_local s height p =
      let miner = x.hex_encode p.claim.header.miner_address in
      let claims = candidates_at height s.pending_claims in
      record s {
        pending_claims =
            insert height (if member miner (keys claims) then claims else insert miner p claims)
              s.pending_claims;
      }

-- What the search reports, for the block's record.
pub record MineStats : Type 0 where
  pub hashes_tried : ℕ
  pub elapsed_ms : ℕ
  pub hashrate_mhs : ℕ

abbrev pub no_stats : MineStats
no_stats = record { hashes_tried = 0; elapsed_ms = 0; hashrate_mhs = 0 }

-- `{:x}`
unfoldable pub hex_digit : ℕ → ℕ
hex_digit d = if ltb d 10 then 48 + d else 87 + d

unfoldable pub lower_hex_from : ℕ → ℕ → Bytes → Bytes
lower_hex_from zero n acc = acc
lower_hex_from (suc fuel) n acc =
    let more = lower_hex_from fuel (n / 16) (hex_digit (n % 16) ∷ acc) in
    if n / 16 == 0 then hex_digit (n % 16) ∷ acc else more

unfoldable pub lower_hex : ℕ → Bytes
unfolding lower_hex_from
lower_hex n = lower_hex_from 32 n []

-- The two `expect`s of the round.
pub data Panic : Type 0 where
  no_candidate nullifier_collision : Panic

module _ (x : External) where
  -- The record of a winning claim; `work` is the chain's work with it.
  unfoldable pub record_of : PendingClaim → ℕ → Bool → MineStats → ℕ → ℕ → ℕ → BlockRecord
  record_of w height local_won stats reward btc_height work =
      let c = w.claim in
      let h = c.header in
      let shown = if local_won then stats else no_stats in
      let rand = from_block x height (block_hash x c) h.bitcoin_seed_hash in
      record {
        height = height;
        block_hash = x.hex_encode (block_hash x c);
        prev_hash = x.hex_encode h.prev_hash;
        nonce = h.nonce;
        timestamp = h.timestamp;
        mined_timestamp_secs = h.timestamp / 1000;
        zero_bits = leading_zero_bits (block_hash x c);
        difficulty_bits = h.difficulty_bits;
        hashes_tried = shown.hashes_tried;
        elapsed_ms = shown.elapsed_ms;
        hashrate_mhs = shown.hashrate_mhs;
        miner_address = x.hex_encode h.miner_address;
        miner_public_key = x.hex_encode c.public_key;
        miner_signature = x.hex_encode c.signature;
        claim_digest = x.hex_encode (claim_message x h);
        election_score = x.hex_encode (election_score x h);
        source = if local_won then codes "local" else codes "submitted";
        reward_bina = reward;
        randomness_output = x.hex_encode rand.output;
        nullifier = x.hex_encode rand.nullifier;
        btc_seed = x.hex_encode h.bitcoin_seed_hash;
        btc_height = btc_height;
        merkle_root = x.hex_encode h.merkle_root;
        state_root = x.hex_encode h.state_root;
        chain_work_hex = lower_hex work;
        transactions = w.transactions;
      }

-- The checkpoint that the winning claim pins.
abbrev pub pinned_seed : Bool → PendingClaim → Bytes → Bytes
pinned_seed is_ckpt w seed = elim w.btc_checkpoint [
  | none ↦ seed
  | some proof ↦ if is_ckpt then w.claim.header.bitcoin_seed_hash else seed
]

abbrev pub pinned_height : Bool → PendingClaim → ℕ → ℕ
pinned_height is_ckpt w tip_height = elim w.btc_checkpoint [
  | none ↦ tip_height
  | some proof ↦ if is_ckpt then proof.tip_height else tip_height
]

-- The end of a round: the node, and the record that it stored.
pub record Finalized : Type 0 where
  pub replica : Replica
  pub stored : BlockRecord

-- The local values of a round that its end uses: the height, the reward, the hash of the own claim, and what the
-- search reports.
pub record Round : Type 0 where
  pub height : ℕ
  pub reward : ℕ
  pub local_hash : Bytes
  pub stats : MineStats

-- What the winning claim leaves. Its writes to the ledger's file succeed if the flag says so.
unfoldable pub apply_winner :
    (ℕ → ℕ → ℤ) → External → Bool → Replica → Round → PendingClaim → Result Panic Finalized
unfolding record_of
apply_winner log_delta x io p rd w = do
  let s = p.state
  let h = w.claim.header
  let hash = block_hash x w.claim
  let is_ckpt = is_checkpoint_height rd.height
  let seed = pinned_seed is_ckpt w s.btc_seed_hash
  let btc_height = pinned_height is_ckpt w s.btc_checkpoint_tip_height
  let adjuster = (record_block log_delta p.adjuster rd.height h.timestamp).0
  let work = add_work s.chain_work h.difficulty_bits
  let miner = x.hex_encode h.miner_address
  let ledger =
      apply_block x io p.ledger rd.height w.transactions miner rd.reward (h.timestamp / 1000)
  let stored = record_of x w rd.height (same hash rd.local_hash) rd.stats rd.reward btc_height work
  let (spent, nullifiers) = consume s.nullifiers (from_block x rd.height hash h.bitcoin_seed_hash)
  ensure (is_ok spent) nullifier_collision
  ok (record {
    replica = record {
      state = record s {
        pending_claims = retain_above rd.height (erase rd.height s.pending_claims);
        mempool = remove_all x w.transactions s.mempool;
        nullifiers = nullifiers;
        chain_height = rd.height;
        total_mined_bina = ledger.total_mined;
        difficulty_bits = adjuster.current_bits;
        tip_hash = hash;
        btc_seed_hash = seed;
        btc_checkpoint_tip_height = btc_height;
        last_block_timestamp_ms = h.timestamp;
        chain_work = work;
        store_calls =
            s.store_calls
            ++ (map (λ t. StoreCall.mempool_remove (tx_id x t)) w.transactions
                ++ StoreCall.insert_block stored ∷ []);
      };
      ledger = ledger;
      adjuster = adjuster;
      btc_checkpoint_tip_height = p.btc_checkpoint_tip_height;
    };
    stored = stored;
  })

-- The election and its end. The order of the candidates is that of the table of the height.
unfoldable pub finish_round :
    (ℕ → ℕ → ℤ) → External → Bool → Replica → Round → Result Panic Finalized
unfolding apply_winner
finish_round log_delta x io p rd = do
  w ←
      ok_or
        (select_winning_pending x (map (λ e. e.1) (candidates_at rd.height p.state.pending_claims)))
        no_candidate
  apply_winner log_delta x io p rd w
