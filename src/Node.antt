-- ===== src/Node.antt =====
-- The shared state of a node, of l1-chain/node/src/main.rs: what consensus and the mempool read and
-- write. Counters, log lines and addresses for display are left out. Calls of the block store are recorded
-- in order.
pub mod Accept
pub mod Mempool
pub mod ForkChoice
pub mod Sync
pub mod Reorg
pub mod Mining
pub mod Startup
pub mod RateLimit
pub mod Peers
use bina_blockchain_l.Prelude.{
  ℕ, zero, suc, ◌+◌, ◌-◌, ◌*◌, ◌/◌, ◌%◌, ◌^◌, ◌≤◌, ◌<◌, min, max, ◌≡◌, refl, sym, ap, ◌∙◌, ◌≢◌, ◌↔◌,
  ◌⊎◌, inl, inr, Bool, true, false, not, ◌&&◌, ◌||◌, Option, none, some, List, [], ◌∷◌, ◌++◌, map,
  arith, dec_lt, ℕ_discrete, ltb, leb, ◌==◌, if◌then◌else◌, ltb→lt, ltb→le, lt→ltb, le→ltb, leb→le,
  le→leb, ==→eq, ==_refl, ==_ne, tests, Bool-cases, Option-cases, Bool-ext, length, take, drop,
  replicate, get_or, length-append, length-replicate, length-take, length-drop, take-append,
  drop-append, append_cancel, take_within, drop_within, All, All-append, all, filter, u64_mod,
  u64_max, saturating_add, checked_add, wrapping_add, saturating_sub, saturating_add_small,
  wrapping_add_small, Result, ok, err, ◌>>=◌, ◌>>◌, ensure, ok_or, is_ok, >>=-eq-ok, Result-cases,
  Bytes, Bytes-discrete, bytes_lt, bytes_lt_irrefl, bytes_lt_trans, bytes_lt_total, bytes_lt_asymm,
  le_bytes, of_le_bytes, length-le_bytes, of_le_bytes-le_bytes, codes, le_bytes_injective, Key,
  bytes_key, nat_key, same, same→eq, same_refl, same_ne, member, member-append, set_insert,
  set_remove, lookup, insert, erase, keys, lookup-insert, lookup-erase, member-keys-insert,
}
use bina_blockchain_l.Transaction.{SignedTransaction}
use bina_blockchain_l.Claims.{SignedBlockClaim}
use bina_blockchain_l.Checkpoint.{BtcCheckpointProof, BtcEntropyState}
use bina_blockchain_l.Randomness.{NullifierSet}

abbrev pub max_future_ms : ℕ
max_future_ms = 30000

abbrev pub btc_height_tolerance : ℕ
btc_height_tolerance = 2

abbrev pub max_mempool_size : ℕ
max_mempool_size = 50000

pub record PendingClaim : Type 0 where
  pub claim : SignedBlockClaim
  pub btc_checkpoint : Option BtcCheckpointProof
  pub transactions : List SignedTransaction

-- `BlockRecord`; its strings are bytes. The hash rate, a floating point number, is its bit pattern.
pub record BlockRecord : Type 0 where
  pub height : ℕ
  pub block_hash : Bytes
  pub prev_hash : Bytes
  pub nonce : ℕ
  pub timestamp : ℕ
  pub mined_timestamp_secs : ℕ
  pub zero_bits : ℕ
  pub difficulty_bits : ℕ
  pub hashes_tried : ℕ
  pub elapsed_ms : ℕ
  pub hashrate_mhs : ℕ
  pub miner_address : Bytes
  pub miner_public_key : Bytes
  pub miner_signature : Bytes
  pub claim_digest : Bytes
  pub election_score : Bytes
  pub source : Bytes
  pub reward_bina : ℕ
  pub randomness_output : Bytes
  pub nullifier : Bytes
  pub btc_seed : Bytes
  pub btc_height : ℕ
  pub merkle_root : Bytes
  pub state_root : Bytes
  pub chain_work_hex : Bytes
  pub transactions : List SignedTransaction

-- A call of the block store.
pub data StoreCall : Type 0 where
  insert_block : BlockRecord → StoreCall
  mempool_insert : SignedTransaction → StoreCall
  mempool_remove : Bytes → StoreCall

-- The candidates of a height by miner, for every height.
abbrev pub Candidates : Type 0
Candidates = List (Bytes × PendingClaim)

pub record NodeState : Type 0 where
  pub genesis_hash : Bytes
  pub tip_hash : Bytes
  pub chain_height : ℕ
  pub pending_claims : List (ℕ × Candidates)
  pub mempool : List (Bytes × SignedTransaction)
  pub nullifiers : NullifierSet
  pub last_observed_btc : BtcEntropyState
  pub btc_seed_hash : Bytes
  pub btc_checkpoint_tip_height : ℕ
  pub difficulty_bits : ℕ
  pub last_block_timestamp_ms : ℕ
  pub chain_work : ℕ
  pub total_mined_bina : ℕ
  pub store_calls : List StoreCall

-- `pending_claims.entry(height).or_default()`
unfoldable pub candidates_at : ℕ → List (ℕ × Candidates) → Candidates
candidates_at height pending = elim (lookup height pending) [ none ↦ [] | some c ↦ c ]
