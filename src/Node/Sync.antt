-- ===== src/Node/Sync.antt =====
-- The synchronisation of blocks from a peer: `header_from_record` and the loop over the records of a
-- page in `sync_forward_from_peer`, of l1-chain/node/src/main.rs. The requests of the pages are left
-- out; the log file and the block store always succeed, and the clock is the argument `now`.
pub mod Records
use bina_blockchain_l.Prelude.{
  ℤ, ℕ, zero, suc, ◌+◌, ◌-◌, ◌*◌, ◌/◌, ◌%◌, ◌^◌, ◌≤◌, ◌<◌, min, max, ◌≡◌, refl, sym, ap, ◌∙◌, ◌≢◌,
  ◌↔◌, ◌⊎◌, inl, inr, Bool, true, false, not, ◌&&◌, ◌||◌, Option, none, some, List, [], ◌∷◌, ◌++◌,
  map, arith, dec_lt, ℕ_discrete, ltb, leb, ◌==◌, if◌then◌else◌, ltb→lt, ltb→le, lt→ltb, le→ltb,
  leb→le, le→leb, ==→eq, ==_refl, ==_ne, tests, Bool-cases, Option-cases, Bool-ext, length, take,
  drop, replicate, get_or, length-append, length-replicate, length-take, length-drop, take-append,
  drop-append, append_cancel, take_within, drop_within, All, All-append, all, filter, u64_mod,
  u64_max, saturating_add, checked_add, wrapping_add, saturating_sub, saturating_add_small,
  wrapping_add_small, Result, ok, err, ◌>>=◌, ◌>>◌, ensure, ok_or, is_ok, >>=-eq-ok, Result-cases,
  Bytes, Bytes-discrete, bytes_lt, bytes_lt_irrefl, bytes_lt_trans, bytes_lt_total, bytes_lt_asymm,
  le_bytes, of_le_bytes, length-le_bytes, of_le_bytes-le_bytes, codes, le_bytes_injective, Key,
  bytes_key, nat_key, same, same→eq, same_refl, same_ne, member, member-append, set_insert,
  set_remove, lookup, insert, erase, keys, lookup-insert, lookup-erase, member-keys-insert,
}
use bina_blockchain_l.External.{External}
use bina_blockchain_l.Block.{L1BlockHeader, timestamp_is_valid}
use bina_blockchain_l.Difficulty.{Adjuster, record_block}
use bina_blockchain_l.Transaction.{
  SignedTransaction, tx_id, parse_address_hex, merkle_root, max_txs_per_block,
}
use bina_blockchain_l.Claims.{SignedBlockClaim, verify, block_hash}
use bina_blockchain_l.Checkpoint.{is_checkpoint_height}
use bina_blockchain_l.Randomness.{mark_spent}
use bina_blockchain_l.Ledger.{Ledger}
use bina_blockchain_l.Ledger.Execution.{simulate_block_execution, apply_block}
use bina_blockchain_l.Node.{
  NodeState, BlockRecord, StoreCall, PendingClaim, Candidates, max_future_ms,
}
use bina_blockchain_l.Node.Accept.{is_root}

-- `1u128 << bits.min(127)`, added with saturation.
abbrev pub u128_max : ℕ
u128_max = 340282366920938463463374607431768211455

abbrev pub add_work : ℕ → ℕ → ℕ
add_work work bits = min (work + 2 ^ min bits 127) u128_max

-- `pending_claims.retain`
abbrev pub retain_above : ℕ → List (ℕ × Candidates) → List (ℕ × Candidates)
retain_above height [] = []
retain_above height ((k, c) ∷ m) =
    if ltb height k then (k, c) ∷ retain_above height m else retain_above height m

-- Why the loop stops at a record.
pub data SyncStop : Type 0 where
  out_of_sequence not_linked malformed bad_timestamp wrong_difficulty wrong_seed : SyncStop
  bad_hex unverified wrong_hash wrong_merkle_root too_many_transactions : SyncStop
  not_reproduced : SyncStop

-- `mempool.remove` for each transaction.
abbrev pub remove_all :
    External
    → List SignedTransaction
    → List (Bytes × SignedTransaction)
    → List (Bytes × SignedTransaction)
remove_all x [] m = m
remove_all x (t ∷ txs) m = remove_all x txs (erase (tx_id x t) m)

module _ (x : External) where
  -- 32 bytes in hexadecimal, as `[u8; 32]::try_from` takes them.
  unfoldable pub bytes_32 : Bytes → Result SyncStop Bytes
  bytes_32 s = do b ← ok_or (x.hex_decode s) malformed; ensure (length b == 32) malformed; ok b

  -- `hex_to_32` of l1-chain/core/src/bitcoin_entropy.rs; the 64 characters that it asks for are the 32
  -- bytes that they decode to.
  unfoldable pub hex_to_32 : Bytes → Result SyncStop Bytes
  unfolding bytes_32
  hex_to_32 s = bytes_32 (x.trim s)

  address_of_hex : Bytes → Result SyncStop Bytes
  address_of_hex s = elim (parse_address_hex x s) [ ok a ↦ ok a | err e ↦ err malformed ]

  unfoldable pub header_from_record : BlockRecord → Bytes → Result SyncStop L1BlockHeader
  unfolding address_of_hex hex_to_32
  header_from_record r prev_hash = do
    miner_address ← address_of_hex r.miner_address
    bitcoin_seed_hash ← hex_to_32 r.btc_seed
    merkle_root ← hex_to_32 r.merkle_root
    state_root ← hex_to_32 r.state_root
    ok (record {
      version = 1;
      height = r.height;
      prev_hash = prev_hash;
      merkle_root = merkle_root;
      state_root = state_root;
      timestamp = r.timestamp;
      nonce = r.nonce;
      miner_address = miner_address;
      difficulty_bits = r.difficulty_bits;
      bitcoin_seed_hash = bitcoin_seed_hash;
    })

  -- The checks of a record before its transactions; the claim is the result.
  unfoldable pub check_header :
      NodeState → Adjuster → ℕ → BlockRecord → Result SyncStop SignedBlockClaim
  check_header s a now r = do
    ensure (r.height == s.chain_height + 1) out_of_sequence
    ensure (same r.prev_hash (x.hex_encode s.tip_hash)) not_linked
    header ← header_from_record r s.tip_hash
    ensure (timestamp_is_valid header.timestamp s.last_block_timestamp_ms now max_future_ms)
        bad_timestamp
    ensure (header.difficulty_bits == a.current_bits) wrong_difficulty
    ensure (is_checkpoint_height r.height || same r.btc_seed (x.hex_encode s.btc_seed_hash))
        wrong_seed
    public_key ← ok_or (x.hex_decode r.miner_public_key) bad_hex
    signature ← ok_or (x.hex_decode r.miner_signature) bad_hex
    let c : SignedBlockClaim = record {
      header = header;
      public_key = public_key;
      signature = signature;
    }
    ensure (is_ok (verify x c)) unverified
    ensure (same (x.hex_encode (block_hash x c)) r.block_hash) wrong_hash
    ensure (is_root (merkle_root x r.transactions) header.merkle_root) wrong_merkle_root
    ensure (leb (length r.transactions) max_txs_per_block) too_many_transactions
    ok c

  -- All checks of a record: the claim and the transactions that apply.
  unfoldable pub check_record :
      NodeState
      → Ledger
      → Adjuster
      → ℕ
      → BlockRecord
      → Result SyncStop (SignedBlockClaim × List SignedTransaction)
  check_record s l a now r = do
    c ← check_header s a now r
    let (applied, root) = simulate_block_execution x l r.transactions r.miner_address r.reward_bina
    ensure (length applied == length r.transactions && same root c.header.state_root) not_reproduced
    ok (c, applied)

  -- The node's state after a record was applied; the ledger is the one after the block, and `btc_height`
  -- the loop's local height of the checkpoint.
  unfoldable pub adopt_state :
      NodeState
      → Ledger
      → Adjuster
      → ℕ
      → BlockRecord
      → SignedBlockClaim
      → List SignedTransaction
      → NodeState
  adopt_state s l a btc_height r c applied =
      let header = c.header in
      let checkpoint = is_checkpoint_height r.height in
      record s {
        chain_height = r.height;
        tip_hash = block_hash x c;
        difficulty_bits = a.current_bits;
        btc_seed_hash = if checkpoint then header.bitcoin_seed_hash else s.btc_seed_hash;
        btc_checkpoint_tip_height = btc_height;
        last_block_timestamp_ms = header.timestamp;
        chain_work = add_work s.chain_work header.difficulty_bits;
        total_mined_bina = l.total_mined;
        mempool = remove_all x applied s.mempool;
        nullifiers = elim (bytes_32 r.nullifier) [
          | ok n ↦ (mark_spent s.nullifiers n).1
          | err e ↦ s.nullifiers
        ];
        pending_claims = retain_above r.height s.pending_claims;
        store_calls =
            s.store_calls
            ++ (StoreCall.insert_block r ∷ map (λ t. StoreCall.mempool_remove (tx_id x t)) applied);
      }

-- What the loop carries: the state, the ledger, the adjuster, and its local `btc_checkpoint_tip_height`.
-- The end of a mining round writes the field of that name in the state and not the local, so the two
-- may differ. The other locals that stand for the chain are written with their fields.
pub record Replica : Type 0 where
  pub state : NodeState
  pub ledger : Ledger
  pub adjuster : Adjuster
  pub btc_checkpoint_tip_height : ℕ

-- The local after a record.
abbrev pub pinned_btc_height : Replica → BlockRecord → ℕ
pinned_btc_height p r =
    if is_checkpoint_height r.height then r.btc_height else p.btc_checkpoint_tip_height

-- One round of the loop. The first function is the rounded logarithm of the difficulty rule.
unfoldable pub sync_record :
    (ℕ → ℕ → ℤ) → External → Bool → Replica → ℕ → BlockRecord → Result SyncStop Replica
sync_record log_delta x io p now r = do
  (c, applied) ← check_record x p.state p.ledger p.adjuster now r
  let l =
      apply_block x io p.ledger r.height r.transactions r.miner_address r.reward_bina
        (r.timestamp / 1000)
  let a = (record_block log_delta p.adjuster r.height c.header.timestamp).0
  let btc_height = pinned_btc_height p r
  ok (record {
    state = adopt_state x p.state l a btc_height r c applied;
    ledger = l;
    adjuster = a;
    btc_checkpoint_tip_height = btc_height;
  })

-- The records of a page until the first that stops the loop, with the number of those applied.
unfoldable pub sync_page :
    (ℕ → ℕ → ℤ) → External → Bool → Replica → ℕ → List BlockRecord → ℕ × Replica
sync_page log_delta x io p now [] = (0, p)
sync_page log_delta x io p now (r ∷ page) = elim (sync_record log_delta x io p now r) [
  | err e ↦ (0, p)
  | ok p' ↦ let (synced, last) = sync_page log_delta x io p' now page in (suc synced, last)
]
