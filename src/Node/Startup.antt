-- ===== src/Node/Startup.antt =====
-- The file of the chain's state and the start of `mining_loop`, of l1-chain/node/src/main.rs. The JSON
-- of the file is a parameter; log lines are left out.
pub mod Hex
pub mod Resume
pub mod Poisoned
use bina_blockchain_l.Prelude.{
  ℤ, ℕ, zero, suc, ◌+◌, ◌-◌, ◌*◌, ◌/◌, ◌%◌, ◌^◌, ◌≤◌, ◌<◌, min, max, ◌≡◌, refl, sym, ap, ◌∙◌, ◌≢◌,
  ◌↔◌, ◌⊎◌, inl, inr, Bool, true, false, not, ◌&&◌, ◌||◌, Option, none, some, List, [], ◌∷◌, ◌++◌,
  map, arith, dec_lt, ℕ_discrete, ltb, leb, ◌==◌, if◌then◌else◌, ltb→lt, ltb→le, lt→ltb, le→ltb,
  leb→le, le→leb, ==→eq, ==_refl, ==_ne, tests, Bool-cases, Option-cases, Bool-ext, length, take,
  drop, replicate, get_or, length-append, length-replicate, length-take, length-drop, take-append,
  drop-append, append_cancel, take_within, drop_within, All, All-append, all, filter, u64_mod,
  u64_max, saturating_add, checked_add, wrapping_add, saturating_sub, saturating_add_small,
  wrapping_add_small, Result, ok, err, ◌>>=◌, ◌>>◌, ensure, ok_or, is_ok, >>=-eq-ok, ok_injective,
  ensure-ok, Result-cases, Bytes, Bytes-discrete, bytes_lt, bytes_lt_irrefl, bytes_lt_trans,
  bytes_lt_total, bytes_lt_asymm, le_bytes, of_le_bytes, length-le_bytes, of_le_bytes-le_bytes,
  codes, le_bytes_injective, Key, bytes_key, nat_key, same, same→eq, same_refl, same_ne, member,
  member-append, set_insert, set_remove, lookup, insert, erase, keys, lookup-insert, lookup-erase,
  member-keys-insert,
}
use bina_blockchain_l.External.{External}
use bina_blockchain_l.Difficulty.{Adjuster, restore, min_bits}
use bina_blockchain_l.Transaction.{SignedTransaction, tx_id, from_hex, verify_transaction}
use bina_blockchain_l.Randomness.{NullifierSet, mark_spent}
use bina_blockchain_l.Ledger.{Ledger, balance, nonce_of}
use bina_blockchain_l.Ledger.Replay.{open_scoped}
use bina_blockchain_l.Ledger.{Row}
use bina_blockchain_l.Node.{NodeState, StoreCall}
use bina_blockchain_l.Node.Sync.{Replica, u128_max}
use bina_blockchain_l.Node.Mining.{lower_hex}
use bina_blockchain_l.Store.{Json, BlockStore, latest_checkpoint, all_nullifiers}
use bina_blockchain_l.Store.Pending.{mempool_load, mempool_remove}

abbrev pub chain_state_version : ℕ
chain_state_version = 2

abbrev pub network_id : Bytes
network_id = codes "bina-l1"

pub record ConsensusResumeState : Type 0 where
  pub difficulty_bits : ℕ
  pub epoch_start_ms : ℕ
  pub epoch_start_height : ℕ
  pub btc_seed_hash : Bytes
  pub btc_checkpoint_tip_height : ℕ
  pub last_block_timestamp_ms : ℕ
  pub chain_work_hex : Bytes

pub record ChainStateFile : Type 0 where
  pub version : ℕ
  pub network : Bytes
  pub genesis_hash : Bytes
  pub tip_hash : Bytes
  pub height : ℕ
  pub updated_at : ℕ
  pub resume : ConsensusResumeState

pub record LoadedChainState : Type 0 where
  pub genesis_hash : Bytes
  pub tip_hash : Bytes
  pub height : ℕ
  pub created : Bool
  pub resume : ConsensusResumeState

-- `serde_json` on the file.
pub record FileJson : Type 0 where
  pub to_text : ChainStateFile → Bytes
  pub from_text : Bytes → Option ChainStateFile

-- The ways in which the start of the node panics.
pub data StartPanic : Type 0 where
  not_json bad_version wrong_network bad_hex wrong_genesis cannot_create : StartPanic

-- `hex_to_32`, which panics.
unfoldable pub hex_to_32 : External → Bytes → Result StartPanic Bytes
hex_to_32 x s = do b ← ok_or (x.hex_decode s) bad_hex; ensure (length b == 32) bad_hex; ok b

-- `u128::from_str_radix(s, 16)`
unfoldable pub hex_value : ℕ → Option ℕ
hex_value c =
    if leb 48 c && leb c 57
    then some (c - 48)
    else if leb 97 c && leb c 102
    then some (c - 87)
    else if leb 65 c && leb c 70
    then some (c - 55)
    else none

unfoldable pub parse_hex_from : ℕ → Bytes → Option ℕ
parse_hex_from acc [] = some acc
parse_hex_from acc (c ∷ cs) = elim (hex_value c) [
  | none ↦ none
  | some d ↦ if leb (acc * 16 + d) u128_max then parse_hex_from (acc * 16 + d) cs else none
]

unfoldable pub parse_hex : Bytes → Option ℕ
unfolding parse_hex_from
parse_hex [] = none
parse_hex (c ∷ cs) =
    if (c == 43) && not (length cs == 0) then parse_hex_from 0 cs else parse_hex_from 0 (c ∷ cs)

-- `unwrap_or(0)`
abbrev pub or_zero : Option ℕ → ℕ
or_zero none = 0
or_zero (some n) = n

module _ (x : External) where
  unfoldable pub chain_state_file : ℕ → Bytes → Bytes → ℕ → ConsensusResumeState → ChainStateFile
  chain_state_file now genesis_hash tip_hash height resume = record {
    version = chain_state_version;
    network = network_id;
    genesis_hash = x.hex_encode genesis_hash;
    tip_hash = x.hex_encode tip_hash;
    height = height;
    updated_at = now;
    resume = resume;
  }

  -- `save_chain_state`: the file after it, if the write succeeds.
  unfoldable pub save_chain_state :
      FileJson
      → Bool
      → Option Bytes
      → ℕ
      → Bytes
      → Bytes
      → ℕ
      → ConsensusResumeState
      → Bool × Option Bytes
  unfolding chain_state_file
  save_chain_state j io file now genesis_hash tip_hash height resume =
      if io
      then (true, some (j.to_text (chain_state_file now genesis_hash tip_hash height resume)))
      else (false, file)

  unfoldable pub genesis_resume_state : ℕ → ConsensusResumeState
  genesis_resume_state genesis_timestamp_ms = record {
    difficulty_bits = min_bits;
    epoch_start_ms = genesis_timestamp_ms;
    epoch_start_height = 0;
    btc_seed_hash = x.hex_encode (replicate 32 0);
    btc_checkpoint_tip_height = 0;
    last_block_timestamp_ms = genesis_timestamp_ms;
    chain_work_hex = codes "0";
  }

  -- The state in a file's text.
  unfoldable pub load_text : FileJson → Bytes → Bytes → Result StartPanic LoadedChainState
  unfolding hex_to_32
  load_text j genesis_hash text = do
    file ← ok_or (j.from_text text) not_json
    ensure (file.version == chain_state_version) bad_version
    ensure (same file.network network_id) wrong_network
    stored_genesis ← hex_to_32 x file.genesis_hash
    ensure (same stored_genesis genesis_hash) wrong_genesis
    tip_hash ← hex_to_32 x file.tip_hash
    ok (record {
      genesis_hash = stored_genesis;
      tip_hash = tip_hash;
      height = file.height;
      created = false;
      resume = file.resume;
    })

  -- `load_or_create_chain_state`: the state, and the file after it.
  unfoldable pub load_or_create_chain_state :
      FileJson
      → Bool
      → Option Bytes
      → ℕ
      → Bytes
      → ℕ
      → Result StartPanic (LoadedChainState × Option Bytes)
  unfolding load_text save_chain_state genesis_resume_state
  load_or_create_chain_state j io (some text) now genesis_hash genesis_timestamp_ms = do
    loaded ← load_text j genesis_hash text
    ok (loaded, some text)
  load_or_create_chain_state j io none now genesis_hash genesis_timestamp_ms = do
    let resume = genesis_resume_state genesis_timestamp_ms
    let (written, file) = save_chain_state j io none now genesis_hash genesis_hash 0 resume
    ensure written cannot_create
    let fresh : LoadedChainState = record {
      genesis_hash = genesis_hash;
      tip_hash = genesis_hash;
      height = 0;
      created = true;
      resume = resume;
    }
    ok (fresh, file)

  -- The checkpoint that the node comes up with: the store's, if it is newer than the file's.
  unfoldable pub newer_checkpoint : Option (Bytes × ℕ) → Bytes → ℕ → Result StartPanic (Bytes × ℕ)
  unfolding hex_to_32
  newer_checkpoint none seed tip_height = ok (seed, tip_height)
  newer_checkpoint (some (seed_hex, height)) seed tip_height =
      if ltb tip_height height
      then (do stored ← hex_to_32 x seed_hex; ok (stored, height))
      else ok (seed, tip_height)

  -- The nullifiers of all stored blocks are spent.
  unfoldable pub reload_nullifiers : List Bytes → NullifierSet → Result StartPanic NullifierSet
  unfolding hex_to_32
  reload_nullifiers [] spent = ok spent
  reload_nullifiers (n_hex ∷ rest) spent = do
    n ← hex_to_32 x n_hex
    reload_nullifiers rest (mark_spent spent n).1

  -- Whether a pending transaction may come back: its signature, its nonce and its funds.
  unfoldable pub is_restorable : Ledger → SignedTransaction → Bool
  is_restorable l t =
      is_ok (verify_transaction x t)
      && ((t.tx.nonce == nonce_of l (from_hex x t)) && elim (checked_add t.tx.amount t.tx.fee) [
        | none ↦ false
        | some need ↦ leb need (balance l (from_hex x t))
      ])

  -- The pending transactions of the store, each kept or dropped from it.
  unfoldable pub reload_mempool :
      Ledger
      → Bool
      → List SignedTransaction
      → List (Bytes × SignedTransaction)
      → BlockStore
      → List (Bytes × SignedTransaction) × BlockStore
  unfolding is_restorable
  reload_mempool l io [] m st = (m, st)
  reload_mempool l io (t ∷ pending) m st =
      let kept = is_restorable l t in
      reload_mempool l io pending (if kept then insert (tx_id x t) t m else m)
        (if kept then st else (mempool_remove x io st (tx_id x t)).1)

-- A node that has started: the replica, the block store, and the file.
pub record Started : Type 0 where
  pub replica : Replica
  pub store : BlockStore
  pub file : Option Bytes

-- The shared state and the local variables, from what was read.
unfoldable pub come_up :
    External
    → Json
    → Bool
    → NodeState
    → BlockStore
    → Option Bytes
    → List Row
    → LoadedChainState
    → Bytes
    → ℕ
    → NullifierSet
    → Started
unfolding reload_mempool
come_up x j io s store file rows loaded seed tip_height nullifiers =
    let resume = loaded.resume in
    let ledger = open_scoped rows loaded.height in
    let (pending, read) = mempool_load j store in
    let (mempool, store') = reload_mempool x ledger io pending s.mempool read in
    record {
      replica = record {
        state = record s {
          genesis_hash = loaded.genesis_hash;
          tip_hash = loaded.tip_hash;
          chain_height = loaded.height;
          mempool = mempool;
          nullifiers = nullifiers;
          total_mined_bina = ledger.total_mined;
          difficulty_bits = resume.difficulty_bits;
          btc_seed_hash = seed;
          btc_checkpoint_tip_height = tip_height;
          last_block_timestamp_ms = resume.last_block_timestamp_ms;
          chain_work = or_zero (parse_hex resume.chain_work_hex);
        };
        ledger = ledger;
        adjuster = restore resume.difficulty_bits resume.epoch_start_ms resume.epoch_start_height;
        btc_checkpoint_tip_height = tip_height;
      };
      store = store';
      file = file;
    }

-- The start of `mining_loop`, until the first request to a peer. `s` is the state before it, and `rows`
-- are those of the ledger's file.
unfoldable pub start_node :
    External
    → Json
    → FileJson
    → Bool
    → NodeState
    → BlockStore
    → Option Bytes
    → List Row
    → ℕ
    → Bytes
    → ℕ
    → Result StartPanic Started
unfolding load_or_create_chain_state newer_checkpoint reload_nullifiers come_up hex_to_32
start_node x j fj io s store file rows now genesis_hash genesis_timestamp_ms = do
  (loaded, file') ← load_or_create_chain_state x fj io file now genesis_hash genesis_timestamp_ms
  let resume = loaded.resume
  resume_seed ← hex_to_32 x resume.btc_seed_hash
  (seed, tip_height) ←
      newer_checkpoint x (latest_checkpoint store) resume_seed resume.btc_checkpoint_tip_height
  nullifiers ← reload_nullifiers x (all_nullifiers store) s.nullifiers
  ok (come_up x j io s store file' rows loaded seed tip_height nullifiers)

-- What the end of a round writes to the file.
unfoldable pub resume_of : External → Replica → ConsensusResumeState
resume_of x p = record {
  difficulty_bits = p.adjuster.current_bits;
  epoch_start_ms = p.adjuster.epoch_start_ms;
  epoch_start_height = p.adjuster.epoch_start_height;
  btc_seed_hash = x.hex_encode p.state.btc_seed_hash;
  btc_checkpoint_tip_height = p.state.btc_checkpoint_tip_height;
  last_block_timestamp_ms = p.state.last_block_timestamp_ms;
  chain_work_hex = lower_hex p.state.chain_work;
}
