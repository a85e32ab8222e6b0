-- ===== src/Node/Startup/Resume.antt =====
-- A restart of the node: what `save_chain_state` wrote at the end of a round is what `mining_loop`
-- comes up with, of l1-chain/node/src/main.rs.
use bina_blockchain_l.Prelude.{
  ℕ, ◌≤◌, min, max, ◌≡◌, refl, ap, Bool, true, false, Option, none, some, List, [], ◌∷◌, arith, ltb,
  ◌==◌, ==→eq, length, All, ok, ensure, ok_or, >>=-eq-ok, ensure-ok, ok_or-ok, Bytes, bytes_key,
  nat_key, same_refl, member, member-set_insert,
}
use bina_blockchain_l.External.{External}
use bina_blockchain_l.Difficulty.{Adjuster, restore, min_bits, max_bits}
use bina_blockchain_l.Randomness.{NullifierSet, mark_spent}
use bina_blockchain_l.Ledger.{Row}
use bina_blockchain_l.Ledger.Replay.{open_scoped}
use bina_blockchain_l.Node.{NodeState}
use bina_blockchain_l.Node.Sync.{Replica, u128_max}
use bina_blockchain_l.Node.Startup.Hex.{parse_hex-lower_hex}
use bina_blockchain_l.Node.Startup.{
  bad_hex, ConsensusResumeState, ChainStateFile, LoadedChainState, FileJson, network_id, hex_to_32,
  chain_state_file, save_chain_state, load_text, load_or_create_chain_state, newer_checkpoint,
  come_up, reload_nullifiers, Started, start_node, resume_of,
}
use bina_blockchain_l.Store.{Json, BlockStore, latest_checkpoint, all_nullifiers}

-- `hex::decode` inverts `hex::encode`, and `serde_json` reads back the file it wrote.
abbrev pub HexReadsBack : External → Type 0
HexReadsBack x = (b : Bytes) → x.hex_decode (x.hex_encode b) ≡ some b

abbrev pub FileReadsBack : FileJson → Type 0
FileReadsBack fj = (f : ChainStateFile) → fj.from_text (fj.to_text f) ≡ some f

hex_to_32-read :
    (x : External) (s b : Bytes) → x.hex_decode s ≡ some b → length b ≡ 32 → hex_to_32 x s ≡ ok b
unfolding hex_to_32
hex_to_32-read x s b read long = rw (read, long) refl

load_text-saved :
    (x : External) (fj : FileJson) (now height : ℕ) (genesis tip : Bytes)
    (resume : ConsensusResumeState)
    → HexReadsBack x
    → FileReadsBack fj
    → length genesis ≡ 32
    → length tip ≡ 32
    → load_text x fj genesis (fj.to_text (chain_state_file x now genesis tip height resume))
      ≡ ok (record {
        genesis_hash = genesis;
        tip_hash = tip;
        height = height;
        created = false;
        resume = resume;
      })
unfolding load_text chain_state_file
load_text-saved x fj now height genesis tip resume hex back lg lt =
    rw
      (
        back (chain_state_file x now genesis tip height resume),
        hex_to_32-read x (x.hex_encode genesis) genesis (hex genesis) lg,
        same_refl network_id,
        same_refl genesis,
        hex_to_32-read x (x.hex_encode tip) tip (hex tip) lt,
      )
      refl

-- The texts are 32 bytes in hexadecimal.
abbrev pub AreHashes : External → List Bytes → Type 0
AreHashes x = All (λ s. (b : Bytes) × (x.hex_decode s ≡ some b) × (length b ≡ 32))

member-mark_spent :
    (n m : Bytes) (spent : NullifierSet)
    → member m spent ≡ true
    → member m (mark_spent spent n).1 ≡ true
unfolding mark_spent
member-mark_spent n m spent h = rw (member-set_insert m n spent, h) (ground arith)

mark_spent-member : (n : Bytes) (spent : NullifierSet) → member n (mark_spent spent n).1 ≡ true
unfolding mark_spent
mark_spent-member n spent = rw (member-set_insert n n spent, same_refl n) refl

reload_nullifiers-spent :
    (x : External) (texts : List Bytes) (spent : NullifierSet)
    → AreHashes x texts
    → (all_spent : NullifierSet) × (reload_nullifiers x texts spent ≡ ok all_spent)
      × All (λ s. (b : Bytes) × (x.hex_decode s ≡ some b) × (member b all_spent ≡ true)) texts
      × ((m : Bytes) → member m spent ≡ true → member m all_spent ≡ true)
unfolding reload_nullifiers
reload_nullifiers-spent x [] spent h = (spent, refl, tt, λ m h. h)
reload_nullifiers-spent x (s ∷ texts) spent ((b, read, long), rest) =
    let (all_spent, done, marked, kept) =
      reload_nullifiers-spent x texts (mark_spent spent b).1 rest in
    (
      all_spent,
      rw (hex_to_32-read x s b read long) done,
      ((b, read, kept b (mark_spent-member b spent)), marked),
      λ m h. kept m (member-mark_spent b m spent h),
    )

reload_nullifiers-AreHashes :
    (x : External) (texts : List Bytes) (spent all_spent : NullifierSet)
    → reload_nullifiers x texts spent ≡ ok all_spent
    → AreHashes x texts
unfolding reload_nullifiers hex_to_32
reload_nullifiers-AreHashes x [] spent all_spent h = tt
reload_nullifiers-AreHashes x (s ∷ texts) spent all_spent h =
    let (b, k1, r1) = >>=-eq-ok (hex_to_32 x s) _ h in
    let (raw, read, r2) = >>=-eq-ok (ok_or (x.hex_decode s) bad_hex) _ k1 in
    let (_, long, r3) = >>=-eq-ok (ensure (length raw == 32) bad_hex) _ r2 in
    (
      (raw, ok_or-ok _ _ raw read, ==→eq _ _ (ensure-ok _ _ long)),
      reload_nullifiers-AreHashes x texts (mark_spent spent b).1 all_spent r1,
    )

-- The store pins no newer checkpoint than the file.
abbrev pub IsNotNewer : Option (Bytes × ℕ) → ℕ → Type 0
IsNotNewer none tip_height = Unit {0}
IsNotNewer (some (seed, height)) tip_height = height ≤ tip_height

newer_checkpoint-kept :
    (x : External) (latest : Option (Bytes × ℕ)) (seed : Bytes) (tip_height : ℕ)
    → IsNotNewer latest tip_height
    → newer_checkpoint x latest seed tip_height ≡ ok (seed, tip_height)
unfolding newer_checkpoint
newer_checkpoint-kept x none seed tip_height h = refl
newer_checkpoint-kept x (some (seed_hex, height)) seed tip_height h =
    let low : ltb tip_height height ≡ false = ground arith in rw low refl

restore-current :
    (a : Adjuster)
    → min_bits ≤ a.current_bits
    → a.current_bits ≤ max_bits
    → restore a.current_bits a.epoch_start_ms a.epoch_start_height
      ≡ record a { last_adjustment = none }
unfolding restore
restore-current a low high =
    let bits : min (max a.current_bits min_bits) max_bits ≡ a.current_bits = omega arith in
    ap (λ b. record a { current_bits = b; last_adjustment = none }) bits

-- What a node holds that its file and its tables describe: hashes of 32 bytes, a work that fits a u128 and a
-- difficulty within its bounds.
pub record IsStorable (p : Replica) : Type 0 where
  pub genesis_length : length p.state.genesis_hash ≡ 32
  pub tip_length : length p.state.tip_hash ≡ 32
  pub seed_length : length p.state.btc_seed_hash ≡ 32
  pub work_fits : p.state.chain_work ≤ u128_max
  pub least_bits : min_bits ≤ p.adjuster.current_bits
  pub most_bits : p.adjuster.current_bits ≤ max_bits

-- A start needs every stored nullifier to be 32 bytes in hexadecimal; with any other text in the table, such as
-- one that a peer's record brought, the node does not come up.
pub start_node-AreHashes :
    (x : External) (j : Json) (fj : FileJson) (io : Bool) (s : NodeState) (st : BlockStore)
    (f : Option Bytes) (rows : List Row) (now : ℕ) (genesis : Bytes) (ts : ℕ) (q : Started)
    → start_node x j fj io s st f rows now genesis ts ≡ ok q
    → AreHashes x (all_nullifiers st)
unfolding start_node
start_node-AreHashes x j fj io s st f rows now genesis ts q h =
    let ((loaded, file), k1, r1) =
      >>=-eq-ok (load_or_create_chain_state x fj io f now genesis ts) _ h in
    let (seed, k2, r2) = >>=-eq-ok (hex_to_32 x loaded.resume.btc_seed_hash) _ r1 in
    let ((pinned, tip_height), k3, r3) =
      >>=-eq-ok
        (newer_checkpoint x (latest_checkpoint st) seed loaded.resume.btc_checkpoint_tip_height) _
        r2 in
    let (spent, k4, r4) = >>=-eq-ok (reload_nullifiers x (all_nullifiers st) s.nullifiers) _ r3 in
    reload_nullifiers-AreHashes x (all_nullifiers st) s.nullifiers spent k4

-- A restart comes up where the file was written, if the node's hashes, work and difficulty can be stored, the block
-- store has no newer checkpoint than the file, and every nullifier in it is 32 bytes in hexadecimal: with
-- the same genesis, tip, height, difficulty, Bitcoin seed and height, timestamp and work, with the adjuster
-- but for its last report, with the ledger of the rows up to that height, and with the randomness of every
-- stored block spent. Hexadecimal text and the text of the file are taken to read back.
pub start_node-resumes :
    (x : External) (j : Json) (fj : FileJson) (io : Bool) (s : NodeState) (st : BlockStore)
    (f : Option Bytes) (rows : List Row) (now now' ts : ℕ) (p : Replica)
    → HexReadsBack x
    → FileReadsBack fj
    → IsStorable p
    → IsNotNewer (latest_checkpoint st) p.state.btc_checkpoint_tip_height
    → AreHashes x (all_nullifiers st)
    → let saved =
        save_chain_state x fj true f now p.state.genesis_hash p.state.tip_hash p.state.chain_height
          (resume_of x p) in
      (q : Started) × (start_node x j fj io s st saved.1 rows now' p.state.genesis_hash ts ≡ ok q)
      × (q.replica.state.genesis_hash ≡ p.state.genesis_hash)
      × (q.replica.state.tip_hash ≡ p.state.tip_hash)
      × (q.replica.state.chain_height ≡ p.state.chain_height)
      × (q.replica.state.difficulty_bits ≡ p.adjuster.current_bits)
      × (q.replica.state.btc_seed_hash ≡ p.state.btc_seed_hash)
      × (q.replica.state.btc_checkpoint_tip_height ≡ p.state.btc_checkpoint_tip_height)
      × (q.replica.state.last_block_timestamp_ms ≡ p.state.last_block_timestamp_ms)
      × (q.replica.state.chain_work ≡ p.state.chain_work)
      × (q.replica.adjuster ≡ record p.adjuster { last_adjustment = none })
      × (q.replica.ledger ≡ open_scoped rows p.state.chain_height)
      × All
          (λ t.
            (b : Bytes) × (x.hex_decode t ≡ some b) × (member b q.replica.state.nullifiers ≡ true))
          (all_nullifiers st)
unfolding start_node load_or_create_chain_state save_chain_state resume_of come_up
start_node-resumes x j fj io s st f rows now now' ts p hex back ok_p newer hashes =
    let (all_spent, reloaded, marked, _) =
      reload_nullifiers-spent x (all_nullifiers st) s.nullifiers hashes in
    let resume = resume_of x p in
    let loaded : LoadedChainState = record {
      genesis_hash = p.state.genesis_hash;
      tip_hash = p.state.tip_hash;
      height = p.state.chain_height;
      created = false;
      resume = resume;
    } in
    let text =
      fj.to_text (
        chain_state_file x now p.state.genesis_hash p.state.tip_hash p.state.chain_height resume) in
    (
      come_up x j io s st (some text) rows loaded p.state.btc_seed_hash
          p.state.btc_checkpoint_tip_height all_spent,
      rw
          (
            load_text-saved x fj now p.state.chain_height p.state.genesis_hash p.state.tip_hash
                resume hex back ok_p.genesis_length ok_p.tip_length,
            hex_to_32-read x (x.hex_encode p.state.btc_seed_hash) p.state.btc_seed_hash
                (hex p.state.btc_seed_hash) ok_p.seed_length,
            newer_checkpoint-kept x (latest_checkpoint st) p.state.btc_seed_hash
                p.state.btc_checkpoint_tip_height newer,
            reloaded,
          )
          refl,
      refl,
      refl,
      refl,
      refl,
      refl,
      refl,
      refl,
      rw (parse_hex-lower_hex p.state.chain_work ok_p.work_fits) refl,
      restore-current p.adjuster ok_p.least_bits ok_p.most_bits,
      refl,
      marked,
    )
