-- ===== src/Tests/Encodings.antt =====
-- Encodings of transactions and of the chain's file that read back, for the tests of the stores.
use bina_blockchain_l.Prelude.{
  ℕ, ◌≡◌, refl, ap, ◌∙◌, Option, none, some, [], ◌∷◌, ◌++◌, length, take, drop, take-append,
  drop-append, Bytes, bytes_key, nat_key,
}
use bina_blockchain_l.Transaction.{SignedTransaction}
use bina_blockchain_l.Store.{Json}
use bina_blockchain_l.Store.Rows.{ReadsBack}
use bina_blockchain_l.Node.Startup.{ChainStateFile, FileJson}
use bina_blockchain_l.Node.Startup.Resume.{FileReadsBack}

-- Four strings after their lengths.
unfoldable pub pack : Bytes → Bytes → Bytes → Bytes → Bytes
pack a b c d = length a ∷ length b ∷ length c ∷ (a ++ (b ++ (c ++ d)))

unfoldable pub unpack : Bytes → Option (Bytes × Bytes × Bytes × Bytes)
unpack (la ∷ lb ∷ lc ∷ rest) =
    let r1 = drop la rest in
    let r2 = drop lb r1 in some (take la rest, take lb r1, take lc r2, drop lc r2)
unpack other = none

unpack-pack : (a b c d : Bytes) → unpack (pack a b c d) ≡ some (a, b, c, d)
unfolding pack unpack
unpack-pack a b c d =
    rw
      (
        drop-append (length a) a (b ++ (c ++ d)) refl,
        take-append (length a) a (b ++ (c ++ d)) refl,
        drop-append (length b) b (c ++ d) refl,
        take-append (length b) b (c ++ d) refl,
        drop-append (length c) c d refl,
        take-append (length c) c d refl,
      )
      refl

abbrev write_tx : SignedTransaction → Bytes
write_tx t = t.tx.amount ∷ t.tx.nonce ∷ t.tx.fee ∷ pack t.tx.from t.tx.to t.public_key t.signature

abbrev tx_from : ℕ → ℕ → ℕ → Option (Bytes × Bytes × Bytes × Bytes) → Option SignedTransaction
tx_from amount nonce fee none = none
tx_from amount nonce fee (some (from, to, key, signature)) = some (record {
  tx = record { from = from; to = to; amount = amount; nonce = nonce; fee = fee };
  public_key = key;
  signature = signature;
})

abbrev read_tx : Bytes → Option SignedTransaction
read_tx (amount ∷ nonce ∷ fee ∷ rest) = tx_from amount nonce fee (unpack rest)
read_tx other = none

abbrev pub toy_json : Json
toy_json = record { to_json = write_tx; from_json = read_tx }

pub toy_json-ReadsBack : ReadsBack toy_json
toy_json-ReadsBack t =
    ap (tx_from t.tx.amount t.tx.nonce t.tx.fee)
      (unpack-pack t.tx.from t.tx.to t.public_key t.signature)

abbrev write_file : ChainStateFile → Bytes
write_file f =
    let r = f.resume in
    f.version
    ∷ f.height
    ∷ f.updated_at
    ∷ r.difficulty_bits
    ∷ r.epoch_start_ms
    ∷ r.epoch_start_height
    ∷ r.btc_checkpoint_tip_height
    ∷ r.last_block_timestamp_ms
    ∷ pack f.network f.genesis_hash f.tip_hash (pack r.btc_seed_hash r.chain_work_hex [] [])

-- The numbers of a file.
record Numbers : Type 0 where
  version : ℕ
  height : ℕ
  updated : ℕ
  bits : ℕ
  start_ms : ℕ
  start_height : ℕ
  tip_height : ℕ
  time : ℕ

abbrev file_from :
    Numbers → Bytes × Bytes × Bytes → Option (Bytes × Bytes × Bytes × Bytes) → Option ChainStateFile
file_from n (network, genesis, tip) none = none
file_from n (network, genesis, tip) (some (seed, work, _, _)) = some (record {
  version = n.version;
  network = network;
  genesis_hash = genesis;
  tip_hash = tip;
  height = n.height;
  updated_at = n.updated;
  resume = record {
    difficulty_bits = n.bits;
    epoch_start_ms = n.start_ms;
    epoch_start_height = n.start_height;
    btc_seed_hash = seed;
    btc_checkpoint_tip_height = n.tip_height;
    last_block_timestamp_ms = n.time;
    chain_work_hex = work;
  };
})

abbrev outer_from : Numbers → Option (Bytes × Bytes × Bytes × Bytes) → Option ChainStateFile
outer_from n none = none
outer_from n (some (network, genesis, tip, rest)) =
    file_from n (network, genesis, tip) (unpack rest)

abbrev read_file : Bytes → Option ChainStateFile
read_file (version ∷ height ∷ updated ∷ bits ∷ start_ms ∷ start_height ∷ tip_height ∷ time ∷ rest) =
    outer_from
      (record {
        version = version;
        height = height;
        updated = updated;
        bits = bits;
        start_ms = start_ms;
        start_height = start_height;
        tip_height = tip_height;
        time = time;
      })
      (unpack rest)
read_file other = none

abbrev pub toy_file_json : FileJson
toy_file_json = record { to_text = write_file; from_text = read_file }

pub toy_file_json-FileReadsBack : FileReadsBack toy_file_json
toy_file_json-FileReadsBack f =
    let r = f.resume in
    let n : Numbers = record {
      version = f.version;
      height = f.height;
      updated = f.updated_at;
      bits = r.difficulty_bits;
      start_ms = r.epoch_start_ms;
      start_height = r.epoch_start_height;
      tip_height = r.btc_checkpoint_tip_height;
      time = r.last_block_timestamp_ms;
    } in
    ap (outer_from n) (
      unpack-pack f.network f.genesis_hash f.tip_hash (pack r.btc_seed_hash r.chain_work_hex [] []))
    ∙ ap (file_from n (f.network, f.genesis_hash, f.tip_hash))
        (unpack-pack r.btc_seed_hash r.chain_work_hex [] [])
