-- ===== src/Observation.antt =====
-- The observation of Bitcoin: l1-chain/node/src/bitcoin_entropy.rs, its helpers of
-- l1-chain/core/src/bitcoin_entropy.rs, and `fetch_btc` of l1-chain/node/src/main.rs. The answers of the two
-- providers are values; `none` is a request that failed.
pub mod Outcome
use bina_blockchain_l.Prelude.{
  ℕ, zero, suc, ◌+◌, ◌-◌, ◌*◌, ◌/◌, ◌%◌, ◌^◌, ◌≤◌, ◌<◌, min, max, ◌≡◌, refl, sym, ap, ◌∙◌, ◌≢◌, ◌↔◌,
  ◌⊎◌, inl, inr, Bool, true, false, not, ◌&&◌, ◌||◌, Option, none, some, List, [], ◌∷◌, ◌++◌, map,
  arith, dec_lt, ℕ_discrete, ltb, leb, ◌==◌, if◌then◌else◌, ltb→lt, ltb→le, lt→ltb, le→ltb, leb→le,
  le→leb, ==→eq, ==_refl, ==_ne, tests, Bool-cases, Option-cases, Bool-ext, length, take, drop,
  replicate, get_or, length-append, length-replicate, length-take, length-drop, take-append,
  drop-append, append_cancel, take_within, drop_within, All, All-append, all, filter, u64_mod,
  u64_max, saturating_add, checked_add, wrapping_add, saturating_sub, saturating_add_small,
  wrapping_add_small, Result, ok, err, ◌>>=◌, ◌>>◌, ensure, ok_or, is_ok, >>=-eq-ok, ok_injective,
  ensure-ok, Result-cases, Bytes, Bytes-discrete, bytes_lt, bytes_lt_irrefl, bytes_lt_trans,
  bytes_lt_total, bytes_lt_asymm, le_bytes, of_le_bytes, length-le_bytes, of_le_bytes-le_bytes,
  codes, le_bytes_injective, Key, bytes_key, nat_key, same, same→eq, same_refl, same_ne, member,
  member-append, set_insert, set_remove, member-set_insert, lookup, insert, erase, keys,
  lookup-insert, lookup-erase, member-keys-insert,
}
use Prim.Native.Nat.{bit_xor}
use bina_blockchain_l.External.{External}
use bina_blockchain_l.Checkpoint.{BtcEntropyState}

abbrev pub utxo_tag : Bytes
utxo_tag = codes "BINA-UTXO-v1"

pub record BtcEntropyConfig : Type 0 where
  pub allow_coinbase_fallback : Bool
  pub allow_provider_fallback : Bool

unfoldable pub default_config : BtcEntropyConfig
default_config = record { allow_coinbase_fallback = true; allow_provider_fallback = true }

pub record BtcEntropyFetchProof : Type 0 where
  pub mempool_tip_hash : Bytes
  pub mempool_tip_height : ℕ
  pub mempool_merkle_root : Bytes
  pub mempool_block_nonce : ℕ
  pub mempool_block_timestamp : ℕ
  pub coinbase_txid : Option Bytes
  pub coinbase_script_present : Bool
  pub coinbase_fallback_used : Bool
  pub blockstream_tip_hash : Option Bytes
  pub provider_tip_divergence : Bool
  pub provider_fallback_used : Bool
  pub fetched_at_unix : ℕ

pub record LiveEntropyResult : Type 0 where
  pub state : BtcEntropyState
  pub proof : BtcEntropyFetchProof

pub record BlockInfo : Type 0 where
  pub height : ℕ
  pub merkle_root : Bytes
  pub nonce : ℕ
  pub timestamp : ℕ

pub record TxInput : Type 0 where
  pub coinbase : Option Bytes
  pub scriptsig : Option Bytes

-- What the providers answer; the identifiers are parsed from JSON, and a transaction is its inputs.
pub record Answers : Type 0 where
  pub mempool_tip : Option Bytes
  pub block_info : Bytes → Option BlockInfo
  pub txids : Bytes → Option (List Bytes)
  pub coinbase_tx : Bytes → Option (List TxInput)
  pub blockstream_tip : Option Bytes

pub data FetchError : Type 0 where
  request_failed not_32_bytes no_transactions bad_script : FetchError

-- `xor32`
abbrev pub xor32 : Bytes → Bytes → Bytes
xor32 [] bs = []
xor32 (a ∷ as') [] = []
xor32 (a ∷ as') (b ∷ bs) = bit_xor a b ∷ xor32 as' bs

-- `fallback_pool`
unfoldable pub fallback_pool : ℕ → ℕ → Bytes → Bytes
fallback_pool nonce timestamp tip_hash =
    xor32 (le_bytes 8 nonce ++ (le_bytes 8 timestamp ++ replicate 16 0)) tip_hash

pub record CoinbaseEntropyInfo : Type 0 where
  pub entropy : Bytes
  pub coinbase_txid : Bytes
  pub script_present : Bool

pub record StalePoolResult : Type 0 where
  pub stale_xor_pool : Bytes
  pub blockstream_tip_hash : Option Bytes
  pub provider_tip_divergence : Bool
  pub provider_fallback_used : Bool

-- The first of a list, `first()`.
abbrev pub first {ℓ} : {A : Type ℓ} → List A → Option A
first [] = none
first (a ∷ l) = some a

abbrev pub or_else : Option Bytes → Option Bytes → Option Bytes
or_else none b = b
or_else (some a) b = some a

-- The script of the first input: `scriptsig`, or else `coinbase`, or else empty.
abbrev pub script_of : Option TxInput → Bytes
script_of none = []
script_of (some i) = elim (or_else i.scriptsig i.coinbase) [ none ↦ [] | some s ↦ s ]

-- The observation and its provenance, from what was fetched.
unfoldable pub live_result :
    ℕ
    → Bytes
    → Bytes
    → BlockInfo
    → Bytes × Option Bytes × Bool × Bool
    → StalePoolResult
    → LiveEntropyResult
live_result now tip_hex tip_hash block (entropy, txid, present, used) stale = record {
  state = record {
    tip_hash = tip_hash;
    utxo_entropy = entropy;
    stale_xor_pool = stale.stale_xor_pool;
    seed_timestamp = block.timestamp;
    tip_height = block.height;
    fork_detected = stale.provider_tip_divergence;
  };
  proof = record {
    mempool_tip_hash = tip_hex;
    mempool_tip_height = block.height;
    mempool_merkle_root = block.merkle_root;
    mempool_block_nonce = block.nonce;
    mempool_block_timestamp = block.timestamp;
    coinbase_txid = txid;
    coinbase_script_present = present;
    coinbase_fallback_used = used;
    blockstream_tip_hash = stale.blockstream_tip_hash;
    provider_tip_divergence = stale.provider_tip_divergence;
    provider_fallback_used = stale.provider_fallback_used;
    fetched_at_unix = now;
  };
}

module _ (x : External) where
  -- `hex_to_32`; the 64 characters that it asks for are the 32 bytes that they decode to.
  unfoldable pub hash_from : Bytes → Result FetchError Bytes
  hash_from s = do
    b ← ok_or (x.hex_decode (x.trim s)) not_32_bytes
    ensure (length b == 32) not_32_bytes
    ok b

  -- The entropy of a coinbase script: its keyed hash, or the Merkle root if there is no script.
  script_entropy : Bytes → Bytes → Bytes → Result FetchError CoinbaseEntropyInfo
  script_entropy txid [] merkle_bytes =
      ok (record { entropy = merkle_bytes; coinbase_txid = txid; script_present = false })
  script_entropy txid (c ∷ cs) merkle_bytes = do
    script ← ok_or (x.hex_decode (c ∷ cs)) bad_script
    ok (record {
      entropy = xor32 (x.blake3 (utxo_tag ++ script)) merkle_bytes;
      coinbase_txid = txid;
      script_present = true;
    })

  -- `fetch_coinbase_entropy`
  unfoldable pub fetch_coinbase_entropy :
      Answers → Bytes → Bytes → Result FetchError CoinbaseEntropyInfo
  unfolding script_entropy
  fetch_coinbase_entropy w tip_hex merkle_bytes = do
    txids ← ok_or (w.txids tip_hex) request_failed
    txid ← ok_or (first txids) no_transactions
    vin ← ok_or (w.coinbase_tx txid) request_failed
    script_entropy txid (script_of (first vin)) merkle_bytes

  -- `build_stale_pool`
  unfoldable pub build_stale_pool :
      BtcEntropyConfig → Option Bytes → Bytes → Bytes → ℕ → ℕ → Result FetchError StalePoolResult
  unfolding hash_from fallback_pool
  build_stale_pool cfg (some answer) mempool_tip tip_hash nonce timestamp =
      let bs_hex = x.trim answer in
      if not (same bs_hex mempool_tip)
      then (do
        bs_hash ← hash_from bs_hex
        ok (record {
          stale_xor_pool = xor32 tip_hash bs_hash;
          blockstream_tip_hash = some bs_hex;
          provider_tip_divergence = true;
          provider_fallback_used = false;
        }))
      else ok (record {
        stale_xor_pool = fallback_pool nonce timestamp tip_hash;
        blockstream_tip_hash = some bs_hex;
        provider_tip_divergence = false;
        provider_fallback_used = false;
      })
  build_stale_pool cfg none mempool_tip tip_hash nonce timestamp =
      if cfg.allow_provider_fallback
      then ok (record {
        stale_xor_pool = fallback_pool nonce timestamp tip_hash;
        blockstream_tip_hash = none;
        provider_tip_divergence = false;
        provider_fallback_used = true;
      })
      else err request_failed

  -- The entropy of the coinbase, its transaction, whether a script is present, and whether the Merkle root
  -- stands in for it.
  unfoldable pub coinbase_or_root :
      BtcEntropyConfig
      → Result FetchError CoinbaseEntropyInfo
      → Bytes
      → Result FetchError (Bytes × Option Bytes × Bool × Bool)
  coinbase_or_root cfg (ok info) merkle_bytes =
      ok (info.entropy, some info.coinbase_txid, info.script_present, false)
  coinbase_or_root cfg (err e) merkle_bytes =
      if cfg.allow_coinbase_fallback then ok (merkle_bytes, none, false, true) else err e

  -- `fetch_live_entropy_with_config`, at the clock's value.
  unfoldable pub fetch_live_entropy_with_config :
      BtcEntropyConfig → Answers → ℕ → Result FetchError LiveEntropyResult
  unfolding hash_from fetch_coinbase_entropy build_stale_pool coinbase_or_root live_result
  fetch_live_entropy_with_config cfg w now = do
    answer ← ok_or w.mempool_tip request_failed
    let tip_hex = x.trim answer
    tip_hash ← hash_from tip_hex
    block ← ok_or (w.block_info tip_hex) request_failed
    merkle_bytes ← hash_from block.merkle_root
    (entropy, txid, present, used) ←
        coinbase_or_root cfg (fetch_coinbase_entropy w tip_hex merkle_bytes) merkle_bytes
    stale ← build_stale_pool cfg w.blockstream_tip tip_hex tip_hash block.nonce block.timestamp
    ok (live_result now tip_hex tip_hash block (entropy, txid, present, used) stale)

-- `BtcEntropyState::mock`
unfoldable pub mock : BtcEntropyState
mock = record {
  tip_hash = 222 ∷ 173 ∷ 190 ∷ 239 ∷ replicate 28 0;
  utxo_entropy = 202 ∷ 254 ∷ 186 ∷ 190 ∷ replicate 28 0;
  stale_xor_pool = replicate 32 0;
  seed_timestamp = 0;
  tip_height = 0;
  fork_detected = false;
}

-- `fetch_btc`
unfoldable pub fetch_btc : External → Answers → ℕ → Option BtcEntropyState → BtcEntropyState
unfolding fetch_live_entropy_with_config default_config mock
fetch_btc x w now previous = elim (fetch_live_entropy_with_config x default_config w now) [
  | ok r ↦ r.state
  | err e ↦ elim previous [ none ↦ mock | some p ↦ p ]
]
