-- ===== src/Observation/Outcome.antt =====
-- What an observation holds: `fetch_live_entropy_with_config` of
-- l1-chain/node/src/bitcoin_entropy.rs.
use bina_blockchain_l.Prelude.{
  ℕ, ◌≡◌, refl, Bool, true, false, Option, none, some, Result, ok, err, Bytes, bytes_key, nat_key,
  same,
}
use bina_blockchain_l.External.{External}
use bina_blockchain_l.Observation.{
  default_config, LiveEntropyResult, BlockInfo, Answers, FetchError, hash_from, StalePoolResult,
  CoinbaseEntropyInfo, fetch_coinbase_entropy, build_stale_pool, coinbase_or_root, fallback_pool,
  live_result, fetch_live_entropy_with_config,
}

coinbase_or_root-ok :
    (x : External) (r : Result FetchError CoinbaseEntropyInfo) (merkle : Bytes)
    → (out : Bytes × Option Bytes × Bool × Bool) × (coinbase_or_root x default_config r merkle
        ≡ ok out)
unfolding coinbase_or_root default_config
coinbase_or_root-ok x (ok info) merkle = (_, refl)
coinbase_or_root-ok x (err e) merkle = (_, refl)

build_stale_pool-agreed :
    (x : External) (answer : Option Bytes) (tip_hex tip_hash : Bytes) (nonce timestamp : ℕ)
    → ((other : Bytes) → answer ≡ some other → same (x.trim other) tip_hex ≡ true)
    → (s : StalePoolResult) × (build_stale_pool x default_config answer tip_hex tip_hash nonce
          timestamp
        ≡ ok s)
      × (s.provider_tip_divergence ≡ false)
unfolding build_stale_pool default_config
build_stale_pool-agreed x none tip_hex tip_hash nonce timestamp agree = (_, refl, refl)
build_stale_pool-agreed x (some other) tip_hex tip_hash nonce timestamp agree = (
  record {
    stale_xor_pool = fallback_pool nonce timestamp tip_hash;
    blockstream_tip_hash = some (x.trim other);
    provider_tip_divergence = false;
    provider_fallback_used = false;
  },
  rw (agree other refl) refl,
  refl,
)

-- Where the main provider answers and both fallbacks are allowed, an observation can fail only on a second
-- provider that answers with another text that is no hash: neither its silence nor anything about the coinbase
-- makes it fail.
pub fetch_live_entropy-answers :
    (x : External) (w : Answers) (now : ℕ) (answer tip_hash merkle : Bytes) (block : BlockInfo)
    → w.mempool_tip ≡ some answer
    → hash_from x (x.trim answer) ≡ ok tip_hash
    → w.block_info (x.trim answer) ≡ some block
    → hash_from x block.merkle_root ≡ ok merkle
    → ((other : Bytes)
        → w.blockstream_tip ≡ some other
        → same (x.trim other) (x.trim answer) ≡ true)
    → (r : LiveEntropyResult) × (fetch_live_entropy_with_config x default_config w now ≡ ok r)
      × (r.state.tip_hash ≡ tip_hash)
      × (r.state.tip_height ≡ block.height)
      × (r.state.seed_timestamp ≡ block.timestamp)
      × (r.state.fork_detected ≡ false)
unfolding fetch_live_entropy_with_config live_result
fetch_live_entropy-answers x w now answer tip_hash merkle block e1 e2 e3 e4 agree =
    let (c, coinbase) =
      coinbase_or_root-ok x (fetch_coinbase_entropy x w (x.trim answer) merkle) merkle in
    let (s, stale, same_tip) =
      build_stale_pool-agreed x w.blockstream_tip (x.trim answer) tip_hash block.nonce
        block.timestamp agree in
    (
      live_result now (x.trim answer) tip_hash block c s,
      rw (e1, e2, e3, e4, coinbase, stale) refl,
      refl,
      refl,
      refl,
      same_tip,
    )
