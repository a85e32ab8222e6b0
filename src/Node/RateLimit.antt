-- ===== src/Node/RateLimit.antt =====
-- `RateLimiter` of l1-chain/node/src/main.rs: a budget of requests for each address in a fixed window.
-- The clock is the argument `now`, in milliseconds, and never runs backwards.
use bina_blockchain_l.Prelude.{
  ℕ, ◌+◌, ◌-◌, ◌%◌, Bool, true, Option, none, some, List, [], ◌∷◌, ltb, leb, if◌then◌else◌, length,
  Bytes, bytes_key, nat_key, lookup, insert,
}

abbrev pub rate_limit_window : ℕ
rate_limit_window = 10000

abbrev pub rate_limit_max_requests : ℕ
rate_limit_max_requests = 200

-- The start of the window and the number of requests in it, by address.
abbrev pub Buckets : Type 0
Buckets = List (Bytes × (ℕ × ℕ))

-- `buckets.retain`
retain_recent : ℕ → Buckets → Buckets
retain_recent now [] = []
retain_recent now ((ip, entry) ∷ m) =
    if ltb (now - entry.0) rate_limit_window
    then (ip, entry) ∷ retain_recent now m
    else retain_recent now m

-- One request to an entry; the counter is a u32.
unfoldable pub allow_entry : ℕ → ℕ × ℕ → Bool × (ℕ × ℕ)
allow_entry now (started, count) =
    if leb rate_limit_window (now - started)
    then (true, (now, 1))
    else let counted = (count + 1) % 4294967296 in
      (leb counted rate_limit_max_requests, (started, counted))

entry_or_new : ℕ → Option (ℕ × ℕ) → ℕ × ℕ
entry_or_new now none = (now, 0)
entry_or_new now (some e) = e

unfoldable pub allow : Buckets → ℕ → Bytes → Bool × Buckets
unfolding retain_recent entry_or_new
allow buckets now ip =
    let kept = if ltb 50000 (length buckets) then retain_recent now buckets else buckets in
    let entry = entry_or_new now (lookup ip kept) in
    let (granted, next) = allow_entry now entry in (granted, insert ip next kept)
