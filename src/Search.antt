-- ===== src/Search.antt =====
-- The search for a nonce, `mine_block` of l1-chain/core/src/pow.rs: its threads as workers that take
-- one step at a time, in the order of a schedule. The counters of hashes and the clock are left out.
pub mod Winner
use bina_blockchain_l.Prelude.{
  ℕ, zero, suc, ◌+◌, ◌-◌, ◌*◌, ◌/◌, ◌%◌, ◌^◌, ◌≤◌, ◌<◌, min, max, ◌≡◌, refl, sym, ap, ◌∙◌, ◌≢◌, ◌↔◌,
  ◌⊎◌, inl, inr, Bool, true, false, not, ◌&&◌, ◌||◌, Option, none, some, List, [], ◌∷◌, ◌++◌, map,
  arith, dec_lt, ℕ_discrete, ltb, leb, ◌==◌, if◌then◌else◌, ltb→lt, ltb→le, lt→ltb, le→ltb, leb→le,
  le→leb, ==→eq, ==_refl, ==_ne, tests, Bool-cases, Option-cases, Bool-ext, length, take, drop,
  replicate, get_or, length-append, length-replicate, length-take, length-drop, take-append,
  drop-append, append_cancel, take_within, drop_within, All, All-append, all, filter, u64_mod,
  u64_max, saturating_add, checked_add, wrapping_add, saturating_sub, saturating_add_small,
  wrapping_add_small, Result, ok, err, ◌>>=◌, ◌>>◌, ensure, ok_or, is_ok, >>=-eq-ok, ok_injective,
  ensure-ok, Result-cases, Bytes, Bytes-discrete, bytes_lt, bytes_lt_irrefl, bytes_lt_trans,
  bytes_lt_total, bytes_lt_asymm, le_bytes, of_le_bytes, length-le_bytes, of_le_bytes-le_bytes,
  codes, le_bytes_injective, Key, bytes_key, nat_key, same, same→eq, same_refl, same_ne, member,
  member-append, set_insert, set_remove, member-set_insert, lookup, insert, erase, keys,
  lookup-insert, lookup-erase, member-keys-insert,
}
use bina_blockchain_l.External.{External}
use bina_blockchain_l.Block.{L1BlockHeader, header_hash, meets_difficulty}

-- Where a thread stands: before it reads the flag, before it tests its nonce, between raising the flag and
-- storing the winner, or returned.
pub data Phase : Type 0 where
  checking testing winning : ℕ → Phase
  stopped : Phase

pub record Pool : Type 0 where
  pub workers : List Phase
  pub found : Bool
  pub winner : Option ℕ

-- The threads `tid..`, each at the nonce of its number.
unfoldable pub spawn : ℕ → ℕ → List Phase
spawn tid zero = []
spawn tid (suc threads) = checking tid ∷ spawn (tid + 1) threads

unfoldable pub start_pool : ℕ → Pool
unfolding spawn
start_pool threads = record { workers = spawn 0 threads; found = false; winner = none }

-- What one worker's step does to its phase, to the flag and to the winner; `step` is the stride.
unfoldable pub act : (ℕ → Bool) → ℕ → Phase → Bool → Option ℕ → Phase × Bool × Option ℕ
act test step (checking n) found winner =
    if found then (stopped, found, winner) else (testing n, found, winner)
act test step (testing n) found winner =
    if test n then (winning n, true, winner) else (checking (wrapping_add n step), found, winner)
act test step (winning n) found winner = (stopped, found, some n)
act test step stopped found winner = (stopped, found, winner)

-- The step of the worker of an index; an index out of range does nothing.
unfoldable pub advance_at :
    (ℕ → Bool) → ℕ → ℕ → List Phase → Bool → Option ℕ → List Phase × Bool × Option ℕ
unfolding act
advance_at test step i [] found winner = ([], found, winner)
advance_at test step zero (w ∷ ws) found winner =
    let (w', found', winner') = act test step w found winner in (w' ∷ ws, found', winner')
advance_at test step (suc i) (w ∷ ws) found winner =
    let (ws', found', winner') = advance_at test step i ws found winner in
    (w ∷ ws', found', winner')

unfoldable pub advance : (ℕ → Bool) → ℕ → ℕ → Pool → Pool
unfolding advance_at
advance test step i p =
    let (ws, found, winner) = advance_at test step i p.workers p.found p.winner in
    record { workers = ws; found = found; winner = winner }

unfoldable pub run_schedule : (ℕ → Bool) → ℕ → List ℕ → Pool → Pool
unfolding advance
run_schedule test step [] p = p
run_schedule test step (i ∷ schedule) p = run_schedule test step schedule (advance test step i p)

abbrev pub is_stopped : Phase → Bool
is_stopped stopped = true
is_stopped (checking n) = false
is_stopped (testing n) = false
is_stopped (winning n) = false

-- `unwrap_or(0)`
abbrev pub nonce_or_zero : Option ℕ → ℕ
nonce_or_zero none = 0
nonce_or_zero (some n) = n

-- The test of a nonce for a block's template.
abbrev pub nonce_passes : External → L1BlockHeader → ℕ → Bool
nonce_passes x template n =
    meets_difficulty (header_hash x (record template { nonce = n })) template.difficulty_bits

-- `mine_block`: the header, once every thread was joined; `none` if the schedule leaves one running.
unfoldable pub mine_block : External → L1BlockHeader → ℕ → List ℕ → Option L1BlockHeader
unfolding run_schedule start_pool
mine_block x template threads schedule =
    let p = run_schedule (nonce_passes x template) threads schedule (start_pool threads) in
    if all is_stopped p.workers
    then some (record template { nonce = nonce_or_zero p.winner })
    else none
