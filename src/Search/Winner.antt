-- ===== src/Search/Winner.antt =====
-- What the search of l1-chain/core/src/pow.rs finds, whatever the order of its threads.
use bina_blockchain_l.Prelude.{
  ℕ, zero, suc, ◌+◌, ◌≤◌, ◌≡◌, refl, sym, ap, ◌∙◌, inl, inr, Bool, true, false, ◌||◌, Option, none,
  some, List, [], ◌∷◌, arith, if◌then◌else◌, Bool-cases, length, All, all, wrapping_add, bytes_key,
  nat_key,
}
use mathlib.Core.Path.{subst}
use bina_blockchain_l.External.{External}
use bina_blockchain_l.Block.{L1BlockHeader, header_hash, meets_difficulty}
use bina_blockchain_l.Search.{
  Phase, checking, testing, winning, stopped, Pool, spawn, start_pool, act, advance_at, advance,
  run_schedule, is_stopped, nonce_or_zero, nonce_passes, mine_block,
}

abbrev is_winning : Phase → Bool
is_winning (winning n) = true
is_winning (checking n) = false
is_winning (testing n) = false
is_winning stopped = false

abbrev any_winning : List Phase → Bool
any_winning [] = false
any_winning (w ∷ ws) = is_winning w || any_winning ws

abbrev is_some : Option ℕ → Bool
is_some none = false
is_some (some n) = true

-- A worker that won holds a nonce that passes, and one that returned saw the flag raised.
abbrev IsGood : (ℕ → Bool) → Bool → Phase → Type 0
IsGood test found (winning n) = test n ≡ true
IsGood test found stopped = found ≡ true
IsGood test found (checking n) = Unit {0}
IsGood test found (testing n) = Unit {0}

abbrev IsWon : (ℕ → Bool) → Option ℕ → Type 0
IsWon test none = Unit {0}
IsWon test (some n) = test n ≡ true

-- Raising the flag spoils no worker.
IsGood-raised :
    (test : ℕ → Bool) (found : Bool) (ws : List Phase)
    → All (IsGood test found) ws
    → All (IsGood test true) ws
IsGood-raised test found [] h = tt
IsGood-raised test found (checking n ∷ ws) h = (tt, IsGood-raised test found ws h.1)
IsGood-raised test found (testing n ∷ ws) h = (tt, IsGood-raised test found ws h.1)
IsGood-raised test found (winning n ∷ ws) h = (h.0, IsGood-raised test found ws h.1)
IsGood-raised test found (stopped ∷ ws) h = (refl, IsGood-raised test found ws h.1)

-- The state of the search, of the workers from some index on: they are good, and the flag is raised exactly
-- when a winner is stored or some worker is about to store one; `before` says so of those before them.
abbrev IsSoundWith : (ℕ → Bool) → Bool → List Phase → Bool → Option ℕ → Type 0
IsSoundWith test before ws found winner =
    All (IsGood test found) ws
    × IsWon test winner
    × (found ≡ (is_some winner || (before || any_winning ws)))

raised : (a b c : Bool) → true ≡ (a || (b || (true || c)))
raised a b c = ground arith

or_assoc : (a b c : Bool) → (a || (b || c)) ≡ ((a || b) || c)
or_assoc a b c = ground arith

test_lem :
    (test : ℕ → Bool) (step : ℕ) (before : Bool) (n : ℕ) (ws : List Phase) (found : Bool)
    (winner : Option ℕ)
    → IsSoundWith test before (testing n ∷ ws) found winner
    → (passes : Bool) → test n ≡ passes
    → let out : Phase × Bool × Option ℕ =
        if passes
        then (winning n, true, winner)
        else (checking (wrapping_add n step), found, winner) in
      IsSoundWith test before (out.0 ∷ ws) out.1 out.2 × (found ≡ true → out.1 ≡ true)
test_lem test step before n ws found winner h true e = (
  ((e, IsGood-raised test found ws h.0.1), h.1, raised (is_some winner) before (any_winning ws)),
  λ f. refl,
)
test_lem test step before n ws found winner h false e = (((tt, h.0.1), h.1, h.2), λ f. f)

IsGood-up :
    (test : ℕ → Bool) (found found' : Bool) (w : Phase)
    → (found ≡ true → found' ≡ true)
    → IsGood test found w
    → IsGood test found' w
IsGood-up test found found' (checking n) up h = tt
IsGood-up test found found' (testing n) up h = tt
IsGood-up test found found' (winning n) up h = h
IsGood-up test found found' stopped up h = up h

act-IsSound :
    (test : ℕ → Bool) (step : ℕ) (before : Bool) (w : Phase) (ws : List Phase) (found : Bool)
    (winner : Option ℕ)
    → IsSoundWith test before (w ∷ ws) found winner
    → let (w', found', winner') = act test step w found winner in
      IsSoundWith test before (w' ∷ ws) found' winner' × (found ≡ true → found' ≡ true)
unfolding act
act-IsSound test step before (checking n) ws true winner h = (((refl, h.0.1), h.1, h.2), λ f. f)
act-IsSound test step before (checking n) ws false winner h = (((tt, h.0.1), h.1, h.2), λ f. f)
act-IsSound test step before (testing n) ws found winner h =
    test_lem test step before n ws found winner h (test n) refl
act-IsSound test step before (winning n) ws found winner h =
    let up : found ≡ true = h.2 ∙ sym (raised (is_some winner) before (any_winning ws)) in
    (((up, h.0.1), h.0.0, up), λ f. f)
act-IsSound test step before stopped ws found winner h = (h, λ f. f)

advance_at-IsSound :
    (test : ℕ → Bool) (step i : ℕ) (before : Bool) (ws : List Phase) (found : Bool)
    (winner : Option ℕ)
    → IsSoundWith test before ws found winner
    → let (ws', found', winner') = advance_at test step i ws found winner in
      IsSoundWith test before ws' found' winner' × (found ≡ true → found' ≡ true)
unfolding advance_at
advance_at-IsSound test step i before [] found winner h = (h, λ f. f)
advance_at-IsSound test step zero before (w ∷ ws) found winner h =
    act-IsSound test step before w ws found winner h
advance_at-IsSound test step (suc i) before (w ∷ ws) found winner h =
    let (rest, up) = advance_at-IsSound test step i (before || is_winning w) ws found winner (
      h.0.1,
      h.1,
      h.2 ∙ ap (λ b. is_some winner || b) (or_assoc before (is_winning w) (any_winning ws)),
    ) in
    let found' = (advance_at test step i ws found winner).1 in
    let winner' = (advance_at test step i ws found winner).2 in
    let ws' = (advance_at test step i ws found winner).0 in
    (
      (
        (IsGood-up test found found' w up h.0.0, rest.0),
        rest.1,
        rest.2
            ∙ ap (λ b. is_some winner' || b)
                (sym (or_assoc before (is_winning w) (any_winning ws'))),
      ),
      up,
    )

-- Whatever the order of the steps, the search stays sound.
run_schedule-IsSound :
    (test : ℕ → Bool) (step : ℕ) (schedule : List ℕ) (p : Pool)
    → IsSoundWith test false p.workers p.found p.winner
    → let q = run_schedule test step schedule p in IsSoundWith test false q.workers q.found q.winner
unfolding run_schedule advance
run_schedule-IsSound test step [] p h = h
run_schedule-IsSound test step (i ∷ schedule) p h =
    run_schedule-IsSound test step schedule (advance test step i p)
      (advance_at-IsSound test step i false p.workers p.found p.winner h).0

spawn-IsSound :
    (test : ℕ → Bool) (tid threads : ℕ)
    → All (IsGood test false) (spawn tid threads) × (any_winning (spawn tid threads) ≡ false)
unfolding spawn
spawn-IsSound test tid zero = (tt, refl)
spawn-IsSound test tid (suc threads) =
    let rest = spawn-IsSound test (tid + 1) threads in ((tt, rest.0), rest.1)

stopped_lem : (ws : List Phase) → all is_stopped ws ≡ true → any_winning ws ≡ false
stopped_lem [] h = refl
stopped_lem (checking n ∷ ws) h = cc
stopped_lem (testing n ∷ ws) h = cc
stopped_lem (winning n ∷ ws) h = cc
stopped_lem (stopped ∷ ws) h = stopped_lem ws h

-- A search whose workers have all returned, of which there is one, has a winner.
all_stopped-winner :
    (test : ℕ → Bool) (ws : List Phase) (found : Bool) (winner : Option ℕ)
    → IsSoundWith test false ws found winner
    → all is_stopped ws ≡ true
    → 1 ≤ length ws
    → test (nonce_or_zero winner) ≡ true
all_stopped-winner test [] found winner h stop some_worker = absurd (ground arith)
all_stopped-winner test (checking n ∷ ws) found winner h stop some_worker = cc
all_stopped-winner test (testing n ∷ ws) found winner h stop some_worker = cc
all_stopped-winner test (winning n ∷ ws) found winner h stop some_worker = cc
all_stopped-winner test (stopped ∷ ws) found (some n) h stop some_worker = h.1
all_stopped-winner test (stopped ∷ ws) found none h stop some_worker =
    let down : found ≡ false = h.2 ∙ stopped_lem ws stop in let up : found ≡ true = h.0.0 in cc

length-advance_at :
    (test : ℕ → Bool) (step i : ℕ) (ws : List Phase) (found : Bool) (winner : Option ℕ)
    → length (advance_at test step i ws found winner).0 ≡ length ws
unfolding advance_at
length-advance_at test step i [] found winner = refl
length-advance_at test step zero (w ∷ ws) found winner = refl
length-advance_at test step (suc i) (w ∷ ws) found winner =
    ap suc (length-advance_at test step i ws found winner)

length-run_schedule :
    (test : ℕ → Bool) (step : ℕ) (schedule : List ℕ) (p : Pool)
    → length (run_schedule test step schedule p).workers ≡ length p.workers
unfolding run_schedule advance
length-run_schedule test step [] p = refl
length-run_schedule test step (i ∷ schedule) p =
    length-run_schedule test step schedule (advance test step i p)
    ∙ length-advance_at test step i p.workers p.found p.winner

length-spawn : (tid threads : ℕ) → length (spawn tid threads) ≡ threads
unfolding spawn
length-spawn tid zero = refl
length-spawn tid (suc threads) = ap suc (length-spawn (tid + 1) threads)

-- In whatever order the threads take their steps, at least one of them: if all have returned, the header that
-- the search answers meets its difficulty, and differs from the template in its nonce only.
pub mine_block-meets_difficulty :
    (x : External) (template header : L1BlockHeader) (threads : ℕ) (schedule : List ℕ)
    → 1 ≤ threads
    → mine_block x template threads schedule ≡ some header
    → (meets_difficulty (header_hash x header) template.difficulty_bits ≡ true)
      × (header ≡ record template { nonce = header.nonce })
unfolding mine_block start_pool
mine_block-meets_difficulty x template header threads schedule some_thread h =
    let test = nonce_passes x template in
    let p = run_schedule test threads schedule (start_pool threads) in
    elim (Bool-cases (all is_stopped p.workers)) [
      | inr running ↦
          let clash : ◌≡◌ {A = Option L1BlockHeader} none (some header) = rw running at h in cc
      | inl stop ↦
          let made : some (record template { nonce = nonce_or_zero p.winner }) ≡ some header =
            rw stop at h in
          let same_header : record template { nonce = nonce_or_zero p.winner } ≡ header = cc in
          let sound =
            run_schedule-IsSound test threads schedule (start_pool threads)
              ((spawn-IsSound test 0 threads).0, tt, sym (spawn-IsSound test 0 threads).1) in
          let passes = all_stopped-winner test p.workers p.found p.winner sound stop (
            rw
              (
                length-run_schedule test threads schedule (start_pool threads),
                length-spawn 0 threads,
              )
              some_thread) in
          subst
            (λ h.
              (meets_difficulty (header_hash x h) template.difficulty_bits ≡ true)
              × (h ≡ record template { nonce = h.nonce }))
            same_header (passes, refl)
    ]
