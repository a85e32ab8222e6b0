-- ===== src/Block/Difficulty.antt =====
-- The two views of the work of a hash in l1-chain/core/src/block.rs agree.
use bina_blockchain_l.Prelude.{
  ap, ℕ, zero, suc, ◌+◌, ◌*◌, ◌/◌, ◌%◌, ◌≤◌, ◌<◌, ◌≡◌, refl, ◌∙◌, ◌≢◌, inl, inr, Bool, true, false,
  not, ◌&&◌, [], ◌∷◌, arith, ltb, leb, ◌==◌, if◌then◌else◌, ==_ne, Bool-cases, length, take, get_or,
  All, Bytes, bytes_key, nat_key,
}
use bina_blockchain_l.Block.{
  all_zero, top_bits_zero, meets_difficulty, leading_zeros, count_zero_bits, leading_zero_bits,
}

all_below : ℕ → (ℕ → Bool) → Bool
all_below zero p = true
all_below (suc n) p = p n && all_below n p

all_below_sound : (n : ℕ) (p : ℕ → Bool) (i : ℕ) → all_below n p ≡ true → i < n → p i ≡ true
unfolding all_below
all_below_sound zero p i h lt = absurd (omega arith)
all_below_sound (suc n) p i h lt = ground (arith, all_below_sound n p i)

agree : Bool → Bool → Bool
agree true b = b
agree false b = not b

agree→eq : (a b : Bool) → agree a b ≡ true → a ≡ b
unfolding agree
agree→eq a b h = ground arith

-- All bytes and all remainders, by evaluation.
byte_table :
    all_below 256 (λ b.
      all_below 8
        (λ r. agree (if ltb 0 r then top_bits_zero b r else true) (leb r (leading_zeros b))))
    ≡ true
unfolding all_below agree top_bits_zero leading_zeros
byte_table = refl

byte_test :
    (b r : ℕ)
    → b < 256
    → r < 8
    → (if ltb 0 r then top_bits_zero b r else true) ≡ leb r (leading_zeros b)
byte_test b r hb hr = agree→eq _ _ (
    all_below_sound 8
      (λ r. agree (if ltb 0 r then top_bits_zero b r else true) (leb r (leading_zeros b))) r
      (all_below_sound 256
        (λ b.
          all_below 8
            (λ r. agree (if ltb 0 r then top_bits_zero b r else true) (leb r (leading_zeros b))))
        b byte_table hb)
      hr)

leading_zeros-lt : (b : ℕ) → b ≢ 0 → leading_zeros b < 8
unfolding leading_zeros
leading_zeros-lt b h = ground arith

-- The loop adds to its counter what it would count from zero.
count_zero_bits-add : (c : ℕ) (bs : Bytes) → count_zero_bits c bs ≡ c + count_zero_bits 0 bs
unfolding count_zero_bits
count_zero_bits-add c [] = omega arith
count_zero_bits-add c (b ∷ bs) = elim (Bool-cases (b == 0)) [
  | inl z ↦ rw z (omega (arith, count_zero_bits-add (c + 8) bs, count_zero_bits-add 8 bs))
  | inr nz ↦ rw nz (omega arith)
]

count-zero : (bs : Bytes) → leading_zero_bits (0 ∷ bs) ≡ 8 + leading_zero_bits bs
unfolding leading_zero_bits
count-zero bs = count_zero_bits-add 8 bs

count-nonzero : (b : ℕ) (bs : Bytes) → b ≢ 0 → leading_zero_bits (b ∷ bs) ≡ leading_zeros b
unfolding leading_zero_bits
count-nonzero b bs h = rw (==_ne b 0 h) (omega arith)

-- `meets_difficulty` with the byte and bit counts apart, on a hash of any length.
check : ℕ → ℕ → Bytes → Bool
check k r hash =
    all_zero (take k hash)
    && (if ltb 0 r && ltb k (length hash) then top_bits_zero (get_or hash k 0) r else true)

leading_zeros_zero : leading_zeros 0 ≡ 8
unfolding leading_zeros
leading_zeros_zero = refl

check_first :
    (r b : ℕ) (bs : Bytes)
    → b < 256
    → r < 8
    → check 0 r (b ∷ bs) ≡ leb r (leading_zero_bits (b ∷ bs))
unfolding check
check_first r zero bs hb hr = ground (arith, byte_test 0 r hb hr, count-zero bs, leading_zeros_zero)
check_first r (suc b) bs hb hr =
    ground (arith, byte_test (suc b) r hb hr, count-nonzero (suc b) bs (omega arith))

check_empty : (r : ℕ) → r ≡ 0 → check 0 r [] ≡ leb (0 * 8 + r) (leading_zero_bits [])
unfolding check leading_zero_bits
check_empty r e = ground arith

check_zero : (k r : ℕ) (bs : Bytes) → check (suc k) r (0 ∷ bs) ≡ check k r bs
unfolding check
check_zero k r bs = ground arith

check_nonzero : (k r b : ℕ) (bs : Bytes) → check (suc k) r (suc b ∷ bs) ≡ false
unfolding check
check_nonzero k r b bs = ground arith

check_lem :
    (k r : ℕ) (hash : Bytes)
    → All (λ b. b < 256) hash
    → r < 8
    → k * 8 + r ≤ 8 * length hash
    → check k r hash ≡ leb (k * 8 + r) (leading_zero_bits hash)
check_lem zero r [] bytes hr len = check_empty r (omega arith)
check_lem zero r (b ∷ bs) bytes hr len =
    check_first r b bs bytes.0 hr
    ∙ ap (λ k. leb k (leading_zero_bits (b ∷ bs))) (let e : r ≡ 0 * 8 + r = omega arith in e)
check_lem (suc k) r [] bytes hr len = absurd (omega arith)
check_lem (suc k) r (zero ∷ bs) bytes hr len =
    check_zero k r bs ∙ ground (arith, check_lem k r bs bytes.1 hr (omega arith), count-zero bs)
check_lem (suc k) r (suc b ∷ bs) bytes hr len =
    check_nonzero k r b bs
    ∙ ground (arith, count-nonzero (suc b) bs (omega arith), leading_zeros-lt (suc b) (omega arith))

-- A 32-byte hash meets a difficulty of up to 256 bits exactly if it has at least that many leading
-- zero bits.
pub meets_difficulty-eq-leading_zero_bits :
    (hash : Bytes) (bits : ℕ)
    → length hash ≡ 32
    → All (λ b. b < 256) hash
    → bits ≤ 256
    → meets_difficulty hash bits ≡ leb bits (leading_zero_bits hash)
unfolding meets_difficulty check
meets_difficulty-eq-leading_zero_bits hash bits len bytes h =
    ground (arith, check_lem (bits / 8) (bits % 8) hash bytes)
