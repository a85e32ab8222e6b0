-- ===== src/Ledger/Text/Numbers.antt =====
-- Decimal numbers in the text of the ledger's file, of l1-chain/core/src/rewards.rs.
use bina_blockchain_l.Prelude.{
  ℕ, zero, suc, ◌+◌, ◌-◌, ◌*◌, ◌/◌, ◌%◌, ◌^◌, ◌≤◌, ◌<◌, ◌≡◌, refl, ◌∙◌, ◌≢◌, inl, inr, true, false,
  some, [], ◌∷◌, arith, ◌==◌, le→leb, ==→eq, Bool-cases, All, u64_max, Bytes, bytes_key, nat_key,
}
use native.Mathlib.Numerals.{unary_clauses}
use bina_blockchain_l.Ledger.Text.{decimal_from, decimal, parse_from, parse_u64}

-- Characters that a column may have: printable, and no comma.
abbrev pub IsPlain : Bytes → Type 0
IsPlain = All (λ c. (33 ≤ c) × (c ≤ 126) × (c ≢ 44))

parse_from-digit :
    (acc d : ℕ) (cs : Bytes)
    → d < 10
    → acc * 10 + d ≤ u64_max
    → parse_from acc ((48 + d) ∷ cs) ≡ parse_from (acc * 10 + d) cs
unfolding parse_from
parse_from-digit acc d cs h fits =
    let digit : 48 + d - 48 ≡ d = omega arith in
    rw
      (
        le→leb 48 (48 + d) (omega arith),
        le→leb (48 + d) 57 (omega arith),
        digit,
        le→leb (acc * 10 + d) u64_max fits,
      )
      refl

zero_lem : (n : ℕ) → n < 10 ^ 0 → n ≡ 0
zero_lem n h = omega arith

split_lem : (n : ℕ) → n / 10 * 10 + n % 10 ≡ n
split_lem n = omega arith

last_lem : (n : ℕ) → (n / 10 == 0) ≡ true → 0 * 10 + n % 10 ≡ n
last_lem n h = omega (arith, ==→eq (n / 10) 0 h)

shift_lem : (fuel n : ℕ) → n < 10 ^ suc fuel → n / 10 < 10 ^ fuel
shift_lem fuel n h = let h' = simp unary_clauses at h in omega arith

parse_from-decimal_from :
    (fuel n : ℕ) (cs : Bytes)
    → n < 10 ^ fuel
    → n ≤ u64_max
    → parse_from 0 (decimal_from fuel n cs) ≡ parse_from n cs
unfolding decimal_from
parse_from-decimal_from zero n cs below fits = rw (zero_lem n below) refl
parse_from-decimal_from (suc fuel) n cs below fits =
    let d = n % 10 in
    let small : d < 10 = omega arith in
    elim (Bool-cases (n / 10 == 0)) [
      | inl last ↦
          rw (last, decimal_from)
            (parse_from-digit 0 d cs small (rw (last_lem n last) fits) ∙ rw (last_lem n last) refl)
      | inr more ↦
          rw (more, decimal_from)
            (parse_from-decimal_from fuel (n / 10) ((48 + d) ∷ cs) (shift_lem fuel n below)
                (omega arith)
              ∙ (parse_from-digit (n / 10) d cs small (rw (split_lem n) fits)
                  ∙ rw (split_lem n) refl))
    ]

abbrev pub IsDigits : Bytes → Type 0
IsDigits = All (λ c. (48 ≤ c) × (c ≤ 57))

decimal_from-IsDigits : (fuel n : ℕ) (cs : Bytes) → IsDigits cs → IsDigits (decimal_from fuel n cs)
unfolding decimal_from
decimal_from-IsDigits zero n cs h = h
decimal_from-IsDigits (suc fuel) n cs h =
    let first : IsDigits ((48 + n % 10) ∷ cs) = ((omega arith, omega arith), h) in
    elim (Bool-cases (n / 10 == 0)) [
      | inl last ↦ rw (last, decimal_from) first
      | inr more ↦
          rw (more, decimal_from) (decimal_from-IsDigits fuel (n / 10) ((48 + n % 10) ∷ cs) first)
    ]

-- There is a digit.
decimal_from-head :
    (fuel n d : ℕ) (cs : Bytes)
    → (e : ℕ) × (rest : Bytes) × (decimal_from fuel n (d ∷ cs) ≡ e ∷ rest)
unfolding decimal_from
decimal_from-head zero n d cs = (d, cs, refl)
decimal_from-head (suc fuel) n d cs = elim (Bool-cases (n / 10 == 0)) [
  | inl last ↦ (48 + n % 10, d ∷ cs, rw (last, decimal_from) refl)
  | inr more ↦
      let (e, rest, h) = decimal_from-head fuel (n / 10) (48 + n % 10) (d ∷ cs) in
      (e, rest, rw (more, decimal_from) h)
]

pub decimal-head : (n : ℕ) → (e : ℕ) × (rest : Bytes) × (decimal n ≡ e ∷ rest)
unfolding decimal decimal_from
decimal-head n = elim (Bool-cases (n / 10 == 0)) [
  | inl last ↦ (48 + n % 10, [], rw (last, decimal_from) refl)
  | inr more ↦
      let (e, rest, h) = decimal_from-head 19 (n / 10) (48 + n % 10) [] in
      (e, rest, rw (more, decimal_from) h)
]

pub decimal-IsDigits : (n : ℕ) → IsDigits (decimal n)
unfolding decimal
decimal-IsDigits n = decimal_from-IsDigits 20 n [] tt

parse_u64-digits :
    (s : Bytes) (e : ℕ) (rest : Bytes) → s ≡ e ∷ rest → IsDigits s → parse_u64 s ≡ parse_from 0 s
unfolding parse_u64
parse_u64-digits [] e rest h digits = cc
parse_u64-digits (c ∷ cs) e rest h digits =
    let not_plus : (c == 43) ≡ false = let low = digits.0.0 in ground arith in rw not_plus refl

parse_from-nil : (n : ℕ) → parse_from n [] ≡ some n
unfolding parse_from
parse_from-nil n = refl

-- A u64 is read back from its decimal digits.
pub parse_u64-decimal : (n : ℕ) → n ≤ u64_max → parse_u64 (decimal n) ≡ some n
unfolding decimal
parse_u64-decimal n fits =
    let (e, rest, h) = decimal-head n in
    parse_u64-digits (decimal n) e rest h (decimal-IsDigits n)
    ∙ (parse_from-decimal_from 20 n [] (omega arith) fits ∙ parse_from-nil n)

IsDigits-IsPlain : (s : Bytes) → IsDigits s → IsPlain s
IsDigits-IsPlain [] h = tt
IsDigits-IsPlain (c ∷ s) ((low, high), h) =
    ((omega arith, omega arith, λ e. absurd (omega arith)), IsDigits-IsPlain s h)

pub decimal-IsPlain : (n : ℕ) → IsPlain (decimal n)
decimal-IsPlain n = IsDigits-IsPlain (decimal n) (decimal-IsDigits n)
