-- ===== src/Node/Startup/Hex.antt =====
-- The hexadecimal numbers of the chain's file: `{:x}` and `u128::from_str_radix`, as
-- l1-chain/node/src/main.rs uses them on the chain's work.
use bina_blockchain_l.Prelude.{
  ℕ, zero, suc, ◌+◌, ◌*◌, ◌/◌, ◌%◌, ◌^◌, ◌≤◌, ◌<◌, ◌≡◌, refl, ◌∙◌, inl, inr, true, false, some, [],
  ◌∷◌, arith, ◌==◌, le→leb, ==→eq, Bool-cases, Bytes, bytes_key, nat_key,
}
use native.Mathlib.Numerals.{unary_clauses}
use bina_blockchain_l.Node.Sync.{u128_max}
use bina_blockchain_l.Node.Mining.{hex_digit, lower_hex_from, lower_hex}
use bina_blockchain_l.Node.Startup.{hex_value, parse_hex_from, parse_hex}

hex_value-hex_digit : (d : ℕ) → d < 16 → hex_value (hex_digit d) ≡ some d
unfolding hex_value hex_digit
hex_value-hex_digit d h = ground arith

parse_hex_from-digit :
    (acc d : ℕ) (cs : Bytes)
    → d < 16
    → acc * 16 + d ≤ u128_max
    → parse_hex_from acc (hex_digit d ∷ cs) ≡ parse_hex_from (acc * 16 + d) cs
unfolding parse_hex_from
parse_hex_from-digit acc d cs h fits =
    rw (hex_value-hex_digit d h, le→leb (acc * 16 + d) u128_max fits, parse_hex_from) refl

zero_lem : (n : ℕ) → n < 16 ^ 0 → n ≡ 0
zero_lem n h = omega arith

split_lem : (n : ℕ) → n / 16 * 16 + n % 16 ≡ n
split_lem n = omega arith

last_lem : (n : ℕ) → (n / 16 == 0) ≡ true → 0 * 16 + n % 16 ≡ n
last_lem n h = omega (arith, ==→eq (n / 16) 0 h)

shift_lem : (fuel n : ℕ) → n < 16 ^ suc fuel → n / 16 < 16 ^ fuel
shift_lem fuel n h = let h' = simp unary_clauses at h in omega arith

-- Reading the digits of a number and then more digits is reading those on top of the number.
parse_hex_from-lower_hex_from :
    (fuel n : ℕ) (cs : Bytes)
    → n < 16 ^ fuel
    → n ≤ u128_max
    → parse_hex_from 0 (lower_hex_from fuel n cs) ≡ parse_hex_from n cs
unfolding lower_hex_from
parse_hex_from-lower_hex_from zero n cs below fits = rw (zero_lem n below) refl
parse_hex_from-lower_hex_from (suc fuel) n cs below fits =
    let d = n % 16 in
    let small : d < 16 = omega arith in
    elim (Bool-cases (n / 16 == 0)) [
      | inl last ↦
          rw (last, lower_hex_from)
            (parse_hex_from-digit 0 d cs small (rw (last_lem n last) fits)
              ∙ rw (last_lem n last) refl)
      | inr more ↦
          rw (more, lower_hex_from)
            (parse_hex_from-lower_hex_from fuel (n / 16) (hex_digit d ∷ cs) (shift_lem fuel n below)
                (omega arith)
              ∙ (parse_hex_from-digit (n / 16) d cs small (rw (split_lem n) fits)
                  ∙ rw (split_lem n) refl))
    ]

not-plus : (d : ℕ) → (hex_digit d == 43) ≡ false
unfolding hex_digit
not-plus d = ground arith

-- The first character is a digit.
lower_hex_from-head :
    (fuel n d : ℕ) (cs : Bytes)
    → (e : ℕ) × (rest : Bytes) × (lower_hex_from fuel n (hex_digit d ∷ cs) ≡ hex_digit e ∷ rest)
unfolding lower_hex_from
lower_hex_from-head zero n d cs = (d, cs, refl)
lower_hex_from-head (suc fuel) n d cs = elim (Bool-cases (n / 16 == 0)) [
  | inl last ↦ (n % 16, hex_digit d ∷ cs, rw (last, lower_hex_from) refl)
  | inr more ↦
      let (e, rest, h) = lower_hex_from-head fuel (n / 16) (n % 16) (hex_digit d ∷ cs) in
      (e, rest, rw (more, lower_hex_from) h)
]

parse_hex-headed :
    (s : Bytes) (d : ℕ) (rest : Bytes) → s ≡ hex_digit d ∷ rest → parse_hex s ≡ parse_hex_from 0 s
unfolding parse_hex
parse_hex-headed s d rest h = rw h (rw (not-plus d) refl)

parse_hex_from-nil : (n : ℕ) → parse_hex_from n [] ≡ some n
unfolding parse_hex_from
parse_hex_from-nil n = refl

parse_hex-lower_hex_from :
    (fuel n : ℕ)
    → n < 16 ^ suc fuel
    → n ≤ u128_max
    → parse_hex (lower_hex_from (suc fuel) n []) ≡ some n
unfolding lower_hex_from
parse_hex-lower_hex_from fuel n below fits =
    let digits = lower_hex_from (suc fuel) n [] in
    let headed : (e : ℕ) × (rest : Bytes) × (digits ≡ hex_digit e ∷ rest) =
      elim (Bool-cases (n / 16 == 0)) [
        | inl last ↦ (n % 16, [], rw (last, lower_hex_from) refl)
        | inr more ↦
            let (e, rest, h) = lower_hex_from-head fuel (n / 16) (n % 16) [] in
            (e, rest, rw (more, lower_hex_from) h)
      ] in
    parse_hex-headed digits headed.0 headed.1 headed.2
    ∙ (parse_hex_from-lower_hex_from (suc fuel) n [] below fits ∙ parse_hex_from-nil n)

-- A chain's work is read back from its hexadecimal digits.
pub parse_hex-lower_hex : (n : ℕ) → n ≤ u128_max → parse_hex (lower_hex n) ≡ some n
unfolding lower_hex
parse_hex-lower_hex n fits = parse_hex-lower_hex_from 31 n (omega arith) fits
