-- ===== src/Prelude/ByteStrings.antt =====
-- Byte strings: their order, which is Rust's order on `[u8]` and on `str`, and the little-endian
-- encoding of a number.
use Prim.Native.Nat.{ℕ, zero, suc, ◌+◌, ◌*◌, ◌/◌, ◌%◌, ◌^◌, ◌<◌}
use mathlib.Core.Path.{◌≡◌, refl, ap, ap₂}
use mathlib.Core.Bool.{Bool, true, false}
use mathlib.Core.List.{List, [], ◌∷◌}
use native.Mathlib.Omega.{arith}
use Prim.Native.Char.{code}
use Prim.Native.String.{String}
use native.Mathlib.Decide.{ℕ_discrete}
use native.Mathlib.Nat.{pow-suc}
use bina_blockchain_l.Prelude.Tests.{ltb, if◌then◌else◌}
use bina_blockchain_l.Prelude.Lists.{length}

abbrev pub Bytes : Type 0
Bytes = List ℕ

unfoldable pub Bytes-discrete : Discrete Bytes
unfolding ℕ_discrete
Bytes-discrete [] [] = yes refl
Bytes-discrete [] (y ∷ ys) = no (λ e. cc)
Bytes-discrete (x ∷ xs) [] = no (λ e. cc)
Bytes-discrete (x ∷ xs) (y ∷ ys) = elim (ℕ_discrete x y) [
  | yes p ↦ elim (Bytes-discrete xs ys) [ yes q ↦ yes (ap₂ ◌∷◌ p q) | no n ↦ no (λ e. n (cc)) ]
  | no n ↦ no (λ e. n (cc))
]

-- The lexicographic `<`.
abbrev pub bytes_lt : Bytes → Bytes → Bool
bytes_lt [] [] = false
bytes_lt [] (y ∷ ys) = true
bytes_lt (x ∷ xs) [] = false
bytes_lt (x ∷ xs) (y ∷ ys) = if ltb x y then true else if ltb y x then false else bytes_lt xs ys

pub bytes_lt_irrefl : (a : Bytes) → bytes_lt a a ≡ false
bytes_lt_irrefl [] = refl
bytes_lt_irrefl (x ∷ xs) = ground (arith, bytes_lt_irrefl xs)

pub bytes_lt_trans :
    (a b c : Bytes) → bytes_lt a b ≡ true → bytes_lt b c ≡ true → bytes_lt a c ≡ true
bytes_lt_trans [] [] c p q = cc
bytes_lt_trans [] (y ∷ ys) [] p q = cc
bytes_lt_trans [] (y ∷ ys) (z ∷ zs) p q = refl
bytes_lt_trans (x ∷ xs) [] c p q = cc
bytes_lt_trans (x ∷ xs) (y ∷ ys) [] p q = cc
bytes_lt_trans (x ∷ xs) (y ∷ ys) (z ∷ zs) p q = ground (arith, bytes_lt_trans xs ys zs)

-- Of two different byte strings one is less.
pub bytes_lt_total : (a b : Bytes) → bytes_lt a b ≡ false → bytes_lt b a ≡ false → a ≡ b
bytes_lt_total [] [] p q = refl
bytes_lt_total [] (y ∷ ys) p q = cc
bytes_lt_total (x ∷ xs) [] p q = cc
bytes_lt_total (x ∷ xs) (y ∷ ys) p q = ground (arith, bytes_lt_total xs ys)

pub bytes_lt_asymm : (a b : Bytes) → bytes_lt a b ≡ true → bytes_lt b a ≡ false
bytes_lt_asymm [] [] p = cc
bytes_lt_asymm [] (y ∷ ys) p = refl
bytes_lt_asymm (x ∷ xs) [] p = cc
bytes_lt_asymm (x ∷ xs) (y ∷ ys) p = ground (arith, bytes_lt_asymm xs ys)

-- `to_le_bytes` of a word of `w` bytes, and its inverse.
abbrev pub le_bytes : ℕ → ℕ → Bytes
le_bytes zero n = []
le_bytes (suc w) n = n % 256 ∷ le_bytes w (n / 256)

abbrev pub of_le_bytes : Bytes → ℕ
of_le_bytes [] = 0
of_le_bytes (b ∷ bs) = b + 256 * of_le_bytes bs

pub length-le_bytes : (w n : ℕ) → length (le_bytes w n) ≡ w
length-le_bytes zero n = refl
length-le_bytes (suc w) n = ap suc (length-le_bytes w (n / 256))

pub of_le_bytes-le_bytes : (w n : ℕ) → n < 256 ^ w → of_le_bytes (le_bytes w n) ≡ n
of_le_bytes-le_bytes zero n h = omega arith
of_le_bytes-le_bytes (suc w) n h = omega (arith, pow-suc 256 w, of_le_bytes-le_bytes w (n / 256))

-- The bytes of an ASCII text, such as a domain tag.
abbrev pub codes : String → Bytes
codes String.[] = []
codes (String.◌∷◌ c s) = code c ∷ codes s

pub le_bytes_injective :
    (w m n : ℕ) → m < 256 ^ w → n < 256 ^ w → le_bytes w m ≡ le_bytes w n → m ≡ n
le_bytes_injective w m n hm hn e =
    omega (arith, of_le_bytes-le_bytes w m hm, of_le_bytes-le_bytes w n hn, ap of_le_bytes e)
