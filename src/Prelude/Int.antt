-- ===== src/Prelude/Int.antt =====
-- Rust's signed integers, without their bounds, over the native numbers.
use Prim.Native.Nat.{ℕ, suc, ◌+◌, ◌-◌, ◌≤◌}
use mathlib.Core.Path.{◌≡◌}
use native.Mathlib.Omega.{arith}
use bina_blockchain_l.Prelude.Tests.{leb, if◌then◌else◌}

-- `negsuc n` is -(n + 1).
pub data ℤ : Type 0 where
  pos : ℕ → ℤ
  negsuc : ℕ → ℤ

abbrev pub pos_part : ℤ → ℕ
pos_part (pos n) = n
pos_part (negsuc n) = 0

abbrev pub neg_part : ℤ → ℕ
neg_part (pos n) = 0
neg_part (negsuc n) = suc n

abbrev pub sub_ℕ : ℕ → ℕ → ℤ
sub_ℕ a b = if leb b a then pos (a - b) else negsuc (b - a - 1)

infixl 65 ◌+ℤ◌
infix 50 ◌≤ℤ◌
unfoldable pub ◌+ℤ◌ : ℤ → ℤ → ℤ
a +ℤ b = sub_ℕ (pos_part a + pos_part b) (neg_part a + neg_part b)

abbrev pub ◌≤ℤ◌ : ℤ → ℤ → Type 0
a ≤ℤ b = pos_part a + neg_part b ≤ pos_part b + neg_part a

abbrev pub max_ℤ : ℤ → ℤ → ℤ
max_ℤ a b = if leb (pos_part a + neg_part b) (pos_part b + neg_part a) then b else a

abbrev pub min_ℤ : ℤ → ℤ → ℤ
min_ℤ a b = if leb (pos_part a + neg_part b) (pos_part b + neg_part a) then a else b

pub +ℤ_parts :
    (a b : ℤ)
    → pos_part (a +ℤ b) + neg_part a + neg_part b ≡ neg_part (a +ℤ b) + pos_part a + pos_part b
unfolding ◌+ℤ◌
+ℤ_parts a b = ground arith

-- `x.max(lo).min(hi)`
abbrev pub clamp_ℤ : ℤ → ℤ → ℤ → ℤ
clamp_ℤ lo hi x = min_ℤ (max_ℤ x lo) hi

pub clamp_ℤ_bounds : (lo hi x : ℤ) → lo ≤ℤ hi → (lo ≤ℤ clamp_ℤ lo hi x) × (clamp_ℤ lo hi x ≤ℤ hi)
clamp_ℤ_bounds lo hi x h = ground arith

pub clamp_ℤ_mono : (lo hi x y : ℤ) → x ≤ℤ y → clamp_ℤ lo hi x ≤ℤ clamp_ℤ lo hi y
clamp_ℤ_mono lo hi x y h = ground arith

pub clamp_ℤ_le : (lo hi x : ℤ) → lo ≤ℤ hi → clamp_ℤ lo hi x ≤ℤ hi
clamp_ℤ_le lo hi x h = ground arith

-- A value in the range is left alone, and a clamped one comes no further from a value in it.
pub clamp_ℤ_near :
    (lo hi x d : ℤ)
    → lo ≤ℤ x
    → x ≤ℤ hi
    → (clamp_ℤ lo hi (x +ℤ d) ≤ℤ x +ℤ max_ℤ d (pos 0))
      × (x +ℤ min_ℤ d (pos 0) ≤ℤ clamp_ℤ lo hi (x +ℤ d))
unfolding ◌+ℤ◌
clamp_ℤ_near lo hi x d h k = ground arith
