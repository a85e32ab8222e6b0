-- ===== src/Prelude/Word.antt =====
-- 64-bit arithmetic of Rust on the native numbers, with the wrap or the saturation written out.
use Prim.Native.Nat.{ℕ, ◌+◌, ◌-◌, ◌%◌, ◌≤◌}
use mathlib.Core.Path.{◌≡◌}
use mathlib.Core.Option.{Option, none, some}
use native.Mathlib.Omega.{arith}
use bina_blockchain_l.Prelude.Tests.{ltb, if◌then◌else◌}

abbrev pub u64_mod : ℕ
u64_mod = 18446744073709551616

abbrev pub u64_max : ℕ
u64_max = 18446744073709551615

-- `u64::saturating_add`, `checked_add`, the wrapping `+` of a release build, `saturating_sub`.
abbrev pub saturating_add : ℕ → ℕ → ℕ
saturating_add a b = if ltb u64_max (a + b) then u64_max else a + b

abbrev pub checked_add : ℕ → ℕ → Option ℕ
checked_add a b = if ltb u64_max (a + b) then none else some (a + b)

abbrev pub wrapping_add : ℕ → ℕ → ℕ
wrapping_add a b = (a + b) % u64_mod

abbrev pub saturating_sub : ℕ → ℕ → ℕ
saturating_sub a b = a - b

pub saturating_add_small : (a b : ℕ) → a + b ≤ u64_max → saturating_add a b ≡ a + b
saturating_add_small a b h = ground arith

pub wrapping_add_small : (a b : ℕ) → a + b ≤ u64_max → wrapping_add a b ≡ a + b
wrapping_add_small a b h = omega arith
