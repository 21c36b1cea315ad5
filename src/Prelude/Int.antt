-- ===== src/Prelude/Int.antt =====
-- Signed integers over the native numbers, for `int64_t` counters and time differences.
-- The programs never take them near their 64-bit limits, where C++ leaves `+` undefined.
use Prim.Native.Nat.{ℕ, zero, suc, ◌+◌, ◌-◌}
use mathlib.Core.Path.{◌≡◌, refl}
use native.Mathlib.Omega.{arith}
use ws_benchmark.Prelude.Tests.{leb, if◌then◌else◌}

-- `negsuc n` is -(n + 1).
pub data ℤ : Type 0 where
  pos : ℕ → ℤ
  negsuc : ℕ → ℤ

-- a - b, as an integer.
abbrev pub sub_ℕ : ℕ → ℕ → ℤ
sub_ℕ a b = if leb b a then pos (a - b) else negsuc (b - a - 1)

-- `++x` and `--x`.
abbrev pub inc : ℤ → ℤ
inc (pos n) = pos (suc n)
inc (negsuc zero) = pos 0
inc (negsuc (suc n)) = negsuc n

abbrev pub dec : ℤ → ℤ
dec (pos zero) = negsuc 0
dec (pos (suc n)) = pos n
dec (negsuc n) = negsuc (suc n)

pub dec-inc : (a : ℤ) → dec (inc a) ≡ a
dec-inc (pos n) = refl
dec-inc (negsuc zero) = refl
dec-inc (negsuc (suc n)) = refl

pub inc-dec : (a : ℤ) → inc (dec a) ≡ a
inc-dec (pos zero) = refl
inc-dec (pos (suc n)) = refl
inc-dec (negsuc n) = refl

pub inc-sub_ℕ : (a b : ℕ) → inc (sub_ℕ a b) ≡ sub_ℕ (a + 1) b
inc-sub_ℕ a b = ground arith

pub dec-sub_ℕ : (a b : ℕ) → dec (sub_ℕ a b) ≡ sub_ℕ a (b + 1)
dec-sub_ℕ a b = ground arith

abbrev pub neg : ℕ → ℤ
neg zero = pos 0
neg (suc n) = negsuc n
