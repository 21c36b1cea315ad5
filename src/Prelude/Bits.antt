-- ===== src/Prelude/Bits.antt =====
-- Exclusive or of native numbers, by its binary digits: the libraries have no laws of it.
use Prim.Native.Nat.{
  ℕ, zero, suc, ◌+◌, ◌*◌, ◌/◌, ◌%◌, ◌^◌, ◌≤◌, ◌<◌, bit_xor, digits, differ, bit_xor-bitwise,
}
use Prim.Native.Nat.pow
use mathlib.Core.Path.{◌≡◌, refl, ◌∙◌}
use native.Mathlib.Omega.{arith}

abbrev xor_digits : ℕ → ℕ → ℕ → ℕ
xor_digits n a b = digits (λ b. b) differ n a b

xor_digits_fuel : (n m a b : ℕ) → a ≤ n → a ≤ m → xor_digits n a b ≡ xor_digits m a b
xor_digits_fuel zero zero a b p q = refl
xor_digits_fuel zero (suc m) zero b p q = refl
xor_digits_fuel zero (suc m) (suc a) b p q = absurd (omega arith)
xor_digits_fuel (suc n) zero zero b p q = refl
xor_digits_fuel (suc n) zero (suc a) b p q = absurd (omega arith)
xor_digits_fuel (suc n) (suc m) zero b p q = refl
xor_digits_fuel (suc n) (suc m) (suc a) b p q =
    omega (arith, xor_digits_fuel n m (suc a / 2) (b / 2) (omega arith) (omega arith))

zero-bit_xor : (b : ℕ) → bit_xor 0 b ≡ b
zero-bit_xor b = bit_xor-bitwise 0 b

bit_xor_step : (a b : ℕ) → bit_xor a b ≡ bit_xor (a / 2) (b / 2) * 2 + differ (a % 2) (b % 2)
bit_xor_step zero b = omega (arith, zero-bit_xor b, zero-bit_xor (b / 2))
bit_xor_step (suc a) b = omega (
  arith,
  bit_xor-bitwise (suc a) b,
  bit_xor-bitwise (suc a / 2) (b / 2),
  xor_digits_fuel a (suc a / 2) (suc a / 2) (b / 2) (omega arith) (omega arith),
)

differ_bit : (x y : ℕ) → x < 2 → y < 2 → differ x y < 2
differ_bit zero y h k = k
differ_bit (suc zero) zero h k = omega arith
differ_bit (suc zero) (suc zero) h k = omega arith
differ_bit (suc zero) (suc (suc y)) h k = absurd (omega arith)
differ_bit (suc (suc x)) y h k = absurd (omega arith)

differ-left : (x y z : ℕ) → x < 2 → y < 2 → z < 2 → differ x y ≡ differ x z → y ≡ z
differ-left zero y z h k l e = e
differ-left (suc zero) zero zero h k l e = refl
differ-left (suc zero) zero (suc zero) h k l e = absurd (omega (arith, e))
differ-left (suc zero) (suc zero) zero h k l e = absurd (omega (arith, e))
differ-left (suc zero) (suc zero) (suc zero) h k l e = refl
differ-left (suc zero) zero (suc (suc z)) h k l e = absurd (omega arith)
differ-left (suc zero) (suc zero) (suc (suc z)) h k l e = absurd (omega arith)
differ-left (suc zero) (suc (suc y)) z h k l e = absurd (omega arith)
differ-left (suc (suc x)) y z h k l e = absurd (omega arith)

differ_comm : (x y : ℕ) → x < 2 → y < 2 → differ x y ≡ differ y x
differ_comm zero zero h k = refl
differ_comm zero (suc zero) h k = refl
differ_comm (suc zero) zero h k = refl
differ_comm (suc zero) (suc zero) h k = refl
differ_comm zero (suc (suc y)) h k = absurd (omega arith)
differ_comm (suc zero) (suc (suc y)) h k = absurd (omega arith)
differ_comm (suc (suc x)) y h k = absurd (omega arith)

-- Equal results have equal upper digits and equal last ones.
halves_lem :
    (a b c d : ℕ)
    → bit_xor a b ≡ bit_xor c d
    → (bit_xor (a / 2) (b / 2) ≡ bit_xor (c / 2) (d / 2))
      × (differ (a % 2) (b % 2) ≡ differ (c % 2) (d % 2))
halves_lem a b c d e = (
  omega (
    arith,
    e,
    bit_xor_step a b,
    bit_xor_step c d,
    differ_bit (a % 2) (b % 2) (omega arith) (omega arith),
    differ_bit (c % 2) (d % 2) (omega arith) (omega arith),
  ),
  omega (
    arith,
    e,
    bit_xor_step a b,
    bit_xor_step c d,
    differ_bit (a % 2) (b % 2) (omega arith) (omega arith),
    differ_bit (c % 2) (d % 2) (omega arith) (omega arith),
  ),
)

bit_xor-left_fuel : (n a b c : ℕ) → a ≤ n → bit_xor a b ≡ bit_xor a c → b ≡ c
bit_xor-left_fuel n zero b c h e = omega (arith, e, zero-bit_xor b, zero-bit_xor c)
bit_xor-left_fuel zero (suc a) b c h e = absurd (omega arith)
bit_xor-left_fuel (suc n) (suc a) b c h e =
    let (upper, last) = halves_lem (suc a) b (suc a) c e in
    omega (
      arith,
      bit_xor-left_fuel n (suc a / 2) (b / 2) (c / 2) (omega arith) upper,
      differ-left (suc a % 2) (b % 2) (c % 2) (omega arith) (omega arith) (omega arith) last,
    )

-- Exclusive or with a fixed number, on either side, loses nothing.
pub bit_xor-left : (a b c : ℕ) → bit_xor a b ≡ bit_xor a c → b ≡ c
bit_xor-left a b c e = bit_xor-left_fuel a a b c (omega arith) e

bit_xor-right_fuel : (n a b c : ℕ) → a ≤ n → b ≤ n → bit_xor a c ≡ bit_xor b c → a ≡ b
bit_xor-right_fuel zero a b c h k e = omega arith
bit_xor-right_fuel (suc n) a b c h k e =
    let (upper, last) = halves_lem a c b c e in
    omega (
      arith,
      bit_xor-right_fuel n (a / 2) (b / 2) (c / 2) (omega arith) (omega arith) upper,
      differ-left (c % 2) (a % 2) (b % 2) (omega arith) (omega arith) (omega arith) (
          differ_comm (c % 2) (a % 2) (omega arith) (omega arith)
          ∙ last
          ∙ differ_comm (b % 2) (c % 2) (omega arith) (omega arith)),
    )

pub bit_xor-right : (a b c : ℕ) → bit_xor a c ≡ bit_xor b c → a ≡ b
bit_xor-right a b c e = bit_xor-right_fuel (a + b) a b c (omega arith) (omega arith) e

pub bit_xor-bound : (k a b : ℕ) → a < 2 ^ k → b < 2 ^ k → bit_xor a b < 2 ^ k
bit_xor-bound zero zero b h l = omega (arith, zero-bit_xor b)
bit_xor-bound zero (suc a) b h l = absurd (omega arith)
bit_xor-bound (suc k) a b h l = omega (
  arith,
  pow.suc 2 k,
  bit_xor_step a b,
  differ_bit (a % 2) (b % 2) (omega arith) (omega arith),
  bit_xor-bound k (a / 2) (b / 2) (omega (arith, pow.suc 2 k)) (omega (arith, pow.suc 2 k)),
)
