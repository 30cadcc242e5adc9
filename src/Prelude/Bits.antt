-- ===== src/Prelude/Bits.antt =====
-- Laws of `bit_xor` at variables, and a check of all values below a bound.
use Prim.Native.Nat.{
  ℕ, zero, suc, ◌+◌, ◌*◌, ◌/◌, ◌%◌, ◌≤◌, ◌<◌, bit_xor, digits, differ, bit_xor-bitwise,
}
use mathlib.Core.Path.{◌≡◌, refl}
use mathlib.Core.Bool.{Bool, true, ◌&&◌}
use native.Mathlib.Omega.{arith}

unfoldable pub all_below : ℕ → (ℕ → Bool) → Bool
all_below zero test = true
all_below (suc bound) test = test bound && all_below bound test

pub all_below_sound :
    (bound : ℕ) (test : ℕ → Bool) (i : ℕ) → all_below bound test ≡ true → i < bound → test i ≡ true
unfolding all_below
all_below_sound (suc bound) test i all below = ground (arith, all_below_sound bound test i)
all_below_sound zero test i all below = absurd (omega arith)

abbrev xor_digits : ℕ → ℕ → ℕ → ℕ
xor_digits fuel x y = digits (λ y. y) differ fuel x y

-- More fuel than the first number needs changes nothing.
xor_digits_fuel : (f g x y : ℕ) → x ≤ f → x ≤ g → xor_digits f x y ≡ xor_digits g x y
xor_digits_fuel (suc f) (suc g) (suc x) y le_f le_g =
    omega (arith, xor_digits_fuel f g (suc x / 2) (y / 2) (omega arith) (omega arith))
xor_digits_fuel zero g (suc x) y le_f le_g = absurd (omega arith)
xor_digits_fuel (suc f) zero (suc x) y le_f le_g = absurd (omega arith)
xor_digits_fuel zero zero zero y le_f le_g = refl
xor_digits_fuel zero (suc g) zero y le_f le_g = refl
xor_digits_fuel (suc f) zero zero y le_f le_g = refl
xor_digits_fuel (suc f) (suc g) zero y le_f le_g = refl

pub zero-bit_xor : (b : ℕ) → bit_xor 0 b ≡ b
zero-bit_xor b = bit_xor-bitwise 0 b

-- The lowest digit apart.
pub bit_xor_step : (x y : ℕ) → bit_xor x y ≡ bit_xor (x / 2) (y / 2) * 2 + differ (x % 2) (y % 2)
bit_xor_step (suc x) y =
    let more = xor_digits_fuel x (suc x / 2) (suc x / 2) (y / 2) (omega arith) (omega arith) in
    omega (arith, more, bit_xor-bitwise (suc x / 2) (y / 2), bit_xor-bitwise (suc x) y)
bit_xor_step zero y = omega (arith, zero-bit_xor (y / 2), zero-bit_xor y)

differ-le : (x y : ℕ) → x ≤ 1 → y ≤ 1 → differ x y ≤ 1
differ-le zero y p q = q
differ-le (suc x) zero p q = p
differ-le (suc x) (suc y) p q = differ-le x y (omega arith) (omega arith)

differ-zero : (x : ℕ) → differ x 0 ≡ x
differ-zero zero = refl
differ-zero (suc x) = refl

bit_xor_double : (a c b : ℕ) → c ≡ b * 2 → bit_xor a c ≡ bit_xor (a / 2) b * 2 + a % 2
bit_xor_double a c b h = rw (half, low, differ-zero) at (bit_xor_step a c)
  where
    half : c / 2 ≡ b
    half = omega arith

    low : c % 2 ≡ 0
    low = omega arith

-- Sixteen times `b`: the low four digits of `a` are kept.
bit_xor_nibble : (a c b : ℕ) → c ≡ b * 16 → bit_xor a c ≡ bit_xor (a / 16) b * 16 + a % 16
bit_xor_nibble a c b h = rw (← quarter) (
    omega (
      arith,
      bit_xor_double a c (b * 8) (omega arith),
      bit_xor_double (a / 2) (b * 8) (b * 4) (omega arith),
      bit_xor_double (a / 2 / 2) (b * 4) (b * 2) (omega arith),
      bit_xor_double (a / 2 / 2 / 2) (b * 2) b (omega arith),
    ))
  where
    quarter : a / 2 / 2 / 2 / 2 ≡ a / 16
    quarter = omega arith

-- The high byte of `a` against `b`; the low byte of `a` is kept.
pub bit_xor_byte : (a b : ℕ) → bit_xor a (b * 256) ≡ bit_xor (a / 256) b * 256 + a % 256
bit_xor_byte a b = rw (← split) (
    omega (
      arith,
      bit_xor_nibble a (b * 256) (b * 16) (omega arith),
      bit_xor_nibble (a / 16) (b * 16) b (omega arith),
    ))
  where
    split : a / 16 / 16 ≡ a / 256
    split = omega arith

-- `2 ^ k`, as it computes at `suc k`.
abbrev pub pow2 : ℕ → ℕ
pow2 zero = 1
pow2 (suc k) = 2 * pow2 k

-- Words of one width are closed under exclusive or.
pub bit_xor-lt-pow2 : (k a b : ℕ) → a < pow2 k → b < pow2 k → bit_xor a b < pow2 k
bit_xor-lt-pow2 zero zero b p q = omega (arith, zero-bit_xor b)
bit_xor-lt-pow2 zero (suc a) b p q = absurd (omega arith)
bit_xor-lt-pow2 (suc k) a b p q = omega (
  arith,
  bit_xor_step a b,
  differ-le (a % 2) (b % 2) (omega arith) (omega arith),
  bit_xor-lt-pow2 k (a / 2) (b / 2) (omega arith) (omega arith),
)
