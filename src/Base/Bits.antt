-- ===== src/Base/Bits.antt =====
-- `pos & mask`, where `mask` is one less than a power of two, is the remainder by that power.
use Prim.Native.Nat.{min, digits, bit_and-bitwise}
use native.Mathlib.Nat.{pow-suc, one-le-pow}
use dragonmouth.Base.{
  ℕ, zero, suc, ◌+◌, ◌-◌, ◌*◌, ◌/◌, ◌%◌, ◌^◌, ◌≤◌, ◌<◌, bit_and, ◌≡◌, refl, ◌∙◌, arith,
}

-- The digits that the two numbers share, the lowest first, on fuel for the first number.
abbrev shared : ℕ → ℕ → ℕ → ℕ
shared fuel a b = digits (λ _. zero) min fuel a b

shared-none : (fuel a : ℕ) → shared fuel a 0 ≡ 0
shared-none zero a = refl
shared-none (suc fuel) zero = refl
shared-none (suc fuel) (suc a) = omega (arith, shared-none fuel (suc a / 2))

-- The remainder by twice a number keeps the lowest digit.
rem-double : (p a : ℕ) → 0 < p → a % (p * 2) ≡ a / 2 % p * 2 + a % 2
rem-double p a h = grind arith

half-ones : (k : ℕ) → (2 ^ suc k - 1) / 2 ≡ 2 ^ k - 1
half-ones k = omega (arith, pow-suc 2 k, one-le-pow k 2)

-- A mask of `k` ones, met by a number with fuel for all its digits.
shared-ones : (k fuel a : ℕ) → a ≤ fuel → shared fuel a (2 ^ k - 1) ≡ a % 2 ^ k
shared-ones zero fuel a h = omega (arith, shared-none fuel a)
shared-ones (suc k) zero a h = ground (arith, one-le-pow (suc k) 2)
shared-ones (suc k) (suc fuel) zero h = ground (arith, one-le-pow (suc k) 2)
shared-ones (suc k) (suc fuel) (suc a) h = rw (half-ones k) (
    ground (
      arith,
      pow-suc 2 k,
      one-le-pow k 2,
      rem-double (2 ^ k) (suc a),
      shared-ones k fuel (suc a / 2) (omega arith),
    ))

-- The form in which the ring buffers use it: the capacity is a power of two.
pub bit_and_mask : (k n a : ℕ) → n ≡ 2 ^ k → bit_and a (n - 1) ≡ a % n
bit_and_mask k n a e = rw e (bit_and-bitwise a (2 ^ k - 1) ∙ shared-ones k a a (omega arith))
