-- ===== src/Base/Bits.antt =====
-- `&` with a mask or a single bit, and `|` with a clear bit, as arithmetic at every value.
-- The native operations stand for a recursion on binary digits with fuel; the step equations drop
-- the fuel, and the facts about 2 ^ k follow by induction on k.
use Prim.Native.Nat.{
  ℕ, zero, suc, ◌+◌, ◌*◌, ◌/◌, ◌%◌, ◌^◌, ◌-◌, ◌≤◌, min, max, bit_and, bit_or, digits,
  bit_and-bitwise, bit_or-bitwise,
}
use mathlib.Core.Path.{◌≡◌, refl, ap}
use native.Mathlib.Nat.{pow-suc, one-le-pow, le_refl, div-div-eq-div-mul, mod-eq-sub-div-mul}
use native.Mathlib.Omega.{arith}

module _ (stop : ℕ → ℕ) (op : ℕ → ℕ → ℕ) where
  -- More fuel than the first operand changes nothing.
  enough_fuel : (n m x y : ℕ) → x ≤ n → x ≤ m → digits stop op n x y ≡ digits stop op m x y
  enough_fuel zero zero x y p q = refl
  enough_fuel zero (suc m) zero y p q = refl
  enough_fuel (suc n) zero zero y p q = refl
  enough_fuel (suc n) (suc m) zero y p q = refl
  enough_fuel (suc n) (suc m) (suc x) y p q =
      omega (arith, enough_fuel n m (suc x / 2) (y / 2) (omega arith) (omega arith))
  enough_fuel zero (suc m) (suc x) y p q = absurd (omega arith)
  enough_fuel (suc n) zero (suc x) y p q = absurd (omega arith)

  -- One digit is split off, and the fuel is the operand again.
  lowest_digit :
      (x y : ℕ)
      → digits stop op (suc x) (suc x) y
        ≡ digits stop op (suc x / 2) (suc x / 2) (y / 2) * 2 + op (suc x % 2) (y % 2)
  lowest_digit x y =
      omega (arith, enough_fuel x (suc x / 2) (suc x / 2) (y / 2) (omega arith) (le_refl _))

bit_and-halves : (x y : ℕ) → bit_and x y ≡ bit_and (x / 2) (y / 2) * 2 + min (x % 2) (y % 2)
bit_and-halves zero y = simp bit_and-bitwise (omega arith)
bit_and-halves (suc x) y = simp bit_and-bitwise (lowest_digit (λ _. 0) min x y)

bit_or-halves : (x y : ℕ) → bit_or x y ≡ bit_or (x / 2) (y / 2) * 2 + max (x % 2) (y % 2)
bit_or-halves zero y = simp bit_or-bitwise (omega arith)
bit_or-halves (suc x) y = simp bit_or-bitwise (lowest_digit (λ d. d) max x y)

and_nothing : (n x : ℕ) → x ≤ n → bit_and x 0 ≡ 0
and_nothing n zero h = refl
and_nothing zero (suc x) h = absurd (omega arith)
and_nothing (suc n) (suc x) h =
    omega (arith, bit_and-halves (suc x) 0, and_nothing n (suc x / 2) (omega arith))

or_nothing : (n x : ℕ) → x ≤ n → bit_or x 0 ≡ x
or_nothing n zero h = refl
or_nothing zero (suc x) h = absurd (omega arith)
or_nothing (suc n) (suc x) h =
    omega (arith, bit_or-halves (suc x) 0, or_nothing n (suc x / 2) (omega arith))

-- Dividing by 2 ^ (k + 1) is dividing by 2 and then by 2 ^ k.
div-pow-suc : (x k : ℕ) → x / 2 ^ suc k ≡ x / 2 / 2 ^ k
div-pow-suc x k =
    rw (div-div-eq-div-mul x 2 (2 ^ k)) (ap (λ (t : ℕ). x / t) (omega (arith, pow-suc 2 k)))

mod-pow-suc : (x k : ℕ) → x % 2 ^ suc k ≡ x / 2 % 2 ^ k * 2 + x % 2
mod-pow-suc x k = omega (
  arith,
  mod-eq-sub-div-mul x (2 ^ suc k),
  mod-eq-sub-div-mul (x / 2) (2 ^ k),
  ap (λ (t : ℕ). t * 2 ^ suc k) (div-pow-suc x k),
  pow-suc 2 k,
  ap (λ (t : ℕ). x / 2 / 2 ^ k * t) (pow-suc 2 k),
)

half-pow-suc : (k : ℕ) → 2 ^ suc k / 2 ≡ 2 ^ k
half-pow-suc k = omega (arith, pow-suc 2 k)

-- `x & (2^k - 1)` keeps the low k bits.
pub bit_and-mask : (k x : ℕ) → bit_and x (2 ^ k - 1) ≡ x % 2 ^ k
bit_and-mask zero x = omega (arith, and_nothing x x (le_refl x))
bit_and-mask (suc k) x = ground (
  arith,
  bit_and-halves x (2 ^ suc k - 1),
  half_mask,
  pow-suc 2 k,
  one-le-pow k 2,
  bit_and-mask k (x / 2),
  mod-pow-suc x k,
)
  where
    half_mask : (2 ^ suc k - 1) / 2 ≡ 2 ^ k - 1
    half_mask = omega (arith, pow-suc 2 k, one-le-pow k 2 (omega arith))

-- `x & (1 << k)` is bit k, in its place.
pub bit_and-bit : (k x : ℕ) → bit_and x (2 ^ k) ≡ x / 2 ^ k % 2 * 2 ^ k
bit_and-bit zero x = omega (arith, bit_and-halves x 1, and_nothing (x / 2) (x / 2) (le_refl _))
bit_and-bit (suc k) x = ground (
  arith,
  bit_and-halves x (2 ^ suc k),
  half-pow-suc k,
  pow-suc 2 k,
  bit_and-bit k (x / 2),
  div-pow-suc x k,
  ap (λ (t : ℕ). x / 2 / 2 ^ k % 2 * t) (pow-suc 2 k),
)

-- `x | (1 << k)` adds bit k where it is clear.
pub bit_or-bit : (k x : ℕ) → x / 2 ^ k % 2 ≡ 0 → bit_or x (2 ^ k) ≡ x + 2 ^ k
bit_or-bit zero x h = omega (arith, bit_or-halves x 1, or_nothing (x / 2) (x / 2) (le_refl _))
bit_or-bit (suc k) x h = ground (
  arith,
  bit_or-halves x (2 ^ suc k),
  half-pow-suc k,
  pow-suc 2 k,
  bit_or-bit k (x / 2) (rw (← div-pow-suc x k) h),
)
