-- ===== src/Table/Mask.antt =====
-- `x & (width - 1)` of `tableFindEntry` is the remainder, when `width` is a power of two.
use Prim.Native.Nat.{min, digits, bit_and-bitwise}
use native.Mathlib.Nat.{pow-suc}
use bbl.Prelude.{
  ap, ℕ, zero, suc, ◌+◌, ◌-◌, ◌*◌, ◌/◌, ◌%◌, ◌^◌, ◌≤◌, ◌<◌, bit_and, ◌≡◌, refl, arith,
}

-- The digits of the conjunction do not depend on the fuel, once it covers the first number.
enough_fuel :
    (x n m y : ℕ) → x ≤ n → x ≤ m → digits (λ z. zero) min n x y ≡ digits (λ z. zero) min m x y
enough_fuel (suc x) (suc n) (suc m) y p q =
    let half = enough_fuel (suc x / 2) n m (y / 2) (omega arith) (omega arith) in
    omega (arith, half)
enough_fuel (suc x) (suc n) zero y p q = absurd (omega arith)
enough_fuel (suc x) zero m y p q = absurd (omega arith)
enough_fuel zero (suc n) (suc m) y p q = refl
enough_fuel zero (suc n) zero y p q = refl
enough_fuel zero zero (suc m) y p q = refl
enough_fuel zero zero zero y p q = refl

low_digit : (x y : ℕ) → bit_and x y ≡ bit_and (x / 2) (y / 2) * 2 + min (x % 2) (y % 2)
low_digit (suc x) y =
    let here = bit_and-bitwise (suc x) y in
    let half = enough_fuel (suc x / 2) x (suc x / 2) (y / 2) (omega arith) (omega arith) in
    let there = bit_and-bitwise (suc x / 2) (y / 2) in omega (arith, here, half, there)
low_digit zero y =
    let here = bit_and-bitwise 0 y in
    let there = bit_and-bitwise 0 (y / 2) in omega (arith, here, there)

and_zero_within : (bound x : ℕ) → x ≤ bound → bit_and x 0 ≡ 0
and_zero_within (suc bound) (suc x) h =
    let half = and_zero_within bound (suc x / 2) (omega arith) in
    let digit = low_digit (suc x) 0 in omega (arith, half, digit)
and_zero_within zero (suc x) h = absurd (omega arith)
and_zero_within bound zero h = refl

mod_double : (x w : ℕ) → 0 < w → x % (w * 2) ≡ x / 2 % w * 2 + x % 2
mod_double x w h = grind arith

pub pow_pos : (k : ℕ) → 0 < 2 ^ k
pow_pos zero = omega arith
pow_pos (suc k) = rw pow-suc (omega (arith, pow_pos k))

mask_step :
    (x w : ℕ) → 0 < w → bit_and (x / 2) (w - 1) ≡ x / 2 % w → bit_and x (w * 2 - 1) ≡ x % (w * 2)
mask_step x w h e =
    let half : (w * 2 - 1) / 2 ≡ w - 1 = omega arith in
    let odd : (w * 2 - 1) % 2 ≡ 1 = omega arith in
    rw (low_digit x (w * 2 - 1), half, odd, e) (omega (arith, mod_double x w h))

mask_pow : (k x : ℕ) → bit_and x (2 ^ k - 1) ≡ x % 2 ^ k
mask_pow zero x = omega (arith, and_zero_within x x (omega arith))
mask_pow (suc k) x = rw pow-suc (mask_step x (2 ^ k) (pow_pos k) (mask_pow k (x / 2)))

-- A power of two: the capacities of a table.
abbrev pub IsPow2 : ℕ → Type 0
IsPow2 w = (k : ℕ) × (w ≡ 2 ^ k)

-- On a power of two the mask takes the remainder.
pub mask-mod : (x w : ℕ) → IsPow2 w → bit_and x (w - 1) ≡ x % w
mask-mod x w (k, e) = rw e (mask_pow k x)

pub IsPow2-double : (w : ℕ) → IsPow2 w → IsPow2 (w * 2)
IsPow2-double w (k, e) = (suc k, rw pow-suc (ap (λ (n : ℕ). n * 2) e))

pub IsPow2-pos : (w : ℕ) → IsPow2 w → 0 < w
IsPow2-pos w (k, e) = rw e (pow_pos k)
