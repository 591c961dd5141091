-- ===== src/Common/Bits.antt =====
-- `bit_and` at variables, digit by digit.
use Prim.Native.Nat.{
  ℕ, zero, suc, ◌+◌, ◌*◌, ◌/◌, ◌%◌, ◌≤◌, ◌<◌, ◌-◌, ◌^◌, min, bit_and, digits, bit_and-bitwise,
}
use mathlib.Core.Path.{◌≡◌, refl, ap, ◌∙◌}
use native.Mathlib.Nat.{pow-suc, mod-lt, mod-eq_of_lt, mul-add-mod_self_left, div-add-mod}
use native.Mathlib.Omega.{arith}

-- Induction by halves.
halves_below :
    (P : ℕ → Type 0) → P 0 → ((x : ℕ) → P (suc x / 2) → P (suc x)) → (bound x : ℕ) → x ≤ bound → P x
halves_below P base up bound zero h = base
halves_below P base up zero (suc x) h = absurd (omega arith)
halves_below P base up (suc bound) (suc x) h =
    up x (halves_below P base up bound (suc x / 2) (omega arith))

by_halves : (P : ℕ → Type 0) → P 0 → ((x : ℕ) → P (suc x / 2) → P (suc x)) → (x : ℕ) → P x
by_halves P base up x = halves_below P base up x x (omega arith)

-- The digits of `bit_and`, on some fuel.
abbrev masked : ℕ → ℕ → ℕ → ℕ
masked = digits (λ _. zero) min

masked_nothing : (fuel y : ℕ) → masked fuel 0 y ≡ 0
masked_nothing zero y = refl
masked_nothing (suc fuel) y = refl

pub zero-bit_and : (y : ℕ) → bit_and 0 y ≡ 0
zero-bit_and = bit_and-bitwise 0

-- All fuel from the left number on gives the same.
masked-bit_and : (x fuel y : ℕ) → x ≤ fuel → masked fuel x y ≡ bit_and x y
masked-bit_and =
    by_halves (λ x. (fuel y : ℕ) → x ≤ fuel → masked fuel x y ≡ bit_and x y)
      (λ fuel y h. omega (arith, masked_nothing fuel y, zero-bit_and y)) from_half
  where
    from_half :
        (x : ℕ)
        → ((fuel y : ℕ) → suc x / 2 ≤ fuel → masked fuel (suc x / 2) y ≡ bit_and (suc x / 2) y)
        → (fuel y : ℕ) → suc x ≤ fuel
        → masked fuel (suc x) y ≡ bit_and (suc x) y
    from_half x half zero y h = absurd (omega arith)
    from_half x half (suc fuel) y h = omega (
      arith,
      half fuel (y / 2) (omega arith),
      half x (y / 2) (omega arith),
      bit_and-bitwise (suc x) y,
    )

-- One binary digit of `bit_and`.
pub bit_and_step : (x y : ℕ) → bit_and x y ≡ min (x % 2) (y % 2) + bit_and (x / 2) (y / 2) * 2
bit_and_step zero y = omega (arith, zero-bit_and y, zero-bit_and (y / 2))
bit_and_step (suc x) y =
    omega (arith, masked-bit_and (suc x / 2) x (y / 2) (omega arith), bit_and-bitwise (suc x) y)

pub bit_and_self : (x : ℕ) → bit_and x x ≡ x
bit_and_self =
    by_halves (λ x. bit_and x x ≡ x) (zero-bit_and 0)
      (λ x half. omega (arith, half, bit_and_step (suc x) (suc x)))

pub bit_and-zero : (x : ℕ) → bit_and x 0 ≡ 0
bit_and-zero =
    by_halves (λ x. bit_and x 0 ≡ 0) (zero-bit_and 0)
      (λ x half. omega (arith, half, bit_and_step (suc x) 0))

pub one_le_pow : (k : ℕ) → 1 ≤ 2 ^ k
one_le_pow zero = omega arith
one_le_pow (suc k) = omega (arith, one_le_pow k, pow-suc 2 k)

-- The remainder by 2 * m, from that of the half by m.
mod_double : (a m : ℕ) → 1 ≤ m → a % (m * 2) ≡ a / 2 % m * 2 + a % 2
mod_double a m h =
    let low : a / 2 % m * 2 + a % 2 < m * 2 = omega (arith, mod-lt (a / 2) h) in
    let split : a ≡ m * 2 * (a / 2 / m) + (a / 2 % m * 2 + a % 2) =
      omega (arith, div-add-mod (a / 2) m) in
    ap (λ (t : ℕ). t % (m * 2)) split
    ∙ mul-add-mod_self_left (m * 2) (a / 2 / m) (a / 2 % m * 2 + a % 2)
    ∙ mod-eq_of_lt low

-- A number masked by another is not above the mask.
pub bit_and-le : (x mask : ℕ) → bit_and x mask ≤ mask
bit_and-le x mask =
    by_halves (λ y. (x : ℕ) → bit_and x y ≤ y) (λ x. omega (arith, bit_and-zero x))
      (λ y half x. omega (arith, half (x / 2), bit_and_step x (suc y))) mask x

and_low_step :
    (a m : ℕ) → 1 ≤ m → bit_and (a / 2) (m - 1) ≡ a / 2 % m → bit_and a (m * 2 - 1) ≡ a % (m * 2)
and_low_step a m h ih =
    let half : (m * 2 - 1) / 2 ≡ m - 1 = omega arith in
    omega (arith, bit_and_step a (m * 2 - 1), ap (bit_and (a / 2)) half, ih, mod_double a m h)

-- A mask of `k` ones takes the remainder by 2 ^ k.
pub bit_and_low : (k a : ℕ) → bit_and a (2 ^ k - 1) ≡ a % 2 ^ k
bit_and_low zero a = omega (arith, bit_and-zero a)
bit_and_low (suc k) a = rw pow-suc (and_low_step a (2 ^ k) (one_le_pow k) (bit_and_low k (a / 2)))

-- Bit `b` of `m`, as a number.
unfoldable pub bit : ℕ → ℕ → ℕ
bit zero m = m % 2
bit (suc b) m = bit b (m / 2)

pub bit-le : (b m : ℕ) → bit b m ≤ 1
unfolding bit
bit-le zero m = omega arith
bit-le (suc b) m = bit-le b (m / 2)
