-- ===== src/Common/Int.antt =====
-- Go's int, as far as the program compares such numbers: an order on the integers.
use Prim.Native.Nat.{ℕ}
use mathlib.Core.Path.{◌≡◌}
use mathlib.Core.Logic.{◌≢◌}
use mathlib.Core.Bool.{Bool, true, false}
use native.Mathlib.Omega.{arith}
use gigaquizz.Common.Tests.{leb, ◌==◌}

-- `negsuc n` is -(n + 1).
pub data ℤ : Type 0 where
  pos : ℕ → ℤ
  negsuc : ℕ → ℤ

infix 50 ◌≤b◌ ◌=b◌
abbrev pub ◌≤b◌ : ℤ → ℤ → Bool
pos a ≤b pos b = leb a b
pos a ≤b negsuc b = false
negsuc a ≤b pos b = true
negsuc a ≤b negsuc b = leb b a

abbrev pub ◌=b◌ : ℤ → ℤ → Bool
pos a =b pos b = a == b
pos a =b negsuc b = false
negsuc a =b pos b = false
negsuc a =b negsuc b = a == b

pub le_total : (a b : ℤ) → a ≤b b ≡ false → b ≤b a ≡ true
le_total a b h = ground arith

pub le_trans : (a b c : ℤ) → a ≤b b ≡ true → b ≤b c ≡ true → a ≤b c ≡ true
le_trans a b c h k = ground arith

pub le_antisymm : (a b : ℤ) → a ≤b b ≡ true → b ≤b a ≡ true → a ≡ b
le_antisymm a b h k = ground arith

pub eq_sound : (a b : ℤ) → a =b b ≡ true → a ≡ b
eq_sound a b h = ground arith

pub eq_refl : (a : ℤ) → a =b a ≡ true
eq_refl a = ground arith

pub eq_false : (a b : ℤ) → a =b b ≡ false → a ≢ b
eq_false a b h e = ground (arith, e)
