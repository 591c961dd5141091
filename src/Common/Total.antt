-- ===== src/Common/Total.antt =====
-- Sums over lists.
use Prim.Native.Nat.{ℕ, ◌+◌, ◌≤◌}
use gigaquizz.Common.Lists.{length}
use mathlib.Core.Path.{◌≡◌}
use mathlib.Core.List.{List, [], ◌∷◌, ◌++◌}
use native.Mathlib.Omega.{arith}

module _ {ℓ} {A : Type ℓ} where
  abbrev pub sum_of : (A → ℕ) → List A → ℕ
  sum_of f [] = 0
  sum_of f (x ∷ xs) = f x + sum_of f xs

  pub sum_of-append : (f : A → ℕ) (xs ys : List A) → sum_of f (xs ++ ys) ≡ sum_of f xs + sum_of f ys
  sum_of-append f [] ys = omega arith
  sum_of-append f (x ∷ xs) ys = omega (arith, sum_of-append f xs ys)

  pub sum_of-le : (f : A → ℕ) → ((x : A) → f x ≤ 1) → (xs : List A) → sum_of f xs ≤ length xs
  sum_of-le f h [] = omega arith
  sum_of-le f h (x ∷ xs) = omega (arith, h x, sum_of-le f h xs)
