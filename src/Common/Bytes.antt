-- ===== src/Common/Bytes.antt =====
-- Byte strings as lists of numbers: comparison, slices, and encoding/binary's big-endian integers.
use Prim.Native.Nat.{ℕ, zero, suc, ◌+◌, ◌*◌, ◌/◌, ◌%◌, ◌^◌, ◌<◌}
use mathlib.Core.Path.{◌≡◌, refl, ap, sym, ◌∙◌}
use mathlib.Core.Bool.{Bool, true, false, ◌&&◌}
use mathlib.Core.List.{List, [], ◌∷◌, ◌++◌}
use native.Mathlib.Omega.{arith}
use native.Mathlib.Nat.{pow-suc}
use gigaquizz.Common.Tests.{◌==◌, ltb}
use gigaquizz.Common.Lists.{
  length, take, drop, replicate, get_or, length-append, take-append, drop-append, All,
}

abbrev pub Bytes : Type 0
Bytes = List ℕ

abbrev pub IsByte : ℕ → Type 0
IsByte b = b < 256

-- `bytes.Equal`, `==` on arrays and on strings
unfoldable pub bytes_eq : Bytes → Bytes → Bool
bytes_eq [] [] = true
bytes_eq [] (y ∷ ys) = false
bytes_eq (x ∷ xs) [] = false
bytes_eq (x ∷ xs) (y ∷ ys) = (x == y) && bytes_eq xs ys

pub bytes_eq_sound : (xs ys : Bytes) → bytes_eq xs ys ≡ true → xs ≡ ys
unfolding bytes_eq
bytes_eq_sound [] [] h = refl
bytes_eq_sound [] (y ∷ ys) h = ground arith
bytes_eq_sound (x ∷ xs) [] h = ground arith
bytes_eq_sound (x ∷ xs) (y ∷ ys) h = ground (arith, bytes_eq_sound xs ys)

pub bytes_eq_refl : (xs : Bytes) → bytes_eq xs xs ≡ true
unfolding bytes_eq
bytes_eq_refl [] = refl
bytes_eq_refl (x ∷ xs) = ground (arith, bytes_eq_refl xs)

abbrev pub zeros : ℕ → Bytes
zeros n = replicate n 0

pub get_or-zeros : (n i : ℕ) → get_or (zeros n) i 0 ≡ 0
get_or-zeros zero i = refl
get_or-zeros (suc n) zero = refl
get_or-zeros (suc n) (suc i) = get_or-zeros n i

-- `b[a : a + n]`
abbrev pub slice : ℕ → ℕ → Bytes → Bytes
slice a n b = take n (drop a b)

drop-skip : (k a : ℕ) (xs ys : Bytes) → length xs ≡ k → drop (k + a) (xs ++ ys) ≡ drop a ys
drop-skip zero a [] ys h = ap (λ n. drop n ys) (omega arith)
drop-skip zero a (x ∷ xs) ys h = absurd (omega arith)
drop-skip (suc k) a [] ys h = absurd (omega arith)
drop-skip (suc k) a (x ∷ xs) ys h =
    let e : suc k + a ≡ suc (k + a) = omega arith in rw e (drop-skip k a xs ys (omega arith))

pub slice-skip :
    (k a n : ℕ) (xs ys : Bytes) → length xs ≡ k → slice (k + a) n (xs ++ ys) ≡ slice a n ys
slice-skip k a n xs ys h = ap (take n) (drop-skip k a xs ys h)

pub take-exact : (n : ℕ) (xs ys : Bytes) → length xs ≡ n → take n (xs ++ ys) ≡ xs
take-exact n xs ys h = ap (λ k. take k (xs ++ ys)) (sym h) ∙ take-append xs ys

pub drop-exact : (n : ℕ) (xs ys : Bytes) → length xs ≡ n → drop n (xs ++ ys) ≡ ys
drop-exact n xs ys h = ap (λ k. drop k (xs ++ ys)) (sym h) ∙ drop-append xs ys

-- `PutUint32` is `be 4`, `PutUint64` is `be 8`.
unfoldable pub be : ℕ → ℕ → Bytes
be zero v = []
be (suc k) v = be k (v / 256) ++ (v % 256) ∷ []

from_be_acc : ℕ → Bytes → ℕ
from_be_acc acc [] = acc
from_be_acc acc (b ∷ bs) = from_be_acc (acc * 256 + b) bs

-- `Uint32` and `Uint64` of a slice
unfoldable pub from_be : Bytes → ℕ
unfolding from_be_acc
from_be bs = from_be_acc 0 bs

pub length-be : (k v : ℕ) → length (be k v) ≡ k
unfolding be
length-be zero v = refl
length-be (suc k) v =
    omega (arith, length-append (be k (v / 256)) ((v % 256) ∷ []), length-be k (v / 256))

from_be_acc-snoc :
    (acc : ℕ) (bs : Bytes) (b : ℕ) → from_be_acc acc (bs ++ b ∷ []) ≡ from_be_acc acc bs * 256 + b
unfolding from_be_acc
from_be_acc-snoc acc [] b = refl
from_be_acc-snoc acc (x ∷ bs) b = from_be_acc-snoc (acc * 256 + x) bs b

pub from_be-be : (k v : ℕ) → v < 256 ^ k → from_be (be k v) ≡ v
unfolding be from_be
from_be-be zero v h = omega arith
from_be-be (suc k) v h = omega (
  arith,
  from_be_acc-snoc 0 (be k (v / 256)) (v % 256),
  from_be-be k (v / 256) (omega (arith, pow-suc 256 k)),
)

from_be_acc-lt :
    (acc : ℕ) (bs : Bytes) (m : ℕ)
    → All IsByte bs
    → acc < m
    → from_be_acc acc bs < m * 256 ^ length bs
unfolding from_be_acc
from_be_acc-lt acc [] m h p = omega arith
from_be_acc-lt acc (b ∷ bs) m h p = omega (
  arith,
  from_be_acc-lt (acc * 256 + b) bs (m * 256) h.1 (omega arith),
  pow-suc 256 (length bs),
  ap (λ (t : ℕ). m * t) (pow-suc 256 (length bs)),
)

pub from_be-lt : (bs : Bytes) → All IsByte bs → from_be bs < 256 ^ length bs
unfolding from_be
from_be-lt bs h = omega (arith, from_be_acc-lt 0 bs 1 h (omega arith))

abbrev pub every : (ℕ → Bool) → Bytes → Bool
every test [] = true
every test (b ∷ bs) = test b && every test bs

abbrev pub is_ascii : ℕ → Bool
is_ascii b = ltb b 128
