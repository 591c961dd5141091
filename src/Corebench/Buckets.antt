-- ===== src/Corebench/Buckets.antt =====
-- cmd/corebench/metrics.go: a bucket of the histogram and its upper edge.
use gigaquizz.Common.{
  ℕ, zero, suc, ◌+◌, ◌-◌, ◌*◌, ◌/◌, ◌%◌, max, ◌^◌, ◌≤◌, ◌<◌, ◌≡◌, ◌≢◌, refl, sym, ap, ◌∙◌, subst,
  true, false, ltb, leb, ltb→lt, lt→ltb, leb→le, leb-false, ◌==◌, ==_sound, ==_no, arith,
  Bool-cases, inl, inr,
}
use native.Mathlib.Nat.{
  pow-suc, one-le-pow, pow-le-pow_right, le-div_iff_mul-le, div-lt_iff_lt-mul, div-add-mod', mod-lt,
  mul-le-mul,
}
use gigaquizz.Corebench.{halvings, len64, histogram_index, upper_of, histogram_upper}

-- The length of a number that fits: it is the number of its binary digits.
abbrev Digits : ℕ → ℕ → Type 0
Digits n k = (n < 2 ^ k) × (2 ^ k ≤ max 1 (2 * n))

pow_step : (k : ℕ) → 2 ^ (1 + k) ≡ 2 * 2 ^ k
pow_step k = ap (λ n. 2 ^ n) (one_more k) ∙ pow-suc 2 k ∙ omega arith
  where
    one_more : (k : ℕ) → 1 + k ≡ suc k
    one_more k = omega arith

halvings-Digits : (k n : ℕ) → n < 2 ^ k → Digits n (halvings k n)
halvings-Digits zero n h = (omega arith, omega arith)
halvings-Digits (suc k) n h = elim (Bool-cases (n == 0)) [
  | inl e ↦ rw e (let z = ==_sound n 0 e in (omega (arith, z), omega arith))
  | inr e ↦
      let (hi, lo) = halvings-Digits k (n / 2) (omega (arith, h, pow-suc 2 k)) in
      rw e (
        rw (pow_step (halvings k (n / 2))) (doubled n (2 ^ halvings k (n / 2)) (==_no n 0 e) hi lo))
]
  where
    doubled :
        (n p : ℕ)
        → n ≢ 0
        → n / 2 < p
        → p ≤ max 1 (2 * (n / 2))
        → (n < 2 * p) × (2 * p ≤ max 1 (2 * n))
    doubled n p ne hi lo = (omega arith, omega arith)

halvings-le : (k n : ℕ) → halvings k n ≤ k
halvings-le zero n = omega arith
halvings-le (suc k) n = ground (arith, halvings-le k (n / 2))

times_32 : (k : ℕ) → 32 * 2 ^ k ≡ 2 ^ (k + 5)
times_32 zero = refl
times_32 (suc k) =
    omega (arith, pow-suc 2 k, pow-suc 2 (k + 5), times_32 k) ∙ ap (λ n. 2 ^ n) (next k)
  where
    next : (k : ℕ) → suc (k + 5) ≡ suc k + 5
    next k = omega arith

positive : (k : ℕ) → 0 < 2 ^ k
positive k = omega (arith, one-le-pow k 2 (omega arith))

-- The shift of a number of at least five digits leaves five of them.
record Shifted (ns k : ℕ) : Type 0 where
  least : 16 ≤ ns / 2 ^ k
  most : ns / 2 ^ k < 32
  few : k ≤ 59

five_digits : (ns : ℕ) → ns < 2 ^ 64 → leb (len64 ns) 4 ≡ false → Shifted ns (len64 ns - 5)
unfolding len64
five_digits ns h long =
    let (hi, lo) = halvings-Digits 64 ns h in
    let few = leb-false (halvings 64 ns) 4 long in
    let e = times_32 (halvings 64 ns - 5) ∙ ap (λ k. 2 ^ k) (back (halvings 64 ns) few) in
    bounds (halvings 64 ns - 5) (2 ^ halvings 64 ns) (omega (arith, halvings-le 64 ns)) e hi lo
  where
    back : (n : ℕ) → 4 < n → n - 5 + 5 ≡ n
    back n h = omega arith

    bounds : (k p : ℕ) → k ≤ 59 → 32 * 2 ^ k ≡ p → ns < p → p ≤ max 1 (2 * ns) → Shifted ns k
    bounds k p few e hi lo = record {
      least = (le-div_iff_mul-le (positive k)).1 (omega (arith, e, positive k));
      most = (div-lt_iff_lt-mul (positive k)).1 (omega (arith, e));
      few = few;
    }

wrapped : (x : ℕ) → 1 ≤ x → x ≤ 2 ^ 64 → (x % 2 ^ 64 + (2 ^ 64 - 1)) % 2 ^ 64 ≡ x - 1
wrapped x lo hi = omega arith

upper_of-eq : (k q : ℕ) → k ≤ 59 → q < 32 → upper_of k q ≡ (q + 1) * 2 ^ k - 1
upper_of-eq k q few small =
    wrapped ((q + 1) * 2 ^ k)
      (mul-le-mul {n₁ = 1} {m₁ = 1} {n₂ = q + 1} {m₂ = 2 ^ k} (omega arith) (positive k))
      (mul-le-mul {n₁ = q + 1} {m₁ = 2 ^ k} {n₂ = 32} {m₂ = 2 ^ 59} (omega arith)
        (pow-le-pow_right (omega arith) few))

-- The upper edge of a bucket of shifted numbers.
edge : (k q : ℕ) → 16 ≤ q → q < 32 → histogram_upper (k * 16 + q) ≡ upper_of k q
unfolding histogram_upper
edge k q lo hi = elim (Bool-cases (ltb (k * 16 + q) 16)) [
  | inl e ↦ absurd (omega (arith, ltb→lt (k * 16 + q) 16 e))
  | inr e ↦
      rw e
        (parts ((k * 16 + q - 16) / 16) (16 + (k * 16 + q - 16) % 16) (omega arith) (omega arith))
]
  where
    parts : (a b : ℕ) → a ≡ k → b ≡ q → upper_of a b ≡ upper_of k q
    parts a b e f = rw (e, f) refl

-- A bucket lies in the array, its upper edge is no less than the value, exact below 32, and above by
-- less than a sixteenth, 6.25%.
pub record Bucket (ns index upper : ℕ) : Type 0 where
  pub inside : index < 1024
  pub covers : ns ≤ upper
  pub exact : ns < 32 → upper ≡ ns
  pub close : 1 ≤ ns → (upper - ns) * 16 < ns

linear-Bucket :
    (ns index p whole : ℕ)
    → index < 1024
    → 0 < p
    → 16 * p ≤ whole
    → whole ≤ ns
    → ns < whole + p
    → Bucket ns index (whole + p - 1)
linear-Bucket ns index p whole low h lo from upto = record {
  inside = low;
  covers = omega arith;
  exact = λ small. omega (arith, small);
  close = λ some_. omega (arith, some_);
}

Shifted-Bucket :
    (ns k : ℕ) → Shifted ns k → Bucket ns (k * 16 + ns / 2 ^ k) ((ns / 2 ^ k + 1) * 2 ^ k - 1)
Shifted-Bucket ns k i =
    subst (λ u. Bucket ns (k * 16 + ns / 2 ^ k) (u - 1)) (one_more (ns / 2 ^ k) (2 ^ k))
      (linear-Bucket ns (k * 16 + ns / 2 ^ k) (2 ^ k) (ns / 2 ^ k * 2 ^ k)
        (omega (arith, i.most, i.few)) (positive k)
        (mul-le-mul {n₁ = 16} {m₁ = 2 ^ k} {n₂ = ns / 2 ^ k} {m₂ = 2 ^ k} i.least (omega arith))
        (omega (arith, div-add-mod' ns (2 ^ k)))
        (omega (arith, div-add-mod' ns (2 ^ k), mod-lt ns (positive k))))
  where
    one_more : (q p : ℕ) → q * p + p ≡ (q + 1) * p
    one_more q p = grind arith

short : (ns : ℕ) → ns < 2 ^ 64 → leb (len64 ns) 4 ≡ true → ns < 16
unfolding len64
short ns h few =
    let (hi, lo) = halvings-Digits 64 ns h in
    omega (
      arith,
      hi,
      pow-le-pow_right {n = 2} (omega arith) {i = halvings 64 ns} {j = 4}
          (leb→le (halvings 64 ns) 4 few),
    )

own_edge : (ns : ℕ) → ns < 16 → histogram_upper ns ≡ ns
unfolding histogram_upper
own_edge ns small = rw (lt→ltb ns 16 small) refl

-- For a latency of any uint64, histogramIndex is an index of the 1024 bins, and histogramUpper of it is
-- at least the latency: exactly the latency below 32, and above it by less than 6.25% otherwise.
pub histogram_bounds :
    (ns : ℕ) → ns < 2 ^ 64 → Bucket ns (histogram_index ns) (histogram_upper (histogram_index ns))
unfolding histogram_index
histogram_bounds ns h = elim (Bool-cases (leb (len64 ns) 4)) [
  | inl few ↦
      let small = short ns h few in
      rw few (
        subst (Bucket ns ns) (sym (own_edge ns small)) (record {
          inside = omega (arith, small);
          covers = omega arith;
          exact = λ _. refl;
          close = λ some_. omega (arith, some_);
        }))
  | inr long ↦
      let i = five_digits ns h long in
      rw long (
        rw
          (
            edge (len64 ns - 5) (ns / 2 ^ (len64 ns - 5)) i.least i.most,
            upper_of-eq (len64 ns - 5) (ns / 2 ^ (len64 ns - 5)) i.few i.most,
          )
          (Shifted-Bucket ns (len64 ns - 5) i))
]
