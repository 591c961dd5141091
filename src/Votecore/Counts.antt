-- ===== src/Votecore/Counts.antt =====
-- The loop `for mask := choice; mask != 0; mask &= mask - 1` of Submit, against the bits of the
-- choice.
use gigaquizz.Common.{
  ℕ, zero, suc, ◌+◌, ◌-◌, ◌*◌, ◌/◌, ◌%◌, ◌^◌, ◌≤◌, ◌<◌, ◌≡◌, refl, sym, ap, ◌∙◌, ◌≢◌, List, bit_and,
  ◌==◌, if◌then◌else◌, length, get_or, length-set, get_or-set_self, get_or-set_ne, subst, arith,
  inl, inr, Bool-cases, ==_iff,
}
use gigaquizz.Common.Bits.{bit, bit_and_step, bit_and_self}
use gigaquizz.Votecore.{ones_count, trailing_zeros, bump, count_bits}
use native.Mathlib.Nat.{pow-suc}

abbrev is_at : ℕ → ℕ → ℕ
is_at b t = if b == t then 1 else 0

pub clear_even : (q : ℕ) → 0 < q → bit_and (q * 2) (q * 2 - 1) ≡ bit_and q (q - 1) * 2
clear_even q h =
    let a : q * 2 / 2 ≡ q = omega arith in
    let b : (q * 2 - 1) / 2 ≡ q - 1 = omega arith in
    let e = bit_and_step (q * 2) (q * 2 - 1) in rw e (rw (a, b) (omega arith))

pub clear_odd : (q : ℕ) → bit_and (q * 2 + 1) (q * 2 + 1 - 1) ≡ q * 2
clear_odd q =
    let a : (q * 2 + 1) / 2 ≡ q = omega arith in
    let b : (q * 2 + 1 - 1) / 2 ≡ q = omega arith in
    let e = bit_and_step (q * 2 + 1) (q * 2 + 1 - 1) in
    rw e (rw (a, b) (omega (arith, bit_and_self q)))

-- `r` is `m` without its lowest one, which is at `trailing_zeros`, within the low `n` bits.
record Clears (n m r : ℕ) : Type 0 where
  place : trailing_zeros n m < n
  below : r < m
  bits : (b : ℕ) → bit b m ≡ bit b r + is_at b (trailing_zeros n m)
  ones : ones_count n m ≡ ones_count n r + 1

half_double : (q : ℕ) → q * 2 / 2 ≡ q
half_double q = omega arith

half_odd : (q : ℕ) → (q * 2 + 1) / 2 ≡ q
half_odd q = omega arith

odd_bits :
    (n q b : ℕ) → bit b (q * 2 + 1) ≡ bit b (q * 2) + is_at b (trailing_zeros (suc n) (q * 2 + 1))
unfolding trailing_zeros bit
odd_bits n q zero = ground arith
odd_bits n q (suc b) = rw (half_double q, half_odd q) (ground arith)

lowest_odd : (n q : ℕ) → Clears (suc n) (q * 2 + 1) (q * 2)
unfolding trailing_zeros ones_count
lowest_odd n q = record {
  place = ground arith;
  below = omega arith;
  bits = odd_bits n q;
  ones = rw (half_double q, half_odd q) (omega arith);
}

tz_double : (n q : ℕ) → trailing_zeros (suc n) (q * 2) ≡ suc (trailing_zeros n q)
unfolding trailing_zeros
tz_double n q = rw (half_double q) (ground arith)

even_bits :
    (n q r b : ℕ)
    → Clears n q r
    → bit b (q * 2) ≡ bit b (r * 2) + is_at b (trailing_zeros (suc n) (q * 2))
unfolding bit
even_bits n q r zero c = rw (tz_double n q) (ground arith)
even_bits n q r (suc b) c =
    rw (tz_double n q, half_double q, half_double r) (ground (arith, c.bits b))

lowest_even : (n q r : ℕ) → Clears n q r → Clears (suc n) (q * 2) (r * 2)
unfolding ones_count
lowest_even n q r c = record {
  place = omega (arith, tz_double n q, c.place);
  below = omega (arith, c.below);
  bits = λ b. even_bits n q r b c;
  ones = rw (half_double q, half_double r) (omega (arith, c.ones));
}

-- What `mask &= mask - 1` does to a mask that is not 0.
lowest_step : (n m : ℕ) → 0 < m → m < 2 ^ n → Clears n m (bit_and m (m - 1))
lowest_step zero m h k = absurd (omega arith)
lowest_step (suc n) m h k = elim (Bool-cases (m % 2 == 1)) [
  | inl e ↦
      let q : m ≡ m / 2 * 2 + 1 = omega (arith, (==_iff (m % 2) 1).0 e) in
      subst (λ t. Clears (suc n) t (bit_and t (t - 1))) (sym q)
        (rw (clear_odd (m / 2)) (lowest_odd n (m / 2)))
  | inr e ↦
      let q : m ≡ m / 2 * 2 = ground arith in
      subst (λ t. Clears (suc n) t (bit_and t (t - 1))) (sym q)
        (rw (clear_even (m / 2) (omega arith)) (
          lowest_even n (m / 2) _
            (lowest_step n (m / 2) (omega arith) (omega (arith, pow-suc 2 n)))))
]

get_or-bump :
    (counts : List ℕ) (t b : ℕ)
    → t < length counts
    → get_or counts b 0 + is_at b t < 2 ^ 64
    → get_or (bump counts t) b 0 ≡ get_or counts b 0 + is_at b t
unfolding bump
get_or-bump counts t b h w = elim (Bool-cases (b == t)) [
  | inl e ↦
      let q : b ≡ t = (==_iff b t).0 e in
      rw e (rw q (rw (get_or-set_self counts t _ 0 h) (ground (arith, q))))
  | inr e ↦
      let q : t ≢ b = λ p. ground (arith, p) in
      rw e (rw (get_or-set_ne counts t b _ 0 q) (omega arith))
]

bit-zero : (b : ℕ) → bit b 0 ≡ 0
unfolding bit
bit-zero zero = refl
bit-zero (suc b) = bit-zero b

no_ones : (m : ℕ) → m < 2 ^ 32 → ones_count 32 m ≤ 0 → m ≡ 0
no_ones zero h k = refl
no_ones (suc m) h k = absurd (omega (arith, (lowest_step 32 (suc m) (omega arith) h).ones))

length-bump : (counts : List ℕ) (i : ℕ) → length (bump counts i) ≡ length counts
unfolding bump
length-bump counts i = length-set counts i _

count_bits_round :
    (n m : ℕ) (counts : List ℕ)
    → 0 < m
    → count_bits (suc n) m counts
      ≡ count_bits n (bit_and m (m - 1)) (bump counts (trailing_zeros 32 m))
unfolding count_bits
count_bits_round n m counts h = ground arith

-- A count goes up by one exactly at the bits of the mask that is left, as long as it does not wrap.
count_bits_loop :
    (n m : ℕ) (counts : List ℕ) (b : ℕ)
    → m < 2 ^ 32
    → ones_count 32 m ≤ n
    → length counts ≡ 32
    → get_or counts b 0 + bit b m < 2 ^ 64
    → get_or (count_bits n m counts) b 0 ≡ get_or counts b 0 + bit b m
unfolding count_bits
count_bits_loop zero m counts b hm hn hl hb =
    omega (arith, ap (bit b) (no_ones m hm hn), bit-zero b)
count_bits_loop (suc n) zero counts b hm hn hl hb = omega (arith, bit-zero b)
count_bits_loop (suc n) (suc k) counts b hm hn hl hb =
    let m = suc k in
    let c = lowest_step 32 m (omega arith) hm in
    let t = trailing_zeros 32 m in
    let up = get_or-bump counts t b (omega (arith, c.place)) (omega (arith, c.bits b)) in
    ap (λ c. get_or c b 0) (count_bits_round n m counts (omega arith))
    ∙ count_bits_loop n (bit_and m (m - 1)) (bump counts t) b (omega (arith, c.below))
        (omega (arith, c.ones)) (length-bump counts t ∙ hl) (omega (arith, up, c.bits b))
    ∙ omega (arith, up, c.bits b)

length-count_bits : (n m : ℕ) (counts : List ℕ) → length (count_bits n m counts) ≡ length counts
unfolding count_bits
length-count_bits zero m counts = refl
length-count_bits (suc n) m counts = ground (
  arith,
  length-count_bits n (bit_and m (m - 1)) (bump counts (trailing_zeros 32 m)),
  length-bump counts (trailing_zeros 32 m),
)

ones_count-le : (n m : ℕ) → ones_count n m ≤ n
unfolding ones_count
ones_count-le zero m = omega arith
ones_count-le (suc n) m = omega (arith, ones_count-le n (m / 2))

-- For a uint32 mask and 32 counters of which the one at `b` does not wrap, the loop of Submit adds
-- to the counter at `b` the bit of the mask at `b`, for every `b`, and keeps the number of counters.
pub count_bits_lem :
    (m : ℕ) (counts : List ℕ) (b : ℕ)
    → m < 2 ^ 32
    → length counts ≡ 32
    → get_or counts b 0 + bit b m < 2 ^ 64
    → (get_or (count_bits 32 m counts) b 0 ≡ get_or counts b 0 + bit b m)
      × (length (count_bits 32 m counts) ≡ 32)
count_bits_lem m counts b hm hl hb = (
  count_bits_loop 32 m counts b hm (ones_count-le 32 m) hl hb,
  length-count_bits 32 m counts ∙ hl,
)
