-- ===== src/Votecore/Routing.antt =====
-- `Partition`: a shard index for every token, in range, and by the rule of internal/votelog.
use gigaquizz.Common.{
  ℕ, zero, suc, ◌+◌, ◌-◌, ◌*◌, ◌/◌, ◌%◌, ◌^◌, ◌≤◌, ◌<◌, ◌≡◌, refl, sym, bit_and, take, length,
  arith, ◌++◌, Bool-cases, inl, inr, ◌==◌, subst,
}
use gigaquizz.Common.Bits.{bit_and-le, bit_and_low}
use gigaquizz.Common.Bytes.{Bytes, from_be}
use gigaquizz.Votecore.{Engine, partition}
use gigaquizz.Votecore.Counts.{clear_even, clear_odd}
use native.Mathlib.Nat.{pow-suc}

-- The number that the journal and the core both take from SHA-256(poll id || token).
abbrev pub digest : (Bytes → Bytes) → Bytes → Bytes → ℕ
digest sha256 poll_id token = from_be (take 8 (sha256 (poll_id ++ token)))

abbrev pub route : (Bytes → Bytes) → Bytes → ℕ → Bytes → ℕ
route sha256 poll_id n token = bit_and (digest sha256 poll_id token) (n - 1)

pub partition-route :
    (sha256 : Bytes → Bytes) (e : Engine) (token : Bytes)
    → partition sha256 e token ≡ route sha256 e.cfg.poll_id (length e.shards) token
unfolding partition
partition-route sha256 e token = refl

pub route-lt :
    (sha256 : Bytes → Bytes) (poll_id : Bytes) (n : ℕ) (token : Bytes)
    → 0 < n
    → route sha256 poll_id n token < n
route-lt sha256 poll_id n token h = omega (arith, bit_and-le (digest sha256 poll_id token) (n - 1))

-- `n & (n - 1) == 0` holds of no numbers but 0 and the powers of 2.
power_of_two : (f n : ℕ) → n ≤ f → 0 < n → bit_and n (n - 1) ≡ 0 → (k : ℕ) × (n ≡ 2 ^ k)
power_of_two zero n h p e = absurd (omega arith)
power_of_two (suc f) n h p e = elim (Bool-cases (n % 2 == 1)) [
  | inl odd ↦ (0, odd_one (ground arith))
  | inr even ↦
      let q : n ≡ n / 2 * 2 = ground arith in
      let (k, r) = power_of_two f (n / 2) (omega arith) (omega arith) (halve q) in
      (suc k, omega (arith, pow-suc 2 k))
]
  where
    odd_one : n ≡ n / 2 * 2 + 1 → n ≡ 1
    odd_one q = omega (arith, clear_odd (n / 2), subst (λ t. bit_and t (t - 1) ≡ 0) q e)

    halve : n ≡ n / 2 * 2 → bit_and (n / 2) (n / 2 - 1) ≡ 0
    halve q =
        omega (arith, clear_even (n / 2) (omega arith), subst (λ t. bit_and t (t - 1) ≡ 0) q e)

-- Over a number of shards that `New` accepts, masking by `shards - 1` is the remainder that
-- internal/votelog takes.
pub route-eq-mod :
    (sha256 : Bytes → Bytes) (poll_id : Bytes) (n : ℕ) (token : Bytes)
    → 0 < n
    → bit_and n (n - 1) ≡ 0
    → route sha256 poll_id n token ≡ digest sha256 poll_id token % n
route-eq-mod sha256 poll_id n token h e =
    let (k, r) = power_of_two n n (omega arith) h e in
    subst (λ m. route sha256 poll_id m token ≡ digest sha256 poll_id token % m) (sym r)
      (bit_and_low k (digest sha256 poll_id token))
