-- ===== src/Votelog/Audit/Ledger.antt =====
-- What the ledger of an audit holds after any number of votes.
use gigaquizz.Common.{
  ℕ, zero, suc, ◌+◌, ◌*◌, ◌/◌, ◌%◌, ◌^◌, ◌≤◌, ◌<◌, ◌≡◌, refl, sym, ap, ◌∙◌, false, List, [], ◌∷◌,
  ◌++◌, Option, none, some, length, get_or, All, arith, ◌==◌, if◌then◌else◌, Bool-cases, inl, inr,
  bit_and, ==_sound, ==_no,
}
use gigaquizz.Common.Bits.{bit, bit-le, bit_and_step, bit_and-zero, one_le_pow}
use gigaquizz.Common.Bytes.{Bytes, bytes_eq}
use gigaquizz.Common.Assoc.{Assoc, lookup, UniqueKeys}
use gigaquizz.Common.Total.{sum_of}
use gigaquizz.Votelog.{Config, Vote, Position}
use gigaquizz.Votelog.Replay.Votes.{Admitted}
use gigaquizz.Votelog.Audit.{AuditResult, same_position, has_position, count_choice}
use native.Mathlib.Nat.{pow-suc}

-- The first vote of a token, of all records in the order in which they were read.
unfoldable pub first_of : Bytes → List (Position × Vote) → Option Vote
first_of token [] = none
first_of token ((p, v) ∷ rs) = if bytes_eq v.token token then some v else first_of token rs

-- No position stands twice.
abbrev pub Distinct : List (Position × Vote) → Type 0
Distinct [] = Unit {0}
Distinct ((p, v) ∷ rs) = (has_position p rs ≡ false) × Distinct rs

abbrev pub votes_at : ℕ → Assoc Vote → ℕ
votes_at b = sum_of (λ (e : Bytes × Vote). bit b e.1.choice)

pub record AuditInv (sha256 : Bytes → Bytes) (c : Config) (a : AuditResult) : Type 0 where
  pub total_is : a.total_attempts ≡ length a.records
  pub few : a.total_attempts ≤ 12_000_000
  pub distinct : Distinct a.records
  pub admitted : All (λ (r : Position × Vote). Admitted sha256 c r.0 r.1) a.records
  pub unique : UniqueKeys a.canonical
  pub fewer : length a.canonical ≤ length a.records
  pub firsts : (token : Bytes) → lookup token a.canonical ≡ first_of token a.records
  pub counters : length a.choice_counts ≡ 32
  pub counted : (b : ℕ) → b < 32 → get_or a.choice_counts b 0 ≡ votes_at b a.canonical

-- `choice & (1 << b)` is the bit of the choice, in its place.
bit_and-pow : (b m : ℕ) → bit_and m (2 ^ b) ≡ bit b m * 2 ^ b
unfolding bit
bit_and-pow zero m = let e = bit_and_step m 1 in rw e (rw (bit_and-zero (m / 2)) (ground arith))
bit_and-pow (suc b) m =
    let half : 2 ^ suc b / 2 ≡ 2 ^ b = omega (arith, pow-suc 2 b) in
    let even : 2 ^ suc b % 2 ≡ 0 = omega (arith, pow-suc 2 b) in
    let e = bit_and_step m (2 ^ suc b) in
    rw e (
      rw (half, even)
        (omega (
          arith,
          bit_and-pow b (m / 2),
          pow-suc 2 b,
          ap (λ (t : ℕ). bit b (m / 2) * t) (pow-suc 2 b),
        )))

count_one :
    (b m n : ℕ)
    → n + 1 < 2 ^ 64
    → (if bit_and m (2 ^ b) == 0 then n else (n + 1) % 2 ^ 64) ≡ n + bit b m
count_one b m n small = elim (Bool-cases (bit_and m (2 ^ b) == 0)) [
  | inl e ↦ rw e (sym (omega (arith, clear (bit b m) (sym (bit_and-pow b m) ∙ ==_sound _ 0 e))))
  | inr e ↦
      rw e (omega (arith, bit-le b m, raised (bit b m) (λ h. ==_no _ 0 e (bit_and-pow b m ∙ h))))
]
  where
    clear : (k : ℕ) → k * 2 ^ b ≡ 0 → k ≡ 0
    clear zero h = refl
    clear (suc k) h = absurd (grind (arith, one_le_pow b))

    raised : (k : ℕ) → (k * 2 ^ b ≡ 0 → ⊥) → 1 ≤ k
    raised zero h = absurd (h (omega arith))
    raised (suc k) h = omega arith

pub length-count_choice : (i m : ℕ) (ns : List ℕ) → length (count_choice i m ns) ≡ length ns
unfolding count_choice
length-count_choice i m [] = refl
length-count_choice i m (n ∷ ns) = ap suc (length-count_choice (i + 1) m ns)

pub get_or-count_choice :
    (i m b : ℕ) (ns : List ℕ)
    → b < length ns
    → get_or ns b 0 + 1 < 2 ^ 64
    → get_or (count_choice i m ns) b 0 ≡ get_or ns b 0 + bit (i + b) m
unfolding count_choice
get_or-count_choice i m b [] h small = absurd (omega arith)
get_or-count_choice i m zero (n ∷ ns) h small =
    count_one i m n small ∙ ap (λ k. n + bit k m) (omega arith)
get_or-count_choice i m (suc b) (n ∷ ns) h small =
    get_or-count_choice (i + 1) m b ns (omega arith) small
    ∙ ap (λ k. get_or ns b 0 + bit k m) (omega arith)

pub first_of-snoc :
    (token : Bytes) (rs : List (Position × Vote)) (p : Position) (v : Vote)
    → first_of token (rs ++ (p, v) ∷ []) ≡ elim (first_of token rs) [
      | some w ↦ some w
      | none ↦ if bytes_eq v.token token then some v else none
    ]
unfolding first_of
first_of-snoc token [] p v = refl
first_of-snoc token ((q, w) ∷ rs) p v = elim (Bool-cases (bytes_eq w.token token)) [
  | inl e ↦ rw e refl
  | inr e ↦ rw e (first_of-snoc token rs p v)
]

same_position-sym : (p q : Position) → same_position p q ≡ same_position q p
unfolding same_position
same_position-sym p q = ground arith

has_position-snoc :
    (p q : Position) (v : Vote) (rs : List (Position × Vote))
    → has_position p rs ≡ false
    → same_position q p ≡ false
    → has_position p (rs ++ (q, v) ∷ []) ≡ false
unfolding has_position
has_position-snoc p q v [] h e = rw e refl
has_position-snoc p q v ((r, w) ∷ rs) h e = ground (arith, has_position-snoc p q v rs)

pub Distinct-snoc :
    (p : Position) (v : Vote) (rs : List (Position × Vote))
    → Distinct rs
    → has_position p rs ≡ false
    → Distinct (rs ++ (p, v) ∷ [])
unfolding has_position
Distinct-snoc p v [] d h = (refl, tt)
Distinct-snoc p v ((q, w) ∷ rs) d h = (
  has_position-snoc q p v rs d.0 (same_position-sym p q ∙ ground arith),
  Distinct-snoc p v rs d.1 (ground arith),
)

pub All-snoc :
    {A : Type 0} (P : A → Type 0) (xs : List A) (x : A) → All P xs → P x → All P (xs ++ x ∷ [])
All-snoc P [] x h p = (p, tt)
All-snoc P (y ∷ ys) x h p = (h.0, All-snoc P ys x h.1 p)
