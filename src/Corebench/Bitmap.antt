-- ===== src/Corebench/Bitmap.antt =====
-- cmd/corebench/metrics.go: the bitmap of two-bit choices.
use gigaquizz.Common.{
  ℕ, zero, suc, ◌*◌, ◌/◌, ◌%◌, ◌<◌, ◌≡◌, ◌≢◌, refl, sym, ap, ◌∙◌, subst, Bool, true, false, ◌&&◌,
  &&_split, [], ◌∷◌, ◌==◌, ==_no, ==_sound, ==_refl, ==_ne, if◌then◌else◌, length, get_or,
  get_or-set_self, get_or-set_ne, All, arith, Bool-cases, inl, inr,
}
use gigaquizz.Common.Bytes.{Bytes, IsByte}
use gigaquizz.Corebench.{set_bits, get_bits, set_choice, get_choice}
use native.Mathlib.Nat.{mod-lt}

abbrev all_below : ℕ → (ℕ → Bool) → Bool
all_below zero test = true
all_below (suc n) test = test n && all_below n test

all_below-at : (n i : ℕ) (test : ℕ → Bool) → all_below n test ≡ true → i < n → test i ≡ true
all_below-at zero i test h low = absurd (omega (arith, low))
all_below-at (suc n) i test h low =
    let (top, rest) = &&_split (test n) (all_below n test) h in
    elim (Bool-cases (i == n)) [
      | inl e ↦ subst (λ j. test j ≡ true) (sym (==_sound i n e)) top
      | inr e ↦ all_below-at n i test rest (omega (arith, low, ==_no i n e))
    ]

-- A write of two bits, and a read of the same or of two others.
abbrev written : ℕ → ℕ → ℕ → ℕ → ℕ
written s s' choice b = if s == s' then choice else get_bits (s' * 2) b

abbrev reads : ℕ → ℕ → ℕ → ℕ → Bool
reads s s' choice b = get_bits (s' * 2) (set_bits (s * 2) choice b) == written s s' choice b

all_bytes :
    all_below 4 (λ s. all_below 4 (λ s'. all_below 4 (λ choice. all_below 256 (reads s s' choice))))
    ≡ true
all_bytes = refl

bits_written :
    (s s' choice b : ℕ)
    → s < 4
    → s' < 4
    → choice < 4
    → b < 256
    → get_bits (s' * 2) (set_bits (s * 2) choice b) ≡ written s s' choice b
bits_written s s' choice b hs hs' hc hb = ==_sound _ _ (
    all_below-at 256 b (reads s s' choice)
      (all_below-at 4 choice (λ choice. all_below 256 (reads s s' choice))
        (all_below-at 4 s' (λ s'. all_below 4 (λ choice. all_below 256 (reads s s' choice)))
          (all_below-at 4 s
            (λ s. all_below 4 (λ s'. all_below 4 (λ choice. all_below 256 (reads s s' choice))))
            all_bytes hs)
          hs')
        hc)
      hb)

byte_at : (bitmap : Bytes) (i : ℕ) → All IsByte bitmap → get_or bitmap i 0 < 256
byte_at [] i h = omega arith
byte_at (b ∷ bs) zero h = h.0
byte_at (b ∷ bs) (suc i) h = byte_at bs i h.1

same_byte : (key other : ℕ) → key / 4 ≡ other / 4 → (key % 4 == other % 4) ≡ (key == other)
same_byte key other e = elim (Bool-cases (key == other)) [
  | inl same ↦ rw (same, ← ==_sound key other same) (==_refl (key % 4))
  | inr apart ↦
      rw apart
        (==_ne (key % 4) (other % 4) (λ f. absurd (==_no key other apart (omega (arith, e, f)))))
]

other_byte : (key other : ℕ) → key / 4 ≢ other / 4 → (key == other) ≡ false
other_byte key other apart = ==_ne key other (λ e. apart (ap (λ k. k / 4) e))

-- After setChoice of a choice below 4 for a key that the bitmap has room for, getChoice of that key is
-- the choice, and getChoice of every other key is what it was.
pub get_choice-set_choice :
    (bitmap : Bytes) (key other choice : ℕ)
    → All IsByte bitmap
    → key / 4 < length bitmap
    → choice < 4
    → get_choice (set_choice bitmap key choice) other
      ≡ (if key == other then choice else get_choice bitmap other)
unfolding get_choice set_choice
get_choice-set_choice bitmap key other choice bytes low small =
    elim (Bool-cases (key / 4 == other / 4)) [
      | inl same ↦ rw (← ==_sound (key / 4) (other / 4) same) (
          rw
            (get_or-set_self bitmap (key / 4)
              (set_bits (key % 4 * 2) choice (get_or bitmap (key / 4) 0)) 0 (omega arith))
            (bits_written (key % 4) (other % 4) choice (get_or bitmap (key / 4) 0)
                (mod-lt key (omega arith)) (mod-lt other (omega arith)) small
                (byte_at bitmap (key / 4) bytes)
              ∙ rw (same_byte key other (==_sound (key / 4) (other / 4) same)) refl))
      | inr apart ↦
          rw
            (get_or-set_ne bitmap (key / 4) (other / 4)
              (set_bits (key % 4 * 2) choice (get_or bitmap (key / 4) 0)) 0
              (==_no (key / 4) (other / 4) apart))
            (rw (other_byte key other (==_no (key / 4) (other / 4) apart)) refl)
    ]
