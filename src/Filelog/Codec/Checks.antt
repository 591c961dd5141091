-- ===== src/Filelog/Codec/Checks.antt =====
-- What the reader knows of a payload that passed `validatePayload`.
use gigaquizz.Common.{
  ℕ, suc, ◌+◌, ◌*◌, ◌/◌, ◌≤◌, ◌≡◌, refl, sym, ap, ◌∙◌, true, &&_split, none, length, take, drop,
  take-take, drop-take, arith,
}
use gigaquizz.Common.Bytes.{Bytes, slice}
use gigaquizz.Filelog.Types.{Config}
use gigaquizz.Filelog.Codec.{decode_entry, valid_vote, valid_entries, validate_payload}

slice-take : (a n m : ℕ) (b : Bytes) → n ≤ m → slice a n (take (a + m) b) ≡ slice a n b
slice-take a n m b h = ap (take n) (drop-take a m b) ∙ take-take n m (drop a b) h

-- An entry is decoded from its own 28 bytes.
pub decode_entry-take : (b : Bytes) → decode_entry (take 28 b) ≡ decode_entry b
unfolding decode_entry
decode_entry-take b =
    rw (take-take 16 28 b (omega arith))
      (rw (slice-take 16 4 12 b (omega arith)) (rw (slice-take 20 8 8 b (omega arith)) refl))

pub valid_entries-suc :
    (c : Config) (n : ℕ) (b : Bytes)
    → valid_entries c (suc n) b ≡ true
    → (valid_vote c (decode_entry b) ≡ true) × (valid_entries c n (drop 28 b) ≡ true)
unfolding valid_entries
valid_entries-suc c n b h =
    let (first, others) = &&_split _ _ h in
    (sym (ap (valid_vote c) (decode_entry-take b)) ∙ first, others)

pub validate_payload-none :
    (c : Config) (header payload : Bytes) (n : ℕ)
    → length payload ≡ n * 28
    → validate_payload c header payload ≡ none
    → valid_entries c n payload ≡ true
unfolding validate_payload
validate_payload-none c header payload n size h =
    let entries : length payload / 28 ≡ n = omega (arith, size) in
    sym (ap (λ k. valid_entries c k payload) entries) ∙ ground arith
