-- ===== src/Filelog/Codec/Entries.antt =====
-- One entry of a frame: what is written is read back.
use gigaquizz.Common.{
  ℕ, ◌*◌, ◌^◌, ◌<◌, ◌≡◌, refl, sym, ap, ◌∙◌, true, false, List, [], ◌∷◌, ◌++◌, length,
  length-append, All, arith,
}
use gigaquizz.Common.Bytes.{
  Bytes, bytes_eq, slice, be, from_be, length-be, from_be-be, slice-skip, take-exact, drop-exact,
}
use gigaquizz.GoTime.{
  unix_nano, from_unix_nano, unix_nano-lt, from_unix_nano-unix_nano, InNanoRange,
}
use gigaquizz.Filelog.Types.{Config, Input, Vote, zero_token, valid_choice, InWindow}
use gigaquizz.Filelog.Codec.{encode_entry, encode_entries, decode_entry, valid_vote, valid_entries}
use mathlib.Core.List.{append_assoc, append-nil}

-- What `SubmitFrame` lets through: a [16]byte token that is not zero, and a valid uint32 choice.
pub record IsInput (c : Config) (i : Input) : Type 0 where
  pub size : length i.token ≡ 16
  pub nonzero : bytes_eq i.token zero_token ≡ false
  pub word : i.choice < 2 ^ 32
  pub choice : valid_choice c i.choice ≡ true

abbrev pub vote_of : Input → ℕ → Vote
vote_of i t = record { token = i.token; choice = i.choice; admitted_at = t }

pub length-encode_entry : (i : Input) (t : ℕ) → length i.token ≡ 16 → length (encode_entry i t) ≡ 28
unfolding encode_entry
length-encode_entry i t h = omega (
  arith,
  length-append i.token (be 4 i.choice ++ be 8 (unix_nano t)),
  length-append (be 4 i.choice) (be 8 (unix_nano t)),
  length-be 4 i.choice,
  length-be 8 (unix_nano t),
)

-- Reading an entry of a vote of the right sizes, at an instant in the range of an int64 of nanoseconds,
-- gives back the vote, whatever follows it.
pub decode_entry-encode_entry :
    (i : Input) (t : ℕ) (rest : Bytes)
    → length i.token ≡ 16
    → i.choice < 2 ^ 32
    → InNanoRange t
    → decode_entry (encode_entry i t ++ rest) ≡ vote_of i t
unfolding decode_entry encode_entry
decode_entry-encode_entry i t rest size word range =
    let choice_part = be 4 i.choice in
    let time_part = be 8 (unix_nano t) in
    let split : (i.token ++ (choice_part ++ time_part)) ++ rest
        ≡ i.token ++ (choice_part ++ (time_part ++ rest)) =
      append_assoc i.token (choice_part ++ time_part) rest
      ∙ ap (λ b. i.token ++ b) (append_assoc choice_part time_part rest) in
    rw split (λ k. record {
      token = take-exact 16 i.token (choice_part ++ (time_part ++ rest)) size k;
      choice = choice_read k;
      admitted_at = time_read k;
    })
  where
    after : Bytes
    after = be 8 (unix_nano t) ++ rest

    choice_read : from_be (slice 16 4 (i.token ++ (be 4 i.choice ++ after))) ≡ i.choice
    choice_read =
        ap from_be (
          slice-skip 16 0 4 i.token (be 4 i.choice ++ after) size
          ∙ take-exact 4 (be 4 i.choice) after (length-be 4 i.choice))
        ∙ from_be-be 4 i.choice word

    time_read : from_unix_nano (from_be (slice 20 8 (i.token ++ (be 4 i.choice ++ after)))) ≡ t
    time_read =
        ap (λ b. from_unix_nano (from_be b))
          (slice-skip 16 4 8 i.token (be 4 i.choice ++ after) size
            ∙ slice-skip 4 0 8 (be 4 i.choice) after (length-be 4 i.choice)
            ∙ take-exact 8 (be 8 (unix_nano t)) rest (length-be 8 (unix_nano t)))
        ∙ ap from_unix_nano (from_be-be 8 (unix_nano t) (unix_nano-lt t))
        ∙ from_unix_nano-unix_nano t range

pub length-encode_entries :
    (c : Config) (is : List Input) (t : ℕ)
    → All (IsInput c) is
    → length (encode_entries is t) ≡ length is * 28
unfolding encode_entries
length-encode_entries c [] t h = refl
length-encode_entries c (i ∷ is) t h = omega (
  arith,
  length-append (encode_entry i t) (encode_entries is t),
  length-encode_entry i t h.0.size,
  length-encode_entries c is t h.1,
)

valid_vote-vote_of :
    (c : Config) (i : Input) (t : ℕ)
    → IsInput c i
    → InWindow c t
    → valid_vote c (vote_of i t) ≡ true
unfolding valid_vote
valid_vote-vote_of c i t h w = ground (arith, h.nonzero, h.choice, w.from, w.until)

-- The entries of valid inputs, admitted in the window, pass the payload's test.
pub valid_entries-encode_entries :
    (c : Config) (is : List Input) (t : ℕ)
    → All (IsInput c) is
    → InWindow c t
    → InNanoRange t
    → valid_entries c (length is) (encode_entries is t) ≡ true
unfolding valid_entries encode_entries
valid_entries-encode_entries c [] t h w r = refl
valid_entries-encode_entries c (i ∷ is) t h w r =
    let size = length-encode_entry i t h.0.size in
    rw (take-exact 28 (encode_entry i t) (encode_entries is t) size) (
      rw (drop-exact 28 (encode_entry i t) (encode_entries is t) size) (
        rw (read i h.0)
          (rw (valid_vote-vote_of c i t h.0 w) (valid_entries-encode_entries c is t h.1 w r))))
  where
    read : (i : Input) → IsInput c i → decode_entry (encode_entry i t) ≡ vote_of i t
    read i v =
        ap decode_entry (sym (append-nil (encode_entry i t)))
        ∙ decode_entry-encode_entry i t [] v.size v.word r
