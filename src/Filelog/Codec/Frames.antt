-- ===== src/Filelog/Codec/Frames.antt =====
-- One frame: what `encodeInputs` and `finishFrame` write passes the checks of the reader.
use gigaquizz.Common.{
  ℕ, ◌+◌, ◌*◌, ◌/◌, ◌%◌, ◌^◌, ◌≤◌, ◌<◌, ◌≡◌, refl, sym, ap, subst, ◌∙◌, true, List, [], ◌++◌, none,
  length, length-append, take, All, arith, ==_refl,
}
use gigaquizz.Common.Bytes.{Bytes, bytes_eq_refl, slice, be, from_be, length-be, from_be-be, zeros}
use gigaquizz.Crc.{checksum, checksum-lt}
use gigaquizz.GoTime.{InNanoRange}
use gigaquizz.Filelog.Types.{Config, Input, InWindow}
use gigaquizz.Filelog.Codec.{
  frame_magic, finish_frame, encode_entries, parsed, known_frame, check_frame_header, valid_entries,
  validate_payload,
}
use gigaquizz.Filelog.Codec.Entries.{IsInput, length-encode_entries, valid_entries-encode_entries}
use gigaquizz.Filelog.Codec.Fields.{front_of, layout}

front_bytes : Bytes → ℕ → ℕ → ℕ → Bytes
front_bytes payload sequence kind count =
    front_of frame_magic (be 4 ((40 + length payload) % 2 ^ 32)) (be 8 sequence) (be 4 kind)
      (be 4 count) (zeros 8) (be 4 (checksum payload))

-- A frame as it stands in the file: its header and its payload. The 8 bytes that `finishFrame` does
-- not write are 0.
pub header_of : Bytes → ℕ → ℕ → ℕ → Bytes
unfolding front_bytes
header_of payload sequence kind count =
    let front = front_bytes payload sequence kind count in front ++ be 4 (checksum front)

pub finish_frame-header_of :
    (payload : Bytes) (sequence kind count : ℕ)
    → finish_frame (zeros 40 ++ payload) sequence kind count
      ≡ header_of payload sequence kind count ++ payload
unfolding finish_frame header_of
finish_frame-header_of payload sequence kind count =
    let size : length (zeros 40 ++ payload) ≡ 40 + length payload =
      length-append (zeros 40) payload in
    rw size refl

-- The fields of a header, as the reader takes them out.
pub record Fielded (b : Bytes) (sequence kind count size payload_sum : ℕ) : Type 0 where
  pub long : length b ≡ 40
  pub magic : take 4 b ≡ frame_magic
  pub own : from_be (slice 36 4 b) ≡ checksum (take 36 b)
  pub sequence_read : from_be (slice 8 8 b) ≡ sequence
  pub gap : slice 24 8 b ≡ zeros 8
  pub kind_read : from_be (slice 16 4 b) ≡ kind
  pub count_read : from_be (slice 20 4 b) ≡ count
  pub size_read : from_be (slice 4 4 b) ≡ size
  pub payload_read : from_be (slice 32 4 b) ≡ payload_sum

pub check_frame_header-Fielded :
    (b : Bytes) (sequence kind count size payload_sum : ℕ)
    → Fielded b sequence kind count size payload_sum
    → known_frame kind count size ≡ true
    → check_frame_header b sequence ≡ parsed kind count
unfolding check_frame_header
check_frame_header-Fielded b sequence kind count size payload_sum f known =
    rw
      (
        f.long, f.magic, f.own, f.sequence_read, f.gap, f.kind_read, f.count_read, f.size_read,
        known,
      )
      (rw
        (
          ==_refl (checksum (take 36 b)),
          ==_refl sequence,
          bytes_eq_refl (zeros 8),
          bytes_eq_refl frame_magic,
        )
        refl)

header_of-Fielded :
    (payload : Bytes) (sequence kind count : ℕ)
    → length payload < 2 ^ 31
    → sequence < 2 ^ 64
    → kind < 2 ^ 32
    → count < 2 ^ 32
    → Fielded
        (header_of payload sequence kind count)
        sequence
        kind
        count
        (40 + length payload)
        (checksum payload)
unfolding header_of
header_of-Fielded payload sequence kind count fits word kind_word count_word =
    let size_word = be 4 ((40 + length payload) % 2 ^ 32) in
    let front = front_bytes payload sequence kind count in
    let l =
      layout frame_magic size_word (be 8 sequence) (be 4 kind) (be 4 count) (zeros 8)
        (be 4 (checksum payload)) (be 4 (checksum front)) refl (length-be 4 _)
        (length-be 8 sequence) (length-be 4 kind) (length-be 4 count) refl (length-be 4 _)
        (length-be 4 _) in
    record {
      long = l.long;
      magic = l.magic_field;
      own =
          ap from_be l.own_field
          ∙ from_be-be 4 (checksum front) (checksum-lt front)
          ∙ ap checksum (sym l.front_field);
      sequence_read = ap from_be l.sequence_field ∙ from_be-be 8 sequence word;
      gap = l.gap_field;
      kind_read = ap from_be l.kind_field ∙ from_be-be 4 kind kind_word;
      count_read = ap from_be l.count_field ∙ from_be-be 4 count count_word;
      size_read =
          ap from_be l.size_field
          ∙ from_be-be 4 ((40 + length payload) % 2 ^ 32) (omega arith)
          ∙ omega arith;
      payload_read =
          ap from_be l.payload_field ∙ from_be-be 4 (checksum payload) (checksum-lt payload);
    }

-- A frame of votes that the journal can hold.
pub record IsFrame (c : Config) (is : List Input) (t sequence : ℕ) : Type 0 where
  pub some_votes : 1 ≤ length is
  pub few_votes : length is ≤ 4096
  pub inputs : All (IsInput c) is
  pub window : InWindow c t
  pub range : InNanoRange t
  pub word : sequence < 2 ^ 63

abbrev pub vote_header : List Input → ℕ → ℕ → Bytes
vote_header is t sequence = header_of (encode_entries is t) sequence 1 (length is)

-- The header that stands before a frame of votes.
pub vote_header-Fielded :
    (c : Config) (is : List Input) (t sequence : ℕ)
    → IsFrame c is t sequence
    → Fielded
        (vote_header is t sequence)
        sequence
        1
        (length is)
        (40 + length is * 28)
        (checksum (encode_entries is t))
vote_header-Fielded c is t sequence f =
    let size = length-encode_entries c is t f.inputs in
    subst
      (λ n.
        Fielded (vote_header is t sequence) sequence 1 (length is) (40 + n)
          (checksum (encode_entries is t)))
      size
      (header_of-Fielded (encode_entries is t) sequence 1 (length is)
        (omega (arith, size, f.few_votes)) (omega (arith, f.word)) (omega arith)
        (omega (arith, f.few_votes)))

known_votes : (n : ℕ) → 1 ≤ n → n ≤ 4096 → known_frame 1 n (40 + n * 28) ≡ true
unfolding known_frame
known_votes n h k = ground arith

-- The reader's checks of a frame of votes, header and payload, pass.
pub vote_frame_checks :
    (c : Config) (is : List Input) (t sequence : ℕ)
    → IsFrame c is t sequence
    → (check_frame_header (vote_header is t sequence) sequence ≡ parsed 1 (length is))
      × (validate_payload c (vote_header is t sequence) (encode_entries is t) ≡ none)
      × (length (vote_header is t sequence) ≡ 40)
      × (length (encode_entries is t) ≡ length is * 28)
unfolding validate_payload
vote_frame_checks c is t sequence f =
    let h = vote_header-Fielded c is t sequence f in
    let size = length-encode_entries c is t f.inputs in
    let entries : length (encode_entries is t) / 28 ≡ length is = omega (arith, size) in
    (
      check_frame_header-Fielded _ sequence 1 (length is) _ _ h
          (known_votes (length is) f.some_votes f.few_votes),
      rw (h.payload_read) (
          rw (==_refl (checksum (encode_entries is t)))
            (rw entries (rw (valid_entries-encode_entries c is t f.inputs f.window f.range)))),
      h.long,
      size,
    )

-- The CLOSED frame, which has no payload.
abbrev pub closed_frame : ℕ → Bytes
closed_frame sequence = header_of [] sequence 2 0

pub closed_frame_checks :
    (c : Config) (sequence : ℕ)
    → sequence < 2 ^ 63
    → (check_frame_header (closed_frame sequence) sequence ≡ parsed 2 0)
      × (validate_payload c (closed_frame sequence) [] ≡ none)
      × (length (closed_frame sequence) ≡ 40)
unfolding validate_payload valid_entries known_frame
closed_frame_checks c sequence word =
    let h =
      header_of-Fielded [] sequence 2 0 (omega arith) (omega arith) (omega arith) (omega arith) in
    (
      check_frame_header-Fielded _ sequence 2 0 40 _ h refl,
      rw (h.payload_read) (rw (==_refl (checksum []))),
      h.long,
    )
