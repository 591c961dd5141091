-- ===== src/Filelog/Codec.antt =====
-- internal/filelog/codec.go: the bytes of the journal file.
pub mod Entries
mod Fields
pub mod Frames
pub mod Tests
pub mod Opening
pub mod Checks
use gigaquizz.Common.{
  ℕ, zero, suc, ◌+◌, ◌-◌, ◌*◌, ◌/◌, ◌%◌, ◌^◌, Bool, true, false, not, ◌&&◌, ◌||◌, List, [], ◌∷◌,
  ◌++◌, Option, none, some, ltb, leb, ◌==◌, if◌then◌else◌, length, take, drop,
}
use gigaquizz.Common.Bytes.{Bytes, bytes_eq, zeros, slice, be, from_be}
use gigaquizz.Crc.{checksum}
use gigaquizz.GoTime.{before, unix_nano, from_unix_nano}
use gigaquizz.Filelog.Types.{Config, Input, Vote, zero_token, valid_choice}

abbrev pub file_header_bytes : ℕ
file_header_bytes = 80

abbrev pub frame_header_bytes : ℕ
frame_header_bytes = 40

abbrev pub entry_bytes : ℕ
entry_bytes = 28

abbrev pub max_frame_votes : ℕ
max_frame_votes = 4096

abbrev pub kind_votes : ℕ
kind_votes = 1

abbrev pub kind_closed : ℕ
kind_closed = 2

-- "GQFILE01" and "GQF1"
abbrev pub file_magic : Bytes
file_magic = b'G' ∷ b'Q' ∷ b'F' ∷ b'I' ∷ b'L' ∷ b'E' ∷ b'0' ∷ b'1' ∷ []

abbrev pub frame_magic : Bytes
frame_magic = b'G' ∷ b'Q' ∷ b'F' ∷ b'1' ∷ []

header_fields : Config → Bytes
header_fields c =
    file_magic
    ++ (c.poll_id
        ++ (be 8 (unix_nano c.starts_at)
            ++ (be 8 (unix_nano c.ends_at)
                ++ (be 4 c.allowed_mask ++ ((if c.multiple then 1 else 0) ∷ zeros 31)))))

-- `fileHeader`: the last 4 bytes are the checksum of the 76 before them.
pub file_header : Config → Bytes
unfolding header_fields
file_header c = header_fields c ++ be 4 (checksum (header_fields c))

unfoldable pub encode_entry : Input → ℕ → Bytes
encode_entry i admitted = i.token ++ (be 4 i.choice ++ be 8 (unix_nano admitted))

unfoldable pub encode_entries : List Input → ℕ → Bytes
encode_entries [] admitted = []
encode_entries (i ∷ is) admitted = encode_entry i admitted ++ encode_entries is admitted

-- `encodeInputs`: the header's bytes are still 0.
unfoldable pub encode_inputs : List Input → ℕ → Bytes
encode_inputs inputs admitted = zeros frame_header_bytes ++ encode_entries inputs admitted

-- The first 36 bytes that `finishFrame` leaves; it writes all of them but b[24:32].
header_front : Bytes → ℕ → ℕ → ℕ → Bytes
header_front b sequence kind count =
    frame_magic
    ++ (be 4 (length b % 2 ^ 32)
        ++ (be 8 sequence
            ++ (be 4 kind
                ++ (be 4 count ++ (slice 24 8 b ++ be 4 (checksum (drop frame_header_bytes b)))))))

pub finish_frame : Bytes → ℕ → ℕ → ℕ → Bytes
unfolding header_front
finish_frame b sequence kind count =
    let front = header_front b sequence kind count in
    (front ++ be 4 (checksum front)) ++ drop frame_header_bytes b

pub data CodecError : Type 0 where
  invalid_header invalid_length payload_crc invalid_vote : CodecError

pub data Header : Type 0 where
  parsed : ℕ → ℕ → Header
  refused : CodecError → Header

-- The second test of `checkFrameHeader`, negated.
pub known_frame : ℕ → ℕ → ℕ → Bool
known_frame kind count size =
    (kind == kind_votes || kind == kind_closed)
    && not (kind == kind_votes && (count == 0 || ltb max_frame_votes count))
    && not (kind == kind_closed && not (count == 0))
    && size == (frame_header_bytes + count * entry_bytes) % 2 ^ 32

-- `checkFrameHeader`: the frame's kind and count, or an error.
pub check_frame_header : Bytes → ℕ → Header
check_frame_header b sequence =
    if not (length b == frame_header_bytes)
      || not (bytes_eq (take 4 b) frame_magic)
      || not (from_be (slice 36 4 b) == checksum (take 36 b))
      || not (from_be (slice 8 8 b) == sequence)
      || not (bytes_eq (slice 24 8 b) (zeros 8))
    then refused invalid_header
    else let kind = from_be (slice 16 4 b) in
      let count = from_be (slice 20 4 b) in
      if known_frame kind count (from_be (slice 4 4 b))
      then parsed kind count
      else refused invalid_length

unfoldable pub decode_entry : Bytes → Vote
decode_entry e = record {
  token = take 16 e;
  choice = from_be (slice 16 4 e);
  admitted_at = from_unix_nano (from_be (slice 20 8 e));
}

-- The loop's test in `validatePayload`, negated.
unfoldable pub valid_vote : Config → Vote → Bool
valid_vote c v =
    not (bytes_eq v.token zero_token)
    && valid_choice c v.choice
    && not (before v.admitted_at c.starts_at)
    && before v.admitted_at c.ends_at

-- The loop over `n` entries.
pub valid_entries : Config → ℕ → Bytes → Bool
valid_entries c zero payload = true
valid_entries c (suc n) payload =
    valid_vote c (decode_entry (take entry_bytes payload))
    && valid_entries c n (drop entry_bytes payload)

-- `validatePayload`; `none` is no error.
pub validate_payload : Config → Bytes → Bytes → Option CodecError
validate_payload c header payload =
    if not (from_be (slice 32 4 header) == checksum payload)
    then some payload_crc
    else if valid_entries c (length payload / entry_bytes) payload
    then none
    else some invalid_vote
