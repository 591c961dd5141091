-- ===== src/Votelog/Frame.antt =====
-- internal/votelog/frame.go: a batch of votes in one record of the broker. A visitor works on a state
-- of the caller's and may return an error.
pub mod RoundTrip
pub mod Visits
mod Tests
use gigaquizz.Common.{
  ℕ, zero, suc, ◌+◌, ◌-◌, ◌*◌, ◌^◌, Bool, true, false, not, ◌&&◌, ◌||◌, List, [], ◌∷◌, ◌++◌, Option,
  none, some, ltb, ◌==◌, if◌then◌else◌, length, get_or, take, drop,
}
use gigaquizz.Common.Bytes.{Bytes, bytes_eq, zeros, slice, be, from_be}
use gigaquizz.GoTime.{before, unix_nano, from_unix_nano}
use gigaquizz.Votelog.{
  Config, Vote, no_vote, ConfigError, validate, zero_token, valid_choice, record_vote, record_boot,
  encode_record, RecordError, Decoded, decoded, refused, decode_record,
}

abbrev pub frame_version : ℕ
frame_version = 2

abbrev pub frame_entry_bytes : ℕ
frame_entry_bytes = 28

abbrev pub max_frame_votes : ℕ
max_frame_votes = 4096

-- `visitor e` is an error that the visitor returns.
pub data FrameError (E : Type 0) : Type 0 where
  config : ConfigError → FrameError E
  outside_bounds bad_format bad_count bad_vote : FrameError E
  header : RecordError → FrameError E
  visitor : E → FrameError E

pub data Encoded : Type 0 where
  bytes : Bytes → Encoded
  rejected : FrameError ⊥ → Encoded

-- `validFrameVote`
unfoldable pub valid_frame_vote : Config → Vote → Bool
valid_frame_vote c v =
    not (bytes_eq v.token zero_token)
    && valid_choice c v.choice
    && not (before v.admitted_at c.starts_at)
    && before v.admitted_at c.ends_at

-- The first loop of `encodeFrame`.
unfoldable pub valid_votes : Config → List Vote → Bool
valid_votes c [] = true
valid_votes c (v ∷ vs) = valid_frame_vote c v && valid_votes c vs

unfoldable pub frame_entry : Vote → Bytes
frame_entry v = v.token ++ (be 4 v.choice ++ be 8 (unix_nano v.admitted_at))

-- The second loop.
unfoldable pub frame_entries : List Vote → Bytes
frame_entries [] = []
frame_entries (v ∷ vs) = frame_entry v ++ frame_entries vs

-- The 80 bytes before the entries: those of a boot record, but for b[0], b[1] and b[72:80].
unfoldable pub frame_header : Config → ℕ → Bytes
frame_header c count =
    frame_version
    ∷ record_vote
    ∷ (slice 2 70 (encode_record c record_boot no_vote) ++ (be 4 count ++ be 4 frame_entry_bytes))

-- `encodeFrame`
unfoldable pub encode_frame : (Bytes → Bool) → Config → List Vote → Encoded
encode_frame loopback c votes = elim (validate loopback c) [
  | some e ↦ rejected (config e)
  | none ↦
      if ltb (length votes) 1 || ltb max_frame_votes (length votes)
      then rejected outside_bounds
      else if not (valid_votes c votes)
      then rejected bad_vote
      else bytes (frame_header c (length votes) ++ frame_entries votes)
]

-- `frameVote`
unfoldable pub frame_vote : Bytes → Vote
frame_vote entry = record {
  token = take 16 entry;
  choice = from_be (slice 16 4 entry);
  admitted_at = from_unix_nano (from_be (slice 20 8 entry));
}

-- The first loop of `decodeFrame`, over `n` entries.
unfoldable pub valid_entries : Config → ℕ → Bytes → Bool
valid_entries c zero b = true
valid_entries c (suc n) b =
    valid_frame_vote c (frame_vote (take frame_entry_bytes b))
    && valid_entries c n (drop frame_entry_bytes b)

-- `header` of `decodeFrame`
unfoldable pub plain_header : Bytes → Bytes
plain_header b = 1 ∷ record_boot ∷ (slice 2 70 b ++ zeros 8)

-- The first test of `decodeFrame`, and the second.
unfoldable pub malformed : Bytes → Bool
malformed b =
    ltb (length b) 80 || not (get_or b 0 0 == frame_version) || not (get_or b 1 0 == record_vote)

unfoldable pub miscounted : ℕ → Bytes → Bool
miscounted count b =
    ltb count 1
    || ltb max_frame_votes count
    || not (from_be (slice 76 4 b) == frame_entry_bytes)
    || not (length b == 80 + count * frame_entry_bytes)

module _ {S E : Type 0} where
  -- `if err := visit(…); err != nil { return err }`, and then `k`.
  unfoldable pub and_then :
      (S → S × Option (FrameError E)) → S × Option E → S × Option (FrameError E)
  and_then k (s, none) = k s
  and_then k (s, some x) = (s, some (visitor x))

module _ {S E : Type 0} (visit : ℕ → Vote → S → S × Option E) where
  -- The second loop, from entry `index` on.
  unfoldable pub visit_entries : ℕ → ℕ → Bytes → S → S × Option (FrameError E)
  visit_entries index zero b s = (s, none)
  visit_entries index (suc n) b s =
      and_then (visit_entries (index + 1) n (drop frame_entry_bytes b))
        (visit index (frame_vote (take frame_entry_bytes b)) s)

  -- `decodeFrame` once `decodeRecord` has read the header; `b` are the entries.
  unfoldable pub decode_votes : Config → ℕ → Bytes → Decoded → S → S × Option (FrameError E)
  decode_votes c count b (refused e) s = (s, some (header e))
  decode_votes c count b (decoded kind v) s =
      if not (valid_entries c count b) then (s, some bad_vote) else visit_entries 0 count b s

  -- `decodeFrame`
  unfoldable pub decode_frame : Config → Bytes → S → S × Option (FrameError E)
  decode_frame c b s =
      let count = from_be (slice 72 4 b) in
      if malformed b
      then (s, some bad_format)
      else if miscounted count b
      then (s, some bad_count)
      else decode_votes c count (drop 80 b) (decode_record c (plain_header b)) s
