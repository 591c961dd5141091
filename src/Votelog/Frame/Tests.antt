-- ===== src/Votelog/Frame/Tests.antt =====
-- A frame of two votes.
use gigaquizz.Common.{ℕ, ◌+◌, ◌≡◌, refl, true, Bool, List, [], ◌∷◌, ◌++◌, Option, none, arith}
use gigaquizz.Common.Bytes.{Bytes, bytes_eq, zeros}
use gigaquizz.GoTime.{epoch}
use gigaquizz.Votelog
use gigaquizz.Votelog.{Vote, encode_record}
use gigaquizz.Votelog.Tests.{journal, journal-Typed, vote, vote_range}
use gigaquizz.Votelog.Frame.{
  bytes, encode_frame, decode_frame, valid_votes, valid_frame_vote, frame_header, frame_entries,
  frame_entry,
}
use gigaquizz.Votelog.Frame.RoundTrip.{visit_votes, decode_frame-encode_frame}

abbrev local : Bytes → Bool
local b = true

abbrev two_votes : List Vote
two_votes = vote ∷ record { token = 2 ∷ zeros 15; choice = 4; admitted_at = epoch + 2000 } ∷ []

collect : ℕ → Vote → List (ℕ × Vote) → List (ℕ × Vote) × Option ℕ
collect index v l = (l ++ (index, v) ∷ [], none)

frame : Bytes
unfolding frame_header encode_record frame_entries frame_entry
frame = frame_header journal 2 ++ frame_entries two_votes

framed : encode_frame local journal two_votes ≡ bytes frame
unfolding frame encode_frame valid_votes valid_frame_vote Votelog.validate Votelog.in_bounds
    Votelog.owned_topic Votelog.topic_rest Votelog.behind Votelog.topic_chars Votelog.topic_char
    bytes_eq Votelog.all_loopback Votelog.valid_choice Votelog.ones_count
framed = refl

decode_frame-encode_frame_example :
    decode_frame collect journal frame [] ≡ visit_votes collect 0 two_votes []
decode_frame-encode_frame_example =
    decode_frame-encode_frame local collect journal two_votes frame [] journal-Typed
      (
        record { size = refl; word = omega arith; range = vote_range },
        (record { size = refl; word = omega arith; range = vote_range }, tt),
      )
      framed
