-- ===== src/Votelog/Tests.antt =====
-- A record of a poll with two partitions.
use gigaquizz.Common.{[], ◌++◌, replicate, ◌*◌, ◌+◌, ◌≡◌, refl, true, false, ◌∷◌, arith}
use gigaquizz.Common.Bytes.{Bytes, bytes_eq, zeros}
use gigaquizz.GoTime.{millisecond, second, minute, epoch, InNanoRange}
use gigaquizz.Votelog.{
  topic_prefix, Config, Vote, valid_choice, ones_count, encode_record, decode_record, decoded,
  valid_vote,
}
use gigaquizz.Votelog.Records.{Typed, decode_record-encode_record}

abbrev pub zeros_topic : Bytes
zeros_topic = replicate 8 b'0'

abbrev pub journal : Config
journal = record {
  brokers = (b'h' ∷ []) ∷ [];
  topic = topic_prefix ++ zeros_topic;
  batch_size = 3;
  linger = 5 * millisecond;
  queue_per_partition = 4;
  transaction_timeout = 2 * second;
  poll_id = 7 ∷ zeros 15;
  partitions = 2;
  starts_at = epoch + 1000;
  ends_at = epoch + 1000 + minute;
  allowed_mask = 7;
  multiple = false;
}

abbrev pub vote : Vote
vote = record { token = 1 ∷ zeros 15; choice = 2; admitted_at = epoch + 2000 }

pub journal-Typed : Typed journal
journal-Typed = record { id = refl; few = omega arith; mask = omega arith }

vote_ok : valid_vote journal vote ≡ true
unfolding valid_vote valid_choice ones_count bytes_eq
vote_ok = refl

pub vote_range : InNanoRange (epoch + 2000)
vote_range = record { lower = omega arith; upper = omega arith }

decode_record-encode_record_example :
    decode_record journal (encode_record journal 1 vote) ≡ decoded 1 vote
decode_record-encode_record_example =
    decode_record-encode_record journal vote journal-Typed refl (omega arith) vote_range vote_ok
