-- ===== src/Filelog/Codec/Tests.antt =====
-- The journal's bytes on two votes.
use gigaquizz.Common.{
  ℕ, ◌+◌, ◌*◌, ◌^◌, ◌≡◌, refl, false, true, List, [], ◌∷◌, ◌++◌, none, length, arith,
}
use gigaquizz.Common.Bytes.{Bytes, zeros}
use gigaquizz.GoTime.{minute, epoch, InNanoRange}
use gigaquizz.Filelog.Types.{Config, Input, valid, valid_window}
use gigaquizz.Filelog.Codec.Entries.{IsInput}
use gigaquizz.Filelog.Codec.Frames.{IsFrame}

abbrev pub poll : Config
poll = record {
  directory = b'd' ∷ [];
  poll_id = 7 ∷ zeros 15;
  starts_at = epoch + 1000;
  ends_at = epoch + 1000 + minute;
  allowed_mask = 7;
  multiple = false;
  batch_size = 2;
  queue_per_partition = 4;
  linger = 0;
  partitions = 1;
}

abbrev pub during : ℕ
during = epoch + 2000

abbrev pub vote : Input
vote = record { token = 1 ∷ zeros 15; choice = 2 }

abbrev pub second_vote : Input
second_vote = record { token = 2 ∷ zeros 15; choice = 4 }

pub poll-valid : valid poll ≡ true
unfolding valid gigaquizz.Common.Bytes.bytes_eq
poll-valid = refl

pub vote-IsInput : IsInput poll vote
unfolding gigaquizz.Common.Bytes.bytes_eq gigaquizz.Filelog.Types.valid_choice
    gigaquizz.Filelog.Types.ones_count
vote-IsInput = record { size = refl; nonzero = refl; word = omega arith; choice = refl }

pub second_vote-IsInput : IsInput poll second_vote
unfolding gigaquizz.Common.Bytes.bytes_eq gigaquizz.Filelog.Types.valid_choice
    gigaquizz.Filelog.Types.ones_count
second_vote-IsInput = record { size = refl; nonzero = refl; word = omega arith; choice = refl }

in_range : InNanoRange during
in_range = valid_window poll poll-valid during (record { from = omega arith; until = omega arith })

two_votes-IsFrame : IsFrame poll (vote ∷ second_vote ∷ []) during 3
two_votes-IsFrame = record {
  some_votes = omega arith;
  few_votes = omega arith;
  inputs = (vote-IsInput, (second_vote-IsInput, tt));
  window = record { from = omega arith; until = omega arith };
  range = in_range;
  word = omega arith;
}
