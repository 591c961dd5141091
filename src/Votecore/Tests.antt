-- ===== src/Votecore/Tests.antt =====
-- The core on a small poll, with a stand-in for SHA-256.
use gigaquizz.Common.{
  ℕ, ◌+◌, ◌*◌, ◌%◌, ◌^◌, ◌≤◌, ◌<◌, ◌≡◌, ◌⊎◌, ◌<◌, ◌≢◌, ◌↔◌, refl, Bool, true, false, List, [], ◌∷◌,
  ◌++◌, Option, none, some, bit_and, length, get_or, All, arith,
}
use gigaquizz.Common.Bytes.{Bytes, bytes_eq, zeros}
use gigaquizz.GoTime.{minute, epoch, unix_nano, int64_lt}
use gigaquizz.Votecore.{
  Config, Input, Engine, Snapshot, Result, accepted, duplicate, valid_config, valid_input, new,
  submit, seal, find_vote, collect, count_bits, partition,
}
use gigaquizz.Common.Bits.{bit, bit-le}
use gigaquizz.Votecore.Cases.{InWindow, shard_at}
use gigaquizz.Votecore
use gigaquizz.Votelog
use gigaquizz.Votecore.Agreement.{partition-eq-partition}
use gigaquizz.Votecore.Setup.{started}
use gigaquizz.Votecore.Invariant.{EngineInv, new-EngineInv, submit-EngineInv}
use gigaquizz.Votecore.Sealing.{stored_votes, stored_for, first, seal-snapshot}
use gigaquizz.Votecore.History.{
  Declined, submits, seals, run, run-EngineInv, submit-accepts, first_choice_stays,
}
use gigaquizz.Votecore.Interleaving.{
  Threads, start_seal, read_shard, Reach, here, next, seal_is_final,
}

abbrev same_bytes : Bytes → Bytes
same_bytes b = b

abbrev small_poll : Config
small_poll = record {
  poll_id = 7 ∷ zeros 15;
  starts_at = epoch + 1000;
  ends_at = epoch + 1000 + minute;
  allowed_mask = 7;
  multiple = false;
  shards = 2;
  capacity = 4;
}

abbrev engine : Engine
engine = started small_poll

abbrev vote : Input
vote = record { token = 1 ∷ zeros 15; choice = 2 }

abbrev other_vote : Input
other_vote = record { token = 1 ∷ zeros 15; choice = 4 }

abbrev during : ℕ
during = epoch + 2000

abbrev after_end : ℕ
after_end = epoch + 1000 + minute

made : new small_poll ≡ some engine
unfolding new valid_config bytes_eq
made = refl

engine-EngineInv : EngineInv same_bytes engine
engine-EngineInv = (new-EngineInv same_bytes small_poll engine made).0

submit-EngineInv_example : EngineInv same_bytes (submit same_bytes engine vote during).0
submit-EngineInv_example =
    submit-EngineInv same_bytes engine vote during engine-EngineInv (omega arith)

run-EngineInv_example :
    EngineInv same_bytes (run same_bytes engine (submits vote during ∷ seals after_end ∷ []))
run-EngineInv_example =
    run-EngineInv same_bytes engine (submits vote during ∷ seals after_end ∷ []) engine-EngineInv
      (omega arith, (tt, tt))

sealed_result : Snapshot
sealed_result = collect engine.shards first

ended : (seal engine after_end).1 ≡ some sealed_result
unfolding seal int64_lt unix_nano sealed_result collect
ended = refl

seal-snapshot_example :
    (sealed_result.total ≡ stored_votes engine.shards)
    × (get_or sealed_result.counts 1 0 ≡ stored_for 1 engine.shards)
    × (sealed_result.total ≤ 4)
    × ((seal engine after_end).0 ≡ record engine { sealed = true })
seal-snapshot_example =
    seal-snapshot same_bytes engine after_end sealed_result 1 engine-EngineInv ended (omega arith)

submit-accepts_example : ((submit same_bytes engine vote during).1.status ≡ accepted) ↔ (
    (valid_input small_poll vote ≡ true)
    × (false ≡ false)
    × InWindow engine during
    × (find_vote same_bytes engine vote.token ≡ none)
    × (length (shard_at engine (partition same_bytes engine vote.token)).votes
        < (shard_at engine (partition same_bytes engine vote.token)).capacity))
submit-accepts_example = submit-accepts same_bytes engine vote during engine-EngineInv

was_accepted : (submit same_bytes engine vote during).1.status ≡ accepted
unfolding submit valid_input bytes_eq gigaquizz.Votecore.ones_count gigaquizz.Votecore.admit
    int64_lt unix_nano gigaquizz.Votecore.store_vote gigaquizz.Common.Assoc.lookup
    gigaquizz.Votecore.make_shards partition gigaquizz.Common.Bytes.from_be
    gigaquizz.Votecore.empty_shard
was_accepted = refl

abbrev voted : Engine
voted = record engine {
  shards =
      record { votes = (vote.token, 2) ∷ []; counts = 0 ∷ 1 ∷ zeros 30; capacity = 2 }
      ∷ record { votes = []; counts = zeros 32; capacity = 2 }
      ∷ [];
}

ran : run same_bytes (submit same_bytes engine vote during).0 [] ≡ voted
unfolding run submit valid_input bytes_eq gigaquizz.Votecore.ones_count gigaquizz.Votecore.admit
    int64_lt unix_nano gigaquizz.Votecore.make_shards partition gigaquizz.Common.Bytes.from_be
    gigaquizz.Votecore.store_vote gigaquizz.Votecore.empty_shard gigaquizz.Common.Assoc.lookup
    gigaquizz.Common.Assoc.put count_bits gigaquizz.Votecore.bump gigaquizz.Votecore.trailing_zeros
ran = refl

other_valid : valid_input small_poll other_vote ≡ true
unfolding valid_input bytes_eq gigaquizz.Votecore.ones_count
other_valid = refl

window : InWindow voted during
unfolding int64_lt unix_nano
window = record { from = refl; until = refl }

first_choice_stays_example :
    (find_vote same_bytes voted vote.token ≡ some 2)
    × ((submit same_bytes voted other_vote during
          ≡ (voted, record { status = duplicate; choice = 2 }))
        ⊎ Declined voted other_vote during)
first_choice_stays_example =
    first_choice_stays same_bytes engine voted vote other_vote during during [] engine-EngineInv
      (omega arith) tt was_accepted ran refl

vote_valid : valid_input small_poll vote ≡ true
unfolding valid_input bytes_eq gigaquizz.Votecore.ones_count
vote_valid = refl

past_start : int64_lt (unix_nano after_end) engine.start_ns ≡ false
unfolding int64_lt unix_nano
past_start = refl

past_end : int64_lt (unix_nano after_end) engine.end_ns ≡ false
unfolding int64_lt unix_nano
past_end = refl

fits : 0 + bit 2 5 < 2 ^ 64
fits = omega (arith, bit-le 2 5)

abbrev journal : Votelog.Config
journal = record {
  brokers = [];
  topic = [];
  poll_id = small_poll.poll_id;
  starts_at = small_poll.starts_at;
  ends_at = small_poll.ends_at;
  allowed_mask = 7;
  multiple = false;
  partitions = 2;
  batch_size = 1;
  linger = 0;
  queue_per_partition = 1;
  transaction_timeout = 0;
}

partition-eq-partition_example :
    (Votecore.partition same_bytes engine vote.token
      ≡ Votelog.partition same_bytes journal vote.token)
    × (Votelog.partition same_bytes journal vote.token < 2)
unfolding Votecore.make_shards
partition-eq-partition_example =
    partition-eq-partition same_bytes engine journal vote.token engine-EngineInv refl refl

abbrev threads : Threads
threads = record { engine = engine; holders = none ∷ none ∷ []; sealer = none }

abbrev threads_sealing : Threads
threads_sealing = record {
  engine = record engine { sealed = true };
  holders = none ∷ none ∷ [];
  sealer = some (0, first);
}

abbrev threads_half : Threads
threads_half = record threads_sealing { sealer = some (1, collect (shard_at engine 0 ∷ []) first) }

abbrev threads_done : Threads
threads_done = record threads_sealing { sealer = some (2, sealed_result) }

run_of_seal : Reach threads threads_done
unfolding int64_lt unix_nano gigaquizz.Votecore.make_shards collect sealed_result
run_of_seal =
    next
      (next (next here (start_seal after_end refl refl refl))
        (read_shard 0 first refl (omega arith) refl refl))
      (read_shard 1 (collect (shard_at engine 0 ∷ []) first) refl (omega arith) refl refl)

seal_is_final_example :
    (sealed_result ≡ collect engine.shards first) × (engine.shards ≡ engine.shards)
unfolding gigaquizz.Votecore.make_shards
seal_is_final_example =
    seal_is_final threads threads_done threads_done sealed_result refl refl run_of_seal refl here
