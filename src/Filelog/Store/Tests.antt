-- ===== src/Filelog/Store/Tests.antt =====
-- A run of the store: one frame of two votes, its flush, and the seal.
use gigaquizz.Common.{
  ℕ, zero, suc, ◌+◌, ◌*◌, ◌^◌, ◌≤◌, ◌<◌, ◌≡◌, ◌≢◌, ◌⊎◌, refl, sym, ap, subst, ◌∙◌, Bool, true,
  false, List, [], ◌∷◌, ◌++◌, Option, none, some, get_elem?, ltb, leb, length, take, All, arith,
}
use gigaquizz.Common.Bytes.{Bytes, bytes_eq, zeros}
use gigaquizz.Common.Int.{pos}
use gigaquizz.Filelog.Types.{Config, Input, FrameReceipt, valid_choice, ones_count}
use gigaquizz.Filelog.Codec.{file_header, encode_inputs, finish_frame}
use gigaquizz.Filelog.Codec.Frames.{closed_frame_checks}
use gigaquizz.Filelog.Codec.Tests.{
  poll, during, vote, second_vote, poll-valid, vote-IsInput, second_vote-IsInput,
}
use gigaquizz.Filelog.Scan.{replay}
use gigaquizz.Filelog.Scan.Journal.{
  Batch, length-journal_bytes, journal_bytes, pure_visit, visit_journal,
}
use gigaquizz.Filelog.Store.{
  StoreError, out_of_fuel, Job, Answer, Store, Moment, add64, new, valid_inputs, submit_locked,
  admit, stop_queue, submit_frame, begin_seal, seal_result,
}
use gigaquizz.Filelog.Store.Submit.{TypedInput}
use gigaquizz.Filelog.Store.Writer.{
  Disk, Written, write_all, frames_of, flush_answer, flush, receive, join, settle, finish,
}
use gigaquizz.Filelog.Store.Writer.Branches.{with_file, stored}
use gigaquizz.Filelog.Store.Writer.Frames.{
  IsJob, frames_of-journal_bytes, finish_frame-closed_frame,
}
use gigaquizz.Filelog.Store.Writer.Healthy.{
  sync_group-whole, flush-whole, settle-whole, finish-whole,
}
use gigaquizz.Filelog.Store.Writer.WriteAll.{write_all_lem}
use gigaquizz.Filelog.Store.Invariant.{counts, waiting_of, Acked, StoreInv}
use gigaquizz.Filelog.Store.Calls.{new-StoreInv, Step-StoreInv}
use gigaquizz.Filelog.Store.Machine.{
  Step, submits, seals, receives, settles, finishes, Reach, here, next, submissions,
}
use gigaquizz.Filelog.Store.Durable.{acked_in_file, sealed_replay, queue_bound}

-- Disks that take the frame of two votes, and the barrier, in one write.
abbrev disk : Disk
disk = record {
  write = λ k. record { count = pos 96; err = none };
  sync_error = none;
  close_error = none;
}

abbrev barrier_disk : Disk
barrier_disk = record {
  write = λ k. record { count = pos 40; err = none };
  sync_error = none;
  close_error = none;
}

abbrev moment : Moment
moment = record { done_before = false; observed = during; now = during; done_after = false }

abbrev votes : List Input
votes = vote ∷ second_vote ∷ []

votes-TypedInput : All TypedInput votes
votes-TypedInput =
    (record { size = refl; word = omega arith }, (record { size = refl; word = omega arith }, tt))

abbrev submitted : Store
submitted = (submit_frame poll moment votes (new poll)).0

abbrev job : Job
job = record { data_ = encode_inputs votes during; count = 2; admitted = during; ticket = 0 }

abbrev received : Store
received = receive submitted

abbrev joined : Store
joined = join poll job received

abbrev bytes : Bytes
bytes = frames_of 0 (job ∷ [])

abbrev flushed : Store
flushed = flush_answer none (
    stored joined bytes (add64 joined.wal_bytes (length bytes)) (add64 joined.groups 1)
      (add64 joined.durable_votes joined.votes) (add64 joined.durable_frames 1))

abbrev sealing : Store
sealing = begin_seal flushed

abbrev barrier : Bytes
barrier = finish_frame (zeros 40) 1 2 0

abbrev ended : Store
ended =
    record (with_file sealing (sealing.file ++ barrier) (add64 sealing.wal_bytes (length barrier))
      (add64 sealing.groups 1) (length (sealing.file ++ barrier))) {
        manifest = record { partition = 0; offset = 1 } ∷ [];
        finished = true;
        ticking = false;
        pending = none;
      }

abbrev batch : Batch
batch = record { inputs = votes; admitted = during }

job-IsJob : IsJob poll none job batch
job-IsJob = record {
  data_ = refl;
  count = refl;
  admitted = refl;
  batch = record {
    some_votes = omega arith;
    few_votes = omega arith;
    inputs = (vote-IsInput, (second_vote-IsInput, tt));
    window = record { from = omega arith; until = omega arith };
  };
  fits = omega arith;
  noted = tt;
}

bytes-size : length bytes ≡ 96
bytes-size =
    ap length (frames_of-journal_bytes poll none (job ∷ []) (batch ∷ []) 0 (job-IsJob, tt))
    ∙ length-journal_bytes poll 0 (batch ∷ []) poll-valid (job-IsJob.batch, tt) (omega arith)

barrier-size : length barrier ≡ 40
barrier-size =
    ap length (finish_frame-closed_frame 1) ∙ (closed_frame_checks poll 1 (omega arith)).2

one_job : joined.batch ≡ job ∷ []
unfolding join receive submit_frame valid_inputs bytes_eq valid_choice ones_count submit_locked new
    admit
one_job = refl

one_vote_count : joined.votes ≡ 2
unfolding join receive submit_frame valid_inputs bytes_eq valid_choice ones_count submit_locked new
    admit
one_vote_count = refl

flush-joined : flush disk joined ≡ (flushed, none)
unfolding join receive submit_frame valid_inputs bytes_eq valid_choice ones_count submit_locked new
    admit gigaquizz.Filelog.Store.release
flush-joined =
    flush-whole disk joined 96 (λ e. ground (arith, e, ap (λ (js : List Job). length js) one_job))
      (omega arith) (omega arith) bytes-size refl refl

room : ltb 2 (received.votes + 2) ≡ false
unfolding join receive submit_frame valid_inputs bytes_eq valid_choice ones_count submit_locked new
    admit
room = refl

settled : flushed ≡ settle poll disk disk job received
settled = sym (
    settle-whole poll disk disk job received flushed room (ap (λ n. leb 2 n) one_vote_count)
      flush-joined)

no_batch : length sealing.batch ≡ 0
unfolding begin_seal flush_answer join gigaquizz.Filelog.Store.release receive submit_frame
    valid_inputs bytes_eq valid_choice ones_count submit_locked new admit stop_queue
no_batch = refl

requested : sealing.seal_requested ≡ true
unfolding join receive submit_frame valid_inputs bytes_eq valid_choice ones_count submit_locked new
    admit begin_seal flush_answer stop_queue gigaquizz.Filelog.Store.release
requested = refl

next_sequence : sealing.sequence ≡ 1
unfolding join receive submit_frame valid_inputs bytes_eq valid_choice ones_count submit_locked new
    admit begin_seal flush_answer stop_queue gigaquizz.Filelog.Store.release
next_sequence = refl

finished_run : ended ≡ finish disk barrier_disk sealing
unfolding join receive submit_frame valid_inputs bytes_eq valid_choice ones_count submit_locked new
    admit begin_seal flush_answer stop_queue gigaquizz.Filelog.Store.release
finished_run = sym (
    finish-whole disk barrier_disk sealing _ no_batch requested refl
      (sync_group-whole barrier_disk barrier sealing 40 (omega arith) barrier-size refl refl))

takes : Step poll (new poll) submitted
takes = submits moment votes votes-TypedInput refl

runs_on : submitted.finished ≡ false
unfolding submit_frame gigaquizz.Filelog.Store.valid_inputs gigaquizz.Common.Bytes.bytes_eq
    gigaquizz.Filelog.Types.valid_choice gigaquizz.Filelog.Types.ones_count
    gigaquizz.Filelog.Store.submit_locked new gigaquizz.Filelog.Store.admit
runs_on = refl

none_pending : submitted.pending ≡ none
unfolding submit_frame gigaquizz.Filelog.Store.valid_inputs gigaquizz.Common.Bytes.bytes_eq
    gigaquizz.Filelog.Types.valid_choice gigaquizz.Filelog.Types.ones_count
    gigaquizz.Filelog.Store.submit_locked new gigaquizz.Filelog.Store.admit
none_pending = refl

received_on : received.finished ≡ false
unfolding receive submit_frame gigaquizz.Filelog.Store.valid_inputs gigaquizz.Common.Bytes.bytes_eq
    gigaquizz.Filelog.Types.valid_choice gigaquizz.Filelog.Types.ones_count
    gigaquizz.Filelog.Store.submit_locked new gigaquizz.Filelog.Store.admit
received_on = refl

one_pending : received.pending ≡ some job
unfolding receive submit_frame gigaquizz.Filelog.Store.valid_inputs gigaquizz.Common.Bytes.bytes_eq
    gigaquizz.Filelog.Types.valid_choice gigaquizz.Filelog.Types.ones_count
    gigaquizz.Filelog.Store.submit_locked new gigaquizz.Filelog.Store.admit
one_pending = refl

to_flushed : Reach poll (new poll) flushed
to_flushed =
    next (next (next here takes) (receives runs_on none_pending refl))
      (settles disk disk job received_on one_pending settled)

sealing_on : sealing.finished ≡ false
unfolding begin_seal flush_answer join gigaquizz.Filelog.Store.release receive submit_frame
    gigaquizz.Filelog.Store.valid_inputs gigaquizz.Common.Bytes.bytes_eq
    gigaquizz.Filelog.Types.valid_choice gigaquizz.Filelog.Types.ones_count
    gigaquizz.Filelog.Store.submit_locked new gigaquizz.Filelog.Store.admit
    gigaquizz.Filelog.Store.stop_queue
sealing_on = refl

sealing_idle : sealing.pending ≡ none
unfolding begin_seal flush_answer join gigaquizz.Filelog.Store.release receive submit_frame
    gigaquizz.Filelog.Store.valid_inputs gigaquizz.Common.Bytes.bytes_eq
    gigaquizz.Filelog.Types.valid_choice gigaquizz.Filelog.Types.ones_count
    gigaquizz.Filelog.Store.submit_locked new gigaquizz.Filelog.Store.admit
    gigaquizz.Filelog.Store.stop_queue
sealing_idle = refl

sealing_closed : sealing.queue_closed ≡ true
unfolding begin_seal flush_answer join gigaquizz.Filelog.Store.release receive submit_frame
    gigaquizz.Filelog.Store.valid_inputs gigaquizz.Common.Bytes.bytes_eq
    gigaquizz.Filelog.Types.valid_choice gigaquizz.Filelog.Types.ones_count
    gigaquizz.Filelog.Store.submit_locked new gigaquizz.Filelog.Store.admit
    gigaquizz.Filelog.Store.stop_queue
sealing_closed = refl

sealing_empty : sealing.queue ≡ []
unfolding begin_seal flush_answer join gigaquizz.Filelog.Store.release receive submit_frame
    gigaquizz.Filelog.Store.valid_inputs gigaquizz.Common.Bytes.bytes_eq
    gigaquizz.Filelog.Types.valid_choice gigaquizz.Filelog.Types.ones_count
    gigaquizz.Filelog.Store.submit_locked new gigaquizz.Filelog.Store.admit
    gigaquizz.Filelog.Store.stop_queue
sealing_empty = refl

to_ended : Reach poll (new poll) ended
to_ended =
    next (next to_flushed (seals refl))
      (finishes disk barrier_disk sealing_on sealing_idle sealing_closed sealing_empty finished_run)

abbrev answer : Answer
answer = record {
  ticket = 0;
  receipt = record { partition = 0; offset = 0; count = 2; admitted_at = during };
  err = none;
}

answered : get_elem? flushed.answers 0 ≡ some answer
unfolding flush_answer join gigaquizz.Filelog.Store.release receive submit_frame
    gigaquizz.Filelog.Store.valid_inputs gigaquizz.Common.Bytes.bytes_eq
    gigaquizz.Filelog.Types.valid_choice gigaquizz.Filelog.Types.ones_count
    gigaquizz.Filelog.Store.submit_locked new gigaquizz.Filelog.Store.admit
    gigaquizz.Filelog.Store.Writer.answers_of
answered = refl

acked_in_file_example :
    (bs : List Batch) × (b : Batch) × (rest : Bytes) × (flushed.file
      ≡ file_header poll ++ (journal_bytes 0 bs ++ rest))
    × (get_elem? bs 0 ≡ some b)
    × (2 ≡ length b.inputs)
    × (during ≡ b.admitted)
    × (get_elem? (submissions to_flushed) 0 ≡ some b)
acked_in_file_example = acked_in_file poll flushed 0 answer poll-valid refl to_flushed answered refl

sealed_manifest : seal_result ended ≡ (record { partition = 0; offset = 1 } ∷ [], none)
unfolding seal_result begin_seal flush_answer join gigaquizz.Filelog.Store.release receive
    submit_frame gigaquizz.Filelog.Store.valid_inputs gigaquizz.Common.Bytes.bytes_eq
    gigaquizz.Filelog.Types.valid_choice gigaquizz.Filelog.Types.ones_count
    gigaquizz.Filelog.Store.submit_locked new gigaquizz.Filelog.Store.admit
    gigaquizz.Filelog.Store.stop_queue
sealed_manifest = refl

sealed_replay_example :
    (bs : List Batch) × (length bs ≡ 1)
    × (replay
          (pure_visit (λ p v n. suc n) {E = ℕ})
          (λ k. false)
          poll
          (λ c. [])
          ended.file
          (b'\n' ∷ [])
          0
        ≡ (visit_journal (λ p v n. suc n) 0 bs 0, none, record { partition = 0; offset = 1 } ∷ []))
    × All (Acked (some (submissions to_ended)) bs) ended.answers
sealed_replay_example =
    sealed_replay (λ p v n. suc n) (λ k. false) (λ c. []) poll ended 1 0 poll-valid refl
      (omega arith) (λ k. refl) to_ended sealed_manifest (omega arith)

queue_bound_example :
    (submitted.queued_votes ≡ counts submitted.queue + counts (waiting_of submitted.pending))
    × (submitted.queued_votes ≤ 4)
    × (length submitted.queue ≤ 4)
queue_bound_example = queue_bound poll submitted poll-valid refl (next here takes)

Step-StoreInv_example : StoreInv poll (some (batch ∷ [])) submitted
unfolding takes submit_frame valid_inputs bytes_eq valid_choice ones_count submit_locked new admit
Step-StoreInv_example =
    Step-StoreInv poll (some (batch ∷ [])) poll-valid (new poll) submitted takes (refl, tt)
      (new-StoreInv poll (some (batch ∷ [])) poll-valid refl)

abbrev three_bytes : Bytes
three_bytes = 1 ∷ 2 ∷ 3 ∷ []

abbrev one_by_one : ℕ → Written
one_by_one k = record { count = pos 1; err = none }

write_all_lem_example :
    ((write_all one_by_one 4 0 three_bytes).1 ≢ some out_of_fuel)
    × ((write_all one_by_one 4 0 three_bytes).0
        ≡ take (length (write_all one_by_one 4 0 three_bytes).0) three_bytes)
    × (((write_all one_by_one 4 0 three_bytes).1 ≢ none)
        ⊎ ((write_all one_by_one 4 0 three_bytes).0 ≡ three_bytes))
write_all_lem_example = write_all_lem one_by_one three_bytes
