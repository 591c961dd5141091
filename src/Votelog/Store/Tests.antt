-- ===== src/Votelog/Store/Tests.antt =====
-- A writer that confirms one vote and is then sealed.
use gigaquizz.Common.{
  ℕ, ◌+◌, ◌*◌, ◌≡◌, refl, sym, ap, true, false, Bool, [], none, length, inl, arith,
}
use gigaquizz.Common.Bytes.{Bytes}
use gigaquizz.Common.Int.{negsuc}
use gigaquizz.GoTime.{before}
use gigaquizz.Votelog.{encode_record}
use gigaquizz.Votelog.Tests.{journal, vote}
use gigaquizz.Votelog.Store.{
  Answer, Writer, queued, enqueue, at_time, when_open, jobs_full, submit_locked, new_writer,
  begin_seal, size,
}
use gigaquizz.Votelog.Store.Run.{
  Broker, take_job, tick, seal_run, take_from, unless_ended, append_job, join_flushed, join_batch,
  flush_batch, or_fail, flush, flush_messages, flushed, transact, outcome_of, before_end, attempt,
  or_then, end_transaction, after_commit, messages_of, also, answers_of, receipts_of, entries_of,
  admitted_of, counts_of, confirm, errors_of, end_run, seal_log, close_log, go_on, append_jobs,
}
use gigaquizz.Votelog.Store.Machine.{
  Step, Reach, here, next, submits, takes, ticks, seals, seals_log,
}
use gigaquizz.Votelog.Store.Books.{In, below, in_answers}
use gigaquizz.Votelog.Store.Sealing.{Live}
use gigaquizz.Votelog.Store.Safety.{
  new_writer-Live, Reach-Live, all_answered, sealed_final, acked_vote_logged,
}

abbrev local : Bytes → Bool
local b = true

abbrev broker : ℕ → Broker
broker n = record {
  begin_error = none;
  produce_error = none;
  before_error = none;
  end_error = none;
  after_error = none;
  offsets = λ i. 2 * n + i + 1;
  lands = false;
}

start : Writer
unfolding new_writer
start = new_writer 0 (negsuc 0) []

with_vote : Writer
unfolding start submit_locked when_open at_time enqueue jobs_full
with_vote = (submit_locked journal false vote.admitted_at vote.token vote.choice start).0

vote_queued :
    submit_locked journal false vote.admitted_at vote.token vote.choice start
    ≡ (with_vote, queued 0)
unfolding with_vote
vote_queued = refl

in_batch : Writer
unfolding with_vote take_job take_from unless_ended append_job join_flushed join_batch size
in_batch = take_job local journal broker with_vote

confirmed : Writer
unfolding in_batch tick flush_batch or_fail flush flush_messages flushed transact outcome_of
    before_end attempt or_then end_transaction after_commit messages_of also answers_of receipts_of
    entries_of admitted_of counts_of confirm
confirmed = tick local journal broker in_batch

asked : Writer
unfolding confirmed begin_seal
asked = (begin_seal confirmed).0

over : Writer
unfolding asked seal_run end_run seal_log close_log go_on append_jobs errors_of
over = seal_run local journal broker asked

running :
    (with_vote.done ≡ false)
    × (in_batch.done ≡ false)
    × (asked.done ≡ false)
    × (asked.seal_requested ≡ true)
unfolding asked
running = (refl, refl, refl, refl)

over_facts : (over.done ≡ true) × (over.jobs ≡ []) × (over.sealed ≡ true)
unfolding over
over_facts = (refl, refl, refl)

to_vote : Step local journal broker start with_vote
to_vote = submits false vote.admitted_at vote.token vote.choice (sym (ap (λ x. x.0) vote_queued))

to_confirmed : Reach local journal broker with_vote confirmed
unfolding in_batch confirmed
to_confirmed = next (next here (takes running.0 refl)) (ticks running.1 refl)

to_over : Reach local journal broker (new_writer 0 (negsuc 0) []) over
unfolding start in_batch confirmed asked over
to_over =
    next
      (next (next (next (next here to_vote) (takes running.0 refl)) (ticks running.1 refl))
        (seals refl))
      (seals_log running.2 running.3 refl)

the_answer : Answer
the_answer = record {
  ticket = 0;
  receipt = record { partition = 0; offset = 1; index = 0; admitted_at = vote.admitted_at };
  err = none;
}

answered : In the_answer confirmed.answers
unfolding confirmed the_answer
answered = inl refl

acked_vote_logged_example :
    In (record { offset = 1; key = vote.token; value = encode_record journal 1 vote }) confirmed.log
    × (vote.admitted_at ≡ vote.admitted_at)
    × (before vote.admitted_at journal.starts_at ≡ false)
    × (before vote.admitted_at journal.ends_at ≡ true)
unfolding the_answer start
acked_vote_logged_example =
    acked_vote_logged local journal broker 0 (negsuc 0) [] start with_vote confirmed false
      vote.admitted_at vote.token vote.choice 0 the_answer (omega arith) here vote_queued
      to_confirmed answered refl refl

start-Live : Live local journal start
unfolding start
start-Live = new_writer-Live local journal broker 0 (negsuc 0) []

all_answered_example : in_answers 0 over.answers ≡ below 0 (length over.issued)
all_answered_example =
    all_answered local journal broker 0 (negsuc 0) [] over (omega arith) to_over over_facts.0
      over_facts.1 0

over-Live : Live local journal over
over-Live =
    Reach-Live local journal broker (new_writer 0 (negsuc 0) []) over (omega arith)
      (new_writer-Live local journal broker 0 (negsuc 0) []) to_over

sealed_final_example :
    ((begin_seal over).0.sealed ≡ true)
    × ((begin_seal over).0.log ≡ over.log)
    × ((begin_seal over).0.end_ ≡ over.end_)
sealed_final_example =
    sealed_final local journal broker over (begin_seal over).0 (omega arith) over-Live over_facts.2
      (next here (seals refl))
