-- ===== src/Votelog/Store.antt =====
-- internal/votelog/store.go and frame_submit.go: the state of a partition's writer under its mutex, Submit,
-- SubmitFrame and Seal. A result channel is a ticket under which the outcome is filed; `issued` lists
-- the jobs by ticket; `log` is what the broker has committed in the partition. The atomic counters
-- stand here as each writer's share; the durations that they measure are left out.
pub mod Run
mod Machine
mod Books
mod Flushing
mod Steps
mod Calls
mod Sealing
mod Progress
pub mod Safety
mod Tests
use gigaquizz.Common.{
  ℕ, zero, suc, ◌+◌, ◌-◌, ◌%◌, ◌^◌, Bool, true, false, not, ◌&&◌, ◌||◌, List, [], ◌∷◌, ◌++◌, Option,
  none, some, ltb, leb, ◌==◌, if◌then◌else◌, length, get_or, set, max,
}
use gigaquizz.Common.Bytes.{Bytes, bytes_eq}
use gigaquizz.Common.Int.{ℤ, pos, negsuc}
use gigaquizz.GoTime.{before}
use gigaquizz.Votelog.{Config, Input, Vote, no_vote, Receipt, zero_token, valid_choice, partition}
use gigaquizz.Votelog.Frame.{FrameError}

pub data Stage : Type 0 where
  begin produce before_commit_hook commit after_commit_hook : Stage

-- `transactionFailure`, or the error of `encodeFrame` in `flush`.
pub data Failure : Type 0 where
  transaction : Stage → ℕ → Failure
  encoding : FrameError ⊥ → Failure

-- `lost` is ErrUnknown, `unknown f` is ErrUnknown round the text of `f`.
pub data StoreError : Type 0 where
  invalid closed not_open busy lost : StoreError
  unknown : Failure → StoreError

pub record Pending : Type 0 where
  pub vote : Vote
  pub frame : List Vote
  pub ticket : ℕ

-- `pending.size`
pub size : Pending → ℕ
size p = if not (length p.frame == 0) then length p.frame else 1

pub record Answer : Type 0 where
  pub ticket : ℕ
  pub receipt : Receipt
  pub err : Option StoreError

pub record Entry : Type 0 where
  pub offset : ℕ
  pub key : Bytes
  pub value : Bytes

pub record Counters : Type 0 where
  pub admitted : ℕ
  pub confirmed : ℕ
  pub transactions : ℕ
  pub transaction_records : ℕ
  pub max_batch : ℕ
  pub failures : ℕ
  pub committed_frames : ℕ
  pub committed_value_bytes : ℕ
  pub committed_key_bytes : ℕ

pub record Writer : Type 0 where
  pub partition : ℕ
  pub closing : Bool
  pub sealed : Bool
  pub failed : Bool
  pub failure : Option Failure
  pub end_ : ℤ
  pub jobs : List Pending
  pub queued_votes : ℕ
  -- `w.seal` holds a token; `w.done` is closed.
  pub seal_requested : Bool
  pub done : Bool
  -- The variables of `run`, and how many transactions it has begun.
  pub batch : List Pending
  pub batch_votes : ℕ
  pub turn : ℕ
  pub counters : Counters
  pub log : List Entry
  pub answers : List Answer
  pub issued : List Pending

abbrev pub no_counters : Counters
no_counters = record {
  admitted = 0;
  confirmed = 0;
  transactions = 0;
  transaction_records = 0;
  max_batch = 0;
  failures = 0;
  committed_frames = 0;
  committed_value_bytes = 0;
  committed_key_bytes = 0;
}

-- The writer that `New` starts on the partition's log, of which `replay` has found that it ends at
-- `last`, or -1.
pub new_writer : ℕ → ℤ → List Entry → Writer
new_writer p last log =
    let ended : Bool = elim last [ pos n ↦ true | negsuc n ↦ false ] in
    record {
      partition = p;
      closing = ended;
      sealed = ended;
      failed = false;
      failure = none;
      end_ = if ended then last else negsuc 0;
      jobs = [];
      queued_votes = 0;
      seal_requested = false;
      done = false;
      batch = [];
      batch_votes = 0;
      turn = 0;
      counters = no_counters;
      log = log;
      answers = [];
      issued = [];
    }

-- `Add` of an atomic.Uint64
abbrev pub add64 : ℕ → ℕ → ℕ
add64 a b = (a + b) % 2 ^ 64

-- What a call of Submit reads: whether its context is done before the lock, the clock under it.
pub record Moment : Type 0 where
  pub done_before : Bool
  pub now : ℕ

-- Submit and SubmitFrame up to their `select`: the ticket of the outcome, or an error.
pub data Submitted : Type 0 where
  refused : StoreError → Submitted
  queued : ℕ → Submitted

-- `w.jobs <- p`, with the counts.
pub enqueue : Vote → List Vote → ℕ → Writer → Writer × Submitted
enqueue vote frame votes w =
    let p : Pending = record { vote = vote; frame = frame; ticket = length w.issued } in
    (
      record w {
        queued_votes = w.queued_votes + votes;
        jobs = w.jobs ++ p ∷ [];
        issued = w.issued ++ p ∷ [];
        counters = record w.counters { admitted = add64 w.counters.admitted votes };
      },
      queued (length w.issued),
    )

-- The part under the lock behind the check of the queue: the clock.
pub at_time : Config → ℕ → Writer × Submitted → Writer → Writer × Submitted
at_time c now admitted w =
    if before now c.starts_at
    then (w, refused not_open)
    else if not (before now c.ends_at)
    then (w, refused closed)
    else admitted

-- The checks of the writer's state; `full` is the check of the queue.
pub when_open : Bool → Bool → Writer × Submitted → Writer → Writer × Submitted
when_open cancelled full admitted w =
    if w.sealed || w.closing
    then (w, refused closed)
    else if w.failed || cancelled
    then (w, refused lost)
    else if full
    then (w, refused busy)
    else admitted

-- `len(w.jobs) == cap(w.jobs)`
pub jobs_full : Config → Writer → Bool
jobs_full c w = length w.jobs == c.queue_per_partition

-- The part of Submit under the lock.
pub submit_locked : Config → Bool → ℕ → Bytes → ℕ → Writer → Writer × Submitted
submit_locked c cancelled now token choice w =
    when_open cancelled (leb c.queue_per_partition w.queued_votes || jobs_full c w)
      (at_time c now (enqueue (record { token = token; choice = choice; admitted_at = now }) [] 1 w)
        w)
      w

-- The loop over the votes of a frame.
pub stamped : ℕ → List Input → List Vote
stamped now [] = []
stamped now (i ∷ is) =
    record { token = i.token; choice = i.choice; admitted_at = now } ∷ stamped now is

-- The part of SubmitFrame under the lock.
pub submit_frame_locked : Config → Bool → ℕ → List Input → Writer → Writer × Submitted
submit_frame_locked c cancelled now inputs w =
    when_open cancelled
      (ltb c.queue_per_partition (w.queued_votes + length inputs) || jobs_full c w)
      (at_time c now (enqueue no_vote (stamped now inputs) (length inputs) w) w) w

pub record Store : Type 0 where
  pub cancelled : Bool
  pub writers : List Writer

abbrev pub no_writer : Writer
no_writer = new_writer 0 (negsuc 0) []

-- The call under the lock of writer `p`.
pub with_writer : ℕ → (Writer → Writer × Submitted) → Store → Store × Submitted
with_writer p f s =
    let (w, r) = f (get_or s.writers p no_writer) in (record s { writers = set s.writers p w }, r)

module _ (sha256 : Bytes → Bytes) (c : Config) where
  -- `Submit`
  pub submit : Moment → Bytes → ℕ → Store → Store × Submitted
  submit m token choice s =
      if bytes_eq token zero_token || not (valid_choice c choice)
      then (s, refused invalid)
      else if m.done_before
      then (s, refused lost)
      else with_writer (partition sha256 c token) (submit_locked c s.cancelled m.now token choice) s

  -- The loop over the inputs.
  pub valid_inputs : ℕ → List Input → Bool
  valid_inputs p [] = true
  valid_inputs p (i ∷ is) =
      not (bytes_eq i.token zero_token)
      && valid_choice c i.choice
      && partition sha256 c i.token == p
      && valid_inputs p is

  -- `SubmitFrame` of some inputs.
  pub submit_inputs : Moment → ℕ → List Input → Store → Store × Submitted
  submit_inputs m p inputs s =
      if ltb c.batch_size (length inputs) || ltb 4096 (length inputs)
      then (s, refused invalid)
      else if not (valid_inputs p inputs)
      then (s, refused invalid)
      else if m.done_before
      then (s, refused lost)
      else with_writer p (submit_frame_locked c s.cancelled m.now inputs) s

  -- `SubmitFrame`
  pub submit_frame : Moment → List Input → Store → Store × Submitted
  submit_frame m [] s = (s, refused invalid)
  submit_frame m (i ∷ is) s = submit_inputs m (partition sha256 c i.token) (i ∷ is) s

-- FrameReceipt
pub record FrameReceipt : Type 0 where
  pub partition : ℕ
  pub offset : ℕ
  pub count : ℕ
  pub admitted_at : ℕ

abbrev pub no_receipt : Receipt
no_receipt = record { partition = 0; offset = 0; index = 0; admitted_at = 0 }

-- The `select` of Submit: the outcome, or a context that is done.
pub awaited : Option Answer → Receipt × Option StoreError
awaited none = (no_receipt, some lost)
awaited (some a) = (a.receipt, a.err)

-- The `select` of SubmitFrame; `none` is an error.
pub frame_awaited : ℕ → Option Answer → Option FrameReceipt × Option StoreError
frame_awaited count none = (none, some lost)
frame_awaited count (some a) = elim a.err [
  | some e ↦ (none, some e)
  | none ↦ (
    some (record {
      partition = a.receipt.partition;
      offset = a.receipt.offset;
      count = count % 2 ^ 32;
      admitted_at = a.receipt.admitted_at;
    }),
    none,
  )
]

-- A writer's part of Seal, behind `waitUntil`, up to the wait for `w.done`.
pub begin_seal : Writer → Writer × Option StoreError
begin_seal w =
    if w.sealed
    then (w, none)
    else if w.failed
    then (w, some lost)
    else if w.closing
    then (w, none)
    else (record w { closing = true; seal_requested = true }, none)

-- The check behind the wait, and the offset for the manifest.
pub seal_result : Writer → ℤ × Option StoreError
seal_result w = if w.sealed then (w.end_, none) else (negsuc 0, some lost)
