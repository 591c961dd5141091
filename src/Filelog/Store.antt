-- ===== src/Filelog/Store.antt =====
-- internal/filelog/store.go: the store's state under its mutex, SubmitFrame, Seal, Close. The queue is
-- a list; `done` of a job is a ticket under which its answer is filed; `file` is what the calls of
-- Write have put into the journal, `synced` how much of it the last Sync covered. Clocks and contexts
-- are arguments. The times that the metrics measure are left out.
pub mod Writer
mod Submit
mod Machine
mod Invariant
mod Receipts
mod Ending
mod Flushing
mod Steps
mod Calls
mod Logged
pub mod Durable
mod Tests
use gigaquizz.Common.{
  ℕ, zero, suc, ◌+◌, ◌-◌, ◌*◌, ◌%◌, ◌^◌, Bool, true, false, not, ◌&&◌, ◌||◌, List, [], ◌∷◌, ◌++◌,
  Option, none, some, ltb, leb, ◌==◌, if◌then◌else◌, length,
}
use gigaquizz.Common.Bytes.{Bytes, bytes_eq}
use gigaquizz.GoTime.{before}
use gigaquizz.Filelog.Types.{
  Config, Input, FrameReceipt, PartitionEnd, Manifest, valid, valid_choice, zero_token,
}
use gigaquizz.Filelog.Codec.{encode_inputs, file_header, file_header_bytes, max_frame_votes}

-- `unknown e` is ErrUnknown wrapped round the text of `e`; `io n` is an error of a system call.
pub data StoreError : Type 0 where
  invalid closed not_open busy context_done short_write sequence_exhausted out_of_fuel : StoreError
  io : ℕ → StoreError
  unknown : StoreError → StoreError

pub record Job : Type 0 where
  pub data_ : Bytes
  pub count : ℕ
  pub admitted : ℕ
  pub ticket : ℕ

pub record Answer : Type 0 where
  pub ticket : ℕ
  pub receipt : FrameReceipt
  pub err : Option StoreError

pub record Store : Type 0 where
  pub admission_closed : Bool
  pub queue_closed : Bool
  pub seal_requested : Bool
  pub poison : Option StoreError
  pub manifest : Manifest
  pub queued_votes : ℕ
  pub queue : List Job
  pub finished : Bool
  pub active_votes : ℕ
  pub durable_votes : ℕ
  pub durable_frames : ℕ
  pub groups : ℕ
  pub wal_bytes : ℕ
  pub acknowledged : ℕ
  pub unknown_votes : ℕ
  pub busy_votes : ℕ
  -- The variables of `run`: `pending` is a job taken from the queue and not yet in the batch.
  pub sequence : ℕ
  pub batch : List Job
  pub votes : ℕ
  pub ticking : Bool
  pub pending : Option Job
  -- The world: the journal's bytes, how many a Sync has covered, the answers sent, the next ticket.
  pub file : Bytes
  pub synced : ℕ
  pub answers : List Answer
  pub tickets : ℕ

abbrev pub no_receipt : FrameReceipt
no_receipt = record { partition = 0; offset = 0; count = 0; admitted_at = 0 }

-- `Add` of an atomic.Uint64
abbrev pub add64 : ℕ → ℕ → ℕ
add64 a b = (a + b) % 2 ^ 64

-- The end of `New`, behind its calls of package os.
unfoldable pub new : Config → Store
new c = record {
  admission_closed = false;
  queue_closed = false;
  seal_requested = false;
  poison = none;
  manifest = [];
  queued_votes = 0;
  queue = [];
  finished = false;
  active_votes = 0;
  durable_votes = 0;
  durable_frames = 0;
  groups = 0;
  wal_bytes = file_header_bytes;
  acknowledged = 0;
  unknown_votes = 0;
  busy_votes = 0;
  sequence = 0;
  batch = [];
  votes = 0;
  ticking = false;
  pending = none;
  file = file_header c;
  synced = file_header_bytes;
  answers = [];
  tickets = 0;
}

-- The loop over the inputs.
unfoldable pub valid_inputs : Config → List Input → Bool
valid_inputs c [] = true
valid_inputs c (i ∷ is) =
    not (bytes_eq i.token zero_token) && valid_choice c i.choice && valid_inputs c is

-- What SubmitFrame reads of its context and its clock: the context's error at its two checks, and
-- the two readings of `now`.
pub record Moment : Type 0 where
  pub done_before : Bool
  pub observed : ℕ
  pub now : ℕ
  pub done_after : Bool

-- SubmitFrame up to its `select`: the ticket under which it waits for the answer, or its error.
pub data Submitted : Type 0 where
  refused : StoreError → Submitted
  queued : ℕ → Submitted

-- The locked part behind the check of the capacity.
unfoldable pub admit : Config → Moment → List Input → Store → Store × Submitted
admit c m inputs s =
    if before m.now c.starts_at
    then (s, refused not_open)
    else if not (before m.now c.ends_at)
    then (record s { admission_closed = true }, refused closed)
    else if m.done_after
    then (s, refused context_done)
    else let j : Job = record {
      data_ = encode_inputs inputs m.now;
      count = length inputs;
      admitted = m.now;
      ticket = s.tickets;
    } in
      (
        record s {
          queued_votes = s.queued_votes + length inputs;
          queue = s.queue ++ j ∷ [];
          tickets = s.tickets + 1;
        },
        queued s.tickets,
      )

-- The part under the lock.
unfoldable pub submit_locked : Config → Moment → List Input → Store → Store × Submitted
submit_locked c m inputs s = elim s.poison [
  | some e ↦ (s, refused e)
  | none ↦
      if s.admission_closed
      then (s, refused closed)
      else if not (before m.observed c.ends_at)
      then (record s { admission_closed = true }, refused closed)
      else if before m.observed c.starts_at
      then (s, refused not_open)
      else if ltb c.queue_per_partition (s.queued_votes + length inputs)
      then (record s { busy_votes = add64 s.busy_votes (length inputs) }, refused busy)
      else admit c m inputs s
]

unfoldable pub submit_frame : Config → Moment → List Input → Store → Store × Submitted
submit_frame c m inputs s =
    if length inputs == 0 || ltb max_frame_votes (length inputs) || ltb c.batch_size (length inputs)
    then (s, refused invalid)
    else if not (valid_inputs c inputs)
    then (s, refused invalid)
    else if m.done_before
    then (s, refused context_done)
    else submit_locked c m inputs s

-- The `select` of SubmitFrame, once it has an answer (`some`) or its context is done (`none`).
unfoldable pub awaited : ℕ → Option Answer → Store → Store × FrameReceipt × Option StoreError
awaited count none s = (
  record s { unknown_votes = add64 s.unknown_votes count },
  no_receipt,
  some (unknown context_done),
)
awaited count (some a) s = elim a.err [
  | none ↦ (record s { acknowledged = add64 s.acknowledged count }, a.receipt, none)
  | some e ↦ (record s { unknown_votes = add64 s.unknown_votes count }, a.receipt, some e)
]

-- `stopQueueLocked`
unfoldable pub stop_queue : Store → Store
stop_queue s = record s { admission_closed = true; queue_closed = true }

-- Seal behind `waitUntil`: the deadline has passed.
unfoldable pub begin_seal : Store → Store
begin_seal s = if s.queue_closed then s else stop_queue (record s { seal_requested = true })

-- Seal once the writer is done.
unfoldable pub seal_result : Store → Manifest × Option StoreError
seal_result s = elim s.poison [
  | some e ↦ ([], some e)
  | none ↦ if length s.manifest == 0 then ([], some closed) else (s.manifest, none)
]

-- `fail`; the error it returns is the store's poison.
unfoldable pub fail : StoreError → Store → Store × StoreError
fail e s = elim s.poison [
  | none ↦ (stop_queue (record s { poison = some (unknown e) }), unknown e)
  | some p ↦ (stop_queue s, p)
]

-- `release`
unfoldable pub release : Job → Store → Store
release j s = record s { queued_votes = s.queued_votes - j.count }
