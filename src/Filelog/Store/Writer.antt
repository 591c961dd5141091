-- ===== src/Filelog/Store/Writer.antt =====
-- internal/filelog/store.go: writeAll, syncGroup and the writer goroutine `run`, whose `select` is
-- four steps here: a job is received, the job joins the batch, the timer ticks, the queue is closed and
-- empty. SubmitFrame, Seal and Close may run between them; what a step does to the fields they share
-- is done under the mutex.
pub mod WriteAll
pub mod Frames
pub mod Branches
pub mod Healthy
use gigaquizz.Common.{
  ℕ, zero, suc, ◌+◌, ◌-◌, ◌*◌, ◌%◌, ◌^◌, Bool, true, false, not, ◌&&◌, ◌||◌, List, [], ◌∷◌, ◌++◌,
  Option, none, some, ltb, leb, ◌==◌, if◌then◌else◌, length, take, drop, get_or,
}
use gigaquizz.Common.Bytes.{Bytes, zeros}
use gigaquizz.Common.Int.{ℤ, pos, negsuc}
use gigaquizz.Filelog.Types.{Config, FrameReceipt, PartitionEnd, Manifest}
use gigaquizz.Filelog.Codec.{finish_frame, kind_votes, kind_closed, frame_header_bytes}
use gigaquizz.Filelog.Store.{
  StoreError, io, short_write, sequence_exhausted, out_of_fuel, Job, Answer, Store, no_receipt,
  add64, fail, release,
}

-- What the `n`-th Write of a call of `writeAll` returns. As io.Writer has it, a count `n` of at most
-- the length says that the first `n` bytes are written.
pub record Written : Type 0 where
  pub count : ℤ
  pub err : Option ℕ

-- What the disk does in one call of `syncGroup`, and at the file's Close if the writer then ends.
pub record Disk : Type 0 where
  pub write : ℕ → Written
  pub sync_error : Option ℕ
  pub close_error : Option ℕ

-- `writeAll` after `k` writes: the bytes it writes, and its error. Every round but the last writes a byte.
unfoldable pub write_all : (ℕ → Written) → ℕ → ℕ → Bytes → Bytes × Option StoreError
write_all write zero k b = ([], some out_of_fuel)
write_all write (suc fuel) k b = if length b == 0 then ([], none) else elim (write k).count [
  | negsuc m ↦ ([], some short_write)
  | pos n ↦ if ltb (length b) n then ([], some short_write) else elim (write k).err [
    | some e ↦ (take n b, some (io e))
    | none ↦
        if n == 0
        then ([], some short_write)
        else let (more, e) = write_all write fuel (k + 1) (drop n b) in (take n b ++ more, e)
  ]
]

unfoldable pub sync_group : Disk → Bytes → Store → Store × Option StoreError
sync_group d bytes s =
    let (done, e) = write_all d.write (length bytes + 1) 0 bytes in
    let s' : Store = record s { file = s.file ++ done } in
    elim e [
      | some x ↦ (s', some x)
      | none ↦
          let counted : Store = record s' { wal_bytes = add64 s'.wal_bytes (length bytes) } in
          elim d.sync_error [
            | some x ↦ (counted, some (io x))
            | none ↦ (record counted { groups = add64 s.groups 1; synced = length s'.file }, none)
          ]
    ]

-- The frames of a batch, finished with their sequence numbers.
unfoldable pub frames_of : ℕ → List Job → Bytes
frames_of sequence [] = []
frames_of sequence (j ∷ js) =
    finish_frame j.data_ sequence kind_votes (j.count % 2 ^ 32) ++ frames_of (sequence + 1) js

-- The answers to a batch.
unfoldable pub answers_of : ℕ → Option StoreError → List Job → List Answer
answers_of sequence e [] = []
answers_of sequence e (j ∷ js) =
    let receipt : FrameReceipt = record {
      partition = 0;
      offset = sequence;
      count = j.count % 2 ^ 32;
      admitted_at = j.admitted;
    } in
    record { ticket = j.ticket; receipt = receipt; err = e } ∷ answers_of (sequence + 1) e js

-- `flush` up to the outcome of the disk.
unfoldable pub flush_sync : Disk → Store → Store × Option StoreError
flush_sync d s =
    let stopped : Store = record s { ticking = false } in
    if ltb (2 ^ 63 - 1 - s.sequence) (length s.batch)
    then (stopped, some sequence_exhausted)
    else sync_group d (frames_of s.sequence s.batch) stopped

-- The rest of `flush`.
unfoldable pub flush_answer : Option StoreError → Store → Store
flush_answer e s = record s {
  answers = s.answers ++ answers_of s.sequence e s.batch;
  sequence = s.sequence + length s.batch;
  batch = [];
  votes = 0;
  active_votes = 0;
}

-- `flush` behind the disk: the store before it, and its outcome.
unfoldable pub flush_outcome : Store → Store × Option StoreError → Store × Option StoreError
flush_outcome s (s', none) = (
  flush_answer none (record s' {
    durable_votes = add64 s'.durable_votes s.votes;
    durable_frames = add64 s'.durable_frames (length s.batch);
  }),
  none,
)
flush_outcome s (s', some x) = let (failed, p) = fail x s' in (flush_answer (some p) failed, some p)

unfoldable pub flush : Disk → Store → Store × Option StoreError
flush d s = if length s.batch == 0 then (s, none) else flush_outcome s (flush_sync d s)

-- The answers of `drainFailure` to the jobs still queued, each of them released.
unfoldable pub drain : StoreError → List Job → Store → Store
drain e [] s = record s { queue = [] }
drain e (j ∷ js) s =
    let a : Answer = record { ticket = j.ticket; receipt = no_receipt; err = some e } in
    drain e js (release j (record s { answers = s.answers ++ a ∷ [] }))

-- The deferred calls of `run`.
unfoldable pub end_run : Disk → Store → Store
end_run d s =
    let s' : Store = elim d.close_error [ none ↦ s | some e ↦ (fail (io e) s).0 ] in
    record s' { pending = none; ticking = false; finished = true }

-- `drainFailure`, behind which `run` returns.
unfoldable pub drain_failure : Disk → StoreError → List Job → Store → Store
drain_failure d e pending s = end_run d (drain e (pending ++ s.queue) s)

-- `j, ok := <-s.queue`
unfoldable pub receive : Store → Store
receive s = elim s.queue [ [] ↦ s | j ∷ js ↦ record s { queue = js; pending = some j } ]

-- The job joins the batch.
unfoldable pub join : Config → Job → Store → Store
join c j s =
    let r = release j s in
    record r {
      pending = none;
      batch = s.batch ++ j ∷ [];
      votes = s.votes + j.count;
      active_votes = s.votes + j.count;
      ticking = s.ticking || (s.votes + j.count == j.count && ltb 0 c.linger);
    }

-- What follows a flush: the failure drains the queue and ends the writer.
unfoldable pub or_drain : Disk → Store × Option StoreError → Store
or_drain d (s, none) = s
or_drain d (s, some e) = drain_failure d e [] s

-- The second half of the branch of a received job: the batch may be full.
unfoldable pub fill : Config → Disk → Store → Store
fill c d s = if leb c.batch_size s.votes || c.linger == 0 then or_drain d (flush d s) else s

-- The branch of a received job. `d` is the disk at the flush of the batch before, `d'` at the next.
unfoldable pub settle : Config → Disk → Disk → Job → Store → Store
settle c d d' j s =
    let full = ltb c.batch_size (s.votes + j.count) in
    let (s', e) = if full then flush d s else (s, none) in
    elim e [ some x ↦ drain_failure d x (j ∷ []) s' | none ↦ fill c d' (join c j s') ]

-- `<-tick`
unfoldable pub tick : Disk → Store → Store
tick d s = or_drain d (flush d s)

-- The barrier's frame: `finishFrame` of 40 zero bytes.
unfoldable pub seal_file : Disk → Store → Store
seal_file d s =
    let (s', e) =
      sync_group d (finish_frame (zeros frame_header_bytes) s.sequence kind_closed 0) s in
    elim e [
      | some x ↦ (fail x s').0
      | none ↦ record s' { manifest = record { partition = 0; offset = s.sequence } ∷ [] }
    ]

-- The branch of the closed and empty queue.
unfoldable pub finish : Disk → Disk → Store → Store
finish d d' s =
    let (s', e) = flush d s in
    let end : Store = elim e [
      | some x ↦ s'
      | none ↦ if s'.seal_requested then seal_file d' s' else s'
    ] in
    end_run d' end
