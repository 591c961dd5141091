-- ===== src/Filelog/Store/Invariant.antt =====
-- What holds of the store between steps.
use gigaquizz.Common.{
  ℕ, ◌+◌, ◌-◌, ◌^◌, ◌≤◌, ◌≡◌, Bool, true, false, List, [], ◌∷◌, ◌++◌, Option, none, some, get_elem?,
  length, take, All,
}
use gigaquizz.Common.Bytes.{Bytes}
use gigaquizz.Common.Total.{sum_of}
use gigaquizz.Filelog.Types.{Config, Manifest, FrameReceipt}
use gigaquizz.Filelog.Codec.{file_header}
use gigaquizz.Filelog.Codec.Frames.{closed_frame}
use gigaquizz.Filelog.Scan.Journal.{Batch, IsBatch, journal_bytes, sizes_of}
use gigaquizz.Filelog.Store.{StoreError, Job, Answer, Store}
use gigaquizz.Filelog.Store.Writer.Frames.{Log, Noted, IsJob, Carry}

abbrev pub counts : List Job → ℕ
counts = sum_of (λ (j : Job). j.count)

abbrev pub waiting_of : Option Job → List Job
waiting_of none = []
waiting_of (some j) = j ∷ []

abbrev pub SomeJob : Config → Log → Job → Type 0
SomeJob c log j = (b : Batch) × IsJob c log j b

-- The queue, the job that has left it and is not yet in the batch, and what they are charged.
pub record Charged (c : Config) (log : Log) (queue waiting : List Job) (queued : ℕ) : Type 0 where
  pub jobs : All (SomeJob c log) queue
  pub waiting_jobs : All (SomeJob c log) waiting
  pub charged : queued ≡ counts queue + counts waiting
  pub within : queued ≤ c.queue_per_partition

-- An answer without an error is the receipt of a frame of the journal, the one queued under its ticket.
abbrev pub Receipted : Log → ℕ → List Batch → FrameReceipt → Option StoreError → Type 0
Receipted log ticket bs r (some e) = Unit {0}
Receipted log ticket bs r none =
    (b : Batch) × (get_elem? bs r.offset ≡ some b)
    × (r.count ≡ length b.inputs)
    × (r.admitted_at ≡ b.admitted)
    × Noted log ticket b

abbrev pub Acked : Log → List Batch → Answer → Type 0
Acked log bs a = Receipted log a.ticket bs a.receipt a.err

-- While the writer runs: all flushed frames are in the file and synced, and nothing else is.
pub record Running (c : Config) (log : Log) (batch : List Job) (votes sequence : ℕ) (file : Bytes)
    (synced : ℕ) (answers : List Answer) : Type 0 where
  pub flushed : List Batch
  pub good : All (IsBatch c) flushed
  pub few : length flushed ≤ 2 ^ 63 - 1
  pub sequence_is : sequence ≡ length flushed
  pub file_is : file ≡ file_header c ++ journal_bytes 0 flushed
  pub synced_is : synced ≡ length file
  pub answered : All (Acked log flushed) answers
  pub batched : List Batch
  pub carry : Carry c log batch batched
  pub votes_is : votes ≡ counts batch
  pub votes_fit : votes ≤ c.batch_size

-- What stands in the file when the writer has ended: all flushed frames, and a part of the frames
-- that it could not flush, a part of the barrier, or the whole barrier.
pub data Tail (c : Config) (flushed : List Batch) (file : Bytes) (manifest : Manifest)
    : Type 0 where
  frames :
      (more : List Batch) (k : ℕ)
      → All (IsBatch c) (flushed ++ more)
      → sizes_of flushed ≤ k
      → k ≤ sizes_of (flushed ++ more)
      → length (flushed ++ more) ≤ 2 ^ 63 - 1
      → file ≡ file_header c ++ take k (journal_bytes 0 (flushed ++ more))
      → manifest ≡ []
      → Tail c flushed file manifest
  barrier :
      (k : ℕ)
      → file ≡ file_header c ++ (journal_bytes 0 flushed ++ take k (closed_frame (length flushed)))
      → manifest ≡ []
      → Tail c flushed file manifest
  sealed :
      file ≡ file_header c ++ (journal_bytes 0 flushed ++ closed_frame (length flushed))
      → manifest ≡ record { partition = 0; offset = length flushed } ∷ []
      → Tail c flushed file manifest

pub record Over (c : Config) (log : Log) (file : Bytes) (answers : List Answer)
    (manifest : Manifest) : Type 0 where
  pub flushed : List Batch
  pub good : All (IsBatch c) flushed
  pub few : length flushed ≤ 2 ^ 63 - 1
  pub answered : All (Acked log flushed) answers
  pub tail : Tail c flushed file manifest

pub data Phase (c : Config) (log : Log) (finished : Bool) (poison : Option StoreError)
    (manifest : Manifest) (batch : List Job) (votes sequence : ℕ) (file : Bytes) (synced : ℕ)
    (answers : List Answer) : Type 0 where
  running :
      finished ≡ false
      → poison ≡ none
      → manifest ≡ []
      → Running c log batch votes sequence file synced answers
      → Phase c log finished poison manifest batch votes sequence file synced answers
  over :
      finished ≡ true
      → Over c log file answers manifest
      → Phase c log finished poison manifest batch votes sequence file synced answers

abbrev pub PhaseOf : Config → Log → Store → Type 0
PhaseOf c log s =
    Phase c log s.finished s.poison s.manifest s.batch s.votes s.sequence s.file s.synced s.answers

pub record StoreInv (c : Config) (log : Log) (s : Store) : Type 0 where
  pub charged : Charged c log s.queue (waiting_of s.pending) s.queued_votes
  pub phase : PhaseOf c log s
