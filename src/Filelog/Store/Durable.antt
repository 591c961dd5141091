-- ===== src/Filelog/Store/Durable.antt =====
-- What the receipts of SubmitFrame and the manifest of Seal promise about the journal's file.
use gigaquizz.Common.{
  ℕ, zero, suc, ◌+◌, ◌-◌, ◌^◌, ◌≤◌, ◌<◌, ◌≡◌, sym, ap, subst, ◌∙◌, Bool, true, false, List, [], ◌∷◌,
  ◌++◌, none, some, get_elem?, length, take, All, arith,
}
use gigaquizz.Common.Bytes.{Bytes}
use gigaquizz.Filelog.Types.{Config, Vote, Position, Manifest, valid}
use gigaquizz.Filelog.Codec.{file_header}
use gigaquizz.Filelog.Codec.Frames.{closed_frame}
use gigaquizz.Filelog.Scan.{replay}
use gigaquizz.Filelog.Scan.Journal.{Batch, IsBatch, journal_bytes, pure_visit, visit_journal}
use gigaquizz.Filelog.Scan.Whole.{replay-sealed}
use gigaquizz.Filelog.Store.{Job, Answer, Store, new, seal_result}
use gigaquizz.Filelog.Store.Machine.{Reach, submissions}
use gigaquizz.Filelog.Store.Invariant.{
  counts, waiting_of, SomeJob, Receipted, Acked, Over, Tail, frames, barrier, sealed, running, over,
  StoreInv,
}
use gigaquizz.Filelog.Store.Logged.{Reach-StoreInv}
use gigaquizz.Filelog.Store.Writer.Frames.{Log}
use gigaquizz.Filelog.Store.Flushing.{prefix_of_journal}
use mathlib.Core.List.{append-nil}

-- The file holds the frames `bs`, whatever stands behind them, and the receipts point at them.
pub record Holds (c : Config) (log : Log) (file : Bytes) (answers : List Answer) (bs : List Batch)
    : Type 0 where
  pub rest : Bytes
  pub file_is : file ≡ file_header c ++ (journal_bytes 0 bs ++ rest)
  pub good : All (IsBatch c) bs
  pub acked : All (Acked log bs) answers

Tail-rest :
    (c : Config) (bs : List Batch) (file : Bytes) (m : Manifest)
    → valid c ≡ true
    → All (IsBatch c) bs
    → length bs ≤ 2 ^ 63 - 1
    → Tail c bs file m
    → (rest : Bytes) × (file ≡ file_header c ++ (journal_bytes 0 bs ++ rest))
Tail-rest c bs file m v good few (frames more k all lo hi count e u) =
    let (rest, p) = prefix_of_journal c v bs more k good few lo in
    (rest, e ∙ ap (λ t. file_header c ++ t) p)
Tail-rest c bs file m v good few (barrier k e u) = (take k (closed_frame (length bs)), e)
Tail-rest c bs file m v good few (sealed e u) = (closed_frame (length bs), e)

StoreInv-Holds :
    (c : Config) (log : Log) (s : Store)
    → valid c ≡ true
    → StoreInv c log s
    → (bs : List Batch) × Holds c log s.file s.answers bs
StoreInv-Holds c log s v i = elim i.phase [
  | running f p m r ↦ (
    r.flushed,
    record {
      rest = [];
      file_is =
          r.file_is ∙ ap (λ t. file_header c ++ t) (sym (append-nil (journal_bytes 0 r.flushed)));
      good = r.good;
      acked = r.answered;
    },
  )
  | over f o ↦
      let (rest, e) = Tail-rest c o.flushed s.file s.manifest v o.good o.few o.tail in
      (o.flushed, record { rest = rest; file_is = e; good = o.good; acked = o.answered })
]

receipt_at :
    (log : Log) (bs : List Batch) (answers : List Answer) (i : ℕ) (a : Answer)
    → All (Acked log bs) answers
    → get_elem? answers i ≡ some a
    → Acked log bs a
receipt_at log bs [] i a h e = ground arith
receipt_at log bs (x ∷ xs) zero a h e =
    let same : x ≡ a = ground (arith, e) in subst (Acked log bs) same h.0
receipt_at log bs (x ∷ xs) (suc i) a h e = receipt_at log bs xs i a h.1 e

-- Whatever the disk, the clocks and the clients do, in any order, from the store that New makes of a
-- valid configuration on: whenever a frame has been answered without an error, the journal's file
-- holds, behind its header and the frames before it, the frame that the receipt points at, with as
-- many votes as it says, admitted at the instant that it says; also after errors of the disk. The
-- frame holds exactly the votes that SubmitFrame was given, in its call that queued the frame under
-- the answer's ticket, and the instant at which that call admitted them.
pub acked_in_file :
    (c : Config) (s : Store) (i : ℕ) (a : Answer)
    → valid c ≡ true
    → length c.poll_id ≡ 16
    → (r : Reach c (new c) s) → get_elem? s.answers i ≡ some a
    → a.err ≡ none
    → (bs : List Batch) × (b : Batch) × (rest : Bytes) × (s.file
        ≡ file_header c ++ (journal_bytes 0 bs ++ rest))
      × (get_elem? bs a.receipt.offset ≡ some b)
      × (a.receipt.count ≡ length b.inputs)
      × (a.receipt.admitted_at ≡ b.admitted)
      × (get_elem? (submissions r) a.ticket ≡ some b)
acked_in_file c s i a v id r found ok =
    let log = some (submissions r) in
    let (bs, h) = StoreInv-Holds c log s v (Reach-StoreInv c v id r) in
    let (b, at_offset, count, admitted, noted) =
      subst (Receipted log a.ticket bs a.receipt) ok
        (receipt_at log bs s.answers i a h.acked found) in
    (bs, b, h.rest, h.file_is, at_offset, count, admitted, noted)

-- Sealing with a manifest and no error is the end of the writer with the barrier in the file.
sealed_end :
    (c : Config) (log : Log) (s : Store) (n : ℕ)
    → StoreInv c log s
    → seal_result s ≡ (record { partition = 0; offset = n } ∷ [], none)
    → (bs : List Batch) × (length bs ≡ n)
      × All (IsBatch c) bs
      × (s.file ≡ file_header c ++ (journal_bytes 0 bs ++ closed_frame (length bs)))
      × All (Acked log bs) s.answers
unfolding seal_result
sealed_end c log s n i e =
    let m : s.manifest ≡ record { partition = 0; offset = n } ∷ [] = ground arith in
    elim i.phase [
      | running f p unsealed r ↦ absurd (ground (arith, m, unsealed))
      | over f o ↦ ended o m o.tail
    ]
  where
    ended :
        (o : Over c log s.file s.answers s.manifest)
        → s.manifest ≡ record { partition = 0; offset = n } ∷ []
        → Tail c o.flushed s.file s.manifest
        → (bs : List Batch) × (length bs ≡ n)
          × All (IsBatch c) bs
          × (s.file ≡ file_header c ++ (journal_bytes 0 bs ++ closed_frame (length bs)))
          × All (Acked log bs) s.answers
    ended o m (frames more k all lo hi count e u) = absurd (ground (arith, m, u))
    ended o m (barrier k e u) = absurd (ground (arith, m, u))
    ended o m (sealed e u) = (o.flushed, ground (arith, m, u), o.good, e, o.answered)

-- When Seal returns a manifest, Replay of the file that the store has written, with that
-- configuration, succeeds with the same manifest and visits, in their order, the votes of some frames.
-- For every answer without an error, the frame at the offset of its receipt is among them, with the
-- count and the instant of the receipt; and its votes are exactly those that SubmitFrame was given, in
-- its call that queued a frame under the answer's ticket, admitted at the instant of that call.
-- The store is one that New made of a valid configuration, the manifest's offset is below 2 ^ 63 - 1,
-- the metadata has at most 4096 bytes, and the context of Replay is never done.
pub sealed_replay :
    {S E : Type 0} (g : Position → Vote → S → S) (cancelled : ℕ → Bool) (marshal : Config → Bytes)
    (c : Config) (s : Store) (n : ℕ) (init : S)
    → valid c ≡ true
    → length c.poll_id ≡ 16
    → length (marshal c) ≤ 4096
    → ((k : ℕ) → cancelled k ≡ false)
    → (r : Reach c (new c) s) → seal_result s ≡ (record { partition = 0; offset = n } ∷ [], none)
    → n < 2 ^ 63 - 1
    → (bs : List Batch) × (length bs ≡ n)
      × (replay (pure_visit g {E = E}) cancelled c marshal s.file (marshal c ++ b'\n' ∷ []) init
          ≡ (visit_journal g 0 bs init, none, record { partition = 0; offset = n } ∷ []))
      × All (Acked (some (submissions r)) bs) s.answers
sealed_replay {E = E} g cancelled marshal c s n init v id small live r e word =
    let (bs, count, good, file, acked) =
      sealed_end c (some (submissions r)) s n (Reach-StoreInv c v id r) e in
    (
      bs,
      count,
      ap (λ f. replay (pure_visit g {E = E}) cancelled c marshal f (marshal c ++ b'\n' ∷ []) init)
            file
          ∙ replay-sealed g cancelled c marshal bs init v id small good (omega arith) live
          ∙ ap (λ k. (visit_journal g 0 bs init, none, record { partition = 0; offset = k } ∷ []))
              count,
      acked,
    )

counts-length :
    (c : Config) (log : Log) (js : List Job) → All (SomeJob c log) js → length js ≤ counts js
counts-length c log [] h = omega arith
counts-length c log (j ∷ js) h =
    let (b, job) = h.0 in omega (arith, counts-length c log js h.1, job.count, job.batch.some_votes)

-- The votes in the queue never exceed QueuePerPartition, so neither do its frames: the send of
-- SubmitFrame on the channel of that capacity does not block.
pub queue_bound :
    (c : Config) (s : Store)
    → valid c ≡ true
    → length c.poll_id ≡ 16
    → Reach c (new c) s
    → (s.queued_votes ≡ counts s.queue + counts (waiting_of s.pending))
      × (s.queued_votes ≤ c.queue_per_partition)
      × (length s.queue ≤ c.queue_per_partition)
queue_bound c s v id r =
    let ch = (Reach-StoreInv c v id r).charged in
    (
      ch.charged,
      ch.within,
      omega (arith, counts-length c (some (submissions r)) s.queue ch.jobs, ch.charged, ch.within),
    )
