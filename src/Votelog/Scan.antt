-- ===== src/Votelog/Scan.antt =====
-- internal/votelog/audit.go: reading the committed records of a topic back. The consumer is a
-- parameter: what `PollRecords` returns, call after call. A record of a fetch belongs to the partition
-- of the fetch, as the client documents.
pub mod Rule
use gigaquizz.Common.{
  ℕ, zero, suc, ◌+◌, ◌-◌, ◌%◌, ◌^◌, Bool, true, false, not, ◌&&◌, ◌||◌, List, [], ◌∷◌, ◌++◌, Option,
  none, some, bit_and, ltb, leb, ◌==◌, if◌then◌else◌, length, get_or, set, replicate,
}
use gigaquizz.Common.Bytes.{Bytes, bytes_eq}
use gigaquizz.Common.Int.{ℤ, pos, negsuc, ◌≤b◌}
use gigaquizz.Common.Assoc.{Assoc, lookup, put}
use gigaquizz.Votelog.{
  Config, Vote, Position, ConfigError, validate, record_vote, record_boot, record_closed,
  RecordError, Decoded, decoded, refused, decode_record, partition,
}
use gigaquizz.Votelog.Frame.{FrameError, frame_version, decode_frame}

-- A record of the broker, as the consumer delivers it.
pub record Record : Type 0 where
  pub offset : ℕ
  pub key : Bytes
  pub value : Bytes
  pub transactional : Bool

-- `kgo.FetchTopicPartition`
pub record Fetch : Type 0 where
  pub partition : ℤ
  pub log_start : ℤ
  pub records : List Record

-- What one `PollRecords` returns, and the context's error behind it.
pub record Poll : Type 0 where
  pub cancelled : Option ℕ
  pub errors : List ℕ
  pub fetches : List Fetch

-- What the visitor of `scan` returns: it goes on, it has seen the partition's last record, or an error.
pub data Seen (E : Type 0) : Type 0 where
  goes ends : Seen E
  fails : E → Seen E

pub data ScanError (E : Type 0) : Type 0 where
  no_client context_done fetch : ℕ → ScanError E
  unexpected_partition prefix_expired not_transactional : ScanError E
  visitor : E → ScanError E

pub record Scan (S : Type 0) : Type 0 where
  pub done : List Bool
  pub remaining : ℕ
  pub state : S

-- `waiting`: the consumer has delivered no more so far, and the loop has not ended.
pub data Scanned (S E : Type 0) : Type 0 where
  finished : S → Scanned S E
  failed : S → ScanError E → Scanned S E
  waiting : Scan S → Scanned S E

module _ {S E : Type 0} where
  -- On an error of the first step, the rest is left out.
  unfoldable pub unless_failed :
      (Scan S → Scan S × Option (ScanError E))
      → Scan S × Option (ScanError E)
      → Scan S × Option (ScanError E)
  unless_failed k (t, none) = k t
  unless_failed k (t, some e) = (t, some e)

  -- Behind the call of the visitor.
  unfoldable pub record_seen : ℕ → Scan S → S × Seen E → Scan S × Option (ScanError E)
  record_seen p t (s, goes) = (record t { state = s }, none)
  record_seen p t (s, ends) =
      (record t { state = s; done = set t.done p true; remaining = t.remaining - 1 }, none)
  record_seen p t (s, fails e) = (record t { state = s }, some (visitor e))

  unfoldable pub poll_again : (Scan S → Scanned S E) → Scan S × Option (ScanError E) → Scanned S E
  poll_again k (t, none) = k t
  poll_again k (t, some e) = failed t.state e

module _ {S E : Type 0} (visit : ℕ → Record → S → S × Seen E) where
  -- The loop over the records of a partition.
  unfoldable pub scan_record : ℕ → Record → Scan S → Scan S × Option (ScanError E)
  scan_record p r t =
      if get_or t.done p false
      then (t, none)
      else if not r.transactional
      then (t, some not_transactional)
      else record_seen p t (visit p r t.state)

  unfoldable pub scan_records : ℕ → List Record → Scan S → Scan S × Option (ScanError E)
  scan_records p [] t = (t, none)
  scan_records p (r ∷ rs) t = unless_failed (scan_records p rs) (scan_record p r t)

  -- The function given to EachPartition.
  unfoldable pub scan_fetch : Config → Fetch → Scan S → Scan S × Option (ScanError E)
  scan_fetch c f t = elim f.partition [
    | negsuc n ↦ (t, some unexpected_partition)
    | pos p ↦
        if leb c.partitions p
        then (t, some unexpected_partition)
        else if not (f.log_start ≤b pos 0)
        then (t, some prefix_expired)
        else scan_records p f.records t
  ]

  -- `EachPartition`
  unfoldable pub scan_fetches : Config → List Fetch → Scan S → Scan S × Option (ScanError E)
  scan_fetches c [] t = (t, none)
  scan_fetches c (f ∷ fs) t = unless_failed (scan_fetches c fs) (scan_fetch c f t)

  -- The body of the loop.
  unfoldable pub scan_poll : Config → Poll → Scan S → Scan S × Option (ScanError E)
  scan_poll c p t = elim p.cancelled [
    | some e ↦ (t, some (context_done e))
    | none ↦ elim p.errors [ e ∷ es ↦ (t, some (fetch e)) | [] ↦ scan_fetches c p.fetches t ]
  ]

  unfoldable pub scan_loop : Config → List Poll → Scan S → Scanned S E
  scan_loop c [] t = if t.remaining == 0 then finished t.state else waiting t
  scan_loop c (p ∷ ps) t =
      if t.remaining == 0 then finished t.state else poll_again (scan_loop c ps) (scan_poll c p t)

  -- `scan`; the first argument is the error of NewClient.
  unfoldable pub scan : Option ℕ → Config → List Poll → S → Scanned S E
  scan (some e) c polls s = failed s (no_client e)
  scan none c polls s =
      scan_loop c polls
        (record { done = replicate c.partitions false; remaining = c.partitions; state = s })

pub data FirstError : Type 0 where
  first_codec : RecordError → FirstError
  no_first_boot : FirstError

-- The visitor of `verifyFirstRecords`.
unfoldable pub first_seen : Config → ℕ → Record → Unit {0} → Unit {0} × Seen FirstError
first_seen c p r s = elim (decode_record c r.value) [
  | refused e ↦ (s, fails (first_codec e))
  | decoded kind v ↦
      if not (kind == record_boot) || not (length r.key == 0)
      then (s, fails no_first_boot)
      else (s, ends)
]

-- `verifyFirstRecords`
unfoldable pub verify_first_records : Option ℕ → Config → List Poll → Scanned (Unit {0}) FirstError
verify_first_records client c polls = scan (first_seen c) client c polls tt
