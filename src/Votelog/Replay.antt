-- ===== src/Votelog/Replay.antt =====
-- internal/votelog/audit.go: `replay` and `Replay`. A nil visitor is here a visitor that does nothing.
pub mod Votes
pub mod Moves
pub mod Sealed
use gigaquizz.Common.{
  ℕ, zero, suc, ◌+◌, ◌-◌, ◌%◌, ◌^◌, Bool, true, false, not, ◌&&◌, ◌||◌, List, [], ◌∷◌, ◌++◌, Option,
  none, some, bit_and, ltb, leb, ◌==◌, if◌then◌else◌, length, get_or, set, replicate,
}
use gigaquizz.Common.Bytes.{Bytes, bytes_eq}
use gigaquizz.Common.Int.{ℤ, pos, negsuc, ◌≤b◌}
use gigaquizz.Common.Assoc.{Assoc, lookup, put}
use gigaquizz.Votelog.{
  Config, Vote, Position, ConfigError, validate, record_vote, record_boot, record_closed,
  RecordError, Decoded, decoded, refused, decode_record, partition,
}
use gigaquizz.Votelog.Frame.{FrameError, frame_version, decode_frame}
use gigaquizz.Votelog.Scan.{
  Record, Poll, Seen, goes, ends, fails, ScanError, Scanned, finished, failed, waiting, scan,
}

-- An error of the visitor that `replay` gives to `decodeFrame`.
pub data EntryError (E : Type 0) : Type 0 where
  misrouted : EntryError E
  refused_entry : E → EntryError E

pub data ReplayError (E : Type 0) : Type 0 where
  frame_outside frame_at_barrier missing_boot invalid_boot after_closed misrouted_vote
        repeated_closed :
      ReplayError E
  barrier_skipped not_boot : ReplayError E
  codec : RecordError → ReplayError E
  frame : FrameError (EntryError E) → ReplayError E
  refused_vote : E → ReplayError E

-- The variables of `replay`, and the visitor's state.
pub record Replayed (S : Type 0) : Type 0 where
  pub closed : List ℤ
  pub seen_boot : List Bool
  pub state : S

-- `closed[p] >= 0`
unfoldable pub is_closed : ℤ → Bool
is_closed (pos n) = true
is_closed (negsuc n) = false

-- The error of a step of a record, and otherwise the comparison of its offset with the barrier.
unfoldable pub at_barrier :
    {S E : Type 0}
    → Option (List ℕ)
    → ℕ
    → ℕ
    → ℕ
    → Replayed S × Option (ReplayError E)
    → Replayed S × Seen (ReplayError E)
at_barrier barriers p offset kind (t, some e) = (t, fails e)
at_barrier none p offset kind (t, none) = (t, if kind == record_closed then ends else goes)
at_barrier (some bs) p offset kind (t, none) =
    if ltb (get_or bs p 0) offset
    then (t, fails barrier_skipped)
    else if offset == get_or bs p 0
    then (if not (kind == record_boot) then (t, fails not_boot) else (t, ends))
    else (t, goes)

-- `barriers != nil && r.Offset >= barriers[p]`
unfoldable pub reaches : Option (List ℕ) → ℕ → ℕ → Bool
reaches none p offset = false
reaches (some bs) p offset = leb (get_or bs p 0) offset

module _ {S E : Type 0} where
  unfoldable pub entry_result : S × Option E → S × Option (EntryError E)
  entry_result (s, none) = (s, none)
  entry_result (s, some e) = (s, some (refused_entry e))

  unfoldable pub frame_result :
      Replayed S → S × Option (FrameError (EntryError E)) → Replayed S × Seen (ReplayError E)
  frame_result t (s, none) = (record t { state = s }, goes)
  frame_result t (s, some e) = (record t { state = s }, fails (frame e))

  unfoldable pub vote_result : Replayed S → S × Option E → Replayed S × Option (ReplayError E)
  vote_result t (s, none) = (record t { state = s }, none)
  vote_result t (s, some e) = (record t { state = s }, some (refused_vote e))

-- The first test of a frame, and that of a single record of kind `kind`.
unfoldable pub outside : {S : Type 0} → ℕ → Record → Replayed S → Bool
outside p r t =
    not (get_or t.seen_boot p false)
    || is_closed (get_or t.closed p (negsuc 0))
    || not (length r.key == 0)

unfoldable pub lacks_boot : {S : Type 0} → ℕ → ℕ → Replayed S → Bool
lacks_boot p kind t = not (get_or t.seen_boot p false) && not (kind == record_boot)

-- `len(r.Value) > 0 && r.Value[0] == frameVersion`
unfoldable pub is_frame : Bytes → Bool
is_frame b = ltb 0 (length b) && get_or b 0 0 == frame_version

module _ (sha256 : Bytes → Bytes) (c : Config) {S E : Type 0}
    (visit : Position → Vote → S → S × Option E) where
  -- The visitor that `replay` gives to `decodeFrame`.
  unfoldable pub visit_entry : ℕ → ℕ → ℕ → Vote → S → S × Option (EntryError E)
  visit_entry p offset index v s =
      if not (partition sha256 c v.token == p)
      then (s, some misrouted)
      else entry_result (visit (record { partition = p; offset = offset; index = index }) v s)

  -- The branch of a frame.
  unfoldable pub replay_frame :
      Option (List ℕ) → ℕ → Record → Replayed S → Replayed S × Seen (ReplayError E)
  replay_frame barriers p r t =
      if outside p r t
      then (t, fails frame_outside)
      else if reaches barriers p r.offset
      then (t, fails frame_at_barrier)
      else frame_result t (decode_frame (visit_entry p r.offset) c r.value t.state)

  -- The `switch` over the record's kind.
  unfoldable pub replay_kind :
      ℕ → Record → ℕ → Vote → Replayed S → Replayed S × Option (ReplayError E)
  replay_kind p r kind v t =
      if kind == record_boot
      then (if not (length r.key == 0)
          then (t, some invalid_boot)
          else (record t { seen_boot = set t.seen_boot p true }, none))
      else if kind == record_vote
      then (if is_closed (get_or t.closed p (negsuc 0))
          then (t, some after_closed)
          else if not (partition sha256 c v.token == p) || not (bytes_eq r.key v.token)
          then (t, some misrouted_vote)
          else vote_result t
              (visit (record { partition = p; offset = r.offset; index = 0 }) v t.state))
      else if kind == record_closed
      then (if not (length r.key == 0) || is_closed (get_or t.closed p (negsuc 0))
          then (t, some repeated_closed)
          else (record t { closed = set t.closed p (pos r.offset) }, none))
      else (t, none)

  -- The branch of a single record, decoded.
  unfoldable pub replay_record :
      Option (List ℕ) → ℕ → Record → Decoded → Replayed S → Replayed S × Seen (ReplayError E)
  replay_record barriers p r (refused e) t = (t, fails (codec e))
  replay_record barriers p r (decoded kind v) t =
      if lacks_boot p kind t
      then (t, fails missing_boot)
      else at_barrier barriers p r.offset kind (replay_kind p r kind v t)

  -- The visitor that `replay` gives to `scan`.
  unfoldable pub replay_visit :
      Option (List ℕ) → ℕ → Record → Replayed S → Replayed S × Seen (ReplayError E)
  replay_visit barriers p r t =
      if is_frame r.value
      then replay_frame barriers p r t
      else replay_record barriers p r (decode_record c r.value) t

  -- `replay`
  unfoldable pub replay :
      Option (List ℕ) → Option ℕ → List Poll → S → Scanned (Replayed S) (ReplayError E)
  replay barriers client polls s = scan (replay_visit barriers) client c polls (record {
    closed = replicate c.partitions (negsuc 0);
    seen_boot = replicate c.partitions false;
    state = s;
  })

pub record PartitionEnd : Type 0 where
  pub partition : ℕ
  pub offset : ℤ

pub record Manifest : Type 0 where
  pub topic : Bytes
  pub partitions : List PartitionEnd
  pub starts_at : ℕ
  pub ends_at : ℕ

-- The loop over `closed`, from partition `p` on.
unfoldable pub ends_of : ℕ → List ℤ → List PartitionEnd
ends_of p [] = []
ends_of p (z ∷ zs) = record { partition = p; offset = z } ∷ ends_of (p + 1) zs

unfoldable pub manifest_of : Config → List ℤ → Manifest
manifest_of c closed = record {
  topic = c.topic;
  partitions = ends_of 0 closed;
  starts_at = c.starts_at;
  ends_at = c.ends_at;
}

-- `Replay` and `Audit` behind `replay`; `pending` as `waiting` above.
pub data Outcome (A E : Type 0) : Type 0 where
  result : A → Outcome A E
  config : ConfigError → Outcome A E
  incomplete : ScanError (ReplayError E) → Outcome A E
  pending : Outcome A E

unfoldable pub outcome_of :
    {S A E : Type 0} → (Replayed S → A) → Scanned (Replayed S) (ReplayError E) → Outcome A E
outcome_of f (finished t) = result (f t)
outcome_of f (failed t e) = incomplete e
outcome_of f (waiting t) = pending

abbrev pub ended_with : {S : Type 0} → Config → Replayed S → Manifest × S
ended_with c t = (manifest_of c t.closed, t.state)

-- `if err := c.validate(); err != nil`
unfoldable pub when_valid : {A E : Type 0} → Option ConfigError → Outcome A E → Outcome A E
when_valid (some e) o = config e
when_valid none o = o

-- `Replay`, with what the visitor has made of its state.
unfoldable pub replay_all :
    (Bytes → Bool)
    → (Bytes → Bytes)
    → {S E : Type 0} → (Position → Vote → S → S × Option E)
    → Config
    → Option ℕ
    → List Poll
    → S
    → Outcome (Manifest × S) E
replay_all loopback sha256 visit c client polls s =
    when_valid (validate loopback c)
      (outcome_of (ended_with c) (replay sha256 c visit none client polls s))
