-- ===== src/Filelog/Scan.antt =====
-- internal/filelog/scan.go: reading a quiescent journal. The files are given as the bytes that the
-- calls of package os would return: opening, locking and reading do not fail here. `cancelled n` is
-- whether the context is done at its n-th check; `marshal` is the JSON text of the poll's metadata.
pub mod Journal
pub mod Cuts
pub mod Whole
mod Tests
mod Branches
mod Sound
pub mod Outcome
use gigaquizz.Common.{
  ℕ, zero, suc, ◌+◌, ◌-◌, ◌*◌, ◌^◌, Bool, true, false, not, ◌&&◌, ◌||◌, List, [], ◌∷◌, ◌++◌, Option,
  none, some, ltb, ◌==◌, if◌then◌else◌, length, take, drop,
}
use gigaquizz.Common.Bytes.{Bytes, bytes_eq, slice}
use gigaquizz.Filelog.Types.{Config, Vote, Position, PartitionEnd, Manifest, ScanResult, valid}
use gigaquizz.Filelog.Codec.{
  CodecError, Header, parsed, refused, check_frame_header, validate_payload, decode_entry,
  entry_bytes, frame_header_bytes, file_header_bytes, kind_closed, file_header,
}

-- `visitor` is an error that the visitor returns. `out_of_fuel` is no error of the program.
pub data ScanError (E : Type 0) : Type 0 where
  invalid_config context_done poll_mismatch short_header header_mismatch : ScanError E
  bytes_after_closed sequence_exhausted no_barrier out_of_fuel : ScanError E
  codec : CodecError → ScanError E
  visitor : E → ScanError E

-- One round of the loop ends the scan, or goes on with the bytes behind the frame.
pub data Round (S E : Type 0) : Type 0 where
  finished : ScanResult → S → Option (ScanError E) → Round S E
  again : ScanResult → S → Bytes → Round S E

abbrev pub no_result : ScanResult
no_result = record {
  manifest = [];
  closed = false;
  incomplete_tail = false;
  frames = 0;
  votes = 0;
  valid_bytes = 0;
}

module _ {S E : Type 0} (visit : Position → Vote → S → S × Option E) where
  -- The loop over the entries; `body` begins at entry `index`.
  pub visit_entries : ℕ → ℕ → ℕ → Bytes → S → S × Option E
  visit_entries sequence index zero body s = (s, none)
  visit_entries sequence index (suc n) body s =
      let position : Position = record { partition = 0; offset = sequence; index = index } in
      let (s', e) = visit position (decode_entry body) s in
      elim e [
        | none ↦ visit_entries sequence (index + 1) n (drop entry_bytes body) s'
        | some x ↦ (s', some x)
      ]

  -- The end of the loop's body.
  pub count_frame : ℕ → ScanResult → S → ℕ → Bytes → Round S E
  count_frame sequence r s size rest =
      let r' : ScanResult = record r {
        frames = r.frames + 1;
        valid_bytes = r.valid_bytes + (frame_header_bytes + size);
      } in
      if sequence == 2 ^ 63 - 1 then finished r' s (some sequence_exhausted) else again r' s rest

  -- A frame whose payload is valid.
  pub apply_frame : ℕ → ℕ → ℕ → Bytes → Bytes → ScanResult → S → Round S E
  apply_frame sequence kind count body rest r s =
      if kind == kind_closed
      then count_frame sequence
          (record r { closed = true; manifest = record { partition = 0; offset = sequence } ∷ [] })
          s (count * entry_bytes) rest
      else let (s', e) = visit_entries sequence 0 count body s in
        elim e [
          | none ↦
              count_frame sequence (record r { votes = r.votes + count }) s' (count * entry_bytes)
                rest
          | some x ↦ finished r s' (some (visitor x))
        ]

  -- A frame whose header is valid: reading its payload.
  pub read_payload : Config → ℕ → Bytes → ℕ → ℕ → Bytes → ScanResult → S → Round S E
  read_payload c sequence header kind count rest r s =
      let size = count * entry_bytes in
      if ltb (length rest) size
      then finished (record r { incomplete_tail = true }) s none
      else elim (validate_payload c header (take size rest)) [
        | some e ↦ finished r s (some (codec e))
        | none ↦ apply_frame sequence kind count (take size rest) (drop size rest) r s
      ]

  module _ (cancelled : ℕ → Bool) (c : Config) where
    -- The loop's body at frame `sequence`; `rest` is what has not been read.
    pub scan_round : ℕ → Bytes → ScanResult → S → Round S E
    scan_round sequence rest r s =
        if cancelled (sequence + 1)
        then finished r s (some context_done)
        else if length rest == 0
        then finished r s none
        else if r.closed
        then finished r s (some bytes_after_closed)
        else if ltb (length rest) frame_header_bytes
        then finished (record r { incomplete_tail = true }) s none
        else elim (check_frame_header (take frame_header_bytes rest) sequence) [
          | refused e ↦ finished r s (some (codec e))
          | parsed kind count ↦
              read_payload c sequence (take frame_header_bytes rest) kind count
                (drop frame_header_bytes rest) r s
        ]

    pub scan_loop : ℕ → ℕ → Bytes → ScanResult → S → ScanResult × S × Option (ScanError E)
    scan_loop zero sequence rest r s = (r, s, some out_of_fuel)
    scan_loop (suc fuel) sequence rest r s = elim (scan_round sequence rest r s) [
      | finished r' s' e ↦ (r', s', e)
      | again r' s' rest' ↦ scan_loop fuel (sequence + 1) rest' r' s'
    ]

    module _ (marshal : Config → Bytes) where
      -- `Scan` of the files `wal` and `metadata`. Every frame takes 40 bytes at least, so one round
      -- for each byte, and one more, are enough.
      pub scan : Bytes → Bytes → S → ScanResult × S × Option (ScanError E)
      scan wal metadata s =
          if not (valid c)
          then (no_result, s, some invalid_config)
          else if cancelled 0
          then (no_result, s, some context_done)
          else if not (bytes_eq (take 4097 metadata) (marshal c ++ b'\n' ∷ []))
          then (no_result, s, some poll_mismatch)
          else if ltb (length wal) file_header_bytes
          then (no_result, s, some short_header)
          else if not (bytes_eq (take file_header_bytes wal) (file_header c))
          then (no_result, s, some header_mismatch)
          else scan_loop (length wal + 1) 0 (drop file_header_bytes wal)
              (record no_result { valid_bytes = file_header_bytes }) s

      -- `Replay`: the manifest of a closed journal with nothing behind, or an error.
      pub replay : Bytes → Bytes → S → S × Option (ScanError E) × Manifest
      replay wal metadata s =
          let (r, s', e) = scan wal metadata s in
          elim e [
            | some x ↦ (s', some x, [])
            | none ↦
                if not r.closed || r.incomplete_tail
                then (s', some no_barrier, [])
                else (s', none, r.manifest)
          ]
