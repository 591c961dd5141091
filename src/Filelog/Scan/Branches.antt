-- ===== src/Filelog/Scan/Branches.antt =====
-- The branches of a round of Scan: what holds of every outcome, from each branch under its tests.
use gigaquizz.Common.{
  ℕ, ◌+◌, ◌*◌, ◌≤◌, ◌<◌, ◌≡◌, ◌≢◌, refl, Bool, true, false, [], ◌∷◌, ◌++◌, not, Option, none, some,
  ltb, ltb→lt, ltb-false, ==_sound, ==_no, if_cases, option_cases, length, take, drop, arith,
}
use gigaquizz.Common.Bytes.{Bytes, bytes_eq}
use gigaquizz.Filelog.Types.{Config, Vote, Position, ScanResult, valid}
use gigaquizz.Filelog.Codec.{
  CodecError, Header, parsed, refused, check_frame_header, validate_payload, file_header,
}
use gigaquizz.Filelog.Scan.{
  ScanError, codec, visitor, context_done, bytes_after_closed, sequence_exhausted, Round, finished,
  again, visit_entries, count_frame, apply_frame, read_payload, scan_round, scan_loop, scan,
  no_result, invalid_config, poll_mismatch, short_header, header_mismatch,
}

module _ {S E : Type 0} (visit : Position → Vote → S → S × Option E) (Q : Round S E → Type 0) where
  pub count_frame_cases :
      (sequence : ℕ) (r : ScanResult) (s : S) (size : ℕ) (rest : Bytes)
      → Q (
          finished
            (record r { frames = r.frames + 1; valid_bytes = r.valid_bytes + (40 + size) })
            s
            (some sequence_exhausted))
      → Q (
          again
            (record r { frames = r.frames + 1; valid_bytes = r.valid_bytes + (40 + size) })
            s
            rest)
      → Q (count_frame visit sequence r s size rest)
  unfolding count_frame
  count_frame_cases sequence r s size rest last more = if_cases Q _ _ _ (λ _. last) (λ _. more)

  pub apply_frame_cases :
      (sequence kind count : ℕ) (body rest : Bytes) (r : ScanResult) (s : S)
      → (kind ≡ 2
          → Q (
              count_frame visit sequence
                (record r {
                  closed = true;
                  manifest = record { partition = 0; offset = sequence } ∷ [];
                })
                s
                (count * 28)
                rest))
      → ((visit_entries visit sequence 0 count body s).1 ≡ none
          → Q (
              count_frame visit sequence
                (record r { votes = r.votes + count })
                ((visit_entries visit sequence 0 count body s).0)
                (count * 28)
                rest))
      → ((x : E)
          → Q (finished r ((visit_entries visit sequence 0 count body s).0) (some (visitor x))))
      → Q (apply_frame visit sequence kind count body rest r s)
  unfolding apply_frame
  apply_frame_cases sequence kind count body rest r s closed votes failed =
      if_cases Q _ _ _ (λ e. closed (==_sound kind 2 e))
        (λ _. option_cases Q _ _ _ votes (λ x _. failed x))

  pub read_payload_cases :
      (c : Config) (sequence kind count : ℕ) (head rest : Bytes) (r : ScanResult) (s : S)
      → (length rest < count * 28 → Q (finished (record r { incomplete_tail = true }) s none))
      → ((e : CodecError) → Q (finished r s (some (codec e))))
      → (count * 28 ≤ length rest
          → validate_payload c head (take (count * 28) rest) ≡ none
          → Q (
              apply_frame visit sequence kind count
                (take (count * 28) rest)
                (drop (count * 28) rest)
                r
                s))
      → Q (read_payload visit c sequence head kind count rest r s)
  unfolding read_payload
  read_payload_cases c sequence kind count head rest r s short wrong good =
      if_cases Q _ _ _ (λ e. short (ltb→lt (length rest) (count * 28) e))
        (λ e. option_cases Q _ _ _ (good (ltb-false (length rest) (count * 28) e)) (λ x _. wrong x))

  pub scan_round_cases :
      (cancelled : ℕ → Bool) (c : Config) (sequence : ℕ) (rest : Bytes) (r : ScanResult) (s : S)
      → Q (finished r s (some context_done))
      → (length rest ≡ 0 → Q (finished r s none))
      → Q (finished r s (some bytes_after_closed))
      → (1 ≤ length rest
          → length rest < 40
          → Q (finished (record r { incomplete_tail = true }) s none))
      → ((e : CodecError) → Q (finished r s (some (codec e))))
      → ((kind count : ℕ)
          → 40 ≤ length rest
          → r.closed ≡ false
          → check_frame_header (take 40 rest) sequence ≡ parsed kind count
          → Q (read_payload visit c sequence (take 40 rest) kind count (drop 40 rest) r s))
      → Q (scan_round visit cancelled c sequence rest r s)
  unfolding scan_round
  scan_round_cases cancelled c sequence rest r s done end behind short wrong good =
      if_cases Q _ _ _ (λ _. done)
        (λ _.
          if_cases Q _ _ _ (λ e. end (==_sound (length rest) 0 e))
            (λ ne.
              if_cases Q _ _ _ (λ _. behind)
                (λ open_.
                  if_cases Q _ _ _
                    (λ e.
                      short (nonzero (length rest) (==_no (length rest) 0 ne))
                        (ltb→lt (length rest) 40 e))
                    (λ e.
                      header (check_frame_header (take 40 rest) sequence) refl
                        (ltb-false (length rest) 40 e) open_))))
    where
      nonzero : (n : ℕ) → n ≢ 0 → 1 ≤ n
      nonzero n h = ground arith

      header :
          (h : Header)
          → check_frame_header (take 40 rest) sequence ≡ h
          → 40 ≤ length rest
          → r.closed ≡ false
          → Q (elim h [
            | refused e ↦ finished r s (some (codec e))
            | parsed kind count ↦
                read_payload visit c sequence (take 40 rest) kind count (drop 40 rest) r s
          ])
      header (refused e) eq long open_ = wrong e
      header (parsed kind count) eq long open_ = good kind count long open_ eq

module _ {S E : Type 0} (visit : Position → Vote → S → S × Option E)
    (Q : ScanResult × S × Option (ScanError E) → Type 0) where
  pub scan_cases :
      (cancelled : ℕ → Bool) (c : Config) (marshal : Config → Bytes) (wal poll : Bytes) (s : S)
      → Q (no_result, s, some invalid_config)
      → Q (no_result, s, some context_done)
      → Q (no_result, s, some poll_mismatch)
      → Q (no_result, s, some short_header)
      → Q (no_result, s, some header_mismatch)
      → (80 ≤ length wal
          → Q (
              scan_loop visit cancelled c
                (length wal + 1)
                0
                (drop 80 wal)
                (record no_result { valid_bytes = 80 })
                s))
      → Q (scan visit cancelled c marshal wal poll s)
  unfolding scan
  scan_cases cancelled c marshal wal poll s invalid done poll_wrong short wrong loop =
      if_cases Q (not (valid c)) _ _ (λ _. invalid)
        (λ _.
          if_cases Q (cancelled 0) _ _ (λ _. done)
            (λ _.
              if_cases Q (not (bytes_eq (take 4097 poll) (marshal c ++ b'\n' ∷ []))) _ _
                (λ _. poll_wrong)
                (λ _.
                  if_cases Q (ltb (length wal) 80) _ _ (λ _. short)
                    (λ long.
                      if_cases Q (not (bytes_eq (take 80 wal) (file_header c))) _ _ (λ _. wrong)
                        (λ _. loop (ltb-false (length wal) 80 long))))))
