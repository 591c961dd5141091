-- ===== src/Filelog/Scan/Sound.antt =====
-- Scan of arbitrary bytes: what the visitor is given, how the bytes are accounted for, and that the
-- loop always ends by itself.
use gigaquizz.Common.{
  ℕ, zero, suc, ◌+◌, ◌*◌, ◌≤◌, ◌<◌, ◌≡◌, ◌≢◌, refl, Bool, true, false, Option, none, some, ltb,
  ◌==◌, if◌then◌else◌, length, length-take, length-drop, take, drop, option_cases, lt→ltb, arith,
}
use gigaquizz.Common.Bytes.{Bytes}
use gigaquizz.Filelog.Types.{Config, Vote, Position, ScanResult}
use gigaquizz.Filelog.Codec.{decode_entry, valid_vote, valid_entries}
use gigaquizz.Filelog.Codec.Checks.{valid_entries-suc, validate_payload-none}
use gigaquizz.Filelog.Scan.Branches.{
  count_frame_cases, apply_frame_cases, read_payload_cases, scan_round_cases, scan_cases,
}
use gigaquizz.Filelog.Scan.{
  ScanError, out_of_fuel, Round, finished, again, visit_entries, count_frame, apply_frame,
  read_payload, scan_round, scan_loop, scan, no_result,
}

-- The bytes of the valid frames, and of the header before them, are the file, but for a tail that the
-- result reports.
abbrev pub accounted : ScanResult → ℕ → Bool
accounted r total = if r.incomplete_tail then ltb r.valid_bytes total else r.valid_bytes == total

module _ {S E : Type 0} (P : S → Type 0) where
  -- What a round promises when `size` bytes were before it, of a file of `total` bytes.
  unfoldable pub Kept : ℕ → ℕ → Round S E → Type 0
  Kept total size (finished r s e) =
      P s × (e ≢ some out_of_fuel) × ((e ≡ none) → accounted r total ≡ true)
  Kept total size (again r s rest) =
      P s
      × (length rest < size)
      × (r.valid_bytes + length rest ≡ total)
      × (r.incomplete_tail ≡ false)

module _ {S E : Type 0} (visit : Position → Vote → S → S × Option E) (c : Config) (P : S → Type 0)
    (kept : (p : Position) (v : Vote) (s : S)
      → valid_vote c v ≡ true
      → P s
      → P ((visit p v s).0)) where
  visit_entries-kept :
      (sequence index n : ℕ) (body : Bytes) (s : S)
      → valid_entries c n body ≡ true
      → P s
      → P ((visit_entries visit sequence index n body s).0)
  unfolding visit_entries
  visit_entries-kept sequence index zero body s ok p = p
  visit_entries-kept sequence index (suc n) body s ok p =
      let (now, later) = valid_entries-suc c n body ok in
      let position : Position = record { partition = 0; offset = sequence; index = index } in
      let p' = kept position (decode_entry body) s now p in
      option_cases (λ (o : S × Option E). P (o.0)) ((visit position (decode_entry body) s).1) _ _
        (λ _. visit_entries-kept sequence (index + 1) n (drop 28 body) _ later p') (λ _ _. p')

  module _ (total size : ℕ) where
    count_frame-Kept :
        (sequence payload : ℕ) (rest : Bytes) (r : ScanResult) (s : S)
        → P s
        → length rest < size
        → r.valid_bytes + (40 + payload) + length rest ≡ total
        → r.incomplete_tail ≡ false
        → Kept {E = E} P total size (count_frame visit sequence r s payload rest)
    unfolding Kept
    count_frame-Kept sequence payload rest r s p less sum whole =
        count_frame_cases visit (Kept P total size) sequence r s payload rest
          (p, ground arith, ground arith) (p, less, sum, whole)

    apply_frame-Kept :
        (sequence kind count : ℕ) (body rest : Bytes) (r : ScanResult) (s : S)
        → P s
        → valid_entries c count body ≡ true
        → length rest < size
        → r.valid_bytes + (40 + count * 28) + length rest ≡ total
        → r.incomplete_tail ≡ false
        → Kept {E = E} P total size (apply_frame visit sequence kind count body rest r s)
    unfolding Kept
    apply_frame-Kept sequence kind count body rest r s p ok less sum whole =
        let p' = visit_entries-kept sequence 0 count body s ok p in
        apply_frame_cases visit (Kept P total size) sequence kind count body rest r s
          (λ _. count_frame-Kept sequence (count * 28) rest _ s p less sum whole)
          (λ _. count_frame-Kept sequence (count * 28) rest _ _ p' less sum whole)
          (λ x. (p', ground arith, ground arith))

    read_payload-Kept :
        (sequence kind count : ℕ) (head rest : Bytes) (r : ScanResult) (s : S)
        → P s
        → length rest + 40 ≤ size
        → r.valid_bytes + 40 + length rest ≡ total
        → r.incomplete_tail ≡ false
        → Kept {E = E} P total size (read_payload visit c sequence head kind count rest r s)
    unfolding Kept
    read_payload-Kept sequence kind count head rest r s p less sum whole =
        read_payload_cases visit (Kept P total size) c sequence kind count head rest r s
          (λ short. (p, ground arith, λ _. lt→ltb r.valid_bytes total (omega arith)))
          (λ e. (p, ground arith, ground arith))
          (λ long good.
            apply_frame-Kept sequence kind count (take (count * 28) rest) (drop (count * 28) rest) r
              s p
              (validate_payload-none c head (take (count * 28) rest) count
                (length-take (count * 28) rest long) good)
              (omega (arith, length-drop (count * 28) rest))
              (omega (arith, length-drop (count * 28) rest)) whole)

    ending :
        (r : ScanResult)
        → r.valid_bytes ≡ total
        → r.incomplete_tail ≡ false
        → accounted r total ≡ true
    ending r sum whole = ground arith

    scan_round-Kept :
        (cancelled : ℕ → Bool) (sequence : ℕ) (rest : Bytes) (r : ScanResult) (s : S)
        → P s
        → length rest ≡ size
        → r.valid_bytes + length rest ≡ total
        → r.incomplete_tail ≡ false
        → Kept {E = E} P total size (scan_round visit cancelled c sequence rest r s)
    unfolding Kept
    scan_round-Kept cancelled sequence rest r s p same sum whole =
        scan_round_cases visit (Kept P total size) cancelled c sequence rest r s
          (p, ground arith, ground arith)
          (λ end. (p, ground arith, λ _. ending r (omega arith) whole))
          (p, ground arith, ground arith)
          (λ some_bytes short. (p, ground arith, λ _. lt→ltb r.valid_bytes total (omega arith)))
          (λ e. (p, ground arith, ground arith))
          (λ kind count long open_ header.
            read_payload-Kept sequence kind count (take 40 rest) (drop 40 rest) r s p
              (omega (arith, length-drop 40 rest)) (omega (arith, length-drop 40 rest)) whole)

  unfoldable pub Ended : ℕ → ScanResult × S × Option (ScanError E) → Type 0
  unfolding Kept
  Ended total out = Kept P total 0 (finished (out.0) (out.1) (out.2))

  -- What is left of the loop behind a round.
  after_round :
      (total size : ℕ) (next : ScanResult → S → Bytes → ScanResult × S × Option (ScanError E))
      (o : Round S E)
      → ((r : ScanResult) (s : S) (rest : Bytes)
          → P s
          → length rest < size
          → r.valid_bytes + length rest ≡ total
          → r.incomplete_tail ≡ false
          → Ended total (next r s rest))
      → Kept P total size o
      → Ended total (elim o [ finished r s e ↦ (r, s, e) | again r s rest ↦ next r s rest ])
  unfolding Kept Ended
  after_round total size next (finished r s e) h k = k
  after_round total size next (again r s rest) h k =
      let (p, less, sum, whole) = k in h r s rest p less sum whole

  -- The outcome of the loop, with fuel for one round more than there are bytes.
  scan_loop-Ended :
      (cancelled : ℕ → Bool) (total fuel sequence : ℕ) (rest : Bytes) (r : ScanResult) (s : S)
      → length rest < fuel
      → P s
      → r.valid_bytes + length rest ≡ total
      → r.incomplete_tail ≡ false
      → Ended total (scan_loop visit cancelled c fuel sequence rest r s)
  unfolding scan_loop
  scan_loop-Ended cancelled total zero sequence rest r s few p sum whole = absurd (omega arith)
  scan_loop-Ended cancelled total (suc fuel) sequence rest r s few p sum whole =
      after_round total (length rest) _ (scan_round visit cancelled c sequence rest r s)
        (λ r' s' rest' p' less sum' whole'.
          scan_loop-Ended cancelled total fuel (sequence + 1) rest' r' s' (omega arith) p' sum'
            whole')
        (scan_round-Kept total (length rest) cancelled sequence rest r s p refl sum whole)

  pub scan-Ended :
      (cancelled : ℕ → Bool) (marshal : Config → Bytes) (wal poll : Bytes) (s : S)
      → P s
      → Ended (length wal) (scan visit cancelled c marshal wal poll s)
  unfolding Ended Kept
  scan-Ended cancelled marshal wal poll s p =
      scan_cases visit (Ended (length wal)) cancelled c marshal wal poll s
        (p, ground arith, ground arith) (p, ground arith, ground arith)
        (p, ground arith, ground arith) (p, ground arith, ground arith)
        (p, ground arith, ground arith)
        (λ long.
          scan_loop-Ended cancelled (length wal) (length wal + 1) 0 (drop 80 wal)
            (record no_result { valid_bytes = 80 }) s (omega (arith, length-drop 80 wal)) p
            (omega (arith, length-drop 80 wal)) refl)
