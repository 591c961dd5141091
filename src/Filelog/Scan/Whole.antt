-- ===== src/Filelog/Scan/Whole.antt =====
-- Scan and Replay of a whole file: its header, the frames of votes and the barrier of `Seal`.
use gigaquizz.Common.{
  ℕ, zero, suc, ◌+◌, ◌-◌, ◌^◌, ◌≤◌, ◌<◌, ◌≡◌, refl, sym, ap, ap₂, ◌∙◌, Bool, true, false, List, [],
  ◌∷◌, ◌++◌, Option, none, some, length, length-append, length-take, take, take-full, ltb,
  le→ltb-false, All, arith,
}
use gigaquizz.Common.Bytes.{Bytes, bytes_eq_refl, take-exact, drop-exact}
use mathlib.Core.List.{append_assoc, append-nil}
use gigaquizz.Filelog.Types.{Config, Vote, Position, ScanResult, valid}
use gigaquizz.Filelog.Codec.{file_header}
use gigaquizz.Filelog.Codec.Opening.{length-file_header}
use gigaquizz.Filelog.Codec.Frames.{closed_frame, closed_frame_checks}
use gigaquizz.Filelog.Scan.{no_barrier, finished, no_result, scan_round, scan_loop, scan, replay}
use gigaquizz.Filelog.Scan.Journal.{
  Batch, IsBatch, frame_bytes, scan_round-frame, journal_bytes, sizes_of, advance, pure_visit,
  visit_journal, length-journal_bytes, scan_round-closed,
}
use gigaquizz.Filelog.Scan.Cuts.{
  survivors, torn, scan_loop-cut, scan_loop-finished, scan_loop-again,
}

-- What the scan of a readable file counts before its first frame.
abbrev pub after_header : ScanResult
after_header = record no_result { valid_bytes = 80 }

module _ {S E : Type 0} (visit : Position → Vote → S → S × Option E) (cancelled : ℕ → Bool)
    (c : Config) where
  -- A round on no bytes ends the scan.
  pub scan_round-end :
      (sequence : ℕ) (r : ScanResult) (s : S)
      → cancelled (sequence + 1) ≡ false
      → scan_round visit cancelled c sequence [] r s ≡ finished r s none
  unfolding scan_round
  scan_round-end sequence r s live = rw live refl

module _ {S E : Type 0} (visit : Position → Vote → S → S × Option E) (cancelled : ℕ → Bool)
    (c : Config) (marshal : Config → Bytes) where
  -- The scan up to its loop.
  scan-file_header :
      (rest : Bytes) (s : S)
      → valid c ≡ true
      → length c.poll_id ≡ 16
      → length (marshal c) ≤ 4096
      → cancelled 0 ≡ false
      → scan visit cancelled c marshal (file_header c ++ rest) (marshal c ++ b'\n' ∷ []) s
        ≡ scan_loop visit cancelled c (length (file_header c ++ rest) + 1) 0 rest after_header s
  unfolding scan
  scan-file_header rest s v id small live =
      let long = length-file_header c id in
      let poll = marshal c ++ b'\n' ∷ [] in
      let polled : take 4097 poll ≡ poll =
        take-full 4097 poll (omega (arith, length-append (marshal c) (b'\n' ∷ []))) in
      let taken = take-exact 80 (file_header c) rest long in
      let dropped = drop-exact 80 (file_header c) rest long in
      let short : ltb (length (file_header c ++ rest)) 80 ≡ false =
        le→ltb-false (length (file_header c ++ rest)) 80
          (omega (arith, long, length-append (file_header c) rest)) in
      rw v (
        rw live (
          rw polled (
            rw (bytes_eq_refl poll)
              (rw short (rw taken (rw (bytes_eq_refl (file_header c)) (rw dropped refl)))))))

  replay-done :
      (wal poll : Bytes) (s s' : S) (r : ScanResult)
      → scan visit cancelled c marshal wal poll s ≡ (r, s', none)
      → r.closed ≡ true
      → r.incomplete_tail ≡ false
      → replay visit cancelled c marshal wal poll s ≡ (s', none, r.manifest)
  unfolding replay
  replay-done wal poll s s' r h shut whole = ground (
    arith,
    ap (λ x. x.0.manifest) h,
    ap (λ x. x.1) h,
    ap (λ x. x.2) h,
    ap (λ x. x.0.closed) h ∙ shut,
    ap (λ x. x.0.incomplete_tail) h ∙ whole,
  )

  replay-open :
      (wal poll : Bytes) (s s' : S) (r : ScanResult)
      → scan visit cancelled c marshal wal poll s ≡ (r, s', none)
      → r.closed ≡ false
      → replay visit cancelled c marshal wal poll s ≡ (s', some no_barrier, [])
  unfolding replay
  replay-open wal poll s s' r h open_ = ground (
    arith,
    ap (λ x. x.0.manifest) h,
    ap (λ x. x.1) h,
    ap (λ x. x.2) h,
    ap (λ x. x.0.closed) h ∙ open_,
  )

length-sizes_of : (bs : List Batch) → length bs ≤ sizes_of bs
length-sizes_of [] = omega arith
length-sizes_of (b ∷ bs) = omega (arith, length-sizes_of bs)

module _ {S E : Type 0} (g : Position → Vote → S → S) (cancelled : ℕ → Bool) (c : Config) where
  -- The loop goes through the frames of a journal, whatever stands behind them.
  scan_loop-journal_bytes :
      (bs : List Batch) (total fuel sequence : ℕ) (tail : Bytes) (r : ScanResult) (s : S)
      → total ≡ length bs + fuel
      → valid c ≡ true
      → All (IsBatch c) bs
      → sequence + length bs < 2 ^ 63 - 1
      → ((k : ℕ) → cancelled k ≡ false)
      → r.closed ≡ false
      → scan_loop
          (pure_visit g {E = E})
          cancelled
          c
          total
          sequence
          (journal_bytes sequence bs ++ tail)
          r
          s
        ≡ scan_loop
            (pure_visit g {E = E})
            cancelled
            c
            fuel
            (sequence + length bs)
            tail
            (advance r bs)
            (visit_journal g sequence bs s)
  unfolding journal_bytes visit_journal
  scan_loop-journal_bytes [] total fuel sequence tail r s e v h word live open_ =
      let same : total ≡ fuel = omega arith in rw same (ground arith)
  scan_loop-journal_bytes (b ∷ bs) zero fuel sequence tail r s e v h word live open_ =
      absurd (omega arith)
  scan_loop-journal_bytes (b ∷ bs) (suc total) fuel sequence tail r s e v h word live open_ =
      let visit = pure_visit g {E = E} in
      let behind = journal_bytes (sequence + 1) bs ++ tail in
      ap (λ bytes. scan_loop visit cancelled c (suc total) sequence bytes r s)
        (append_assoc (frame_bytes b sequence) (journal_bytes (sequence + 1) bs) tail)
      ∙ scan_loop-again visit cancelled c total sequence (frame_bytes b sequence ++ behind) behind r
          _ s _
          (scan_round-frame g cancelled c b sequence behind r s v h.0 (omega arith)
            (live (sequence + 1)) open_)
      ∙ scan_loop-journal_bytes bs total fuel (sequence + 1) tail (advance r (b ∷ [])) _
          (omega arith) v h.1 (omega arith) live open_
      ∙ ap₂
          (λ k r'. scan_loop visit cancelled c fuel k tail r' (visit_journal g sequence (b ∷ bs) s))
          (omega arith) (ground arith)

  scan_loop-closed_frame :
      (fuel sequence : ℕ) (r : ScanResult) (s : S)
      → sequence < 2 ^ 63 - 1
      → ((k : ℕ) → cancelled k ≡ false)
      → r.closed ≡ false
      → scan_loop
          (pure_visit g {E = E})
          cancelled
          c
          (suc (suc fuel))
          sequence
          (closed_frame sequence)
          r
          s
        ≡ (
          record r {
            manifest = record { partition = 0; offset = sequence } ∷ [];
            closed = true;
            frames = r.frames + 1;
            valid_bytes = r.valid_bytes + 40;
          },
          s,
          none,
        )
  scan_loop-closed_frame fuel sequence r s word live open_ =
      let visit = pure_visit g {E = E} in
      ap (λ bytes. scan_loop visit cancelled c (suc (suc fuel)) sequence bytes r s)
        (sym (append-nil (closed_frame sequence)))
      ∙ scan_loop-again visit cancelled c (suc fuel) sequence _ [] r _ s s
          (scan_round-closed g cancelled c sequence [] r s word (live (sequence + 1)) open_)
      ∙ scan_loop-finished visit cancelled c fuel (sequence + 1) [] _ _ s s none
          (scan_round-end visit cancelled c (sequence + 1) _ s (live (sequence + 1 + 1)))

module _ {S E : Type 0} (g : Position → Vote → S → S) (cancelled : ℕ → Bool) (c : Config)
    (marshal : Config → Bytes) where
  -- Scan of a journal cut at any byte behind the file's header reads the votes of exactly the frames
  -- that lie whole before the cut, in their order, and reports no error: a frame that is not all
  -- there is an incomplete tail. The configuration is valid, the frames hold at most 4096 valid votes
  -- of the poll's window each, there are fewer than 2 ^ 63 - 1, and the context is never done.
  pub scan-cut :
      (bs : List Batch) (n : ℕ) (s : S)
      → valid c ≡ true
      → length c.poll_id ≡ 16
      → length (marshal c) ≤ 4096
      → All (IsBatch c) bs
      → length bs < 2 ^ 63 - 1
      → n ≤ sizes_of bs
      → ((k : ℕ) → cancelled k ≡ false)
      → scan
          (pure_visit g {E = E})
          cancelled
          c
          marshal
          (file_header c ++ take n (journal_bytes 0 bs))
          (marshal c ++ b'\n' ∷ [])
          s
        ≡ (
          record (advance after_header (survivors n bs)) { incomplete_tail = torn n bs },
          visit_journal g 0 (survivors n bs) s,
          none,
        )
  scan-cut bs n s v id small h word size live =
      let bytes = take n (journal_bytes 0 bs) in
      let whole = length-journal_bytes c 0 bs v h (omega arith) in
      scan-file_header (pure_visit g {E = E}) cancelled c marshal bytes s v id small (live 0)
      ∙ scan_loop-cut g cancelled c bs (length (file_header c ++ bytes) + 1) 0 n after_header s v h
          (omega arith)
          (omega (
            arith,
            length-append (file_header c) bytes,
            length-take n (journal_bytes 0 bs) (omega arith),
          ))
          size live refl refl

  -- Replay of the file that the writer leaves when Seal succeeds (its header, the frames of votes in
  -- the order of their sequence numbers, and the CLOSED frame) visits every vote once, in order, and
  -- returns the manifest with the number of frames. The conditions are those of `scan-cut`.
  pub replay-sealed :
      (bs : List Batch) (s : S)
      → valid c ≡ true
      → length c.poll_id ≡ 16
      → length (marshal c) ≤ 4096
      → All (IsBatch c) bs
      → length bs < 2 ^ 63 - 1
      → ((k : ℕ) → cancelled k ≡ false)
      → replay
          (pure_visit g {E = E})
          cancelled
          c
          marshal
          (file_header c ++ (journal_bytes 0 bs ++ closed_frame (length bs)))
          (marshal c ++ b'\n' ∷ [])
          s
        ≡ (visit_journal g 0 bs s, none, record { partition = 0; offset = length bs } ∷ [])
  replay-sealed bs s v id small h word live =
      let visit = pure_visit g {E = E} in
      let barrier = closed_frame (length bs) in
      let rest = journal_bytes 0 bs ++ barrier in
      let total = length (file_header c ++ rest) + 1 in
      let fuel = total - length bs - 2 in
      let (_, _, long) = closed_frame_checks c (length bs) (omega arith) in
      let enough : total ≡ length bs + suc (suc fuel) = omega (
        arith,
        length-append (file_header c) rest,
        length-append (journal_bytes 0 bs) barrier,
        long,
        length-journal_bytes c 0 bs v h (omega arith),
        length-sizes_of bs,
      ) in
      replay-done visit cancelled c marshal _ _ s _ _
        (scan-file_header visit cancelled c marshal rest s v id small (live 0)
          ∙ scan_loop-journal_bytes g cancelled c bs total (suc (suc fuel)) 0 barrier after_header s
              enough v h (omega arith) live refl
          ∙ ap
              (λ k.
                scan_loop visit cancelled c (suc (suc fuel)) k barrier (advance after_header bs)
                  (visit_journal g 0 bs s))
              (omega arith)
          ∙ scan_loop-closed_frame g cancelled c fuel (length bs) (advance after_header bs)
              (visit_journal g 0 bs s) word live refl)
        refl refl

  -- Replay refuses the same file without the CLOSED frame, whatever part of a frame is lost at its
  -- end: an unsealed journal has no manifest.
  pub replay-unsealed :
      (bs : List Batch) (n : ℕ) (s : S)
      → valid c ≡ true
      → length c.poll_id ≡ 16
      → length (marshal c) ≤ 4096
      → All (IsBatch c) bs
      → length bs < 2 ^ 63 - 1
      → n ≤ sizes_of bs
      → ((k : ℕ) → cancelled k ≡ false)
      → replay
          (pure_visit g {E = E})
          cancelled
          c
          marshal
          (file_header c ++ take n (journal_bytes 0 bs))
          (marshal c ++ b'\n' ∷ [])
          s
        ≡ (visit_journal g 0 (survivors n bs) s, some no_barrier, [])
  replay-unsealed bs n s v id small h word size live =
      replay-open (pure_visit g {E = E}) cancelled c marshal _ _ s _ _
        (scan-cut bs n s v id small h word size live) refl
