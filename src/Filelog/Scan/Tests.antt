-- ===== src/Filelog/Scan/Tests.antt =====
-- Scan of a journal of two frames, whole, cut in the second frame, and sealed.
use gigaquizz.Common.{
  ℕ, suc, ◌+◌, ◌≤◌, ◌≡◌, ◌≢◌, refl, ap, Bool, false, true, List, [], ◌∷◌, ◌++◌, Option, none, some,
  take, length, arith,
}
use gigaquizz.Common.Bytes.{Bytes}
use gigaquizz.Filelog.Types.{Config, Vote, Position, ScanResult, Manifest, valid_choice}
use gigaquizz.Filelog.Codec.{file_header, valid_vote}
use gigaquizz.Filelog.Codec.Frames.{closed_frame}
use gigaquizz.Filelog.Codec.Tests.{
  poll, during, vote, second_vote, poll-valid, vote-IsInput, second_vote-IsInput,
}
use gigaquizz.Filelog.Scan.{ScanError, no_barrier, out_of_fuel, scan, replay}
use gigaquizz.Filelog.Scan.Journal.{
  Batch, IsBatch, journal_bytes, advance, pure_visit, visit_journal,
}
use gigaquizz.Filelog.Scan.Cuts.{survivors, torn}
use gigaquizz.Filelog.Scan.Whole.{after_header, scan-cut, replay-sealed, replay-unsealed}
use gigaquizz.Filelog.Scan.Sound.{accounted}
use gigaquizz.Filelog.Scan.Outcome.{
  scan-visits_valid, scan-terminates, scan-accounted, replay-reads_all,
}

abbrev first_batch : Batch
first_batch = record { inputs = vote ∷ second_vote ∷ []; admitted = during }

abbrev second_batch : Batch
second_batch = record { inputs = vote ∷ []; admitted = during + 5 }

first_batch-IsBatch : IsBatch poll first_batch
first_batch-IsBatch = record {
  some_votes = omega arith;
  few_votes = omega arith;
  inputs = (vote-IsInput, (second_vote-IsInput, tt));
  window = record { from = omega arith; until = omega arith };
}

second_batch-IsBatch : IsBatch poll second_batch
second_batch-IsBatch = record {
  some_votes = omega arith;
  few_votes = omega arith;
  inputs = (vote-IsInput, tt);
  window = record { from = omega arith; until = omega arith };
}

abbrev batches : List Batch
batches = first_batch ∷ second_batch ∷ []

abbrev no_json : Config → Bytes
no_json c = []

abbrev live : ℕ → Bool
live n = false

-- A visitor that counts.
abbrev count_one : Position → Vote → ℕ → ℕ
count_one p v n = suc n

abbrev counting : Position → Vote → ℕ → ℕ × Option ℕ
counting = pure_visit count_one {E = ℕ}

-- The cut at byte 100 is within the second frame, which begins at byte 96.
scan-cut_example :
    scan counting live poll no_json
      (file_header poll ++ take 100 (journal_bytes 0 batches))
      (b'\n' ∷ [])
      0
    ≡ (
      record (advance after_header (survivors 100 batches)) { incomplete_tail = torn 100 batches },
      visit_journal count_one 0 (survivors 100 batches) 0,
      none,
    )
scan-cut_example =
    scan-cut count_one live poll no_json batches 100 0 poll-valid refl (omega arith)
      (first_batch-IsBatch, (second_batch-IsBatch, tt)) (omega arith) (omega arith) (λ _. refl)

survivors_run : survivors 100 batches ≡ first_batch ∷ []
unfolding survivors
survivors_run = refl

visit_journal_run : visit_journal count_one 0 batches 0 ≡ 3
unfolding visit_journal
visit_journal_run = refl

replay-sealed_example :
    replay counting live poll no_json
      (file_header poll ++ (journal_bytes 0 batches ++ closed_frame 2))
      (b'\n' ∷ [])
      0
    ≡ (visit_journal count_one 0 batches 0, none, record { partition = 0; offset = 2 } ∷ [])
replay-sealed_example =
    replay-sealed count_one live poll no_json batches 0 poll-valid refl (omega arith)
      (first_batch-IsBatch, (second_batch-IsBatch, tt)) (omega arith) (λ _. refl)

replay-unsealed_example :
    replay counting live poll no_json
      (file_header poll ++ take 100 (journal_bytes 0 batches))
      (b'\n' ∷ [])
      0
    ≡ (visit_journal count_one 0 (survivors 100 batches) 0, some no_barrier, [])
replay-unsealed_example =
    replay-unsealed count_one live poll no_json batches 100 0 poll-valid refl (omega arith)
      (first_batch-IsBatch, (second_batch-IsBatch, tt)) (omega arith) (omega arith) (λ _. refl)

-- Any bytes: the sealed journal with a byte behind the barrier.
abbrev damaged : Bytes
damaged = file_header poll ++ (journal_bytes 0 batches ++ (closed_frame 2 ++ 1 ∷ []))

-- A visitor that keeps the last choice.
abbrev last_choice : Position → Vote → ℕ → ℕ × Option ℕ
last_choice p v n = (v.choice, none)

valid_vote-choice : (v : Vote) → valid_vote poll v ≡ true → 1 ≤ v.choice
unfolding valid_vote valid_choice
valid_vote-choice v h = ground arith

scan-visits_valid_example : 1 ≤ (scan last_choice live poll no_json damaged (b'\n' ∷ []) 1).1
scan-visits_valid_example =
    scan-visits_valid last_choice live poll no_json (λ n. 1 ≤ n)
      (λ p v s ok h. valid_vote-choice v ok) damaged (b'\n' ∷ []) 1 (omega arith)

scan-terminates_example :
    (scan counting live poll no_json damaged (b'\n' ∷ []) 0).2 ≢ some out_of_fuel
scan-terminates_example = scan-terminates counting live poll no_json damaged (b'\n' ∷ []) 0

abbrev cut_wal : Bytes
cut_wal = file_header poll ++ take 100 (journal_bytes 0 batches)

cut_no_error : (scan counting live poll no_json cut_wal (b'\n' ∷ []) 0).2 ≡ none
cut_no_error = ap (λ (o : ScanResult × ℕ × Option (ScanError ℕ)). o.2) scan_of_cut
  where
    scan_of_cut : scan counting live poll no_json cut_wal (b'\n' ∷ []) 0 ≡ (
      record (advance after_header (survivors 100 batches)) { incomplete_tail = torn 100 batches },
      visit_journal count_one 0 (survivors 100 batches) 0,
      none,
    )
    scan_of_cut =
        scan-cut count_one live poll no_json batches 100 0 poll-valid refl (omega arith)
          (first_batch-IsBatch, (second_batch-IsBatch, tt)) (omega arith) (omega arith) (λ _. refl)

scan-accounted_example :
    accounted ((scan counting live poll no_json cut_wal (b'\n' ∷ []) 0).0) (length cut_wal) ≡ true
scan-accounted_example =
    scan-accounted counting live poll no_json cut_wal (b'\n' ∷ []) 0 cut_no_error

abbrev sealed_wal : Bytes
sealed_wal = file_header poll ++ (journal_bytes 0 batches ++ closed_frame 2)

replay_no_error : (replay counting live poll no_json sealed_wal (b'\n' ∷ []) 0).1 ≡ none
replay_no_error =
    ap (λ (o : ℕ × Option (ScanError ℕ) × Manifest). o.1)
      (replay-sealed count_one live poll no_json batches 0 poll-valid refl (omega arith)
        (first_batch-IsBatch, (second_batch-IsBatch, tt)) (omega arith) (λ _. refl))

replay-reads_all_example :
    ((scan counting live poll no_json sealed_wal (b'\n' ∷ []) 0).0.closed ≡ true)
    × ((scan counting live poll no_json sealed_wal (b'\n' ∷ []) 0).0.valid_bytes
        ≡ length sealed_wal)
replay-reads_all_example =
    replay-reads_all counting live poll no_json sealed_wal (b'\n' ∷ []) 0 replay_no_error
