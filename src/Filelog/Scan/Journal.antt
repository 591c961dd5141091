-- ===== src/Filelog/Scan/Journal.antt =====
-- A journal as the writer of internal/filelog/store.go lays it out, and one round of Scan on it.
use gigaquizz.Common.{
  ℕ, ◌+◌, ◌-◌, ◌*◌, ◌^◌, ◌≤◌, ◌<◌, ◌≡◌, refl, ap, ap₂, ◌∙◌, Bool, true, false, List, [], ◌∷◌, ◌++◌,
  Option, none, length, length-append, take, drop, All, arith,
}
use gigaquizz.Common.Bytes.{Bytes, take-exact, drop-exact}
use gigaquizz.GoTime.{InNanoRange}
use gigaquizz.Filelog.Types.{
  Config, Input, Vote, Position, ScanResult, InWindow, valid, valid_window,
}
use gigaquizz.Filelog.Codec.{
  encode_entry, encode_entries, check_frame_header, validate_payload, parsed,
}
use gigaquizz.Filelog.Codec.Entries.{
  IsInput, vote_of, decode_entry-encode_entry, length-encode_entry,
}
use gigaquizz.Filelog.Codec.Frames.{
  IsFrame, vote_header, vote_frame_checks, closed_frame, closed_frame_checks,
}
use gigaquizz.Filelog.Scan.{
  again, visit_entries, count_frame, apply_frame, read_payload, scan_round,
}
use mathlib.Core.List.{append_assoc}

-- One frame's votes and their instant of admission.
pub record Batch : Type 0 where
  pub inputs : List Input
  pub admitted : ℕ

pub record IsBatch (c : Config) (b : Batch) : Type 0 where
  pub some_votes : 1 ≤ length b.inputs
  pub few_votes : length b.inputs ≤ 4096
  pub inputs : All (IsInput c) b.inputs
  pub window : InWindow c b.admitted

pub IsBatch-IsFrame :
    (c : Config) (b : Batch) (sequence : ℕ)
    → valid c ≡ true
    → IsBatch c b
    → sequence < 2 ^ 63
    → IsFrame c b.inputs b.admitted sequence
IsBatch-IsFrame c b sequence v h word = record {
  some_votes = h.some_votes;
  few_votes = h.few_votes;
  inputs = h.inputs;
  window = h.window;
  range = valid_window c v b.admitted h.window;
  word = word;
}

-- The frame's bytes, and its size.
abbrev pub frame_bytes : Batch → ℕ → Bytes
frame_bytes b sequence =
    vote_header b.inputs b.admitted sequence ++ encode_entries b.inputs b.admitted

abbrev pub frame_size : Batch → ℕ
frame_size b = 40 + length b.inputs * 28

pub frame_bytes-size :
    (c : Config) (b : Batch) (sequence : ℕ)
    → valid c ≡ true
    → IsBatch c b
    → sequence < 2 ^ 63
    → length (frame_bytes b sequence) ≡ frame_size b
frame_bytes-size c b sequence v h word =
    let (_, _, long, size) =
      vote_frame_checks c b.inputs b.admitted sequence (IsBatch-IsFrame c b sequence v h word) in
    omega (
      arith,
      long,
      size,
      length-append (vote_header b.inputs b.admitted sequence) (encode_entries b.inputs b.admitted),
    )

unfoldable pub journal_bytes : ℕ → List Batch → Bytes
journal_bytes sequence [] = []
journal_bytes sequence (b ∷ bs) = frame_bytes b sequence ++ journal_bytes (sequence + 1) bs

abbrev pub votes_of : List Batch → ℕ
votes_of [] = 0
votes_of (b ∷ bs) = length b.inputs + votes_of bs

abbrev pub sizes_of : List Batch → ℕ
sizes_of [] = 0
sizes_of (b ∷ bs) = frame_size b + sizes_of bs

pub length-journal_bytes :
    (c : Config) (sequence : ℕ) (bs : List Batch)
    → valid c ≡ true
    → All (IsBatch c) bs
    → sequence + length bs < 2 ^ 63
    → length (journal_bytes sequence bs) ≡ sizes_of bs
unfolding journal_bytes
length-journal_bytes c sequence [] v h word = refl
length-journal_bytes c sequence (b ∷ bs) v h word =
    length-append (frame_bytes b sequence) (journal_bytes (sequence + 1) bs)
    ∙ ap₂ (λ x y. x + y) (frame_bytes-size c b sequence v h.0 (omega arith))
        (length-journal_bytes c (sequence + 1) bs v h.1 (omega arith))

-- The result after some more frames of votes.
abbrev pub advance : ScanResult → List Batch → ScanResult
advance r bs = record r {
  frames = r.frames + length bs;
  votes = r.votes + votes_of bs;
  valid_bytes = r.valid_bytes + sizes_of bs;
}

module _ {S : Type 0} (g : Position → Vote → S → S) where
  -- A visitor that never fails.
  abbrev pub pure_visit : {E : Type 0} → Position → Vote → S → S × Option E
  pure_visit p v s = (g p v s, none)

  -- What such a visitor makes of the votes of a frame and of a journal, in their order.
  unfoldable pub visit_inputs : ℕ → ℕ → List Input → ℕ → S → S
  visit_inputs sequence index [] t s = s
  visit_inputs sequence index (i ∷ is) t s =
      visit_inputs sequence (index + 1) is t
        (g (record { partition = 0; offset = sequence; index = index }) (vote_of i t) s)

  unfoldable pub visit_journal : ℕ → List Batch → S → S
  unfolding visit_inputs
  visit_journal sequence [] s = s
  visit_journal sequence (b ∷ bs) s =
      visit_journal (sequence + 1) bs (visit_inputs sequence 0 b.inputs b.admitted s)

  visit_entries-encode_entries :
      {E : Type 0} (c : Config) (sequence index : ℕ) (is : List Input) (t : ℕ) (s : S)
      → All (IsInput c) is
      → InNanoRange t
      → visit_entries (pure_visit {E = E}) sequence index (length is) (encode_entries is t) s
        ≡ (visit_inputs sequence index is t s, none)
  unfolding visit_entries visit_inputs encode_entries
  visit_entries-encode_entries c sequence index [] t s h r = refl
  visit_entries-encode_entries c sequence index (i ∷ is) t s h r =
      rw (decode_entry-encode_entry i t (encode_entries is t) h.0.size h.0.word r) (
        rw
          (drop-exact 28 (encode_entry i t) (encode_entries is t)
            (length-encode_entry i t h.0.size))
          (visit_entries-encode_entries c sequence (index + 1) is t _ h.1 r))

module _ {S E : Type 0} (visit : Position → Vote → S → S × Option E) (cancelled : ℕ → Bool)
    (c : Config) where
  -- The loop's body up to the payload, on bytes that begin with a valid header.
  pub scan_round-header :
      (sequence kind count : ℕ) (rest head behind : Bytes) (r : ScanResult) (s : S)
      → take 40 rest ≡ head
      → drop 40 rest ≡ behind
      → 40 ≤ length rest
      → check_frame_header head sequence ≡ parsed kind count
      → cancelled (sequence + 1) ≡ false
      → r.closed ≡ false
      → scan_round visit cancelled c sequence rest r s
        ≡ read_payload visit c sequence head kind count behind r s
  unfolding scan_round
  scan_round-header sequence kind count rest head behind r s t d long ok live open_ = ground arith

  pub read_payload-valid :
      (sequence kind count : ℕ) (head rest body behind : Bytes) (r : ScanResult) (s : S)
      → take (count * 28) rest ≡ body
      → drop (count * 28) rest ≡ behind
      → count * 28 ≤ length rest
      → validate_payload c head body ≡ none
      → read_payload visit c sequence head kind count rest r s
        ≡ apply_frame visit sequence kind count body behind r s
  unfolding read_payload
  read_payload-valid sequence kind count head rest body behind r s t d long ok = ground arith

  pub apply_frame-votes :
      (sequence count : ℕ) (body rest : Bytes) (r : ScanResult) (s s' : S)
      → sequence < 2 ^ 63 - 1
      → visit_entries visit sequence 0 count body s ≡ (s', none)
      → apply_frame visit sequence 1 count body rest r s
        ≡ again
            (record r {
              frames = r.frames + 1;
              votes = r.votes + count;
              valid_bytes = r.valid_bytes + (40 + count * 28);
            })
            s'
            rest
  unfolding apply_frame count_frame
  apply_frame-votes sequence count body rest r s s' word ok = ground arith

  pub apply_frame-closed :
      (sequence : ℕ) (rest : Bytes) (r : ScanResult) (s : S)
      → sequence < 2 ^ 63 - 1
      → apply_frame visit sequence 2 0 [] rest r s
        ≡ again
            (record r {
              manifest = record { partition = 0; offset = sequence } ∷ [];
              closed = true;
              frames = r.frames + 1;
              valid_bytes = r.valid_bytes + 40;
            })
            s
            rest
  unfolding apply_frame count_frame
  apply_frame-closed sequence rest r s word = ground arith

module _ {S E : Type 0} (g : Position → Vote → S → S) (cancelled : ℕ → Bool) (c : Config) where
  -- A round on a whole frame of votes reads its votes and goes on behind it.
  pub scan_round-frame :
      (b : Batch) (sequence : ℕ) (rest : Bytes) (r : ScanResult) (s : S)
      → valid c ≡ true
      → IsBatch c b
      → sequence < 2 ^ 63 - 1
      → cancelled (sequence + 1) ≡ false
      → r.closed ≡ false
      → scan_round (pure_visit g {E = E}) cancelled c sequence (frame_bytes b sequence ++ rest) r s
        ≡ again (advance r (b ∷ [])) (visit_inputs g sequence 0 b.inputs b.admitted s) rest
  scan_round-frame b sequence rest r s v h word live open_ =
      let f = IsBatch-IsFrame c b sequence v h (omega arith) in
      let (header, payload, long, size) = vote_frame_checks c b.inputs b.admitted sequence f in
      let head = vote_header b.inputs b.admitted sequence in
      let body = encode_entries b.inputs b.admitted in
      let n = length b.inputs in
      ap (λ bytes. scan_round (pure_visit g {E = E}) cancelled c sequence bytes r s)
        (append_assoc head body rest)
      ∙ scan_round-header (pure_visit g {E = E}) cancelled c sequence 1 n (head ++ (body ++ rest))
          head (body ++ rest) r s (take-exact 40 head (body ++ rest) long)
          (drop-exact 40 head (body ++ rest) long)
          (omega (arith, length-append head (body ++ rest))) header live open_
      ∙ read_payload-valid (pure_visit g {E = E}) cancelled c sequence 1 n head (body ++ rest) body
          rest r s (take-exact (n * 28) body rest size) (drop-exact (n * 28) body rest size)
          (omega (arith, length-append body rest)) payload
      ∙ apply_frame-votes (pure_visit g {E = E}) cancelled c sequence n body rest r s _ word
          (visit_entries-encode_entries g c sequence 0 b.inputs b.admitted s h.inputs f.range)
      ∙ ground arith

  -- A round on the CLOSED frame notes the barrier.
  pub scan_round-closed :
      (sequence : ℕ) (rest : Bytes) (r : ScanResult) (s : S)
      → sequence < 2 ^ 63 - 1
      → cancelled (sequence + 1) ≡ false
      → r.closed ≡ false
      → scan_round (pure_visit g {E = E}) cancelled c sequence (closed_frame sequence ++ rest) r s
        ≡ again
            (record r {
              manifest = record { partition = 0; offset = sequence } ∷ [];
              closed = true;
              frames = r.frames + 1;
              valid_bytes = r.valid_bytes + 40;
            })
            s
            rest
  scan_round-closed sequence rest r s word live open_ =
      let (header, payload, long) = closed_frame_checks c sequence (omega arith) in
      let head = closed_frame sequence in
      scan_round-header (pure_visit g {E = E}) cancelled c sequence 2 0 (head ++ rest) head rest r s
        (take-exact 40 head rest long) (drop-exact 40 head rest long)
        (omega (arith, length-append head rest)) header live open_
      ∙ read_payload-valid (pure_visit g {E = E}) cancelled c sequence 2 0 head rest [] rest r s
          refl refl (omega arith) payload
      ∙ apply_frame-closed (pure_visit g {E = E}) cancelled c sequence rest r s word
