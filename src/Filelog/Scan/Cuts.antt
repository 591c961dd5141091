-- ===== src/Filelog/Scan/Cuts.antt =====
-- Scan of a journal that was cut at any byte, as a crash or a lost write may leave it.
use gigaquizz.Common.{
  ℕ, zero, suc, ◌+◌, ◌-◌, ◌*◌, ◌^◌, ◌≤◌, ◌<◌, ◌≡◌, inl, inr, refl, sym, ap, ap₂, ◌∙◌, Bool, true,
  false, not, List, [], ◌∷◌, ◌++◌, Option, none, ltb, ltb→lt, ltb-false, ◌==◌, if◌then◌else◌,
  length, length-append, length-take, take, drop, take-take, drop-take, take-append_le,
  take-append_ge, All, Bool-cases, arith,
}
use gigaquizz.Common.Bytes.{Bytes, take-exact, drop-exact}
use gigaquizz.Filelog.Types.{Config, Vote, Position, ScanResult, valid}
use gigaquizz.Filelog.Codec.{encode_entries}
use gigaquizz.Filelog.Codec.Frames.{vote_header, vote_frame_checks}
use gigaquizz.Filelog.Scan.{ScanError, finished, again, read_payload, scan_round, scan_loop}
use gigaquizz.Filelog.Scan.Journal.{
  Batch, IsBatch, IsBatch-IsFrame, frame_bytes, frame_size, journal_bytes, sizes_of, advance,
  pure_visit, visit_journal, frame_bytes-size, scan_round-header, scan_round-frame,
}

-- The frames that lie whole within the first `n` bytes, and whether bytes of one more are there.
unfoldable pub survivors : ℕ → List Batch → List Batch
survivors n [] = []
survivors n (b ∷ bs) =
    let rest = survivors (n - frame_size b) bs in if ltb n (frame_size b) then [] else b ∷ rest

unfoldable pub torn : ℕ → List Batch → Bool
torn n [] = false
torn n (b ∷ bs) =
    let rest = torn (n - frame_size b) bs in if ltb n (frame_size b) then not (n == 0) else rest

module _ {S E : Type 0} (visit : Position → Vote → S → S × Option E) (cancelled : ℕ → Bool)
    (c : Config) where
  scan_round-short :
      (sequence : ℕ) (rest : Bytes) (r : ScanResult) (s : S)
      → length rest < 40
      → cancelled (sequence + 1) ≡ false
      → r.closed ≡ false
      → r.incomplete_tail ≡ false
      → scan_round visit cancelled c sequence rest r s
        ≡ finished (record r { incomplete_tail = not (length rest == 0) }) s none
  unfolding scan_round
  scan_round-short sequence rest r s short live open_ whole = ground arith

  read_payload-short :
      (sequence kind count : ℕ) (head rest : Bytes) (r : ScanResult) (s : S)
      → length rest < count * 28
      → read_payload visit c sequence head kind count rest r s
        ≡ finished (record r { incomplete_tail = true }) s none
  unfolding read_payload
  read_payload-short sequence kind count head rest r s short = ground arith

  -- Bytes of a frame that is not all there end the scan with no error.
  scan_round-torn :
      (b : Batch) (sequence n : ℕ) (behind : Bytes) (r : ScanResult) (s : S)
      → valid c ≡ true
      → IsBatch c b
      → sequence < 2 ^ 63 - 1
      → n < frame_size b
      → cancelled (sequence + 1) ≡ false
      → r.closed ≡ false
      → r.incomplete_tail ≡ false
      → scan_round visit cancelled c sequence (take n (frame_bytes b sequence ++ behind)) r s
        ≡ finished (record r { incomplete_tail = not (n == 0) }) s none
  scan_round-torn b sequence n behind r s v h word short live open_ whole =
      let f = IsBatch-IsFrame c b sequence v h (omega arith) in
      let (header, _, long, size) = vote_frame_checks c b.inputs b.admitted sequence f in
      let head = vote_header b.inputs b.admitted sequence in
      let body = encode_entries b.inputs b.admitted in
      let all = frame_bytes b sequence in
      let fits : n ≤ length all = omega (arith, length-append head body) in
      let cut = take-append_le n all behind fits in
      let count : length (take n all) ≡ n = length-take n all fits in
      elim (Bool-cases (ltb n 40)) [
        | inl few ↦
            ap (λ bytes. scan_round visit cancelled c sequence bytes r s) cut
            ∙ scan_round-short sequence (take n all) r s (omega (arith, ltb→lt n 40 few)) live open_
                whole
            ∙ ap (λ k. finished (record r { incomplete_tail = not (k == 0) }) s none) count
        | inr many ↦
            let m : 40 ≤ n = ltb-false n 40 many in
            let split : n ≡ 40 + (n - 40) = omega arith in
            let back : drop 40 (take n all) ≡ take (n - 40) body =
              ap (λ k. drop 40 (take k all)) split
              ∙ drop-take 40 (n - 40) all
              ∙ ap (take (n - 40)) (drop-exact 40 head body long) in
            ap (λ bytes. scan_round visit cancelled c sequence bytes r s) cut
            ∙ scan_round-header visit cancelled c sequence 1 (length b.inputs) (take n all) head
                (take (n - 40) body) r s (take-take 40 n all m ∙ take-exact 40 head body long) back
                (omega (arith, count)) header live open_
            ∙ read_payload-short sequence 1 (length b.inputs) head (take (n - 40) body) r s
                (omega (arith, length-take (n - 40) body))
            ∙ ground arith
      ]

  pub scan_loop-finished :
      (fuel sequence : ℕ) (rest : Bytes) (r r' : ScanResult) (s s' : S) (e : Option (ScanError E))
      → scan_round visit cancelled c sequence rest r s ≡ finished r' s' e
      → scan_loop visit cancelled c (suc fuel) sequence rest r s ≡ (r', s', e)
  unfolding scan_loop
  scan_loop-finished fuel sequence rest r r' s s' e h = rw (scan_loop, h) refl

  pub scan_loop-again :
      (fuel sequence : ℕ) (rest rest' : Bytes) (r r' : ScanResult) (s s' : S)
      → scan_round visit cancelled c sequence rest r s ≡ again r' s' rest'
      → scan_loop visit cancelled c (suc fuel) sequence rest r s
        ≡ scan_loop visit cancelled c fuel (sequence + 1) rest' r' s'
  unfolding scan_loop
  scan_loop-again fuel sequence rest rest' r r' s s' h = rw (scan_loop, h) refl

survivors-nil : (n : ℕ) → survivors n [] ≡ []
unfolding survivors
survivors-nil n = refl

torn-nil : (n : ℕ) → torn n [] ≡ false
unfolding torn
torn-nil n = refl

survivors-few : (n : ℕ) (b : Batch) (bs : List Batch) → n < frame_size b → survivors n (b ∷ bs) ≡ []
unfolding survivors
survivors-few n b bs few = ground arith

survivors-many :
    (n : ℕ) (b : Batch) (bs : List Batch)
    → frame_size b ≤ n
    → survivors n (b ∷ bs) ≡ b ∷ survivors (n - frame_size b) bs
unfolding survivors
survivors-many n b bs many = ground arith

torn-few : (n : ℕ) (b : Batch) (bs : List Batch) → n < frame_size b → torn n (b ∷ bs) ≡ not (n == 0)
unfolding torn
torn-few n b bs few = ground arith

torn-many :
    (n : ℕ) (b : Batch) (bs : List Batch)
    → frame_size b ≤ n
    → torn n (b ∷ bs) ≡ torn (n - frame_size b) bs
unfolding torn
torn-many n b bs many = ground arith

module _ {S E : Type 0} (g : Position → Vote → S → S) (cancelled : ℕ → Bool) (c : Config) where
  -- The loop on the first `n` bytes of a journal.
  pub scan_loop-cut :
      (bs : List Batch) (fuel sequence n : ℕ) (r : ScanResult) (s : S)
      → valid c ≡ true
      → All (IsBatch c) bs
      → sequence + length bs ≤ 2 ^ 63 - 1
      → n < fuel
      → n ≤ sizes_of bs
      → ((k : ℕ) → cancelled k ≡ false)
      → r.closed ≡ false
      → r.incomplete_tail ≡ false
      → scan_loop
          (pure_visit g {E = E})
          cancelled
          c
          fuel
          sequence
          (take n (journal_bytes sequence bs))
          r
          s
        ≡ (
          record (advance r (survivors n bs)) { incomplete_tail = torn n bs },
          visit_journal g sequence (survivors n bs) s,
          none,
        )
  unfolding journal_bytes visit_journal
  scan_loop-cut bs zero sequence n r s v h word fuel_ok size live open_ whole = absurd (omega arith)
  scan_loop-cut [] (suc fuel) sequence n r s v h word fuel_ok size live open_ whole =
      let nothing : n ≡ 0 = omega arith in
      let visit = pure_visit g {E = E} in
      let outcome : List Batch → Bool → ScanResult × S × Option (ScanError E) = λ kept tail. (
        record (advance r kept) { incomplete_tail = tail },
        visit_journal g sequence kept s,
        none,
      ) in
      ap (λ k. scan_loop visit cancelled c (suc fuel) sequence (take k []) r s) nothing
      ∙ scan_loop-finished visit cancelled c fuel sequence [] r _ s s none (
          scan_round-short visit cancelled c sequence [] r s (omega arith) (live (sequence + 1))
            open_ whole)
      ∙ ground arith
      ∙ ap₂ outcome (sym (survivors-nil n)) (sym (torn-nil n))
  scan_loop-cut (b ∷ bs) (suc fuel) sequence n r s v h word fuel_ok size live open_ whole =
      let visit = pure_visit g {E = E} in
      let behind = journal_bytes (sequence + 1) bs in
      let outcome : List Batch → Bool → ScanResult × S × Option (ScanError E) = λ kept tail. (
        record (advance r kept) { incomplete_tail = tail },
        visit_journal g sequence kept s,
        none,
      ) in
      elim (Bool-cases (ltb n (frame_size b))) [
        | inl few ↦
            let m = ltb→lt n (frame_size b) few in
            scan_loop-finished visit cancelled c fuel sequence _ r _ s s none (
              scan_round-torn visit cancelled c b sequence n behind r s v h.0 (omega arith) m
                (live (sequence + 1)) open_ whole)
            ∙ ground arith
            ∙ ap₂ outcome (sym (survivors-few n b bs m)) (sym (torn-few n b bs m))
        | inr many ↦
            let m = ltb-false n (frame_size b) many in
            let long : length (frame_bytes b sequence) ≡ frame_size b =
              frame_bytes-size c b sequence v h.0 (omega arith) in
            let split : take n (frame_bytes b sequence ++ behind)
                ≡ frame_bytes b sequence ++ take (n - frame_size b) behind =
              take-append_ge n (frame_bytes b sequence) behind (omega (arith, long))
              ∙ ap (λ k. frame_bytes b sequence ++ take (n - k) behind) long in
            ap (λ bytes. scan_loop visit cancelled c (suc fuel) sequence bytes r s) split
            ∙ scan_loop-again visit cancelled c fuel sequence _ _ r _ s _ (
                scan_round-frame g cancelled c b sequence (take (n - frame_size b) behind) r s v h.0
                  (omega arith) (live (sequence + 1)) open_)
            ∙ scan_loop-cut bs fuel (sequence + 1) (n - frame_size b) (advance r (b ∷ [])) _ v h.1
                (omega arith) (omega arith) (omega arith) live open_ whole
            ∙ ground arith
            ∙ ap₂ outcome (sym (survivors-many n b bs m)) (sym (torn-many n b bs m))
      ]
