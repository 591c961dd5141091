-- ===== src/Filelog/Store/Flushing.antt =====
-- What a flush does to the journal: all frames of the batch stand behind the journal and are synced, or
-- a part of their bytes does and the writer is at its end.
use gigaquizz.Common.{
  ℕ, ◌+◌, ◌-◌, ◌^◌, ◌≤◌, ◌≡◌, ◌⊎◌, inl, inr, refl, sym, ap, ap₂, subst, ◌∙◌, true, List, [], ◌∷◌,
  ◌++◌, none, some, length, length-append, take, take-full, take-append_ge, All, arith,
}
use gigaquizz.Common.Bytes.{Bytes}
use gigaquizz.Filelog.Types.{Config, valid}
use gigaquizz.Filelog.Codec.{file_header}
use gigaquizz.Filelog.Scan.Journal.{Batch, IsBatch, journal_bytes, sizes_of, length-journal_bytes}
use gigaquizz.Filelog.Store.{StoreError, Store}
use gigaquizz.Filelog.Store.Writer.{frames_of, answers_of}
use gigaquizz.Filelog.Store.Writer.Frames.{
  Log, frames_of-journal_bytes, journal_bytes-append, Carry-length, Carry-good,
}
use gigaquizz.Filelog.Store.Invariant.{Acked, Running, Over, Tail, frames}
use gigaquizz.Filelog.Store.Receipts.{
  All-append, Acked-all_more, answers_of-failed, answers_of-Acked,
}
use mathlib.Core.List.{append_assoc, append-nil}

sizes_of-append : (xs ys : List Batch) → sizes_of (xs ++ ys) ≡ sizes_of xs + sizes_of ys
sizes_of-append [] ys = omega arith
sizes_of-append (x ∷ xs) ys = omega (arith, sizes_of-append xs ys)

-- The first bytes of a journal, from the end of some of its frames on.
pub prefix_of_journal :
    (c : Config) (v : valid c ≡ true) (bs more : List Batch) (k : ℕ)
    → All (IsBatch c) bs
    → length bs ≤ 2 ^ 63 - 1
    → sizes_of bs ≤ k
    → (rest : Bytes) × (take k (journal_bytes 0 (bs ++ more)) ≡ journal_bytes 0 bs ++ rest)
prefix_of_journal c v bs more k good few lo =
    let size = length-journal_bytes c 0 bs v good (omega arith) in
    let behind = journal_bytes (0 + length bs) more in
    (
      take (k - length (journal_bytes 0 bs)) behind,
      ap (take k) (journal_bytes-append bs more 0)
          ∙ take-append_ge k (journal_bytes 0 bs) behind (omega (arith, size)),
    )

module _ (c : Config) (log : Log) (v : valid c ≡ true) (s : Store)
    (r : Running c log s.batch s.votes s.sequence s.file s.synced s.answers) where
  abbrev new_bytes : Bytes
  new_bytes = frames_of s.sequence s.batch

  new_bytes_are : new_bytes ≡ journal_bytes (length r.flushed) r.batched
  new_bytes_are =
      frames_of-journal_bytes c log s.batch r.batched s.sequence r.carry
      ∙ ap (λ k. journal_bytes k r.batched) r.sequence_is

  whole_file : s.file ++ new_bytes ≡ file_header c ++ journal_bytes 0 (r.flushed ++ r.batched)
  whole_file =
      ap₂ (λ x y. x ++ y) r.file_is new_bytes_are
      ∙ append_assoc (file_header c) (journal_bytes 0 r.flushed) _
      ∙ ap (λ t. file_header c ++ t)
          (ap (λ k. journal_bytes 0 r.flushed ++ journal_bytes k r.batched) (omega arith)
            ∙ sym (journal_bytes-append r.flushed r.batched 0))

  pub flushed-Running :
      length s.batch ≤ 2 ^ 63 - 1 - s.sequence
      → Running c log [] 0
          (s.sequence + length s.batch)
          (s.file ++ new_bytes)
          (length (s.file ++ new_bytes))
          (s.answers ++ answers_of s.sequence none s.batch)
  flushed-Running room = record {
    flushed = r.flushed ++ r.batched;
    good =
        All-append (IsBatch c) r.flushed r.batched r.good
          (Carry-good c log s.batch r.batched r.carry);
    few = omega (
      arith,
      length-append r.flushed r.batched,
      Carry-length c log s.batch r.batched r.carry,
      r.sequence_is,
      r.few,
    );
    sequence_is = omega (
      arith,
      length-append r.flushed r.batched,
      Carry-length c log s.batch r.batched r.carry,
      r.sequence_is,
    );
    file_is = whole_file;
    synced_is = refl;
    answered =
        All-append (Acked log (r.flushed ++ r.batched)) s.answers
          (answers_of s.sequence none s.batch)
          (Acked-all_more log r.flushed r.batched s.answers r.answered)
          (subst (λ k. All (Acked log (r.flushed ++ r.batched)) (answers_of k none s.batch))
            (sym r.sequence_is) (answers_of-Acked c log r.flushed s.batch r.batched r.carry));
    batched = [];
    carry = tt;
    votes_is = refl;
    votes_fit = omega arith;
  }

  pub torn-Tail :
      (k : ℕ)
      → k ≤ length new_bytes
      → (k ≡ 0) ⊎ (length s.batch ≤ 2 ^ 63 - 1 - s.sequence)
      → s.manifest ≡ []
      → Tail c r.flushed (s.file ++ take k new_bytes) s.manifest
  torn-Tail k fits (inl nothing) unsealed =
      let size = length-journal_bytes c 0 r.flushed v r.good (omega (arith, r.few)) in
      frames [] (sizes_of r.flushed) (subst (All (IsBatch c)) (sym (append-nil r.flushed)) r.good)
        (omega arith) (omega (arith, sizes_of-append r.flushed []))
        (omega (arith, length-append r.flushed [], r.few))
        (ap (λ n. s.file ++ take n new_bytes) nothing
          ∙ append-nil s.file
          ∙ r.file_is
          ∙ ap (λ t. file_header c ++ t)
              (sym
                  (take-full (sizes_of r.flushed) (journal_bytes 0 r.flushed) (omega (arith, size)))
                ∙ ap (λ bs. take (sizes_of r.flushed) (journal_bytes 0 bs))
                    (sym (append-nil r.flushed))))
        unsealed
  torn-Tail k fits (inr room) unsealed =
      let size = length-journal_bytes c 0 r.flushed v r.good (omega (arith, r.few)) in
      let good = Carry-good c log s.batch r.batched r.carry in
      let count = Carry-length c log s.batch r.batched r.carry in
      let few : length r.flushed + length r.batched ≤ 2 ^ 63 - 1 =
        omega (arith, count, r.sequence_is, r.few, room) in
      let new_size =
        length-journal_bytes c (length r.flushed) r.batched v good (omega (arith, few)) in
      let cut = sizes_of r.flushed + k in
      let rest = journal_bytes (length r.flushed) r.batched in
      frames r.batched cut (All-append (IsBatch c) r.flushed r.batched r.good good) (omega arith)
        (omega
          (arith, sizes_of-append r.flushed r.batched, new_size, ap length new_bytes_are, fits))
        (omega (arith, length-append r.flushed r.batched, few))
        (ap₂ (λ x y. x ++ take k y) r.file_is new_bytes_are
          ∙ append_assoc (file_header c) (journal_bytes 0 r.flushed) (take k rest)
          ∙ ap (λ t. file_header c ++ t)
              (ap (λ n. journal_bytes 0 r.flushed ++ take n rest) (omega (arith, size))
                ∙ sym (take-append_ge cut (journal_bytes 0 r.flushed) rest (omega (arith, size)))
                ∙ ap (λ n. take cut (journal_bytes 0 r.flushed ++ journal_bytes n r.batched))
                    (omega arith)
                ∙ ap (take cut) (sym (journal_bytes-append r.flushed r.batched 0))))
        unsealed

  pub failed-Over :
      (k : ℕ) (p : StoreError)
      → k ≤ length new_bytes
      → (k ≡ 0) ⊎ (length s.batch ≤ 2 ^ 63 - 1 - s.sequence)
      → s.manifest ≡ []
      → Over c log
          (s.file ++ take k new_bytes)
          (s.answers ++ answers_of s.sequence (some p) s.batch)
          s.manifest
  failed-Over k p fits room unsealed = record {
    flushed = r.flushed;
    good = r.good;
    few = r.few;
    answered =
        All-append (Acked log r.flushed) s.answers (answers_of s.sequence (some p) s.batch)
          r.answered (answers_of-failed log r.flushed s.sequence p s.batch);
    tail = torn-Tail k fits room unsealed;
  }
