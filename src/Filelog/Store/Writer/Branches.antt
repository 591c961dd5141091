-- ===== src/Filelog/Store/Writer/Branches.antt =====
-- The outcomes of syncGroup and of a flush: what holds of every outcome, from each of them.
use gigaquizz.Common.{
  ℕ, ◌+◌, ◌-◌, ◌^◌, ◌≤◌, ◌≡◌, ◌⊎◌, inl, inr, refl, sym, ap, subst, ◌∙◌, true, false, ◌++◌, Option,
  none, some, ltb, ltb-false, ◌==◌, ==_sound, if_cases, option_cases, length, take, take-full,
  arith,
}
use gigaquizz.Common.Bytes.{Bytes}
use gigaquizz.Filelog.Store.{
  StoreError, io, unknown, sequence_exhausted, Store, add64, fail, stop_queue,
}
use gigaquizz.Filelog.Store.Writer.{
  Disk, write_all, sync_group, frames_of, flush_sync, flush_answer, flush_outcome, flush,
}
use gigaquizz.Filelog.Store.Writer.WriteAll.{write_all-Wrote}
use mathlib.Core.List.{append-nil}

-- `s` after writes that have put `file` into the journal; the counters `w` and `g` and the length `y` of
-- what is synced are what they are.
abbrev pub with_file : Store → Bytes → ℕ → ℕ → ℕ → Store
with_file s file w g y = record s { file = file; wal_bytes = w; groups = g; synced = y }

pub sync_group_cases :
    (Q : Store × Option StoreError → Type 0) (d : Disk) (bytes : Bytes) (s : Store)
    → ((w g : ℕ) → Q (with_file s (s.file ++ bytes) w g (length (s.file ++ bytes)), none))
    → ((k w g y : ℕ) (e : StoreError)
        → k ≤ length bytes
        → Q (with_file s (s.file ++ take k bytes) w g y, some e))
    → Q (sync_group d bytes s)
unfolding sync_group
sync_group_cases Q d bytes s good bad =
    let out = write_all d.write (length bytes + 1) 0 bytes in
    let w = write_all-Wrote d.write (length bytes + 1) 0 bytes (omega arith) in
    let more = add64 s.wal_bytes (length bytes) in
    let wrote = ap (λ t. s.file ++ t) w.start in
    option_cases Q (out.1) _ _
      (λ ok.
        let all =
          ap (λ t. s.file ++ t) (w.start ∙ take-full w.size bytes (omega (arith, w.whole ok))) in
        option_cases Q d.sync_error _ _
          (λ _.
            subst (λ f. Q (with_file s f more (add64 s.groups 1) (length f), none)) (sym all)
              (good more (add64 s.groups 1)))
          (λ x _.
            subst (λ f. Q (with_file s f more s.groups s.synced, some (io x))) (sym wrote)
              (bad w.size more s.groups s.synced (io x) w.fits)))
      (λ x _.
        subst (λ f. Q (with_file s f s.wal_bytes s.groups s.synced, some x)) (sym wrote)
          (bad w.size s.wal_bytes s.groups s.synced x w.fits))

pub fail_clean :
    (s : Store) (x : StoreError)
    → s.poison ≡ none
    → fail x s ≡ (
      record s { poison = some (unknown x); admission_closed = true; queue_closed = true },
      unknown x,
    )
unfolding fail stop_queue
fail_clean s x h = rw h refl

-- The store that a flush leaves when the disk fails: poisoned.
abbrev pub poisoned : Store → Bytes → ℕ → ℕ → ℕ → StoreError → Store
poisoned s file w g y p = record (with_file (record s { ticking = false }) file w g y) {
  poison = some p;
  admission_closed = true;
  queue_closed = true;
}

abbrev pub stored : Store → Bytes → ℕ → ℕ → ℕ → ℕ → Store
stored s bytes w g v f =
    record (with_file (record s { ticking = false }) (s.file ++ bytes) w g
      (length (s.file ++ bytes))) { durable_votes = v; durable_frames = f }

pub flush_cases :
    (Q : Store × Option StoreError → Type 0) (d : Disk) (s : Store)
    → s.poison ≡ none
    → (length s.batch ≡ 0 → Q (s, none))
    → ((w g v f : ℕ)
        → length s.batch ≤ 2 ^ 63 - 1 - s.sequence
        → Q (flush_answer none (stored s (frames_of s.sequence s.batch) w g v f), none))
    → ((k w g y : ℕ) (p : StoreError)
        → k ≤ length (frames_of s.sequence s.batch)
        → (k ≡ 0) ⊎ (length s.batch ≤ 2 ^ 63 - 1 - s.sequence)
        → Q (
          flush_answer
              (some p)
              (poisoned s (s.file ++ take k (frames_of s.sequence s.batch)) w g y p),
          some p,
        ))
    → Q (flush d s)
unfolding flush flush_sync flush_outcome
flush_cases Q d s clean nothing good bad =
    let bytes = frames_of s.sequence s.batch in
    if_cases Q (length s.batch == 0) _ _ (λ e. nothing (==_sound (length s.batch) 0 e))
      (λ _.
        if_cases (λ o. Q (flush_outcome s o)) (ltb (2 ^ 63 - 1 - s.sequence) (length s.batch)) _ _
          (λ _.
            failed (record s { ticking = false }) sequence_exhausted clean
              (subst
                (λ f. Q (
                  flush_answer (some (unknown sequence_exhausted))
                      (poisoned s f s.wal_bytes s.groups s.synced (unknown sequence_exhausted)),
                  some (unknown sequence_exhausted),
                ))
                (append-nil s.file)
                (bad 0 s.wal_bytes s.groups s.synced (unknown sequence_exhausted) (omega arith)
                  (inl refl))))
          (λ room.
            sync_group_cases (λ o. Q (flush_outcome s o)) d bytes (record s { ticking = false })
              (λ w g.
                good w g (add64 s.durable_votes s.votes) (add64 s.durable_frames (length s.batch))
                  (ltb-false (2 ^ 63 - 1 - s.sequence) (length s.batch) room))
              (λ k w g y e fits.
                failed (with_file (record s { ticking = false }) (s.file ++ take k bytes) w g y) e
                  clean
                  (bad k w g y (unknown e) fits
                    (inr (ltb-false (2 ^ 63 - 1 - s.sequence) (length s.batch) room))))))
  where
    failed :
        (s' : Store) (x : StoreError)
        → s'.poison ≡ none
        → Q (
          flush_answer (some (unknown x)) (record s' {
            poison = some (unknown x);
            admission_closed = true;
            queue_closed = true;
          }),
          some (unknown x),
        )
        → Q (flush_outcome s (s', some x))
    failed s' x h q =
        subst (λ o. Q (flush_answer (some (o.1)) (o.0), some (o.1))) (sym (fail_clean s' x h)) q
