-- ===== src/Filelog/Store/Writer/Healthy.antt =====
-- A disk that takes all bytes in one write and syncs them.
use gigaquizz.Common.{
  ℕ, suc, ◌+◌, ◌-◌, ◌^◌, ◌≤◌, ◌≡◌, ◌≢◌, refl, ap, ◌∙◌, true, false, [], ◌∷◌, ◌++◌, Option, none,
  some, ltb, leb, le→ltb-false, ==_ne, if◌then◌else◌, length, length-drop, take, drop, take-full,
  arith,
}
use gigaquizz.Common.Bytes.{Bytes, zeros}
use gigaquizz.Common.Int.{pos}
use gigaquizz.Filelog.Store.{StoreError, Job, Store, add64, fail}
use gigaquizz.Filelog.Types.{Config}
use gigaquizz.Filelog.Codec.{finish_frame}
use gigaquizz.Filelog.Store.Writer.{
  Written, Disk, write_all, sync_group, frames_of, flush_sync, flush_answer, flush_outcome, flush,
  join, or_drain, fill, settle, drain_failure, seal_file, end_run, finish,
}
use gigaquizz.Filelog.Store.Writer.Branches.{with_file, stored}
use mathlib.Core.List.{append-nil}

no_bytes : (b : Bytes) → length b ≡ 0 → b ≡ []
no_bytes [] h = refl
no_bytes (x ∷ b) h = absurd (omega arith)

pub write_all-whole :
    (write : ℕ → Written) (fuel n : ℕ) (b : Bytes)
    → 1 ≤ n
    → length b ≡ n
    → write 0 ≡ record { count = pos n; err = none }
    → write_all write (suc (suc fuel)) 0 b ≡ (b, none)
unfolding write_all
write_all-whole write fuel n b some_bytes size wrote =
    let rest : drop n b ≡ [] = no_bytes (drop n b) (omega (arith, length-drop n b)) in
    rw (==_ne (length b) 0 (more (length b) n some_bytes size)) (
      rw (ap (λ (w : Written). w.count) wrote) (
        rw (le→ltb-false (length b) n (omega arith), ap (λ (w : Written). w.err) wrote)
          (rw (==_ne n 0 (more n n some_bytes refl)) (
            rw rest
              (ap (λ xs. (xs, none)) (append-nil (take n b) ∙ take-full n b (omega arith)))))))
  where
    more : (k n : ℕ) → 1 ≤ n → k ≡ n → k ≢ 0
    more k n h e = ground arith

pub sync_group-whole :
    (d : Disk) (bytes : Bytes) (s : Store) (n : ℕ)
    → 1 ≤ n
    → length bytes ≡ n
    → d.write 0 ≡ record { count = pos n; err = none }
    → d.sync_error ≡ none
    → sync_group d bytes s ≡ (
      with_file s
          (s.file ++ bytes)
          (add64 s.wal_bytes (length bytes))
          (add64 s.groups 1)
          (length (s.file ++ bytes)),
      none,
    )
unfolding sync_group
sync_group-whole d bytes s n some_bytes size wrote synced =
    let k = length bytes - 1 in
    let fuel : length bytes + 1 ≡ suc (suc k) = omega arith in
    let all : write_all d.write (length bytes + 1) 0 bytes ≡ (bytes, none) =
      ap (λ f. write_all d.write f 0 bytes) fuel
      ∙ write_all-whole d.write k n bytes some_bytes size wrote in
    rw (sync_group, ap (λ (o : Bytes × Option StoreError). o.1) all)
      (rw synced (
        ap
          (λ xs. (
            with_file s (s.file ++ xs) (add64 s.wal_bytes (length bytes)) (add64 s.groups 1)
                (length (s.file ++ xs)),
            none,
          ))
          (ap (λ (o : Bytes × Option StoreError). o.0) all)))

pub flush-whole :
    (d : Disk) (s : Store) (n : ℕ)
    → length s.batch ≢ 0
    → length s.batch ≤ 2 ^ 63 - 1 - s.sequence
    → 1 ≤ n
    → length (frames_of s.sequence s.batch) ≡ n
    → d.write 0 ≡ record { count = pos n; err = none }
    → d.sync_error ≡ none
    → flush d s ≡ (
      flush_answer none (
          stored s
            (frames_of s.sequence s.batch)
            (add64 s.wal_bytes (length (frames_of s.sequence s.batch)))
            (add64 s.groups 1)
            (add64 s.durable_votes s.votes)
            (add64 s.durable_frames (length s.batch))),
      none,
    )
unfolding flush flush_sync flush_outcome
flush-whole d s n some_jobs room some_bytes size wrote synced =
    rw (==_ne (length s.batch) 0 some_jobs) (
      rw (le→ltb-false (2 ^ 63 - 1 - s.sequence) (length s.batch) room) (
        rw
          (sync_group-whole d (frames_of s.sequence s.batch) (record s { ticking = false }) n
            some_bytes size wrote synced)
          refl))

fill-full :
    (c : Config) (d : Disk) (s : Store)
    → leb c.batch_size s.votes ≡ true
    → fill c d s ≡ or_drain d (flush d s)
unfolding fill
fill-full c d s full = rw full refl

settle-room :
    (c : Config) (d d' : Disk) (j : Job) (s : Store)
    → ltb c.batch_size (s.votes + j.count) ≡ false
    → settle c d d' j s ≡ fill c d' (join c j s)
unfolding settle
settle-room c d d' j s room =
    let after : Store × Option StoreError → Store = λ o. elim o.1 [
      | some x ↦ drain_failure d x (j ∷ []) (o.0)
      | none ↦ fill c d' (join c j (o.0))
    ] in
    ap (λ b. after (if b then flush d s else (s, none))) room

-- A job that fills the batch is joined and the batch flushed.
pub settle-whole :
    (c : Config) (d d' : Disk) (j : Job) (s t : Store)
    → ltb c.batch_size (s.votes + j.count) ≡ false
    → leb c.batch_size (join c j s).votes ≡ true
    → flush d' (join c j s) ≡ (t, none)
    → settle c d d' j s ≡ t
unfolding or_drain
settle-whole c d d' j s t room full flushed =
    settle-room c d d' j s room ∙ fill-full c d' (join c j s) full ∙ ap (or_drain d') flushed

flush-nothing : (d : Disk) (s : Store) → length s.batch ≡ 0 → flush d s ≡ (s, none)
unfolding flush
flush-nothing d s empty = rw empty refl

-- Sealing on an empty batch.
pub finish-whole :
    (d d' : Disk) (s t : Store)
    → length s.batch ≡ 0
    → s.seal_requested ≡ true
    → d'.close_error ≡ none
    → sync_group d' (finish_frame (zeros 40) s.sequence 2 0) s ≡ (t, none)
    → finish d d' s ≡ record t {
      manifest = record { partition = 0; offset = s.sequence } ∷ [];
      pending = none;
      ticking = false;
      finished = true;
    }
unfolding finish seal_file end_run
finish-whole d d' s t empty sealing closed synced =
    let sealed : seal_file d' s
        ≡ record t { manifest = record { partition = 0; offset = s.sequence } ∷ [] } =
      ap
        (λ (o : Store × Option StoreError). elim o.1 as (λ _. Store) [
          | some x ↦ (fail x (o.0)).0
          | none ↦ record o.0 { manifest = record { partition = 0; offset = s.sequence } ∷ [] }
        ])
        synced in
    ap
      (λ (o : Store × Option StoreError). end_run d' (elim o.1 [
        | some x ↦ o.0
        | none ↦ if (o.0).seal_requested then seal_file d' (o.0) else o.0
      ]))
      (flush-nothing d s empty)
    ∙ ap (λ b. end_run d' (if b then seal_file d' s else s)) sealing
    ∙ ap (end_run d') sealed
    ∙ rw closed refl
