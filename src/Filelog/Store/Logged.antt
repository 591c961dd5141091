-- ===== src/Filelog/Store/Logged.antt =====
-- The tickets of a run number its submissions, so that the log of a run is a log of the invariant.
use gigaquizz.Common.{
  ℕ, ◌+◌, ◌≡◌, refl, sym, ap, subst, ◌∙◌, true, ◌||◌, List, [], ◌∷◌, ◌++◌, Option, none, some, ltb,
  leb, ◌==◌, if◌then◌else◌, if_cases, option_cases, length, length-append, arith,
}
use gigaquizz.Filelog.Types.{Config, FrameReceipt, valid}
use gigaquizz.Filelog.Codec.{finish_frame}
use gigaquizz.Common.Bytes.{zeros}
use gigaquizz.Filelog.Scan.Journal.{Batch}
use gigaquizz.Filelog.Store.{
  StoreError, Job, Store, new, fail, stop_queue, awaited, begin_seal, release,
}
use gigaquizz.Filelog.Store.Submit.{submit_frame_cases}
use gigaquizz.Filelog.Store.Writer.{
  Disk, frames_of, flush, flush_answer, receive, tick, seal_file, end_run, finish, drain_failure,
  or_drain, fill, join, settle,
}
use gigaquizz.Filelog.Store.Writer.Branches.{sync_group_cases, flush_cases, stored}
use gigaquizz.Filelog.Store.Invariant.{StoreInv}
use gigaquizz.Filelog.Store.Receipts.{get_elem?-at_length}
use gigaquizz.Filelog.Store.Ending.{drain-drained, drained, emptied, fail_cases, end_run_cases}
use gigaquizz.Filelog.Store.Steps.{StoreInv-Going}
use gigaquizz.Filelog.Store.Calls.{NotedAll, Step-StoreInv, new-StoreInv}
use gigaquizz.Filelog.Store.Machine.{
  Step, submits, awaits, seals, closes, receives, settles, ticks, finishes, Reach, here, next,
  queued_frame, entered, submissions,
}
use mathlib.Core.List.{append_assoc, append-nil}

module _ (c : Config) (n : ℕ) where
  abbrev Same : Store → Type 0
  Same s = s.tickets ≡ n

  -- What a flush leaves, and an error of the flush.
  flush-Same : (d : Disk) (s : Store) → s.poison ≡ none → Same s → Same (flush d s).0
  unfolding flush_answer
  flush-Same d s clean h =
      flush_cases (λ o. Same (o.0)) d s clean (λ _. h) (λ w g v f room. h)
        (λ k w g y p fits room. h)

  end_run-Same : (d : Disk) (s : Store) → Same s → Same (end_run d s)
  end_run-Same d s h = end_run_cases Same d s (λ p a q. h)

  drain_failure-Same :
      (d : Disk) (e : StoreError) (js : List Job) (s : Store)
      → Same s
      → Same (drain_failure d e js s)
  unfolding drain_failure
  drain_failure-Same d e js s h =
      subst (λ t. Same (end_run d t)) (sym (drain-drained e (js ++ s.queue) s))
        (end_run-Same d (emptied s _ (drained e (js ++ s.queue))) h)

  or_drain-Same : (d : Disk) (o : Store × Option StoreError) → Same (o.0) → Same (or_drain d o)
  unfolding or_drain
  or_drain-Same d (s, none) h = h
  or_drain-Same d (s, some e) h = drain_failure-Same d e [] s h

  fill-Same : (d : Disk) (s : Store) → s.poison ≡ none → Same s → Same (fill c d s)
  unfolding fill
  fill-Same d s clean h =
      if_cases Same (leb c.batch_size s.votes || c.linger == 0) _ _
        (λ _. or_drain-Same d (flush d s) (flush-Same d s clean h)) (λ _. h)

  settle-Same :
      (d d' : Disk) (j : Job) (s : Store) → s.poison ≡ none → Same s → Same (settle c d d' j s)
  unfolding settle join release flush_answer
  settle-Same d d' j s clean h =
      let Q : Store × Option StoreError → Type 0 = λ o. Same (elim o.1 [
        | some x ↦ drain_failure d x (j ∷ []) (o.0)
        | none ↦ fill c d' (join c j (o.0))
      ]) in
      if_cases Q (ltb c.batch_size (s.votes + j.count)) _ _
        (λ _.
          flush_cases Q d s clean (λ _. fill-Same d' (join c j s) clean h)
            (λ w g v f room. fill-Same d' _ clean h)
            (λ k w g y p fits room. drain_failure-Same d p (j ∷ []) _ h))
        (λ _. fill-Same d' (join c j s) clean h)

  seal_file-Same : (d : Disk) (s : Store) → Same s → Same (seal_file d s)
  unfolding seal_file stop_queue
  seal_file-Same d s h =
      sync_group_cases
        (λ (o : Store × Option StoreError). Same (elim o.1 [
          | some x ↦ (fail x (o.0)).0
          | none ↦ record o.0 { manifest = record { partition = 0; offset = s.sequence } ∷ [] }
        ]))
        d (finish_frame (zeros 40) s.sequence 2 0) s (λ w g. h)
        (λ k w g y e fits. fail_cases Same e _ (λ p. h))

  finish-Same : (d d' : Disk) (s : Store) → s.poison ≡ none → Same s → Same (finish d d' s)
  unfolding finish flush_answer
  finish-Same d d' s clean h =
      flush_cases
        (λ (o : Store × Option StoreError). Same (
          end_run d' (elim o.1 [
            | some x ↦ o.0
            | none ↦ if (o.0).seal_requested then seal_file d' (o.0) else o.0
          ])))
        d s clean (λ _. ending s h)
        (λ w g v f room.
          ending (flush_answer none (stored s (frames_of s.sequence s.batch) w g v f)) h)
        (λ k w g y p fits room. end_run-Same d' _ h)
    where
      ending :
          (t : Store) → Same t → Same (end_run d' (if t.seal_requested then seal_file d' t else t))
      ending t k =
          if_cases (λ u. Same (end_run d' u)) t.seal_requested _ _
            (λ _. end_run-Same d' _ (seal_file-Same d' t k)) (λ _. end_run-Same d' t k)

-- A step counts up the tickets by the frames that it queues.
Step-tickets :
    (c : Config) (s d : Store) (step : Step c s d)
    → StoreInv c none s
    → d.tickets ≡ s.tickets + length (entered step)
unfolding awaited begin_seal stop_queue receive tick
Step-tickets c s d (submits m inputs t e) i =
    ap (λ (s : Store). s.tickets) e
    ∙ submit_frame_cases
        (λ o.
          (o.0).tickets
          ≡ s.tickets + length (queued_frame o.1 (record { inputs = inputs; admitted = m.now })))
        c m inputs s (λ x. omega arith) (omega arith) (omega arith) (λ a. refl)
Step-tickets c s d (awaits count none e) i = ap (λ (s : Store). s.tickets) e ∙ omega arith
Step-tickets c s d (awaits count (some a) e) i =
    ap (λ (s : Store). s.tickets) e
    ∙ option_cases (λ (o : Store × FrameReceipt × Option StoreError). (o.0).tickets ≡ s.tickets + 0)
        a.err _ _ (λ _. omega arith) (λ _ _. omega arith)
Step-tickets c s d (seals e) i =
    ap (λ (s : Store). s.tickets) e
    ∙ if_cases (λ (t : Store). t.tickets ≡ s.tickets + 0) s.queue_closed _ _ (λ _. omega arith)
        (λ _. omega arith)
Step-tickets c s d (closes e) i = ap (λ (s : Store). s.tickets) e ∙ omega arith
Step-tickets c s d (receives f p e) i = ap (λ (s : Store). s.tickets) e ∙ taken s.queue
  where
    taken :
        (q : List Job)
        → (elim q as (λ _. Store) [
          | [] ↦ s
          | j ∷ js ↦ record s { queue = js; pending = some j }
        ]).tickets
          ≡ s.tickets + 0
    taken [] = omega arith
    taken (j ∷ js) = omega arith
Step-tickets c s d (settles w w' j f p e) i =
    ap (λ (s : Store). s.tickets) e
    ∙ settle-Same c s.tickets w w' j s (StoreInv-Going c none s i f).clean refl
    ∙ omega arith
Step-tickets c s d (ticks w f p t e) i =
    ap (λ (s : Store). s.tickets) e
    ∙ or_drain-Same c s.tickets w (flush w s)
        (flush-Same c s.tickets w s (StoreInv-Going c none s i f).clean refl)
    ∙ omega arith
Step-tickets c s d (finishes w w' f p q empty e) i =
    ap (λ (s : Store). s.tickets) e
    ∙ finish-Same c s.tickets w w' s (StoreInv-Going c none s i f).clean refl
    ∙ omega arith

no_log : (ticket : ℕ) (bs : List Batch) → NotedAll none ticket bs
no_log ticket [] = tt
no_log ticket (b ∷ bs) = (tt, no_log (ticket + 1) bs)

log_at : (before bs more : List Batch) → NotedAll (some (before ++ (bs ++ more))) (length before) bs
log_at before [] more = tt
log_at before (b ∷ bs) more =
    let rest : NotedAll (some (before ++ b ∷ (bs ++ more))) (length (before ++ b ∷ [])) bs =
      subst (λ l. NotedAll (some l) (length (before ++ b ∷ [])) bs)
        (append_assoc before (b ∷ []) (bs ++ more)) (log_at (before ++ b ∷ []) bs more) in
    (
      get_elem?-at_length before (bs ++ more) b,
      subst (λ n. NotedAll (some (before ++ b ∷ (bs ++ more))) n bs) (length-append before (b ∷ []))
          rest,
    )

module _ (c : Config) (v : valid c ≡ true) (id : length c.poll_id ≡ 16) where
  plain : {s : Store} → Reach c (new c) s → StoreInv c none s
  plain here = new-StoreInv c none v id
  plain {s = t} (next {t = s} r step) =
      Step-StoreInv c none v s t step (no_log s.tickets (entered step)) (plain r)

  numbered : {s : Store} (r : Reach c (new c) s) → length (submissions r) ≡ s.tickets
  unfolding new
  numbered here = refl
  numbered {s = t} (next {t = s} r step) = omega (
    arith,
    length-append (submissions r) (entered step),
    numbered r,
    Step-tickets c s t step (plain r),
  )

  -- The invariant of a store that a run reaches, with the run's submissions as the log.
  logged :
      {s : Store} (r : Reach c (new c) s) (more : List Batch)
      → StoreInv c (some (submissions r ++ more)) s
  logged here more = new-StoreInv c (some more) v id
  logged {s = t} (next {t = s} r step) more =
      subst (λ l. StoreInv c (some l) t) (sym (append_assoc (submissions r) (entered step) more))
        (Step-StoreInv c (some (submissions r ++ (entered step ++ more))) v s t step
          (subst (λ k. NotedAll (some (submissions r ++ (entered step ++ more))) k (entered step))
            (numbered r) (log_at (submissions r) (entered step) more))
          (logged r (entered step ++ more)))

  pub Reach-StoreInv : {s : Store} (r : Reach c (new c) s) → StoreInv c (some (submissions r)) s
  Reach-StoreInv {s} r =
      subst (λ l. StoreInv c (some l) s) (append-nil (submissions r)) (logged r [])
