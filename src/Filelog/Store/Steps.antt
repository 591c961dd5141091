-- ===== src/Filelog/Store/Steps.antt =====
-- The invariant of the store is kept by every step.
use gigaquizz.Common.{
  ℕ, ◌+◌, ◌-◌, ◌^◌, ◌≤◌, ◌≡◌, refl, ap, subst, ◌∙◌, true, false, ◌||◌, List, [], ◌∷◌, ◌++◌, Option,
  none, some, ltb, leb, ltb-false, ◌==◌, if_cases, length, arith,
}
use gigaquizz.Common.Total.{sum_of-append}
use gigaquizz.Filelog.Types.{Config, valid}
use gigaquizz.Filelog.Store.{StoreError, Job, Store, release}
use gigaquizz.Filelog.Store.Writer.{
  Disk, frames_of, flush_answer, flush, drain_failure, join, or_drain, fill, settle,
}
use gigaquizz.Filelog.Store.Writer.Branches.{flush_cases, stored}
use gigaquizz.Filelog.Store.Writer.Frames.{Log, Carry-snoc}
use gigaquizz.Filelog.Store.Invariant.{
  counts, waiting_of, Charged, Running, running, over, StoreInv,
}
use gigaquizz.Filelog.Store.Ending.{drain_failure-StoreInv}
use gigaquizz.Filelog.Store.Flushing.{flushed-Running, failed-Over}

-- The invariant while the writer runs.
pub record Going (c : Config) (log : Log) (s : Store) : Type 0 where
  pub charged : Charged c log s.queue (waiting_of s.pending) s.queued_votes
  pub unfinished : s.finished ≡ false
  pub clean : s.poison ≡ none
  pub unsealed : s.manifest ≡ []
  pub journal : Running c log s.batch s.votes s.sequence s.file s.synced s.answers

pub StoreInv-Going :
    (c : Config) (log : Log) (s : Store) → StoreInv c log s → s.finished ≡ false → Going c log s
StoreInv-Going c log s i f = elim i.phase [
  | running f' p m r ↦ record {
    charged = i.charged;
    unfinished = f;
    clean = p;
    unsealed = m;
    journal = r;
  }
  | over f' o ↦ absurd (ground (arith, f, f'))
]

pub Going-StoreInv : (c : Config) (log : Log) (s : Store) → Going c log s → StoreInv c log s
Going-StoreInv c log s g = record {
  charged = g.charged;
  phase = running g.unfinished g.clean g.unsealed g.journal;
}

-- Nobody waits once the pending job is none.
charged_alone :
    (c : Config) (log : Log) (s : Store)
    → Going c log s
    → s.pending ≡ none
    → s.queued_votes ≡ counts s.queue + counts []
charged_alone c log s g p = g.charged.charged ∙ ap (λ o. counts s.queue + counts (waiting_of o)) p

no_votes : (js : List Job) → length js ≡ 0 → counts js ≡ 0
no_votes [] h = refl
no_votes (j ∷ js) h = absurd (omega arith)

module _ (c : Config) (log : Log) (v : valid c ≡ true) where
  pub flush_answer-Going :
      (s : Store) (g : Going c log s) (w h vs fs : ℕ)
      → length s.batch ≤ 2 ^ 63 - 1 - s.sequence
      → Going c log (flush_answer none (stored s (frames_of s.sequence s.batch) w h vs fs))
  unfolding flush_answer
  flush_answer-Going s g w h vs fs room = record {
    charged = g.charged;
    unfinished = g.unfinished;
    clean = g.clean;
    unsealed = g.unsealed;
    journal = flushed-Running c log v s g.journal room;
  }

  pub flushed_or_drained :
      (d : Disk) (s : Store)
      → Going c log s
      → s.pending ≡ none
      → StoreInv c log (or_drain d (flush d s))
  unfolding or_drain flush_answer
  flushed_or_drained d s g p =
      flush_cases (λ o. StoreInv c log (or_drain d o)) d s g.clean (λ _. Going-StoreInv c log s g)
        (λ w h vs fs room. Going-StoreInv c log _ (flush_answer-Going s g w h vs fs room))
        (λ k w h y e fits room.
          drain_failure-StoreInv c log d e [] _ (charged_alone c log s g p)
            (failed-Over c log v s g.journal k e fits room g.unsealed))

  fill-StoreInv :
      (d : Disk) (s : Store) → Going c log s → s.pending ≡ none → StoreInv c log (fill c d s)
  unfolding fill
  fill-StoreInv d s g p =
      if_cases (StoreInv c log) (leb c.batch_size s.votes || c.linger == 0) _ _
        (λ _. flushed_or_drained d s g p) (λ _. Going-StoreInv c log s g)

  join-Going :
      (j : Job) (s : Store)
      → Going c log s
      → s.pending ≡ some j
      → s.votes + j.count ≤ c.batch_size
      → Going c log (join c j s)
  unfolding join release
  join-Going j s g p fits =
      let ch : Charged c log s.queue (j ∷ []) s.queued_votes =
        subst (λ o. Charged c log s.queue (waiting_of o) s.queued_votes) p g.charged in
      let r = g.journal in
      let (b, job) = ch.waiting_jobs.0 in
      record {
        charged = record {
          jobs = ch.jobs;
          waiting_jobs = tt;
          charged = omega (arith, ch.charged);
          within = omega (arith, ch.within);
        };
        unfinished = g.unfinished;
        clean = g.clean;
        unsealed = g.unsealed;
        journal = record {
          flushed = r.flushed;
          good = r.good;
          few = r.few;
          sequence_is = r.sequence_is;
          file_is = r.file_is;
          synced_is = r.synced_is;
          answered = r.answered;
          batched = r.batched ++ b ∷ [];
          carry = Carry-snoc c log s.batch r.batched j b r.carry job;
          votes_is =
              omega (arith, r.votes_is, sum_of-append (λ (j : Job). j.count) s.batch (j ∷ []));
          votes_fit = fits;
        };
      }

  pub settle-StoreInv :
      (d d' : Disk) (j : Job) (s : Store)
      → Going c log s
      → s.pending ≡ some j
      → StoreInv c log (settle c d d' j s)
  unfolding settle flush_answer join
  settle-StoreInv d d' j s g p =
      let ch : Charged c log s.queue (j ∷ []) s.queued_votes =
        subst (λ o. Charged c log s.queue (waiting_of o) s.queued_votes) p g.charged in
      let Q : Store × Option StoreError → Type 0 = λ o. StoreInv c log (elim o.1 [
        | some x ↦ drain_failure d x (j ∷ []) (o.0)
        | none ↦ fill c d' (join c j (o.0))
      ]) in
      let one : j.count ≤ c.batch_size = ch.waiting_jobs.0.1.fits in
      let goes : (t : Store)
          → Going c log t
          → t.pending ≡ some j
          → t.votes + j.count ≤ c.batch_size
          → StoreInv c log (fill c d' (join c j t)) =
        λ t h q fits. fill-StoreInv d' (join c j t) (join-Going j t h q fits) refl in
      if_cases Q (ltb c.batch_size (s.votes + j.count)) _ _
        (λ _.
          flush_cases Q d s g.clean
            (λ empty. goes s g p (omega (arith, g.journal.votes_is, no_votes s.batch empty, one)))
            (λ w h vs fs room.
              goes _ (flush_answer-Going s g w h vs fs room) p (omega (arith, one)))
            (λ k w h y e fits room.
              drain_failure-StoreInv c log d e (j ∷ []) _ ch.charged
                (failed-Over c log v s g.journal k e fits room g.unsealed)))
        (λ room. goes s g p (ltb-false c.batch_size (s.votes + j.count) room))
