-- ===== src/Filelog/Store/Calls.antt =====
-- The invariant of the store: the calls of its clients, the writer's other steps, and all runs.
use gigaquizz.Common.{
  ℕ, ◌+◌, ◌≡◌, inl, refl, sym, ap, ap₂, subst, ◌∙◌, true, List, [], ◌∷◌, ◌++◌, Option, none, some,
  if◌then◌else◌, if_cases, option_cases, length, All, arith, take,
}
use gigaquizz.Common.Bytes.{Bytes, zeros}
use gigaquizz.Common.Total.{sum_of-append}
use gigaquizz.Filelog.Types.{Config, Input, FrameReceipt, PartitionEnd, valid}
use gigaquizz.Filelog.Codec.{file_header, finish_frame}
use gigaquizz.Filelog.Codec.Opening.{length-file_header}
use gigaquizz.Filelog.Codec.Frames.{closed_frame}
use gigaquizz.Filelog.Scan.Journal.{Batch, journal_bytes}
use gigaquizz.Filelog.Store.{
  StoreError, Job, Answer, Store, Moment, new, fail, stop_queue, submit_frame, awaited, begin_seal,
}
use gigaquizz.Filelog.Store.Submit.{TypedInput, valid_inputs-IsInput, job_of, submit_frame_cases}
use gigaquizz.Filelog.Store.Writer.{Disk, flush_answer, receive, tick, seal_file, end_run, finish}
use gigaquizz.Filelog.Store.Writer.Branches.{sync_group_cases, flush_cases}
use gigaquizz.Filelog.Store.Writer.Frames.{Log, Noted, IsJob, finish_frame-closed_frame}
use gigaquizz.Filelog.Store.Invariant.{
  waiting_of, SomeJob, Charged, Over, Tail, barrier, sealed, running, over, StoreInv,
}
use gigaquizz.Filelog.Store.Receipts.{All-append}
use gigaquizz.Filelog.Store.Ending.{fail_cases, end_run_cases}
use gigaquizz.Filelog.Store.Flushing.{failed-Over, torn-Tail}
use gigaquizz.Filelog.Store.Steps.{
  Going, StoreInv-Going, flush_answer-Going, flushed_or_drained, settle-StoreInv,
}
use gigaquizz.Filelog.Store.Machine.{
  Step, submits, awaits, seals, closes, receives, settles, ticks, finishes, queued_frame, entered,
}
use mathlib.Core.List.{append_assoc, append-nil}

-- Frames under consecutive tickets are noted.
abbrev pub NotedAll : Log → ℕ → List Batch → Type 0
NotedAll log ticket [] = Unit {0}
NotedAll log ticket (b ∷ bs) = Noted log ticket b × NotedAll log (ticket + 1) bs

abbrev batch_of : Moment → List Input → Batch
batch_of m inputs = record { inputs = inputs; admitted = m.now }

module _ (c : Config) (log : Log) where
  submits-StoreInv :
      (m : Moment) (inputs : List Input) (s : Store)
      → All TypedInput inputs
      → NotedAll log s.tickets (queued_frame (submit_frame c m inputs s).1 (batch_of m inputs))
      → StoreInv c log s
      → StoreInv c log (submit_frame c m inputs s).0
  submits-StoreInv m inputs s t logged i =
      let ch = i.charged in
      submit_frame_cases
        (λ o. NotedAll log s.tickets (queued_frame o.1 (batch_of m inputs)) → StoreInv c log (o.0))
        c m inputs s (λ e _. i) (λ _. record { charged = i.charged; phase = i.phase })
        (λ _. record { charged = i.charged; phase = i.phase })
        (λ a noted.
          let j = job_of m inputs s in
          let b : Batch = record { inputs = inputs; admitted = m.now } in
          let job : IsJob c log j b = record {
            data_ = refl;
            count = refl;
            admitted = refl;
            batch = record {
              some_votes = a.some_votes;
              few_votes = a.few_votes;
              inputs = valid_inputs-IsInput c inputs t a.inputs_ok;
              window = a.window;
            };
            fits = a.fits;
            noted = noted.0;
          } in
          record {
            charged = record {
              jobs = All-append (SomeJob c log) s.queue (j ∷ []) ch.jobs ((b, job), tt);
              waiting_jobs = ch.waiting_jobs;
              charged =
                  omega (arith, ch.charged, sum_of-append (λ (j : Job). j.count) s.queue (j ∷ []));
              within = a.room;
            };
            phase = i.phase;
          })
        logged

  awaits-StoreInv :
      (count : ℕ) (a : Option Answer) (s : Store)
      → StoreInv c log s
      → StoreInv c log (awaited count a s).0
  unfolding awaited
  awaits-StoreInv count none s i = record { charged = i.charged; phase = i.phase }
  awaits-StoreInv count (some a) s i =
      option_cases (λ (o : Store × FrameReceipt × Option StoreError). StoreInv c log (o.0)) a.err _
        _ (λ _. record { charged = i.charged; phase = i.phase })
        (λ _ _. record { charged = i.charged; phase = i.phase })

  seals-StoreInv : (s : Store) → StoreInv c log s → StoreInv c log (begin_seal s)
  unfolding begin_seal stop_queue
  seals-StoreInv s i =
      if_cases (StoreInv c log) s.queue_closed _ _ (λ _. i)
        (λ _. record { charged = i.charged; phase = i.phase })

  receives-StoreInv : (s : Store) → s.pending ≡ none → StoreInv c log s → StoreInv c log (receive s)
  unfolding receive
  receives-StoreInv s p i =
      let ch : Charged c log s.queue [] s.queued_votes =
        subst (λ o. Charged c log s.queue (waiting_of o) s.queued_votes) p i.charged in
      taken s.queue ch
    where
      taken :
          (q : List Job)
          → Charged c log q [] s.queued_votes
          → StoreInv c log (elim q [ [] ↦ s | j ∷ js ↦ record s { queue = js; pending = some j } ])
      taken [] ch = i
      taken (j ∷ js) ch = record {
        charged = record {
          jobs = ch.jobs.1;
          waiting_jobs = (ch.jobs.0, tt);
          charged = omega (arith, ch.charged);
          within = ch.within;
        };
        phase = i.phase;
      }

  end_run-StoreInv :
      (d : Disk) (s : Store)
      → Charged c log s.queue [] s.queued_votes
      → Over c log s.file s.answers s.manifest
      → StoreInv c log (end_run d s)
  end_run-StoreInv d s ch o =
      end_run_cases (StoreInv c log) d s (λ p a q. record { charged = ch; phase = over refl o })

  -- The barrier stands whole in the file and the manifest says so, or a part of it and there is no manifest.
  seal_file-Over :
      (d : Disk) (s : Store)
      → Going c log s
      → Charged c log s.queue [] s.queued_votes
      → (Q : Store → Type 0)
      → ((t : Store)
          → Charged c log t.queue [] t.queued_votes
          → Over c log t.file t.answers t.manifest
          → Q t)
      → Q (seal_file d s)
  unfolding seal_file stop_queue
  seal_file-Over d s g ch Q h =
      let r = g.journal in
      let bytes = finish_frame (zeros 40) s.sequence 2 0 in
      let bytes_are : bytes ≡ closed_frame (length r.flushed) =
        finish_frame-closed_frame s.sequence ∙ ap closed_frame r.sequence_is in
      let over_with : (file : Bytes) (m : List PartitionEnd)
          → Tail c r.flushed file m
          → Over c log file s.answers m =
        λ file m tail. record {
          flushed = r.flushed;
          good = r.good;
          few = r.few;
          answered = r.answered;
          tail = tail;
        } in
      sync_group_cases
        (λ (o : Store × Option StoreError). Q (elim o.1 [
          | some x ↦ (fail x (o.0)).0
          | none ↦ record o.0 { manifest = record { partition = 0; offset = s.sequence } ∷ [] }
        ]))
        d bytes s
        (λ w y. h _ ch (
          over_with _ _ (
            sealed
              (ap₂ (λ a b. a ++ b) r.file_is bytes_are
                ∙ append_assoc (file_header c) (journal_bytes 0 r.flushed) _)
              (ap (λ k. record { partition = 0; offset = k } ∷ []) r.sequence_is))))
        (λ k w y z e fits. fail_cases Q e _ (λ p. h _ ch (
          over_with _ _ (
            barrier k
              (ap₂ (λ a b. a ++ take k b) r.file_is bytes_are
                ∙ append_assoc (file_header c) (journal_bytes 0 r.flushed) _)
              g.unsealed))))

module _ (c : Config) (log : Log) (v : valid c ≡ true) where
  finishes-StoreInv :
      (d d' : Disk) (s : Store) → Going c log s → s.pending ≡ none → StoreInv c log (finish d d' s)
  unfolding finish flush_answer
  finishes-StoreInv d d' s g p =
      let alone : (t : Store)
          → t.pending ≡ none
          → Charged c log t.queue (waiting_of t.pending) t.queued_votes
          → Charged c log t.queue [] t.queued_votes =
        λ t q ch. subst (λ o. Charged c log t.queue (waiting_of o) t.queued_votes) q ch in
      flush_cases
        (λ (o : Store × Option StoreError). StoreInv c log (
          end_run d' (elim o.1 [
            | some x ↦ o.0
            | none ↦ if (o.0).seal_requested then seal_file d' (o.0) else o.0
          ])))
        d s g.clean (λ _. ending s g p)
        (λ w h vs fs room. ending _ (flush_answer-Going c log v s g w h vs fs room) p)
        (λ k w h y e fits room.
          end_run-StoreInv c log d' _ (alone s p g.charged)
            (failed-Over c log v s g.journal k e fits room g.unsealed))
    where
      idle : (t : Store) → Going c log t → Over c log t.file t.answers t.manifest
      idle t g = record {
        flushed = g.journal.flushed;
        good = g.journal.good;
        few = g.journal.few;
        answered = g.journal.answered;
        tail =
            subst (λ f. Tail c g.journal.flushed f t.manifest) (append-nil t.file)
              (torn-Tail c log v t g.journal 0 (omega arith) (inl refl) g.unsealed);
      }

      ending :
          (t : Store)
          → Going c log t
          → t.pending ≡ none
          → StoreInv c log (end_run d' (if t.seal_requested then seal_file d' t else t))
      ending t g q =
          let ch = subst (λ o. Charged c log t.queue (waiting_of o) t.queued_votes) q g.charged in
          if_cases (λ u. StoreInv c log (end_run d' u)) t.seal_requested _ _
            (λ _.
              seal_file-Over c log d' t g ch (λ u. StoreInv c log (end_run d' u))
                (λ u k o. end_run-StoreInv c log d' u k o))
            (λ _. end_run-StoreInv c log d' t ch (idle t g))

  -- Every call of a client and every step of the writer keeps the invariant: the votes waiting in the
  -- queue are what the store has charged and within its capacity; while the writer runs the file is
  -- its header and the flushed frames, all synced, and nothing else; and every answer without an
  -- error is the receipt of a flushed frame. Where there is a log of what SubmitFrame queues, in which
  -- the step enters its frame under the next ticket, the answer's ticket names that same frame in it.
  pub Step-StoreInv :
      (s d : Store) (step : Step c s d)
      → NotedAll log s.tickets (entered step)
      → StoreInv c log s
      → StoreInv c log d
  unfolding tick stop_queue
  Step-StoreInv s d (submits m inputs t e) logged i =
      subst (StoreInv c log) (sym e) (submits-StoreInv c log m inputs s t logged i)
  Step-StoreInv s d (awaits count a e) logged i =
      subst (StoreInv c log) (sym e) (awaits-StoreInv c log count a s i)
  Step-StoreInv s d (seals e) logged i = subst (StoreInv c log) (sym e) (seals-StoreInv c log s i)
  Step-StoreInv s d (closes e) logged i =
      subst (StoreInv c log) (sym e) (record { charged = i.charged; phase = i.phase })
  Step-StoreInv s d (receives f p e) logged i =
      subst (StoreInv c log) (sym e) (receives-StoreInv c log s p i)
  Step-StoreInv s d (settles w w' j f p e) logged i =
      subst (StoreInv c log) (sym e)
        (settle-StoreInv c log v w w' j s (StoreInv-Going c log s i f) p)
  Step-StoreInv s d (ticks w f p t e) logged i =
      subst (StoreInv c log) (sym e) (flushed_or_drained c log v w s (StoreInv-Going c log s i f) p)
  Step-StoreInv s d (finishes w w' f p q empty e) logged i =
      subst (StoreInv c log) (sym e) (finishes-StoreInv w w' s (StoreInv-Going c log s i f) p)

  -- The store that New makes of a valid configuration satisfies the invariant.
  pub new-StoreInv : length c.poll_id ≡ 16 → StoreInv c log (new c)
  unfolding new journal_bytes
  new-StoreInv id = record {
    charged = record { jobs = tt; waiting_jobs = tt; charged = refl; within = omega arith };
    phase = running refl refl refl (record {
      flushed = [];
      good = tt;
      few = omega arith;
      sequence_is = refl;
      file_is = sym (append-nil (file_header c));
      synced_is = sym (length-file_header c id);
      answered = tt;
      batched = [];
      carry = tt;
      votes_is = refl;
      votes_fit = omega arith;
    });
  }
