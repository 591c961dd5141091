-- ===== src/Votelog/Store/Sealing.antt =====
-- The steps of the machine.
use gigaquizz.Common.{
  ℕ, ◌≡◌, refl, ◌∙◌, subst, Bool, true, false, List, [], ◌∷◌, Option, none, some,
}
use gigaquizz.Common.Bytes.{Bytes}
use gigaquizz.Votelog.{Config}
use gigaquizz.Votelog.Store.{Failure, Pending, Entry, Counters, Writer}
use gigaquizz.Votelog.Store.Run.{
  Broker, flush_batch, append_job, end_run, go_on, append_jobs, closed_message, close_log, seal_log,
  transact, fail, before_end, outcome_of,
}
use gigaquizz.Votelog.Store.Books.{In, Acked, All-map, InLog-grow}
use gigaquizz.Votelog.Store.Flushing.{
  outcome_of-Grown, Same, WriterInv, flush_batch-Emptied, get_elem?-nil,
}
use gigaquizz.Votelog.Store.Steps.{
  Same-refl, Same-trans, append_job-Effect, taken_job, end_run-WriterInv,
}
use mathlib.Core.List.{append-nil}

-- A sealed writer has nothing left to do.
pub record Quiet (w : Writer) : Type 0 where
  pub no_jobs : w.jobs ≡ []
  pub no_batch : w.batch ≡ []
  pub no_request : w.seal_requested ≡ false

-- What holds of a writer between the steps.
pub record Live (loopback : Bytes → Bool) (c : Config) (w : Writer) : Type 0 where
  pub inv : WriterInv loopback c [] w
  pub quiet : w.sealed ≡ true → Quiet w
  pub over : w.done ≡ true → w.batch ≡ []

module _ (loopback : Bytes → Bool) (c : Config) (broker : ℕ → Broker) where
  -- The jobs that are drained before the barrier.
  pub record Drained (w d : Writer) (ok : Bool) : Type 0 where
    pub inv : WriterInv loopback c [] d
    pub same : Same w d
    pub no_jobs : ok ≡ true → d.jobs ≡ []

  rebase : (w d : Writer) (ps : List Pending) → Same (record w { jobs = ps }) d → Same w d
  rebase w d ps s = record {
    issued = s.issued;
    sealed = s.sealed;
    seal_requested = s.seal_requested;
    done = s.done;
    grows = s.grows;
  }

  pub go_on-Drained :
      (w : Writer) (k : Writer → Writer × Bool) (o : Writer × Bool)
      → WriterInv loopback c [] o.0
      → Same w o.0
      → (o.1 ≡ true → Drained o.0 (k o.0).0 (k o.0).1)
      → Drained w (go_on loopback c broker k o).0 (go_on loopback c broker k o).1
  unfolding go_on
  go_on-Drained w k (d, true) i s rest =
      let r = rest refl in
      record {
        inv = r.inv;
        same = Same-trans loopback c broker w d (k d).0 s r.same;
        no_jobs = r.no_jobs;
      }
  go_on-Drained w k (d, false) i s rest = record { inv = i; same = s; no_jobs = λ h. cc }

  pub append_jobs-Drained :
      (ps : List Pending) (w : Writer)
      → w.jobs ≡ ps
      → WriterInv loopback c [] w
      → Drained w (append_jobs loopback c broker ps w).0 (append_jobs loopback c broker ps w).1
  unfolding append_jobs
  append_jobs-Drained [] w e i = record {
    inv = i;
    same = Same-refl loopback c broker w;
    no_jobs = λ _. e;
  }
  append_jobs-Drained (p ∷ ps) w e i =
      let o = append_job loopback c broker p (record w { jobs = ps }) in
      let f =
        append_job-Effect loopback c broker p (record w { jobs = ps })
          (taken_job loopback c broker p ps w e i) in
      go_on-Drained w (append_jobs loopback c broker ps) o f.inv (rebase w o.0 ps f.same)
        (λ _. append_jobs-Drained ps o.0 f.jobs_same f.inv)

  pub flushed-Drained :
      (w : Writer)
      → WriterInv loopback c [] w
      → w.jobs ≡ []
      → Drained w (flush_batch loopback c broker w).0 (flush_batch loopback c broker w).1
  flushed-Drained w i e =
      let f = (flush_batch-Emptied loopback c broker [] w i).effect in
      record { inv = f.inv; same = f.same; no_jobs = λ _. f.jobs_same ∙ e }

  -- A log that has grown keeps the books.
  grown-WriterInv :
      (w : Writer) (log : List Entry) (k : Counters)
      → WriterInv loopback c [] w
      → ((x : Entry) → In x w.log → In x log)
      → WriterInv loopback c [] (record w { log = log; counters = k })
  grown-WriterInv w log k i sub = record {
    books = record {
      tallied = i.books.tallied;
      batch_placed = i.books.batch_placed;
      jobs_placed = i.books.jobs_placed;
      held_placed = tt;
      acked =
          All-map _ _ w.answers
            (λ a h.
              subst (λ l. Acked loopback c l log a) (append-nil w.issued)
                (InLog-grow loopback c w.issued [] w.log log a sub (get_elem?-nil w.issued) h))
            i.books.acked;
    };
    charged = i.charged;
    within = i.within;
    batch_is = i.batch_is;
    fits = i.fits;
    jobs_fit = i.jobs_fit;
    held_fit = tt;
  }

  -- The barrier written or not: the books stand, and the call of `seal` is spent.
  pub record Closed (w d : Writer) : Type 0 where
    pub inv : WriterInv loopback c [] d
    pub no_request : d.seal_requested ≡ w.seal_requested
    pub issued_same : d.issued ≡ w.issued

  close_log-Closed :
      (e : Option Failure) (w : Writer)
      → WriterInv loopback c [] w
      → Closed w (close_log loopback c broker e w)
  unfolding close_log fail
  close_log-Closed none w i = record {
    inv = record {
      books = i.books;
      charged = i.charged;
      within = i.within;
      batch_is = i.batch_is;
      fits = i.fits;
      jobs_fit = i.jobs_fit;
      held_fit = tt;
    };
    no_request = refl;
    issued_same = refl;
  }
  close_log-Closed (some e) w i = record {
    inv = record {
      books = i.books;
      charged = i.charged;
      within = i.within;
      batch_is = i.batch_is;
      fits = i.fits;
      jobs_fit = i.jobs_fit;
      held_fit = tt;
    };
    no_request = refl;
    issued_same = refl;
  }

  pub seal_log-Closed :
      (w : Writer) (o : Writer × Bool) → Drained w o.0 o.1 → Closed w (seal_log loopback c broker o)
  unfolding seal_log transact
  seal_log-Closed w (d, false) r = record {
    inv = r.inv;
    no_request = r.same.seal_requested;
    issued_same = r.same.issued;
  }
  seal_log-Closed w (d, true) r =
      let b = broker d.turn in
      let ms = closed_message loopback c broker ∷ [] in
      let o = outcome_of false b ms d.log d.counters (before_end false b) in
      let g = outcome_of-Grown b ms d.log d.counters false (before_end false b) in
      let e =
        close_log-Closed o.err (record d { log = o.log; counters = o.counters })
          (grown-WriterInv d o.log o.counters r.inv g.old) in
      record {
        inv = e.inv;
        no_request = e.no_request ∙ r.same.seal_requested;
        issued_same = e.issued_same ∙ r.same.issued;
      }

  -- A run that ends leaves nothing behind.
  pub end_run-Live :
      (w : Writer)
      → WriterInv loopback c [] w
      → (w.sealed ≡ true → w.seal_requested ≡ false)
      → Live loopback c (end_run loopback c broker w)
  unfolding end_run
  end_run-Live w i q = record {
    inv = unfold end_run in end_run-WriterInv loopback c broker w i;
    quiet = λ h. record { no_jobs = refl; no_batch = refl; no_request = q h };
    over = λ _. refl;
  }
