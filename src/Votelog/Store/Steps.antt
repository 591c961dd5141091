-- ===== src/Votelog/Store/Steps.antt =====
-- A job on its way through `run` keeps what holds of the writer.
use gigaquizz.Common.{
  ℕ, ◌+◌, ◌-◌, ◌≤◌, ◌≡◌, inl, inr, refl, ap, ◌∙◌, subst, Bool, true, false, List, [], ◌∷◌, ◌++◌,
  All, arith, if_cases, ltb, ltb-false, Bool-cases,
}
use gigaquizz.Common.Bytes.{Bytes}
use gigaquizz.Common.Total.{sum_of-append}
use gigaquizz.Votelog.{Config}
use gigaquizz.Votelog.Store.{Pending, size, Answer, Writer, lost}
use gigaquizz.Votelog.Store.Run.{
  Broker, errors_of, flush_batch, join_batch, join_flushed, append_job, end_run,
}
use gigaquizz.Votelog.Store.Books.{
  one, in_pending, votes, Placed, Books, All-append, in_answers-errors_of, errors-Acked,
}
use gigaquizz.Votelog.Store.Flushing.{Same, WriterInv, Effect, flush_batch-Emptied}

module _ (loopback : Bytes → Bool) (c : Config) (broker : ℕ → Broker) where
  pub Same-refl : (w : Writer) → Same w w
  Same-refl w = record {
    issued = refl;
    sealed = refl;
    seal_requested = refl;
    done = refl;
    grows = λ x h. h;
  }

  pub Same-trans : (w d e : Writer) → Same w d → Same d e → Same w e
  Same-trans w d e s t = record {
    issued = t.issued ∙ s.issued;
    sealed = t.sealed ∙ s.sealed;
    seal_requested = t.seal_requested ∙ s.seal_requested;
    done = t.done ∙ s.done;
    grows = λ x h. t.grows x (s.grows x h);
  }

  then_Effect :
      (held : List Pending) (w d e : Writer)
      → d.jobs ≡ w.jobs
      → Same w d
      → Effect loopback c held d e
      → Effect loopback c held w e
  then_Effect held w d e j s t = record {
    inv = t.inv;
    jobs_same = t.jobs_same ∙ j;
    same = Same-trans w d e s t.same;
  }

  -- `p` has left the queue and not yet joined the batch.
  joined : Pending → Writer → Writer
  joined p w = record w {
    queued_votes = w.queued_votes - size p;
    batch = w.batch ++ p ∷ [];
    batch_votes = w.batch_votes + size p;
  }

  joined-Books :
      (p : Pending) (w : Writer)
      → Books loopback c w.issued (p ∷ []) w.batch w.jobs w.answers w.log
      → Books loopback c w.issued [] (w.batch ++ p ∷ []) w.jobs w.answers w.log
  joined-Books p w b = record {
    tallied = λ t.
        omega
          (arith, b.tallied t, sum_of-append (λ (q : Pending). one t q.ticket) w.batch (p ∷ []));
    batch_placed = All-append (Placed w.issued) w.batch (p ∷ []) b.batch_placed b.held_placed;
    jobs_placed = b.jobs_placed;
    held_placed = tt;
    acked = b.acked;
  }

  joined-WriterInv :
      (p : Pending) (w : Writer)
      → WriterInv loopback c (p ∷ []) w
      → w.batch_votes + size p ≤ c.batch_size
      → WriterInv loopback c [] (joined p w)
  unfolding joined
  joined-WriterInv p w i room = record {
    books = joined-Books p w i.books;
    charged = omega (arith, i.charged);
    within = omega (arith, i.within);
    batch_is = omega (arith, i.batch_is, sum_of-append size w.batch (p ∷ []));
    fits = room;
    jobs_fit = i.jobs_fit;
    held_fit = tt;
  }

  join_batch-Effect :
      (p : Pending) (w : Writer)
      → WriterInv loopback c (p ∷ []) w
      → w.batch_votes + size p ≤ c.batch_size
      → Effect loopback c [] w (join_batch loopback c broker p w).0
  unfolding join_batch joined
  join_batch-Effect p w i room =
      let s : Same w (joined p w) = record {
        issued = refl;
        sealed = refl;
        seal_requested = refl;
        done = refl;
        grows = λ x h. h;
      } in
      let inv = joined-WriterInv p w i room in
      if_cases (λ (r : Writer × Bool). Effect loopback c [] w r.0)
        (ltb (w.batch_votes + size p) c.batch_size) _ _
        (λ _. record { inv = inv; jobs_same = refl; same = s })
        (λ _.
          then_Effect [] w (joined p w) _ refl s
            (flush_batch-Emptied loopback c broker [] (joined p w) inv).effect)

  -- A job in hand that is given up.
  given_up :
      (p : Pending) (w : Writer)
      → WriterInv loopback c (p ∷ []) w
      → Books loopback c w.issued [] w.batch w.jobs (w.answers ++ errors_of lost (p ∷ [])) w.log
  given_up p w i = record {
    tallied = λ t. omega (
      arith,
      i.books.tallied t,
      in_answers-errors_of t lost (p ∷ []),
      sum_of-append (λ (a : Answer). one t a.ticket) w.answers (errors_of lost (p ∷ [])),
    );
    batch_placed = i.books.batch_placed;
    jobs_placed = i.books.jobs_placed;
    held_placed = tt;
    acked =
        All-append _ w.answers (errors_of lost (p ∷ [])) i.books.acked
          (errors-Acked loopback c w.issued w.log lost (p ∷ []));
  }

  given_up-WriterInv :
      (p : Pending) (w : Writer)
      → WriterInv loopback c (p ∷ []) w
      → WriterInv loopback c [] (record w { answers = w.answers ++ errors_of lost (p ∷ []) })
  given_up-WriterInv p w i = record {
    books = given_up p w i;
    charged = omega (arith, i.charged);
    within = i.within;
    batch_is = i.batch_is;
    fits = i.fits;
    jobs_fit = i.jobs_fit;
    held_fit = tt;
  }

  join_flushed-Effect :
      (p : Pending) (w : Writer) (o : Writer × Bool)
      → Effect loopback c (p ∷ []) w o.0
      → (o.1 ≡ true → o.0.batch_votes + size p ≤ c.batch_size)
      → Effect loopback c [] w (join_flushed loopback c broker p o).0
  unfolding join_flushed
  join_flushed-Effect p w (d, true) e room =
      then_Effect [] w d _ e.jobs_same e.same (join_batch-Effect p d e.inv (room refl))
  join_flushed-Effect p w (d, false) e room = record {
    inv = given_up-WriterInv p d e.inv;
    jobs_same = e.jobs_same;
    same = record {
      issued = e.same.issued;
      sealed = e.same.sealed;
      seal_requested = e.same.seal_requested;
      done = e.same.done;
      grows = e.same.grows;
    };
  }

  no_votes : (w : Writer) → WriterInv loopback c [] w → w.batch ≡ [] → w.batch_votes ≡ 0
  no_votes w i e = i.batch_is ∙ ap votes e

  pub append_job-Effect :
      (p : Pending) (w : Writer)
      → WriterInv loopback c (p ∷ []) w
      → Effect loopback c [] w (append_job loopback c broker p w).0
  unfolding append_job
  append_job-Effect p w i = elim (Bool-cases (ltb c.batch_size (w.batch_votes + size p))) [
    | inl full ↦
        let e = flush_batch-Emptied loopback c broker (p ∷ []) w i in
        let none_left = e.effect.inv.batch_is ∙ ap votes e.empty in
        rw full (
          join_flushed-Effect p w (flush_batch loopback c broker w) e.effect
            (λ _. omega (arith, none_left, i.held_fit.0)))
    | inr room ↦ rw room (
        join_flushed-Effect p w (w, true) (record { inv = i; jobs_same = refl; same = Same-refl w })
          (λ _. ltb-false c.batch_size _ room))
  ]

  -- A job in hand, out of the queue.
  pub taken_job :
      (p : Pending) (ps : List Pending) (w : Writer)
      → w.jobs ≡ p ∷ ps
      → WriterInv loopback c [] w
      → WriterInv loopback c (p ∷ []) (record w { jobs = ps })
  taken_job p ps w e i =
      let fit = subst (λ l. All (λ (p : Pending). size p ≤ c.batch_size) l) e i.jobs_fit in
      let placed = subst (λ l. All (Placed w.issued) l) e i.books.jobs_placed in
      record {
        books = record {
          tallied = λ t. omega (arith, i.books.tallied t, ap (in_pending t) e);
          batch_placed = i.books.batch_placed;
          jobs_placed = placed.1;
          held_placed = (placed.0, tt);
          acked = i.books.acked;
        };
        charged = omega (arith, i.charged, ap votes e);
        within = i.within;
        batch_is = i.batch_is;
        fits = i.fits;
        jobs_fit = fit.1;
        held_fit = (fit.0, tt);
      }

  pub end_run-WriterInv :
      (w : Writer)
      → WriterInv loopback c [] w
      → WriterInv loopback c [] (end_run loopback c broker w)
  unfolding end_run
  end_run-WriterInv w i =
      let more = errors_of lost w.batch ++ errors_of lost w.jobs in
      record {
        books = record {
          tallied = λ t. omega (
            arith,
            i.books.tallied t,
            sum_of-append (λ (a : Answer). one t a.ticket) w.answers more,
            sum_of-append (λ (a : Answer). one t a.ticket) (errors_of lost w.batch)
                (errors_of lost w.jobs),
            in_answers-errors_of t lost w.batch,
            in_answers-errors_of t lost w.jobs,
          );
          batch_placed = tt;
          jobs_placed = tt;
          held_placed = tt;
          acked = All-append _ w.answers more i.books.acked (
              All-append _ (errors_of lost w.batch) (errors_of lost w.jobs)
                (errors-Acked loopback c w.issued w.log lost w.batch)
                (errors-Acked loopback c w.issued w.log lost w.jobs));
        };
        charged = omega arith;
        within = i.within;
        batch_is = refl;
        fits = omega arith;
        jobs_fit = tt;
        held_fit = tt;
      }
