-- ===== src/Votelog/Store/Progress.antt =====
-- Every step of the machine keeps what holds of the writer.
use gigaquizz.Common.{
  ℕ, suc, ◌+◌, ◌≤◌, ◌≡◌, refl, sym, ap, ◌∙◌, subst, Bool, true, false, List, [], ◌∷◌, ◌++◌, Option,
  length, arith, if_cases, ltb, leb, leb-false, ltb-false, Bool-cases, ◌||◌, inl, inr,
}
use gigaquizz.Common.Bytes.{Bytes}
use gigaquizz.Votelog.{Config, Input, Vote, no_vote}
use gigaquizz.Votelog.Store.{
  StoreError, Pending, size, Writer, Submitted, begin_seal, enqueue, submit_locked,
  submit_frame_locked, stamped, jobs_full,
}
use gigaquizz.Votelog.Store.Run.{
  Broker, flush, flush_batch, or_fail, append_job, end_run, unless_ended, take_from, take_job, tick,
  go_on, append_jobs, seal_run,
}
use gigaquizz.Votelog.Store.Machine.{
  Step, submits, submits_frame, seals, takes, ticks, seals_log, stops,
}
use gigaquizz.Votelog.Store.Books.{Books}
use gigaquizz.Votelog.Store.Flushing.{Same, WriterInv, flush_batch-Emptied}
use gigaquizz.Votelog.Store.Steps.{append_job-Effect, taken_job}
use gigaquizz.Votelog.Store.Calls.{
  Submission, declined, accepted, when_open-Submission, enqueue-WriterInv,
}
use gigaquizz.Votelog.Store.Sealing.{
  Live, go_on-Drained, append_jobs-Drained, flushed-Drained, seal_log-Closed, end_run-Live,
}
use mathlib.Core.List.{append-nil}

-- One step: what holds is kept, tickets are only added, and a sealed log stays as it is.
pub record Progress (loopback : Bytes → Bool) (c : Config) (w d : Writer) : Type 0 where
  pub live : Live loopback c d
  pub more : List Pending
  pub issued_is : d.issued ≡ w.issued ++ more
  pub sealed_log : w.sealed ≡ true → (d.sealed ≡ true) × (d.log ≡ w.log) × (d.end_ ≡ w.end_)

module _ (loopback : Bytes → Bool) (c : Config) (broker : ℕ → Broker) where
  stay : (w : Writer) → Live loopback c w → Progress loopback c w w
  stay w l = record {
    live = l;
    more = [];
    issued_is = sym (append-nil w.issued);
    sealed_log = λ h. (h, refl, refl);
  }

  Submission-Progress :
      (w : Writer) (p : Pending) (n : ℕ) (full : Bool) (o : Writer × Submitted)
      → Submission w p n full o
      → (full ≡ false → WriterInv loopback c [] (enqueue p.vote p.frame n w).0)
      → Live loopback c w
      → Progress loopback c w o.0
  unfolding enqueue
  Submission-Progress w p n full o (declined d r e no_ticket) inv l =
      subst (Progress loopback c w) (sym e) (stay w l)
  Submission-Progress w p n full o (accepted d r open_ room e ticket) inv l =
      subst (Progress loopback c w) (sym e) (record {
        live = record { inv = inv room; quiet = λ h. cc; over = l.over };
        more = record { vote = p.vote; frame = p.frame; ticket = length w.issued } ∷ [];
        issued_is = refl;
        sealed_log = λ h. cc;
      })

  -- The steps of a run of an open writer.
  ended-Progress :
      (w : Writer) (o : Writer × Bool)
      → WriterInv loopback c [] o.0
      → Same w o.0
      → w.sealed ≡ false
      → w.done ≡ false
      → Progress loopback c w (unless_ended loopback c broker o)
  unfolding unless_ended
  ended-Progress w (d, true) i s open_ running = record {
    live = record {
      inv = i;
      quiet = λ h. cc (s.sealed, h, open_);
      over = λ h. cc (s.done, h, running);
    };
    more = [];
    issued_is = s.issued ∙ sym (append-nil w.issued);
    sealed_log = λ h. cc;
  }
  ended-Progress w (d, false) i s open_ running = record {
    live = end_run-Live loopback c broker d i (λ h. cc (s.sealed, h, open_));
    more = [];
    issued_is = unfold end_run in (s.issued ∙ sym (append-nil w.issued));
    sealed_log = λ h. cc;
  }

  take_from-Progress :
      (w : Writer) (ps : List Pending)
      → w.jobs ≡ ps
      → Live loopback c w
      → w.done ≡ false
      → Progress loopback c w (take_from loopback c broker ps w)
  unfolding take_from
  take_from-Progress w [] e l running = stay w l
  take_from-Progress w (p ∷ ps) e l running = elim (Bool-cases w.sealed) [
    | inl sealed ↦ cc (e, (l.quiet sealed).no_jobs)
    | inr open_ ↦
        let f =
          append_job-Effect loopback c broker p (record w { jobs = ps })
            (taken_job loopback c broker p ps w e l.inv) in
        ended-Progress w (append_job loopback c broker p (record w { jobs = ps })) f.inv
          (record {
            issued = f.same.issued;
            sealed = f.same.sealed;
            seal_requested = f.same.seal_requested;
            done = f.same.done;
            grows = f.same.grows;
          })
          open_ running
  ]

  -- A sealed writer's flush finds an empty batch.
  idle_tick :
      (w : Writer) (batch : List Pending)
      → batch ≡ []
      → unless_ended loopback c broker (
          or_fail loopback c broker
            (flush loopback c broker batch (record w { batch = []; batch_votes = 0 })))
        ≡ record w { batch = []; batch_votes = 0 }
  unfolding flush or_fail unless_ended
  idle_tick w [] e = refl
  idle_tick w (p ∷ ps) e = cc

  idle-Progress :
      (w : Writer)
      → Live loopback c w
      → w.sealed ≡ true
      → Progress loopback c w (record w { batch = []; batch_votes = 0 })
  idle-Progress w l sealed = record {
    live = record {
      inv = record {
        books =
            subst (λ b. Books loopback c w.issued [] b w.jobs w.answers w.log)
              (l.quiet sealed).no_batch l.inv.books;
        charged = l.inv.charged;
        within = l.inv.within;
        batch_is = refl;
        fits = omega arith;
        jobs_fit = l.inv.jobs_fit;
        held_fit = tt;
      };
      quiet = λ h. record {
        no_jobs = (l.quiet h).no_jobs;
        no_batch = refl;
        no_request = (l.quiet h).no_request;
      };
      over = λ _. refl;
    };
    more = [];
    issued_is = sym (append-nil w.issued);
    sealed_log = λ h. (h, refl, refl);
  }

  -- The writer whose barrier has been asked for, or is about to be written.
  asked_inv :
      (w : Writer) (closing requested : Bool)
      → WriterInv loopback c [] w
      → WriterInv loopback c [] (record w { closing = closing; seal_requested = requested })
  asked_inv w closing requested i = record {
    books = i.books;
    charged = i.charged;
    within = i.within;
    batch_is = i.batch_is;
    fits = i.fits;
    jobs_fit = i.jobs_fit;
    held_fit = tt;
  }

  tick-Progress :
      (w : Writer)
      → Live loopback c w
      → w.done ≡ false
      → Progress loopback c w (tick loopback c broker w)
  unfolding tick flush_batch
  tick-Progress w l running =
      let f = (flush_batch-Emptied loopback c broker [] w l.inv).effect in
      elim (Bool-cases w.sealed) [
        | inr open_ ↦ ended-Progress w (flush_batch loopback c broker w) f.inv f.same open_ running
        | inl sealed ↦
            subst (Progress loopback c w) (sym (idle_tick w w.batch (l.quiet sealed).no_batch))
              (idle-Progress w l sealed)
      ]

  seal_run-Progress :
      (w : Writer)
      → Live loopback c w
      → w.seal_requested ≡ true
      → Progress loopback c w (seal_run loopback c broker w)
  unfolding seal_run
  seal_run-Progress w l requested =
      let w0 : Writer = record w { seal_requested = false } in
      let o = append_jobs loopback c broker w.jobs w0 in
      let first =
        append_jobs-Drained loopback c broker w.jobs w0 refl (asked_inv w w.closing false l.inv) in
      let r =
        go_on-Drained loopback c broker w0 (flush_batch loopback c broker) o first.inv first.same
          (λ ok. flushed-Drained loopback c broker o.0 first.inv (first.no_jobs ok)) in
      let e =
        seal_log-Closed loopback c broker w0
          (go_on loopback c broker (flush_batch loopback c broker) o) r in
      record {
        live = end_run-Live loopback c broker _ e.inv (λ _. e.no_request);
        more = [];
        issued_is = unfold end_run in (e.issued_same ∙ sym (append-nil w.issued));
        sealed_log = λ sealed. cc ((l.quiet sealed).no_request, requested);
      }

  stop-Progress :
      (w : Writer) → Live loopback c w → Progress loopback c w (end_run loopback c broker w)
  unfolding end_run
  stop-Progress w l = record {
    live = unfold end_run in end_run-Live loopback c broker w l.inv (λ h. (l.quiet h).no_request);
    more = [];
    issued_is = sym (append-nil w.issued);
    sealed_log = λ h. (h, refl, refl);
  }

  begin_seal-Progress : (w : Writer) → Live loopback c w → Progress loopback c w (begin_seal w).0
  unfolding begin_seal
  begin_seal-Progress w l =
      if_cases (λ (r : Writer × Option StoreError). Progress loopback c w r.0) w.sealed _ _
        (λ _. stay w l)
        (λ open_.
          if_cases (λ (r : Writer × Option StoreError). Progress loopback c w r.0) w.failed _ _
            (λ _. stay w l)
            (λ _.
              if_cases (λ (r : Writer × Option StoreError). Progress loopback c w r.0) w.closing _ _
                (λ _. stay w l)
                (λ _. record {
                  live = record {
                    inv = asked_inv w true true l.inv;
                    quiet = λ h. cc;
                    over = l.over;
                  };
                  more = [];
                  issued_is = sym (append-nil w.issued);
                  sealed_log = λ h. cc;
                })))

  length-stamped : (now : ℕ) (inputs : List Input) → length (stamped now inputs) ≡ length inputs
  unfolding stamped
  length-stamped now [] = refl
  length-stamped now (i ∷ is) = ap suc (length-stamped now is)

  frame_size :
      (now ticket : ℕ) (inputs : List Input)
      → 1 ≤ length inputs
      → size (record { vote = no_vote; frame = stamped now inputs; ticket = ticket })
        ≡ length inputs
  unfolding size
  frame_size now ticket inputs h = ground (arith, length-stamped now inputs)

  full_split : (a b : Bool) → (a || b) ≡ false → a ≡ false
  full_split a b h = ground (arith, h)

  submit-Progress :
      (w : Writer) (cancelled : Bool) (now : ℕ) (token : Bytes) (choice : ℕ)
      → 1 ≤ c.batch_size
      → Live loopback c w
      → Progress loopback c w (submit_locked c cancelled now token choice w).0
  unfolding submit_locked
  submit-Progress w cancelled now token choice small l =
      let vote : Vote = record { token = token; choice = choice; admitted_at = now } in
      let full = leb c.queue_per_partition w.queued_votes || jobs_full c w in
      Submission-Progress w (record { vote = vote; frame = []; ticket = length w.issued }) 1 full _
        (when_open-Submission w vote [] 1 full c cancelled now)
        (λ room. enqueue-WriterInv loopback c w vote [] 1 l.inv (unfold size in refl) small (
          let below =
            leb-false c.queue_per_partition w.queued_votes (full_split _ (jobs_full c w) room) in
          omega (arith, below)))
        l

  submit_frame-Progress :
      (w : Writer) (cancelled : Bool) (now : ℕ) (inputs : List Input)
      → 1 ≤ length inputs
      → length inputs ≤ c.batch_size
      → Live loopback c w
      → Progress loopback c w (submit_frame_locked c cancelled now inputs w).0
  unfolding submit_frame_locked
  submit_frame-Progress w cancelled now inputs some_votes few l =
      let n = length inputs in
      let full = ltb c.queue_per_partition (w.queued_votes + n) || jobs_full c w in
      Submission-Progress w
        (record { vote = no_vote; frame = stamped now inputs; ticket = length w.issued }) n full _
        (when_open-Submission w no_vote (stamped now inputs) n full c cancelled now)
        (λ room.
          enqueue-WriterInv loopback c w no_vote (stamped now inputs) n l.inv
            (frame_size now (length w.issued) inputs some_votes) few
            (let below =
                ltb-false c.queue_per_partition (w.queued_votes + n)
                  (full_split _ (jobs_full c w) room) in
              omega (arith, below)))
        l

  pub Step-Progress :
      (w d : Writer)
      → 1 ≤ c.batch_size
      → Live loopback c w
      → Step loopback c broker w d
      → Progress loopback c w d
  unfolding take_job
  Step-Progress w d small l (submits cancelled now token choice e) =
      subst (Progress loopback c w) (sym e) (submit-Progress w cancelled now token choice small l)
  Step-Progress w d small l (submits_frame cancelled now inputs some_votes few e) =
      subst (Progress loopback c w) (sym e)
        (submit_frame-Progress w cancelled now inputs some_votes few l)
  Step-Progress w d small l (seals e) =
      subst (Progress loopback c w) (sym e) (begin_seal-Progress w l)
  Step-Progress w d small l (takes running e) =
      subst (Progress loopback c w) (sym e) (take_from-Progress w w.jobs refl l running)
  Step-Progress w d small l (ticks running e) =
      subst (Progress loopback c w) (sym e) (tick-Progress w l running)
  Step-Progress w d small l (seals_log running requested e) =
      subst (Progress loopback c w) (sym e) (seal_run-Progress w l requested)
  Step-Progress w d small l (stops running e) =
      subst (Progress loopback c w) (sym e) (stop-Progress w l)
