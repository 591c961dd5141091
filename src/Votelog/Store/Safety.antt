-- ===== src/Votelog/Store/Safety.antt =====
-- What holds of a partition's writer, however its clients, its clock and its broker behave.
use gigaquizz.Common.{
  ℕ, ◌≤◌, ◌≡◌, refl, sym, ap, ◌∙◌, subst, Bool, true, false, List, [], ◌∷◌, ◌++◌, none, some,
  length, get_elem?, All, arith, if◌then◌else◌, inl, inr, not-false,
}
use gigaquizz.Common.Bytes.{Bytes}
use gigaquizz.Common.Int.{ℤ}
use gigaquizz.GoTime.{before}
use gigaquizz.Votelog.{Config, encode_record}
use gigaquizz.Votelog.Store.{
  Pending, Answer, Entry, Writer, Submitted, refused, queued, enqueue, submit_locked, when_open,
  at_time, new_writer, not_open, closed, busy, lost,
}
use gigaquizz.Votelog.Store.Run.{Broker, Message, admitted_of}
use gigaquizz.Votelog.Store.Machine.{Step, Reach, here, next, submits}
use gigaquizz.Votelog.Store.Books.{
  below, in_answers, in_pending, In, RecordOf, single, whole_frame, Acked,
}
use gigaquizz.Votelog.Store.Calls.{get_elem?-append, get_elem?-snoc}
use gigaquizz.Votelog.Store.Sealing.{Live}
use gigaquizz.Votelog.Store.Progress.{Step-Progress}
use mathlib.Core.List.{append-nil, append_assoc}

abbrev reply : Writer → Submitted → Writer × Submitted
reply w r = (w, r)

-- The checks that a call of Submit has passed.
only_queued :
    (sealed failed full early late : Bool) (w x d : Writer) (u t : ℕ)
    → (if sealed
        then reply w (refused closed)
        else if failed
        then reply w (refused lost)
        else if full
        then reply w (refused busy)
        else if early
        then reply w (refused not_open)
        else if late
        then reply w (refused closed)
        else reply x (queued u))
      ≡ reply d (queued t)
    → (d ≡ x) × (t ≡ u) × (early ≡ false) × (late ≡ false)
only_queued true failed full early late w x d u t h = cc
only_queued false true full early late w x d u t h = cc
only_queued false false true early late w x d u t h = cc
only_queued false false false true late w x d u t h = cc
only_queued false false false false true w x d u t h = cc
only_queued false false false false false w x d u t h =
    (sym (ap (λ r. r.0) h), queued-inj (sym (ap (λ r. r.1) h)), refl, refl)
  where
    queued-inj : {a b : ℕ} → queued a ≡ queued b → a ≡ b
    queued-inj h = cc

All-In : {A : Type 0} (P : A → Type 0) (x : A) (xs : List A) → All P xs → In x xs → P x
All-In P x [] h m = elim m [ ]
All-In P x (y ∷ ys) h (inl e) = subst P (sym e) h.0
All-In P x (y ∷ ys) h (inr m) = All-In P x ys h.1 m

some-inj : {A : Type 0} {a b : A} → some a ≡ some b → a ≡ b
some-inj h = cc

-- The record of a job without a frame.
abbrev message_of : Config → Pending → Message
message_of c p = record { key = p.vote.token; value = encode_record c 1 p.vote }

single_record :
    {loopback : Bytes → Bool} {c : Config} (p : Pending) (m : Message)
    → length p.frame ≡ 0
    → RecordOf loopback c p m
    → m ≡ message_of c p
single_record p m empty (single h e) = e
single_record p m empty (whole_frame h b e) = absurd (h empty)

module _ (loopback : Bytes → Bool) (c : Config) (broker : ℕ → Broker) where
  pub new_writer-Live :
      (p : ℕ) (last : ℤ) (log : List Entry) → Live loopback c (new_writer p last log)
  unfolding new_writer
  new_writer-Live p last log = record {
    inv = record {
      books = record {
        tallied = λ t. ground arith;
        batch_placed = tt;
        jobs_placed = tt;
        held_placed = tt;
        acked = tt;
      };
      charged = omega arith;
      within = omega arith;
      batch_is = refl;
      fits = omega arith;
      jobs_fit = tt;
      held_fit = tt;
    };
    quiet = λ _. record { no_jobs = refl; no_batch = refl; no_request = refl };
    over = λ _. refl;
  }

  -- Every step, of a client, of the clock or of the writer, with whatever outcome of its transactions,
  -- keeps these facts of a writer, for a batch size of 1 at least: every ticket issued is in exactly one of the
  -- answers, the batch and the queue, and once; the queued votes are at least those of the queue, and
  -- at most QueuePerPartition; the batch has at most BatchSize votes; every answer without an error
  -- names the offset at which the log has the record of its job; and a sealed writer has no job left.
  pub Step-Live :
      (w d : Writer)
      → 1 ≤ c.batch_size
      → Live loopback c w
      → Step loopback c broker w d
      → Live loopback c d
  Step-Live w d small l st = (Step-Progress loopback c broker w d small l st).live

  pub Reach-Live :
      (w d : Writer)
      → 1 ≤ c.batch_size
      → Live loopback c w
      → Reach loopback c broker w d
      → Live loopback c d
  Reach-Live w d small l here = l
  Reach-Live w d small l (next {t = t} r st) = Step-Live t d small (Reach-Live w t small l r) st

  -- From the writer that New starts, on any log: when the writer is done and nothing has been
  -- queued behind it, every ticket issued has exactly one answer, and no other ticket has one.
  pub all_answered :
      (p : ℕ) (last : ℤ) (log : List Entry) (w : Writer)
      → 1 ≤ c.batch_size
      → Reach loopback c broker (new_writer p last log) w
      → w.done ≡ true
      → w.jobs ≡ []
      → (t : ℕ) → in_answers t w.answers ≡ below t (length w.issued)
  all_answered p last log w small r done none_left t =
      let l = Reach-Live _ w small (new_writer-Live p last log) r in
      omega
        (arith, l.inv.books.tallied t, ap (in_pending t) (l.over done), ap (in_pending t) none_left)

  -- Tickets are only added.
  record Issued (w d : Writer) : Type 0 where
    more : List Pending
    issued_is : d.issued ≡ w.issued ++ more

  Reach-Issued :
      (w d : Writer)
      → 1 ≤ c.batch_size
      → Live loopback c w
      → Reach loopback c broker w d
      → Issued w d
  Reach-Issued w d small l here = record { more = []; issued_is = sym (append-nil w.issued) }
  Reach-Issued w d small l (next {t = t} r st) =
      let i = Reach-Issued w t small l r in
      let s = Step-Progress loopback c broker t d small (Reach-Live w t small l r) st in
      record {
        more = i.more ++ s.more;
        issued_is =
            s.issued_is ∙ ap (λ l. l ++ s.more) i.issued_is ∙ append_assoc w.issued i.more s.more;
      }

  -- Once a writer is sealed, no step writes to the log of its partition or moves its end.
  pub sealed_final :
      (w d : Writer)
      → 1 ≤ c.batch_size
      → Live loopback c w
      → w.sealed ≡ true
      → Reach loopback c broker w d
      → (d.sealed ≡ true) × (d.log ≡ w.log) × (d.end_ ≡ w.end_)
  sealed_final w d small l h here = (h, refl, refl)
  sealed_final w d small l h (next {t = t} r st) =
      let (sealed, log, end) = sealed_final w t small l h r in
      let (sealed', log', end') =
        (Step-Progress loopback c broker t d small (Reach-Live w t small l r) st).sealed_log
          sealed in
      (sealed', log' ∙ log, end' ∙ end)

  -- What a call of Submit that returns a ticket has done.
  record Queued (now : ℕ) (p : Pending) (w d : Writer) (t : ℕ) : Type 0 where
    ticket_is : t ≡ length w.issued
    issued_is : d.issued ≡ w.issued ++ p ∷ []
    opened : before now c.starts_at ≡ false
    not_over : before now c.ends_at ≡ true

  submit_locked-queued :
      (cancelled : Bool) (now : ℕ) (token : Bytes) (choice : ℕ) (w d : Writer) (t : ℕ)
      → submit_locked c cancelled now token choice w ≡ (d, queued t)
      → Queued now
          (record {
            vote = record { token = token; choice = choice; admitted_at = now };
            frame = [];
            ticket = length w.issued;
          })
          w
          d
          t
  unfolding submit_locked when_open at_time enqueue
  submit_locked-queued cancelled now token choice w d t h =
      let (job, ticket, opened, not_over) = only_queued _ _ _ _ _ w _ d _ t h in
      record {
        ticket_is = ticket;
        issued_is = ap (λ (x : Writer). x.issued) job;
        opened = opened;
        not_over = not-false _ not_over;
      }

  -- For the writer that New starts, on any log: when Submit has returned the ticket of a vote and an answer
  -- to that ticket carries no error, then the log has, at the offset of the receipt, the record of exactly
  -- this vote under the voter's token, with the instant of its admission, which lies in the poll's window
  -- and is that of the receipt; whatever the clients, the clock and the broker did before and since.
  pub acked_vote_logged :
      (partition : ℕ) (last : ℤ) (log : List Entry) (w d u : Writer) (cancelled : Bool) (now : ℕ)
      (token : Bytes) (choice t : ℕ) (a : Answer)
      → 1 ≤ c.batch_size
      → Reach loopback c broker (new_writer partition last log) w
      → submit_locked c cancelled now token choice w ≡ (d, queued t)
      → Reach loopback c broker d u
      → In a u.answers
      → a.ticket ≡ t
      → a.err ≡ none
      → In
          (record {
            offset = a.receipt.offset;
            key = token;
            value =
                encode_record c 1 (record { token = token; choice = choice; admitted_at = now });
          })
          u.log
        × (a.receipt.admitted_at ≡ now)
        × (before now c.starts_at ≡ false)
        × (before now c.ends_at ≡ true)
  unfolding admitted_of
  acked_vote_logged partition last log w d u cancelled now token choice t a small r call r' answered
        ticket ok =
      let start = Reach-Live _ w small (new_writer-Live partition last log) r in
      let q = submit_locked-queued cancelled now token choice w d t call in
      let second =
        Step-Live w d small start (submits cancelled now token choice (sym (ap (λ x. x.0) call))) in
      let end = Reach-Live d u small second r' in
      let i =
        All-In (Acked loopback c u.issued u.log) a u.answers end.inv.books.acked answered ok in
      let more = Reach-Issued d u small second r' in
      let job : i.job ≡ _ = some-inj (
        sym i.issued_as
        ∙ ap (λ l. get_elem? l a.ticket) (more.issued_is ∙ ap (λ l. l ++ more.more) q.issued_is)
        ∙ ap (get_elem? _) (ticket ∙ q.ticket_is)
        ∙ get_elem?-append _ more.more (length w.issued) _ (get_elem?-snoc w.issued _)) in
      let message =
        single_record i.job i.message (ap (λ (p : Pending). length p.frame) job) i.record_of
        ∙ ap (λ (p : Pending). message_of c p) job in
      (
        subst
            (λ (m : Message).
              In (record { offset = a.receipt.offset; key = m.key; value = m.value }) u.log)
            message i.logged,
        i.admitted ∙ ap admitted_of job,
        q.opened,
        q.not_over,
      )
