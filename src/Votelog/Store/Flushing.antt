-- ===== src/Votelog/Store/Flushing.antt =====
-- A flush files an answer for every job of the batch, and touches nothing else that clients see.
use gigaquizz.Common.{
  ℕ, ◌+◌, ◌≤◌, ◌≡◌, refl, subst, Bool, true, false, List, [], ◌∷◌, ◌++◌, Option, none, some, length,
  get_elem?, All, arith, if◌then◌else◌,
}
use gigaquizz.Common.Bytes.{Bytes}
use gigaquizz.Common.Total.{sum_of-append}
use gigaquizz.Votelog.{Config}
use gigaquizz.Votelog.Store.{Failure, Pending, size, Answer, Entry, Counters, Writer, lost}
use gigaquizz.Votelog.Store.Run.{
  Broker, Message, entries_of, Outcome, after_commit, end_transaction, outcome_of, errors_of,
  answers_of, Messages, messages, unencodable, transact, messages_of, flushed, flush_messages,
  flush, fail, or_fail, flush_batch, before_end,
}
use gigaquizz.Votelog.Store.Books.{
  one, in_pending, in_answers, votes, In, In-append_left, In-append_right, Acked, Books, All-append,
  All-map, in_answers-errors_of, in_answers-answers_of, errors-Acked, answers-Acked, InLog-grow,
}
use mathlib.Core.List.{append-nil}

-- The log that a transaction leaves: what was there, and its records if it returned no error.
pub record Grown (log : List Entry) (new : List Entry) (o : Outcome) : Type 0 where
  pub old : (x : Entry) → In x log → In x o.log
  pub added : o.err ≡ none → (x : Entry) → In x new → In x o.log

module _ (b : Broker) (ms : List Message) (log : List Entry) (k : Counters) where
  abbrev new : List Entry
  new = entries_of b.offsets 0 ms

  after_commit-Grown :
      (runtime : Bool) → Grown log new (after_commit runtime b (length ms) (log ++ new) k)
  unfolding after_commit
  after_commit-Grown false = record {
    old = λ x h. In-append_left x log new h;
    added = λ e x h. In-append_right x log new h;
  }
  after_commit-Grown true = record {
    old = λ x h. In-append_left x log new h;
    added = λ e x h. In-append_right x log new h;
  }

  end_transaction-Grown :
      (runtime : Bool) (e : Option ℕ) → Grown log new (end_transaction runtime b ms log k e)
  unfolding end_transaction
  end_transaction-Grown runtime none = after_commit-Grown runtime
  end_transaction-Grown runtime (some e) = record { old = landed b.lands; added = λ h. cc }
    where
      landed : (lands : Bool) (x : Entry) → In x log → In x (if lands then log ++ new else log)
      landed true x h = In-append_left x log new h
      landed false x h = h

  pub outcome_of-Grown :
      (runtime : Bool) (f : Option Failure) → Grown log new (outcome_of runtime b ms log k f)
  unfolding outcome_of
  outcome_of-Grown runtime none = end_transaction-Grown runtime b.end_error
  outcome_of-Grown runtime (some f) = record { old = λ x h. h; added = λ h. cc }

-- What a step of `run` leaves alone.
pub record Same (w d : Writer) : Type 0 where
  pub issued : d.issued ≡ w.issued
  pub sealed : d.sealed ≡ w.sealed
  pub seal_requested : d.seal_requested ≡ w.seal_requested
  pub done : d.done ≡ w.done
  pub grows : (x : Entry) → In x w.log → In x d.log

pub record WriterInv (loopback : Bytes → Bool) (c : Config) (held : List Pending) (w : Writer)
    : Type 0 where
  pub books : Books loopback c w.issued held w.batch w.jobs w.answers w.log
  pub charged : votes w.jobs + votes held ≤ w.queued_votes
  pub within : w.queued_votes ≤ c.queue_per_partition
  pub batch_is : w.batch_votes ≡ votes w.batch
  pub fits : w.batch_votes ≤ c.batch_size
  pub jobs_fit : All (λ (p : Pending). size p ≤ c.batch_size) w.jobs
  pub held_fit : All (λ (p : Pending). size p ≤ c.batch_size) held

-- A step with the invariant behind it.
pub record Effect (loopback : Bytes → Bool) (c : Config) (held : List Pending) (w d : Writer)
    : Type 0 where
  pub inv : WriterInv loopback c held d
  pub jobs_same : d.jobs ≡ w.jobs
  pub same : Same w d

-- And an empty batch.
pub record Emptied (loopback : Bytes → Bool) (c : Config) (held : List Pending) (w d : Writer)
    : Type 0 where
  pub effect : Effect loopback c held w d
  pub empty : d.batch ≡ []

pub get_elem?-nil :
    (issued : List Pending) (p : Pending) (t : ℕ)
    → get_elem? issued t ≡ some p
    → get_elem? (issued ++ []) t ≡ some p
get_elem?-nil issued p t h = rw (append-nil issued) h

module _ (loopback : Bytes → Bool) (c : Config) (broker : ℕ → Broker) where
  -- The jobs of the batch have been answered by `more`.
  Books-file :
      (issued held batch jobs : List Pending) (answers more : List Answer) (log log' : List Entry)
      → Books loopback c issued held batch jobs answers log
      → ((t : ℕ) → in_answers t more ≡ in_pending t batch)
      → ((x : Entry) → In x log → In x log')
      → All (Acked loopback c issued log') more
      → Books loopback c issued held [] jobs (answers ++ more) log'
  Books-file issued held batch jobs answers more log log' b count sub acked = record {
    tallied = λ t.
        omega (
          arith,
          b.tallied t,
          count t,
          sum_of-append (λ (a : Answer). one t a.ticket) answers more,
        );
    batch_placed = tt;
    jobs_placed = b.jobs_placed;
    held_placed = b.held_placed;
    acked =
        All-append (Acked loopback c issued log') answers more
          (All-map _ _ answers
            (λ a h.
              subst (λ l. Acked loopback c l log' a) (append-nil issued)
                (InLog-grow loopback c issued [] log log' a sub (get_elem?-nil issued) h))
            b.acked)
          acked;
  }

  or_fail-Emptied :
      (held : List Pending) (w : Writer) (o : Writer × Option Failure)
      → Emptied loopback c held w o.0
      → Emptied loopback c held w (or_fail loopback c broker o).0
  unfolding or_fail fail
  or_fail-Emptied held w (d, none) e = e
  or_fail-Emptied held w (d, some f) e =
      let i = e.effect.inv in
      let s = e.effect.same in
      record {
        effect = record {
          inv = record {
            books = i.books;
            charged = i.charged;
            within = i.within;
            batch_is = i.batch_is;
            fits = i.fits;
            jobs_fit = i.jobs_fit;
            held_fit = i.held_fit;
          };
          jobs_same = e.effect.jobs_same;
          same = record {
            issued = s.issued;
            sealed = s.sealed;
            seal_requested = s.seal_requested;
            done = s.done;
            grows = s.grows;
          };
        };
        empty = e.empty;
      }

  -- The writer's variables once its batch is in the hands of `flush`.
  abbrev taken : Writer → Writer
  taken w = record w { batch = []; batch_votes = 0 }

  filed :
      (held : List Pending) (w : Writer) (turn : ℕ) (log : List Entry) (k : Counters)
      (more : List Answer)
      → WriterInv loopback c held w
      → ((t : ℕ) → in_answers t more ≡ in_pending t w.batch)
      → ((x : Entry) → In x w.log → In x log)
      → All (Acked loopback c w.issued log) more
      → Emptied loopback c held w
          (record (taken w) { turn = turn; log = log; counters = k; answers = w.answers ++ more })
  filed held w turn log k more i count sub acked = record {
    effect = record {
      inv = record {
        books =
            Books-file w.issued held w.batch w.jobs w.answers more w.log log i.books count sub
              acked;
        charged = i.charged;
        within = i.within;
        batch_is = refl;
        fits = omega arith;
        jobs_fit = i.jobs_fit;
        held_fit = i.held_fit;
      };
      jobs_same = refl;
      same = record {
        issued = refl;
        sealed = refl;
        seal_requested = refl;
        done = refl;
        grows = sub;
      };
    };
    empty = refl;
  }

  messages-Emptied :
      (held : List Pending) (w : Writer) (o : Messages)
      → WriterInv loopback c held w
      → messages_of loopback c w.batch ≡ o
      → Emptied loopback c held w (flush_messages loopback c broker w.batch o (taken w)).0
  unfolding flush_messages flushed transact
  messages-Emptied held w (unencodable e) i h =
      filed held w w.turn w.log w.counters (errors_of lost w.batch) i
        (λ t. in_answers-errors_of t lost w.batch) (λ x h. h)
        (errors-Acked loopback c w.issued w.log lost w.batch)
  messages-Emptied held w (messages ms) i h =
      let b = broker w.turn in
      let g = outcome_of-Grown b ms w.log w.counters true (before_end true b) in
      let o = outcome_of true b ms w.log w.counters (before_end true b) in
      filed held w (w.turn + 1) o.log _ (answers_of w.partition b.offsets w.batch o.err) i
        (λ t. in_answers-answers_of t w.partition b.offsets w.batch o.err) g.old
        (answers-Acked loopback c w.issued o.log w.partition b.offsets w.batch ms o.err
          i.books.batch_placed h g.added)

  flush-Emptied :
      (held : List Pending) (w : Writer) (batch : List Pending)
      → WriterInv loopback c held w
      → w.batch ≡ batch
      → Emptied loopback c held w (flush loopback c broker batch (taken w)).0
  unfolding flush
  flush-Emptied held w [] i e = record {
    effect = record {
      inv = record {
        books = subst (λ b. Books loopback c w.issued held b w.jobs w.answers w.log) e i.books;
        charged = i.charged;
        within = i.within;
        batch_is = refl;
        fits = omega arith;
        jobs_fit = i.jobs_fit;
        held_fit = i.held_fit;
      };
      jobs_same = refl;
      same = record {
        issued = refl;
        sealed = refl;
        seal_requested = refl;
        done = refl;
        grows = λ x h. h;
      };
    };
    empty = refl;
  }
  flush-Emptied held w (p ∷ ps) i e =
      subst
        (λ b.
          Emptied loopback c held w
            (flush_messages loopback c broker b (messages_of loopback c b) (taken w)).0)
        e (messages-Emptied held w (messages_of loopback c w.batch) i refl)

  pub flush_batch-Emptied :
      (held : List Pending) (w : Writer)
      → WriterInv loopback c held w
      → Emptied loopback c held w (flush_batch loopback c broker w).0
  unfolding flush_batch
  flush_batch-Emptied held w i =
      or_fail-Emptied held w (flush loopback c broker w.batch (taken w))
        (flush-Emptied held w w.batch i refl)
