-- ===== src/Votelog/Store/Calls.antt =====
-- What Submit and SubmitFrame do to the books.
use gigaquizz.Common.{
  ℕ, zero, suc, ◌+◌, ◌≤◌, ◌≡◌, refl, ap, Bool, false, not, List, [], ◌∷◌, ◌++◌, some, length,
  length-append, get_elem?, All, arith, if_cases, ◌||◌,
}
use gigaquizz.Common.Bytes.{Bytes}
use gigaquizz.Common.Total.{sum_of-append}
use gigaquizz.GoTime.{before}
use gigaquizz.Votelog.{Config, Vote}
use gigaquizz.Votelog.Store.{
  Pending, size, Writer, Submitted, refused, queued, enqueue, at_time, when_open, closed, lost,
  busy, not_open,
}
use gigaquizz.Votelog.Store.Books.{below, one, Placed, All-append, All-map, InLog-grow}
use gigaquizz.Votelog.Store.Flushing.{WriterInv}

pub get_elem?-append :
    {A : Type 0} (xs ys : List A) (t : ℕ) (x : A)
    → get_elem? xs t ≡ some x
    → get_elem? (xs ++ ys) t ≡ some x
get_elem?-append [] ys t x h = cc
get_elem?-append (y ∷ xs) ys zero x h = h
get_elem?-append (y ∷ xs) ys (suc t) x h = get_elem?-append xs ys t x h

pub get_elem?-snoc :
    {A : Type 0} (xs : List A) (x : A) → get_elem? (xs ++ x ∷ []) (length xs) ≡ some x
get_elem?-snoc [] x = refl
get_elem?-snoc (y ∷ xs) x = get_elem?-snoc xs x

-- A call that enqueues a job `p` of the next ticket, or leaves the jobs alone.
pub data Submission (w : Writer) (p : Pending) (votes : ℕ) (full : Bool)
    : Writer × Submitted → Type 0 where
  declined :
      (d : Writer) (r : Submitted)
      → d ≡ w
      → ((t : ℕ) → r ≡ queued t → ⊥)
      → Submission w p votes full (d, r)
  accepted :
      (d : Writer) (r : Submitted)
      → w.sealed ≡ false
      → full ≡ false
      → d ≡ (enqueue p.vote p.frame votes w).0
      → r ≡ queued (length w.issued)
      → Submission w p votes full (d, r)

module _ (w : Writer) (vote : Vote) (frame : List Vote) (votes : ℕ) (full : Bool) where
  abbrev job : Pending
  job = record { vote = vote; frame = frame; ticket = length w.issued }

  refused-Submission : (e : _) → Submission w job votes full (w, refused e)
  refused-Submission e = declined w (refused e) refl (λ t h. cc)

  at_time-Submission :
      (c : Config) (now : ℕ)
      → w.sealed ≡ false
      → full ≡ false
      → Submission w job votes full (at_time c now (enqueue vote frame votes w) w)
  unfolding at_time enqueue
  at_time-Submission c now open_ room =
      if_cases (Submission w job votes full) (before now c.starts_at) _ _
        (λ _. refused-Submission not_open)
        (λ _.
          if_cases (Submission w job votes full) (not (before now c.ends_at)) _ _
            (λ _. refused-Submission closed) (λ _. accepted _ _ open_ room refl refl))

  pub when_open-Submission :
      (c : Config) (cancelled : Bool) (now : ℕ)
      → Submission w job votes full
          (when_open cancelled full (at_time c now (enqueue vote frame votes w) w) w)
  unfolding when_open
  when_open-Submission c cancelled now =
      if_cases (Submission w job votes full) (w.sealed || w.closing) _ _
        (λ _. refused-Submission closed)
        (λ open_.
          if_cases (Submission w job votes full) (w.failed || cancelled) _ _
            (λ _. refused-Submission lost)
            (λ _.
              if_cases (Submission w job votes full) full _ _ (λ _. refused-Submission busy)
                (λ room. at_time-Submission c now (first_false w.sealed w.closing open_) room)))
    where
      first_false : (a b : Bool) → (a || b) ≡ false → a ≡ false
      first_false a b h = ground (arith, h)

module _ (loopback : Bytes → Bool) (c : Config) (w : Writer) (vote : Vote) (frame : List Vote)
    (count : ℕ) (i : WriterInv loopback c [] w)
    (fits : size (record { vote = vote; frame = frame; ticket = length w.issued }) ≡ count)
    (small : count ≤ c.batch_size) (room : w.queued_votes + count ≤ c.queue_per_partition) where
  abbrev p : Pending
  p = record { vote = vote; frame = frame; ticket = length w.issued }

  grown : (ps : List Pending) → All (Placed w.issued) ps → All (Placed (w.issued ++ p ∷ [])) ps
  grown ps h = All-map _ _ ps (λ q k. get_elem?-append w.issued (p ∷ []) q.ticket q k) h

  one_more : (t n : ℕ) → below t (n + 1) ≡ below t n + one t n
  one_more t n = ground arith

  pub enqueue-WriterInv : WriterInv loopback c [] (enqueue vote frame count w).0
  unfolding enqueue
  enqueue-WriterInv = record {
    books = record {
      tallied = λ t. omega (
        arith,
        i.books.tallied t,
        sum_of-append (λ (q : Pending). one t q.ticket) w.jobs (p ∷ []),
        one_more t (length w.issued),
        ap (below t) (length-append w.issued (p ∷ [])),
      );
      batch_placed = grown w.batch i.books.batch_placed;
      jobs_placed =
          All-append _ w.jobs (p ∷ []) (grown w.jobs i.books.jobs_placed)
            (get_elem?-snoc w.issued p, tt);
      held_placed = tt;
      acked =
          All-map _ _ w.answers
            (λ a h.
              InLog-grow loopback c w.issued (p ∷ []) w.log w.log a (λ x k. k)
                (λ q t k. get_elem?-append w.issued (p ∷ []) t q k) h)
            i.books.acked;
    };
    charged = omega (arith, i.charged, sum_of-append size w.jobs (p ∷ []), fits);
    within = room;
    batch_is = i.batch_is;
    fits = i.fits;
    jobs_fit = All-append _ w.jobs (p ∷ []) i.jobs_fit (omega (arith, fits), tt);
    held_fit = tt;
  }
