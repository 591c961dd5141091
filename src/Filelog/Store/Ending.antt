-- ===== src/Filelog/Store/Ending.antt =====
-- The end of the writer: the queue is drained after a failure, and the file is closed.
use gigaquizz.Common.{
  ℕ, ◌+◌, ◌-◌, ◌≡◌, refl, sym, ap, subst, ◌∙◌, Bool, true, false, List, [], ◌∷◌, ◌++◌, Option, none,
  some, option_cases, All, arith,
}
use gigaquizz.Common.Total.{sum_of-append}
use gigaquizz.Filelog.Types.{Config}
use gigaquizz.Filelog.Scan.Journal.{Batch}
use gigaquizz.Filelog.Store.{
  StoreError, io, unknown, Job, Answer, Store, no_receipt, fail, stop_queue, release,
}
use gigaquizz.Filelog.Store.Writer.{Disk, drain, end_run, drain_failure}
use gigaquizz.Filelog.Store.Writer.Frames.{Log}
use gigaquizz.Filelog.Store.Invariant.{counts, Acked, Over, over, StoreInv}
use gigaquizz.Filelog.Store.Receipts.{All-append}
use mathlib.Core.List.{append_assoc, append-nil}

pub drained : StoreError → List Job → List Answer
drained e [] = []
drained e (j ∷ js) = record { ticket = j.ticket; receipt = no_receipt; err = some e } ∷ drained e js

drained-Acked :
    (log : Log) (flushed : List Batch) (e : StoreError) (js : List Job)
    → All (Acked log flushed) (drained e js)
unfolding drained
drained-Acked log flushed e [] = tt
drained-Acked log flushed e (j ∷ js) = (tt, drained-Acked log flushed e js)

abbrev pub emptied : Store → ℕ → List Answer → Store
emptied s q more = record s { queue = []; queued_votes = q; answers = s.answers ++ more }

pub drain-drained :
    (e : StoreError) (js : List Job) (s : Store)
    → drain e js s ≡ emptied s (s.queued_votes - counts js) (drained e js)
unfolding drain drained release
drain-drained e [] s =
    ap (λ xs. record s { queue = []; answers = xs }) (sym (append-nil s.answers))
    ∙ ap (λ q. emptied s q []) (omega arith)
drain-drained e (j ∷ js) s =
    let a : Answer = record { ticket = j.ticket; receipt = no_receipt; err = some e } in
    drain-drained e js
      (record s { queued_votes = s.queued_votes - j.count; answers = s.answers ++ a ∷ [] })
    ∙ ap
        (λ xs. record s {
          queue = [];
          queued_votes = s.queued_votes - j.count - counts js;
          answers = xs;
        })
        (append_assoc s.answers (a ∷ []) (drained e js))
    ∙ ap (λ q. emptied s q (a ∷ drained e js)) (omega arith)

pub fail_cases :
    (Q : Store → Type 0) (e : StoreError) (s : Store)
    → ((p : Option StoreError) → Q (stop_queue (record s { poison = p })))
    → Q (fail e s).0
unfolding fail
fail_cases Q e s h =
    option_cases (λ (o : Store × StoreError). Q (o.0)) s.poison _ _ (λ _. h (some (unknown e)))
      (λ p eq. subst (λ q. Q (stop_queue (record s { poison = q }))) refl (h s.poison))

abbrev pub ended : Store → Option StoreError → Bool → Bool → Store
ended s p a q = record s {
  poison = p;
  admission_closed = a;
  queue_closed = q;
  pending = none;
  ticking = false;
  finished = true;
}

pub end_run_cases :
    (Q : Store → Type 0) (d : Disk) (s : Store)
    → ((p : Option StoreError) (a q : Bool) → Q (ended s p a q))
    → Q (end_run d s)
unfolding end_run stop_queue
end_run_cases Q d s h =
    let P : Store → Type 0 =
      λ t. Q (record t { pending = none; ticking = false; finished = true }) in
    option_cases P d.close_error _ _ (λ _. h s.poison s.admission_closed s.queue_closed)
      (λ x _. fail_cases P (io x) s (λ p. h p true true))

-- After a failed flush the writer answers what is left and ends.
pub drain_failure-StoreInv :
    (c : Config) (log : Log) (d : Disk) (e : StoreError) (ws : List Job) (s : Store)
    → s.queued_votes ≡ counts s.queue + counts ws
    → Over c log s.file s.answers s.manifest
    → StoreInv c log (drain_failure d e ws s)
unfolding drain_failure
drain_failure-StoreInv c log d e ws s charged o =
    let js = ws ++ s.queue in
    let left = s.queued_votes - counts js in
    let none_left : left ≡ 0 = omega (arith, sum_of-append (λ (j : Job). j.count) ws s.queue) in
    subst (λ t. StoreInv c log (end_run d t)) (sym (drain-drained e js s))
      (end_run_cases (StoreInv c log) d (emptied s left (drained e js)) (λ p a q. record {
        charged = record {
          jobs = tt;
          waiting_jobs = tt;
          charged = none_left;
          within = omega (arith, none_left);
        };
        phase = over refl (record {
          flushed = o.flushed;
          good = o.good;
          few = o.few;
          answered =
              All-append (Acked log o.flushed) s.answers (drained e js) o.answered
                (drained-Acked log o.flushed e js);
          tail = o.tail;
        });
      }))
