-- ===== src/Filelog/Store/Receipts.antt =====
-- The receipts of a flush point at its frames.
use gigaquizz.Common.{
  ℕ, zero, suc, ◌+◌, ◌≡◌, refl, subst, List, [], ◌∷◌, ◌++◌, Option, none, some, get_elem?, length,
  length-append, All, arith,
}
use gigaquizz.Filelog.Types.{Config, FrameReceipt}
use gigaquizz.Filelog.Scan.Journal.{Batch}
use gigaquizz.Filelog.Store.{StoreError, Job, Answer}
use gigaquizz.Filelog.Store.Writer.{answers_of}
use gigaquizz.Filelog.Store.Writer.Frames.{Log, Carry}
use gigaquizz.Filelog.Store.Invariant.{Acked, Receipted}
use mathlib.Core.List.{append_assoc}

pub All-append :
    {A : Type 0} (P : A → Type 0) (xs ys : List A) → All P xs → All P ys → All P (xs ++ ys)
All-append P [] ys h k = k
All-append P (x ∷ xs) ys h k = (h.0, All-append P xs ys h.1 k)

All-map :
    {A : Type 0} (P Q : A → Type 0) → ((x : A) → P x → Q x) → (xs : List A) → All P xs → All Q xs
All-map P Q f [] h = tt
All-map P Q f (x ∷ xs) h = (f x h.0, All-map P Q f xs h.1)

get_elem?-append :
    {A : Type 0} (xs ys : List A) (i : ℕ) (a : A)
    → get_elem? xs i ≡ some a
    → get_elem? (xs ++ ys) i ≡ some a
get_elem?-append [] ys i a h = ground arith
get_elem?-append (x ∷ xs) ys zero a h = h
get_elem?-append (x ∷ xs) ys (suc i) a h = get_elem?-append xs ys i a h

pub get_elem?-at_length :
    {A : Type 0} (xs ys : List A) (a : A) → get_elem? (xs ++ a ∷ ys) (length xs) ≡ some a
get_elem?-at_length [] ys a = refl
get_elem?-at_length (x ∷ xs) ys a = get_elem?-at_length xs ys a

Receipted-more :
    (log : Log) (ticket : ℕ) (bs more : List Batch) (r : FrameReceipt) (e : Option StoreError)
    → Receipted log ticket bs r e
    → Receipted log ticket (bs ++ more) r e
Receipted-more log ticket bs more r (some e) h = tt
Receipted-more log ticket bs more r none (b, found, count, at_, noted) =
    (b, get_elem?-append bs more r.offset b found, count, at_, noted)

pub Acked-all_more :
    (log : Log) (bs more : List Batch) (as_ : List Answer)
    → All (Acked log bs) as_
    → All (Acked log (bs ++ more)) as_
Acked-all_more log bs more as_ h =
    All-map (Acked log bs) (Acked log (bs ++ more))
      (λ a. Receipted-more log a.ticket bs more a.receipt a.err) as_ h

pub answers_of-failed :
    (log : Log) (flushed : List Batch) (sequence : ℕ) (e : StoreError) (js : List Job)
    → All (Acked log flushed) (answers_of sequence (some e) js)
unfolding answers_of
answers_of-failed log flushed sequence e [] = tt
answers_of-failed log flushed sequence e (j ∷ js) =
    (tt, answers_of-failed log flushed (sequence + 1) e js)

pub answers_of-Acked :
    (c : Config) (log : Log) (before : List Batch) (js : List Job) (bs : List Batch)
    → Carry c log js bs
    → All (Acked log (before ++ bs)) (answers_of (length before) none js)
unfolding answers_of
answers_of-Acked c log before [] bs h = tt
answers_of-Acked c log before (j ∷ js) [] h = absurd h
answers_of-Acked c log before (j ∷ js) (b ∷ bs) h =
    let more = answers_of-Acked c log (before ++ b ∷ []) js bs h.1 in
    let few = h.0.batch.few_votes in
    (
      (b, get_elem?-at_length before bs b, omega (arith, h.0.count, few), h.0.admitted, h.0.noted),
      subst (λ xs. All (Acked log xs) (answers_of (length before + 1) none js))
          (append_assoc before (b ∷ []) bs)
          (subst (λ n. All (Acked log ((before ++ b ∷ []) ++ bs)) (answers_of n none js))
            (length-append before (b ∷ [])) more),
    )
