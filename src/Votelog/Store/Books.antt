-- ===== src/Votelog/Store/Books.antt =====
-- What is kept of every job: it stands in one place, and its receipt, if it has one, in the log.
use gigaquizz.Common.{
  ℕ, ◌+◌, ◌≡◌, ◌≢◌, refl, ap, ◌⊎◌, inl, inr, Bool, List, [], ◌∷◌, ◌++◌, Option, none, some, length,
  get_elem?, All, ◌==◌, ltb, if◌then◌else◌, Bool-cases, ==_sound, ==_no,
}
use gigaquizz.Common.Bytes.{Bytes}
use gigaquizz.Common.Total.{sum_of}
use gigaquizz.Votelog.{Config, encode_record}
use gigaquizz.Votelog.Frame.{Encoded, bytes, rejected, encode_frame}
use gigaquizz.Votelog.Store.{Failure, StoreError, unknown, Pending, size, Answer, Entry}
use gigaquizz.Votelog.Store.Run.{
  Message, entries_of, errors_of, admitted_of, receipts_of, answers_of, Messages, messages,
  unencodable, also, framed, messages_of,
}

-- 1 if the tickets are the same.
abbrev pub one : ℕ → ℕ → ℕ
one t u = if u == t then 1 else 0

-- 1 if the ticket has been issued, of `n` tickets.
abbrev pub below : ℕ → ℕ → ℕ
below t n = if ltb t n then 1 else 0

abbrev pub in_pending : ℕ → List Pending → ℕ
in_pending t = sum_of (λ (p : Pending). one t p.ticket)

abbrev pub in_answers : ℕ → List Answer → ℕ
in_answers t = sum_of (λ (a : Answer). one t a.ticket)

abbrev pub votes : List Pending → ℕ
votes = sum_of size

abbrev pub In : {A : Type 0} → A → List A → Type 0
In x [] = ⊥
In x (y ∷ ys) = (x ≡ y) ⊎ In x ys

pub In-append_left : {A : Type 0} (x : A) (xs ys : List A) → In x xs → In x (xs ++ ys)
In-append_left x [] ys h = elim h [ ]
In-append_left x (y ∷ xs) ys (inl e) = inl e
In-append_left x (y ∷ xs) ys (inr h) = inr (In-append_left x xs ys h)

pub In-append_right : {A : Type 0} (x : A) (xs ys : List A) → In x ys → In x (xs ++ ys)
In-append_right x [] ys h = h
In-append_right x (y ∷ xs) ys h = inr (In-append_right x xs ys h)

-- The job that a ticket was issued for.
abbrev pub Placed : List Pending → Pending → Type 0
Placed issued p = get_elem? issued p.ticket ≡ some p

-- The record of a job: its vote under the voter's key, or its frame under no key.
pub data RecordOf (loopback : Bytes → Bool) (c : Config) (p : Pending) (m : Message) : Type 0 where
  single :
      length p.frame ≡ 0
      → m ≡ record { key = p.vote.token; value = encode_record c 1 p.vote }
      → RecordOf loopback c p m
  whole_frame :
      length p.frame ≢ 0
      → encode_frame loopback c p.frame ≡ bytes m.value
      → m.key ≡ []
      → RecordOf loopback c p m

-- The receipt names the offset of the job's record in the log, and its instant of admission.
pub record InLog (loopback : Bytes → Bool) (c : Config) (issued : List Pending) (log : List Entry)
    (a : Answer) : Type 0 where
  pub job : Pending
  pub message : Message
  pub issued_as : get_elem? issued a.ticket ≡ some job
  pub record_of : RecordOf loopback c job message
  pub logged :
      In (record { offset = a.receipt.offset; key = message.key; value = message.value }) log
  pub admitted : a.receipt.admitted_at ≡ admitted_of job

abbrev pub Acked : (Bytes → Bool) → Config → List Pending → List Entry → Answer → Type 0
Acked loopback c issued log a = a.err ≡ none → InLog loopback c issued log a

pub record Books (loopback : Bytes → Bool) (c : Config) (issued held batch jobs : List Pending)
    (answers : List Answer) (log : List Entry) : Type 0 where
  pub tallied :
      (t : ℕ)
      → in_answers t answers + (in_pending t batch + (in_pending t jobs + in_pending t held))
        ≡ below t (length issued)
  pub batch_placed : All (Placed issued) batch
  pub jobs_placed : All (Placed issued) jobs
  pub held_placed : All (Placed issued) held
  pub acked : All (Acked loopback c issued log) answers

pub All-append :
    {A : Type 0} (P : A → Type 0) (xs ys : List A) → All P xs → All P ys → All P (xs ++ ys)
All-append P [] ys h k = k
All-append P (x ∷ xs) ys h k = (h.0, All-append P xs ys h.1 k)

pub All-map :
    {A : Type 0} (P Q : A → Type 0) (xs : List A) → ((x : A) → P x → Q x) → All P xs → All Q xs
All-map P Q [] f h = tt
All-map P Q (x ∷ xs) f h = (f x h.0, All-map P Q xs f h.1)

pub in_answers-errors_of :
    (t : ℕ) (e : StoreError) (ps : List Pending) → in_answers t (errors_of e ps) ≡ in_pending t ps
unfolding errors_of
in_answers-errors_of t e [] = refl
in_answers-errors_of t e (p ∷ ps) = ap (λ n. one t p.ticket + n) (in_answers-errors_of t e ps)

in_answers-receipts_of :
    (t partition : ℕ) (offsets : ℕ → ℕ) (i : ℕ) (ps : List Pending)
    → in_answers t (receipts_of partition offsets i ps) ≡ in_pending t ps
unfolding receipts_of
in_answers-receipts_of t partition offsets i [] = refl
in_answers-receipts_of t partition offsets i (p ∷ ps) =
    ap (λ n. one t p.ticket + n) (in_answers-receipts_of t partition offsets (i + 1) ps)

pub in_answers-answers_of :
    (t partition : ℕ) (offsets : ℕ → ℕ) (ps : List Pending) (e : Option Failure)
    → in_answers t (answers_of partition offsets ps e) ≡ in_pending t ps
unfolding answers_of
in_answers-answers_of t partition offsets ps none = in_answers-receipts_of t partition offsets 0 ps
in_answers-answers_of t partition offsets ps (some e) = in_answers-errors_of t (unknown e) ps

module _ (loopback : Bytes → Bool) (c : Config) (issued : List Pending) (log : List Entry) where
  pub errors-Acked :
      (e : StoreError) (ps : List Pending) → All (Acked loopback c issued log) (errors_of e ps)
  unfolding errors_of
  errors-Acked e [] = tt
  errors-Acked e (p ∷ ps) = ((λ h. cc), errors-Acked e ps)

  -- The messages of a batch, one for each job.
  abbrev Recorded : List Pending → List Message → Type 0
  Recorded [] [] = Unit {0}
  Recorded [] (m ∷ ms) = ⊥
  Recorded (p ∷ ps) [] = ⊥
  Recorded (p ∷ ps) (m ∷ ms) = RecordOf loopback c p m × Recorded ps ms

  receipts-Acked :
      (partition : ℕ) (offsets : ℕ → ℕ) (i : ℕ) (ps : List Pending) (ms : List Message)
      → All (Placed issued) ps
      → Recorded ps ms
      → ((e : Entry) → In e (entries_of offsets i ms) → In e log)
      → All (Acked loopback c issued log) (receipts_of partition offsets i ps)
  unfolding receipts_of entries_of
  receipts-Acked partition offsets i [] ms placed rec sub = tt
  receipts-Acked partition offsets i (p ∷ ps) [] placed rec sub = elim rec [ ]
  receipts-Acked partition offsets i (p ∷ ps) (m ∷ ms) placed rec sub = (
    (λ _. record {
      job = p;
      message = m;
      issued_as = placed.0;
      record_of = rec.0;
      logged = sub _ (inl refl);
      admitted = refl;
    }),
    receipts-Acked partition offsets (i + 1) ps ms placed.1 rec.1 (λ e h. sub e (inr h)),
  )

  also-messages :
      (m : Message) (o : Messages) (ms : List Message)
      → also m o ≡ messages ms
      → (rest : List Message) × (o ≡ messages rest) × (ms ≡ m ∷ rest)
  unfolding also
  also-messages m (messages rest) ms h = (rest, refl, unpack h)
    where
      unpack : {xs ys : List Message} → messages xs ≡ messages ys → ys ≡ xs
      unpack h = cc
  also-messages m (unencodable e) ms h = cc

  framed-messages :
      (b : Encoded) (o : Messages) (ms : List Message)
      → framed b o ≡ messages ms
      → (v : Bytes) × ((rest : List Message) × (b ≡ bytes v)
          × (o ≡ messages rest)
          × (ms ≡ record { key = []; value = v } ∷ rest))
  unfolding framed
  framed-messages (bytes v) o ms h =
      let (rest, e, k) = also-messages _ o ms h in (v, (rest, refl, e, k))
  framed-messages (rejected e) o ms h = cc

  messages_of-Recorded :
      (ps : List Pending) (ms : List Message)
      → messages_of loopback c ps ≡ messages ms
      → Recorded ps ms
  unfolding messages_of
  messages_of-Recorded [] [] h = tt
  messages_of-Recorded [] (m ∷ ms) h = cc
  messages_of-Recorded (p ∷ ps) ms h = elim (Bool-cases (length p.frame == 0)) [
    | inl e ↦
        let (rest, o, m) = also-messages _ (messages_of loopback c ps) ms (rw e at h) in
        rw m (single (==_sound (length p.frame) 0 e) refl, messages_of-Recorded ps rest o)
    | inr e ↦
        let (v, (rest, b, o, m)) =
          framed-messages (encode_frame loopback c p.frame) (messages_of loopback c ps) ms
            (rw e at h) in
        rw m (whole_frame (==_no (length p.frame) 0 e) b refl, messages_of-Recorded ps rest o)
  ]

-- A batch whose transaction has returned no error: its receipts are in the log.
pub answers-Acked :
    (loopback : Bytes → Bool) (c : Config) (issued : List Pending) (log : List Entry)
    (partition : ℕ) (offsets : ℕ → ℕ) (ps : List Pending) (ms : List Message) (e : Option Failure)
    → All (Placed issued) ps
    → messages_of loopback c ps ≡ messages ms
    → (e ≡ none → (x : Entry) → In x (entries_of offsets 0 ms) → In x log)
    → All (Acked loopback c issued log) (answers_of partition offsets ps e)
unfolding answers_of
answers-Acked loopback c issued log partition offsets ps ms none placed h sub =
    receipts-Acked loopback c issued log partition offsets 0 ps ms placed
      (messages_of-Recorded loopback c issued log ps ms h) (sub refl)
answers-Acked loopback c issued log partition offsets ps ms (some e) placed h sub =
    errors-Acked loopback c issued log (unknown e) ps

-- A longer log has the receipts still.
pub InLog-grow :
    (loopback : Bytes → Bool) (c : Config) (issued more : List Pending) (log log' : List Entry)
    (a : Answer)
    → ((x : Entry) → In x log → In x log')
    → ((p : Pending) (t : ℕ) → get_elem? issued t ≡ some p → get_elem? (issued ++ more) t ≡ some p)
    → Acked loopback c issued log a
    → Acked loopback c (issued ++ more) log' a
InLog-grow loopback c issued more log log' a sub still h ok =
    let i = h ok in
    record {
      job = i.job;
      message = i.message;
      issued_as = still i.job a.ticket i.issued_as;
      record_of = i.record_of;
      logged = sub _ i.logged;
      admitted = i.admitted;
    }
