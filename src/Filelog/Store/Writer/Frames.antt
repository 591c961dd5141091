-- ===== src/Filelog/Store/Writer/Frames.antt =====
-- The frames that a flush writes, as the journal of internal/filelog/scan.go has them.
use gigaquizz.Common.{
  ℕ, suc, ◌+◌, ◌%◌, ◌^◌, ◌≤◌, ◌≡◌, refl, sym, ap, ap₂, ◌∙◌, List, [], ◌∷◌, Option, none, some,
  get_elem?, ◌++◌, length, All, arith,
}
use gigaquizz.Common.Bytes.{zeros}
use gigaquizz.Filelog.Types.{Config, Input}
use gigaquizz.Filelog.Codec.{encode_inputs, encode_entries, finish_frame}
use gigaquizz.Filelog.Codec.Frames.{closed_frame, finish_frame-header_of}
use gigaquizz.Filelog.Scan.Journal.{Batch, IsBatch, frame_bytes, journal_bytes}
use gigaquizz.Filelog.Store.{Job}
use gigaquizz.Filelog.Store.Writer.{frames_of}
use mathlib.Core.List.{append_assoc, append-nil}

-- What the calls of SubmitFrame have queued, in order: the votes and the instant under each ticket. The
-- invariant is also of use without such a log.
abbrev pub Log : Type 0
Log = Option (List Batch)

abbrev pub Noted : Log → ℕ → Batch → Type 0
Noted none ticket b = Unit {0}
Noted (some log) ticket b = get_elem? log ticket ≡ some b

-- `j` is a job of SubmitFrame that carries the votes of `b`.
pub record IsJob (c : Config) (log : Log) (j : Job) (b : Batch) : Type 0 where
  pub data_ : j.data_ ≡ encode_inputs b.inputs b.admitted
  pub count : j.count ≡ length b.inputs
  pub admitted : j.admitted ≡ b.admitted
  pub batch : IsBatch c b
  pub fits : j.count ≤ c.batch_size
  pub noted : Noted log j.ticket b

abbrev pub Carry : Config → Log → List Job → List Batch → Type 0
Carry c log [] [] = Unit {0}
Carry c log [] (b ∷ bs) = ⊥
Carry c log (j ∷ js) [] = ⊥
Carry c log (j ∷ js) (b ∷ bs) = IsJob c log j b × Carry c log js bs

finish_frame-encode_inputs :
    (is : List Input) (t sequence : ℕ)
    → finish_frame (encode_inputs is t) sequence 1 (length is)
      ≡ frame_bytes (record { inputs = is; admitted = t }) sequence
unfolding encode_inputs
finish_frame-encode_inputs is t sequence =
    finish_frame-header_of (encode_entries is t) sequence 1 (length is)

job_frame :
    (c : Config) (log : Log) (j : Job) (b : Batch) (sequence : ℕ)
    → IsJob c log j b
    → finish_frame j.data_ sequence 1 (j.count % 2 ^ 32) ≡ frame_bytes b sequence
job_frame c log j b sequence h =
    let few = h.batch.few_votes in
    let word : j.count % 2 ^ 32 ≡ length b.inputs = omega (arith, h.count, few) in
    ap₂ (λ data_ n. finish_frame data_ sequence 1 n) h.data_ word
    ∙ finish_frame-encode_inputs b.inputs b.admitted sequence

pub frames_of-journal_bytes :
    (c : Config) (log : Log) (js : List Job) (bs : List Batch) (sequence : ℕ)
    → Carry c log js bs
    → frames_of sequence js ≡ journal_bytes sequence bs
unfolding frames_of journal_bytes
frames_of-journal_bytes c log [] [] sequence h = refl
frames_of-journal_bytes c log [] (b ∷ bs) sequence h = absurd h
frames_of-journal_bytes c log (j ∷ js) [] sequence h = absurd h
frames_of-journal_bytes c log (j ∷ js) (b ∷ bs) sequence h =
    ap₂ (λ x y. x ++ y) (job_frame c log j b sequence h.0)
      (frames_of-journal_bytes c log js bs (sequence + 1) h.1)

pub journal_bytes-append :
    (xs ys : List Batch) (sequence : ℕ)
    → journal_bytes sequence (xs ++ ys)
      ≡ journal_bytes sequence xs ++ journal_bytes (sequence + length xs) ys
unfolding journal_bytes
journal_bytes-append [] ys sequence = ap (λ k. journal_bytes k ys) (omega arith)
journal_bytes-append (x ∷ xs) ys sequence =
    ap (λ t. frame_bytes x sequence ++ t)
      (journal_bytes-append xs ys (sequence + 1)
        ∙ ap (λ k. journal_bytes (sequence + 1) xs ++ journal_bytes k ys) (omega arith))
    ∙ sym (append_assoc (frame_bytes x sequence) (journal_bytes (sequence + 1) xs) _)

pub Carry-length :
    (c : Config) (log : Log) (js : List Job) (bs : List Batch)
    → Carry c log js bs
    → length js ≡ length bs
Carry-length c log [] [] h = refl
Carry-length c log [] (b ∷ bs) h = absurd h
Carry-length c log (j ∷ js) [] h = absurd h
Carry-length c log (j ∷ js) (b ∷ bs) h = ap suc (Carry-length c log js bs h.1)

pub Carry-good :
    (c : Config) (log : Log) (js : List Job) (bs : List Batch)
    → Carry c log js bs
    → All (IsBatch c) bs
Carry-good c log [] [] h = tt
Carry-good c log [] (b ∷ bs) h = absurd h
Carry-good c log (j ∷ js) [] h = absurd h
Carry-good c log (j ∷ js) (b ∷ bs) h = (h.0.batch, Carry-good c log js bs h.1)

pub Carry-snoc :
    (c : Config) (log : Log) (js : List Job) (bs : List Batch) (j : Job) (b : Batch)
    → Carry c log js bs
    → IsJob c log j b
    → Carry c log (js ++ j ∷ []) (bs ++ b ∷ [])
Carry-snoc c log [] [] j b h k = (k, tt)
Carry-snoc c log [] (b' ∷ bs) j b h k = absurd h
Carry-snoc c log (j' ∷ js) [] j b h k = absurd h
Carry-snoc c log (j' ∷ js) (b' ∷ bs) j b h k = (h.0, Carry-snoc c log js bs j b h.1 k)

-- The barrier that the writer adds.
pub finish_frame-closed_frame :
    (sequence : ℕ) → finish_frame (zeros 40) sequence 2 0 ≡ closed_frame sequence
finish_frame-closed_frame sequence =
    ap (λ b. finish_frame b sequence 2 0) (sym (append-nil (zeros 40)))
    ∙ finish_frame-header_of [] sequence 2 0
    ∙ append-nil (closed_frame sequence)
