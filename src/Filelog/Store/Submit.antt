-- ===== src/Filelog/Store/Submit.antt =====
-- The outcomes of SubmitFrame.
use gigaquizz.Common.{
  ◌+◌, ◌^◌, ◌≤◌, ◌<◌, ◌≡◌, true, false, not, ◌||◌, &&_split, not-true, List, [], ◌∷◌, ◌++◌, none,
  ltb, ltb-false, ◌==◌, if_cases, option_cases, length, All, arith,
}
use gigaquizz.GoTime.{before}
use gigaquizz.Filelog.Types.{Config, Input, InWindow}
use gigaquizz.Filelog.Codec.{encode_inputs}
use gigaquizz.Filelog.Codec.Entries.{IsInput}
use gigaquizz.Filelog.Store.{
  StoreError, invalid, closed, not_open, busy, context_done, Job, Store, add64, Moment, Submitted,
  refused, queued, valid_inputs, admit, submit_locked, submit_frame,
}

-- The types of the source: a token is a [16]byte and a choice a uint32.
pub record TypedInput (i : Input) : Type 0 where
  pub size : length i.token ≡ 16
  pub word : i.choice < 2 ^ 32

pub valid_inputs-IsInput :
    (c : Config) (is : List Input)
    → All TypedInput is
    → valid_inputs c is ≡ true
    → All (IsInput c) is
unfolding valid_inputs
valid_inputs-IsInput c [] t h = tt
valid_inputs-IsInput c (i ∷ is) t h =
    let (first, others) = &&_split _ _ h in
    let (token, choice) = &&_split _ _ first in
    (
      record { size = t.0.size; nonzero = not-true _ token; word = t.0.word; choice = choice },
      valid_inputs-IsInput c is t.1 others,
    )

-- The job that SubmitFrame queues, and the store with it.
abbrev pub job_of : Moment → List Input → Store → Job
job_of m inputs s = record {
  data_ = encode_inputs inputs m.now;
  count = length inputs;
  admitted = m.now;
  ticket = s.tickets;
}

abbrev pub with_job : Moment → List Input → Store → Store
with_job m inputs s = record s {
  queued_votes = s.queued_votes + length inputs;
  queue = s.queue ++ job_of m inputs s ∷ [];
  tickets = s.tickets + 1;
}

-- What holds of a frame that is queued.
pub record Admitted (c : Config) (m : Moment) (inputs : List Input) (s : Store) : Type 0 where
  pub some_votes : 1 ≤ length inputs
  pub few_votes : length inputs ≤ 4096
  pub fits : length inputs ≤ c.batch_size
  pub inputs_ok : valid_inputs c inputs ≡ true
  pub clean : s.poison ≡ none
  pub open_ : s.admission_closed ≡ false
  pub room : s.queued_votes + length inputs ≤ c.queue_per_partition
  pub window : InWindow c m.now

module _ (Q : Store × Submitted → Type 0) (c : Config) (m : Moment) (inputs : List Input)
    (s : Store) where
  admit_cases :
      ((e : StoreError) → Q (s, refused e))
      → (Q (record s { admission_closed = true }, refused closed))
      → (InWindow c m.now → Q (with_job m inputs s, queued s.tickets))
      → Q (admit c m inputs s)
  unfolding admit
  admit_cases deny late grant =
      if_cases Q (before m.now c.starts_at) _ _ (λ _. deny not_open)
        (λ from.
          if_cases Q (not (before m.now c.ends_at)) _ _ (λ _. late)
            (λ until.
              if_cases Q m.done_after _ _ (λ _. deny context_done)
                (λ _. grant (record { from = ground arith; until = ground arith }))))

  pub submit_frame_cases :
      ((e : StoreError) → Q (s, refused e))
      → (Q (record s { admission_closed = true }, refused closed))
      → (Q (record s { busy_votes = add64 s.busy_votes (length inputs) }, refused busy))
      → (Admitted c m inputs s → Q (with_job m inputs s, queued s.tickets))
      → Q (submit_frame c m inputs s)
  unfolding submit_frame submit_locked
  submit_frame_cases deny late full grant =
      if_cases Q
        (length inputs == 0 || ltb 4096 (length inputs) || ltb c.batch_size (length inputs)) _ _
        (λ _. deny invalid)
        (λ sized.
          if_cases Q (not (valid_inputs c inputs)) _ _ (λ _. deny invalid)
            (λ ok.
              if_cases Q m.done_before _ _ (λ _. deny context_done)
                (λ _.
                  option_cases Q s.poison _ _
                    (λ clean.
                      if_cases Q s.admission_closed _ _ (λ _. deny closed)
                        (λ open_.
                          if_cases Q (not (before m.observed c.ends_at)) _ _ (λ _. late)
                            (λ _.
                              if_cases Q (before m.observed c.starts_at) _ _ (λ _. deny not_open)
                                (λ _.
                                  if_cases Q
                                    (ltb c.queue_per_partition (s.queued_votes + length inputs)) _ _
                                    (λ _. full)
                                    (λ room. admit_cases deny late (λ window. grant (record {
                                      some_votes = ground arith;
                                      few_votes = ground arith;
                                      fits = ground arith;
                                      inputs_ok = ground arith;
                                      clean = clean;
                                      open_ = open_;
                                      room =
                                          ltb-false c.queue_per_partition
                                            (s.queued_votes + length inputs) room;
                                      window = window;
                                    })))))))
                    (λ e _. deny e))))
