-- ===== src/Filelog/Store/Machine.antt =====
-- The store as a state machine: the calls of its clients and the steps of its writer, in any order.
use gigaquizz.Common.{ℕ, ◌≡◌, true, false, List, [], ◌∷◌, ◌++◌, Option, none, some, All}
use gigaquizz.Filelog.Types.{Config, Input}
use gigaquizz.Filelog.Scan.Journal.{Batch}
use gigaquizz.Filelog.Store.{
  Job, Answer, Store, Moment, Submitted, refused, queued, submit_frame, awaited, stop_queue,
  begin_seal,
}
use gigaquizz.Filelog.Store.Submit.{TypedInput}
use gigaquizz.Filelog.Store.Writer.{Disk, receive, settle, tick, finish}

pub data Step (c : Config) (s d : Store) : Type 0 where
  submits :
      (m : Moment) (inputs : List Input)
      → All TypedInput inputs
      → d ≡ (submit_frame c m inputs s).0
      → Step c s d
  awaits : (count : ℕ) (a : Option Answer) → d ≡ (awaited count a s).0 → Step c s d
  seals : d ≡ begin_seal s → Step c s d
  closes : d ≡ stop_queue s → Step c s d
  -- The writer's steps; it runs until it has finished.
  receives : s.finished ≡ false → s.pending ≡ none → d ≡ receive s → Step c s d
  settles :
      (w w' : Disk) (j : Job)
      → s.finished ≡ false
      → s.pending ≡ some j
      → d ≡ settle c w w' j s
      → Step c s d
  ticks :
      (w : Disk)
      → s.finished ≡ false
      → s.pending ≡ none
      → s.ticking ≡ true
      → d ≡ tick w s
      → Step c s d
  finishes :
      (w w' : Disk)
      → s.finished ≡ false
      → s.pending ≡ none
      → s.queue_closed ≡ true
      → s.queue ≡ []
      → d ≡ finish w w' s
      → Step c s d

pub data Reach (c : Config) (s : Store) : Store → Type 0 where
  here : Reach c s s
  next : {t u : Store} → Reach c s t → Step c t u → Reach c s u

-- The frame that a call of SubmitFrame has queued, if it has.
abbrev pub queued_frame : Submitted → Batch → List Batch
queued_frame (refused e) b = []
queued_frame (queued ticket) b = b ∷ []

abbrev pub entered : {c : Config} {s d : Store} → Step c s d → List Batch
entered {c} {s} (submits m inputs typed e) =
    queued_frame (submit_frame c m inputs s).1 (record { inputs = inputs; admitted = m.now })
entered (awaits count a e) = []
entered (seals e) = []
entered (closes e) = []
entered (receives f p e) = []
entered (settles w w' j f p e) = []
entered (ticks w f p t e) = []
entered (finishes w w' f p q empty e) = []

-- The votes of the calls of SubmitFrame that a run has queued, in order, each with the instant at
-- which it was admitted.
abbrev pub submissions : {c : Config} {s d : Store} → Reach c s d → List Batch
submissions here = []
submissions (next r step) = submissions r ++ entered step
