-- ===== src/Votelog/Store/Machine.antt =====
-- A partition's writer as a state machine: the calls of the store's clients and the steps of `run`, in any
-- order, for any clock and any behaviour of the broker.
use gigaquizz.Common.{ℕ, ◌≤◌, ◌≡◌, Bool, true, false, List, length}
use gigaquizz.Common.Bytes.{Bytes}
use gigaquizz.Votelog.{Config, Input}
use gigaquizz.Votelog.Store.{Writer, submit_locked, submit_frame_locked, begin_seal}
use gigaquizz.Votelog.Store.Run.{Broker, take_job, tick, seal_run, end_run}

module _ (loopback : Bytes → Bool) (c : Config) (broker : ℕ → Broker) where
  pub data Step (w d : Writer) : Type 0 where
    submits :
        (cancelled : Bool) (now : ℕ) (token : Bytes) (choice : ℕ)
        → d ≡ (submit_locked c cancelled now token choice w).0
        → Step w d
    submits_frame :
        (cancelled : Bool) (now : ℕ) (inputs : List Input)
        → 1 ≤ length inputs
        → length inputs ≤ c.batch_size
        → d ≡ (submit_frame_locked c cancelled now inputs w).0
        → Step w d
    seals : d ≡ (begin_seal w).0 → Step w d
    -- The branches of the `select` of `run`, which runs until it is done.
    takes : w.done ≡ false → d ≡ take_job loopback c broker w → Step w d
    ticks : w.done ≡ false → d ≡ tick loopback c broker w → Step w d
    seals_log :
        w.done ≡ false → w.seal_requested ≡ true → d ≡ seal_run loopback c broker w → Step w d
    stops : w.done ≡ false → d ≡ end_run loopback c broker w → Step w d

  pub data Reach (w : Writer) : Writer → Type 0 where
    here : Reach w w
    next : {t u : Writer} → Reach w t → Step t u → Reach w u
