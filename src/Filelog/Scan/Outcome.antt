-- ===== src/Filelog/Scan/Outcome.antt =====
-- What Scan and Replay promise of any bytes.
use gigaquizz.Common.{ℕ, ◌≡◌, ◌≢◌, Bool, true, false, Option, none, some, length, arith}
use gigaquizz.Common.Bytes.{Bytes}
use gigaquizz.Filelog.Types.{Config, Vote, Position, ScanResult}
use gigaquizz.Filelog.Codec.{valid_vote}
use gigaquizz.Filelog.Scan.{out_of_fuel, scan, replay}
use gigaquizz.Filelog.Scan.Sound.{Kept, Ended, accounted, scan-Ended}

module _ {S E : Type 0} (visit : Position → Vote → S → S × Option E) (cancelled : ℕ → Bool)
    (c : Config) (marshal : Config → Bytes) where
  -- Whatever bytes the files hold, Scan gives its visitor only votes that pass the checks of the
  -- configuration (a nonzero token, a valid choice, an admission in the window): a property of the
  -- visitor's state that every valid vote preserves still holds when Scan ends, with an error or
  -- without one.
  pub scan-visits_valid :
      (P : S → Type 0)
      → ((p : Position) (v : Vote) (s : S) → valid_vote c v ≡ true → P s → P ((visit p v s).0))
      → (wal poll : Bytes) (s : S) → P s
      → P ((scan visit cancelled c marshal wal poll s).1)
  unfolding Ended Kept
  scan-visits_valid P kept wal poll s p =
      (scan-Ended visit c P kept cancelled marshal wal poll s p).0

  -- Scan always ends by itself: the model's loop never runs out of its fuel.
  pub scan-terminates :
      (wal poll : Bytes) (s : S) → (scan visit cancelled c marshal wal poll s).2 ≢ some out_of_fuel
  unfolding Ended Kept
  scan-terminates wal poll s =
      (scan-Ended visit c (λ _. Unit) (λ _ _ _ _ u. u) cancelled marshal wal poll s tt).1

  -- When Scan reports no error, the bytes that it counts as valid are the whole file, or a proper
  -- part of it exactly when it reports an incomplete tail.
  pub scan-accounted :
      (wal poll : Bytes) (s : S)
      → (scan visit cancelled c marshal wal poll s).2 ≡ none
      → accounted ((scan visit cancelled c marshal wal poll s).0) (length wal) ≡ true
  unfolding Ended Kept
  scan-accounted wal poll s ok =
      (scan-Ended visit c (λ _. Unit) (λ _ _ _ _ u. u) cancelled marshal wal poll s tt).2 ok

  replay-none :
      (wal poll : Bytes) (s : S)
      → (replay visit cancelled c marshal wal poll s).1 ≡ none
      → ((scan visit cancelled c marshal wal poll s).2 ≡ none)
        × ((scan visit cancelled c marshal wal poll s).0.closed ≡ true)
        × ((scan visit cancelled c marshal wal poll s).0.incomplete_tail ≡ false)
  unfolding replay
  replay-none wal poll s ok =
      let out = scan visit cancelled c marshal wal poll s in
      (ground arith, ground arith, ground arith)

  -- When Replay succeeds, the journal is closed by its barrier and the header and valid frames that
  -- Scan counts are all bytes of the file: there is nothing behind the barrier, not even a part of a frame.
  pub replay-reads_all :
      (wal poll : Bytes) (s : S)
      → (replay visit cancelled c marshal wal poll s).1 ≡ none
      → ((scan visit cancelled c marshal wal poll s).0.closed ≡ true)
        × ((scan visit cancelled c marshal wal poll s).0.valid_bytes ≡ length wal)
  replay-reads_all wal poll s ok =
      let (no_error, shut, whole) = replay-none wal poll s ok in
      let out = (scan visit cancelled c marshal wal poll s).0 in
      (shut, exact out (length wal) whole (scan-accounted wal poll s no_error))
    where
      exact :
          (r : ScanResult) (n : ℕ)
          → r.incomplete_tail ≡ false
          → accounted r n ≡ true
          → r.valid_bytes ≡ n
      exact r n whole h = ground arith
