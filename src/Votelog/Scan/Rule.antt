-- ===== src/Votelog/Scan/Rule.antt =====
-- What every call of the visitor keeps, the scan keeps.
use gigaquizz.Common.{
  ℕ, ◌-◌, ◌<◌, ◌≡◌, refl, true, false, not, List, [], ◌∷◌, Option, none, some, set, get_or,
  replicate, leb, leb-false, ◌==◌, ==_sound, if_cases,
}
use gigaquizz.Common.Int.{ℤ, pos, negsuc, ◌≤b◌}
use gigaquizz.Votelog.{Config}
use gigaquizz.Votelog.Scan.{
  Record, Fetch, Poll, Seen, goes, ends, fails, ScanError, Scan, Scanned, finished, failed, waiting,
  unless_failed, record_seen, poll_again, scan_record, scan_records, scan_fetch, scan_fetches,
  scan_poll, scan_loop, scan,
}

-- The scan's variables once the visitor has ended partition `p` with the state `s`.
abbrev pub end_of : {S : Type 0} → ℕ → S → Scan S → Scan S
end_of p s t = record t { state = s; done = set t.done p true; remaining = t.remaining - 1 }

abbrev pub After : {S E : Type 0} → (Scan S → Type 0) → ℕ → Scan S → S × Seen E → Type 0
After P p t (s, goes) = P (record t { state = s })
After P p t (s, ends) = P (end_of p s t)
After P p t (s, fails e) = Unit {0}

abbrev Going : {S E : Type 0} → (Scan S → Type 0) → Scan S × Option (ScanError E) → Type 0
Going P (t, none) = P t
Going P (t, some e) = Unit {0}

-- A scan that has finished left some variables with which `P` holds, and no partition remains.
abbrev pub Ended : {S E : Type 0} → (Scan S → Type 0) → Scanned S E → Type 0
Ended {S} P (finished s) = (t : Scan S) × P t × (t.remaining ≡ 0) × (t.state ≡ s)
Ended P (failed s e) = Unit {0}
Ended P (waiting t) = P t

module _ {S E : Type 0} (c : Config) (visit : ℕ → Record → S → S × Seen E) (P : Scan S → Type 0)
    (keeps : (p : ℕ) (r : Record) (t : Scan S)
      → p < c.partitions
      → get_or t.done p false ≡ false
      → P t
      → After P p t (visit p r t.state)) where
  seen_keeps : (p : ℕ) (t : Scan S) (o : S × Seen E) → After P p t o → Going P (record_seen p t o)
  unfolding record_seen
  seen_keeps p t (s, goes) h = h
  seen_keeps p t (s, ends) h = h
  seen_keeps p t (s, fails e) h = tt

  unless_keeps :
      (k : Scan S → Scan S × Option (ScanError E)) (o : Scan S × Option (ScanError E))
      → ((t : Scan S) → P t → Going P (k t))
      → Going P o
      → Going P (unless_failed k o)
  unfolding unless_failed
  unless_keeps k (t, none) h g = h t g
  unless_keeps k (t, some e) h g = tt

  record_keeps :
      (p : ℕ) (r : Record) (t : Scan S) → p < c.partitions → P t → Going P (scan_record visit p r t)
  unfolding scan_record
  record_keeps p r t low h =
      if_cases (Going P) (get_or t.done p false) _ _ (λ _. h)
        (λ open_.
          if_cases (Going P) (not r.transactional) _ _ (λ _. tt)
            (λ _. seen_keeps p t (visit p r t.state) (keeps p r t low open_ h)))

  records_keep :
      (p : ℕ) (rs : List Record) (t : Scan S)
      → p < c.partitions
      → P t
      → Going P (scan_records visit p rs t)
  unfolding scan_records
  records_keep p [] t low h = h
  records_keep p (r ∷ rs) t low h =
      unless_keeps _ (scan_record visit p r t) (λ t' h'. records_keep p rs t' low h')
        (record_keeps p r t low h)

  fetch_keeps : (f : Fetch) (t : Scan S) → P t → Going P (scan_fetch visit c f t)
  unfolding scan_fetch
  fetch_keeps f t h = at f.partition f.log_start f.records
    where
      at :
          (partition start : ℤ) (records : List Record)
          → Going P (
              scan_fetch visit c
                (record { partition = partition; log_start = start; records = records })
                t)
      at (negsuc n) start records = tt
      at (pos p) start records =
          if_cases (Going P) (leb c.partitions p) _ _ (λ _. tt)
            (λ low.
              if_cases (Going P) (not (start ≤b pos 0)) _ _ (λ _. tt)
                (λ _. records_keep p records t (leb-false c.partitions p low) h))

  fetches_keep : (fs : List Fetch) (t : Scan S) → P t → Going P (scan_fetches visit c fs t)
  unfolding scan_fetches
  fetches_keep [] t h = h
  fetches_keep (f ∷ fs) t h =
      unless_keeps _ (scan_fetch visit c f t) (λ t' h'. fetches_keep fs t' h') (fetch_keeps f t h)

  poll_keeps : (p : Poll) (t : Scan S) → P t → Going P (scan_poll visit c p t)
  unfolding scan_poll
  poll_keeps p t h = at p.cancelled p.errors p.fetches
    where
      at :
          (cancelled : Option ℕ) (errors : List ℕ) (fetches : List Fetch)
          → Going P (
              scan_poll visit c
                (record { cancelled = cancelled; errors = errors; fetches = fetches })
                t)
      at (some e) errors fetches = tt
      at none (e ∷ es) fetches = tt
      at none [] fetches = fetches_keep fetches t h

  again_keeps :
      (k : Scan S → Scanned S E) (o : Scan S × Option (ScanError E))
      → ((t : Scan S) → P t → Ended P (k t))
      → Going P o
      → Ended P (poll_again k o)
  unfolding poll_again
  again_keeps k (t, none) h g = h t g
  again_keeps k (t, some e) h g = tt

  loop_keeps : (ps : List Poll) (t : Scan S) → P t → Ended P (scan_loop visit c ps t)
  unfolding scan_loop
  loop_keeps [] t h =
      if_cases (Ended P) (t.remaining == 0) _ _ (λ e. (t, h, ==_sound t.remaining 0 e, refl))
        (λ _. h)
  loop_keeps (p ∷ ps) t h =
      if_cases (Ended P) (t.remaining == 0) _ _ (λ e. (t, h, ==_sound t.remaining 0 e, refl))
        (λ _.
          again_keeps _ (scan_poll visit c p t) (λ t' h'. loop_keeps ps t' h') (poll_keeps p t h))

  -- A property of the variables that holds at the start and that the visitor keeps, on every record
  -- of a partition that has not ended, holds when the scan finishes or waits.
  pub scan_keeps :
      (client : Option ℕ) (polls : List Poll) (s : S)
      → P (record { done = replicate c.partitions false; remaining = c.partitions; state = s })
      → Ended P (scan visit client c polls s)
  unfolding scan
  scan_keeps (some e) polls s h = tt
  scan_keeps none polls s h = loop_keeps polls _ h
