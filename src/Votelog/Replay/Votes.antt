-- ===== src/Votelog/Replay/Votes.antt =====
-- The visitor of a replay is called on valid votes only, each from the partition of its token.
use gigaquizz.Common.{
  refl, sym, subst, arith, ℕ, ◌≡◌, ap, ◌∙◌, Bool, true, false, not, not-false, ◌||◌, ◌==◌, ltb,
  if_cases, Option, none, some, List, get_or, length, ==_sound, inl, inr, Bool-cases,
}
use gigaquizz.Common.Bytes.{Bytes, bytes_eq}
use gigaquizz.Common.Int.{negsuc}
use gigaquizz.Votelog.{
  validate, ConfigError, Config, Vote, Position, Decoded, decoded, refused, decode_record,
  partition, record_vote, record_boot, record_closed,
}
use gigaquizz.Votelog.Frame.{FrameError, valid_frame_vote}
use gigaquizz.Votelog.Frame.Visits.{valid_frame_vote-eq, Kept, frame_keeps}
use gigaquizz.Votelog.Records.{decode_record_sound}
use gigaquizz.Votelog.Scan.{
  Record, Poll, Seen, goes, ends, fails, Scan, Scanned, finished, failed, waiting,
}
use gigaquizz.Votelog.Scan.Rule.{After, Ended, scan_keeps}
use gigaquizz.Votelog.Replay.{
  Manifest, when_valid, manifest_of, ended_with, Outcome, result, outcome_of, replay_all, outside,
  lacks_boot, is_frame, EntryError, ReplayError, Replayed, is_closed, at_barrier, reaches,
  entry_result, frame_result, vote_result, visit_entry, replay_frame, replay_kind, replay_record,
  replay_visit, replay,
}

-- `Q` of the state behind a step of the scan, unless that returned an error.
abbrev pub KeptBy : {S E : Type 0} → (S → Type 0) → S × Seen E → Type 0
KeptBy Q (t, goes) = Q t
KeptBy Q (t, ends) = Q t
KeptBy Q (t, fails e) = Unit {0}

-- What a vote is checked for before the visitor sees it.
pub record Admitted (sha256 : Bytes → Bytes) (c : Config) (p : Position) (v : Vote) : Type 0 where
  pub valid : valid_frame_vote c v ≡ true
  pub routed : partition sha256 c v.token ≡ p.partition

-- A replay that returns a result has finished, and the result is made of its last state.
pub record Result {S E : Type 0} (c : Config) (o : Scanned (Replayed S) (ReplayError E))
    (m : Manifest) (s : S) : Type 0 where
  pub last : Replayed S
  pub ended : o ≡ finished last
  pub manifest_is : m ≡ manifest_of c last.closed
  pub state_is : s ≡ last.state

result-inj : {A E : Type 0} (a b : A) (o : Outcome A E) → o ≡ result a → o ≡ result b → a ≡ b
result-inj a b o h k = cc

outcome_result :
    {S E : Type 0} (c : Config) (o : Scanned (Replayed S) (ReplayError E)) (m : Manifest) (s : S)
    → outcome_of (ended_with c) o ≡ result (m, s)
    → Result c o m s
unfolding outcome_of
outcome_result c (finished t) m s h =
    let same = result-inj (ended_with c t) (m, s) (result (ended_with c t)) refl h in
    record {
      last = t;
      ended = refl;
      manifest_is = sym (ap (λ x. x.0) same);
      state_is = sym (ap (λ x. x.1) same);
    }
outcome_result c (failed t e) m s h = cc
outcome_result c (waiting t) m s h = cc

when_valid-result :
    {A E : Type 0} (e : Option ConfigError) (o : Outcome A E) (a : A)
    → when_valid e o ≡ result a
    → o ≡ result a
unfolding when_valid
when_valid-result none o a h = h
when_valid-result (some e) o a h = cc

pub replay_all-result :
    {S E : Type 0} (loopback : Bytes → Bool) (sha256 : Bytes → Bytes)
    (visit : Position → Vote → S → S × Option E) (c : Config) (client : Option ℕ)
    (polls : List Poll) (s s' : S) (m : Manifest)
    → replay_all loopback sha256 visit c client polls s ≡ result (m, s')
    → Result c (replay sha256 c visit none client polls s) m s'
unfolding replay_all
replay_all-result loopback sha256 visit c client polls s s' m h =
    outcome_result c (replay sha256 c visit none client polls s) m s'
      (when_valid-result (validate loopback c) _ (m, s') h)

module _ {S E : Type 0} (sha256 : Bytes → Bytes) (c : Config)
    (visit : Position → Vote → S → S × Option E) (Q : S → Type 0)
    (keeps : (p : Position) (v : Vote) (s : S)
      → Admitted sha256 c p v
      → Q s
      → Kept Q (visit p v s)) where
  abbrev Q' : Replayed S → Type 0
  Q' t = Q t.state

  entry-Kept : (o : S × Option E) → Kept Q o → Kept Q (entry_result o)
  unfolding entry_result
  entry-Kept (s, none) h = h
  entry-Kept (s, some e) h = tt

  frame-Kept :
      (t : Replayed S) (o : S × Option (FrameError (EntryError E)))
      → Kept Q o
      → KeptBy Q' (frame_result t o)
  unfolding frame_result
  frame-Kept t (s, none) h = h
  frame-Kept t (s, some e) h = tt

  vote-Kept : (t : Replayed S) (o : S × Option E) → Kept Q o → Kept Q' (vote_result t o)
  unfolding vote_result
  vote-Kept t (s, none) h = h
  vote-Kept t (s, some e) h = tt

  entry_keeps :
      (p offset index : ℕ) (v : Vote) (s : S)
      → valid_frame_vote c v ≡ true
      → Q s
      → Kept Q (visit_entry sha256 c visit p offset index v s)
  unfolding visit_entry
  entry_keeps p offset index v s valid q =
      if_cases (Kept Q) (not (partition sha256 c v.token == p)) _ _ (λ _. tt)
        (λ h.
          entry-Kept _
            (keeps _ v s (record { valid = valid; routed = ==_sound _ p (not-false _ h) }) q))

  replay_frame_keeps :
      (barriers : Option (List ℕ)) (p : ℕ) (r : Record) (t : Replayed S)
      → Q t.state
      → KeptBy Q' (replay_frame sha256 c visit barriers p r t)
  unfolding replay_frame
  replay_frame_keeps barriers p r t q =
      if_cases (KeptBy Q') (outside p r t) _ _ (λ _. tt)
        (λ _.
          if_cases (KeptBy Q') (reaches barriers p r.offset) _ _ (λ _. tt)
            (λ _. frame-Kept t _ (
              frame_keeps c (visit_entry sha256 c visit p r.offset) Q (entry_keeps p r.offset)
                r.value t.state q)))

  kind_keeps :
      (p : ℕ) (r : Record) (kind : ℕ) (v : Vote) (t : Replayed S)
      → (kind ≡ 1 → valid_frame_vote c v ≡ true)
      → Q t.state
      → Kept Q' (replay_kind sha256 c visit p r kind v t)
  unfolding replay_kind
  kind_keeps p r kind v t valid q =
      if_cases (Kept Q') (kind == record_boot) _ _
        (λ _. if_cases (Kept Q') (not (length r.key == 0)) _ _ (λ _. tt) (λ _. q))
        (λ _.
          if_cases (Kept Q') (kind == record_vote) _ _
            (λ vote.
              if_cases (Kept Q') (is_closed (get_or t.closed p (negsuc 0))) _ _ (λ _. tt)
                (λ _.
                  if_cases (Kept Q')
                    (not (partition sha256 c v.token == p) || not (bytes_eq r.key v.token)) _ _
                    (λ _. tt)
                    (λ h. vote-Kept t _ (
                      keeps _ v t.state
                        (record { valid = valid (==_sound kind 1 vote); routed = routed _ _ h })
                        q))))
            (λ _.
              if_cases (Kept Q') (kind == record_closed) _ _
                (λ _.
                  if_cases (Kept Q')
                    (not (length r.key == 0) || is_closed (get_or t.closed p (negsuc 0))) _ _
                    (λ _. tt) (λ _. q))
                (λ _. q)))
    where
      routed : (n : ℕ) (b : Bool) → (not (n == p) || b) ≡ false → n ≡ p
      routed n b h = elim (Bool-cases (n == p)) [ inl e ↦ ==_sound n p e | inr e ↦ cc (e, h) ]

  barrier_keeps :
      (barriers : Option (List ℕ)) (p offset kind : ℕ) (o : Replayed S × Option (ReplayError E))
      → Kept Q' o
      → KeptBy Q' (at_barrier barriers p offset kind o)
  unfolding at_barrier
  barrier_keeps barriers p offset kind (t, some e) h = tt
  barrier_keeps none p offset kind (t, none) h = elim (Bool-cases (kind == record_closed)) [
    | inl e ↦ rw e (h)
    | inr e ↦ rw e (h)
  ]
  barrier_keeps (some bs) p offset kind (t, none) h =
      if_cases (KeptBy Q') (ltb (get_or bs p 0) offset) _ _ (λ _. tt)
        (λ _.
          if_cases (KeptBy Q') (offset == get_or bs p 0) _ _
            (λ _. if_cases (KeptBy Q') (not (kind == record_boot)) _ _ (λ _. tt) (λ _. h)) (λ _. h))

  record_keeps :
      (barriers : Option (List ℕ)) (p : ℕ) (r : Record) (d : Decoded) (t : Replayed S)
      → ((v : Vote) → d ≡ decoded 1 v → valid_frame_vote c v ≡ true)
      → Q t.state
      → KeptBy Q' (replay_record sha256 c visit barriers p r d t)
  unfolding replay_record
  record_keeps barriers p r (refused e) t valid q = tt
  record_keeps barriers p r (decoded kind v) t valid q =
      if_cases (KeptBy Q') (lacks_boot p kind t) _ _ (λ _. tt)
        (λ _.
          barrier_keeps barriers p r.offset kind _
            (kind_keeps p r kind v t (λ e. valid v (ap (λ k. decoded k v) e)) q))

  decoded_valid :
      (b : Bytes) (v : Vote) → decode_record c b ≡ decoded 1 v → valid_frame_vote c v ≡ true
  decoded_valid b v h = elim ((decode_record_sound c b 1 v h).2) [
    | inl (_, ok) ↦ valid_frame_vote-eq c v ∙ ok
    | inr (two, _, _, _, _) ↦ absurd (omega (arith, two))
  ]

  pub visit_keeps :
      (barriers : Option (List ℕ)) (p : ℕ) (r : Record) (t : Replayed S)
      → Q t.state
      → KeptBy Q' (replay_visit sha256 c visit barriers p r t)
  unfolding replay_visit
  visit_keeps barriers p r t q =
      if_cases (KeptBy Q') (is_frame r.value) _ _ (λ _. replay_frame_keeps barriers p r t q)
        (λ _. record_keeps barriers p r (decode_record c r.value) t (decoded_valid r.value) q)

  after :
      (p : ℕ) (t : Scan (Replayed S)) (o : Replayed S × Seen (ReplayError E))
      → KeptBy Q' o
      → After (λ (t : Scan (Replayed S)). Q t.state.state) p t o
  after p t (s, goes) h = h
  after p t (s, ends) h = h
  after p t (s, fails e) h = tt

  -- A property that the visitor keeps on admitted votes holds of the state that a replay ends with.
  pub replay_keeps :
      (barriers : Option (List ℕ)) (client : Option ℕ) (polls : List Poll) (s : S)
      → Q s
      → Ended
          (λ (t : Scan (Replayed S)). Q t.state.state)
          (replay sha256 c visit barriers client polls s)
  unfolding replay
  replay_keeps barriers client polls s q =
      scan_keeps c (replay_visit sha256 c visit barriers) (λ t. Q t.state.state)
        (λ p r t low open_ h.
          after p t (replay_visit sha256 c visit barriers p r t.state)
            (visit_keeps barriers p r t.state h))
        client polls _ q

pub replay_all_keeps :
    (loopback : Bytes → Bool) (sha256 : Bytes → Bytes) {S E : Type 0} (c : Config)
    (visit : Position → Vote → S → S × Option E) (Q : S → Type 0)
    → ((p : Position) (v : Vote) (s : S) → Admitted sha256 c p v → Q s → Kept Q (visit p v s))
    → (client : Option ℕ) (polls : List Poll) (s : S) (m : Manifest) (s' : S) → Q s
    → replay_all loopback sha256 visit c client polls s ≡ result (m, s')
    → Q s'
replay_all_keeps loopback sha256 {S} {E} c visit Q keeps client polls s m s' q h =
    let r = replay_all-result loopback sha256 visit c client polls s s' m h in
    let (t, kept, _, same) =
      subst (Ended (λ (t : Scan (Replayed S)). Q t.state.state)) r.ended
        (replay_keeps sha256 c visit Q keeps none client polls s q) in
    subst Q (ap (λ (x : Replayed S). x.state) same ∙ sym r.state_is) kept
