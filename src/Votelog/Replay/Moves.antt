-- ===== src/Votelog/Replay/Moves.antt =====
-- internal/votelog/audit.go: what a record does to the closed partitions of a replay without barriers.
use gigaquizz.Common.{
  ℕ, ◌<◌, ◌≡◌, ◌≢◌, refl, sym, ◌∙◌, subst, Bool, true, not, ◌||◌, List, Option, none, some, length,
  length-set, get_or, set, get_or-set_self, get_or-set_ne, arith, ◌==◌, if_cases, Bool-cases, inl,
  inr, ==_sound, ==_no,
}
use gigaquizz.Common.Bytes.{Bytes, bytes_eq}
use gigaquizz.Common.Int.{ℤ, pos, negsuc}
use gigaquizz.Votelog.{
  Config, Vote, Position, Decoded, decoded, refused, decode_record, partition, record_vote,
  record_boot, record_closed,
}
use gigaquizz.Votelog.Frame.{FrameError, decode_frame}
use gigaquizz.Votelog.Scan.{Record, Seen, goes, ends, fails}
use gigaquizz.Votelog.Replay.{
  outside, lacks_boot, is_frame, EntryError, ReplayError, Replayed, is_closed, at_barrier, reaches,
  frame_result, vote_result, visit_entry, replay_frame, replay_kind, replay_record, replay_visit,
}

abbrev pub ClosedAt : ℕ → List ℤ → Type 0
ClosedAt p closed = is_closed (get_or closed p (negsuc 0)) ≡ true

-- Partitions that are closed stay closed.
pub record Later {S : Type 0} (t d : Replayed S) : Type 0 where
  pub size : length d.closed ≡ length t.closed
  pub stay : (q : ℕ) → ClosedAt q t.closed → ClosedAt q d.closed

abbrev Kinds : {S E : Type 0} → ℕ → ℕ → Replayed S → Replayed S × Option (ReplayError E) → Type 0
Kinds p kind t (d, none) = Later t d × ((kind == record_closed) ≡ true → ClosedAt p d.closed)
Kinds p kind t (d, some e) = Unit {0}

abbrev pub Moves : {S E : Type 0} → ℕ → Replayed S → Replayed S × Seen (ReplayError E) → Type 0
Moves p t (d, goes) = Later t d
Moves p t (d, ends) = Later t d × ClosedAt p d.closed
Moves p t (d, fails e) = Unit {0}

other_kind : (k a b : ℕ) → (k == a) ≡ true → a ≢ b → (k == b) ≡ true → ⊥
other_kind k a b h ne e = ne (sym (==_sound k a h) ∙ ==_sound k b e)

set-ClosedAt :
    (closed : List ℤ) (p n q : ℕ)
    → p < length closed
    → ClosedAt q closed
    → ClosedAt q (set closed p (pos n))
unfolding is_closed
set-ClosedAt closed p n q h k = elim (Bool-cases (p == q)) [
  | inl e ↦
      subst (λ q. ClosedAt q (set closed p (pos n))) (==_sound p q e)
        (rw (get_or-set_self closed p (pos n) (negsuc 0) (omega arith)) refl)
  | inr e ↦ rw (get_or-set_ne closed p q (pos n) (negsuc 0) (==_no p q e)) k
]

set_now : (closed : List ℤ) (p n : ℕ) → p < length closed → ClosedAt p (set closed p (pos n))
unfolding is_closed
set_now closed p n h = rw (get_or-set_self closed p (pos n) (negsuc 0) (omega arith)) refl

module _ (sha256 : Bytes → Bytes) (c : Config) {S E : Type 0}
    (visit : Position → Vote → S → S × Option E) where
  same :
      (t : Replayed S) (s : S) (boot : List Bool)
      → Later t (record t { state = s; seen_boot = boot })
  same t s boot = record { size = refl; stay = λ q h. h }

  vote-Kinds :
      (p kind : ℕ) (t : Replayed S) (o : S × Option E)
      → (kind == record_vote) ≡ true
      → Kinds p kind t (vote_result t o)
  unfolding vote_result
  vote-Kinds p kind t (s, none) h =
      (same t s t.seen_boot, λ e. absurd (other_kind kind 1 3 h (λ k. absurd (omega (arith, k))) e))
  vote-Kinds p kind t (s, some e) h = tt

  kind-Kinds :
      (p : ℕ) (r : Record) (kind : ℕ) (v : Vote) (t : Replayed S)
      → p < length t.closed
      → Kinds p kind t (replay_kind sha256 c visit p r kind v t)
  unfolding replay_kind
  kind-Kinds p r kind v t low =
      if_cases (Kinds p kind t) (kind == record_boot) _ _
        (λ boot.
          if_cases (Kinds p kind t) (not (length r.key == 0)) _ _ (λ _. tt)
            (λ _. (
              same t t.state (set t.seen_boot p true),
              λ e. absurd (other_kind kind 2 3 boot (λ k. absurd (omega (arith, k))) e),
            )))
        (λ _.
          if_cases (Kinds p kind t) (kind == record_vote) _ _
            (λ vote.
              if_cases (Kinds p kind t) (is_closed (get_or t.closed p (negsuc 0))) _ _ (λ _. tt)
                (λ _.
                  if_cases (Kinds p kind t)
                    (not (partition sha256 c v.token == p) || not (bytes_eq r.key v.token)) _ _
                    (λ _. tt) (λ _. vote-Kinds p kind t _ vote)))
            (λ _.
              if_cases (Kinds p kind t) (kind == record_closed) _ _
                (λ _.
                  if_cases (Kinds p kind t)
                    (not (length r.key == 0) || is_closed (get_or t.closed p (negsuc 0))) _ _
                    (λ _. tt)
                    (λ _. (
                      record {
                        size = length-set t.closed p (pos r.offset);
                        stay = λ q h. set-ClosedAt t.closed p r.offset q low h;
                      },
                      λ _. set_now t.closed p r.offset low,
                    )))
                (λ other. (same t t.state t.seen_boot, λ e. cc))))

  barrier-Moves :
      (p offset kind : ℕ) (t : Replayed S) (o : Replayed S × Option (ReplayError E))
      → Kinds p kind t o
      → Moves p t (at_barrier none p offset kind o)
  unfolding at_barrier
  barrier-Moves p offset kind t (d, some e) k = tt
  barrier-Moves p offset kind t (d, none) k = elim (Bool-cases (kind == record_closed)) [
    | inl e ↦ rw e (k.0, k.1 e)
    | inr e ↦ rw e k.0
  ]

  frame-Moves :
      (p : ℕ) (t : Replayed S) (o : S × Option (FrameError (EntryError E)))
      → Moves p t (frame_result t o)
  unfolding frame_result
  frame-Moves p t (s, none) = same t s t.seen_boot
  frame-Moves p t (s, some e) = tt

  record-Moves :
      (p : ℕ) (r : Record) (d : Decoded) (t : Replayed S)
      → p < length t.closed
      → Moves p t (replay_record sha256 c visit none p r d t)
  unfolding replay_record
  record-Moves p r (refused e) t low = tt
  record-Moves p r (decoded kind v) t low =
      if_cases (Moves p t) (lacks_boot p kind t) _ _ (λ _. tt)
        (λ _. barrier-Moves p r.offset kind t _ (kind-Kinds p r kind v t low))

  pub visit-Moves :
      (p : ℕ) (r : Record) (t : Replayed S)
      → p < length t.closed
      → Moves p t (replay_visit sha256 c visit none p r t)
  unfolding replay_visit replay_frame
  visit-Moves p r t low =
      if_cases (Moves p t) (is_frame r.value) _ _
        (λ _.
          if_cases (Moves p t) (outside p r t) _ _ (λ _. tt)
            (λ _.
              if_cases (Moves p t) (reaches none p r.offset) _ _ (λ _. tt)
                (λ _.
                  frame-Moves p t
                    (decode_frame (visit_entry sha256 c visit p r.offset) c r.value t.state))))
        (λ _. record-Moves p r (decode_record c r.value) t low)
