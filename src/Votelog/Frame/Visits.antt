-- ===== src/Votelog/Frame/Visits.antt =====
-- decodeFrame calls its visitor on valid votes only.
use gigaquizz.Common.{
  ℕ, zero, suc, ◌+◌, ◌≡◌, refl, true, not, not-false, Option, none, some, take, drop, &&_split,
  if_cases,
}
use gigaquizz.Common.Bytes.{Bytes, slice, from_be}
use gigaquizz.Votelog.{Config, Vote, valid_vote, Decoded, decoded, refused, decode_record}
use gigaquizz.Votelog.Frame.{
  malformed, miscounted, FrameError, and_then, valid_frame_vote, frame_vote, valid_entries,
  plain_header, visit_entries, decode_votes, decode_frame,
}

-- `Q` of the state behind a call, unless that returned an error.
abbrev pub Kept : {S E : Type 0} → (S → Type 0) → S × Option E → Type 0
Kept Q (s, none) = Q s
Kept Q (s, some e) = Unit {0}

-- The test of a frame's vote is that of a single record's.
pub valid_frame_vote-eq : (c : Config) (v : Vote) → valid_frame_vote c v ≡ valid_vote c v
unfolding valid_frame_vote valid_vote
valid_frame_vote-eq c v = refl

module _ {S E : Type 0} (c : Config) (visit : ℕ → Vote → S → S × Option E) (Q : S → Type 0)
    (keeps : (index : ℕ) (v : Vote) (s : S)
      → valid_frame_vote c v ≡ true
      → Q s
      → Kept Q (visit index v s)) where
  then_keeps :
      (k : S → S × Option (FrameError E)) (o : S × Option E)
      → ((s : S) → Q s → Kept Q (k s))
      → Kept Q o
      → Kept Q (and_then k o)
  unfolding and_then
  then_keeps k (s, none) h q = h s (q)
  then_keeps k (s, some e) h q = tt

  entries_keep :
      (index n : ℕ) (b : Bytes) (s : S)
      → valid_entries c n b ≡ true
      → Q s
      → Kept Q (visit_entries visit index n b s)
  unfolding visit_entries valid_entries
  entries_keep index zero b s valid q = q
  entries_keep index (suc n) b s valid q =
      let (first, others) = &&_split _ _ valid in
      then_keeps _ _ (λ s' q'. entries_keep (index + 1) n (drop 28 b) s' others q')
        (keeps index (frame_vote (take 28 b)) s first q)

  votes_keep :
      (count : ℕ) (b : Bytes) (d : Decoded) (s : S)
      → Q s
      → Kept Q (decode_votes visit c count b d s)
  unfolding decode_votes
  votes_keep count b (refused e) s q = tt
  votes_keep count b (decoded kind v) s q =
      if_cases (Kept Q) (not (valid_entries c count b)) _ _ (λ _. tt)
        (λ h. entries_keep 0 count b s (not-false _ h) q)

  pub frame_keeps : (b : Bytes) (s : S) → Q s → Kept Q (decode_frame visit c b s)
  unfolding decode_frame
  frame_keeps b s q =
      if_cases (Kept Q) (malformed b) _ _ (λ _. tt)
        (λ _.
          if_cases (Kept Q) (miscounted (from_be (slice 72 4 b)) b) _ _ (λ _. tt)
            (λ _.
              votes_keep (from_be (slice 72 4 b)) (drop 80 b) (decode_record c (plain_header b)) s
                q))
