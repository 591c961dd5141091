-- ===== src/Votelog/Frame/RoundTrip.antt =====
-- A frame that is written is read back, vote by vote.
use gigaquizz.Common.{
  ℕ, ◌+◌, ◌*◌, ◌^◌, ◌≤◌, ◌<◌, ◌≡◌, refl, sym, ap, ◌∙◌, Bool, true, List, [], ◌∷◌, ◌++◌, Option,
  none, some, length, get_or, take, drop, length-append, length-take, length-drop, take-full,
  take-append-drop, All, arith, le→ltb-false, ==_refl,
}
use gigaquizz.Common.Bytes.{
  Bytes, zeros, slice, be, from_be, length-be, from_be-be, slice-skip, take-exact, drop-exact,
}
use gigaquizz.GoTime.{InNanoRange}
use gigaquizz.Filelog.Codec.{encode_entry, decode_entry}
use gigaquizz.Filelog.Codec.Entries as Entries
use gigaquizz.Votelog.{Config, Vote, no_vote, encode_record, decoded, decode_record}
use gigaquizz.Votelog.Records.{Typed, record-Laid, decode_record-control}
use gigaquizz.Votelog.Frame.{
  malformed, miscounted, FrameError, bytes, valid_votes, frame_entry, frame_entries, frame_header,
  encode_frame, frame_vote, valid_entries, plain_header, visit_entries, decode_votes, decode_frame,
  and_then,
}
use mathlib.Core.List.{append_assoc, append-nil}

-- The sizes of a vote's fields, and an instant that an int64 of nanoseconds holds.
pub record TypedVote (v : Vote) : Type 0 where
  pub size : length v.token ≡ 16
  pub word : v.choice < 2 ^ 32
  pub range : InNanoRange v.admitted_at

-- The visitor on the votes themselves.
pub visit_votes :
    {S E : Type 0} → (ℕ → Vote → S → S × Option E) → ℕ → List Vote → S → S × Option (FrameError E)
visit_votes visit index [] s = (s, none)
visit_votes visit index (v ∷ vs) s = and_then (visit_votes visit (index + 1) vs) (visit index v s)

and_then_cong :
    {S E : Type 0} (k l : S → S × Option (FrameError E)) (r : S × Option E)
    → ((s : S) → k s ≡ l s)
    → and_then k r ≡ and_then l r
unfolding and_then
and_then_cong k l (s, none) h = h s
and_then_cong k l (s, some x) h = refl

frame_vote-frame_entry :
    (v : Vote) (rest : Bytes) → TypedVote v → frame_vote (frame_entry v ++ rest) ≡ v
unfolding frame_vote frame_entry encode_entry decode_entry
frame_vote-frame_entry v rest t =
    let read =
      Entries.decode_entry-encode_entry (record { token = v.token; choice = v.choice })
        v.admitted_at rest t.size t.word t.range in
    λ k. record {
      token = (read k).token;
      choice = (read k).choice;
      admitted_at = (read k).admitted_at;
    }

length-frame_entry : (v : Vote) → TypedVote v → length (frame_entry v) ≡ 28
unfolding frame_entry encode_entry
length-frame_entry v t =
    Entries.length-encode_entry (record { token = v.token; choice = v.choice }) v.admitted_at t.size

pub length-frame_entries :
    (vs : List Vote) → All TypedVote vs → length (frame_entries vs) ≡ length vs * 28
unfolding frame_entries
length-frame_entries [] t = refl
length-frame_entries (v ∷ vs) t = omega (
  arith,
  length-append (frame_entry v) (frame_entries vs),
  length-frame_entry v t.0,
  length-frame_entries vs t.1,
)

read_first :
    (v : Vote) (vs : List Vote)
    → TypedVote v
    → frame_vote (take 28 (frame_entry v ++ frame_entries vs)) ≡ v
read_first v vs t =
    ap frame_vote (
      take-exact 28 (frame_entry v) (frame_entries vs) (length-frame_entry v t)
      ∙ sym (append-nil (frame_entry v)))
    ∙ frame_vote-frame_entry v [] t

skip_first :
    (v : Vote) (vs : List Vote)
    → TypedVote v
    → drop 28 (frame_entry v ++ frame_entries vs) ≡ frame_entries vs
skip_first v vs t = drop-exact 28 (frame_entry v) (frame_entries vs) (length-frame_entry v t)

valid_entries-frame_entries :
    (c : Config) (vs : List Vote)
    → All TypedVote vs
    → valid_entries c (length vs) (frame_entries vs) ≡ valid_votes c vs
unfolding valid_entries frame_entries valid_votes
valid_entries-frame_entries c [] t = refl
valid_entries-frame_entries c (v ∷ vs) t =
    rw (read_first v vs t.0)
      (rw (skip_first v vs t.0) (rw (valid_entries-frame_entries c vs t.1) refl))

visit_entries-frame_entries :
    {S E : Type 0} (visit : ℕ → Vote → S → S × Option E) (index : ℕ) (vs : List Vote) (s : S)
    → All TypedVote vs
    → visit_entries visit index (length vs) (frame_entries vs) s ≡ visit_votes visit index vs s
unfolding visit_entries frame_entries visit_votes
visit_entries-frame_entries visit index [] s t = refl
visit_entries-frame_entries visit index (v ∷ vs) s t = rw (read_first v vs t.0) (
    rw (skip_first v vs t.0) (
      and_then_cong _ _ (visit index v s)
        (λ s'. visit_entries-frame_entries visit (index + 1) vs s' t.1)))

-- The 70 bytes that a frame's header shares with the boot record `1 ∷ 2 ∷ r`.
plain_of :
    (r count entries : Bytes)
    → length r ≡ 78
    → take 8 (drop 70 r) ≡ zeros 8
    → plain_header (2 ∷ 1 ∷ (take 70 r ++ (count ++ entries))) ≡ 1 ∷ 2 ∷ r
unfolding plain_header
plain_of r count entries size rest =
    let shared : take 70 (take 70 r ++ (count ++ entries)) ≡ take 70 r =
      take-exact 70 (take 70 r) (count ++ entries) (length-take 70 r (omega arith)) in
    let end : drop 70 r ≡ zeros 8 =
      sym (take-full 8 (drop 70 r) (omega (arith, length-drop 70 r))) ∙ rest in
    ap (λ x. 1 ∷ 2 ∷ x)
      (ap (λ x. x ++ zeros 8) shared ∙ ap (λ x. take 70 r ++ x) (sym end) ∙ take-append-drop 70 r)

-- What `decodeFrame` reads of a frame that begins with `h`, the shared bytes.
record Parts (n : ℕ) (entries b : Bytes) : Type 0 where
  count_is : from_be (slice 72 4 b) ≡ n
  size_is : from_be (slice 76 4 b) ≡ 28
  long : length b ≡ 80 + length entries
  entries_are : drop 80 b ≡ entries

parts :
    (h entries : Bytes) (n : ℕ)
    → length h ≡ 70
    → n < 2 ^ 32
    → Parts n entries (2 ∷ 1 ∷ (h ++ (be 4 n ++ (be 4 28 ++ entries))))
parts h entries n size word =
    let r1 = be 4 28 ++ entries in
    let r0 = be 4 n ++ r1 in
    let skip = λ (a k : ℕ). slice-skip 70 a k h r0 size in
    record {
      count_is =
          ap from_be (skip 0 4 ∙ take-exact 4 (be 4 n) r1 (length-be 4 n)) ∙ from_be-be 4 n word;
      size_is =
          ap from_be (
            skip 4 4
            ∙ slice-skip 4 0 4 (be 4 n) r1 (length-be 4 n)
            ∙ take-exact 4 (be 4 28) entries (length-be 4 28))
          ∙ from_be-be 4 28 (omega arith);
      long = omega (
        arith,
        length-append h r0,
        length-append (be 4 n) r1,
        length-append (be 4 28) entries,
        length-be 4 n,
        length-be 4 28,
      );
      entries_are =
          ap (drop 78)
            (sym (append_assoc h (be 4 n) r1) ∙ sym (append_assoc (h ++ be 4 n) (be 4 28) entries))
          ∙ drop-exact 78 ((h ++ be 4 n) ++ be 4 28) entries (
              omega (
                arith,
                length-append (h ++ be 4 n) (be 4 28),
                length-append h (be 4 n),
                length-be 4 n,
                length-be 4 28,
              ));
    }

decode_known :
    {S E : Type 0} (visit : ℕ → Vote → S → S × Option E) (c : Config) (b : Bytes) (vs : List Vote)
    (s : S)
    → Parts (length vs) (frame_entries vs) b
    → get_or b 0 0 ≡ 2
    → get_or b 1 0 ≡ 1
    → 1 ≤ length vs
    → length vs ≤ 4096
    → All TypedVote vs
    → decode_record c (plain_header b) ≡ decoded 2 no_vote
    → valid_votes c vs ≡ true
    → decode_frame visit c b s ≡ visit_votes visit 0 vs s
unfolding decode_frame decode_votes malformed miscounted
decode_known visit c b vs s p b0 b1 some_votes few t header valid =
    let sized : length b ≡ 80 + length vs * 28 = omega (arith, p.long, length-frame_entries vs t) in
    rw (p.count_is, p.size_is, p.entries_are, b0, b1)
      (rw
        (
          le→ltb-false (length b) 80 (omega arith),
          le→ltb-false (length vs) 1 some_votes,
          le→ltb-false 4096 (length vs) few,
          sized,
          ==_refl (80 + length vs * 28),
        )
        (rw header (
          rw (valid_entries-frame_entries c vs t)
            (rw valid (visit_entries-frame_entries visit 0 vs s t)))))

encode_frame-eq_bytes :
    (loopback : Bytes → Bool) (c : Config) (vs : List Vote) (b : Bytes)
    → encode_frame loopback c vs ≡ bytes b
    → (1 ≤ length vs)
      × (length vs ≤ 4096)
      × (valid_votes c vs ≡ true)
      × (b ≡ frame_header c (length vs) ++ frame_entries vs)
unfolding encode_frame
encode_frame-eq_bytes loopback c vs b h = ground arith

-- The first two bytes of a boot record, and the rest.
abbrev boot_rest : Config → Bytes
boot_rest c = drop 2 (encode_record c 2 no_vote)

boot_front : (c : Config) → encode_record c 2 no_vote ≡ 1 ∷ 2 ∷ boot_rest c
unfolding encode_record
boot_front c = refl

length-boot_rest : (c : Config) → Typed c → length (boot_rest c) ≡ 78
length-boot_rest c t =
    omega (arith, ap length (boot_front c), (record-Laid c 2 no_vote t refl).long)

boot_end : (c : Config) → Typed c → take 8 (drop 70 (boot_rest c)) ≡ zeros 8
boot_end c t = sym (ap (slice 72 8) (boot_front c)) ∙ (record-Laid c 2 no_vote t refl).rest_is

frame_shape :
    (c : Config) (n : ℕ) (entries : Bytes)
    → frame_header c n ++ entries
      ≡ 2 ∷ 1 ∷ (take 70 (boot_rest c) ++ (be 4 n ++ (be 4 28 ++ entries)))
unfolding frame_header
frame_shape c n entries =
    ap (λ x. 2 ∷ 1 ∷ x)
      (append_assoc (take 70 (boot_rest c)) (be 4 n ++ be 4 28) entries
        ∙ ap (λ x. take 70 (boot_rest c) ++ x) (append_assoc (be 4 n) (be 4 28) entries))

header_read :
    (c : Config) (n : ℕ) (entries : Bytes)
    → Typed c
    → decode_record c
        (plain_header (2 ∷ 1 ∷ (take 70 (boot_rest c) ++ (be 4 n ++ (be 4 28 ++ entries)))))
      ≡ decoded 2 no_vote
header_read c n entries t =
    ap (decode_record c) (
      plain_of (boot_rest c) (be 4 n) (be 4 28 ++ entries) (length-boot_rest c t) (boot_end c t)
      ∙ sym (boot_front c))
    ∙ decode_record-control c 2 t refl refl refl

-- For a configuration and votes whose fields have the sizes of their types, and votes admitted at
-- instants that an int64 of Unix nanoseconds can hold (the years 1678 to 2262, roughly; the checks of a
-- configuration do not bound the year), decodeFrame of the bytes that encodeFrame returns calls the
-- visitor on exactly those votes, in their order and with their indices from 0, up to the first error of
-- the visitor, and returns that error or none.
pub decode_frame-encode_frame :
    {S E : Type 0} (loopback : Bytes → Bool) (visit : ℕ → Vote → S → S × Option E) (c : Config)
    (vs : List Vote) (b : Bytes) (s : S)
    → Typed c
    → All TypedVote vs
    → encode_frame loopback c vs ≡ bytes b
    → decode_frame visit c b s ≡ visit_votes visit 0 vs s
decode_frame-encode_frame loopback visit c vs b s t typed h =
    let (some_votes, few, valid, bytes_are) = encode_frame-eq_bytes loopback c vs b h in
    let shape = bytes_are ∙ frame_shape c (length vs) (frame_entries vs) in
    let front = length-take 70 (boot_rest c) (omega (arith, length-boot_rest c t)) in
    ap (λ x. decode_frame visit c x s) shape
    ∙ decode_known visit c _ vs s
        (parts (take 70 (boot_rest c)) (frame_entries vs) (length vs) front (omega arith)) refl refl
        some_votes few typed (header_read c (length vs) (frame_entries vs) t) valid
