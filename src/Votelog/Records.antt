-- ===== src/Votelog/Records.antt =====
-- Records that are written are read back, and what is read is a valid vote of the poll or a control record.
use gigaquizz.Common.{
  ℕ, ◌^◌, ◌≤◌, ◌<◌, ◌≡◌, ◌⊎◌, inl, inr, refl, ap, ◌∙◌, Bool, true, false, not, ◌∷◌, ◌++◌, length,
  get_or, length-append, arith, ==_refl, ==_no, ==_sound, ◌≢◌, ◌||◌, ◌&&◌, &&_split, leb→le, ◌==◌,
  if◌then◌else◌, leb, Bool-cases,
}
use gigaquizz.Common.Bytes.{
  Bytes, bytes_eq, bytes_eq_refl, slice, slice-skip, take-exact, be, from_be, length-be, from_be-be,
  zeros,
}
use gigaquizz.GoTime.{
  InNanoRange, is_zero, unix_nano, unix_nano-lt, from_unix_nano, from_unix_nano-unix_nano,
}
use gigaquizz.Votelog.{
  Config, Vote, zero_token, stamp, encode_record, other_poll, invalid_vote, invalid_control,
  decoded, refused, matches, valid_vote, decode_record, no_vote,
}

-- Eight fields behind the first four bytes of a record.
pub record Laid (b choice id token time start end parts mask : Bytes) : Type 0 where
  pub long : length b ≡ 80
  pub choice_is : slice 4 4 b ≡ choice
  pub id_is : slice 8 16 b ≡ id
  pub token_is : slice 24 16 b ≡ token
  pub time_is : slice 40 8 b ≡ time
  pub start_is : slice 48 8 b ≡ start
  pub end_is : slice 56 8 b ≡ end
  pub parts_is : slice 64 4 b ≡ parts
  pub mask_is : slice 68 4 b ≡ mask
  pub rest_is : slice 72 8 b ≡ zeros 8

laid :
    (a0 a1 a2 a3 : ℕ) (choice id token time start end parts mask : Bytes)
    → length choice ≡ 4
    → length id ≡ 16
    → length token ≡ 16
    → length time ≡ 8
    → length start ≡ 8
    → length end ≡ 8
    → length parts ≡ 4
    → length mask ≡ 4
    → Laid
        (a0
          ∷ a1
          ∷ a2
          ∷ a3
          ∷ (choice
              ++ (id ++ (token ++ (time ++ (start ++ (end ++ (parts ++ (mask ++ zeros 8)))))))))
        choice
        id
        token
        time
        start
        end
        parts
        mask
laid a0 a1 a2 a3 choice id token time start end parts mask hc hi ht hm hs he hp hk =
    let r8 = mask ++ zeros 8 in
    let r7 = parts ++ r8 in
    let r6 = end ++ r7 in
    let r5 = start ++ r6 in
    let r4 = time ++ r5 in
    let r3 = token ++ r4 in
    let r2 = id ++ r3 in
    let s1 = λ (a n : ℕ). slice-skip 4 a n choice r2 hc in
    let s2 = λ (a n : ℕ). slice-skip 16 a n id r3 hi in
    let s3 = λ (a n : ℕ). slice-skip 16 a n token r4 ht in
    let s4 = λ (a n : ℕ). slice-skip 8 a n time r5 hm in
    let s5 = λ (a n : ℕ). slice-skip 8 a n start r6 hs in
    let s6 = λ (a n : ℕ). slice-skip 8 a n end r7 he in
    let s7 = λ (a n : ℕ). slice-skip 4 a n parts r8 hp in
    let s8 = λ (a n : ℕ). slice-skip 4 a n mask (zeros 8) hk in
    record {
      long = omega (
        arith,
        length-append choice r2,
        length-append id r3,
        length-append token r4,
        length-append time r5,
        length-append start r6,
        length-append end r7,
        length-append parts r8,
        length-append mask (zeros 8),
      );
      choice_is = take-exact 4 choice r2 hc;
      id_is = s1 0 16 ∙ take-exact 16 id r3 hi;
      token_is = s1 16 16 ∙ s2 0 16 ∙ take-exact 16 token r4 ht;
      time_is = s1 32 8 ∙ s2 16 8 ∙ s3 0 8 ∙ take-exact 8 time r5 hm;
      start_is = s1 40 8 ∙ s2 24 8 ∙ s3 8 8 ∙ s4 0 8 ∙ take-exact 8 start r6 hs;
      end_is = s1 48 8 ∙ s2 32 8 ∙ s3 16 8 ∙ s4 8 8 ∙ s5 0 8 ∙ take-exact 8 end r7 he;
      parts_is = s1 56 4 ∙ s2 40 4 ∙ s3 24 4 ∙ s4 16 4 ∙ s5 8 4 ∙ s6 0 4 ∙ take-exact 4 parts r8 hp;
      mask_is =
          s1 60 4
          ∙ s2 44 4
          ∙ s3 28 4
          ∙ s4 20 4
          ∙ s5 12 4
          ∙ s6 4 4
          ∙ s7 0 4
          ∙ take-exact 4 mask (zeros 8) hk;
      rest_is = s1 64 8 ∙ s2 48 8 ∙ s3 32 8 ∙ s4 24 8 ∙ s5 16 8 ∙ s6 8 8 ∙ s7 4 8 ∙ s8 0 8;
    }

-- The sizes of the configuration's fields.
pub record Typed (c : Config) : Type 0 where
  pub id : length c.poll_id ≡ 16
  pub few : c.partitions < 2 ^ 32
  pub mask : c.allowed_mask < 2 ^ 32

flag-ok :
    (multiple : Bool)
    → (if multiple
        then (if multiple then 1 else 0) == 1
        else not ((if multiple then 1 else 0) == 1))
      ≡ true
flag-ok true = refl
flag-ok false = refl

flag-le : (multiple : Bool) → leb (if multiple then 1 else 0) 1 ≡ true
flag-le true = refl
flag-le false = refl

length-stamp : (t : ℕ) → length (stamp t) ≡ 8
unfolding stamp
length-stamp t = elim (Bool-cases (is_zero t)) [
  | inl h ↦ rw h refl
  | inr h ↦ rw h (length-be 8 (unix_nano t))
]

pub record-Laid :
    (c : Config) (kind : ℕ) (v : Vote)
    → Typed c
    → length v.token ≡ 16
    → Laid
        (encode_record c kind v)
        (be 4 v.choice)
        c.poll_id
        v.token
        (stamp v.admitted_at)
        (be 8 (unix_nano c.starts_at))
        (be 8 (unix_nano c.ends_at))
        (be 4 c.partitions)
        (be 4 c.allowed_mask)
unfolding encode_record
record-Laid c kind v t size =
    laid 1 kind (if c.multiple then 1 else 0) 0 (be 4 v.choice) c.poll_id v.token
      (stamp v.admitted_at) _ _ _ _ (length-be 4 v.choice) t.id size (length-stamp v.admitted_at)
      (length-be 8 _) (length-be 8 _) (length-be 4 _) (length-be 4 _)

pub record-matches :
    (c : Config) (kind : ℕ) (v : Vote)
    → Typed c
    → length v.token ≡ 16
    → leb 1 kind ≡ true
    → leb kind 3 ≡ true
    → matches c (encode_record c kind v) ≡ true
unfolding matches encode_record from_be
record-matches c kind v t size low high =
    let l = record-Laid c kind v t size in
    rw (l.long, low, high, flag-le c.multiple, flag-ok c.multiple)
      (rw (l.id_is, l.start_is, l.end_is, l.parts_is, l.mask_is, l.rest_is)
        (rw
          (
            bytes_eq_refl c.poll_id,
            from_be-be 8 (unix_nano c.starts_at) (unix_nano-lt c.starts_at),
            from_be-be 8 (unix_nano c.ends_at) (unix_nano-lt c.ends_at),
            from_be-be 4 c.partitions t.few,
            from_be-be 4 c.allowed_mask t.mask,
          )
          (rw
            (
              ==_refl (unix_nano c.starts_at),
              ==_refl (unix_nano c.ends_at),
              ==_refl c.partitions,
              ==_refl c.allowed_mask,
            )
            refl)))

stamp-exact : (t : ℕ) → InNanoRange t → from_unix_nano (from_be (stamp t)) ≡ t
unfolding stamp
stamp-exact t r =
    let h : is_zero t ≡ false = ground (arith, r.lower) in
    rw h (
      ap from_unix_nano (from_be-be 8 (unix_nano t) (unix_nano-lt t))
      ∙ from_unix_nano-unix_nano t r)

decode_vote :
    (c : Config) (b : Bytes) (v : Vote)
    → matches c b ≡ true
    → get_or b 1 0 ≡ 1
    → slice 24 16 b ≡ v.token
    → from_be (slice 4 4 b) ≡ v.choice
    → from_unix_nano (from_be (slice 40 8 b)) ≡ v.admitted_at
    → valid_vote c v ≡ true
    → decode_record c b ≡ decoded 1 v
unfolding decode_record
decode_vote c b v m kind token choice time ok =
    rw m (rw kind (rw token (rw choice (rw time (rw ok refl)))))

-- A record of a valid vote is read back as that vote: for a configuration and a vote whose fields have
-- the sizes of their types, and an instant of admission that an int64 of nanoseconds holds.
pub decode_record-encode_record :
    (c : Config) (v : Vote)
    → Typed c
    → length v.token ≡ 16
    → v.choice < 2 ^ 32
    → InNanoRange v.admitted_at
    → valid_vote c v ≡ true
    → decode_record c (encode_record c 1 v) ≡ decoded 1 v
decode_record-encode_record c v t size word range ok =
    let l = record-Laid c 1 v t size in
    decode_vote c (encode_record c 1 v) v (record-matches c 1 v t size refl refl)
      (unfold encode_record in refl) l.token_is
      (ap from_be l.choice_is ∙ from_be-be 4 v.choice word)
      (ap (λ x. from_unix_nano (from_be x)) l.time_is ∙ stamp-exact v.admitted_at range) ok

matches_sound :
    (c : Config) (b : Bytes)
    → matches c b ≡ true
    → (length b ≡ 80)
      × (bytes_eq (slice 8 16 b) c.poll_id ≡ true)
      × (1 ≤ get_or b 1 0)
      × (get_or b 1 0 ≤ 3)
unfolding matches
matches_sound c b h =
    let upto = λ (x y : Bool) (k : (x && y) ≡ true). (&&_split x y k).0 in
    let (early, poll) = &&_split _ _ (upto _ _ (upto _ _ (upto _ _ (upto _ _ (upto _ _ h))))) in
    let (sized, high) = &&_split _ _ (upto _ _ (upto _ _ (upto _ _ early))) in
    let (first, low) = &&_split _ _ sized in
    let (long, _) = &&_split _ _ first in
    (==_sound (length b) 80 long, poll, leb→le 1 (get_or b 1 0) low, leb→le (get_or b 1 0) 3 high)

control_or_vote :
    (m kind_is token choice time valid : Bool) (k kind : ℕ) (v w z : Vote)
    → (if not m
        then refused other_poll
        else if kind_is
        then (if valid then decoded 1 w else refused invalid_vote)
        else if not token || not choice || not time
        then refused invalid_control
        else decoded k z)
      ≡ decoded kind v
    → (m ≡ true)
      × (((kind_is ≡ true) × (kind ≡ 1) × (v ≡ w) × (valid ≡ true))
          ⊎ ((kind_is ≡ false) × (kind ≡ k) × (v ≡ z) × (token ≡ true) × (choice ≡ true)))
control_or_vote true true token choice time true k kind v w z h =
    (refl, inl (refl, ground (arith, h), ground (arith, h), refl))
control_or_vote true true token choice time false k kind v w z h = ground (arith, h)
control_or_vote true false true true true valid k kind v w z h =
    (refl, inr (refl, ground (arith, h), ground (arith, h), refl, refl))
control_or_vote true false true true false valid k kind v w z h = ground (arith, h)
control_or_vote true false true false time valid k kind v w z h = ground (arith, h)
control_or_vote true false false choice time valid k kind v w z h = ground (arith, h)
control_or_vote false kind_is token choice time valid k kind v w z h = ground (arith, h)

-- Whatever bytes decodeRecord accepts, they are 80 bytes that name the poll of the configuration, and
-- hold a vote that passes its checks, or a control record with no token, choice or instant.
pub decode_record_sound :
    (c : Config) (b : Bytes) (kind : ℕ) (v : Vote)
    → decode_record c b ≡ decoded kind v
    → (length b ≡ 80)
      × (bytes_eq (slice 8 16 b) c.poll_id ≡ true)
      × (((kind ≡ 1) × (valid_vote c v ≡ true))
          ⊎ ((2 ≤ kind)
              × (kind ≤ 3)
              × (bytes_eq v.token zero_token ≡ true)
              × (v.choice ≡ 0)
              × (v.admitted_at ≡ 0)))
unfolding decode_record
decode_record_sound c b kind v h =
    let (m, outcome) = control_or_vote _ _ _ _ _ _ _ kind v _ _ h in
    let (long, poll, low, high) = matches_sound c b m in
    (
      long,
      poll,
      elim outcome [
        | inl (_, one, same, ok) ↦ inl (one, rw same ok)
        | inr (other, k, same, token, choice) ↦
            let control = ==_no (get_or b 1 0) 1 other in
            inr (
              rw k (two_or_more (get_or b 1 0) low control),
              rw k high,
              rw same token,
              rw same (==_sound (from_be (slice 4 4 b)) 0 choice),
              rw same refl,
            )
      ],
    )
  where
    two_or_more : (n : ℕ) → 1 ≤ n → n ≢ 1 → 2 ≤ n
    two_or_more n low other = ground arith

decode_control :
    (c : Config) (b : Bytes) (kind : ℕ)
    → matches c b ≡ true
    → get_or b 1 0 ≡ kind
    → (kind == 1) ≡ false
    → slice 24 16 b ≡ zero_token
    → from_be (slice 4 4 b) ≡ 0
    → from_be (slice 40 8 b) ≡ 0
    → decode_record c b ≡ decoded kind no_vote
unfolding decode_record
decode_control c b kind m first other token choice time =
    rw m (rw first (rw other (rw token (rw choice (rw time (rw (bytes_eq_refl zero_token) refl))))))

-- A control record, of kind 2 (BOOT) or 3 (CLOSED), is read back.
pub decode_record-control :
    (c : Config) (kind : ℕ)
    → Typed c
    → leb 1 kind ≡ true
    → leb kind 3 ≡ true
    → (kind == 1) ≡ false
    → decode_record c (encode_record c kind no_vote) ≡ decoded kind no_vote
decode_record-control c kind t low high other =
    let l = record-Laid c kind no_vote t refl in
    decode_control c (encode_record c kind no_vote) kind
      (record-matches c kind no_vote t refl low high) (unfold encode_record in refl) other
      l.token_is (ap from_be l.choice_is ∙ from_be-be 4 0 (omega arith))
      (ap from_be l.time_is ∙ no_stamp)
  where
    no_stamp : from_be (stamp 0) ≡ 0
    no_stamp = unfold stamp from_be in refl
