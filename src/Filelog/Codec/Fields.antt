-- ===== src/Filelog/Codec/Fields.antt =====
-- The fields of a frame header, by their places.
use gigaquizz.Common.{ℕ, ◌+◌, ◌≡◌, sym, ap, ◌∙◌, [], ◌++◌, length, length-append, take, arith}
use gigaquizz.Common.Bytes.{Bytes, slice, slice-skip, take-exact}
use mathlib.Core.List.{append_assoc, append-nil}

abbrev pub front_of : Bytes → Bytes → Bytes → Bytes → Bytes → Bytes → Bytes → Bytes
front_of magic size sequence kind count gap payload =
    magic ++ (size ++ (sequence ++ (kind ++ (count ++ (gap ++ payload)))))

abbrev pub whole_of : Bytes → Bytes → Bytes → Bytes → Bytes → Bytes → Bytes → Bytes → Bytes
whole_of magic size sequence kind count gap payload own =
    front_of magic size sequence kind count gap payload ++ own

-- What the reader's slices of such a header are.
pub record Layout (magic size sequence kind count gap payload own : Bytes) : Type 0 where
  pub long : length (whole_of magic size sequence kind count gap payload own) ≡ 40
  pub front_field :
      take 36 (whole_of magic size sequence kind count gap payload own)
      ≡ front_of magic size sequence kind count gap payload
  pub magic_field : take 4 (whole_of magic size sequence kind count gap payload own) ≡ magic
  pub size_field : slice 4 4 (whole_of magic size sequence kind count gap payload own) ≡ size
  pub sequence_field :
      slice 8 8 (whole_of magic size sequence kind count gap payload own) ≡ sequence
  pub kind_field : slice 16 4 (whole_of magic size sequence kind count gap payload own) ≡ kind
  pub count_field : slice 20 4 (whole_of magic size sequence kind count gap payload own) ≡ count
  pub gap_field : slice 24 8 (whole_of magic size sequence kind count gap payload own) ≡ gap
  pub payload_field : slice 32 4 (whole_of magic size sequence kind count gap payload own) ≡ payload
  pub own_field : slice 36 4 (whole_of magic size sequence kind count gap payload own) ≡ own

module _ (magic size sequence kind count gap payload own : Bytes) (h0 : length magic ≡ 4)
    (h1 : length size ≡ 4) (h2 : length sequence ≡ 8) (h3 : length kind ≡ 4) (h4 : length count ≡ 4)
    (h5 : length gap ≡ 8) (h6 : length payload ≡ 4) (h7 : length own ≡ 4) where
  abbrev front : Bytes
  front = front_of magic size sequence kind count gap payload

  abbrev whole : Bytes
  whole = front ++ own

  abbrev r1 : Bytes
  r1 = size ++ (sequence ++ (kind ++ (count ++ (gap ++ (payload ++ own)))))

  length-front : length front ≡ 36
  length-front = omega (
    arith,
    length-append magic (size ++ (sequence ++ (kind ++ (count ++ (gap ++ payload))))),
    length-append size (sequence ++ (kind ++ (count ++ (gap ++ payload)))),
    length-append sequence (kind ++ (count ++ (gap ++ payload))),
    length-append kind (count ++ (gap ++ payload)),
    length-append count (gap ++ payload),
    length-append gap payload,
  )

  length-whole : length whole ≡ 40
  length-whole = omega (arith, length-append front own, length-front)

  flat : whole ≡ magic ++ r1
  flat = simp append_assoc

  front_field : take 36 whole ≡ front
  front_field = take-exact 36 front own length-front

  own_field : slice 36 4 whole ≡ own
  own_field =
      slice-skip 36 0 4 front own length-front
      ∙ ap (take 4) (sym (append-nil own))
      ∙ take-exact 4 own [] h7

  magic_field : take 4 whole ≡ magic
  magic_field = ap (take 4) flat ∙ take-exact 4 magic r1 h0

  skip_magic : (a n : ℕ) → slice (4 + a) n whole ≡ slice a n r1
  skip_magic a n = ap (slice (4 + a) n) flat ∙ slice-skip 4 a n magic r1 h0

  size_field : slice 4 4 whole ≡ size
  size_field = skip_magic 0 4 ∙ take-exact 4 size _ h1

  skip_size :
      (a n : ℕ)
      → slice (4 + a) n r1 ≡ slice a n (sequence ++ (kind ++ (count ++ (gap ++ (payload ++ own)))))
  skip_size a n = slice-skip 4 a n size _ h1

  sequence_field : slice 8 8 whole ≡ sequence
  sequence_field = skip_magic 4 8 ∙ skip_size 0 8 ∙ take-exact 8 sequence _ h2

  skip_sequence :
      (a n : ℕ) → slice (16 + a) n whole ≡ slice a n (kind ++ (count ++ (gap ++ (payload ++ own))))
  skip_sequence a n =
      ap (λ k. slice k n whole) (omega arith)
      ∙ skip_magic (4 + (8 + a)) n
      ∙ skip_size (8 + a) n
      ∙ slice-skip 8 a n sequence _ h2

  kind_field : slice 16 4 whole ≡ kind
  kind_field = skip_sequence 0 4 ∙ take-exact 4 kind _ h3

  count_field : slice 20 4 whole ≡ count
  count_field = skip_sequence 4 4 ∙ slice-skip 4 0 4 kind _ h3 ∙ take-exact 4 count _ h4

  gap_field : slice 24 8 whole ≡ gap
  gap_field =
      skip_sequence 8 8
      ∙ slice-skip 4 4 8 kind _ h3
      ∙ slice-skip 4 0 8 count _ h4
      ∙ take-exact 8 gap _ h5

  payload_field : slice 32 4 whole ≡ payload
  payload_field =
      skip_sequence 16 4
      ∙ slice-skip 4 12 4 kind _ h3
      ∙ slice-skip 4 8 4 count _ h4
      ∙ slice-skip 8 0 4 gap _ h5
      ∙ take-exact 4 payload _ h6

  pub layout : Layout magic size sequence kind count gap payload own
  layout = record {
    long = length-whole;
    front_field = front_field;
    magic_field = magic_field;
    size_field = size_field;
    sequence_field = sequence_field;
    kind_field = kind_field;
    count_field = count_field;
    gap_field = gap_field;
    payload_field = payload_field;
    own_field = own_field;
  }
