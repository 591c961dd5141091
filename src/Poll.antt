-- ===== src/Poll.antt =====
-- internal/poll/poll.go: a poll's state, the validation of a new poll, and the choices of a vote.
-- A text is the list of its code points, which is what the code counts, trims and lowers;
-- `unicode.IsSpace` and `unicode.ToLower` are parameters.
mod Clock
pub mod Selection
mod Validation
mod Tests
use gigaquizz.Common.{
  ℕ, zero, suc, ◌+◌, Bool, true, false, not, ◌&&◌, ◌||◌, List, [], ◌∷◌, ◌++◌, map, Option, none,
  some, ltb, leb, ◌==◌, if◌then◌else◌, length,
}
use gigaquizz.Common.Bytes.{bytes_eq}
use gigaquizz.Common.Int.{ℤ, pos, negsuc, ◌≤b◌, ◌=b◌}
use gigaquizz.GoTime.{before}

abbrev pub Text : Type 0
Text = List ℕ

pub record PollOption : Type 0 where
  pub id : ℤ
  pub label : Text

pub data Kind : Type 0 where
  ab single multiple other : Kind

pub record Poll : Type 0 where
  pub id : Text
  pub question : Text
  pub type : Kind
  pub options : List PollOption
  pub starts_at : ℕ
  pub ends_at : ℕ
  pub created_at : ℕ
  pub finalized_at : Option ℕ

pub data State : Type 0 where
  scheduled open_ processing final : State

-- `Poll.State`
pub state : Poll → ℕ → State
state p now = elim p.finalized_at [
  | some t ↦ final
  | none ↦
      if before now p.starts_at
      then scheduled
      else if before now p.ends_at
      then open_
      else processing
]

-- `in.Type`; `other` stands for every text but the three that are accepted.
pub record CreateInput : Type 0 where
  pub question : Text
  pub type : Kind
  pub options : List Text
  pub starts_at : Option ℕ

pub data InputError : Type 0 where
  question_length bad_type option_count ab_count option_length same_labels : InputError

-- `slices.Sort` on ints
unfoldable pub insert : ℤ → List ℤ → List ℤ
insert a [] = a ∷ []
insert a (b ∷ bs) = if a ≤b b then a ∷ b ∷ bs else b ∷ insert a bs

unfoldable pub sort : List ℤ → List ℤ
unfolding insert
sort [] = []
sort (a ∷ rest) = insert a (sort rest)

pub data ChoiceError : Type 0 where
  selection_size invalid_id duplicate_ids : ChoiceError

-- `v < 1 || v > 20`, negated
abbrev pub is_option_id : ℤ → Bool
is_option_id v = pos 1 ≤b v && v ≤b pos 20

-- The loop over the sorted ids; `previous` is `result[i-1]`, none for `i == 0`.
unfoldable pub check_ids : Option ℤ → List ℤ → Option ChoiceError
check_ids previous [] = none
check_ids previous (v ∷ vs) =
    let rest = check_ids (some v) vs in
    if not (is_option_id v)
    then some invalid_id
    else if elim previous [ none ↦ false | some u ↦ u =b v ]
    then some duplicate_ids
    else rest

-- `NormalizeChoices`: the ids in order, or an error.
pub data Choices : Type 0 where
  ok : List ℤ → Choices
  err : ChoiceError → Choices

unfoldable pub normalize_choices : List ℤ → Choices
normalize_choices choices =
    if length choices == 0 || ltb 20 (length choices)
    then err selection_size
    else elim (check_ids none (sort choices)) [ none ↦ ok (sort choices) | some e ↦ err e ]

pub is_accepted_type : Kind → Bool
is_accepted_type other = false
is_accepted_type k = true

pub is_ab : Kind → Bool
is_ab ab = true
is_ab k = false

-- `seen[key]`
pub is_seen : Text → List Text → Bool
is_seen key [] = false
is_seen key (k ∷ seen) = bytes_eq k key || is_seen key seen

module _ (is_space : ℕ → Bool) where
  unfoldable pub trim_left : Text → Text
  trim_left [] = []
  trim_left (c ∷ s) = let rest = trim_left s in if is_space c then rest else c ∷ s

  unfoldable pub cut_space : ℕ → Text → Text
  cut_space c [] = if is_space c then [] else c ∷ []
  cut_space c (d ∷ s) = c ∷ d ∷ s

  unfoldable pub trim_right : Text → Text
  trim_right [] = []
  trim_right (c ∷ s) = cut_space c (trim_right s)

  -- `strings.TrimSpace`
  unfoldable pub trim_space : Text → Text
  trim_space s = trim_right (trim_left s)

module _ (is_space : ℕ → Bool) (to_lower : ℕ → ℕ) where
  -- The loop over the options. The options behind a failing one are not trimmed.
  pub check_options : List Text → List Text → List Text × Option InputError
  check_options seen [] = ([], none)
  check_options seen (o ∷ os) =
      let label = trim_space is_space o in
      let key = map to_lower label in
      let rest = check_options (key ∷ seen) os in
      if ltb (length label) 1 || ltb 100 (length label)
      then (label ∷ os, some option_length)
      else if is_seen key seen
      then (label ∷ os, some same_labels)
      else (label ∷ rest.0, rest.1)

  -- `CreateInput.Validate`, which trims its receiver in place.
  pub validate : CreateInput → CreateInput × Option InputError
  validate i =
      let q = trim_space is_space i.question in
      let trimmed : CreateInput = record i { question = q } in
      let checked = check_options [] i.options in
      if ltb (length q) 1 || ltb 300 (length q)
      then (trimmed, some question_length)
      else if not (is_accepted_type i.type)
      then (trimmed, some bad_type)
      else if ltb (length i.options) 2 || ltb 20 (length i.options)
      then (trimmed, some option_count)
      else if is_ab i.type && not (length i.options == 2)
      then (trimmed, some ab_count)
      else (record trimmed { options = checked.0 }, checked.1)
