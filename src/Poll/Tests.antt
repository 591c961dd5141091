-- ===== src/Poll/Tests.antt =====
-- Polls and selections on concrete inputs.
use gigaquizz.Common.{
  ℕ, ◌+◌, ◌≤◌, ◌<◌, ◌≡◌, ◌≢◌, ◌↔◌, inl, inr, refl, Bool, true, false, List, [], ◌∷◌, Option, none,
  some, length, ◌==◌, if◌then◌else◌, arith,
}
use gigaquizz.Common.Int.{ℤ, pos}
use gigaquizz.Poll.{
  Poll, single, State, scheduled, open_, processing, state, CreateInput, sort, normalize_choices,
  ok, validate,
}
use gigaquizz.Poll.Selection.{
  Increasing, IsSelection, normalize_choices_sound, normalize_choices_complete,
}
use gigaquizz.Poll.Validation.{IsAcceptable, validate_sound}
use mathlib.Core.List.{Perm}

abbrev poll : Poll
poll = record {
  id = [];
  question = [];
  type = single;
  options = [];
  starts_at = 100;
  ends_at = 200;
  created_at = 50;
  finalized_at = none;
}

abbrev selection : List ℤ
selection = pos 3 ∷ pos 1 ∷ []

sorted : normalize_choices selection ≡ ok (pos 1 ∷ pos 3 ∷ [])
unfolding normalize_choices gigaquizz.Poll.check_ids sort
sorted = refl

normalize_choices_sound_example :
    Perm (pos 1 ∷ pos 3 ∷ []) selection × Increasing (pos 1 ∷ pos 3 ∷ []) × IsSelection selection
normalize_choices_sound_example = normalize_choices_sound selection (pos 1 ∷ pos 3 ∷ []) sorted

selection-IsSelection : IsSelection selection
selection-IsSelection = (normalize_choices_sound selection (pos 1 ∷ pos 3 ∷ []) sorted).2

normalize_choices_complete_example : normalize_choices selection ≡ ok (sort selection)
normalize_choices_complete_example = normalize_choices_complete selection selection-IsSelection

-- Code point 32 is white space; lowering takes 65 to 97.
abbrev space : ℕ → Bool
space c = c == 32

abbrev lower : ℕ → ℕ
lower c = if c == 65 then 97 else c

abbrev wanted : CreateInput
wanted = record {
  question = 32 ∷ 63 ∷ [];
  type = single;
  options = (65 ∷ []) ∷ (98 ∷ 32 ∷ []) ∷ [];
  starts_at = none;
}

passes : (validate space lower wanted).1 ≡ none
unfolding validate gigaquizz.Poll.trim_space gigaquizz.Poll.trim_right gigaquizz.Poll.trim_left
    gigaquizz.Poll.cut_space gigaquizz.Poll.is_accepted_type gigaquizz.Poll.is_ab
    gigaquizz.Poll.check_options gigaquizz.Poll.is_seen gigaquizz.Common.Bytes.bytes_eq
passes = refl

validate_sound_example :
    IsAcceptable space lower (validate space lower wanted).0
    × (validate space lower (validate space lower wanted).0
        ≡ ((validate space lower wanted).0, none))
validate_sound_example = validate_sound space lower wanted passes
