-- ===== src/Poll/Validation.antt =====
-- CreateInput.Validate: what passes, and that a second validation changes nothing.
use gigaquizz.Common.{
  ℕ, suc, ◌≤◌, ◌≡◌, ◌≢◌, ◌⊎◌, inl, inr, refl, ap, ◌∙◌, Bool, false, List, [], ◌∷◌, map, Option,
  none, length, All, arith, Bool-cases,
}
use gigaquizz.Poll.{
  Text, Kind, ab, other, CreateInput, InputError, trim_left, cut_space, trim_right, trim_space,
  is_seen, check_options, validate, is_accepted_type, is_ab,
}

ab_or_not : (k : Kind) → (k ≡ ab) ⊎ (k ≢ ab)
ab_or_not ab = inl refl
ab_or_not k = inr (λ e. cc)

module _ (is_space : ℕ → Bool) where
  -- No white space at the start.
  abbrev Starts : Text → Type 0
  Starts [] = Unit {0}
  Starts (c ∷ s) = is_space c ≡ false

  trim_left-Starts : (s : Text) → Starts (trim_left is_space s)
  unfolding trim_left
  trim_left-Starts [] = tt
  trim_left-Starts (c ∷ s) = elim (Bool-cases (is_space c)) [
    | inl h ↦ rw h (trim_left-Starts s)
    | inr h ↦ rw h h
  ]

  trim_left_id : (s : Text) → Starts s → trim_left is_space s ≡ s
  unfolding trim_left
  trim_left_id [] h = refl
  trim_left_id (c ∷ s) h = rw h

  trim_right_twice :
      (s : Text) → trim_right is_space (trim_right is_space s) ≡ trim_right is_space s
  unfolding trim_right cut_space
  trim_right_twice [] = refl
  trim_right_twice (c ∷ s) = again (trim_right is_space s) (trim_right_twice s)
    where
      again :
          (t : Text)
          → trim_right is_space t ≡ t
          → trim_right is_space (cut_space is_space c t) ≡ cut_space is_space c t
      again [] h = ground arith
      again (d ∷ t) h = ap (cut_space is_space c) h

  trim_right-Starts : (s : Text) → Starts s → Starts (trim_right is_space s)
  unfolding trim_right cut_space
  trim_right-Starts [] h = tt
  trim_right-Starts (c ∷ s) h = kept (trim_right is_space s)
    where
      kept : (t : Text) → Starts (cut_space is_space c t)
      kept [] = rw h h
      kept (d ∷ t) = h

  -- Trimming twice is trimming once.
  trim_space_twice :
      (s : Text) → trim_space is_space (trim_space is_space s) ≡ trim_space is_space s
  unfolding trim_space
  trim_space_twice s =
      rw
        (trim_left_id (trim_right is_space (trim_left is_space s))
          (trim_right-Starts (trim_left is_space s) (trim_left-Starts s)))
        (trim_right_twice (trim_left is_space s))

module _ (is_space : ℕ → Bool) (to_lower : ℕ → ℕ) where
  -- What validation promises of a label, and of the labels together: trimmed, 1 to 100 characters,
  -- and no two alike after lowering.
  pub record IsLabel (label : Text) : Type 0 where
    pub trimmed : trim_space is_space label ≡ label
    pub some_chars : 1 ≤ length label
    pub few_chars : length label ≤ 100

  abbrev pub AllNew : List Text → List Text → Type 0
  AllNew seen [] = Unit {0}
  AllNew seen (o ∷ os) = (is_seen (map to_lower o) seen ≡ false) × AllNew (map to_lower o ∷ seen) os

  pub record IsAcceptable (i : CreateInput) : Type 0 where
    pub question_trimmed : trim_space is_space i.question ≡ i.question
    pub some_question : 1 ≤ length i.question
    pub few_chars : length i.question ≤ 300
    pub accepted_type : i.type ≢ other
    pub some_options : 2 ≤ length i.options
    pub few_options : length i.options ≤ 20
    pub two_for_ab : (i.type ≢ ab) ⊎ (length i.options ≡ 2)
    pub labels : All IsLabel i.options
    pub distinct : AllNew [] i.options

  abbrev passed : List Text → List Text → List Text
  passed seen os = (check_options is_space to_lower seen os).0

  abbrev outcome : List Text → List Text → Option InputError
  outcome seen os = (check_options is_space to_lower seen os).1

  abbrev key_of : Text → Text
  key_of o = map to_lower (trim_space is_space o)

  -- A round of the loop that does not fail.
  record Round (seen : List Text) (o : Text) (os : List Text) : Type 0 where
    some_chars : 1 ≤ length (trim_space is_space o)
    few_chars : length (trim_space is_space o) ≤ 100
    new_key : is_seen (key_of o) seen ≡ false
    rest : outcome (key_of o ∷ seen) os ≡ none
    result : passed seen (o ∷ os) ≡ trim_space is_space o ∷ passed (key_of o ∷ seen) os

  check_options_round :
      (seen : List Text) (o : Text) (os : List Text)
      → outcome seen (o ∷ os) ≡ none
      → Round seen o os
  unfolding check_options
  check_options_round seen o os h = record {
    some_chars = ground arith;
    few_chars = ground arith;
    new_key = ground arith;
    rest = ground arith;
    result = ground arith;
  }

  -- Labels that are trimmed, of the right length and new pass as they are.
  check_options_id :
      (seen ls : List Text)
      → All IsLabel ls
      → AllNew seen ls
      → check_options is_space to_lower seen ls ≡ (ls, none)
  unfolding check_options
  check_options_id seen [] h n = refl
  check_options_id seen (o ∷ os) h n = rw h.0.trimmed (
      rw (check_options_id (map to_lower o ∷ seen) os h.1 n.1)
        (ground (arith, h.0.some_chars, h.0.few_chars, n.0)))

  check_options_sound :
      (seen os : List Text)
      → outcome seen os ≡ none
      → All IsLabel (passed seen os)
        × AllNew seen (passed seen os)
        × (length (passed seen os) ≡ length os)
  check_options_sound seen [] h = unfold check_options in (tt, tt, refl)
  check_options_sound seen (o ∷ os) h =
      let r = check_options_round seen o os h in
      let (labels, new, size) = check_options_sound (key_of o ∷ seen) os r.rest in
      let label : IsLabel (trim_space is_space o) = record {
        trimmed = trim_space_twice is_space o;
        some_chars = r.some_chars;
        few_chars = r.few_chars;
      } in
      rw r.result ((label, labels), (r.new_key, new), ap suc size)

  abbrev trimmed_input : CreateInput → CreateInput
  trimmed_input i = record i {
    question = trim_space is_space i.question;
    options = passed [] i.options;
  }

  -- The tests that a successful validation has passed.
  record Passes (i : CreateInput) : Type 0 where
    some_question : 1 ≤ length (trim_space is_space i.question)
    few_chars : length (trim_space is_space i.question) ≤ 300
    accepted_type : i.type ≢ other
    some_options : 2 ≤ length i.options
    few_options : length i.options ≤ 20
    two_for_ab : (i.type ≢ ab) ⊎ (length i.options ≡ 2)
    options : outcome [] i.options ≡ none
    result : (validate is_space to_lower i).0 ≡ trimmed_input i

  validate-Passes : (i : CreateInput) → (validate is_space to_lower i).1 ≡ none → Passes i
  unfolding validate is_accepted_type is_ab
  validate-Passes i h = record {
    some_question = ground arith;
    few_chars = ground arith;
    accepted_type = λ e. ground (arith, e);
    some_options = ground arith;
    few_options = ground arith;
    two_for_ab = elim (ab_or_not i.type) [ inl a ↦ inr (ground (arith, a)) | inr n ↦ inl n ];
    options = ground arith;
    result = ground arith;
  }

  -- An input whose question, type and options are as they should be passes and is not changed.
  pub validate_id : (i : CreateInput) → IsAcceptable i → validate is_space to_lower i ≡ (i, none)
  unfolding validate is_accepted_type is_ab
  validate_id i v =
      rw v.question_trimmed (rw (check_options_id [] i.options v.labels v.distinct) (ground arith))

  -- A poll that passes validation comes out acceptable: question and labels trimmed, the question of
  -- 1 to 300 characters, an accepted type, 2 to 20 options (exactly 2 of an A/B poll), each of 1 to
  -- 100 characters, and no two alike when lowered. Validating the outcome again passes and changes
  -- nothing.
  pub validate_sound :
      (i : CreateInput)
      → (validate is_space to_lower i).1 ≡ none
      → IsAcceptable (validate is_space to_lower i).0
        × (validate is_space to_lower (validate is_space to_lower i).0
            ≡ ((validate is_space to_lower i).0, none))
  validate_sound i h =
      let p = validate-Passes i h in
      let (labels, new, size) = check_options_sound [] i.options p.options in
      let v : IsAcceptable (trimmed_input i) = record {
        question_trimmed = trim_space_twice is_space i.question;
        some_question = p.some_question;
        few_chars = p.few_chars;
        accepted_type = p.accepted_type;
        some_options = omega (arith, size, p.some_options);
        few_options = omega (arith, size, p.few_options);
        two_for_ab = elim p.two_for_ab [ inl a ↦ inl a | inr e ↦ inr (size ∙ e) ];
        labels = labels;
        distinct = new;
      } in
      rw p.result (v, validate_id (trimmed_input i) v)
