-- ===== src/Httpapi/Server/Calls.antt =====
-- internal/httpapi/server.go: what the handler of votes passes to the repository.
use gigaquizz.Common.{ℕ, ◌≡◌, refl, true, not, not-false, List, ltb, if_cases, length, All}
use gigaquizz.Common.Bytes.{Bytes, every}
use gigaquizz.Common.Int.{ℤ}
use gigaquizz.Poll.{Choices, ok, err, normalize_choices}
use gigaquizz.Poll.Selection.{Increasing, IsSelection, normalize_choices_sound}
use gigaquizz.Httpapi.Server.{
  Body, other_type, malformed, two_values, value, VoteInput, VoteRequest, VoteCall, Checked, refuse,
  leave, call, valid_uuid, valid_token, admit, check_choices, check_input, check_body, check_vote,
  refuse_vote,
}
use gigaquizz.Httpapi.Server.Machine.{
  System, arrives_as, checks_as, Step, arrives, checks, answers, Reach, start, next,
}
use gigaquizz.Httpapi.Server.Tokens.{is_lower_hex, valid_token-lower}
use mathlib.Core.List.{Perm}

-- A call that the checks let through: the token is 32 lower-case hexadecimal digits, and the choices are
-- those of some request, from 1 to 20 numbers of options without repetition, in increasing order.
pub record Admissible (unicode : Bytes → Bytes) (c : VoteCall) : Type 0 where
  pub poll : valid_uuid unicode c.id ≡ true
  pub token_length : length c.token ≡ 32
  pub token_digits : every is_lower_hex c.token ≡ true
  pub asked : List ℤ
  pub same : Perm c.choices asked
  pub increasing : Increasing c.choices
  pub selection : IsSelection asked

abbrev Lets : (Bytes → Bytes) → Checked → Type 0
Lets unicode (refuse status) = Unit {0}
Lets unicode leave = Unit {0}
Lets unicode (call c) = Admissible unicode c

module _ (unicode : Bytes → Bytes) (r : VoteRequest) (poll : valid_uuid unicode r.id ≡ true) where
  gone-Lets :
      (token : Bytes) (asked choices : List ℤ)
      → valid_token unicode token ≡ true
      → normalize_choices asked ≡ ok choices
      → Lets unicode (check_choices r token (ok choices))
  unfolding check_choices
  gone-Lets token asked choices h e =
      if_cases (Lets unicode) r.gone _ _ (λ _. tt)
        (λ _.
          let (size, digits) = valid_token-lower unicode token h in
          let (same, increasing, selection) = normalize_choices_sound asked choices e in
          record {
            poll = poll;
            token_length = size;
            token_digits = digits;
            asked = asked;
            same = same;
            increasing = increasing;
            selection = selection;
          })

  choices-Lets :
      (token : Bytes) (asked : List ℤ) (o : Choices)
      → valid_token unicode token ≡ true
      → normalize_choices asked ≡ o
      → Lets unicode (check_choices r token o)
  choices-Lets token asked (ok choices) h e = gone-Lets token asked choices h e
  choices-Lets token asked (err e) h _ = unfold check_choices in tt

  body-Lets : (body : Body VoteInput) → Lets unicode (check_body unicode r body)
  unfolding check_body check_input
  body-Lets other_type = tt
  body-Lets malformed = tt
  body-Lets two_values = tt
  body-Lets (value input) =
      if_cases (Lets unicode) (not (valid_token unicode input.token)) _ _ (λ _. tt)
        (λ h.
          choices-Lets input.token input.choices (normalize_choices input.choices)
            (not-false (valid_token unicode input.token) h) refl)

check_vote-Lets : (unicode : Bytes → Bytes) (r : VoteRequest) → Lets unicode (check_vote unicode r)
unfolding check_vote
check_vote-Lets unicode r =
    if_cases (Lets unicode) (not (valid_uuid unicode r.id)) _ _ (λ _. tt)
      (λ h. body-Lets unicode r (not-false (valid_uuid unicode r.id) h) r.body)

module _ (unicode : Bytes → Bytes) where
  abbrev AllLet : System → Type 0
  AllLet s = All (Admissible unicode) s.calls

  checks-AllLet : (s : System) (o : Checked) → Lets unicode o → AllLet s → AllLet (checks_as s o)
  unfolding refuse_vote
  checks-AllLet s (refuse status) h i = i
  checks-AllLet s leave h i = i
  checks-AllLet s (call c) h i = (h, i)

  Step-AllLet : (s t : System) → Step unicode s t → AllLet s → AllLet t
  unfolding admit
  Step-AllLet s t arrives i =
      if_cases (λ o. AllLet (arrives_as s o)) (ltb s.server.inflight s.server.max_inflight) _ _
        (λ _. i) (λ _. i)
  Step-AllLet s t (checks r h) i =
      checks-AllLet s (check_vote unicode r) (check_vote-Lets unicode r) i
  Step-AllLet s t (answers receipt h) i = i

-- Whatever requests arrive and whatever handlers run at once, every call of the repository's Vote has an
-- identifier of a poll that validUUID accepts, a token of 32 lower-case hexadecimal digits, and choices
-- in strictly increasing order that are a permutation of a valid selection.
pub Reach-Admissible :
    (unicode : Bytes → Bytes) (max_inflight : ℕ) (s : System)
    → Reach unicode max_inflight s
    → All (Admissible unicode) s.calls
Reach-Admissible unicode max_inflight s start = tt
Reach-Admissible unicode max_inflight t (next {s} r step) =
    Step-AllLet unicode s t step (Reach-Admissible unicode max_inflight s r)
