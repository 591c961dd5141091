-- ===== src/Httpapi/Server.antt =====
-- internal/httpapi/server.go: the handler of votes, with its slots and its counters. The routing, the
-- parsing of JSON and of media types, the texts of the answers and the repository are outside: a request
-- says what `decode` finds in it, and the repository's answer is an argument. A string is its list of
-- bytes.
pub mod Machine
pub mod Metrics
pub mod Tokens
pub mod Calls
mod Tests
use gigaquizz.Common.{
  ℕ, ◌+◌, ◌-◌, ◌%◌, ◌^◌, Bool, true, false, not, ◌&&◌, ◌||◌, List, [], ◌∷◌, map, Option, none, some,
  ltb, leb, ◌==◌, if◌then◌else◌, length, get_or,
}
use gigaquizz.Common.Bytes.{Bytes, bytes_eq, every, is_ascii}
use gigaquizz.Common.Int.{ℤ}
use gigaquizz.Poll.{Choices, ok, err, normalize_choices}

-- `hex.DecodeString` succeeds: an even number of hexadecimal digits.
abbrev pub in_range : ℕ → ℕ → ℕ → Bool
in_range lo hi b = leb lo b && leb b hi

abbrev pub is_hex : ℕ → Bool
is_hex b = in_range 48 57 b || in_range 97 102 b || in_range 65 70 b

abbrev pub hex_decodes : Bytes → Bool
hex_decodes s = (length s % 2 == 0) && every is_hex s

-- `strings.ToLower` of an ASCII string; of another string, it is a parameter.
abbrev pub lower_byte : ℕ → ℕ
lower_byte b = if in_range 65 90 b then b + 32 else b

unfoldable pub to_lower : (Bytes → Bytes) → Bytes → Bytes
to_lower unicode s = if every is_ascii s then map lower_byte s else unicode s

-- `validToken`
unfoldable pub valid_token : (Bytes → Bytes) → Bytes → Bool
valid_token unicode s =
    if not (length s == 32) || not (bytes_eq s (to_lower unicode s)) then false else hex_decodes s

-- `strings.ReplaceAll(s, "-", "")`
abbrev pub without_dashes : Bytes → Bytes
without_dashes [] = []
without_dashes (b ∷ bs) = let rest = without_dashes bs in if b == 45 then rest else b ∷ rest

-- `validUUID`
unfoldable pub valid_uuid : (Bytes → Bytes) → Bytes → Bool
valid_uuid unicode s =
    (length s == 36)
    && (get_or s 8 0 == 45)
    && (get_or s 13 0 == 45)
    && (get_or s 18 0 == 45)
    && (get_or s 23 0 == 45)
    && valid_token unicode (without_dashes s)

-- What `decode` finds in a request: another media type, no JSON of the expected form or too large a
-- body, a second value behind the first, or one value.
pub data Body (A : Type 0) : Type 0 where
  other_type malformed two_values : Body A
  value : A → Body A

pub record VoteInput : Type 0 where
  pub token : Bytes
  pub choices : List ℤ

-- A request to the handler of votes; `gone` is the error of its context.
pub record VoteRequest : Type 0 where
  pub id : Bytes
  pub body : Body VoteInput
  pub gone : Bool

-- The status of a receipt; `strange` is any other text.
pub data Status : Type 0 where
  accepted duplicate conflict closed not_open invalid not_found strange : Status

-- What a handler writes: an error, an error with the field `outcome`, where `Retry-After` is set, or
-- the receipt.
pub data Reply : Type 0 where
  error_reply : ℕ → Reply
  not_admitted unknown_outcome : Reply
  receipt_reply : ℕ → Status → Reply

pub record Server : Type 0 where
  pub max_inflight : ℕ
  pub inflight : ℕ
  pub ready : Bool
  pub attempts : ℕ
  pub accepted : ℕ
  pub duplicates : ℕ
  pub conflicts : ℕ
  pub rejected : ℕ
  pub unknown : ℕ
  pub storage_errors : ℕ

-- `atomic.Uint64.Add(1)`
abbrev pub add_one : ℕ → ℕ
add_one n = (n + 1) % 2 ^ 64

abbrev pub count_rejected : Server → Server
count_rejected s = record s { rejected = add_one s.rejected }

-- `vote`, up to the `select`: a handler that is admitted goes on.
unfoldable pub admit : Server → Server × Option Reply
admit s =
    let counted : Server = record s { attempts = add_one s.attempts } in
    if ltb counted.inflight counted.max_inflight
    then (record counted { inflight = counted.inflight + 1 }, none)
    else (count_rejected counted, some not_admitted)

-- The call of the repository's `Vote`.
pub record VoteCall : Type 0 where
  pub id : Bytes
  pub token : Bytes
  pub choices : List ℤ

-- What the checks of an admitted request come to.
pub data Checked : Type 0 where
  refuse : ℕ → Checked
  leave : Checked
  call : VoteCall → Checked

-- The checks from `validToken` on, of a body that is decoded.
unfoldable pub check_choices : VoteRequest → Bytes → Choices → Checked
check_choices r token (err e) = refuse 422
check_choices r token (ok choices) =
    if r.gone then leave else call (record { id = r.id; token = token; choices = choices })

unfoldable pub check_input : (Bytes → Bytes) → VoteRequest → VoteInput → Checked
check_input unicode r input =
    if not (valid_token unicode input.token)
    then refuse 422
    else check_choices r input.token (normalize_choices input.choices)

unfoldable pub check_body : (Bytes → Bytes) → VoteRequest → Body VoteInput → Checked
check_body unicode r other_type = refuse 415
check_body unicode r malformed = refuse 400
check_body unicode r two_values = refuse 400
check_body unicode r (value input) = check_input unicode r input

-- `vote`, from the `select` to the call of the repository.
unfoldable pub check_vote : (Bytes → Bytes) → VoteRequest → Checked
check_vote unicode r =
    if not (valid_uuid unicode r.id) then refuse 404 else check_body unicode r r.body

-- The end of an admitted handler: the deferred receive from `inflight`.
abbrev pub release : Server → Server
release s = record s { inflight = s.inflight - 1 }

unfoldable pub refuse_vote : ℕ → Server → Server × Reply
refuse_vote status s = (release (count_rejected s), error_reply status)

-- `vote`, behind the call of the repository; `none` is its error.
unfoldable pub answer : Option Status → Server → Server × Reply
answer none s = (
  release (record s { storage_errors = add_one s.storage_errors; unknown = add_one s.unknown }),
  unknown_outcome,
)
answer (some accepted) s =
    (release (record s { accepted = add_one s.accepted }), receipt_reply 201 accepted)
answer (some duplicate) s =
    (release (record s { duplicates = add_one s.duplicates }), receipt_reply 200 duplicate)
answer (some conflict) s =
    (release (record s { conflicts = add_one s.conflicts }), receipt_reply 409 conflict)
answer (some closed) s = (release (count_rejected s), receipt_reply 410 closed)
answer (some not_open) s = (release (count_rejected s), receipt_reply 425 not_open)
answer (some invalid) s = (release (count_rejected s), receipt_reply 422 invalid)
answer (some not_found) s = (release (count_rejected s), receipt_reply 404 not_found)
answer (some strange) s = (release (record s { unknown = add_one s.unknown }), unknown_outcome)
