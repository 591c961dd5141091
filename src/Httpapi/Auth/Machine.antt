-- ===== src/Httpapi/Auth/Machine.antt =====
-- internal/httpapi/auth.go: the calls as a step relation. Every call reads the clock under the lock, so
-- that the readings do not decrease from one call to the next.
use gigaquizz.Common.{
  ℕ, ◌+◌, ◌≤◌, Bool, false, ◌&&◌, List, [], ◌∷◌, Option, none, some, ◌==◌, if◌then◌else◌, length,
}
use gigaquizz.Common.Bytes.{Bytes, bytes_eq}
use gigaquizz.GoTime.{before}
use gigaquizz.Httpapi.Auth.{
  Float64, Auth, Cookie, unauthorized, session_hours, new_auth, login, valid, logout,
}

-- What the calls have done to the sessions: a log-in with the password `attempt` that has set the
-- cookie `token` at `now`, and a log-out with the cookie `token`.
pub data Event : Type 0 where
  opened : (attempt token : Bytes) (now : ℕ) → Event
  closed : (token : Bytes) → Event

-- Whether the cookie with the hash `key` stands for an open session: the last event of its hash, the
-- first in the list, is a log-in with the right password, less than eight hours ago.
unfoldable pub honoured : (Bytes → Bytes) → Bytes → List Event → Bytes → ℕ → Bool
honoured sha256 password [] key now = false
honoured sha256 password (opened attempt token at ∷ h) key now =
    if bytes_eq (sha256 token) key
    then bytes_eq (sha256 attempt) (sha256 password) && before now (at + session_hours)
    else honoured sha256 password h key now
honoured sha256 password (closed token ∷ h) key now =
    if bytes_eq (sha256 token) key then false else honoured sha256 password h key now

-- What the specification answers to a request with a cookie.
abbrev pub accepted : (Bytes → Bytes) → Bytes → List Event → Option Bytes → ℕ → Bool
accepted sha256 password h none now = false
accepted sha256 password h (some value) now =
    length value == 64 && honoured sha256 password h (sha256 value) now

abbrev pub opened_by : Bytes → ℕ → Option Cookie → List Event → List Event
opened_by attempt now none h = h
opened_by attempt now (some c) h = opened attempt c.value now ∷ h

abbrev pub closed_by : Option Bytes → List Event → List Event
closed_by none h = h
closed_by (some value) h = closed value ∷ h

-- The passwords that have been refused after a comparison.
abbrev pub count_guess : ℕ → ℕ → ℕ
count_guess status guesses = if status == unauthorized then guesses + 1 else guesses

-- The state, the events, the refused guesses and the last reading of the clock, after some calls.
pub data Reach (sha256 : Bytes → Bytes) {F : Type 0} (fl : Float64 F) (password : Bytes)
    (secure : Bool) (start : ℕ) : Auth F → List Event → ℕ → ℕ → Type 0 where
  made : Reach sha256 fl password secure start (new_auth sha256 fl password secure start) [] 0 start
  after_login :
      {a : Auth F} {h : List Event} {guesses t : ℕ}
      → Reach sha256 fl password secure start a h guesses t
      → (now : ℕ) → t ≤ now
      → (attempt : Bytes) (random : Option Bytes)
      → Reach sha256 fl password secure start
          (login sha256 fl now attempt random a).0
          (opened_by attempt now (login sha256 fl now attempt random a).2 h)
          (count_guess (login sha256 fl now attempt random a).1 guesses)
          now
  after_valid :
      {a : Auth F} {h : List Event} {guesses t : ℕ}
      → Reach sha256 fl password secure start a h guesses t
      → (now : ℕ) → t ≤ now
      → (cookie : Option Bytes)
      → Reach sha256 fl password secure start (valid sha256 now cookie a).0 h guesses now
  after_logout :
      {a : Auth F} {h : List Event} {guesses t : ℕ}
      → Reach sha256 fl password secure start a h guesses t
      → (cookie : Option Bytes)
      → Reach sha256 fl password secure start
          (logout sha256 cookie a).0
          (closed_by cookie h)
          guesses
          t
