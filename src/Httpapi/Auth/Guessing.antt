-- ===== src/Httpapi/Auth/Guessing.antt =====
-- internal/httpapi/auth.go: the token bucket, with exact arithmetic in place of float64: a number of
-- tokens is counted in units of 10^-9, so that a nanosecond refills one unit.
use gigaquizz.Common.{
  ℕ, ◌+◌, ◌-◌, ◌*◌, ◌≤◌, Bool, not, List, Option, none, some, ltb, leb, ltb-false, ◌==◌, if_cases,
  length, arith, min,
}
use gigaquizz.Common.Bytes.{Bytes, bytes_eq}
use gigaquizz.Common.Assoc.{lookup}
use gigaquizz.GoTime.{second}
use gigaquizz.Httpapi.Auth.{
  Float64, Auth, Cookie, unexpired, new_auth, refill, wrong_password, open_session, right_password,
  login, sweep, valid_key, valid, logout,
}
use gigaquizz.Httpapi.Auth.Machine.{
  Event, count_guess, Reach, made, after_login, after_valid, after_logout,
}

abbrev pub exact : Float64 ℕ
exact = record {
  of_nat = λ n. n * second;
  add = λ a b. a + b;
  sub = λ a b. a - b;
  min = min;
  less = ltb;
  seconds = λ d. d;
}

-- What has been spent and what is left was there at the start or has been refilled since.
record Spent (start guesses t : ℕ) (a : Auth ℕ) : Type 0 where
  budget : guesses * second + a.tokens ≤ 10 * second + (a.last_refill - start)
  started : start ≤ a.last_refill
  past : a.last_refill ≤ t

abbrev LoginSpent : ℕ → ℕ → ℕ → Auth ℕ × ℕ × Option Cookie → Type 0
LoginSpent start guesses t (a, status, cookie) = Spent start (count_guess status guesses) t a

module _ (sha256 : Bytes → Bytes) where
  wrong-Spent :
      (start guesses t : ℕ) (a : Auth ℕ)
      → Spent start guesses t a
      → LoginSpent start guesses t (wrong_password sha256 exact a)
  unfolding wrong_password
  wrong-Spent start guesses t a i =
      if_cases (LoginSpent start guesses t) (ltb a.tokens (1 * second)) _ _ (λ _. i)
        (λ enough. record {
          budget = omega (arith, i.budget, ltb-false a.tokens (1 * second) enough);
          started = i.started;
          past = i.past;
        })

  open-Spent :
      (start guesses t now : ℕ) (random : Option Bytes) (a : Auth ℕ)
      → Spent start guesses t a
      → LoginSpent start guesses t (open_session sha256 exact now random a)
  unfolding open_session
  open-Spent start guesses t now none a i = i
  open-Spent start guesses t now (some random) a i = record {
    budget = i.budget;
    started = i.started;
    past = i.past;
  }

  right-Spent :
      (start guesses t now : ℕ) (random : Option Bytes) (a : Auth ℕ)
      → Spent start guesses t a
      → LoginSpent start guesses t (right_password sha256 exact now random a)
  unfolding right_password
  right-Spent start guesses t now random a i =
      let swept : Spent start guesses t (record a { sessions = sweep now a.sessions }) = record {
        budget = i.budget;
        started = i.started;
        past = i.past;
      } in
      if_cases (LoginSpent start guesses t) (leb 256 (length (sweep now a.sessions))) _ _
        (λ _. swept) (λ _. open-Spent start guesses t now random _ swept)

  refill-Spent :
      (start guesses t now : ℕ) (a : Auth ℕ)
      → t ≤ now
      → Spent start guesses t a
      → Spent start guesses now (refill sha256 exact now a)
  unfolding refill
  refill-Spent start guesses t now a le i = record {
    budget = omega (arith, i.budget, i.started, i.past);
    started = omega (arith, i.started, i.past);
    past = omega arith;
  }

  login-Spent :
      (start guesses t now : ℕ) (attempt : Bytes) (random : Option Bytes) (a : Auth ℕ)
      → t ≤ now
      → Spent start guesses t a
      → LoginSpent start guesses now (login sha256 exact now attempt random a)
  unfolding login
  login-Spent start guesses t now attempt random a le i =
      let ready = refill-Spent start guesses t now a le i in
      if_cases (LoginSpent start guesses now)
        (not (bytes_eq (sha256 attempt) (refill sha256 exact now a).password)) _ _
        (λ _. wrong-Spent start guesses now _ ready)
        (λ _. right-Spent start guesses now now random _ ready)

  abbrev ValidSpent : ℕ → ℕ → ℕ → Auth ℕ × Bool → Type 0
  ValidSpent start guesses t (a, answer) = Spent start guesses t a

  valid-Spent :
      (start guesses t now : ℕ) (cookie : Option Bytes) (a : Auth ℕ)
      → t ≤ now
      → Spent start guesses t a
      → ValidSpent start guesses now (valid sha256 now cookie a)
  unfolding valid valid_key
  valid-Spent start guesses t now none a le i = record {
    budget = i.budget;
    started = i.started;
    past = omega (arith, i.past);
  }
  valid-Spent start guesses t now (some value) a le i =
      let kept : Spent start guesses now a = record {
        budget = i.budget;
        started = i.started;
        past = omega (arith, i.past);
      } in
      if_cases (ValidSpent start guesses now) (not (length value == 64)) _ _ (λ _. kept)
        (λ _.
          if_cases (ValidSpent start guesses now) (unexpired now (lookup (sha256 value) a.sessions))
            _ _ (λ _. kept)
            (λ _. record { budget = i.budget; started = i.started; past = omega (arith, i.past) }))

  logout-Spent :
      (start guesses t : ℕ) (cookie : Option Bytes) (a : Auth ℕ)
      → Spent start guesses t a
      → Spent start guesses t (logout sha256 cookie a).0
  unfolding logout
  logout-Spent start guesses t none a i = i
  logout-Spent start guesses t (some value) a i = record {
    budget = i.budget;
    started = i.started;
    past = i.past;
  }

module _ {sha256 : Bytes → Bytes} {password : Bytes} {secure : Bool} {start : ℕ} where
  Reach-Spent :
      {a : Auth ℕ} {h : List Event} {guesses t : ℕ}
      → Reach sha256 exact password secure start a h guesses t
      → Spent start guesses t a
  unfolding new_auth
  Reach-Spent made = record { budget = omega arith; started = omega arith; past = omega arith }
  Reach-Spent (after_login {a} {h} {guesses} {t} r now le attempt random) =
      login-Spent sha256 start guesses t now attempt random a le (Reach-Spent r)
  Reach-Spent (after_valid {a} {h} {guesses} {t} r now le cookie) =
      valid-Spent sha256 start guesses t now cookie a le (Reach-Spent r)
  Reach-Spent (after_logout {a} {h} {guesses} {t} r cookie) =
      logout-Spent sha256 start guesses t cookie a (Reach-Spent r)

  -- With exact arithmetic in the token bucket: after any calls of login, valid and logout, the wrong
  -- passwords that login has compared and answered with 401 are at most ten, and one more for each
  -- second from the start of the server to the last call.
  pub guesses_few :
      (a : Auth ℕ) (h : List Event) (guesses t : ℕ)
      → Reach sha256 exact password secure start a h guesses t
      → guesses * second ≤ 10 * second + (t - start)
  guesses_few a h guesses t r = let i = Reach-Spent r in omega (arith, i.budget, i.started, i.past)
