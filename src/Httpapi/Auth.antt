-- ===== src/Httpapi/Auth.antt =====
-- internal/httpapi/auth.go: log-in, the check of a session cookie, log-out. An instant is a reading of
-- the monotonic clock, in nanoseconds. What `rand.Read` delivers is an argument of `login`; SHA-256 and
-- the float64 operations of the token bucket are parameters.
pub mod Sessions
pub mod Machine
pub mod Refines
pub mod Guessing
mod Tests
use gigaquizz.Common.{
  ℕ, ◌+◌, ◌-◌, ◌*◌, ◌/◌, ◌%◌, Bool, true, false, not, List, [], ◌∷◌, Option, none, some, ltb, leb,
  ◌==◌, if◌then◌else◌, length,
}
use gigaquizz.Common.Bytes.{Bytes, bytes_eq, zeros}
use gigaquizz.Common.Int.{ℤ, pos, negsuc}
use gigaquizz.Common.Assoc.{Assoc, lookup, put, delete}
use gigaquizz.GoTime.{second, before}

-- The float64 operations of the token bucket: literals, `a + b`, `a - b`, `min`, `a < b`, and
-- `Duration.Seconds`.
pub record Float64 (F : Type 0) : Type 0 where
  pub of_nat : ℕ → F
  pub add : F → F → F
  pub sub : F → F → F
  pub min : F → F → F
  pub less : F → F → Bool
  pub seconds : ℕ → F

pub record Auth (F : Type 0) : Type 0 where
  pub password : Bytes
  pub sessions : Assoc ℕ
  pub tokens : F
  pub last_refill : ℕ
  pub secure : Bool

-- The fields of `http.Cookie` that are set; `strict` is SameSiteStrictMode.
pub record Cookie : Type 0 where
  pub name : Bytes
  pub value : Bytes
  pub path : Bytes
  pub http_only : Bool
  pub secure : Bool
  pub strict : Bool
  pub max_age : ℤ

abbrev pub status_ok : ℕ
status_ok = 200

abbrev pub unauthorized : ℕ
unauthorized = 401

abbrev pub too_many_requests : ℕ
too_many_requests = 429

abbrev pub unavailable : ℕ
unavailable = 503

-- "gq_admin"
abbrev session_cookie : Bytes
session_cookie = 103 ∷ 113 ∷ 95 ∷ 97 ∷ 100 ∷ 109 ∷ 105 ∷ 110 ∷ []

-- "/api/admin"
abbrev admin_path : Bytes
admin_path = 47 ∷ 97 ∷ 112 ∷ 105 ∷ 47 ∷ 97 ∷ 100 ∷ 109 ∷ 105 ∷ 110 ∷ []

abbrev pub session_hours : ℕ
session_hours = 8 * 3_600 * second

abbrev pub cookie_of : Bool → Bytes → ℤ → Cookie
cookie_of secure value max_age = record {
  name = session_cookie;
  value = value;
  path = admin_path;
  http_only = true;
  secure = secure;
  strict = true;
  max_age = max_age;
}

-- `hex.EncodeToString`
abbrev hex_digit : ℕ → ℕ
hex_digit n = if ltb n 10 then 48 + n else 87 + n

unfoldable pub hex : Bytes → Bytes
hex [] = []
hex (b ∷ bs) = hex_digit (b / 16) ∷ hex_digit (b % 16) ∷ hex bs

-- The loop that deletes every session whose expiry has come.
unfoldable pub sweep : ℕ → Assoc ℕ → Assoc ℕ
sweep now [] = []
sweep now ((k, expiry) ∷ m) =
    let rest = sweep now m in if not (before now expiry) then rest else (k, expiry) ∷ rest

-- `ok && time.Now().Before(expiry)`
abbrev pub unexpired : ℕ → Option ℕ → Bool
unexpired now none = false
unexpired now (some expiry) = before now expiry

module _ (sha256 : Bytes → Bytes) {F : Type 0} (fl : Float64 F) where
  unfoldable pub new_auth : Bytes → Bool → ℕ → Auth F
  new_auth password secure now = record {
    password = sha256 password;
    sessions = [];
    tokens = fl.of_nat 10;
    last_refill = now;
    secure = secure;
  }

  -- The first two assignments of `login`.
  unfoldable pub refill : ℕ → Auth F → Auth F
  refill now a = record a {
    tokens = fl.min (fl.of_nat 10) (fl.add a.tokens (fl.seconds (now - a.last_refill)));
    last_refill = now;
  }

  -- The branch of a wrong password.
  unfoldable pub wrong_password : Auth F → Auth F × ℕ × Option Cookie
  wrong_password a =
      if fl.less a.tokens (fl.of_nat 1)
      then (a, too_many_requests, none)
      else (record a { tokens = fl.sub a.tokens (fl.of_nat 1) }, unauthorized, none)

  -- From `rand.Read` on.
  unfoldable pub open_session : ℕ → Option Bytes → Auth F → Auth F × ℕ × Option Cookie
  open_session now none a = (a, unavailable, none)
  open_session now (some random) a = (
    record a { sessions = put (sha256 (hex random)) (now + session_hours) a.sessions },
    status_ok,
    some (cookie_of a.secure (hex random) (pos 28_800)),
  )

  -- The branch of the right password.
  unfoldable pub right_password : ℕ → Option Bytes → Auth F → Auth F × ℕ × Option Cookie
  right_password now random a =
      let swept : Auth F = record a { sessions = sweep now a.sessions } in
      if leb 256 (length swept.sessions)
      then (swept, too_many_requests, none)
      else open_session now random swept

  -- `login`
  unfoldable pub login : ℕ → Bytes → Option Bytes → Auth F → Auth F × ℕ × Option Cookie
  login now password random a =
      let refilled = refill now a in
      if not (bytes_eq (sha256 password) refilled.password)
      then wrong_password refilled
      else right_password now random refilled

module _ (sha256 : Bytes → Bytes) {F : Type 0} where
  -- `valid`, behind the tests of the cookie.
  unfoldable pub valid_key : ℕ → Bytes → Auth F → Auth F × Bool
  valid_key now key a =
      if unexpired now (lookup key a.sessions)
      then (a, true)
      else (record a { sessions = delete key a.sessions }, false)

  -- `valid`; no cookie is the error of `r.Cookie`.
  unfoldable pub valid : ℕ → Option Bytes → Auth F → Auth F × Bool
  valid now none a = (a, false)
  valid now (some value) a =
      if not (length value == 64) then (a, false) else valid_key now (sha256 value) a

  -- `logout`
  unfoldable pub logout : Option Bytes → Auth F → Auth F × Cookie
  logout none a = (a, cookie_of a.secure [] (negsuc 0))
  logout (some value) a =
      (record a { sessions = delete (sha256 value) a.sessions }, cookie_of a.secure [] (negsuc 0))
