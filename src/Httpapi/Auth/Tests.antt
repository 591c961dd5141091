-- ===== src/Httpapi/Auth/Tests.antt =====
-- A wrong password, the right one, a request with the cookie, and a log-out.
use gigaquizz.Common.{
  ℕ, ◌+◌, ◌-◌, ◌*◌, ◌≤◌, ◌≡◌, refl, true, false, [], ◌∷◌, some, none, replicate, arith,
}
use gigaquizz.Common.Bytes.{Bytes, bytes_eq, zeros}
use gigaquizz.Common.Assoc.{lookup, put}
use gigaquizz.GoTime.{second}
use gigaquizz.Httpapi.Auth
use gigaquizz.Httpapi.Auth.{Auth, new_auth, login, valid, logout, hex, session_hours}
use gigaquizz.Httpapi.Auth.Machine.{opened, closed, honoured, accepted, Reach, made, after_login}
use gigaquizz.Httpapi.Auth.Refines.{valid_refines}
use gigaquizz.Httpapi.Auth.Guessing.{exact, guesses_few}

abbrev hash : Bytes → Bytes
hash b = b

abbrev password : Bytes
password = 112 ∷ 119 ∷ []

-- 32 zero bytes in hexadecimal
abbrev token : Bytes
token = replicate 64 48

abbrev logged_in : Auth ℕ
logged_in = record {
  password = password;
  sessions = (token, 6 * second + session_hours) ∷ [];
  tokens = 10 * second;
  last_refill = 6 * second;
  secure = true;
}

logged_in_reached :
    Reach hash exact password true 0 logged_in
      (opened password token (6 * second) ∷ [])
      1
      (6 * second)
unfolding login new_auth Auth.refill Auth.wrong_password Auth.right_password Auth.open_session
    Auth.sweep hex bytes_eq put
logged_in_reached =
    after_login (after_login made (2 * second) (omega arith) [] none) (6 * second) (omega arith)
      password (some (zeros 32))

valid_refines_example : (valid hash (7 * second) (some token) logged_in).1 ≡ true
unfolding honoured bytes_eq
valid_refines_example =
    valid_refines logged_in (opened password token (6 * second) ∷ []) 1 (6 * second) (7 * second)
      (some token) logged_in_reached (omega arith)

guesses_few_example : 1 * second ≤ 10 * second + (6 * second - 0)
guesses_few_example =
    guesses_few logged_in (opened password token (6 * second) ∷ []) 1 (6 * second) logged_in_reached

-- The cookie is refused behind the log-out, and eight hours after the log-in.
refused_after_logout : accepted hash password (closed token ∷ []) (some token) (7 * second) ≡ false
unfolding honoured bytes_eq
refused_after_logout = refl

expired_after_hours : (valid hash (6 * second + session_hours) (some token) logged_in).1 ≡ false
unfolding valid Auth.valid_key lookup bytes_eq
expired_after_hours = refl
