-- ===== src/Httpapi/Auth/Refines.antt =====
-- internal/httpapi/auth.go: the session table answers as the history of log-ins and log-outs does.
use gigaquizz.Common.{
  ℕ, ◌+◌, ◌≤◌, ◌<◌, ◌≡◌, refl, sym, ◌∙◌, Bool, true, not, List, Option, none, some, leb, leb-false,
  ◌==◌, if_cases, length, arith, Bool-cases, inl, inr,
}
use gigaquizz.Common.Bytes.{Bytes, bytes_eq}
use gigaquizz.Common.Assoc.{lookup, UniqueKeys, length-delete-le}
use gigaquizz.Httpapi.Auth.{
  new_auth, Float64, Auth, Cookie, session_hours, unexpired, refill, wrong_password, hex,
  open_session, right_password, login, valid_key, valid, logout, sweep,
}
use gigaquizz.Httpapi.Auth.Sessions.{
  live, UniqueKeys-sweep, live-sweep, UniqueKeys-put, UniqueKeys-delete, length-sweep-le,
  length-put-le, live-put, live-delete, live-delete_expired,
}
use gigaquizz.Httpapi.Auth.Machine.{
  Reach, made, after_login, after_valid, after_logout, Event, honoured, accepted, opened_by,
  closed_by,
}

module _ (sha256 : Bytes → Bytes) {F : Type 0} (fl : Float64 F) (password : Bytes) where
  record Table (a : Auth F) (h : List Event) (t : ℕ) : Type 0 where
    unique : UniqueKeys a.sessions
    few : length a.sessions ≤ 256
    password_is : a.password ≡ sha256 password
    agrees :
        (key : Bytes) (later : ℕ)
        → t ≤ later
        → live key later a.sessions ≡ honoured sha256 password h key later

  abbrev LoginTable : Bytes → ℕ → List Event → Auth F × ℕ × Option Cookie → Type 0
  LoginTable attempt now h (a, status, cookie) = Table a (opened_by attempt now cookie h) now

  -- The bucket is no part of the table, and the clock may go on.
  later-Table :
      (a : Auth F) (h : List Event) (t now : ℕ) (tokens : F) (last_refill : ℕ)
      → t ≤ now
      → Table a h t
      → Table (record a { tokens = tokens; last_refill = last_refill }) h now
  later-Table a h t now tokens last_refill le i = record {
    unique = i.unique;
    few = i.few;
    password_is = i.password_is;
    agrees = λ key later l. i.agrees key later (omega arith);
  }

  wrong-Table :
      (attempt : Bytes) (now : ℕ) (h : List Event) (a : Auth F)
      → Table a h now
      → LoginTable attempt now h (wrong_password sha256 fl a)
  unfolding wrong_password
  wrong-Table attempt now h a i =
      if_cases (LoginTable attempt now h) (fl.less a.tokens (fl.of_nat 1)) _ _ (λ _. i)
        (λ _. later-Table a h now now (fl.sub a.tokens (fl.of_nat 1)) a.last_refill (omega arith) i)

  swept-Table :
      (now : ℕ) (h : List Event) (a : Auth F)
      → Table a h now
      → Table (record a { sessions = sweep now a.sessions }) h now
  swept-Table now h a i = record {
    unique = UniqueKeys-sweep now a.sessions i.unique;
    few = omega (arith, length-sweep-le now a.sessions, i.few);
    password_is = i.password_is;
    agrees = λ key later l. live-sweep now later key a.sessions l i.unique ∙ i.agrees key later l;
  }

  opened-Table :
      (attempt : Bytes) (now : ℕ) (random : Option Bytes) (h : List Event) (a : Auth F)
      → bytes_eq (sha256 attempt) a.password ≡ true
      → length a.sessions < 256
      → Table a h now
      → LoginTable attempt now h (open_session sha256 fl now random a)
  unfolding open_session honoured
  opened-Table attempt now none h a right room i = i
  opened-Table attempt now (some random) h a right room i = record {
    unique = UniqueKeys-put (sha256 (hex random)) (now + session_hours) a.sessions i.unique;
    few = omega (arith, length-put-le (sha256 (hex random)) (now + session_hours) a.sessions, room);
    password_is = i.password_is;
    agrees = λ key later l.
        live-put (sha256 (hex random)) key later (now + session_hours) a.sessions
        ∙ rw (i.agrees key later l) (rw (← i.password_is) (rw right refl));
  }

  right-Table :
      (attempt : Bytes) (now : ℕ) (random : Option Bytes) (h : List Event) (a : Auth F)
      → bytes_eq (sha256 attempt) a.password ≡ true
      → Table a h now
      → LoginTable attempt now h (right_password sha256 fl now random a)
  unfolding right_password
  right-Table attempt now random h a right i =
      if_cases (LoginTable attempt now h) (leb 256 (length (sweep now a.sessions))) _ _
        (λ _. swept-Table now h a i)
        (λ room.
          opened-Table attempt now random h _ right
            (leb-false 256 (length (sweep now a.sessions)) room) (swept-Table now h a i))

  login-Table :
      (attempt : Bytes) (t now : ℕ) (random : Option Bytes) (h : List Event) (a : Auth F)
      → t ≤ now
      → Table a h t
      → LoginTable attempt now h (login sha256 fl now attempt random a)
  unfolding login refill
  login-Table attempt t now random h a le i =
      let ready = later-Table a h t now (refill sha256 fl now a).tokens now le i in
      if_cases (LoginTable attempt now h) (not (bytes_eq (sha256 attempt) a.password)) _ _
        (λ _. wrong-Table attempt now h (refill sha256 fl now a) ready)
        (λ right. right-Table attempt now random h (refill sha256 fl now a) (ground arith) ready)

  abbrev ValidTable : ℕ → List Event → Auth F × Bool → Type 0
  ValidTable now h (a, answer) = Table a h now

  key-Table :
      (now : ℕ) (key : Bytes) (h : List Event) (a : Auth F)
      → Table a h now
      → ValidTable now h (valid_key sha256 now key a)
  unfolding valid_key
  key-Table now key h a i =
      if_cases (ValidTable now h) (unexpired now (lookup key a.sessions)) _ _ (λ _. i)
        (λ gone. record {
          unique = UniqueKeys-delete key a.sessions i.unique;
          few = omega (arith, length-delete-le key a.sessions, i.few);
          password_is = i.password_is;
          agrees = λ j later l.
              live-delete_expired key j now later a.sessions l gone ∙ i.agrees j later l;
        })

  valid-Table :
      (t now : ℕ) (cookie : Option Bytes) (h : List Event) (a : Auth F)
      → t ≤ now
      → Table a h t
      → ValidTable now h (valid sha256 now cookie a)
  unfolding valid
  valid-Table t now none h a le i = later-Table a h t now a.tokens a.last_refill le i
  valid-Table t now (some value) h a le i =
      let ready = later-Table a h t now a.tokens a.last_refill le i in
      if_cases (ValidTable now h) (not (length value == 64)) _ _ (λ _. ready)
        (λ _. key-Table now (sha256 value) h a ready)

  logout-Table :
      (t : ℕ) (cookie : Option Bytes) (h : List Event) (a : Auth F)
      → Table a h t
      → Table (logout sha256 cookie a).0 (closed_by cookie h) t
  unfolding logout honoured
  logout-Table t none h a i = i
  logout-Table t (some value) h a i = record {
    unique = UniqueKeys-delete (sha256 value) a.sessions i.unique;
    few = omega (arith, length-delete-le (sha256 value) a.sessions, i.few);
    password_is = i.password_is;
    agrees = λ key later l.
        live-delete (sha256 value) key later a.sessions ∙ rw (i.agrees key later l) refl;
  }

module _ {sha256 : Bytes → Bytes} {F : Type 0} {fl : Float64 F} {password : Bytes} {secure : Bool}
    {start : ℕ} where
  Reach-Table :
      {a : Auth F} {h : List Event} {guesses t : ℕ}
      → Reach sha256 fl password secure start a h guesses t
      → Table sha256 fl password a h t
  unfolding new_auth lookup honoured
  Reach-Table made = record {
    unique = tt;
    few = omega arith;
    password_is = refl;
    agrees = λ key later l. refl;
  }
  Reach-Table (after_login {a} {h} {guesses} {t} r now le attempt random) =
      login-Table sha256 fl password attempt t now random h a le (Reach-Table r)
  Reach-Table (after_valid {a} {h} {guesses} {t} r now le cookie) =
      valid-Table sha256 fl password t now cookie h a le (Reach-Table r)
  Reach-Table (after_logout {a} {h} {guesses} {t} r cookie) =
      logout-Table sha256 fl password t cookie h a (Reach-Table r)

  -- After any calls of login, valid and logout since the server started, valid accepts a cookie
  -- exactly if it has 64 characters and, of the log-ins that set a cookie with its hash and the log-outs
  -- with such a cookie, the last is a log-in with the right password less than eight hours ago.
  pub valid_refines :
      (a : Auth F) (h : List Event) (guesses t now : ℕ) (cookie : Option Bytes)
      → Reach sha256 fl password secure start a h guesses t
      → t ≤ now
      → (valid sha256 now cookie a).1 ≡ accepted sha256 password h cookie now
  unfolding valid valid_key
  valid_refines a h guesses t now none r le = refl
  valid_refines a h guesses t now (some value) r le = elim (Bool-cases (length value == 64)) [
    | inl e ↦ rw e (
        (elim (Bool-cases (live (sha256 value) now a.sessions)) [
          | inl f ↦ rw f (sym f ∙ (Reach-Table r).agrees (sha256 value) now le)
          | inr f ↦ rw f (sym f ∙ (Reach-Table r).agrees (sha256 value) now le)
        ]))
    | inr e ↦ rw e refl
  ]

  -- After any calls, at most 256 sessions are kept.
  pub sessions_few :
      (a : Auth F) (h : List Event) (guesses t : ℕ)
      → Reach sha256 fl password secure start a h guesses t
      → length a.sessions ≤ 256
  sessions_few a h guesses t r = (Reach-Table r).few
