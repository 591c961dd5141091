-- ===== src/AppConfig.antt =====
-- internal/config/config.go: the file of environment values and the configuration that the environment
-- gives. A string is its list of bytes; the environment is a map. What the file system and the scanner
-- deliver is an argument; whether the system refuses a variable is a parameter.
pub mod Loading
pub mod Load
pub mod Bounds
mod Tests
use gigaquizz.Common.{
  ℕ, zero, suc, ◌+◌, ◌-◌, ◌*◌, ◌^◌, Bool, true, false, not, ◌&&◌, ◌||◌, List, [], ◌∷◌, map, Option,
  none, some, ltb, leb, ◌==◌, if◌then◌else◌, length, get_or, take, drop,
}
use gigaquizz.Common.Bytes.{Bytes, bytes_eq, every, is_ascii}
use gigaquizz.Common.Int.{ℤ, pos, negsuc, ◌≤b◌}
use gigaquizz.Common.Assoc.{Assoc, lookup, put}
use gigaquizz.Poll.{trim_space}

abbrev pub Env : Type 0
Env = Assoc Bytes

-- `strings.TrimSpace` of an ASCII string; of another string, it is a parameter.
abbrev is_ascii_space : ℕ → Bool
is_ascii_space b = b == 32 || (leb 9 b && leb b 13)

unfoldable pub trimmed : (Bytes → Bytes) → Bytes → Bytes
trimmed unicode s = if every is_ascii s then trim_space is_ascii_space s else unicode s

-- `strings.HasPrefix` and `strings.Contains`
abbrev pub has_prefix : Bytes → Bytes → Bool
has_prefix s [] = true
has_prefix [] (b ∷ bs) = false
has_prefix (a ∷ s) (b ∷ bs) = a == b && has_prefix s bs

abbrev pub contains : Bytes → Bytes → Bool
contains [] p = has_prefix [] p
contains (a ∷ s) p = has_prefix (a ∷ s) p || contains s p

-- `strings.Cut(line, "=")`
abbrev behind : ℕ → Option (Bytes × Bytes) → Option (Bytes × Bytes)
behind a none = none
behind a (some (key, value)) = some (a ∷ key, value)

abbrev cut : Bytes → Option (Bytes × Bytes)
cut [] = none
cut (a ∷ s) = let rest = cut s in if a == 61 then some ([], s) else behind a rest

-- The characters that no key has.
abbrev is_blank : ℕ → Bool
is_blank b = b == 32 || b == 9 || b == 13 || b == 10

abbrev is_key : Bytes → Bool
is_key key = every (λ b. not (is_blank b)) key && not (length key == 0)

-- A pair of quotes around a value falls off.
abbrev quoted : ℕ → Bytes → Bool
quoted quote value = get_or value 0 0 == quote && get_or value (length value - 1) 0 == quote

unfoldable pub unquote : Bytes → Bytes
unquote value =
    if leb 2 (length value) && (quoted 39 value || quoted 34 value)
    then take (length value - 2) (drop 1 value)
    else value

pub data EnvError : Type 0 where
  unreadable invalid_line invalid_key set_failed scan_failed : EnvError

-- What `os.Open` and the scanner find: no file, another error, or the lines, and whether the scanner
-- has stopped at an error.
pub data EnvFile : Type 0 where
  missing unopened : EnvFile
  opened : List Bytes → Bool → EnvFile

-- On an error, the rest is left out.
unfoldable pub unless_error : {C E : Type 0} → (C → C × Option E) → C × Option E → C × Option E
unless_error k (c, none) = k c
unless_error k (c, some e) = (c, some e)

module _ (unicode : Bytes → Bytes) (refuses : Bytes → Bytes → Bool) where
  -- `os.Setenv`, unless the variable exists.
  unfoldable pub set_missing : Bytes → Bytes → Env → Env × Option EnvError
  set_missing key value env = elim (lookup key env) [
    | some v ↦ (env, none)
    | none ↦ if refuses key value then (env, some set_failed) else (put key value env, none)
  ]

  -- Behind `strings.Cut`.
  unfoldable pub load_pair : Option (Bytes × Bytes) → Env → Env × Option EnvError
  load_pair none env = (env, some invalid_line)
  load_pair (some (key, value)) env =
      if not (is_key (trimmed unicode key))
      then (env, some invalid_key)
      else set_missing (trimmed unicode key) (unquote (trimmed unicode value)) env

  -- The body of the loop.
  unfoldable pub load_line : Bytes → Env → Env × Option EnvError
  load_line text env =
      let line = trimmed unicode text in
      if length line == 0 || has_prefix line (35 ∷ [])
      then (env, none)
      else load_pair (cut line) env

  unfoldable pub load_lines : Bool → List Bytes → Env → Env × Option EnvError
  load_lines failed [] env = (env, if failed then some scan_failed else none)
  load_lines failed (line ∷ lines) env = unless_error (load_lines failed lines) (load_line line env)

  -- `LoadEnv`
  unfoldable pub load_env : EnvFile → Env → Env × Option EnvError
  load_env missing env = (env, none)
  load_env unopened env = (env, some unreadable)
  load_env (opened lines failed) env = load_lines failed lines env
