-- ===== src/AppConfig/Loading.antt =====
-- internal/config/config.go: what a file of environment values leaves as it was.
use gigaquizz.Common.{
  ◌≡◌, refl, ◌∙◌, Bool, not, List, [], ◌∷◌, ◌||◌, Option, none, some, if_cases, length, ◌==◌,
  if◌then◌else◌, Bool-cases, inl, inr,
}
use gigaquizz.Common.Bytes.{Bytes, bytes_eq, bytes_eq_sound}
use gigaquizz.Common.Assoc.{lookup, put, lookup-put}
use gigaquizz.AppConfig.{
  Env, EnvError, EnvFile, missing, unopened, opened, trimmed, has_prefix, set_missing, load_pair,
  load_line, unless_error, load_lines, load_env, unquote, is_key, cut,
}

module _ (unicode : Bytes → Bytes) (refuses : Bytes → Bytes → Bool) (name old : Bytes) where
  abbrev Keeps : Env × Option EnvError → Type 0
  Keeps (env, e) = lookup name env ≡ some old

  put_other :
      (key value : Bytes) (env : Env)
      → lookup key env ≡ none
      → lookup name env ≡ some old
      → lookup name (put key value env) ≡ some old
  put_other key value env fresh h = elim (Bool-cases (bytes_eq key name)) [
    | inl e ↦ cc (bytes_eq_sound key name e, fresh, h)
    | inr e ↦ lookup-put key name value env ∙ rw e h
  ]

  set_missing-Keeps :
      (key value : Bytes) (env : Env)
      → Keeps (env, none)
      → Keeps (set_missing unicode refuses key value env)
  unfolding set_missing
  set_missing-Keeps key value env h = found (lookup key env) refl
    where
      found :
          (o : Option Bytes)
          → lookup key env ≡ o
          → Keeps (elim o [
            | some v ↦ (env, none)
            | none ↦
                if refuses key value
                then (env, some EnvError.set_failed)
                else (put key value env, none)
          ])
      found (some v) e = h
      found none e =
          if_cases Keeps (refuses key value) _ _ (λ _. h) (λ _. put_other key value env e h)

  pair-Keeps :
      (o : Option (Bytes × Bytes)) (env : Env)
      → Keeps (env, none)
      → Keeps (load_pair unicode refuses o env)
  unfolding load_pair
  pair-Keeps none env h = h
  pair-Keeps (some (key, value)) env h =
      if_cases Keeps (not (is_key (trimmed unicode key))) _ _ (λ _. h)
        (λ _. set_missing-Keeps (trimmed unicode key) (unquote (trimmed unicode value)) env h)

  line-Keeps :
      (text : Bytes) (env : Env) → Keeps (env, none) → Keeps (load_line unicode refuses text env)
  unfolding load_line
  line-Keeps text env h =
      if_cases Keeps
        (length (trimmed unicode text) == 0 || has_prefix (trimmed unicode text) (35 ∷ [])) _ _
        (λ _. h) (λ _. pair-Keeps (cut (trimmed unicode text)) env h)

  unless-Keeps :
      (k : Env → Env × Option EnvError) (o : Env × Option EnvError)
      → ((env : Env) → Keeps (env, none) → Keeps (k env))
      → Keeps o
      → Keeps (unless_error k o)
  unfolding unless_error
  unless-Keeps k (env, none) h g = h env g
  unless-Keeps k (env, some e) h g = g

  lines-Keeps :
      (failed : Bool) (lines : List Bytes) (env : Env)
      → Keeps (env, none)
      → Keeps (load_lines unicode refuses failed lines env)
  unfolding load_lines
  lines-Keeps failed [] env h = h
  lines-Keeps failed (line ∷ lines) env h =
      unless-Keeps _ (load_line unicode refuses line env)
        (λ env' h'. lines-Keeps failed lines env' h') (line-Keeps line env h)

  -- Whatever the file holds and whether LoadEnv returns an error or not, a variable that the environment
  -- had before the call has the same value after it.
  pub load_env_keeps :
      (file : EnvFile) (env : Env)
      → lookup name env ≡ some old
      → lookup name (load_env unicode refuses file env).0 ≡ some old
  unfolding load_env
  load_env_keeps missing env h = h
  load_env_keeps unopened env h = h
  load_env_keeps (opened lines failed) env h = lines-Keeps failed lines env h
