-- ===== src/AppConfig/Load.antt =====
-- internal/config/config.go: `Load`, on the environment.
use gigaquizz.Common.{
  ℕ, zero, suc, ◌+◌, ◌-◌, ◌*◌, ◌^◌, not, ◌&&◌, ◌||◌, List, [], ◌∷◌, map, Option, none, some, ltb,
  leb, ◌==◌, if◌then◌else◌, length,
}
use gigaquizz.Common.Bytes.{Bytes}
use gigaquizz.Common.Int.{ℤ, pos, negsuc, ◌≤b◌}
use gigaquizz.Common.Assoc.{lookup}
use gigaquizz.AppConfig.{Env, trimmed, contains, unless_error}

pub record AppConfig : Type 0 where
  pub addr : Bytes
  pub public_url : Bytes
  pub database_url : Bytes
  pub admin_password : Bytes
  pub vote_connections : ℤ
  pub max_inflight : ℤ
  pub required_standbys : ℤ
  pub standby_names : List Bytes

pub data LoadError : Type 0 where
  no_database bad_password bad_connections bad_inflight bad_standbys : LoadError

-- `strconv.Atoi`: digits behind at most one sign, in the range of an int64.
abbrev digits_of : ℕ → Bytes → Option ℕ
digits_of n [] = some n
digits_of n (b ∷ bs) =
    let rest = digits_of (n * 10 + (b - 48)) bs in if leb 48 b && leb b 57 then rest else none

abbrev natural : Bytes → Option ℕ
natural [] = none
natural (b ∷ bs) = digits_of 0 (b ∷ bs)

abbrev non_negative : Option ℕ → Option ℤ
non_negative none = none
non_negative (some n) = if ltb n (2 ^ 63) then some (pos n) else none

abbrev negated : ℕ → ℤ
negated zero = pos zero
negated (suc n) = negsuc n

abbrev non_positive : Option ℕ → Option ℤ
non_positive none = none
non_positive (some n) = if leb n (2 ^ 63) then some (negated n) else none

abbrev pub atoi : Bytes → Option ℤ
atoi [] = none
atoi (b ∷ bs) =
    if b == 45
    then non_positive (natural bs)
    else if b == 43
    then non_negative (natural bs)
    else non_negative (natural (b ∷ bs))

-- `os.Getenv`, and `env`
abbrev text_of : Option Bytes → Bytes
text_of none = []
text_of (some v) = v

abbrev pub get_env : Bytes → Env → Bytes
get_env key env = text_of (lookup key env)

abbrev or_default : Bytes → Bytes → Bytes
or_default fallback [] = fallback
or_default fallback (b ∷ bs) = b ∷ bs

-- `strings.Split(raw, ",")`
abbrev onto : ℕ → List Bytes → List Bytes
onto b [] = (b ∷ []) ∷ []
onto b (field ∷ fields) = (b ∷ field) ∷ fields

abbrev split_commas : Bytes → List Bytes
split_commas [] = [] ∷ []
split_commas (b ∷ bs) = let rest = split_commas bs in if b == 44 then [] ∷ rest else onto b rest

-- The names of the variables, the defaults, and the mark of a password that is not set.
abbrev pub http_addr : Bytes
http_addr = 72 ∷ 84 ∷ 84 ∷ 80 ∷ 95 ∷ 65 ∷ 68 ∷ 68 ∷ 82 ∷ []

abbrev pub public_url_name : Bytes
public_url_name = 80 ∷ 85 ∷ 66 ∷ 76 ∷ 73 ∷ 67 ∷ 95 ∷ 85 ∷ 82 ∷ 76 ∷ []

abbrev pub database_url_name : Bytes
database_url_name = 68 ∷ 65 ∷ 84 ∷ 65 ∷ 66 ∷ 65 ∷ 83 ∷ 69 ∷ 95 ∷ 85 ∷ 82 ∷ 76 ∷ []

abbrev pub admin_password_name : Bytes
admin_password_name = 65 ∷ 68 ∷ 77 ∷ 73 ∷ 78 ∷ 95 ∷ 80 ∷ 65 ∷ 83 ∷ 83 ∷ 87 ∷ 79 ∷ 82 ∷ 68 ∷ []

abbrev pub vote_db_connections : Bytes
vote_db_connections =
    86 ∷ 79 ∷ 84 ∷ 69 ∷ 95 ∷ 68 ∷ 66 ∷ 95 ∷ 67 ∷ 79 ∷ 78 ∷ 78 ∷ 69 ∷ 67 ∷ 84 ∷ 73 ∷ 79 ∷ 78 ∷ 83
    ∷ []

abbrev pub max_inflight_name : Bytes
max_inflight_name = 77 ∷ 65 ∷ 88 ∷ 95 ∷ 73 ∷ 78 ∷ 70 ∷ 76 ∷ 73 ∷ 71 ∷ 72 ∷ 84 ∷ []

abbrev pub durability_required_standbys : Bytes
durability_required_standbys =
    68 ∷ 85 ∷ 82 ∷ 65 ∷ 66 ∷ 73 ∷ 76 ∷ 73 ∷ 84 ∷ 89 ∷ 95 ∷ 82 ∷ 69 ∷ 81 ∷ 85 ∷ 73 ∷ 82 ∷ 69 ∷ 68
    ∷ 95 ∷ 83 ∷ 84 ∷ 65 ∷ 78 ∷ 68 ∷ 66 ∷ 89 ∷ 83 ∷ []

abbrev pub durability_standby_names : Bytes
durability_standby_names =
    68 ∷ 85 ∷ 82 ∷ 65 ∷ 66 ∷ 73 ∷ 76 ∷ 73 ∷ 84 ∷ 89 ∷ 95 ∷ 83 ∷ 84 ∷ 65 ∷ 78 ∷ 68 ∷ 66 ∷ 89 ∷ 95
    ∷ 78 ∷ 65 ∷ 77 ∷ 69 ∷ 83 ∷ []

abbrev pub default_addr : Bytes
default_addr = 49 ∷ 50 ∷ 55 ∷ 46 ∷ 48 ∷ 46 ∷ 48 ∷ 46 ∷ 49 ∷ 58 ∷ 56 ∷ 48 ∷ 56 ∷ 48 ∷ []

abbrev pub default_url : Bytes
default_url =
    104 ∷ 116 ∷ 116 ∷ 112 ∷ 58 ∷ 47 ∷ 47 ∷ 49 ∷ 50 ∷ 55 ∷ 46 ∷ 48 ∷ 46 ∷ 48 ∷ 46 ∷ 49 ∷ 58 ∷ 56 ∷ 48
    ∷ 56 ∷ 48 ∷ []

abbrev pub change_me : Bytes
change_me = 67 ∷ 72 ∷ 65 ∷ 78 ∷ 71 ∷ 69 ∷ 95 ∷ 77 ∷ 69 ∷ []

-- The literal at the head of `Load`.
unfoldable pub defaults : Env → AppConfig
defaults env = record {
  addr = or_default default_addr (get_env http_addr env);
  public_url = or_default default_url (get_env public_url_name env);
  database_url = get_env database_url_name env;
  admin_password = get_env admin_password_name env;
  vote_connections = pos 64;
  max_inflight = pos 256;
  required_standbys = pos 0;
  standby_names = [];
}

unfoldable pub check_secrets : AppConfig → AppConfig × Option LoadError
check_secrets c =
    if length c.database_url == 0
    then (c, some no_database)
    else if ltb (length c.admin_password) 16 || contains c.admin_password change_me
    then (c, some bad_password)
    else (c, none)

-- `err != nil || n < lo || n > hi`
unfoldable pub with_number :
    ℤ → ℤ → LoadError → (ℤ → AppConfig) → AppConfig → Option ℤ → AppConfig × Option LoadError
with_number lo hi e set_number c none = (c, some e)
with_number lo hi e set_number c (some n) =
    if not (lo ≤b n) || not (n ≤b hi) then (c, some e) else (set_number n, none)

-- The numbers, each if its variable is not empty; `int32` keeps a number up to 10000.
unfoldable pub load_connections : Bytes → AppConfig → AppConfig × Option LoadError
load_connections raw c =
    if length raw == 0
    then (c, none)
    else with_number (pos 1) (pos 10_000) bad_connections (λ n. record c { vote_connections = n }) c
        (atoi raw)

unfoldable pub load_inflight : Bytes → AppConfig → AppConfig × Option LoadError
load_inflight raw c =
    if length raw == 0
    then (c, none)
    else with_number (pos 1) (pos 100_000) bad_inflight (λ n. record c { max_inflight = n }) c
        (atoi raw)

unfoldable pub load_standbys : Bytes → AppConfig → AppConfig × Option LoadError
load_standbys raw c =
    if length raw == 0
    then (c, none)
    else with_number (pos 0) (pos 16) bad_standbys (λ n. record c { required_standbys = n }) c
        (atoi raw)

unfoldable pub load_names : (Bytes → Bytes) → Bytes → AppConfig → AppConfig × Option LoadError
load_names unicode raw c = (
  if length raw == 0
      then c
      else record c { standby_names = map (trimmed unicode) (split_commas raw) },
  none,
)

-- `Load`
unfoldable pub load : (Bytes → Bytes) → Env → AppConfig × Option LoadError
load unicode env =
    unless_error (load_names unicode (trimmed unicode (get_env durability_standby_names env))) (
      unless_error (load_standbys (get_env durability_required_standbys env)) (
        unless_error (load_inflight (get_env max_inflight_name env)) (
          unless_error (load_connections (get_env vote_db_connections env))
            (check_secrets (defaults env)))))
