-- ===== src/AppConfig/Tests.antt =====
-- An environment with a database and a password, and a file that gives both again.
use gigaquizz.Common.{◌≡◌, refl, false, [], ◌∷◌, ◌++◌, some, Bool}
use gigaquizz.Common.Bytes.{Bytes, bytes_eq}
use gigaquizz.Common.Int.{pos}
use gigaquizz.Common.Assoc.{lookup}
use gigaquizz.Poll
use gigaquizz.AppConfig.{Env, opened, load_env, trimmed, unless_error}
use gigaquizz.AppConfig.Load.{
  AppConfig, default_addr, default_url, database_url_name, admin_password_name, max_inflight_name,
  load, defaults, check_secrets, with_number, load_connections, load_inflight, load_standbys,
  load_names,
}
use gigaquizz.AppConfig.Loading.{load_env_keeps}
use gigaquizz.AppConfig.Bounds.{Usable, load-Usable}

abbrev same : Bytes → Bytes
same s = s

abbrev never : Bytes → Bytes → Bool
never key value = false

-- "postgres", "sixteen bytes ok", "500"
abbrev database : Bytes
database = 112 ∷ 111 ∷ 115 ∷ 116 ∷ 103 ∷ 114 ∷ 101 ∷ 115 ∷ []

abbrev password : Bytes
password =
    115 ∷ 105 ∷ 120 ∷ 116 ∷ 101 ∷ 101 ∷ 110 ∷ 32 ∷ 98 ∷ 121 ∷ 116 ∷ 101 ∷ 115 ∷ 32 ∷ 111 ∷ 107 ∷ []

abbrev env : Env
env =
    (database_url_name, database)
    ∷ (admin_password_name, password)
    ∷ (max_inflight_name, 53 ∷ 48 ∷ 48 ∷ [])
    ∷ []

abbrev loaded : AppConfig
loaded = record {
  addr = default_addr;
  public_url = default_url;
  database_url = database;
  admin_password = password;
  vote_connections = pos 64;
  max_inflight = pos 500;
  required_standbys = pos 0;
  standby_names = [];
}

load-Usable_example : Usable loaded
unfolding load trimmed unless_error defaults check_secrets with_number load_connections
    load_inflight load_standbys load_names lookup bytes_eq Poll.trim_space Poll.trim_left
    Poll.trim_right
load-Usable_example = load-Usable same env loaded refl

-- The line `DATABASE_URL=other`
load_env_keeps_example :
    lookup database_url_name
      (load_env same never (opened ((database_url_name ++ 61 ∷ 111 ∷ []) ∷ []) false) env).0
    ≡ some database
unfolding lookup bytes_eq
load_env_keeps_example =
    load_env_keeps same never database_url_name database
      (opened ((database_url_name ++ 61 ∷ 111 ∷ []) ∷ []) false) env refl
