-- ===== src/AppConfig/Bounds.antt =====
-- internal/config/config.go: the configuration that Load returns without an error.
use gigaquizz.Common.{
  ◌≤◌, ◌≡◌, refl, Bool, true, false, not, ◌||◌, Option, none, some, ltb, ltb-false, if_cases,
  length, ◌==◌, subst,
}
use gigaquizz.Common.Bytes.{Bytes}
use gigaquizz.Common.Int.{ℤ, pos, ◌≤b◌}
use gigaquizz.AppConfig.{Env, contains, unless_error, trimmed}
use gigaquizz.AppConfig.Load.{
  AppConfig, LoadError, bad_connections, bad_inflight, bad_standbys, change_me, atoi, get_env,
  durability_standby_names, durability_required_standbys, max_inflight_name, vote_db_connections,
  defaults, check_secrets, with_number, load_connections, load_inflight, load_standbys, load_names,
  load,
}

pub record Usable (c : AppConfig) : Type 0 where
  pub database : (length c.database_url == 0) ≡ false
  pub password : 16 ≤ length c.admin_password
  pub own : contains c.admin_password change_me ≡ false
  pub connections :
      ((pos 1 ≤b c.vote_connections) ≡ true) × ((c.vote_connections ≤b pos 10_000) ≡ true)
  pub inflight : ((pos 1 ≤b c.max_inflight) ≡ true) × ((c.max_inflight ≤b pos 100_000) ≡ true)
  pub standbys : ((pos 0 ≤b c.required_standbys) ≡ true) × ((c.required_standbys ≤b pos 16) ≡ true)

abbrev Fine : AppConfig × Option LoadError → Type 0
Fine (c, none) = Usable c
Fine (c, some e) = Unit {0}

both : (a b : Bool) → (not a || not b) ≡ false → (a ≡ true) × (b ≡ true)
both true true h = (refl, refl)
both true false h = cc
both false b h = cc

neither : (a b : Bool) → (a || b) ≡ false → (a ≡ false) × (b ≡ false)
neither false b h = (refl, h)
neither true b h = cc

secrets-Fine : (env : Env) → Fine (check_secrets (defaults env))
unfolding check_secrets defaults
secrets-Fine env =
    if_cases Fine (length (defaults env).database_url == 0) _ _ (λ _. tt)
      (λ database.
        if_cases Fine
          (ltb (length (defaults env).admin_password) 16
            || contains (defaults env).admin_password change_me)
          _ _ (λ _. tt)
          (λ h.
            let (long, own) = neither _ _ h in
            record {
              database = database;
              password = ltb-false (length (defaults env).admin_password) 16 long;
              own = own;
              connections = (refl, refl);
              inflight = (refl, refl);
              standbys = (refl, refl);
            }))

unless-Fine :
    (k : AppConfig → AppConfig × Option LoadError) (o : AppConfig × Option LoadError)
    → ((c : AppConfig) → Usable c → Fine (k c))
    → Fine o
    → Fine (unless_error k o)
unfolding unless_error
unless-Fine k (c, none) h g = h c g
unless-Fine k (c, some e) h g = tt

number-Fine :
    (lo hi : ℤ) (e : LoadError) (set_number : ℤ → AppConfig) (c : AppConfig) (n : Option ℤ)
    → ((n : ℤ) → (lo ≤b n) ≡ true → (n ≤b hi) ≡ true → Usable (set_number n))
    → Fine (with_number lo hi e set_number c n)
unfolding with_number
number-Fine lo hi e set_number c none h = tt
number-Fine lo hi e set_number c (some n) h =
    if_cases Fine (not (lo ≤b n) || not (n ≤b hi)) _ _ (λ _. tt)
      (λ within. let (low, high) = both (lo ≤b n) (n ≤b hi) within in h n low high)

connections-Fine : (raw : Bytes) (c : AppConfig) → Usable c → Fine (load_connections raw c)
unfolding load_connections
connections-Fine raw c i =
    if_cases Fine (length raw == 0) _ _ (λ _. i)
      (λ _. number-Fine (pos 1) (pos 10_000) bad_connections _ c (atoi raw) (λ n low high. record {
        database = i.database;
        password = i.password;
        own = i.own;
        connections = (low, high);
        inflight = i.inflight;
        standbys = i.standbys;
      }))

inflight-Fine : (raw : Bytes) (c : AppConfig) → Usable c → Fine (load_inflight raw c)
unfolding load_inflight
inflight-Fine raw c i =
    if_cases Fine (length raw == 0) _ _ (λ _. i)
      (λ _. number-Fine (pos 1) (pos 100_000) bad_inflight _ c (atoi raw) (λ n low high. record {
        database = i.database;
        password = i.password;
        own = i.own;
        connections = i.connections;
        inflight = (low, high);
        standbys = i.standbys;
      }))

standbys-Fine : (raw : Bytes) (c : AppConfig) → Usable c → Fine (load_standbys raw c)
unfolding load_standbys
standbys-Fine raw c i =
    if_cases Fine (length raw == 0) _ _ (λ _. i)
      (λ _. number-Fine (pos 0) (pos 16) bad_standbys _ c (atoi raw) (λ n low high. record {
        database = i.database;
        password = i.password;
        own = i.own;
        connections = i.connections;
        inflight = i.inflight;
        standbys = (low, high);
      }))

names-Fine :
    (unicode : Bytes → Bytes) (raw : Bytes) (c : AppConfig)
    → Usable c
    → Fine (load_names unicode raw c)
unfolding load_names
names-Fine unicode raw c i =
    if_cases Usable (length raw == 0) _ _ (λ _. i)
      (λ _. record {
        database = i.database;
        password = i.password;
        own = i.own;
        connections = i.connections;
        inflight = i.inflight;
        standbys = i.standbys;
      })

load-Fine : (unicode : Bytes → Bytes) (env : Env) → Fine (load unicode env)
unfolding load
load-Fine unicode env =
    unless-Fine (load_names unicode (trimmed unicode (get_env durability_standby_names env))) _
      (names-Fine unicode (trimmed unicode (get_env durability_standby_names env)))
      (unless-Fine (load_standbys (get_env durability_required_standbys env)) _
        (standbys-Fine (get_env durability_required_standbys env))
        (unless-Fine (load_inflight (get_env max_inflight_name env)) _
          (inflight-Fine (get_env max_inflight_name env))
          (unless-Fine (load_connections (get_env vote_db_connections env)) _
            (connections-Fine (get_env vote_db_connections env)) (secrets-Fine env))))

-- When Load returns no error, DATABASE_URL is set, the administrator's password has at least 16 bytes and
-- does not contain CHANGE_ME, and the numbers of connections, of votes in flight and of standbys are from 1 to
-- 10000, from 1 to 100000 and from 0 to 16.
pub load-Usable :
    (unicode : Bytes → Bytes) (env : Env) (c : AppConfig) → load unicode env ≡ (c, none) → Usable c
load-Usable unicode env c h = subst Fine h (load-Fine unicode env)
