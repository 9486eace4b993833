-- ===== src/Config.antt =====
-- heimdall2-master/apps/backend/config/app_config.ts and src/config/config.service.ts: the settings, from
-- the environment and from the file `.env`, both functions of a key. toLowerCase, toUpperCase and Number
-- (nothing for NaN) are arguments; so are the entries of the file, since parseDatabaseUrl is not modelled.
use Prim.Native.String.{◌++◌ as text_append}
use security_scan.Prelude.{
  ℕ, String, ◌≡◌, refl, Bool, false, not, Option, none, some, List, [], ◌∷◌, str_eq, filter,
  if◌then◌else◌, ◌==◌, Bool-cases, inl, inr,
}

abbrev pub Settings : Type 0
Settings = String → Option String

-- `x || d`
abbrev pub or_default : Option String → String → String
or_default none d = d
or_default (some s) d = if str_eq s "" then d else s

abbrev pub is_truthy : Option String → Bool
is_truthy none = false
is_truthy (some s) = not (str_eq s "")

-- The environment, and the file.
pub record AppConfig : Type 0 where
  pub process_env : Settings
  pub env_config : Settings

unfoldable pub set : String → Option String → AppConfig → AppConfig
set key value c = record c { env_config = λ k. if str_eq key k then value else c.env_config k }

-- `process.env[key] || this.envConfig[key]`
unfoldable pub get : AppConfig → String → Option String
get c key = if is_truthy (c.process_env key) then c.process_env key else c.env_config key

abbrev default_name : (String → String) → Option String → Option String
default_name lower none = none
default_name lower (some environment) = some (text_append "heimdall-server-" (lower environment))

-- nothing if it throws
unfoldable pub get_database_name : (String → String) → AppConfig → Option String
unfolding get
get_database_name lower c = elim (get c "DATABASE_NAME") [
  | some name ↦ some name
  | none ↦ default_name lower (get c "NODE_ENV")
]

-- getSSLConfig, which is false or the object that rejects no certificate
unfoldable pub get_ssl_config : AppConfig → Bool
unfolding get
get_ssl_config c = is_truthy (get c "DATABASE_SSL")

pub record DbConfig : Type 0 where
  pub username : String
  pub user : String
  pub role : String
  pub password : String
  pub database : String
  pub host : String
  pub port : ℕ
  pub ssl : Bool

-- `Number(x) || d`; Number(undefined) is NaN
abbrev number_or : (String → Option ℕ) → Option String → ℕ → ℕ
number_or number none d = d
number_or number (some s) d = elim (number s) [ none ↦ d | some n ↦ if n == 0 then d else n ]

unfoldable pub get_db_config : (String → String) → (String → Option ℕ) → AppConfig → Option DbConfig
unfolding get get_database_name get_ssl_config
get_db_config lower number c = elim (get_database_name lower c) [
  | none ↦ none
  | some database ↦ some (record {
    username = or_default (get c "DATABASE_USERNAME") "postgres";
    user = or_default (get c "DATABASE_USERNAME") "postgres";
    role = or_default (get c "DATABASE_USERNAME") "postgres";
    password = or_default (get c "DATABASE_PASSWORD") "";
    database = database;
    host = or_default (get c "DATABASE_HOST") "127.0.0.1";
    port = number_or number (get c "DATABASE_PORT") 5432;
    ssl = get_ssl_config c;
  })
]

abbrev lower_is_true : (String → String) → Option String → Bool
lower_is_true lower none = false
lower_is_true lower (some s) = str_eq (lower s) "true"

unfoldable pub is_registration_allowed : (String → String) → AppConfig → Bool
unfolding get
is_registration_allowed lower c = not (lower_is_true lower (get c "REGISTRATION_DISABLED"))

abbrev pub supported_oauth : List String
supported_oauth = "github" ∷ "gitlab" ∷ "google" ∷ "okta" ∷ "oidc" ∷ []

pub record StartupSettings : Type 0 where
  pub banner : String
  pub enabled_oauth : List String
  pub oidc_name : String
  pub ldap : Bool
  pub registration_enabled : Bool

unfoldable pub frontend_startup_settings :
    (String → String) → (String → String) → AppConfig → StartupSettings
unfolding get is_registration_allowed
frontend_startup_settings lower upper c = record {
  banner = or_default (get c "WARNING_BANNER") "";
  enabled_oauth =
      filter (λ strategy. is_truthy (get c (text_append (upper strategy) "_CLIENTID")))
        supported_oauth;
  oidc_name = or_default (get c "OIDC_NAME") "";
  ldap = lower_is_true lower (get c "LDAP_ENABLED");
  registration_enabled = is_registration_allowed lower c;
}

-- A setting that is made is read back unless the environment has one that is not empty, and no other
-- setting changes.
get-set :
    (key k : String) (value : Option String) (c : AppConfig)
    → get (set key value c) k ≡ (
        if is_truthy (c.process_env k)
        then c.process_env k
        else (if str_eq key k then value else get c k))
unfolding get set
get-set key k value c = elim (Bool-cases (is_truthy (c.process_env k))) [
  | inl e ↦ rw e refl
  | inr e ↦ rw e refl
]
