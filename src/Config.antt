-- ===== src/Config.antt =====
-- api/internal/config: Load, from an environment that is a function. strconv.Atoi and
-- time.ParseDuration are parameters, none for their errors.
pub mod Load
pub mod Lists
pub mod Steps
pub mod Settings
use ecosystem_complete.Prelude.{
  ℕ, ◌*◌, String, Bool, true, false, ◌||◌, Option, none, some, List, [], ◌∷◌, ◌==◌, ℤ, pos, ltb,
  leb_ℤ, if◌then◌else◌,
}
use Prim.Native.Char.{Char}
use ecosystem_complete.Prelude.Text.{trim_space, to_lower, byte_length}
use ecosystem_complete.Prelude.Split.{split_on}
use ecosystem_complete.Database.{Duration, minute}

-- slog.Level
pub data Level : Type 0 where
  debug info warn error : Level

pub record Config : Type 0 where
  pub http_addr : String
  pub database_url : String
  pub redis_addr : String
  pub rabbitmq_url : String
  pub db_init_dir : String
  pub cors_origins : List String
  pub mail_queue : String
  pub smtp_addr : String
  pub mail_from : String
  pub jwt_secret : String
  pub access_token_ttl : Duration
  pub refresh_token_ttl : Duration
  pub login_max_attempts : ℤ
  pub login_lock_duration : Duration
  pub cookie_secure : Bool
  pub google_client_id : String
  pub apple_client_id : String
  pub auto_migrate : Bool
  pub log_level : Level
  pub shutdown_timeout : Duration

-- What Load returns; the error names the variable.
pub data Loaded : Type 0 where
  ok : Config → Loaded
  missing invalid : String → Loaded

abbrev pub min_jwt_secret_length : ℕ
min_jwt_secret_length = 32

-- The variables that hold durations. Load visits them in the order of a Go map, which is any.
pub data DurationKey : Type 0 where
  access_token_ttl refresh_token_ttl login_lock_duration : DurationKey

abbrev pub key_name : DurationKey → String
key_name DurationKey.access_token_ttl = "ACCESS_TOKEN_TTL"
key_name DurationKey.refresh_token_ttl = "REFRESH_TOKEN_TTL"
key_name DurationKey.login_lock_duration = "LOGIN_LOCK_DURATION"

abbrev pub duration_of : DurationKey → Config → Duration
duration_of DurationKey.access_token_ttl cfg = cfg.access_token_ttl
duration_of DurationKey.refresh_token_ttl cfg = cfg.refresh_token_ttl
duration_of DurationKey.login_lock_duration cfg = cfg.login_lock_duration

abbrev pub set_duration : DurationKey → Duration → Config → Config
set_duration DurationKey.access_token_ttl d cfg = record cfg { access_token_ttl = d }
set_duration DurationKey.refresh_token_ttl d cfg = record cfg { refresh_token_ttl = d }
set_duration DurationKey.login_lock_duration d cfg = record cfg { login_lock_duration = d }

-- The pieces that are not blank, without the blanks around them.
unfoldable pub keep_pieces : List String → List String
unfolding trim_space
keep_pieces [] = []
keep_pieces (piece ∷ pieces) =
    let rest = keep_pieces pieces in
    if trim_space piece == "" then rest else trim_space piece ∷ rest

-- splitList
unfoldable pub split_list : String → List String
unfolding split_on keep_pieces
split_list raw = if raw == "" then [] else keep_pieces (split_on 44 raw)

module _ (lower_other : Char → Char) where
  -- parseBool
  unfoldable pub parse_bool : String → Option Bool
  unfolding to_lower
  parse_bool raw =
      let s = to_lower lower_other raw in
      if (s == "true") || (s == "1")
      then some true
      else if (s == "false") || (s == "0")
      then some false
      else none

  -- parseLogLevel
  unfoldable pub parse_log_level : String → Option Level
  unfolding to_lower
  parse_log_level raw =
      let s = to_lower lower_other raw in
      if s == "debug"
      then some debug
      else if s == "info"
      then some info
      else if s == "warn"
      then some warn
      else if s == "error"
      then some error
      else none

-- The tests of the required variables
unfoldable pub require : Config → Loaded
unfolding byte_length
require cfg =
    if cfg.database_url == ""
    then missing "DATABASE_URL"
    else if cfg.redis_addr == ""
    then missing "REDIS_ADDR"
    else if cfg.jwt_secret == ""
    then missing "JWT_SECRET"
    else if ltb (byte_length cfg.jwt_secret) min_jwt_secret_length
    then invalid "JWT_SECRET"
    else ok cfg

module _ (getenv : String → String) where
  unfoldable pub lookup : String → String
  unfolding trim_space
  lookup key = trim_space (getenv key)

  unfoldable pub value_or : String → String → String
  unfolding lookup
  value_or key fallback = if lookup key == "" then fallback else lookup key

  -- The literal that Load starts from
  unfoldable pub defaults : Config
  unfolding lookup value_or split_list
  defaults = record {
    http_addr = value_or "HTTP_ADDR" ":8080";
    database_url = lookup "DATABASE_URL";
    redis_addr = lookup "REDIS_ADDR";
    rabbitmq_url = lookup "RABBITMQ_URL";
    db_init_dir = value_or "DB_INIT_DIR" "/app/database/init";
    cors_origins = split_list (lookup "CORS_ALLOWED_ORIGINS");
    mail_queue = value_or "MAIL_QUEUE" "melia.mail";
    smtp_addr = value_or "SMTP_ADDR" "mailpit:1025";
    mail_from = value_or "MAIL_FROM" "no-reply@melia.test";
    jwt_secret = lookup "JWT_SECRET";
    access_token_ttl = pos (15 * minute);
    refresh_token_ttl = pos (43_200 * minute);
    login_max_attempts = pos 5;
    login_lock_duration = pos (15 * minute);
    cookie_secure = true;
    google_client_id = value_or "GOOGLE_CLIENT_ID" "";
    apple_client_id = value_or "APPLE_CLIENT_ID" "";
    auto_migrate = true;
    log_level = info;
    shutdown_timeout = pos 10_000_000_000;
  }
