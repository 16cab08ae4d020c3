-- ===== src/Tests/Settings.antt =====
-- Examples for Config and Connections.
use Prim.Native.Char.{Char}
use ecosystem_complete.Prelude.{
  ℕ, ◌+◌, ◌≤◌, ◌≡◌, refl, String, Bool, true, false, Option, none, some, List, [], ◌∷◌, ◌==◌, ℤ,
  pos, ◌<ℤ◌, if◌then◌else◌, arith, eqb,
}
use ecosystem_complete.Prelude.Text.{byte_length}
use ecosystem_complete.Config.{
  Config, ok, DurationKey, duration_of, defaults, min_jwt_secret_length,
}
use ecosystem_complete.Config.Load.{load}
use ecosystem_complete.Config.Steps.{IsPositive, chosen}
use ecosystem_complete.Config.Settings.{load_ok}
use ecosystem_complete.Connections.{Context, Driver, retry}
use ecosystem_complete.Connections.Attempts.{Accounts, IsBounded, retry-Accounts}

abbrev pub environment : String → String
environment key =
    if key == "DATABASE_URL"
    then "postgres://db"
    else if key == "REDIS_ADDR"
    then " redis:6379 "
    else if key == "JWT_SECRET"
    then "0123456789abcdef0123456789abcdef"
    else if key == "ACCESS_TOKEN_TTL"
    then "5m"
    else ""

abbrev parse_duration : String → Option ℤ
parse_duration s = if s == "5m" then some (pos 300_000_000_000) else none

abbrev atoi : String → Option ℤ
atoi _ = none

abbrev ascii : Char → Char
ascii c = c

abbrev order : List DurationKey
order =
    DurationKey.login_lock_duration ∷ DurationKey.access_token_ttl ∷ DurationKey.refresh_token_ttl
    ∷ []

abbrev pub settings : Config
settings = record (defaults environment) { access_token_ttl = pos 300_000_000_000 }

loads : load environment ascii parse_duration atoi order ≡ ok settings
unfolding load
loads = refl

load_ok_example :
    ((settings.database_url == "") ≡ false)
    × ((settings.redis_addr == "") ≡ false)
    × (min_jwt_secret_length ≤ byte_length settings.jwt_secret)
    × IsPositive settings
    × (pos 0 <ℤ settings.login_max_attempts)
    × (duration_of DurationKey.access_token_ttl settings
        ≡ chosen environment parse_duration DurationKey.access_token_ttl
            (duration_of DurationKey.access_token_ttl (defaults environment)))
load_ok_example =
    load_ok environment parse_duration ascii atoi order DurationKey.access_token_ttl settings loads
      refl

-- A database that answers from the third attempt on.
abbrev context : Context ℕ
context = record { is_done = λ n. false; wait = λ d n. (false, n) }

abbrev third : ℕ → Bool × ℕ
third n = (eqb n 2, n + 1)

retry-Accounts_example :
    let run = retry context third (pos 5) 500_000_000 0 in
    Accounts 5 5 run.outcome run.attempts × IsBounded 5 run
retry-Accounts_example = retry-Accounts context third (pos 5) 500_000_000 0 (omega arith)

abbrev driver : Driver ℕ
driver = record { create = λ n. (true, n); ping = third }
