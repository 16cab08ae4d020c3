-- ===== src/Commands.antt =====
-- The commands: which services cmd/api builds from its configuration (api/cmd/api/main.go). Commands/Start
-- is how it starts and stops, Commands/Bootstrap is api/cmd/bootstrap/main.go.
pub mod Access
pub mod Silence
pub mod Start
pub mod Bootstrap
use Prim.Native.Char.{Char}
use ecosystem_complete.Prelude.{
  String, Bool, true, false, ◌||◌, not, Option, List, [], ◌∷◌, ◌++◌, ◌==◌, ℤ, pos,
}
use ecosystem_complete.Database.{Time}
use ecosystem_complete.Runtime.{Env}
use ecosystem_complete.Config.{Config}
use ecosystem_complete.Security.Quota.{Quota}
use ecosystem_complete.Session
use ecosystem_complete.Session.Issuer.{session_issuer}
use ecosystem_complete.Session.Access.{Library, subject_of}
use ecosystem_complete.Social.Providers.{Claims, client_id, verify_token}
use ecosystem_complete.Http.Health.{Probe}
use ecosystem_complete.Http.Routes.{Options, Services}

-- The parts of the libraries that the services use.
pub record Libraries : Type 0 where
  pub claims_of : String → String → Option Claims
  pub jwt : Library
  pub valid_address : String → Bool
  pub collation : String → String → Bool
  pub ilike : String → String → Bool
  pub atoi : String → ℤ
  pub rfc3339 : String → Option Time
  pub upper_other : Char → Char

-- `cfg.RabbitMQURL != ""`
abbrev pub has_broker : Config → Bool
has_broker cfg = not (cfg.rabbitmq_url == "")

-- OIDCVerifier.Configured, for the two providers
unfoldable pub has_provider : Config → Bool
has_provider cfg =
    not (client_id cfg.google_client_id cfg.apple_client_id "GOOGLE" == "")
    || not (client_id cfg.google_client_id cfg.apple_client_id "APPLE" == "")

-- The Options of run; what needs the broker is nil without it
unfoldable pub options_of : Config → Options
unfolding has_provider
options_of cfg = record {
  signup = has_broker cfg;
  signup_verifier = true;
  login = true;
  rotator = true;
  token_parser = true;
  authorizer = true;
  identity = true;
  admin = true;
  invitations = has_broker cfg;
  password = has_broker cfg;
  email_change = has_broker cfg;
  social = has_provider cfg;
}

-- sessionConfig
abbrev pub session_config : Config → Session.Config
session_config cfg = record {
  secret = cfg.jwt_secret;
  access_ttl = cfg.access_token_ttl;
  refresh_ttl = cfg.refresh_token_ttl;
  issuer = "melia-api";
}

-- cfg.CORSOrigins[0], "" for none
abbrev pub first_origin : List String → String
first_origin [] = ""
first_origin (origin ∷ origins) = origin

abbrev default_quota : Quota
default_quota = record { cooldown = pos 0; window = pos 0; limit = pos 0 }

-- The services of run
unfoldable pub services_of : Env → Config → Libraries → Services
unfolding subject_of verify_token
services_of env cfg lib = record {
  issuer = session_issuer (session_config cfg);
  sessions = session_config cfg;
  logins = record {
    max_attempts = cfg.login_max_attempts;
    lock_duration = cfg.login_lock_duration;
  };
  reset_quota = default_quota;
  change_quota = record default_quota { limit = pos 1 };
  reset_origin = first_origin cfg.cors_origins;
  invitation_origin = first_origin cfg.cors_origins;
  cookies = record { allowed_origins = cfg.cors_origins; secure = cfg.cookie_secure };
  verifier =
      verify_token env.lower_other lib.upper_other cfg.google_client_id cfg.apple_client_id
        lib.claims_of;
  parse_token = subject_of lib.jwt cfg.jwt_secret env.now;
  valid_address = lib.valid_address;
  collation = lib.collation;
  ilike = lib.ilike;
  atoi = lib.atoi;
  rfc3339 = lib.rfc3339;
  upper_other = lib.upper_other;
}

-- The probes of run, for what their checks answer (probe.go: names and whether they are required)
unfoldable pub probes_of : Config → Bool → Bool → Bool → List Probe
probes_of cfg postgres_fails redis_fails broker_fails =
    record { name = "postgres"; required = true; fails = postgres_fails }
    ∷ record { name = "redis"; required = true; fails = redis_fails }
    ∷ elim (has_broker cfg) [
      | true ↦ record { name = "rabbitmq"; required = false; fails = broker_fails } ∷ []
      | false ↦ []
    ]
