-- ===== src/Tests.antt =====
-- One small database and one request's environment, for the examples of the modules below.
pub mod Sessions
pub mod Registrations
pub mod Logins
pub mod Passwords
pub mod Codes
pub mod Settings
pub mod Hashes
pub mod Mails
pub mod Protected
pub mod Moves
pub mod Roles
pub mod Startups
pub mod Commanded
pub mod Brokers
pub mod SocialLogins
pub mod Replies
use Prim.Native.String.{◌++◌ as concat}
use ecosystem_complete.Prelude.{String, Bool, true, false, none, some, [], ◌∷◌, pos, ◌==◌}
use ecosystem_complete.Database.{
  Db, User, RefreshToken, UserToken, SignupRequest, Status, password_reset,
}
use ecosystem_complete.Runtime.{Env, Call, World}
use ecosystem_complete.Security.Quota.{Quota}
use ecosystem_complete.Session
use ecosystem_complete.Session.{Tokens, Meta}
use ecosystem_complete.Session.Issuer.{Issuer, session_issuer}
use ecosystem_complete.Login

-- Every call succeeds; the nth code is "00000n", and a hash is its own input.
abbrev pub env : Env
env = record {
  fails = λ _. false;
  now = pos 1_000;
  later = pos 1_001;
  db_now = pos 1_002;
  new_uuid = "u9";
  new_token = "t2";
  new_family = "f2";
  new_jti = "j1";
  new_csrf = "x1";
  code_entropy = λ n. n;
  audits = true;
  hash_password = λ p. concat "h:" p;
  verify_password = λ h p. some (h == concat "h:" p);
  sha256 = λ s. s;
  hmac = λ s. s;
  sign = λ secret sub iss now expires id. "jwt";
  url_escape = λ s. s;
  scan_users = λ rows. rows;
  scan_events = λ rows. rows;
  lower_other = λ c. c;
}

abbrev pub config : Session.Config
config = record {
  secret = "secret";
  access_ttl = pos 900_000_000_000;
  refresh_ttl = pos 3_600_000_000_000;
  issuer = "melia";
}

abbrev pub meta : Meta
meta = record { device = "phone"; user_agent = "app"; ip = "10.0.0.1" }

abbrev pub issuer : Issuer
issuer = session_issuer config

abbrev pub login_config : Login.Config
login_config = record { max_attempts = pos 2; lock_duration = pos 0 }

abbrev pub quota : Quota
quota = record { cooldown = pos 0; window = pos 0; limit = pos 0 }

abbrev pub alice : User
alice = record {
  id = "u1";
  name = some "Alice";
  email = some "a@x.com";
  password_hash = some "h:secret";
  email_verified_at = none;
  failed_attempts = 0;
  locked_until = none;
  status = Status.active;
  created_at = pos 0;
  deleted_at = none;
}

-- An account that is locked until 5,000 ns.
abbrev pub carol : User
carol = record alice { id = "u2"; email = some "c@x.com"; locked_until = some (pos 5_000) }

abbrev pub live_token : RefreshToken
live_token = record {
  user_id = "u1";
  token_hash = "t1";
  family = "f1";
  device = some "phone";
  user_agent = some "app";
  ip = none;
  expires_at = pos 9_000;
  revoked_at = none;
}

abbrev pub old_token : RefreshToken
old_token = record live_token { token_hash = "t0"; family = "f0"; revoked_at = some (pos 10) }

abbrev pub reset_code : UserToken
reset_code = record {
  id = "k1";
  user_id = "u1";
  purpose = password_reset;
  code_hash = "000007";
  target = "a@x.com";
  attempts = 0;
  expires_at = pos 9_000;
  used_at = none;
  created_at = pos 0;
}

abbrev pub bob_request : SignupRequest
bob_request = record {
  email = "b@x.com";
  name = "Bob";
  password_hash = "h:hunter2";
  code_hash = "000001";
  attempts = 3;
  expires_at = pos 9_000;
}

abbrev pub spent_request : SignupRequest
spent_request = record bob_request { email = "d@x.com"; attempts = 5 }

abbrev pub db : Db
db = record {
  users = alice ∷ carol ∷ [];
  refresh_tokens = live_token ∷ old_token ∷ [];
  user_tokens = reset_code ∷ [];
  signup_requests = bob_request ∷ spent_request ∷ [];
  identities = [];
  roles = [];
  permissions = [];
  user_roles = [];
  role_permissions = [];
}

abbrev pub world : World
world = record { db = db; tx = none; outbox = []; events = [] }

abbrev pub tokens : Tokens
tokens = record {
  access_token = "jwt";
  expires_in = pos 900;
  refresh_token = "t2";
  refresh_expires_in = pos 3_600;
}
