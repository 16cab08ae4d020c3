-- ===== src/Runtime.antt =====
-- What a service of api/internal runs on: the database with at most one open transaction, the mail
-- queue, the security log, and the calls that leave the process, each of which may fail.
pub mod Exec
use Prim.Native.Char.{Char}
use ecosystem_complete.Prelude.{ℕ, String, Bool, Option, List, ℤ}
use ecosystem_complete.Database.{Db, User, Time}

-- The calls that can return an error, named after the method that makes them. `nth` is the round of
-- a loop.
pub data Call : Type 0 where
  begin commit publish : Call
  -- api/internal/session
  rand_refresh rand_family rand_jti sign_token store_refresh_token token revoke revoke_family : Call
  insert_refresh_token : Call
  -- api/internal/signup
  active_user_exists hash_password generate_code upsert_pending pending : Call
  record_failed_attempt promote discard_pending : Call
  -- api/internal/login
  by_email record_failure reset_failures verify_password : Call
  -- api/internal/password, api/internal/emailchange
  active_user_id last_request_at count_requests_since set_password consume : Call
  revoke_all_families password_hash change_password current_email address_taken set_email : Call
  generate_nth_code create_nth_token invalidate_nth_tokens begin_nth commit_nth : ℕ → Call
  -- api/internal/identity, api/internal/social
  profile access access_permissions user_exists resolve_roles clear_roles assign_roles update_user
        read_user :
      Call
  verify_identity user_id_by_identity insert_user insert_user_again insert_identity : Call
  insert_identity_again begin_again commit_again count_users select_users rand_csrf : Call
  count_events select_events list_roles list_permissions open_pool find_user : Call
  -- api/internal/audit: the event
  record_event : String → Call

-- mailer.Message
pub record Message : Type 0 where
  pub to : String
  pub subject : String
  pub text : String

-- The values that the code puts into `map[string]any`.
pub data Value : Type 0 where
  text : String → Value
  number : ℤ → Value
  boolean : Bool → Value
  texts : List String → Value
  null : Value

-- seg.tb_security_event
pub record SecurityEvent : Type 0 where
  pub id : String
  pub event : String
  pub user_id : Option String
  pub actor_user_id : Option String
  pub email_hash : Option String
  pub ip : Option String
  pub country : Option String
  pub city : Option String
  pub user_agent : Option String
  pub metadata : List (String × Value)
  pub created_at : Time

pub record World : Type 0 where
  -- what other connections see
  pub db : Db
  -- the open transaction's own view
  pub tx : Option Db
  -- the payloads on the mail queue
  pub outbox : List Message
  pub events : List SecurityEvent

-- What one request meets: which calls fail, the clocks, the entropy, and the functions of the
-- libraries that the code calls.
pub record Env : Type 0 where
  pub fails : Call → Bool
  -- the service's clock, and its second reading
  pub now : Time
  pub later : Time
  -- now() of the database
  pub db_now : Time
  -- gen_random_uuid()
  pub new_uuid : String
  -- base64 of the 32 bytes of a refresh token, hex of the 16 bytes of an id
  pub new_token : String
  pub new_family : String
  pub new_jti : String
  -- base64 of the 32 bytes of a CSRF token
  pub new_csrf : String
  -- the 32 bits that the nth code is drawn from
  pub code_entropy : ℕ → ℕ
  -- the service has an Auditor
  pub audits : Bool
  -- the salt and Argon2id inside HashPassword, and VerifyPassword with its error
  pub hash_password : String → String
  pub verify_password : String → String → Option Bool
  -- hex of SHA-256, hex of the keyed HMAC
  pub sha256 : String → String
  pub hmac : String → String
  -- the token signed by HS256 with a secret, for subject, issuer, issued at, expires at, id
  pub sign : String → String → String → Time → Time → String → String
  pub url_escape : String → String
  -- the order in which a SELECT meets the rows, which decides between rows that ORDER BY leaves equal
  pub scan_users : List User → List User
  pub scan_events : List SecurityEvent → List SecurityEvent
  pub lower_other : Char → Char
