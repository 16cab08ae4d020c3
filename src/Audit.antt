-- ===== src/Audit.antt =====
-- api/internal/audit/audit.go: the security log. `record` is also the wrapper of that name that
-- every service has, by which a failed write is ignored.
use Prim.Native.Char.{code}
use Prim.Native.String.{[] as nil, ◌∷◌ as cons}
use ecosystem_complete.Prelude.{
  String, ◌&&◌, ◌||◌, not, none, some, List, [], ◌∷◌, ◌++◌, ◌==◌, eqb, if◌then◌else◌,
}
use ecosystem_complete.Prelude.Text.{translate}
use ecosystem_complete.Database.{null_if_empty}
use ecosystem_complete.Runtime.{Env, Call, SecurityEvent, Value}
use ecosystem_complete.Runtime.Exec.{Action, ok}

abbrev pub event_signup_verified : String
event_signup_verified = "auth.signup.verified"

abbrev pub event_signup_code_rejected : String
event_signup_code_rejected = "auth.signup.code_rejected"

abbrev pub event_session_created : String
event_session_created = "auth.session.created"

abbrev pub event_login_succeeded : String
event_login_succeeded = "auth.login.succeeded"

abbrev pub event_login_failed : String
event_login_failed = "auth.login.failed"

abbrev pub event_login_locked : String
event_login_locked = "auth.login.locked"

abbrev pub event_roles_changed : String
event_roles_changed = "rbac.roles.changed"

abbrev pub event_user_updated : String
event_user_updated = "admin.user.updated"

abbrev pub event_password_reset_requested : String
event_password_reset_requested = "auth.password.reset_requested"

abbrev pub event_password_reset : String
event_password_reset = "auth.password.reset"

abbrev pub event_password_reset_failed : String
event_password_reset_failed = "auth.password.reset_failed"

abbrev pub event_password_changed : String
event_password_changed = "auth.password.changed"

abbrev pub event_password_change_failed : String
event_password_change_failed = "auth.password.change_failed"

abbrev pub event_email_change_requested : String
event_email_change_requested = "auth.email.change_requested"

abbrev pub event_email_changed : String
event_email_changed = "auth.email.changed"

abbrev pub event_email_change_failed : String
event_email_change_failed = "auth.email.change_failed"

abbrev pub event_social_login : String
event_social_login = "auth.social.login"

abbrev pub event_social_login_failed : String
event_social_login_failed = "auth.social.login_failed"

abbrev pub event_social_account_created : String
event_social_account_created = "auth.social.account_created"

pub record Event : Type 0 where
  pub name : String
  pub user_id : String
  pub actor_id : String
  pub email : String
  pub ip : String
  pub user_agent : String
  pub metadata : List (String × Value)

-- A Go literal that names some fields leaves the others empty.
abbrev pub event : String → Event
event name = record {
  name = name;
  user_id = "";
  actor_id = "";
  email = "";
  ip = "";
  user_agent = "";
  metadata = [];
}

-- normalize: drops blanks anywhere, and lowers ASCII; other bytes stay.
unfoldable pub normalize : String → String
normalize nil = nil
normalize (cons c s) =
    let rest = normalize s in
    if eqb (code c) 32 || eqb (code c) 9 || eqb (code c) 10
    then rest
    else cons (translate "ABCDEFGHIJKLMNOPQRSTUVWXYZ" "abcdefghijklmnopqrstuvwxyz" c c) rest

-- The row that Postgres.Record inserts: the address is stored as its HMAC.
unfoldable pub to_row : Env → Event → SecurityEvent
unfolding normalize
to_row env e = record {
  id = env.new_uuid;
  event = e.name;
  user_id = null_if_empty e.user_id;
  actor_user_id = null_if_empty e.actor_id;
  email_hash = if e.email == "" then none else some (env.hmac (normalize e.email));
  ip = null_if_empty e.ip;
  country = none;
  city = none;
  user_agent = null_if_empty e.user_agent;
  metadata = e.metadata;
  created_at = env.db_now;
}

-- record: best effort, so there is no error to return.
abbrev pub record_event : {E : Type 0} → Env → Event → Action E
record_event env e w = (
  ok tt,
  if env.audits && not (env.fails (Call.record_event e.name))
      then record w { events = w.events ++ to_row env e ∷ [] }
      else w,
)
