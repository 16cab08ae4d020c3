-- ===== src/Login.antt =====
-- api/internal/login: service.go and postgres.go.
pub mod Outcomes
pub mod Lockout
use ecosystem_complete.Prelude.{
  ℕ, ◌+◌, ◌*◌, String, Bool, true, false, ◌&&◌, ◌||◌, not, Option, none, some, List, [], ◌∷◌, ℤ,
  pos, ◌+ℤ◌, ◌-ℤ◌, ◌==◌, leb_ℤ, get_or, is_some, find_where, update_where, if◌then◌else◌,
}
use ecosystem_complete.Database.{
  Db, User, Status, Time, Duration, before, whole_seconds, minute, or_empty, holds_text,
}
use ecosystem_complete.Runtime.{Env, Call, Value, text, number}
use ecosystem_complete.Runtime.Exec.{
  Exec, Action, pure, raise, lift, attempt, query, execute, ◌>>=◌, ◌>>◌,
}
use ecosystem_complete.Audit.{
  Event, event, record_event, event_login_succeeded, event_login_failed, event_login_locked,
  event_session_created,
}
use ecosystem_complete.Security.{normalize_email}
use ecosystem_complete.Session
use ecosystem_complete.Session.{Tokens, Meta}
use ecosystem_complete.Session.Issuer.{Issuer}

-- `session` passes on what the issuer answers.
pub data Error : Type 0 where
  invalid_credentials : Error
  locked : Duration → Error
  session : Session.Error → Error

pub record Config : Type 0 where
  pub max_attempts : ℤ
  pub lock_duration : Duration

abbrev pub default_max_attempts : ℤ
default_max_attempts = pos 5

abbrev pub default_lock_duration : Duration
default_lock_duration = pos (15 * minute)

-- Service.maxAttempts
unfoldable pub max_attempts : Config → ℤ
max_attempts cfg = if leb_ℤ cfg.max_attempts (pos 0) then default_max_attempts else cfg.max_attempts

-- Service.lockDuration
unfoldable pub lock_duration : Config → Duration
lock_duration cfg =
    if leb_ℤ cfg.lock_duration (pos 0) then default_lock_duration else cfg.lock_duration

-- What the store returns: `User` of the package, from the columns of a row.
pub record Account : Type 0 where
  pub id : String
  pub email : String
  pub password_hash : String
  pub status : Status
  pub failed_attempts : ℕ
  pub locked_until : Option Time

abbrev pub to_account : User → Account
to_account u = record {
  id = u.id;
  email = or_empty u.email;
  password_hash = or_empty u.password_hash;
  status = u.status;
  failed_attempts = u.failed_attempts;
  locked_until = u.locked_until;
}

-- WHERE tx_email = $1 AND dt_deleted_at IS NULL
abbrev pub owns : String → User → Bool
owns email u = holds_text u.email email && not (is_some u.deleted_at)

-- PostgresStore.ByEmail
unfoldable pub by_email : String → Db → Option User
by_email email db = find_where (owns email) db.users

abbrev pub fail_once : Option Time → User → User
fail_once lock_until u = record u {
  failed_attempts = u.failed_attempts + 1;
  locked_until = elim lock_until [ none ↦ u.locked_until | some t ↦ some t ];
}

-- PostgresStore.RecordFailure
unfoldable pub record_failure : String → Option Time → Db → Db
record_failure user_id lock_until db = record db {
  users = update_where (λ u. u.id == user_id) (fail_once lock_until) db.users;
}

abbrev pub unlock : User → User
unlock u = record u { failed_attempts = 0; locked_until = none }

-- PostgresStore.ResetFailures
unfoldable pub reset_failures : String → Db → Db
reset_failures user_id db = record db {
  users = update_where (λ u. u.id == user_id) unlock db.users;
}

abbrev pub is_active : Status → Bool
is_active Status.active = true
is_active _ = false

abbrev noted : String → String → String → Meta → List (String × Value) → Event
noted name user_id email meta metadata = record (event name) {
  user_id = user_id;
  email = email;
  ip = meta.ip;
  user_agent = meta.user_agent;
  metadata = metadata;
}

abbrev pub still_locked : Option Time → Time → Bool
still_locked none now = false
still_locked (some t) now = before now t

module _ (issuer : Issuer) (cfg : Config) (env : Env) where
  -- failAttempt: until when the failure locks the account
  unfoldable pub lock_until : Account → Option Time
  unfolding max_attempts lock_duration
  lock_until user =
      if leb_ℤ (max_attempts cfg) (pos (user.failed_attempts + 1))
      then some (env.now +ℤ lock_duration cfg)
      else none

  -- failAttempt
  unfoldable pub fail_attempt : Account → String → Meta → Bool → Exec Error Tokens
  unfolding record_failure whole_seconds
  fail_attempt user email meta unreadable =
      let failures = user.failed_attempts + 1 in
      do
        execute env Call.record_failure (record_failure user.id (lock_until user))
        if is_some (lock_until user)
            then (do
              record_event env (
                  noted event_login_locked user.id email meta (
                    ("attempts", number (pos failures))
                    ∷ ("retry_after_seconds", number (whole_seconds (lock_duration cfg)))
                    ∷ []))
              raise (locked (lock_duration cfg)))
            else (do
              record_event env (
                  noted event_login_failed user.id email meta (
                    ("reason", text (if unreadable then "unreadable_hash" else "wrong_password"))
                    ∷ ("attempts", number (pos failures))
                    ∷ []))
              raise invalid_credentials)

  unfoldable pub succeed : Account → String → Meta → Exec Error Tokens
  unfolding reset_failures
  succeed user email meta = do
    execute env Call.reset_failures (reset_failures user.id)
    tokens ← lift session (issuer.issue env user.id meta)
    record_event env (noted event_login_succeeded user.id email meta [])
    record_event env (record (event event_session_created) {
      user_id = user.id;
      ip = meta.ip;
      user_agent = meta.user_agent;
    })
    pure tokens

  -- The verdict of VerifyPassword: none is its error.
  unfoldable pub judge : Account → String → Meta → Option Bool → Exec Error Tokens
  unfolding fail_attempt succeed
  judge user email meta none = fail_attempt user email meta true
  judge user email meta (some false) = fail_attempt user email meta false
  judge user email meta (some true) = succeed user email meta

  unfoldable pub login_account : Account → String → String → Meta → Exec Error Tokens
  unfolding judge whole_seconds
  login_account user email password meta =
      if still_locked user.locked_until env.now
      then (do
        record_event env (
            noted event_login_locked user.id email meta (
              (
                "retry_after_seconds",
                number (whole_seconds (get_or user.locked_until env.now -ℤ env.now)),
              )
              ∷ ("reason", text "still_locked")
              ∷ []))
        raise (locked (get_or user.locked_until env.now -ℤ env.now)))
      else if not (is_active user.status)
      then (do
        record_event env (
            noted event_login_failed user.id email meta
              (("reason", text "account_not_active") ∷ []))
        raise invalid_credentials)
      else judge user email meta (env.verify_password user.password_hash password)

  unfoldable pub login_found : String → String → Meta → Option User → Exec Error Tokens
  unfolding login_account
  login_found email password meta none = do
    record_event env
        (noted event_login_failed "" email meta (("reason", text "unknown_account") ∷ []))
    raise invalid_credentials
  login_found email password meta (some u) = login_account (to_account u) email password meta

  -- Service.Login. Where the source verifies a password only to take as long, the result is unused.
  unfoldable pub login : String → String → Meta → Exec Error Tokens
  unfolding by_email login_found
  login raw_email password meta =
      let email = normalize_email env raw_email in
      do found ← query env Call.by_email (by_email email); login_found email password meta found
