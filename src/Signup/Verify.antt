-- ===== src/Signup/Verify.antt =====
-- verify.go and verify_postgres.go: the code that ends a registration.
use ecosystem_complete.Prelude.{
  ℕ, ◌+◌, String, not, List, Option, none, some, [], ◌∷◌, ◌==◌, pos, leb, find_where, update_where,
  delete_where, if◌then◌else◌,
}
use ecosystem_complete.Database.{Db, User, SignupRequest, Time, Status, after}
use ecosystem_complete.Runtime.{Env, Call, Value, text, number}
use ecosystem_complete.Runtime.Exec.{
  Exec, pure, raise, lift, begin_tx, tx_query, tx_execute, tx_insert, commit_tx, with_rollback,
  ◌>>=◌, ◌>>◌,
}
use ecosystem_complete.Audit.{
  Event, event, record_event, event_signup_verified, event_signup_code_rejected,
  event_session_created,
}
use ecosystem_complete.Security.{normalize_email}
use ecosystem_complete.Session.{Tokens, Meta}
use ecosystem_complete.Session.Issuer.{Issuer}
use ecosystem_complete.Signup.{Error, invalid_code, too_many_attempts, session, active_user_exists}

abbrev pub max_attempts : ℕ
max_attempts = 5

pub record PendingRow : Type 0 where
  pub name : String
  pub password_hash : String
  pub code_hash : String
  pub attempts : ℕ
  pub expires_at : Time

abbrev pub to_pending_row : SignupRequest → PendingRow
to_pending_row r = record {
  name = r.name;
  password_hash = r.password_hash;
  code_hash = r.code_hash;
  attempts = r.attempts;
  expires_at = r.expires_at;
}

pub record NewUser : Type 0 where
  pub name : String
  pub email : String
  pub password_hash : String
  pub email_verified_at : Time

unfoldable pub find_pending : String → Db → Option SignupRequest
find_pending email db = find_where (λ r. r.email == email) db.signup_requests

abbrev pub one_more : SignupRequest → SignupRequest
one_more r = record r { attempts = r.attempts + 1 }

-- postgresTx.RecordFailedAttempt
unfoldable pub record_failed_attempt : String → Db → Db
record_failed_attempt email db = record db {
  signup_requests = update_where (λ r. r.email == email) one_more db.signup_requests;
}

-- The row that postgresTx.Promote inserts; columns it does not name take their defaults.
abbrev pub promoted : Env → NewUser → User
promoted env u = record {
  id = env.new_uuid;
  name = some u.name;
  email = some u.email;
  password_hash = some u.password_hash;
  email_verified_at = some u.email_verified_at;
  failed_attempts = 0;
  locked_until = none;
  status = Status.active;
  created_at = env.db_now;
  deleted_at = none;
}

unfoldable pub promote : Env → NewUser → Db → Db
promote env u db = record db { users = promoted env u ∷ db.users }

-- postgresTx.DiscardPending
unfoldable pub discard_pending : String → Db → Db
discard_pending email db = record db {
  signup_requests = delete_where (λ r. r.email == email) db.signup_requests;
}

abbrev rejected : String → Meta → List (String × Value) → Event
rejected email meta metadata = record (event event_signup_code_rejected) {
  email = email;
  ip = meta.ip;
  user_agent = meta.user_agent;
  metadata = metadata;
}

abbrev pub new_user : Env → String → PendingRow → NewUser
new_user env email row = record {
  name = row.name;
  email = email;
  password_hash = row.password_hash;
  email_verified_at = env.later;
}

module _ (issuer : Issuer) (env : Env) where
  -- A wrong code: the counter is committed before the answer.
  unfoldable pub reject_code : String → Meta → PendingRow → Exec Error Tokens
  unfolding record_failed_attempt
  reject_code email meta row = do
    tx_execute env Call.record_failed_attempt (record_failed_attempt email)
    commit_tx env Call.commit
    record_event env (
        rejected email meta
          (("reason", text "wrong_code") ∷ ("attempts", number (pos (row.attempts + 1))) ∷ []))
    raise invalid_code

  -- The right code: the user replaces the request in one transaction, and gets a session.
  unfoldable pub accept_code : String → Meta → PendingRow → Exec Error Tokens
  unfolding promote discard_pending active_user_exists
  accept_code email meta row = do
    tx_insert env Call.promote (active_user_exists email) (promote env (new_user env email row))
    tx_execute env Call.discard_pending (discard_pending email)
    commit_tx env Call.commit
    tokens ← lift session (issuer.issue env env.new_uuid meta)
    record_event env (record (event event_signup_verified) {
      user_id = env.new_uuid;
      email = email;
      ip = meta.ip;
      user_agent = meta.user_agent;
    })
    record_event env (record (event event_session_created) {
      user_id = env.new_uuid;
      ip = meta.ip;
      user_agent = meta.user_agent;
    })
    pure tokens

  unfoldable pub verify_row : String → String → Meta → PendingRow → Exec Error Tokens
  unfolding reject_code accept_code
  verify_row email code meta row =
      if not (after row.expires_at env.now)
      then (do
        record_event env (rejected email meta (("reason", text "expired") ∷ []))
        raise invalid_code)
      else if leb max_attempts row.attempts
      then raise too_many_attempts
      else if not (env.sha256 code == row.code_hash)
      then reject_code email meta row
      else accept_code email meta row

  unfoldable pub verify_found : String → String → Meta → Option SignupRequest → Exec Error Tokens
  unfolding verify_row
  verify_found email code meta none = do
    record_event env (rejected email meta (("reason", text "no_pending_registration") ∷ []))
    raise invalid_code
  verify_found email code meta (some r) = verify_row email code meta (to_pending_row r)

  -- Verifier.Verify
  unfoldable pub verify : String → String → Meta → Exec Error Tokens
  unfolding find_pending verify_found
  verify raw_email code meta =
      let email = normalize_email env raw_email in
      do
        begin_tx env Call.begin
        with_rollback (do
          found ← tx_query env Call.pending (find_pending email)
          verify_found email code meta found)
