-- ===== src/EmailChange.antt =====
-- api/internal/emailchange: moving an account to another address (service.go, postgres.go).
pub mod Verify
pub mod Outcomes
pub mod Requests
pub mod Histories
use Prim.Native.String.{◌++◌ as concat}
use ecosystem_complete.Prelude.{
  ℕ, zero, suc, ◌+◌, ◌*◌, String, Bool, true, false, ◌&&◌, not, Option, none, some, [], ◌∷◌, pos,
  ◌+ℤ◌, ◌-ℤ◌, ◌==◌, is_some, exists_where, update_where, if◌then◌else◌,
}
use ecosystem_complete.Database.{
  Db, User, UserToken, Time, Duration, Purpose, email_change, minute, or_empty,
}
use ecosystem_complete.Runtime.{Env, Call, Message, text}
use ecosystem_complete.Runtime.Exec.{
  Exec, Action, failed, ok, pure, raise, attempt, query, publish, begin_tx, tx_execute, commit_tx,
  with_rollback, ◌>>=◌, ◌>>◌,
}
use ecosystem_complete.Audit.{
  event, record_event, event_email_change_requested, event_email_change_failed,
}
use ecosystem_complete.Security.{normalize_email}
use ecosystem_complete.Security.Code.{generate_code}
use ecosystem_complete.Security.Quota.{Quota, check, positive_or, default_window}
use ecosystem_complete.UserTokens.{
  owns, asked, used, last_request_at, count_requests_since, code_taken, add_user_token,
}
use ecosystem_complete.Password.Change.{user_by_id}

-- `too_many_requests` is security.TooManyRequestsError, which Request passes on.
pub data Error : Type 0 where
  invalid_code too_many_attempts email_taken invalid_password same_email code_collision : Error
  too_many_requests : Duration → Error

abbrev pub code_lifetime : Duration
code_lifetime = pos (10 * minute)

abbrev pub max_code_tries : ℕ
max_code_tries = 3

-- PostgresStore.AddressTaken
unfoldable pub address_taken : String → Db → Bool
address_taken email db = exists_where (owns email) db.users

-- The UPDATE of CreateChangeToken
unfoldable pub invalidate : String → Time → Db → Db
invalidate user_id now db = record db {
  user_tokens =
      update_where (λ t. asked email_change user_id t && not (is_some t.used_at)) (used now)
        db.user_tokens;
}

-- The row that CreateChangeToken inserts.
abbrev pub change_token : Env → String → String → String → UserToken
change_token env user_id target hash = record {
  id = env.new_uuid;
  user_id = user_id;
  purpose = email_change;
  code_hash = hash;
  target = target;
  attempts = 0;
  expires_at = env.now +ℤ code_lifetime;
  used_at = none;
  created_at = env.db_now;
}

abbrev pub confirmation_mail : String → String → Message
confirmation_mail email code = record {
  to = email;
  subject = "Confirmá tu nuevo email";
  text = concat "Tu código para confirmar esta dirección es " (
      concat code
        ".\nVence en 10 minutos y sirve una sola vez. Si no lo pediste, ignorá este mensaje.");
}

module _ (env : Env) (quota : Quota) where
  -- The INSERT of CreateChangeToken: false is ErrCodeCollision.
  unfoldable pub insert_change_token : ℕ → String → String → String → Exec Error Bool
  unfolding code_taken add_user_token
  insert_change_token n user_id target hash w = elim w.tx [
    | none ↦ (failed (Call.create_nth_token n), w)
    | some t ↦ elim (env.fails (Call.create_nth_token n)) [
      | true ↦ (failed (Call.create_nth_token n), w)
      | false ↦ elim (code_taken hash t) [
        | true ↦ (ok false, w)
        | false ↦ (
          ok true,
          record w { tx = some (add_user_token (change_token env user_id target hash) t) },
        )
      ]
    ]
  ]

  -- PostgresStore.CreateChangeToken in the nth round of Request's loop
  unfoldable pub create_change_token : ℕ → String → String → String → Exec Error Bool
  unfolding invalidate insert_change_token
  create_change_token n user_id target hash = do
    begin_tx env (Call.begin_nth n)
    with_rollback (do
      tx_execute env (Call.invalidate_nth_tokens n) (invalidate user_id env.db_now)
      stored ← insert_change_token n user_id target hash
      if stored then (do commit_tx env (Call.commit_nth n); pure true) else pure false)

  -- The loop over maxCodeTries, with the rounds that are left and the round's number.
  unfoldable pub draw_code : ℕ → ℕ → String → String → Exec Error String
  unfolding create_change_token
  draw_code zero n user_id email = raise code_collision
  draw_code (suc left) n user_id email = do
    code ← attempt env (Call.generate_nth_code n) (generate_code (env.code_entropy n))
    stored ← create_change_token n user_id email (env.sha256 code)
    if stored then pure code else draw_code left (n + 1) user_id email

  -- The part of Request after the quota.
  unfoldable pub send_code : String → String → Action Error
  unfolding draw_code
  send_code user_id email = do
    code ← draw_code max_code_tries 0 user_id email
    publish env (confirmation_mail email code)
    record_event env
        (record (event event_email_change_requested) { user_id = user_id; email = email })

  abbrev refuse : String → String → Error → Action Error
  refuse user_id reason e = do
    record_event env (record (event event_email_change_failed) {
      user_id = user_id;
      metadata = ("reason", text reason) ∷ [];
    })
    raise e

  -- The part of Request after the password.
  unfoldable pub send_within_quota : String → String → Action Error
  unfolding send_code last_request_at count_requests_since
  send_within_quota user_id email = do
    last_at ← query env Call.last_request_at (last_request_at email_change user_id)
    in_window ← query env Call.count_requests_since (
        count_requests_since email_change user_id
          (env.now -ℤ positive_or quota.window default_window))
    elim (check quota env.now last_at (pos in_window)) [
      | none ↦ send_code user_id email
      | some wait ↦ refuse user_id "quota" (too_many_requests wait)
    ]

  -- The verdict of VerifyPassword: none is its error.
  unfoldable pub send_if : String → String → Option Bool → Action Error
  unfolding send_within_quota
  send_if user_id email (some true) = send_within_quota user_id email
  send_if user_id email _ = refuse user_id "wrong_password" invalid_password

  -- PostgresStore.CurrentEmail and PostgresStore.PasswordHash: "" for a column without a value
  unfoldable pub column_of : (User → Option String) → Option User → Exec Error String
  column_of column none = raise invalid_password
  column_of column (some u) = pure (or_empty (column u))

  -- Service.Request
  unfoldable pub request : String → String → String → Action Error
  unfolding user_by_id column_of address_taken send_if
  request user_id raw_email password =
      let email = normalize_email env raw_email in
      do
        found ← query env Call.current_email (user_by_id user_id)
        current ← column_of (λ u. u.email) found
        if normalize_email env current == email then raise same_email else do
          taken ← query env Call.address_taken (address_taken email)
          if taken then raise email_taken else do
            owner ← query env Call.password_hash (user_by_id user_id)
            stored ← column_of (λ u. u.password_hash) owner
            if stored == ""
                then raise invalid_password
                else send_if user_id email (env.verify_password stored password)
