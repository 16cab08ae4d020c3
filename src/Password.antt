-- ===== src/Password.antt =====
-- api/internal/password: recovery and change of the password (service.go, postgres.go).
pub mod Reset
pub mod Change
pub mod Recovery
pub mod Changes
pub mod Requests
pub mod Stores
use Prim.Native.String.{◌++◌ as concat}
use ecosystem_complete.Prelude.{
  ℕ, zero, suc, ◌+◌, ◌*◌, String, Bool, true, false, ◌&&◌, not, Option, none, some, List, [], ◌∷◌,
  ℤ, pos, ◌+ℤ◌, ◌-ℤ◌, ◌==◌, is_some, find_where, exists_where, if◌then◌else◌,
}
use ecosystem_complete.Prelude.Text.{trim_space, trim_right_of}
use ecosystem_complete.Database.{Db, User, UserToken, Time, Duration, password_reset, minute}
use ecosystem_complete.Runtime.{Env, Call, Message, Value, boolean, text}
use ecosystem_complete.Runtime.Exec.{
  Result, Exec, Action, ok, failed, pure, raise, attempt, query, publish, ◌>>=◌, ◌>>◌,
}
use ecosystem_complete.Audit.{Event, event, record_event, event_password_reset_requested}
use ecosystem_complete.Security.{normalize_email}
use ecosystem_complete.Security.Code.{generate_code}
use ecosystem_complete.Security.Quota.{Quota, check, positive_or, default_window}
use ecosystem_complete.UserTokens.{
  owns, last_request_at, count_requests_since, code_taken, add_user_token,
}

pub data Error : Type 0 where
  invalid_code too_many_attempts no_user invalid_current_password code_collision : Error

abbrev pub code_lifetime : Duration
code_lifetime = pos (10 * minute)

abbrev pub max_code_tries : ℕ
max_code_tries = 3

-- PostgresStore.ActiveUserID
unfoldable pub active_user : String → Db → Option User
active_user email db = find_where (owns email) db.users

-- The row that PostgresStore.CreateResetToken inserts.
abbrev pub reset_token : Env → String → String → String → UserToken
reset_token env user_id target hash = record {
  id = env.new_uuid;
  user_id = user_id;
  purpose = password_reset;
  code_hash = hash;
  target = target;
  attempts = 0;
  expires_at = env.now +ℤ code_lifetime;
  used_at = none;
  created_at = env.db_now;
}

-- resetText
unfoldable pub reset_text : Env → String → String → String → String
unfolding trim_space trim_right_of
reset_text env code origin email =
    let text = concat "Tu código para cambiar la contraseña es " (
      concat code (
        concat
          ".\nVence en 10 minutos y sirve una sola vez. Si no lo pediste, ignorá este mensaje: "
          "tu contraseña actual sigue funcionando.")) in
    let trimmed = trim_right_of 47 (trim_space origin) in
    if trimmed == ""
    then text
    else concat text (
        concat "\n\nIngresalo en "
          (concat trimmed (concat "/recuperar?email=" (env.url_escape email))))

abbrev pub reset_mail : Env → String → String → String → Message
reset_mail env origin email code = record {
  to = email;
  subject = "Recuperá tu contraseña";
  text = reset_text env code origin email;
}

module _ (env : Env) (quota : Quota) (origin : String) where
  -- PostgresStore.CreateResetToken in the nth round: false is ErrCodeCollision
  unfoldable pub create_reset_token : ℕ → String → String → String → Exec Error Bool
  unfolding code_taken add_user_token
  create_reset_token n user_id target hash w = elim (env.fails (Call.create_nth_token n)) [
    | true ↦ (failed (Call.create_nth_token n), w)
    | false ↦ elim (code_taken hash w.db) [
      | true ↦ (ok false, w)
      | false ↦
          (ok true, record w { db = add_user_token (reset_token env user_id target hash) w.db })
    ]
  ]

  -- The loop over maxCodeTries, with the rounds that are left and the round's number.
  unfoldable pub draw_code : ℕ → ℕ → String → String → Exec Error String
  unfolding create_reset_token
  draw_code zero n user_id email = raise code_collision
  draw_code (suc left) n user_id email = do
    code ← attempt env (Call.generate_nth_code n) (generate_code (env.code_entropy n))
    stored ← create_reset_token n user_id email (env.sha256 code)
    if stored then pure code else draw_code left (n + 1) user_id email

  abbrev pub requested_event : String → String → List (String × Value) → Event
  requested_event user_id email metadata = record (event event_password_reset_requested) {
    user_id = user_id;
    email = email;
    metadata = metadata;
  }

  -- The part of RequestReset after the quota.
  unfoldable pub send_code : String → String → Action Error
  unfolding draw_code
  send_code user_id email = do
    code ← draw_code max_code_tries 0 user_id email
    publish env (reset_mail env origin email code)
    record_event env (requested_event user_id email (("delivered", boolean true) ∷ []))

  unfoldable pub request_for : String → Option User → Action Error
  unfolding send_code last_request_at count_requests_since
  request_for email none =
      record_event env (requested_event "" email (("delivered", boolean false) ∷ []))
  request_for email (some u) = do
    last_at ← query env Call.last_request_at (last_request_at password_reset u.id)
    in_window ← query env Call.count_requests_since (
        count_requests_since password_reset u.id
          (env.now -ℤ positive_or quota.window default_window))
    if is_some (check quota env.now last_at (pos in_window))
        then record_event env (
            requested_event u.id email
              (("delivered", boolean false) ∷ ("reason", text "quota") ∷ []))
        else send_code u.id email

  -- Service.RequestReset
  unfoldable pub request_reset : String → Action Error
  unfolding active_user request_for
  request_reset raw_email =
      let email = normalize_email env raw_email in
      do found ← query env Call.active_user_id (active_user email); request_for email found
