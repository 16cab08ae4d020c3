-- ===== src/Signup.antt =====
-- api/internal/signup: a registration is pending, with a code, until the code is given back; only
-- then the user exists. `request` is service.go and postgres.go, `verify` verify.go and
-- verify_postgres.go.
pub mod Verify
pub mod Registration
pub mod Attempts
pub mod Requests
use Prim.Native.String.{◌++◌ as concat}
use ecosystem_complete.Prelude.{
  ℕ, String, Bool, ◌&&◌, not, none, [], ◌∷◌, ◌+ℤ◌, pos, ◌==◌, is_some, exists_where, update_where,
  if◌then◌else◌, ◌*◌,
}
use ecosystem_complete.Prelude.Text.{trim_space}
use ecosystem_complete.Database.{Db, User, SignupRequest, Duration, Time, minute, holds_text}
use ecosystem_complete.Runtime.{Env, Call, Message}
use ecosystem_complete.Runtime.Exec.{Action, pure, attempt, query, execute, publish, ◌>>=◌, ◌>>◌}
use ecosystem_complete.Security.{normalize_email}
use ecosystem_complete.Security.Code.{generate_code}
use ecosystem_complete.Session

pub data Error : Type 0 where
  invalid_code too_many_attempts : Error
  session : Session.Error → Error

abbrev pub code_lifetime : Duration
code_lifetime = pos (10 * minute)

pub record Pending : Type 0 where
  pub email : String
  pub name : String
  pub password_hash : String
  pub code_hash : String
  pub expires_at : Time

-- tx_email = $1 AND dt_deleted_at IS NULL
abbrev pub owns : String → User → Bool
owns email u = holds_text u.email email && not (is_some u.deleted_at)

-- PostgresStore.ActiveUserExists; the partial unique index on tx_email counts the same rows
unfoldable pub active_user_exists : String → Db → Bool
active_user_exists email db = exists_where (owns email) db.users

abbrev pub reset_request : Pending → SignupRequest → SignupRequest
reset_request p r = record {
  email = r.email;
  name = p.name;
  password_hash = p.password_hash;
  code_hash = p.code_hash;
  attempts = 0;
  expires_at = p.expires_at;
}

abbrev pub new_request : Pending → SignupRequest
new_request p = record {
  email = p.email;
  name = p.name;
  password_hash = p.password_hash;
  code_hash = p.code_hash;
  attempts = 0;
  expires_at = p.expires_at;
}

-- PostgresStore.UpsertPending: INSERT ... ON CONFLICT (tx_email) DO UPDATE
unfoldable pub upsert_pending : Pending → Db → Db
upsert_pending p db = record db {
  signup_requests =
      if exists_where (λ r. r.email == p.email) db.signup_requests
      then update_where (λ r. r.email == p.email) (reset_request p) db.signup_requests
      else new_request p ∷ db.signup_requests;
}

abbrev pub existing_account_mail : String → Message
existing_account_mail email = record {
  to = email;
  subject = "Ya tenés una cuenta en melia";
  text =
      concat "Alguien intentó registrarse con este correo, pero ya tiene una cuenta.\n"
        "Si fuiste vos, iniciá sesión o recuperá tu contraseña. Si no fuiste vos, ignorá este mensaje.";
}

abbrev pub code_mail : String → String → Message
code_mail email code = record {
  to = email;
  subject = "Tu código de registro";
  text =
      concat "Tu código para terminar el registro es "
        (concat code ".\nVence en 10 minutos y sirve una sola vez.");
}

-- Service.Request; what it logs is not modelled
unfoldable pub request : Env → String → String → String → Action Error
unfolding trim_space active_user_exists upsert_pending generate_code
request env raw_email name password =
    let email = normalize_email env raw_email in
    do
      exists ← query env Call.active_user_exists (active_user_exists email)
      if exists then publish env (existing_account_mail email) else do
        password_hash ← attempt env Call.hash_password (env.hash_password password)
        code ← attempt env Call.generate_code (generate_code (env.code_entropy 0))
        execute env Call.upsert_pending (
            upsert_pending (record {
              email = email;
              name = trim_space name;
              password_hash = password_hash;
              code_hash = env.sha256 code;
              expires_at = env.now +ℤ code_lifetime;
            }))
        publish env (code_mail email code)
