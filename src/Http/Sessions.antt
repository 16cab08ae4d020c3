-- ===== src/Http/Sessions.antt =====
-- auth.go: the handlers that open, rotate and close a session. A body that is not JSON is none.
-- mail.ParseAddress is a parameter, of which the code asks only whether it takes an address.
use Prim.Native.Char.{code}
use Prim.Native.String.{[] as nil, ◌∷◌ as cons}
use ecosystem_complete.Prelude.{
  ℕ, String, Bool, false, ◌&&◌, ◌||◌, not, Option, none, some, List, [], ◌∷◌, ◌++◌, ◌==◌, ltb, eqb,
  if◌then◌else◌,
}
use ecosystem_complete.Prelude.Text.{trim_space, byte_length}
use ecosystem_complete.Database.{whole_seconds}
use ecosystem_complete.Runtime.{Env}
use ecosystem_complete.Runtime.Exec.{Result, ok, err, failed}
use ecosystem_complete.Security.Code.{all_digits}
use ecosystem_complete.Session
use ecosystem_complete.Session.{Tokens, Meta, invalid_refresh, refresh_reused, missing_sub}
use ecosystem_complete.Session.Issuer.{Issuer}
use ecosystem_complete.Session.Rotate.{refresh, logout}
use ecosystem_complete.Signup
use ecosystem_complete.Signup.Verify.{verify}
use ecosystem_complete.Login
use ecosystem_complete.Http.{
  Request, Reply, Handler, CookieSettings, Presented, token, csrf_error, answer, write_error,
  write_validation_error, internal_error, reply, presented, write_token_pair, cleared_cookies,
}

-- codePattern.MatchString
unfoldable pub matches_code : String → Bool
unfolding byte_length
matches_code s = all_digits s && eqb (byte_length s) 6

-- strings.Contains(s, "@")
unfoldable pub has_at : String → Bool
has_at nil = false
has_at (cons c s) = eqb (code c) 64 || has_at s

-- MinPasswordLength
abbrev pub min_password_length : ℕ
min_password_length = 12

-- One fieldError, where the condition holds.
abbrev pub field : Bool → String → String → List (String × String)
field b name code = if b then (name, code) ∷ [] else []

pub record SignupRequest : Type 0 where
  pub email : String
  pub name : String
  pub password : String

pub record VerifyRequest : Type 0 where
  pub email : String
  pub code : String

pub record LoginRequest : Type 0 where
  pub email : String
  pub password : String
  pub device : String

abbrev pub invalid_json : Reply
invalid_json = write_error 400 "invalid_json"

-- The reply of a handler that has validated the body
abbrev pub or_invalid : List (String × String) → Handler → Handler
or_invalid [] next = next
or_invalid (f ∷ fields) next = reply (write_validation_error (f ∷ fields))

abbrev pub request_meta : Request → Meta
request_meta r = record { device = ""; user_agent = r.user_agent; ip = r.ip }

module _ (valid_address : String → Bool) where
  unfoldable pub validate_signup : SignupRequest → List (String × String)
  unfolding byte_length has_at trim_space
  validate_signup body =
      let email = trim_space body.email in
      let name = trim_space body.name in
      field (not (valid_address email) || not (has_at email)) "email" "invalid"
      ++ (if name == ""
          then ("name", "required") ∷ []
          else field (ltb 120 (byte_length name)) "name" "too_long")
      ++ field (ltb (byte_length body.password) min_password_length) "password" "too_short"

  unfoldable pub validate_verify : VerifyRequest → List (String × String)
  unfolding matches_code trim_space
  validate_verify body =
      field (not (valid_address (trim_space body.email))) "email" "invalid"
      ++ field (not (matches_code body.code)) "code" "invalid"

  unfoldable pub validate_login : LoginRequest → List (String × String)
  unfolding trim_space
  validate_login body =
      field (not (valid_address (trim_space body.email))) "email" "invalid"
      ++ field (body.password == "") "password" "required"

module _ (env : Env) (c : CookieSettings) (r : Request) where
  unfoldable pub verify_reply : Result Signup.Error Tokens → Reply
  unfolding write_token_pair
  verify_reply (ok tokens) = write_token_pair env c r 201 tokens
  verify_reply (err Signup.invalid_code) = write_error 400 "invalid_code"
  verify_reply (err Signup.too_many_attempts) = write_error 429 "too_many_attempts"
  verify_reply (err (Signup.session _)) = internal_error
  verify_reply (failed _) = internal_error

  unfoldable pub login_reply : Result Login.Error Tokens → Reply
  unfolding write_token_pair whole_seconds
  login_reply (ok tokens) = write_token_pair env c r 200 tokens
  login_reply (err (Login.locked d)) = record (write_error 423 "account_locked") {
    retry_after = some (whole_seconds d);
  }
  login_reply (err Login.invalid_credentials) = write_error 401 "invalid_credentials"
  login_reply (err (Login.session _)) = internal_error
  login_reply (failed _) = internal_error

  unfoldable pub refresh_reply : Result Session.Error Tokens → Reply
  unfolding write_token_pair
  refresh_reply (ok tokens) = write_token_pair env c r 200 tokens
  refresh_reply (err refresh_reused) = write_error 401 "refresh_reused"
  refresh_reply (err invalid_refresh) = write_error 401 "refresh_invalid"
  refresh_reply (err missing_sub) = internal_error
  refresh_reply (failed _) = internal_error

  -- startSignup
  unfoldable pub start_signup : (String → Bool) → Option SignupRequest → Handler
  unfolding Signup.request validate_signup
  start_signup valid_address none = reply invalid_json
  start_signup valid_address (some body) = or_invalid (validate_signup valid_address body) λ w.
      let (done, w') = Signup.request env body.email body.name body.password w in
      elim done [
        | ok _ ↦ (answer 202, w')
        | err _ ↦ (internal_error, w')
        | failed _ ↦ (internal_error, w')
      ]

  -- verifySignup
  unfoldable pub verify_signup : Issuer → (String → Bool) → Option VerifyRequest → Handler
  unfolding verify validate_verify verify_reply
  verify_signup issuer valid_address none = reply invalid_json
  verify_signup issuer valid_address (some body) =
      or_invalid (validate_verify valid_address body) λ w.
        let (done, w') = verify issuer env body.email body.code (request_meta r) w in
        (verify_reply done, w')

  -- loginUser
  unfoldable pub login_user :
      Issuer → Login.Config → (String → Bool) → Option LoginRequest → Handler
  unfolding Login.login validate_login login_reply trim_space
  login_user issuer cfg valid_address none = reply invalid_json
  login_user issuer cfg valid_address (some body) =
      or_invalid (validate_login valid_address body) λ w.
        let meta = record (request_meta r) { device = trim_space body.device } in
        let (done, w') = Login.login issuer cfg env body.email body.password meta w in
        (login_reply done, w')

  -- The end of refreshSession, for what the request presents
  unfoldable pub refresh_presented : Session.Config → Presented → Handler
  unfolding refresh refresh_reply
  refresh_presented cfg csrf_error = reply (write_error 403 "csrf_invalid")
  refresh_presented cfg (token raw _) =
      λ w. let (done, w') = refresh env cfg raw (request_meta r) w in (refresh_reply done, w')

  -- refreshSession
  unfoldable pub refresh_session : Session.Config → Option String → Handler
  unfolding presented refresh_presented
  refresh_session cfg none = reply invalid_json
  refresh_session cfg (some body_token) = refresh_presented cfg (presented r body_token)

  abbrev logout_reply : Bool → Reply
  logout_reply from_cookie = record (answer 204) {
    cookies = if from_cookie then cleared_cookies c else [];
  }

  -- The end of logoutSession, for what the request presents
  unfoldable pub logout_presented : Presented → Handler
  unfolding logout
  logout_presented csrf_error = reply (write_error 403 "csrf_invalid")
  logout_presented (token raw from_cookie) = λ w.
      let (done, w') = logout env raw w in
      elim done [
        | ok _ ↦ (logout_reply from_cookie, w')
        | err _ ↦ (internal_error, w')
        | failed _ ↦ (internal_error, w')
      ]

  -- logoutSession; the text is what the body decodes to, as far as it does.
  unfoldable pub logout_session : String → Handler
  unfolding presented logout_presented
  logout_session body_token = logout_presented (presented r body_token)
