-- ===== src/Http/Browsers.antt =====
-- What a browser gets and what it must send.
use ecosystem_complete.Prelude.{
  ℕ, ◌≡◌, refl, String, Bool, true, Option, none, some, List, [], ◌∷◌, arith, ◌==◌,
}
use ecosystem_complete.Runtime.{Env, World}
use ecosystem_complete.Runtime.Exec.{Result, ok, err, failed}
use ecosystem_complete.Session
use ecosystem_complete.Session.{Tokens}
use ecosystem_complete.Session.Issuer.{Issuer}
use ecosystem_complete.Login
use ecosystem_complete.Signup
use ecosystem_complete.Http.{
  Request, Reply, Handler, CookieSettings, Presented, presented, csrf_error, token, is_browser,
  write_token_pair,
}
use ecosystem_complete.Http.Sessions.{
  VerifyRequest, LoginRequest, validate_verify, validate_login, verify_reply, login_reply,
  refresh_reply, verify_signup, or_invalid, login_user, refresh_presented, refresh_session,
}

abbrev pub no_refresh_token : Reply → Bool
no_refresh_token r = elim r.pair [ none ↦ true | some p ↦ p.refresh_token == "" ]

or_invalid-no_refresh_token :
    (fields : List (String × String)) (next : Handler) (w : World)
    → no_refresh_token (next w).0 ≡ true
    → no_refresh_token (or_invalid fields next w).0 ≡ true
or_invalid-no_refresh_token [] next w h = h
or_invalid-no_refresh_token (_ ∷ _) next w h = refl

module _ (env : Env) (c : CookieSettings) (r : Request) (browser : is_browser c r ≡ true) where
  write_token_pair-no_refresh_token :
      (status : ℕ) (tokens : Tokens)
      → no_refresh_token (write_token_pair env c r status tokens) ≡ true
  unfolding write_token_pair
  write_token_pair-no_refresh_token status tokens = rw browser (ground arith)

  verify_reply-no_refresh_token :
      (done : Result Signup.Error Tokens) → no_refresh_token (verify_reply env c r done) ≡ true
  unfolding verify_reply
  verify_reply-no_refresh_token (ok tokens) = write_token_pair-no_refresh_token 201 tokens
  verify_reply-no_refresh_token (err Signup.invalid_code) = refl
  verify_reply-no_refresh_token (err Signup.too_many_attempts) = refl
  verify_reply-no_refresh_token (err (Signup.session _)) = refl
  verify_reply-no_refresh_token (failed _) = refl

  login_reply-no_refresh_token :
      (done : Result Login.Error Tokens) → no_refresh_token (login_reply env c r done) ≡ true
  unfolding login_reply
  login_reply-no_refresh_token (ok tokens) = write_token_pair-no_refresh_token 200 tokens
  login_reply-no_refresh_token (err (Login.locked _)) = refl
  login_reply-no_refresh_token (err Login.invalid_credentials) = refl
  login_reply-no_refresh_token (err (Login.session _)) = refl
  login_reply-no_refresh_token (failed _) = refl

  refresh_reply-no_refresh_token :
      (done : Result Session.Error Tokens) → no_refresh_token (refresh_reply env c r done) ≡ true
  unfolding refresh_reply
  refresh_reply-no_refresh_token (ok tokens) = write_token_pair-no_refresh_token 200 tokens
  refresh_reply-no_refresh_token (err Session.refresh_reused) = refl
  refresh_reply-no_refresh_token (err Session.invalid_refresh) = refl
  refresh_reply-no_refresh_token (err Session.missing_sub) = refl
  refresh_reply-no_refresh_token (failed _) = refl

  module _ (issuer : Issuer) (valid_address : String → Bool) (w : World) where
    verify_signup-no_refresh_token :
        (body : Option VerifyRequest)
        → no_refresh_token (verify_signup env c r issuer valid_address body w).0 ≡ true
    unfolding verify_signup
    verify_signup-no_refresh_token none = refl
    verify_signup-no_refresh_token (some body) =
        or_invalid-no_refresh_token (validate_verify valid_address body) _ w
          (verify_reply-no_refresh_token _)

    login_user-no_refresh_token :
        (logins : Login.Config) (body : Option LoginRequest)
        → no_refresh_token (login_user env c r issuer logins valid_address body w).0 ≡ true
    unfolding login_user
    login_user-no_refresh_token logins none = refl
    login_user-no_refresh_token logins (some body) =
        or_invalid-no_refresh_token (validate_login valid_address body) _ w
          (login_reply-no_refresh_token _)

  refresh_presented-no_refresh_token :
      (cfg : Session.Config) (p : Presented) (w : World)
      → no_refresh_token (refresh_presented env c r cfg p w).0 ≡ true
  unfolding refresh_presented
  refresh_presented-no_refresh_token cfg csrf_error w = refl
  refresh_presented-no_refresh_token cfg (token raw _) w = refresh_reply-no_refresh_token _

  refresh_session-no_refresh_token :
      (cfg : Session.Config) (body : Option String) (w : World)
      → no_refresh_token (refresh_session env c r cfg body w).0 ≡ true
  unfolding refresh_session
  refresh_session-no_refresh_token cfg none w = refl
  refresh_session-no_refresh_token cfg (some body_token) w =
      refresh_presented-no_refresh_token cfg (presented r body_token) w

  -- When the request's Origin is one of the allowed origins, no body that verifySignup, loginUser or
  -- refreshSession answers holds a refresh token, whatever the request's body and the outcome are.
  pub browser_no_refresh_token :
      (issuer : Issuer) (sessions : Session.Config) (logins : Login.Config)
      (valid_address : String → Bool) (w : World) (code : Option VerifyRequest)
      (credentials : Option LoginRequest) (old : Option String)
      → (no_refresh_token (verify_signup env c r issuer valid_address code w).0 ≡ true)
        × (no_refresh_token (login_user env c r issuer logins valid_address credentials w).0 ≡ true)
        × (no_refresh_token (refresh_session env c r sessions old w).0 ≡ true)
  browser_no_refresh_token issuer sessions logins valid_address w code credentials old = (
    verify_signup-no_refresh_token issuer valid_address w code,
    login_user-no_refresh_token issuer valid_address w logins credentials,
    refresh_session-no_refresh_token sessions old w,
  )
