-- ===== src/Tests/Replies.antt =====
-- Examples for Http.
use ecosystem_complete.Prelude.{◌≡◌, refl, String, Bool, true, some, none, [], ◌∷◌, exists_where}
use ecosystem_complete.Http.{Request, CookieSettings, is_browser}
use ecosystem_complete.Http.Sessions.{
  VerifyRequest, LoginRequest, verify_signup, login_user, refresh_session,
}
use ecosystem_complete.Http.Browsers.{no_refresh_token, browser_no_refresh_token}
use ecosystem_complete.Tests.{env, config, issuer, login_config, world}

abbrev pub settings : CookieSettings
settings = record { allowed_origins = "https://panel" ∷ []; secure = true }

abbrev pub from_panel : Request
from_panel = record {
  http_method = "POST";
  origin = "https://panel";
  requested_method = "";
  authorization = "bearer u1";
  csrf_header = "";
  refresh_cookie = none;
  csrf_cookie = none;
  user_agent = "browser";
  ip = "10.0.0.2";
}

known_origin : is_browser settings from_panel ≡ true
unfolding is_browser exists_where
known_origin = refl

abbrev any_address : String → Bool
any_address _ = true

abbrev code : VerifyRequest
code = record { email = "b@x.com"; code = "000001" }

abbrev credentials : LoginRequest
credentials = record { email = "a@x.com"; password = "secret"; device = "panel" }

browser_no_refresh_token_example :
    (no_refresh_token (verify_signup env settings from_panel issuer any_address (some code) world).0
      ≡ true)
    × (no_refresh_token
          (login_user env settings from_panel issuer login_config any_address
            (some credentials)
            world).0
        ≡ true)
    × (no_refresh_token (refresh_session env settings from_panel config (some "t1") world).0 ≡ true)
browser_no_refresh_token_example =
    browser_no_refresh_token env settings from_panel known_origin issuer config login_config
      any_address world (some code) (some credentials) (some "t1")
