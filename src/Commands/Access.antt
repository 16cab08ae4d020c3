-- ===== src/Commands/Access.antt =====
-- How long an access token works in the running API.
use ecosystem_complete.Prelude.{
  ◌≡◌, refl, String, true, some, inl, inr, Bool-cases, ◌+ℤ◌, if◌then◌else◌,
}
use ecosystem_complete.Database.{before}
use ecosystem_complete.Runtime.{Env, World}
use ecosystem_complete.Runtime.Exec.{ok}
use ecosystem_complete.Config.{Config}
use ecosystem_complete.Session.{Meta, Tokens, issue}
use ecosystem_complete.Session.Access.{
  ReadsBack, access_token, access_claims, numeric_date, subject_of, parse-issue,
}
use ecosystem_complete.Http.{Request}
use ecosystem_complete.Http.Guards.{bearer_token, unauthorized, require_auth}
use ecosystem_complete.Http.Routes.{Route, offers, serve, user_handler}
use ecosystem_complete.Http.Routes.Paths.{is_personal, personal-guarded}
use ecosystem_complete.Commands.{Libraries, options_of, session_config, services_of}

module _ (env env' : Env) (cfg : Config) (lib : Libraries) (user_id : String) (meta : Meta)
    (w w1 w2 : World) (tokens : Tokens) (r : Request) (route : Route) where
  -- Where the JWT library reads back the token that was signed, an access token that a sign-in is
  -- issued with, sent as a bearer token to /v1/me, /v1/auth/password/change, /v1/auth/email/change or
  -- its /verify, if the API has that route, runs the route's handler for that user at any time before
  -- the whole second of its expiry, and is answered 401 from then on, whatever has become of the tables
  -- in between.
  pub serve-issue :
      ReadsBack lib.jwt cfg.jwt_secret
        (access_token env (session_config cfg) user_id)
        (access_claims env (session_config cfg) user_id)
      → issue env (session_config cfg) user_id meta w ≡ (ok tokens, w1)
      → bearer_token r ≡ some tokens.access_token
      → is_personal route ≡ true
      → offers (options_of cfg) route ≡ true
      → serve env' (services_of env' cfg lib) r (options_of cfg) route w2 ≡ (
          if before env'.now (numeric_date (env.now +ℤ cfg.access_token_ttl))
          then user_handler env' (services_of env' cfg lib) r route user_id w2
          else (unauthorized, w2))
  unfolding serve services_of subject_of require_auth
  serve-issue law issued sent personal offered =
      let guarded = personal-guarded route personal in
      let parsed =
        parse-issue env (session_config cfg) user_id meta w lib.jwt tokens w1 env'.now law issued in
      elim (Bool-cases (before env'.now (numeric_date (env.now +ℤ cfg.access_token_ttl)))) [
        | inl e ↦ rw (e, offered, guarded, serve, sent, require_auth, parsed, subject_of, e) refl
        | inr e ↦ rw (e, offered, guarded, serve, sent, require_auth, parsed, subject_of, e) refl
      ]
