-- ===== src/Http/Silence.antt =====
-- The handlers that put nothing on the mail queue (auth.go, identity.go, social.go, admin.go, authmw.go).
use ecosystem_complete.Prelude.{
  ◌≡◌, ap, String, Bool, Option, none, some, List, ℤ, arith, Option-cases, refl, inl, inr,
}
use Prim.Native.Char.{Char}
use ecosystem_complete.Database.{Time}
use ecosystem_complete.Runtime.{Env, World}
use ecosystem_complete.Session
use ecosystem_complete.Session.Issuer.{Issuer}
use ecosystem_complete.Login
use ecosystem_complete.Social.{Verdict}
use ecosystem_complete.Identity
use ecosystem_complete.Identity.Admin
use ecosystem_complete.Http.{Request, Handler, CookieSettings}
use ecosystem_complete.Http.Guards.{bearer_token, require_auth, admin, admin_guard}
use ecosystem_complete.Http.Sessions.{
  VerifyRequest, LoginRequest, verify_signup, login_user, refresh_session, logout_session,
}
use ecosystem_complete.Http.Accounts.{SocialRequest, show_me, social_login}
use ecosystem_complete.Http.Admin.{
  request_event, UserQuery, UpdateUserRequest, users, update_account, assign_account_roles,
}
use ecosystem_complete.Http.Lists.{EventQuery, show_roles, show_permissions, audit_events}
use ecosystem_complete.Http.Quiet.{
  refresh-IsQuiet, logout-IsQuiet, login-IsQuiet, verify-IsQuiet, social-IsQuiet, me-IsQuiet,
  user-IsQuiet, set_roles-IsQuiet, update_user-IsQuiet, list_users-IsQuiet, list_events-IsQuiet,
}

-- A handler likewise.
abbrev pub IsSilent : Handler → Type 0
IsSilent h = (w : World) → (h w).1.outbox ≡ w.outbox

module _ (env : Env) (c : CookieSettings) (r : Request) where
  pub verify_signup-IsSilent :
      (issuer : Issuer) (valid : String → Bool) (body : Option VerifyRequest)
      → IsSilent (verify_signup env c r issuer valid body)
  unfolding verify_signup
  verify_signup-IsSilent issuer valid body w = grind (arith, verify-IsQuiet)

  pub login_user-IsSilent :
      (issuer : Issuer) (cfg : Login.Config) (valid : String → Bool) (body : Option LoginRequest)
      → IsSilent (login_user env c r issuer cfg valid body)
  unfolding login_user
  login_user-IsSilent issuer cfg valid body w = grind (arith, login-IsQuiet)

  pub refresh_session-IsSilent :
      (cfg : Session.Config) (body : Option String) → IsSilent (refresh_session env c r cfg body)
  unfolding refresh_session
  refresh_session-IsSilent cfg body w = grind (arith, refresh-IsQuiet)

  pub logout_session-IsSilent : (body : String) → IsSilent (logout_session env c r body)
  unfolding logout_session
  logout_session-IsSilent body w = grind (arith, logout-IsQuiet)

  pub social_login-IsSilent :
      (issuer : Issuer) (verifier : String → String → Verdict) (upper : Char → Char)
      (body : Option SocialRequest)
      → IsSilent (social_login env c r issuer verifier upper body)
  unfolding social_login
  social_login-IsSilent issuer verifier upper body w = grind (arith, social-IsQuiet)

module _ (env : Env) (order : String → String → Bool) where
  pub show_me-IsSilent : (user_id : String) → IsSilent (show_me env order user_id)
  unfolding show_me
  show_me-IsSilent user_id w = grind (arith, me-IsQuiet)

  pub users-IsSilent :
      (ilike : String → String → Bool) (atoi : String → ℤ) (q : UserQuery)
      → IsSilent (users env order ilike atoi q)
  unfolding users
  users-IsSilent ilike atoi q w = grind (arith, list_users-IsQuiet)

  pub update_account-IsSilent :
      (r : Request) (target : String) (body : Option UpdateUserRequest) (user_id : String)
      → IsSilent (update_account env order r target body user_id)
  unfolding update_account
  update_account-IsSilent r target body user_id w = grind (arith, update_user-IsQuiet)

  pub assign_account_roles-IsSilent :
      (r : Request) (target : String) (body : Option (Option (List String))) (user_id : String)
      → IsSilent (assign_account_roles env order r target body user_id)
  unfolding assign_account_roles
  assign_account_roles-IsSilent r target none user_id w = ground arith
  assign_account_roles-IsSilent r target (some none) user_id w = ground arith
  assign_account_roles-IsSilent r target (some (some roles)) user_id w =
      let assigned = set_roles-IsQuiet env user_id target roles (request_event r) w in
      let w' = (Identity.Admin.set_roles env user_id target roles (request_event r) w).1 in
      ground (arith, assigned, user-IsQuiet env order target w')

  pub show_roles-IsSilent : IsSilent (show_roles env order)
  unfolding show_roles
  show_roles-IsSilent w = ground arith

  pub show_permissions-IsSilent : IsSilent (show_permissions env order)
  unfolding show_permissions
  show_permissions-IsSilent w = ground arith

pub audit_events-IsSilent :
    (env : Env) (atoi : String → ℤ) (rfc3339 : String → Option Time) (q : EventQuery)
    → IsSilent (audit_events env atoi rfc3339 q)
unfolding audit_events
audit_events-IsSilent env atoi rfc3339 q w = grind (arith, list_events-IsQuiet)

pub require_auth-IsSilent :
    (parse : String → Option String) (next : String → Handler) (r : Request)
    → ((subject : String) → IsSilent (next subject))
    → IsSilent (require_auth parse next r)
unfolding require_auth
require_auth-IsSilent parse next r silent w = elim (Option-cases (bearer_token r)) [
  | inl e ↦ rw (e, require_auth) refl
  | inr (raw, e) ↦ elim (Option-cases (parse raw)) [
    | inl e' ↦ rw (e, e', require_auth) refl
    | inr (subject, e') ↦ rw (e, e', require_auth) (silent subject w)
  ]
]

pub admin-IsSilent :
    (env : Env) (order : String → String → Bool) (parse : String → Option String)
    (next : String → Handler) (r : Request)
    → ((subject : String) → IsSilent (next subject))
    → IsSilent (admin env order parse next r)
admin-IsSilent env order parse next r silent w = elim (admin_guard env order parse next r w) [
  | inl (kept, away) ↦ ap (λ (v : World). v.outbox) kept
  | inr (raw, subject, sent, parsed, granted, run) ↦ rw run (silent subject w)
]
