-- ===== src/Http/Routes.antt =====
-- New of router.go: which handler answers a route, behind which guard.
pub mod Paths
pub mod Protection
use Prim.Native.Char.{Char}
use ecosystem_complete.Prelude.{
  String, Bool, true, false, not, ◌&&◌, Option, List, ℤ, if◌then◌else◌,
}
use ecosystem_complete.Database.{Time}
use ecosystem_complete.Runtime.{Env}
use ecosystem_complete.Security.Quota.{Quota}
use ecosystem_complete.Session
use ecosystem_complete.Session.Issuer.{Issuer}
use ecosystem_complete.Login
use ecosystem_complete.Social.{Verdict}
use ecosystem_complete.Http.{Request, Handler, CookieSettings, reply}
use ecosystem_complete.Http.Guards.{require_auth, admin}
use ecosystem_complete.Http.Sessions.{
  SignupRequest, VerifyRequest, LoginRequest, start_signup, verify_signup, login_user,
  refresh_session, logout_session,
}
use ecosystem_complete.Http.Accounts.{
  ResetRequest, ChangeRequest, EmailChangeRequest, SocialRequest, forgot_password, reset_password,
  change_password, request_email_change, verify_email_change, show_me, social_login,
}
use ecosystem_complete.Http.Admin.{
  UserQuery, InviteRequest, UpdateUserRequest, not_found, users, invite_user, reset_user_password,
  update_account, assign_account_roles,
}
use ecosystem_complete.Http.Lists.{EventQuery, show_roles, show_permissions, audit_events}

-- The routes that the mux knows, with what the path, the query and the body hold; no other is modelled
-- but the answer to an unknown one.
pub data Route : Type 0 where
  signup : Option SignupRequest → Route
  signup_verify : Option VerifyRequest → Route
  login : Option LoginRequest → Route
  refresh : Option String → Route
  logout : String → Route
  password_forgot : Option String → Route
  password_reset : Option ResetRequest → Route
  password_change : Option ChangeRequest → Route
  social : Option SocialRequest → Route
  email_change : Option EmailChangeRequest → Route
  email_change_verify : Option String → Route
  profile : Route
  admin_users : UserQuery → Route
  admin_update : String → Option UpdateUserRequest → Route
  admin_invite : Option InviteRequest → Route
  admin_password_reset : String → Route
  admin_roles : String → Option (Option (List String)) → Route
  admin_role_list : Route
  admin_permission_list : Route
  admin_events : EventQuery → Route
  unknown : Route

-- Which services New is given.
pub record Options : Type 0 where
  pub signup : Bool
  pub signup_verifier : Bool
  pub login : Bool
  pub rotator : Bool
  pub token_parser : Bool
  pub authorizer : Bool
  pub identity : Bool
  pub admin : Bool
  pub invitations : Bool
  pub password : Bool
  pub email_change : Bool
  pub social : Bool

-- The conditions under which New registers a route
unfoldable pub offers : Options → Route → Bool
offers o (Route.signup _) = o.signup
offers o (Route.signup_verify _) = o.signup_verifier
offers o (Route.login _) = o.login
offers o (Route.refresh _) = o.rotator
offers o (Route.logout _) = o.rotator
offers o (Route.password_forgot _) = o.password
offers o (Route.password_reset _) = o.password
offers o (Route.password_change _) = o.password && o.token_parser
offers o (Route.social _) = o.social
offers o (Route.email_change _) = o.email_change && o.token_parser
offers o (Route.email_change_verify _) = o.email_change && o.token_parser
offers o Route.profile = o.identity && o.token_parser
offers o (Route.admin_users _) = o.identity && o.token_parser && o.authorizer && o.admin
offers o (Route.admin_update _ _) = o.identity && o.token_parser && o.authorizer && o.admin
offers o (Route.admin_invite _) =
    o.identity && o.token_parser && o.authorizer && o.admin && o.invitations
offers o (Route.admin_password_reset _) =
    o.identity && o.token_parser && o.authorizer && o.admin && o.password
offers o (Route.admin_roles _ _) = o.identity && o.token_parser && o.authorizer && o.admin
offers o Route.admin_role_list = o.identity && o.token_parser && o.authorizer
offers o Route.admin_permission_list = o.identity && o.token_parser && o.authorizer
offers o (Route.admin_events _) = o.identity && o.token_parser && o.authorizer && o.admin
offers o Route.unknown = false

-- Who may call a route.
pub data Guard : Type 0 where
  open_to_all signed_in administrators : Guard

-- The wrapper that New puts around the handler of a route
unfoldable pub guard_of : Route → Guard
guard_of (Route.password_change _) = Guard.signed_in
guard_of (Route.email_change _) = Guard.signed_in
guard_of (Route.email_change_verify _) = Guard.signed_in
guard_of Route.profile = Guard.signed_in
guard_of (Route.admin_users _) = Guard.administrators
guard_of (Route.admin_update _ _) = Guard.administrators
guard_of (Route.admin_invite _) = Guard.administrators
guard_of (Route.admin_password_reset _) = Guard.administrators
guard_of (Route.admin_roles _ _) = Guard.administrators
guard_of Route.admin_role_list = Guard.administrators
guard_of Route.admin_permission_list = Guard.administrators
guard_of (Route.admin_events _) = Guard.administrators
guard_of _ = Guard.open_to_all

-- What the services are built from, and what the libraries decide.
pub record Services : Type 0 where
  pub issuer : Issuer
  pub sessions : Session.Config
  pub logins : Login.Config
  pub reset_quota : Quota
  pub change_quota : Quota
  pub reset_origin : String
  pub invitation_origin : String
  pub cookies : CookieSettings
  pub verifier : String → String → Verdict
  pub parse_token : String → Option String
  pub valid_address : String → Bool
  pub collation : String → String → Bool
  pub ilike : String → String → Bool
  pub atoi : String → ℤ
  pub rfc3339 : String → Option Time
  pub upper_other : Char → Char

module _ (env : Env) (s : Services) (r : Request) where
  -- The handlers of the admin routes, for the subject of the token
  unfoldable pub admin_handler : Route → String → Handler
  unfolding users update_account invite_user reset_user_password assign_account_roles show_roles
      show_permissions audit_events
  admin_handler (Route.admin_users q) user_id = users env s.collation s.ilike s.atoi q
  admin_handler (Route.admin_update target body) user_id =
      update_account env s.collation r target body user_id
  admin_handler (Route.admin_invite body) user_id =
      invite_user env s.collation env.lower_other s.valid_address s.invitation_origin body
  admin_handler (Route.admin_password_reset target) user_id =
      reset_user_password env s.collation s.reset_quota s.reset_origin target
  admin_handler (Route.admin_roles target body) user_id =
      assign_account_roles env s.collation r target body user_id
  admin_handler Route.admin_role_list user_id = show_roles env s.collation
  admin_handler Route.admin_permission_list user_id = show_permissions env s.collation
  admin_handler (Route.admin_events q) user_id = audit_events env s.atoi s.rfc3339 q
  admin_handler _ user_id = reply not_found

  -- The handlers of the routes behind RequireAuth alone
  unfoldable pub user_handler : Route → String → Handler
  unfolding change_password request_email_change verify_email_change show_me
  user_handler (Route.password_change body) = change_password env body
  user_handler (Route.email_change body) =
      request_email_change env s.change_quota s.valid_address body
  user_handler (Route.email_change_verify body) = verify_email_change env body
  user_handler Route.profile = show_me env s.collation
  user_handler _ = λ user_id. reply not_found

  -- The handlers of the routes without a guard
  unfoldable pub open_handler : Route → Handler
  unfolding start_signup verify_signup login_user refresh_session logout_session forgot_password
      reset_password social_login
  open_handler (Route.signup body) = start_signup env s.cookies r s.valid_address body
  open_handler (Route.signup_verify body) =
      verify_signup env s.cookies r s.issuer s.valid_address body
  open_handler (Route.login body) =
      login_user env s.cookies r s.issuer s.logins s.valid_address body
  open_handler (Route.refresh body) = refresh_session env s.cookies r s.sessions body
  open_handler (Route.logout body) = logout_session env s.cookies r body
  open_handler (Route.password_forgot body) =
      forgot_password env s.reset_quota s.reset_origin s.valid_address body
  open_handler (Route.password_reset body) = reset_password env s.valid_address body
  open_handler (Route.social body) =
      social_login env s.cookies r s.issuer s.verifier s.upper_other body
  open_handler _ = reply not_found

  -- The mux that New builds, with its guards
  unfoldable pub serve : Options → Route → Handler
  unfolding offers guard_of require_auth admin admin_handler user_handler open_handler
  serve o route = if not (offers o route) then reply not_found else elim (guard_of route) [
    | Guard.open_to_all ↦ open_handler route
    | Guard.signed_in ↦ require_auth s.parse_token (user_handler route) r
    | Guard.administrators ↦ admin env s.collation s.parse_token (admin_handler route) r
  ]
