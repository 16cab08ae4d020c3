-- ===== src/Commands/Silence.antt =====
-- What the API mails without a broker: nothing.
use ecosystem_complete.Prelude.{◌≡◌, String, arith, refl, inl, inr, true, false, Bool-cases}
use ecosystem_complete.Runtime.{Env, World}
use ecosystem_complete.Config.{Config}
use ecosystem_complete.Http.Routes.{
  Route, Guard, Services, guard_of, offers, serve, open_handler, user_handler, admin_handler,
}
use ecosystem_complete.Commands.{Libraries, has_broker, options_of, services_of}
use ecosystem_complete.Http.{Request}
use ecosystem_complete.Http.Silence.{
  IsSilent, verify_signup-IsSilent, login_user-IsSilent, refresh_session-IsSilent,
  logout_session-IsSilent, social_login-IsSilent, show_me-IsSilent, users-IsSilent,
  update_account-IsSilent, assign_account_roles-IsSilent, show_roles-IsSilent,
  show_permissions-IsSilent, audit_events-IsSilent, require_auth-IsSilent, admin-IsSilent,
}

module _ (env : Env) (cfg : Config) (s : Services) (r : Request) where
  open_handler-IsSilent :
      (route : Route)
      → has_broker cfg ≡ false
      → offers (options_of cfg) route ≡ true
      → IsSilent (open_handler env s r route)
  unfolding open_handler offers options_of
  open_handler-IsSilent (Route.signup b) absent offered w = ground arith
  open_handler-IsSilent (Route.signup_verify b) absent offered w =
      verify_signup-IsSilent env s.cookies r s.issuer s.valid_address b w
  open_handler-IsSilent (Route.login b) absent offered w =
      login_user-IsSilent env s.cookies r s.issuer s.logins s.valid_address b w
  open_handler-IsSilent (Route.refresh b) absent offered w =
      refresh_session-IsSilent env s.cookies r s.sessions b w
  open_handler-IsSilent (Route.logout b) absent offered w =
      logout_session-IsSilent env s.cookies r b w
  open_handler-IsSilent (Route.password_forgot b) absent offered w = ground arith
  open_handler-IsSilent (Route.password_reset b) absent offered w = ground arith
  open_handler-IsSilent (Route.password_change b) absent offered w = refl
  open_handler-IsSilent (Route.social b) absent offered w =
      social_login-IsSilent env s.cookies r s.issuer s.verifier s.upper_other b w
  open_handler-IsSilent (Route.email_change b) absent offered w = refl
  open_handler-IsSilent (Route.email_change_verify b) absent offered w = refl
  open_handler-IsSilent Route.profile absent offered w = refl
  open_handler-IsSilent (Route.admin_users q) absent offered w = refl
  open_handler-IsSilent (Route.admin_update t b) absent offered w = refl
  open_handler-IsSilent (Route.admin_invite b) absent offered w = refl
  open_handler-IsSilent (Route.admin_password_reset t) absent offered w = refl
  open_handler-IsSilent (Route.admin_roles t b) absent offered w = refl
  open_handler-IsSilent Route.admin_role_list absent offered w = refl
  open_handler-IsSilent Route.admin_permission_list absent offered w = refl
  open_handler-IsSilent (Route.admin_events q) absent offered w = refl
  open_handler-IsSilent Route.unknown absent offered w = refl

  user_handler-IsSilent :
      (route : Route)
      → has_broker cfg ≡ false
      → offers (options_of cfg) route ≡ true
      → (user_id : String) → IsSilent (user_handler env s r route user_id)
  unfolding user_handler offers options_of
  user_handler-IsSilent (Route.signup b) absent offered user_id w = refl
  user_handler-IsSilent (Route.signup_verify b) absent offered user_id w = refl
  user_handler-IsSilent (Route.login b) absent offered user_id w = refl
  user_handler-IsSilent (Route.refresh b) absent offered user_id w = refl
  user_handler-IsSilent (Route.logout b) absent offered user_id w = refl
  user_handler-IsSilent (Route.password_forgot b) absent offered user_id w = refl
  user_handler-IsSilent (Route.password_reset b) absent offered user_id w = refl
  user_handler-IsSilent (Route.password_change b) absent offered user_id w = ground arith
  user_handler-IsSilent (Route.social b) absent offered user_id w = refl
  user_handler-IsSilent (Route.email_change b) absent offered user_id w = ground arith
  user_handler-IsSilent (Route.email_change_verify b) absent offered user_id w = ground arith
  user_handler-IsSilent Route.profile absent offered user_id w =
      show_me-IsSilent env s.collation user_id w
  user_handler-IsSilent (Route.admin_users q) absent offered user_id w = refl
  user_handler-IsSilent (Route.admin_update t b) absent offered user_id w = refl
  user_handler-IsSilent (Route.admin_invite b) absent offered user_id w = refl
  user_handler-IsSilent (Route.admin_password_reset t) absent offered user_id w = refl
  user_handler-IsSilent (Route.admin_roles t b) absent offered user_id w = refl
  user_handler-IsSilent Route.admin_role_list absent offered user_id w = refl
  user_handler-IsSilent Route.admin_permission_list absent offered user_id w = refl
  user_handler-IsSilent (Route.admin_events q) absent offered user_id w = refl
  user_handler-IsSilent Route.unknown absent offered user_id w = refl

  admin_handler-IsSilent :
      (route : Route)
      → has_broker cfg ≡ false
      → offers (options_of cfg) route ≡ true
      → (user_id : String) → IsSilent (admin_handler env s r route user_id)
  unfolding admin_handler offers options_of
  admin_handler-IsSilent (Route.signup b) absent offered user_id w = refl
  admin_handler-IsSilent (Route.signup_verify b) absent offered user_id w = refl
  admin_handler-IsSilent (Route.login b) absent offered user_id w = refl
  admin_handler-IsSilent (Route.refresh b) absent offered user_id w = refl
  admin_handler-IsSilent (Route.logout b) absent offered user_id w = refl
  admin_handler-IsSilent (Route.password_forgot b) absent offered user_id w = refl
  admin_handler-IsSilent (Route.password_reset b) absent offered user_id w = refl
  admin_handler-IsSilent (Route.password_change b) absent offered user_id w = refl
  admin_handler-IsSilent (Route.social b) absent offered user_id w = refl
  admin_handler-IsSilent (Route.email_change b) absent offered user_id w = refl
  admin_handler-IsSilent (Route.email_change_verify b) absent offered user_id w = refl
  admin_handler-IsSilent Route.profile absent offered user_id w = refl
  admin_handler-IsSilent (Route.admin_users q) absent offered user_id w =
      users-IsSilent env s.collation s.ilike s.atoi q w
  admin_handler-IsSilent (Route.admin_update t b) absent offered user_id w =
      update_account-IsSilent env s.collation r t b user_id w
  admin_handler-IsSilent (Route.admin_invite b) absent offered user_id w = ground arith
  admin_handler-IsSilent (Route.admin_password_reset t) absent offered user_id w = ground arith
  admin_handler-IsSilent (Route.admin_roles t b) absent offered user_id w =
      assign_account_roles-IsSilent env s.collation r t b user_id w
  admin_handler-IsSilent Route.admin_role_list absent offered user_id w =
      show_roles-IsSilent env s.collation w
  admin_handler-IsSilent Route.admin_permission_list absent offered user_id w =
      show_permissions-IsSilent env s.collation w
  admin_handler-IsSilent (Route.admin_events q) absent offered user_id w =
      audit_events-IsSilent env s.atoi s.rfc3339 q w
  admin_handler-IsSilent Route.unknown absent offered user_id w = refl

  guarded-IsSilent :
      (route : Route)
      → has_broker cfg ≡ false
      → offers (options_of cfg) route ≡ true
      → (g : Guard) → guard_of route ≡ g
      → IsSilent (serve env s r (options_of cfg) route)
  unfolding serve
  guarded-IsSilent route absent offered Guard.open_to_all e w =
      rw (offered, e, serve) (open_handler-IsSilent route absent offered w)
  guarded-IsSilent route absent offered Guard.signed_in e w =
      rw (offered, e, serve)
        (require_auth-IsSilent s.parse_token (user_handler env s r route) r
          (user_handler-IsSilent route absent offered) w)
  guarded-IsSilent route absent offered Guard.administrators e w =
      rw (offered, e, serve)
        (admin-IsSilent env s.collation s.parse_token (admin_handler env s r route) r
          (admin_handler-IsSilent route absent offered) w)

-- Without RABBITMQ_URL no request puts a mail on the queue, whatever route it asks for, whatever it
-- holds, and whatever calls fail.
pub serve_silent :
    (env : Env) (cfg : Config) (lib : Libraries) (r : Request) (route : Route) (w : World)
    → cfg.rabbitmq_url ≡ ""
    → (serve env (services_of env cfg lib) r (options_of cfg) route w).1.outbox ≡ w.outbox
unfolding serve
serve_silent env cfg lib r route w unset =
    let absent : has_broker cfg ≡ false = rw unset refl in
    elim (Bool-cases (offers (options_of cfg) route)) [
      | inl e ↦
          guarded-IsSilent env cfg (services_of env cfg lib) r route absent e (guard_of route) refl
            w
      | inr e ↦ rw (e, serve) refl
    ]
