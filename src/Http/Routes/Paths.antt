-- ===== src/Http/Routes/Paths.antt =====
-- The paths that New of router.go registers, and what api/openapi.yaml asks of a request to them.
use Prim.Native.Char.{code}
use Prim.Native.String.{[] as nil, ◌∷◌ as cons}
use ecosystem_complete.Prelude.{
  ◌≡◌, refl, String, Bool, true, false, ◌&&◌, List, [], ◌∷◌, eqb, exists_where,
}
use ecosystem_complete.Prelude.Sort.{contains}
use ecosystem_complete.Http.Routes.{Route, Guard, guard_of}

-- The path of the pattern that a route is registered under
unfoldable pub path_of : Route → String
path_of (Route.signup _) = "/v1/auth/signup"
path_of (Route.signup_verify _) = "/v1/auth/signup/verify"
path_of (Route.login _) = "/v1/auth/login"
path_of (Route.refresh _) = "/v1/auth/refresh"
path_of (Route.logout _) = "/v1/auth/logout"
path_of (Route.password_forgot _) = "/v1/auth/password/forgot"
path_of (Route.password_reset _) = "/v1/auth/password/reset"
path_of (Route.password_change _) = "/v1/auth/password/change"
path_of (Route.social _) = "/v1/auth/social"
path_of (Route.email_change _) = "/v1/auth/email/change"
path_of (Route.email_change_verify _) = "/v1/auth/email/change/verify"
path_of Route.profile = "/v1/me"
path_of (Route.admin_users _) = "/v1/admin/users"
path_of (Route.admin_update _ _) = "/v1/admin/users/{userId}"
path_of (Route.admin_invite _) = "/v1/admin/users/invitations"
path_of (Route.admin_password_reset _) = "/v1/admin/users/{userId}/password-reset"
path_of (Route.admin_roles _ _) = "/v1/admin/users/{userId}/roles"
path_of Route.admin_role_list = "/v1/admin/roles"
path_of Route.admin_permission_list = "/v1/admin/permissions"
path_of (Route.admin_events _) = "/v1/admin/audit-events"
path_of Route.unknown = "/"

unfoldable pub has_prefix : String → String → Bool
has_prefix nil s = true
has_prefix (cons a prefix) nil = false
has_prefix (cons a prefix) (cons c s) = eqb (code a) (code c) && has_prefix prefix s

-- The administration is everything under one path.
unfoldable pub is_administration : Route → Bool
unfolding has_prefix path_of
is_administration route = has_prefix "/v1/admin/" (path_of route)

-- The other paths for which api/openapi.yaml asks for a bearer token.
abbrev personal_paths : List String
personal_paths =
    "/v1/me" ∷ "/v1/auth/password/change" ∷ "/v1/auth/email/change" ∷ "/v1/auth/email/change/verify"
    ∷ []

unfoldable pub is_personal : Route → Bool
unfolding contains exists_where path_of
is_personal route = contains personal_paths (path_of route)

pub administration-guarded :
    (route : Route) → is_administration route ≡ true → guard_of route ≡ Guard.administrators
unfolding is_administration guard_of
administration-guarded (Route.signup _) h = cc
administration-guarded (Route.signup_verify _) h = cc
administration-guarded (Route.login _) h = cc
administration-guarded (Route.refresh _) h = cc
administration-guarded (Route.logout _) h = cc
administration-guarded (Route.password_forgot _) h = cc
administration-guarded (Route.password_reset _) h = cc
administration-guarded (Route.password_change _) h = cc
administration-guarded (Route.social _) h = cc
administration-guarded (Route.email_change _) h = cc
administration-guarded (Route.email_change_verify _) h = cc
administration-guarded Route.profile h = cc
administration-guarded (Route.admin_users _) h = refl
administration-guarded (Route.admin_update _ _) h = refl
administration-guarded (Route.admin_invite _) h = refl
administration-guarded (Route.admin_password_reset _) h = refl
administration-guarded (Route.admin_roles _ _) h = refl
administration-guarded Route.admin_role_list h = refl
administration-guarded Route.admin_permission_list h = refl
administration-guarded (Route.admin_events _) h = refl
administration-guarded Route.unknown h = cc

pub personal-guarded : (route : Route) → is_personal route ≡ true → guard_of route ≡ Guard.signed_in
unfolding is_personal guard_of
personal-guarded (Route.signup _) h = cc
personal-guarded (Route.signup_verify _) h = cc
personal-guarded (Route.login _) h = cc
personal-guarded (Route.refresh _) h = cc
personal-guarded (Route.logout _) h = cc
personal-guarded (Route.password_forgot _) h = cc
personal-guarded (Route.password_reset _) h = cc
personal-guarded (Route.password_change _) h = refl
personal-guarded (Route.social _) h = cc
personal-guarded (Route.email_change _) h = refl
personal-guarded (Route.email_change_verify _) h = refl
personal-guarded Route.profile h = refl
personal-guarded (Route.admin_users _) h = cc
personal-guarded (Route.admin_update _ _) h = cc
personal-guarded (Route.admin_invite _) h = cc
personal-guarded (Route.admin_password_reset _) h = cc
personal-guarded (Route.admin_roles _ _) h = cc
personal-guarded Route.admin_role_list h = cc
personal-guarded Route.admin_permission_list h = cc
personal-guarded (Route.admin_events _) h = cc
personal-guarded Route.unknown h = cc
