-- ===== src/Tests/Protected.antt =====
-- Examples for Http/Routes.
use ecosystem_complete.Prelude.{
  ◌≡◌, refl, ◌⊎◌, String, true, false, some, none, [], ◌∷◌, List, ◌==◌, pos,
}
use ecosystem_complete.Prelude.Sort.{leb_text}
use ecosystem_complete.Http.Guards.{IsTurnedAway, bearer_token, unauthorized}
use ecosystem_complete.Http.Admin.{not_found}
use ecosystem_complete.Http.Routes.{
  Route, Options, Services, offers, serve, admin_handler, user_handler,
}
use ecosystem_complete.Http.Routes.Paths.{is_administration, is_personal}
use ecosystem_complete.Http.Routes.Protection.{serve_administrators, serve-signed_in}
use ecosystem_complete.Identity.Capabilities.{holds}
use ecosystem_complete.Social.{Verdict}
use ecosystem_complete.Tests.{env, config, issuer, login_config, quota}
use ecosystem_complete.Tests.Roles.{staffed}
use ecosystem_complete.Tests.Replies.{settings, from_panel}

abbrev services : Services
services = record {
  issuer = issuer;
  sessions = config;
  logins = login_config;
  reset_quota = quota;
  change_quota = quota;
  reset_origin = "https://panel";
  invitation_origin = "https://panel";
  cookies = settings;
  verifier = λ provider id_token. Verdict.rejects;
  parse_token = λ raw. some raw;
  valid_address = λ s. true;
  collation = leb_text;
  ilike = λ s t. s == t;
  atoi = λ s. pos 0;
  rfc3339 = λ s. none;
  upper_other = λ c. c;
}

abbrev everything : Options
everything = record {
  signup = true;
  signup_verifier = true;
  login = true;
  rotator = true;
  token_parser = true;
  authorizer = true;
  identity = true;
  admin = true;
  invitations = true;
  password = true;
  email_change = true;
  social = true;
}

abbrev promotion : Route
promotion = Route.admin_roles "u2" (some (some ("ADMIN" ∷ [])))

guarded_promotion : is_administration promotion ≡ true
unfolding is_administration
guarded_promotion = refl

guarded_profile : is_personal Route.profile ≡ true
unfolding is_personal
guarded_profile = refl

serve_administrators_example :
    ((offers everything promotion ≡ false)
      × (serve env services from_panel everything promotion staffed ≡ (not_found, staffed)))
    ⊎ IsTurnedAway env leb_text
        (admin_handler env services from_panel promotion)
        staffed
        (serve env services from_panel everything promotion staffed)
    ⊎ ((raw : String) × (subject : String) × (bearer_token from_panel ≡ some raw)
        × (some raw ≡ some subject)
        × (holds subject "admin.access" staffed.db ≡ true)
        × (serve env services from_panel everything promotion staffed
            ≡ admin_handler env services from_panel promotion subject staffed))
serve_administrators_example =
    serve_administrators env services from_panel everything promotion staffed guarded_promotion

serve-signed_in_example :
    ((offers everything Route.profile ≡ false)
      × (serve env services from_panel everything Route.profile staffed ≡ (not_found, staffed)))
    ⊎ (serve env services from_panel everything Route.profile staffed ≡ (unauthorized, staffed))
    ⊎ ((raw : String) × (subject : String) × (bearer_token from_panel ≡ some raw)
        × (some raw ≡ some subject)
        × ((subject == "") ≡ false)
        × (serve env services from_panel everything Route.profile staffed
            ≡ user_handler env services from_panel Route.profile subject staffed))
serve-signed_in_example =
    serve-signed_in env services from_panel everything Route.profile staffed guarded_profile

abbrev panel : List String
panel = " https://panel " ∷ []
