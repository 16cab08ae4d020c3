-- ===== src/Tests/Commanded.antt =====
-- Examples for Commands, Session/Access and the lists.
use ecosystem_complete.Prelude.{
  ◌+◌, ◌-◌, ◌*◌, ◌^◌, ◌<◌, ◌≡◌, refl, ◌⊎◌, String, Bool, true, false, ◌&&◌, not, Option, none, some,
  List, [], ◌∷◌, ◌==◌, ℤ, leb_ℤ, pos, ◌+ℤ◌, arith, ltb, is_some, length, exists_where, find_where,
  count_where, if◌then◌else◌,
}
use ecosystem_complete.Prelude.Sort.{leb_text, get_elem?, contains}
use ecosystem_complete.Prelude.Ordered.{IsSorted}
use ecosystem_complete.Database.{User, before}
use ecosystem_complete.Runtime.{World, SecurityEvent}
use ecosystem_complete.Runtime.Exec.{ok}
use ecosystem_complete.Config as Configuration
use ecosystem_complete.Config.{Config, defaults}
use ecosystem_complete.Connections.{
  Context, Driver, Outcome, Pools, connect, default_connect_attempts,
}
use ecosystem_complete.Migrations.{Installation}
use ecosystem_complete.Audit.{event, to_row}
use ecosystem_complete.Session.{issue}
use ecosystem_complete.Session.Access.{
  Claims, Library, access_claims, numeric_date, accepted, invalid_token, parse, parse-issue,
}
use ecosystem_complete.Login.{by_email}
use ecosystem_complete.Identity.{Error}
use ecosystem_complete.Identity.Pages.{Page, normalize_paging}
use ecosystem_complete.Identity.Events.{
  AuditFilter, is_selected, log_rows, list_audit_events, list_audit_events_page,
}
use ecosystem_complete.Identity.Catalogues.{Role, roles, lists, shows, roles-shows}
use ecosystem_complete.Identity.Capabilities.{holds}
use ecosystem_complete.Identity.Admin.{resolve_roles, store_roles}
use ecosystem_complete.Identity.RoleChanges.{grants_by_id}
use ecosystem_complete.Http.{Request}
use ecosystem_complete.Http.Guards.{bearer_token, unauthorized}
use ecosystem_complete.Http.Routes.{Route, offers, serve, user_handler}
use ecosystem_complete.Http.Routes.Paths.{is_personal}
use ecosystem_complete.Commands.{Libraries, options_of, services_of, session_config}
use ecosystem_complete.Commands.Access.{serve-issue}
use ecosystem_complete.Commands.Silence.{serve_silent}
use ecosystem_complete.Commands.Start.{Served, run_api, is_served, HasServed, run_api_lem}
use ecosystem_complete.Commands.Bootstrap.{bootstrap, wanted_email, wanted_role, bootstrap_ok}
use ecosystem_complete.Tests.{env, config, meta, tokens, world}
use ecosystem_complete.Tests.Roles.{staffed}
use ecosystem_complete.Tests.Replies.{from_panel}
use ecosystem_complete.Tests.Settings.{settings, environment}
use ecosystem_complete.Tests.Startups.{server, files, empty}

-- A library that knows one token.
abbrev library : Claims → Library
library claims keys methods now raw =
    if (raw == "jwt")
      && contains methods "HS256"
      && is_some (keys "HS256")
      && before now claims.expires_at
    then some (claims, true)
    else none

reads_back :
    (claims : Claims) (keys : String → Option String) (methods : List String) (now : ℤ)
    → keys "HS256" ≡ some "secret"
    → contains methods "HS256" ≡ true
    → library claims keys methods now "jwt"
      ≡ (if before now claims.expires_at then some (claims, true) else none)
reads_back claims keys methods now e m = ground (arith, e, m)

issued : issue env config "u1" meta world ≡ (ok tokens, (issue env config "u1" meta world).1)
unfolding issue exists_where
issued = refl

parse-issue_example :
    parse (library (access_claims env config "u1")) "secret" (pos 5) tokens.access_token ≡ (
      if before (pos 5) (numeric_date (env.now +ℤ config.access_ttl))
      then accepted (access_claims env config "u1")
      else invalid_token)
parse-issue_example =
    parse-issue env config "u1" meta world (library (access_claims env config "u1")) tokens
      (issue env config "u1" meta world).1 (pos 5) (reads_back (access_claims env config "u1"))
      issued

abbrev seen : World
seen = record staffed {
  events =
      to_row env (event "auth.login.failed")
      ∷ record (to_row env (event "auth.login.failed")) { created_at = pos 2_000 }
      ∷ to_row env (event "auth.social.login")
      ∷ [];
}

abbrev failed_logins : AuditFilter
failed_logins = record {
  page = pos 1;
  limit = pos 10;
  event = "auth.login.failed";
  user_id = "";
  email_hash = "";
  from = none;
  until = some (pos 3_000);
}

first_page :
    (normalize_paging failed_logins.page failed_logins.limit).0
      * (normalize_paging failed_logins.page failed_logins.limit).1
    < 2 ^ 63
unfolding normalize_paging
first_page = omega arith

abbrev is_late : SecurityEvent → Bool
is_late e = before (pos 1_500) e.created_at

list_audit_events_page_example :
    let (p, l) = normalize_paging failed_logins.page failed_logins.limit in
    let rows = log_rows env.scan_events failed_logins seen.events in
    ((found : Page SecurityEvent) × (list_audit_events env failed_logins seen ≡ (ok found, seen))
      × (get_elem? found.rows 1 ≡ (if ltb 1 l then get_elem? rows ((p - 1) * l + 1) else none))
      × (found.total ≡ count_where (is_selected failed_logins) seen.events))
    × IsSorted (λ a b. leb_ℤ b.created_at a.created_at) rows
    × (count_where is_late rows
        ≡ count_where (λ e. is_selected failed_logins e && is_late e) seen.events)
list_audit_events_page_example =
    list_audit_events_page env failed_logins seen 1 is_late (λ q rows. refl) refl refl first_page

roles-shows_example :
    (found : List Role) × (roles leb_text {E = Error} env staffed ≡ (ok found, staffed))
    × (exists_where (lists "r1" "admin.access") found
        ≡ exists_where
            (λ r. not (is_some r.deleted_at) && (r.id == "r1") && shows staffed.db "admin.access" r)
            staffed.db.roles)
roles-shows_example = roles-shows leb_text env staffed "r1" "admin.access" refl

abbrev api : Config
api = record settings { jwt_secret = "secret"; rabbitmq_url = "amqp://" }

abbrev libraries : Libraries
libraries = record {
  claims_of = λ provider id_token. none;
  jwt = library (access_claims env (session_config api) "u1");
  valid_address = λ s. true;
  collation = leb_text;
  ilike = λ s t. s == t;
  atoi = λ s. pos 0;
  rfc3339 = λ s. none;
  upper_other = λ c. c;
}

abbrev bearer : Request
bearer = record from_panel { authorization = "Bearer jwt" }

no_broker : settings.rabbitmq_url ≡ ""
unfolding defaults
no_broker = refl

serve_silent_example :
    (serve env
      (services_of env settings libraries)
      bearer
      (options_of settings)
      (Route.password_forgot (some "a@x.com"))
      staffed).1.outbox
    ≡ staffed.outbox
serve_silent_example =
    serve_silent env settings libraries bearer (Route.password_forgot (some "a@x.com")) staffed
      no_broker

sign_in : issue env (session_config api) "u1" meta world ≡ (
  ok (record tokens { expires_in = pos 300; refresh_expires_in = pos 2_592_000 }),
  (issue env (session_config api) "u1" meta world).1,
)
unfolding issue exists_where defaults
sign_in = refl

bears : bearer_token bearer ≡ some "jwt"
unfolding bearer_token
bears = refl

personal : is_personal Route.profile ≡ true
unfolding is_personal
personal = refl

offered : offers (options_of api) Route.profile ≡ true
unfolding offers options_of
offered = refl

serve-issue_example :
    serve env (services_of env api libraries) bearer (options_of api) Route.profile staffed ≡ (
      if before env.now (numeric_date (env.now +ℤ api.access_token_ttl))
      then user_handler env (services_of env api libraries) bearer Route.profile "u1" staffed
      else (unauthorized, staffed))
serve-issue_example =
    serve-issue env env api libraries "u1" meta world
      (issue env (session_config api) "u1" meta world).1 staffed
      (record tokens { expires_in = pos 300; refresh_expires_in = pos 2_592_000 }) bearer
      Route.profile (reads_back (access_claims env (session_config api) "u1")) sign_in bears
      personal offered

abbrev serving : Config → Installation (List String) → Served × Installation (List String)
serving cfg i = (Served.stopped, i)

abbrev context : Context (Installation (List String))
context = record { is_done = λ i. false; wait = λ d i. (false, i) }

abbrev driver : Driver (Installation (List String))
driver = record { create = λ i. (true, i); ping = λ i. (true, i) }

abbrev outside : Pools (Installation (List String))
outside = record { state = empty; opened = 0 }

run_api_lem_example :
    let r =
      run_api server (some files) serving context driver (Configuration.ok settings) outside in
    (r.1.opened ≡ outside.opened)
    × ((is_served r.0 ≡ false)
        ⊎ ((cfg : Config) × (i : Installation (List String)) × (Configuration.ok settings
              ≡ Configuration.ok cfg)
            × ((connect context driver (pos default_connect_attempts) outside).outcome
                ≡ Outcome.done)
            × HasServed server files serving context driver cfg i r))
run_api_lem_example =
    run_api_lem server files serving context driver (Configuration.ok settings) outside

abbrev variables : String → String
variables key =
    if key == "EMAIL" then " c@x.com " else if key == "ROLE" then "ADMIN" else environment key

grants_role :
    bootstrap env variables staffed ≡ (ok ("ADMIN" ∷ []), (bootstrap env variables staffed).1)
unfolding bootstrap store_roles find_where exists_where
grants_role = refl

bootstrap_ok_example :
    (u : User) × (by_email (wanted_email env variables) staffed.db ≡ some u)
    × (length (resolve_roles (wanted_role env variables ∷ []) staffed.db) ≡ 1)
    × (holds "u2" "admin.access" (bootstrap env variables staffed).1.db ≡ (
        if "u2" == u.id
        then exists_where
            (λ r. grants_by_id staffed.db "admin.access" r.id)
            (resolve_roles (wanted_role env variables ∷ []) staffed.db)
        else holds "u2" "admin.access" staffed.db))
bootstrap_ok_example =
    bootstrap_ok env variables staffed ("ADMIN" ∷ []) (bootstrap env variables staffed).1 "u2"
      "admin.access" grants_role
