-- ===== src/Http/Lists.antt =====
-- The handlers that only read: roles and permissions of identity.go, auditEvents of admin.go. The parser
-- of RFC 3339 is a parameter, none for its errors.
use ecosystem_complete.Prelude.{
  String, Bool, true, false, ℤ, pos, Option, none, some, [], ◌∷◌, ◌==◌, if◌then◌else◌,
}
use ecosystem_complete.Prelude.Text.{trim_space}
use ecosystem_complete.Database.{Time}
use ecosystem_complete.Runtime.{Env}
use ecosystem_complete.Runtime.Exec.{Result, ok}
use ecosystem_complete.Identity
use ecosystem_complete.Identity.Pages.{normalize_paging}
use ecosystem_complete.Identity.Catalogues.{roles, permissions}
use ecosystem_complete.Identity.Events.{AuditFilter, list_audit_events}
use ecosystem_complete.Http.{
  Reply, Handler, Body, answer, reply, write_validation_error, internal_error, roles_body,
  permissions_body, events_body,
}

-- The query string of the audit list
pub record EventQuery : Type 0 where
  pub page : String
  pub limit : String
  pub event : String
  pub user_id : String
  pub email_hash : String
  pub from : String
  pub until : String

-- The answer of a list
abbrev list_reply : {A : Type 0} → (A → Body) → Result Identity.Error A → Reply
list_reply body (ok found) = record (answer 200) { body = body found }
list_reply body _ = internal_error

-- A bound of auditEvents: absent, an instant, or invalid
pub data Bound : Type 0 where
  unset invalid : Bound
  instant : Time → Bound

unfoldable pub read_bound : (String → Option Time) → String → Bound
unfolding trim_space
read_bound rfc3339 raw =
    if trim_space raw == ""
    then unset
    else elim (rfc3339 (trim_space raw)) [ none ↦ invalid | some t ↦ instant t ]

abbrev is_invalid : Bound → Bool
is_invalid invalid = true
is_invalid _ = false

abbrev bound_of : Bound → Option Time
bound_of (instant t) = some t
bound_of _ = none

module _ (env : Env) (order : String → String → Bool) where
  -- identityHandlers.roles
  unfoldable pub show_roles : Handler
  unfolding roles
  show_roles w =
      let (found, w') = roles order {E = Identity.Error} env w in (list_reply roles_body found, w')

  -- identityHandlers.permissions
  unfoldable pub show_permissions : Handler
  unfolding permissions
  show_permissions w =
      let (found, w') = permissions order {E = Identity.Error} env w in
      (list_reply permissions_body found, w')

module _ (env : Env) (atoi : String → ℤ) (rfc3339 : String → Option Time) where
  -- The filter of auditEvents
  unfoldable pub audit_filter : EventQuery → Option Time → Option Time → AuditFilter
  unfolding normalize_paging trim_space
  audit_filter q from until =
      let (page, limit) = normalize_paging (atoi q.page) (atoi q.limit) in
      record {
        page = pos page;
        limit = pos limit;
        event = trim_space q.event;
        user_id = trim_space q.user_id;
        email_hash = trim_space q.email_hash;
        from = from;
        until = until;
      }

  unfoldable pub show_events : AuditFilter → Handler
  unfolding list_audit_events
  show_events filter w =
      let (found, w') = list_audit_events env filter w in (list_reply events_body found, w')

  -- adminHandlers.auditEvents
  unfoldable pub audit_events : EventQuery → Handler
  unfolding read_bound audit_filter show_events
  audit_events q =
      let from = read_bound rfc3339 q.from in
      let until = read_bound rfc3339 q.until in
      if is_invalid from
      then reply (write_validation_error (("from", "invalid") ∷ []))
      else if is_invalid until
      then reply (write_validation_error (("to", "invalid") ∷ []))
      else show_events (audit_filter q (bound_of from) (bound_of until))
