-- ===== src/Identity/Events.antt =====
-- ListAuditEvents of admin_postgres.go, and AuditEvents of admin.go.
use ecosystem_complete.Prelude.{
  ℕ, ◌+◌, ◌-◌, ◌*◌, ◌^◌, ◌<◌, ◌≡◌, ◌∙◌, arith, String, Bool, true, false, ◌&&◌, ◌||◌, Option, none,
  some, List, ℤ, ◌==◌, ltb, leb_ℤ, count_where, if◌then◌else◌,
}
use ecosystem_complete.Prelude.Sort.{select_where, sort_by, get_elem?}
use ecosystem_complete.Prelude.Ordered.{
  IsSorted, KeepsRows, sort_by-IsSorted, count-sort_by, count-select,
}
use ecosystem_complete.Database.{Time, holds_text}
use ecosystem_complete.Runtime.{Env, Call, World, SecurityEvent}
use ecosystem_complete.Runtime.Exec.{Exec, ok}
use ecosystem_complete.Identity.{Error}
use ecosystem_complete.Identity.Pages.{Page, normalize_paging, list_page, list_page_lem}

pub record AuditFilter : Type 0 where
  pub page : ℤ
  pub limit : ℤ
  pub event : String
  pub user_id : String
  pub email_hash : String
  pub from : Option Time
  pub until : Option Time

-- where; a user id that is no UUID is one of the failures of a call.
unfoldable pub is_selected : AuditFilter → SecurityEvent → Bool
is_selected filter e =
    ((filter.event == "") || (e.event == filter.event))
    && ((filter.user_id == "") || holds_text e.user_id filter.user_id)
    && (elim filter.from [ none ↦ true | some t ↦ leb_ℤ t e.created_at ])
    && (elim filter.until [ none ↦ true | some t ↦ leb_ℤ e.created_at t ])
    && ((filter.email_hash == "") || holds_text e.email_hash filter.email_hash)

-- ORDER BY dt_created_at DESC
abbrev pub newest_first : SecurityEvent → SecurityEvent → Bool
newest_first a b = leb_ℤ b.created_at a.created_at

-- The rows of the second SELECT before LIMIT and OFFSET, newest first; `scan` decides between equals.
unfoldable pub log_rows :
    (List SecurityEvent → List SecurityEvent)
    → AuditFilter
    → List SecurityEvent
    → List SecurityEvent
unfolding select_where sort_by is_selected
log_rows scan filter events =
    sort_by newest_first (select_where (is_selected filter) (λ e. e) (scan events))

-- Service.AuditEvents and PostgresStore.ListAuditEvents
unfoldable pub list_audit_events : Env → AuditFilter → Exec Error (Page SecurityEvent)
unfolding list_page log_rows
list_audit_events env filter =
    list_page env Call.count_events Call.select_events filter.page filter.limit
      (λ w. count_where (is_selected filter) w.events)
      (λ w. log_rows env.scan_events filter w.events)

log_rows_lem :
    (scan : List SecurityEvent → List SecurityEvent) (filter : AuditFilter)
    (events : List SecurityEvent) (q : SecurityEvent → Bool)
    → KeepsRows scan
    → IsSorted newest_first (log_rows scan filter events)
      × (count_where q (log_rows scan filter events)
          ≡ count_where (λ e. is_selected filter e && q e) events)
unfolding log_rows
log_rows_lem scan filter events q keeps =
    let selected = select_where (is_selected filter) (λ e. e) (scan events) in
    (
      sort_by-IsSorted newest_first selected (λ a b. ground arith),
      count-sort_by q newest_first selected
          ∙ count-select q (is_selected filter) (scan events)
          ∙ keeps (λ e. is_selected filter e && q e) events,
    )

-- While both calls succeed and the page does not lie beyond 2^63 rows, the ith row of a page of the
-- security log is row (page - 1) * limit + i of a list, for i below the limit, and none from there on.
-- The list is in order, the newest first, and has every event that passes the filter as often as it was
-- recorded, and no other: it has as many rows that meet any condition q as the log has events that pass
-- the filter and meet q, whatever the order in which the database meets equal times, which two requests
-- need not share. The total counts the events that pass the filter.
pub list_audit_events_page :
    (env : Env) (filter : AuditFilter) (w : World) (i : ℕ) (q : SecurityEvent → Bool)
    → KeepsRows env.scan_events
    → env.fails Call.count_events ≡ false
    → env.fails Call.select_events ≡ false
    → (normalize_paging filter.page filter.limit).0 * (normalize_paging filter.page filter.limit).1
      < 2 ^ 63
    → let (p, l) = normalize_paging filter.page filter.limit in
      let rows = log_rows env.scan_events filter w.events in
      ((found : Page SecurityEvent) × (list_audit_events env filter w ≡ (ok found, w))
        × (get_elem? found.rows i ≡ (if ltb i l then get_elem? rows ((p - 1) * l + i) else none))
        × (found.total ≡ count_where (is_selected filter) w.events))
      × IsSorted (λ a b. leb_ℤ b.created_at a.created_at) rows
      × (count_where q rows ≡ count_where (λ e. is_selected filter e && q e) w.events)
unfolding list_audit_events
list_audit_events_page env filter w i q keeps counted selected small =
    let (sorted, same) = log_rows_lem env.scan_events filter w.events q keeps in
    (
      list_page_lem env Call.count_events Call.select_events filter.page filter.limit
          (λ v. count_where (is_selected filter) v.events)
          (λ v. log_rows env.scan_events filter v.events) w i counted selected small,
      sorted,
      same,
    )
