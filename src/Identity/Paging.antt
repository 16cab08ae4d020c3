-- ===== src/Identity/Paging.antt =====
-- ListUsers of admin_postgres.go.
use ecosystem_complete.Prelude.{
  ℕ, ◌+◌, ◌-◌, ◌*◌, ◌^◌, ◌<◌, ◌≡◌, ◌∙◌, arith, String, Bool, true, false, ◌&&◌, ◌||◌, not, none,
  some, List, map, ℤ, ◌==◌, ltb, leb_ℤ, is_some, count_where, exists_where, if◌then◌else◌,
}
use ecosystem_complete.Prelude.Sort.{select_where, sort_by, get_elem?}
use ecosystem_complete.Prelude.Ordered.{
  IsSorted, KeepsRows, map-IsSorted, count-map, sort_by-IsSorted, count-sort_by, count-select,
}
use ecosystem_complete.Database.{Db, User, or_empty}
use ecosystem_complete.Runtime.{Env, Call, World}
use ecosystem_complete.Runtime.Exec.{Exec, ok}
use ecosystem_complete.Identity.Pages.{Page, normalize_paging, list_page, list_page_lem}
use ecosystem_complete.Identity.{Error, UserSummary, roles_of, role_names, to_profile, to_summary}
use ecosystem_complete.Identity.Admin.{status_text}

pub record UserFilter : Type 0 where
  pub page : ℤ
  pub limit : ℤ
  pub text : String
  pub status : String
  pub scope : String

-- adminAccess: a live role of the user has the permission, whether that is active or not
unfoldable pub admin_access : Db → User → Bool
unfolding roles_of
admin_access db u =
    exists_where
      (λ r.
        exists_where
          (λ rp.
            (rp.0 == r.id)
            && exists_where
                (λ p. (p.id == rp.1) && (p.code == "admin.access") && not (is_some p.deleted_at))
                db.permissions)
          db.role_permissions)
      (roles_of u.id db)

-- anyRole
unfoldable pub any_role : Db → User → Bool
unfolding roles_of
any_role db u = exists_where (λ r. true) (roles_of u.id db)

-- `order` is the database's collation, `ilike` its ILIKE '%' || $1 || '%'.
module _ (order : String → String → Bool) (ilike : String → String → Bool) where
  -- where
  unfoldable pub is_listed : UserFilter → Db → User → Bool
  unfolding admin_access any_role
  is_listed filter db u =
      not (is_some u.deleted_at)
      && ((filter.text == "")
          || (elim u.email [ none ↦ false | some e ↦ ilike e filter.text ])
          || ilike (or_empty u.name) filter.text)
      && ((filter.status == "") || (status_text u.status == filter.status))
      && ((filter.scope == "")
          || ((filter.scope == "admin") && admin_access db u)
          || ((filter.scope == "app") && not (admin_access db u))
          || ((filter.scope == "none") && not (any_role db u)))

  -- The rows of the second SELECT before LIMIT and OFFSET, newest first; `scan` decides between equals.
  unfoldable pub listing : (List User → List User) → UserFilter → Db → List UserSummary
  unfolding select_where sort_by role_names is_listed
  listing scan filter db =
      map (λ u. to_summary (to_profile u) (role_names order u.id db))
        (sort_by (λ u v. leb_ℤ v.created_at u.created_at)
          (select_where (is_listed filter db) (λ u. u) (scan db.users)))

  -- PostgresStore.ListUsers
  unfoldable pub list_users : Env → UserFilter → Exec Error (Page UserSummary)
  unfolding list_page
  list_users env filter =
      list_page env Call.count_users Call.select_users filter.page filter.limit
        (λ w. count_where (is_listed filter w.db) w.db.users)
        (λ w. listing env.scan_users filter w.db)

  -- How a user is shown.
  abbrev pub summary_of : Db → User → UserSummary
  summary_of db u = to_summary (to_profile u) (role_names order u.id db)

  listing_lem :
      (scan : List User → List User) (filter : UserFilter) (db : Db) (q : UserSummary → Bool)
      → KeepsRows scan
      → IsSorted (λ a b. leb_ℤ b.created_at a.created_at) (listing scan filter db)
        × (count_where q (listing scan filter db)
            ≡ count_where (λ u. is_listed filter db u && q (summary_of db u)) db.users)
  unfolding listing
  listing_lem scan filter db q keeps =
      let newest = λ (u v : User). leb_ℤ v.created_at u.created_at in
      let selected = select_where (is_listed filter db) (λ u. u) (scan db.users) in
      (
        map-IsSorted (summary_of db) (λ a b. leb_ℤ b.created_at a.created_at)
            (sort_by newest selected) (sort_by-IsSorted newest selected (λ a b. ground arith)),
        count-map (summary_of db) q (sort_by newest selected)
            ∙ count-sort_by (λ u. q (summary_of db u)) newest selected
            ∙ count-select (λ u. q (summary_of db u)) (is_listed filter db) (scan db.users)
            ∙ keeps (λ u. is_listed filter db u && q (summary_of db u)) db.users,
      )

-- While calls succeed and the page does not lie beyond 2^63 rows, the ith row of a page is row
-- (page - 1) * limit + i of a list, for i below the limit, and none from there on. The list is in order,
-- the newest account first, and shows every user who passes the filter once, and no other: it has as many
-- rows that meet any condition q as there are users who pass the filter and are shown by a row that meets
-- q, whatever the order in which the database meets equal times, which two requests need not share. The
-- total counts the users who pass the filter.
pub list_users_page :
    (order ilike : String → String → Bool) (env : Env) (filter : UserFilter) (w : World) (i : ℕ)
    (q : UserSummary → Bool)
    → KeepsRows env.scan_users
    → ((c : Call) → env.fails c ≡ false)
    → (normalize_paging filter.page filter.limit).0 * (normalize_paging filter.page filter.limit).1
      < 2 ^ 63
    → let (p, l) = normalize_paging filter.page filter.limit in
      let rows = listing order ilike env.scan_users filter w.db in
      ((found : Page UserSummary) × (list_users order ilike env filter w ≡ (ok found, w))
        × (get_elem? found.rows i ≡ (if ltb i l then get_elem? rows ((p - 1) * l + i) else none))
        × (found.total ≡ count_where (is_listed order ilike filter w.db) w.db.users))
      × IsSorted (λ a b. leb_ℤ b.created_at a.created_at) rows
      × (count_where q rows
          ≡ count_where
              (λ u.
                is_listed order ilike filter w.db u
                && q (to_summary (to_profile u) (role_names order u.id w.db)))
              w.db.users)
unfolding list_users
list_users_page order ilike env filter w i q keeps running small =
    let (sorted, same) = listing_lem order ilike env.scan_users filter w.db q keeps in
    (
      list_page_lem env Call.count_users Call.select_users filter.page filter.limit
          (λ v. count_where (is_listed order ilike filter v.db) v.db.users)
          (λ v. listing order ilike env.scan_users filter v.db) w i (running Call.count_users)
          (running Call.select_users) small,
      sorted,
      same,
    )
