-- ===== src/Tests/Roles.antt =====
-- Examples for Identity.
use ecosystem_complete.Prelude.{
  ◌≡◌, refl, Bool, ◌&&◌, leb_ℤ, ◌⊎◌, ◌+◌, ◌-◌, ◌*◌, ◌^◌, ◌<◌, true, false, none, [], ◌∷◌, ◌==◌, pos,
  map, length, is_some, count_where, exists_where, find_where, arith, ltb, if◌then◌else◌,
}
use ecosystem_complete.Prelude.Sort.{leb_text, sort_by, get_elem?}
use ecosystem_complete.Prelude.Ordered.{IsSorted}
use ecosystem_complete.Audit.{event}
use ecosystem_complete.Database.{RoleRow, PermissionRow, Status}
use ecosystem_complete.Runtime.{Call, World}
use ecosystem_complete.Runtime.Exec.{ok, is_ok, is_failed}
use ecosystem_complete.Password.Change.{user_by_id}
use ecosystem_complete.Identity.{can}
use ecosystem_complete.Identity.Admin.{set_roles, validate_roles, resolve_roles}
use ecosystem_complete.Identity.Capabilities.{holds, can-holds}
use ecosystem_complete.Identity.RoleChanges.{set_roles_ok, grants_by_id}
use ecosystem_complete.Identity.Paging.{UserFilter, list_users, listing, is_listed, list_users_page}
use ecosystem_complete.Identity.{UserSummary, to_summary, to_profile, role_names}
use ecosystem_complete.Identity.Pages.{Page, normalize_paging}
use ecosystem_complete.Tests.{env, db, world}

abbrev administrator : RoleRow
administrator = record {
  id = "r1";
  name = "ADMIN";
  description = none;
  status = Status.active;
  deleted_at = none;
}

abbrev member : RoleRow
member = record administrator { id = "r2"; name = "MEMBER" }

abbrev admin_access : PermissionRow
admin_access = record {
  id = "p1";
  code = "admin.access";
  section = "admin";
  name = "Administration";
  status = Status.active;
  deleted_at = none;
}

-- Alice is an administrator.
abbrev pub staffed : World
staffed = record world {
  db = record db {
    roles = administrator ∷ member ∷ [];
    permissions = admin_access ∷ [];
    user_roles = ("u1", "r1") ∷ ("u2", "r2") ∷ [];
    role_permissions = ("r1", "p1") ∷ [];
  };
}

can-holds_example :
    let (r, w') = can env leb_text "u1" "admin.access" staffed in
    (w' ≡ staffed)
    × ((r ≡ ok (holds "u1" "admin.access" staffed.db))
        ⊎ ((is_failed r ≡ true)
            × ((env.fails Call.access ≡ true) ⊎ (env.fails Call.access_permissions ≡ true))))
can-holds_example = can-holds env leb_text "u1" "admin.access" staffed

abbrev promoted : World
promoted = (set_roles env "u1" "u2" ("MEMBER" ∷ "ADMIN" ∷ []) (event "") staffed).1

promotes :
    set_roles env "u1" "u2" ("MEMBER" ∷ "ADMIN" ∷ []) (event "") staffed
    ≡ (ok ("ADMIN" ∷ "MEMBER" ∷ []), promoted)
unfolding set_roles exists_where find_where
promotes = refl

set_roles_ok_example :
    (validate_roles [] ("MEMBER" ∷ "ADMIN" ∷ []) ≡ true)
    × (is_some (user_by_id "u2" staffed.db) ≡ true)
    × (length (resolve_roles ("MEMBER" ∷ "ADMIN" ∷ []) staffed.db) ≡ 2)
    × (("ADMIN" ∷ "MEMBER" ∷ [])
        ≡ sort_by leb_text
            (map (λ row. row.name) (resolve_roles ("MEMBER" ∷ "ADMIN" ∷ []) staffed.db)))
    × (holds "u2" "admin.access" promoted.db
        ≡ exists_where
            (λ r. grants_by_id staffed.db "admin.access" r.id)
            (resolve_roles ("MEMBER" ∷ "ADMIN" ∷ []) staffed.db))
set_roles_ok_example =
    set_roles_ok env "u1" "u2" ("MEMBER" ∷ "ADMIN" ∷ []) (event "") staffed
      ("ADMIN" ∷ "MEMBER" ∷ []) promoted "u2" "admin.access" promotes

unknown_refused : is_ok (set_roles env "u1" "u2" ("OWNER" ∷ []) (event "") staffed).0 ≡ false
unfolding set_roles exists_where find_where
unknown_refused = refl

abbrev every_user : UserFilter
every_user = record { page = pos 2; limit = pos 1; text = ""; status = ""; scope = "" }

small :
    (normalize_paging every_user.page every_user.limit).0
      * (normalize_paging every_user.page every_user.limit).1
    < 2 ^ 63
unfolding normalize_paging
small = omega arith

abbrev is_alice : UserSummary → Bool
is_alice shown = shown.id == "u1"

list_users_page_example :
    let (p, l) = normalize_paging every_user.page every_user.limit in
    let rows = listing leb_text (λ s t. s == t) env.scan_users every_user staffed.db in
    ((found : Page UserSummary) × (list_users leb_text (λ s t. s == t) env every_user staffed
        ≡ (ok found, staffed))
      × (get_elem? found.rows 0 ≡ (if ltb 0 l then get_elem? rows ((p - 1) * l + 0) else none))
      × (found.total
          ≡ count_where
              (is_listed leb_text (λ s t. s == t) every_user staffed.db)
              staffed.db.users))
    × IsSorted (λ a b. leb_ℤ b.created_at a.created_at) rows
    × (count_where is_alice rows
        ≡ count_where
            (λ u.
              is_listed leb_text (λ s t. s == t) every_user staffed.db u
              && is_alice (to_summary (to_profile u) (role_names leb_text u.id staffed.db)))
            staffed.db.users)
list_users_page_example =
    list_users_page leb_text (λ s t. s == t) env every_user staffed 0 is_alice (λ q rows. refl)
      (λ c. refl) small
