-- ===== src/Identity.antt =====
-- api/internal/identity: who a user is and what they may do (service.go, postgres.go). Identity/Admin
-- is the administration surface (admin.go, admin_postgres.go).
pub mod Admin
pub mod Pages
pub mod Paging
pub mod Capabilities
pub mod RoleChanges
pub mod Catalogues
pub mod Events
use ecosystem_complete.Prelude.{
  String, Bool, true, false, ◌&&◌, not, Option, none, some, List, [], ◌∷◌, ◌==◌, is_some,
  find_where, if◌then◌else◌,
}
use ecosystem_complete.Prelude.Sort.{select_where, join_rows, sort_by, contains, distinct}
use ecosystem_complete.Database.{Db, User, RoleRow, PermissionRow, Status, Time}
use ecosystem_complete.Runtime.{Env, Call}
use ecosystem_complete.Runtime.Exec.{Exec, pure, or_raise, query, ◌>>=◌, ◌>>◌}
use ecosystem_complete.Password.Change.{user_by_id}

pub data Error : Type 0 where
  not_found unknown_role : Error

pub record Profile : Type 0 where
  pub id : String
  pub name : Option String
  pub email : Option String
  pub status : Status
  pub email_verified_at : Option Time
  pub created_at : Time

pub record Access : Type 0 where
  pub roles : List String
  pub permissions : List String

-- Profile, with the embedded fields of Access
pub record Me : Type 0 where
  pub profile : Profile
  pub access : Access

pub record UserSummary : Type 0 where
  pub id : String
  pub name : Option String
  pub email : Option String
  pub status : Status
  pub email_verified_at : Option Time
  pub created_at : Time
  pub roles : List String

abbrev pub to_profile : User → Profile
to_profile u = record {
  id = u.id;
  name = u.name;
  email = u.email;
  status = u.status;
  email_verified_at = u.email_verified_at;
  created_at = u.created_at;
}

abbrev pub to_summary : Profile → List String → UserSummary
to_summary p roles = record {
  id = p.id;
  name = p.name;
  email = p.email;
  status = p.status;
  email_verified_at = p.email_verified_at;
  created_at = p.created_at;
  roles = roles;
}

abbrev is_active : Status → Bool
is_active Status.active = true
is_active _ = false

-- tx_status = 'ACTIVE' AND dt_deleted_at IS NULL
abbrev pub is_live_role : RoleRow → Bool
is_live_role r = is_active r.status && not (is_some r.deleted_at)

abbrev pub is_live_permission : PermissionRow → Bool
is_live_permission p = is_active p.status && not (is_some p.deleted_at)

-- JOIN seg.tb_role r ON r.co_role = ur.co_role, for the live roles of the user
unfoldable pub roles_of : String → Db → List RoleRow
unfolding select_where join_rows
roles_of user_id db =
    join_rows
      (λ ur.
        if ur.0 == user_id
        then select_where (λ r. (r.id == ur.1) && is_live_role r) (λ r. r) db.roles
        else [])
      db.user_roles

-- The joins from a role to the codes of its live permissions
unfoldable pub codes_of : Db → RoleRow → List String
unfolding select_where join_rows
codes_of db r =
    join_rows
      (λ rp.
        if rp.0 == r.id
        then select_where (λ p. (p.id == rp.1) && is_live_permission p) (λ p. p.code) db.permissions
        else [])
      db.role_permissions

-- PostgresStore.Profile
unfoldable pub read_profile : Env → String → Exec Error Profile
unfolding user_by_id
read_profile env user_id = do
  found ← query env Call.profile (user_by_id user_id)
  user ← or_raise found not_found
  pure (to_profile user)

-- `order` is the database's collation, which ORDER BY goes by.
module _ (order : String → String → Bool) where
  -- The first SELECT of PostgresStore.Access
  unfoldable pub role_names : String → Db → List String
  unfolding sort_by select_where roles_of
  role_names user_id db =
      sort_by order (select_where (λ _. true) (λ r. r.name) (roles_of user_id db))

  -- The second SELECT of PostgresStore.Access
  unfoldable pub permission_codes : String → Db → List String
  unfolding sort_by distinct join_rows roles_of codes_of
  permission_codes user_id db =
      sort_by order (distinct (join_rows (codes_of db) (roles_of user_id db)))

module _ (env : Env) (order : String → String → Bool) where
  -- PostgresStore.Access
  unfoldable pub read_access : {E : Type 0} → String → Exec E Access
  unfolding role_names permission_codes
  read_access user_id = do
    roles ← query env Call.access (role_names order user_id)
    permissions ← query env Call.access_permissions (permission_codes order user_id)
    pure (record { roles = roles; permissions = permissions })

  -- Service.Me
  unfoldable pub me : String → Exec Error Me
  unfolding read_access read_profile
  me user_id = do
    profile ← read_profile env user_id
    access ← read_access user_id
    pure (record { profile = profile; access = access })

  -- Service.Can
  unfoldable pub can : String → String → Exec Error Bool
  unfolding read_access contains
  can user_id permission = do
    access ← read_access user_id
    pure (contains access.permissions permission)

  -- Service.User
  unfoldable pub user : String → Exec Error UserSummary
  unfolding read_access read_profile
  user user_id = do
    profile ← read_profile env user_id
    access ← read_access user_id
    pure (to_summary profile access.roles)
