-- ===== src/Identity/Catalogues.antt =====
-- The lists of roles and permissions: Roles and Permissions of service.go, with ListRoles and
-- ListPermissions of postgres.go.
use ecosystem_complete.Prelude.{
  ◌≡◌, ap, ◌∙◌, String, Bool, false, ◌&&◌, not, Option, List, [], arith, ◌==◌, is_some,
  exists_where, if◌then◌else◌,
}
use ecosystem_complete.Prelude.Sort.{
  select_where, join_rows, sort_by, contains, exists-sort_by, exists-join, exists-select, exists-if,
  exists_congr,
}
use ecosystem_complete.Database.{Db, RoleRow, PermissionRow, Status}
use ecosystem_complete.Identity.{Error}
use ecosystem_complete.Runtime.{Env, Call, World}
use ecosystem_complete.Runtime.Exec.{Exec, ok, query}

pub record Role : Type 0 where
  pub id : String
  pub name : String
  pub description : Option String
  pub status : Status
  pub permissions : List String

pub record Permission : Type 0 where
  pub id : String
  pub code : String
  pub section : String
  pub name : String
  pub status : Status

-- p.co_permission = rp.co_permission AND p.dt_deleted_at IS NULL
abbrev is_joined : String → PermissionRow → Bool
is_joined id p = (p.id == id) && not (is_some p.deleted_at)

-- The codes that array_agg takes for a role: those of permissions that are not deleted, active or not
unfoldable pub aggregated : Db → RoleRow → List String
unfolding select_where join_rows
aggregated db r =
    join_rows
      (λ rp.
        if rp.0 == r.id then select_where (is_joined rp.1) (λ p. p.code) db.permissions else [])
      db.role_permissions

-- `order` is the database's collation, which ORDER BY goes by.
module _ (order : String → String → Bool) where
  -- A group of the SELECT of ListRoles
  unfoldable pub to_role : Db → RoleRow → Role
  unfolding aggregated sort_by
  to_role db r = record {
    id = r.id;
    name = r.name;
    description = r.description;
    status = r.status;
    permissions = sort_by order (aggregated db r);
  }

  -- The SELECT of ListRoles
  unfoldable pub role_rows : Db → List Role
  unfolding to_role sort_by select_where
  role_rows db =
      sort_by (λ a b. order a.name b.name)
        (select_where (λ r. not (is_some r.deleted_at)) (to_role db) db.roles)

  to_permission : PermissionRow → Permission
  to_permission p = record {
    id = p.id;
    code = p.code;
    section = p.section;
    name = p.name;
    status = p.status;
  }

  -- ORDER BY tx_module, tx_code
  abbrev by_section : Permission → Permission → Bool
  by_section p q = if p.section == q.section then order p.code q.code else order p.section q.section

  -- The SELECT of ListPermissions
  unfoldable pub permission_rows : Db → List Permission
  unfolding to_permission sort_by select_where
  permission_rows db =
      sort_by by_section
        (select_where (λ p. not (is_some p.deleted_at)) to_permission db.permissions)

  module _ {E : Type 0} (env : Env) where
    -- Service.Roles and PostgresStore.ListRoles
    unfoldable pub roles : Exec E (List Role)
    unfolding role_rows
    roles = query env Call.list_roles role_rows

    -- Service.Permissions and PostgresStore.ListPermissions
    unfoldable pub permissions : Exec E (List Permission)
    unfolding permission_rows
    permissions = query env Call.list_permissions permission_rows

-- The role has a permission with the code that is not deleted.
unfoldable pub shows : Db → String → RoleRow → Bool
shows db code r =
    exists_where
      (λ rp.
        (rp.0 == r.id)
        && exists_where (λ p. not (is_some p.deleted_at) && (p.id == rp.1) && (p.code == code))
            db.permissions)
      db.role_permissions

contains-aggregated :
    (db : Db) (code : String) (r : RoleRow) → contains (aggregated db r) code ≡ shows db code r
unfolding contains aggregated shows
contains-aggregated db code r =
    exists-join (λ t. t == code) _ db.role_permissions
    ∙ exists_congr _ _ db.role_permissions (λ rp.
      exists-if _ (rp.0 == r.id) _
      ∙ ap (λ b. (rp.0 == r.id) && b)
          (exists-select (λ t. t == code) _ _ db.permissions
            ∙ exists_congr _ _ db.permissions (λ p. ground arith)))

contains-to_role :
    (order : String → String → Bool) (db : Db) (code : String) (r : RoleRow)
    → contains (to_role order db r).permissions code ≡ shows db code r
unfolding to_role contains
contains-to_role order db code r =
    exists-sort_by (λ t. t == code) order (aggregated db r) ∙ contains-aggregated db code r

-- The list names a role with this id and a code among its permissions.
abbrev pub lists : String → String → Role → Bool
lists id code role = (role.id == id) && contains role.permissions code

-- While its query succeeds, Roles changes nothing and answers a list that has the role of an id with a
-- code among its permissions exactly if a role of that id that is not deleted, be it active or not, has
-- a permission of that code that is not deleted, be it active or not.
pub roles-shows :
    (order : String → String → Bool) (env : Env) (w : World) (id code : String)
    → env.fails Call.list_roles ≡ false
    → (found : List Role) × (roles order {E = Error} env w ≡ (ok found, w))
      × (exists_where (lists id code) found
          ≡ exists_where
              (λ r. not (is_some r.deleted_at) && (r.id == id) && shows w.db code r)
              w.db.roles)
unfolding roles role_rows
roles-shows order env w id code running = (
  role_rows order w.db,
  ground (arith, running),
  exists-sort_by (lists id code) (λ a b. order a.name b.name) _
      ∙ exists-select (lists id code) _ (to_role order w.db) w.db.roles
      ∙ exists_congr (λ r. not (is_some r.deleted_at) && lists id code (to_role order w.db r)) _
          w.db.roles (λ r. ground (arith, contains-to_role order w.db code r)),
)
