-- ===== src/Identity/Capabilities.antt =====
-- Can, against a description that has no joins.
use ecosystem_complete.Prelude.{
  ◌≡◌, ap, ◌∙◌, ◌⊎◌, String, Bool, true, ◌&&◌, arith, ◌==◌, exists_where,
}
use ecosystem_complete.Prelude.Sort.{
  join_rows, contains, distinct, exists-sort_by, exists-join, exists-select, exists-if,
  exists_congr, contains-distinct,
}
use ecosystem_complete.Database.{Db, RoleRow}
use ecosystem_complete.Runtime.{Env, Call, World}
use ecosystem_complete.Runtime.Exec.{ok, is_failed}
use ecosystem_complete.Identity.{
  is_live_role, is_live_permission, roles_of, codes_of, permission_codes, can,
}

-- A live permission with the code is granted to the role.
unfoldable pub grants : Db → String → RoleRow → Bool
grants db code r =
    exists_where
      (λ rp.
        (rp.0 == r.id)
        && exists_where (λ p. (p.id == rp.1) && is_live_permission p && (p.code == code))
            db.permissions)
      db.role_permissions

-- A live role of the user grants the permission.
unfoldable pub holds : String → String → Db → Bool
unfolding grants
holds user_id code db =
    exists_where
      (λ ur.
        (ur.0 == user_id)
        && exists_where (λ r. (r.id == ur.1) && is_live_role r && grants db code r) db.roles)
      db.user_roles

contains-codes_of :
    (db : Db) (code : String) (r : RoleRow) → contains (codes_of db r) code ≡ grants db code r
unfolding contains codes_of grants
contains-codes_of db code r =
    exists-join (λ t. t == code) _ db.role_permissions
    ∙ exists_congr _ _ db.role_permissions (λ rp.
      exists-if _ (rp.0 == r.id) _
      ∙ ap (λ b. (rp.0 == r.id) && b)
          (exists-select (λ t. t == code) _ _ db.permissions
            ∙ exists_congr _ _ db.permissions (λ p. ground arith)))

exists-roles_of :
    (user_id : String) (q : RoleRow → Bool) (db : Db)
    → exists_where q (roles_of user_id db)
      ≡ exists_where
          (λ ur.
            (ur.0 == user_id)
            && exists_where (λ r. (r.id == ur.1) && is_live_role r && q r) db.roles)
          db.user_roles
unfolding roles_of
exists-roles_of user_id q db =
    exists-join q _ db.user_roles
    ∙ exists_congr _ _ db.user_roles (λ ur.
      exists-if q (ur.0 == user_id) _
      ∙ ap (λ b. (ur.0 == user_id) && b)
          (exists-select q _ (λ r. r) db.roles ∙ exists_congr _ _ db.roles (λ r. ground arith)))

contains-permission_codes :
    (order : String → String → Bool) (user_id code : String) (db : Db)
    → contains (permission_codes order user_id db) code ≡ holds user_id code db
unfolding permission_codes holds
contains-permission_codes order user_id code db =
    (unfold contains in
      exists-sort_by (λ t. t == code) order
        (distinct (join_rows (codes_of db) (roles_of user_id db))))
    ∙ contains-distinct (join_rows (codes_of db) (roles_of user_id db)) code
    ∙ (unfold contains in exists-join (λ t. t == code) (codes_of db) (roles_of user_id db))
    ∙ exists_congr _ _ (roles_of user_id db) (λ r. contains-codes_of db code r)
    ∙ exists-roles_of user_id (grants db code) db

module _ (env : Env) (order : String → String → Bool) (user_id code : String) (w : World) where
  can_codes :
      let (r, w') = can env order user_id code w in
      (w' ≡ w)
      × ((r ≡ ok (contains (permission_codes order user_id w.db) code))
          ⊎ ((is_failed r ≡ true)
              × ((env.fails Call.access ≡ true) ⊎ (env.fails Call.access_permissions ≡ true))))
  unfolding can
  can_codes = (ground arith, ground arith)

  -- Can changes nothing and answers whether a live role that the user has now grants a live permission
  -- with the code, or else one of the two queries has failed.
  pub can-holds :
      let (r, w') = can env order user_id code w in
      (w' ≡ w)
      × ((r ≡ ok (holds user_id code w.db))
          ⊎ ((is_failed r ≡ true)
              × ((env.fails Call.access ≡ true) ⊎ (env.fails Call.access_permissions ≡ true))))
  can-holds = rw (← contains-permission_codes order user_id code w.db) can_codes
