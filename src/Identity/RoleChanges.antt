-- ===== src/Identity/RoleChanges.antt =====
-- What SetRoles and UpdateUser guarantee for one request.
use mathlib.Core.List.{append-nil}
use ecosystem_complete.Prelude.{
  ◌≡◌, ap, ◌∙◌, ◌⊎◌, String, Bool, true, false, ◌&&◌, ◌||◌, not, List, [], ◌∷◌, map, arith, ◌==◌,
  eq_iff, eqb, length, is_some, exists_where, delete_where, if◌then◌else◌,
}
use ecosystem_complete.Prelude.Sort.{leb_text, sort_by, exists-append}
use ecosystem_complete.Database.{Db, RoleRow}
use ecosystem_complete.Runtime.{Env, World}
use ecosystem_complete.Runtime.Exec.{ok, is_ok}
use ecosystem_complete.Audit.{Event}
use ecosystem_complete.Password.Change.{user_by_id}
use ecosystem_complete.Identity.{is_live_role}
use ecosystem_complete.Identity.Capabilities.{grants, holds}
use ecosystem_complete.Identity.Admin.{
  validate_roles, resolve_roles, clear_roles, assign_roles, set_roles,
}

assign_none :
    (user_id : String) (rows : List RoleRow) (db : Db)
    → eqb (length rows) 0 ≡ true
    → assign_roles user_id rows db ≡ db
unfolding assign_roles
assign_none user_id [] db e = rw append-nil
assign_none user_id (r ∷ rows) db e = absurd (ground arith)

module _ (env : Env) (actor user_id : String) (roles : List String) (meta : Event) (w : World) where
  -- The tables when the change is committed.
  abbrev pub reassigned : Db
  reassigned = assign_roles user_id (resolve_roles roles w.db) (clear_roles user_id w.db)

  set_roles_outcome :
      let (r, w') = set_roles env actor user_id roles meta w in
      ((w'.db ≡ w.db) × (is_ok r ≡ false))
      ⊎ ((validate_roles [] roles ≡ true)
          × (is_some (user_by_id user_id w.db) ≡ true)
          × (eqb (length (resolve_roles roles w.db)) (length roles) ≡ true)
          × (r ≡ ok (sort_by leb_text (map (λ row. row.name) (resolve_roles roles w.db))))
          × (w'.db ≡ reassigned))
  unfolding set_roles
  set_roles_outcome =
      ground (arith, assign_none user_id (resolve_roles roles w.db) (clear_roles user_id w.db))

module _ (q : String → Bool) (user_id v : String) where
  exists-cleared :
      (pairs : List (String × String))
      → exists_where (λ ur. (ur.0 == v) && q ur.1) (delete_where (λ ur. ur.0 == user_id) pairs)
        ≡ (not (v == user_id) && exists_where (λ ur. (ur.0 == v) && q ur.1) pairs)
  unfolding exists_where delete_where
  exists-cleared [] = ground arith
  exists-cleared ((a, b) ∷ pairs) =
      ground (arith, eq_iff a v, eq_iff a user_id, eq_iff v user_id, exists-cleared pairs)

  exists-assigned :
      (rows : List RoleRow)
      → exists_where {A = String × String}
          (λ ur. (ur.0 == v) && q ur.1)
          (map (λ r. (user_id, r.id)) rows)
        ≡ ((user_id == v) && exists_where (λ r. q r.id) rows)
  unfolding exists_where
  exists-assigned [] = ground arith
  exists-assigned (r ∷ rows) = ground (arith, exists-assigned rows)

-- A live role of that id grants the permission.
abbrev pub grants_by_id : Db → String → String → Bool
grants_by_id db code id =
    exists_where (λ r. (r.id == id) && is_live_role r && grants db code r) db.roles

holds-assign_roles :
    (user_id v code : String) (rows : List RoleRow) (db : Db)
    → holds v code (assign_roles user_id rows (clear_roles user_id db)) ≡ (
        (not (v == user_id) && holds v code db)
        || ((user_id == v) && exists_where (λ r. grants_by_id db code r.id) rows))
unfolding holds assign_roles clear_roles
holds-assign_roles user_id v code rows db =
    exists-append _ (delete_where (λ ur. ur.0 == user_id) db.user_roles)
      (map (λ r. (user_id, r.id)) rows)
    ∙ (λ i.
        exists-cleared (grants_by_id db code) user_id v db.user_roles i
        || exists-assigned (grants_by_id db code) user_id v rows i)

module _ (env : Env) (actor user_id : String) (roles : List String) (meta : Event) (w : World) where
  set_roles_ok_outcome :
      (effective : List String) (w' : World)
      → set_roles env actor user_id roles meta w ≡ (ok effective, w')
      → (validate_roles [] roles ≡ true)
        × (is_some (user_by_id user_id w.db) ≡ true)
        × (length (resolve_roles roles w.db) ≡ length roles)
        × (effective ≡ sort_by leb_text (map (λ row. row.name) (resolve_roles roles w.db)))
        × (w'.db ≡ reassigned env actor user_id roles meta w)
  set_roles_ok_outcome effective w' e =
      ground (arith, set_roles_outcome env actor user_id roles meta w)

  -- A role change that succeeds was for a user who is not deleted and for names that are neither empty
  -- nor repeated, and as many live roles have one of these names. Afterwards the user holds what live
  -- roles with the ids of these roles grant, and nothing else; every other user holds what they held.
  -- The answer is the names of these roles in order.
  pub set_roles_ok :
      (effective : List String) (w' : World) (v code : String)
      → set_roles env actor user_id roles meta w ≡ (ok effective, w')
      → (validate_roles [] roles ≡ true)
        × (is_some (user_by_id user_id w.db) ≡ true)
        × (length (resolve_roles roles w.db) ≡ length roles)
        × (effective ≡ sort_by leb_text (map (λ row. row.name) (resolve_roles roles w.db)))
        × (holds v code w'.db ≡ (
            if v == user_id
            then exists_where (λ r. grants_by_id w.db code r.id) (resolve_roles roles w.db)
            else holds v code w.db))
  set_roles_ok effective w' v code e =
      let (valid, known, resolved, names, db') = set_roles_ok_outcome effective w' e in
      let after_change = holds-assign_roles user_id v code (resolve_roles roles w.db) w.db in
      (
        valid,
        known,
        resolved,
        names,
        ap (holds v code) db' ∙ after_change ∙ ground (arith, eq_iff v user_id, eq_iff user_id v),
      )

  -- Whatever calls fail, a role change that does not succeed changes no table.
  pub set_roles_atomic :
      is_ok (set_roles env actor user_id roles meta w).0 ≡ false
      → (set_roles env actor user_id roles meta w).1.db ≡ w.db
  set_roles_atomic fault = ground (arith, set_roles_outcome env actor user_id roles meta w)
