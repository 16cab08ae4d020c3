-- ===== src/Identity/Admin.antt =====
-- admin.go and admin_postgres.go: what an administrator changes.
use ecosystem_complete.Prelude.{
  String, Bool, true, false, ◌&&◌, ◌||◌, not, Option, none, some, List, [], ◌∷◌, ◌++◌, map, ◌==◌,
  eqb, length, is_some, get_or, update_where, delete_where, if◌then◌else◌,
}
use ecosystem_complete.Prelude.Sort.{leb_text, select_where, sort_by, contains}
use ecosystem_complete.Database.{Db, User, RoleRow, Status}
use ecosystem_complete.Runtime.{Env, Call, text, texts, null}
use ecosystem_complete.Runtime.Exec.{
  ok, failed, Exec, pure, raise, or_raise, query, begin_tx, tx_query, tx_execute, commit_tx,
  with_rollback, ◌>>=◌, ◌>>◌,
}
use ecosystem_complete.Audit.{Event, record_event, event_roles_changed, event_user_updated}
use ecosystem_complete.Password.Change.{user_by_id}
use ecosystem_complete.Identity.{
  Error, not_found, unknown_role, UserSummary, is_live_role, role_names, to_profile, to_summary,
}

-- validateRoles, with the names that were seen: no name is empty or repeated.
unfoldable pub validate_roles : List String → List String → Bool
unfolding contains
validate_roles seen [] = true
validate_roles seen (role ∷ roles) =
    let rest = validate_roles (role ∷ seen) roles in
    if (role == "") || contains seen role then false else rest

-- WHERE tx_name = ANY($1) AND tx_status = 'ACTIVE' AND dt_deleted_at IS NULL
abbrev pub is_requested : List String → RoleRow → Bool
is_requested roles r = contains roles r.name && is_live_role r

unfoldable pub resolve_roles : List String → Db → List RoleRow
unfolding select_where
resolve_roles roles db = select_where (is_requested roles) (λ r. r) db.roles

-- DELETE FROM seg.tb_user_role WHERE co_user = $1
unfoldable pub clear_roles : String → Db → Db
clear_roles user_id db = record db {
  user_roles = delete_where (λ ur. ur.0 == user_id) db.user_roles;
}

-- INSERT INTO seg.tb_user_role ... SELECT $1, unnest($2); the ids are primary keys, so the pairs differ
unfoldable pub assign_roles : String → List RoleRow → Db → Db
assign_roles user_id rows db = record db {
  user_roles = db.user_roles ++ map (λ r. (user_id, r.id)) rows;
}

-- public.suspendable_status
abbrev pub parse_status : String → Option Status
parse_status s =
    if s == "ACTIVE"
    then some Status.active
    else if s == "INACTIVE"
    then some Status.inactive
    else if s == "SUSPENDED"
    then some Status.suspended
    else none

abbrev pub status_text : Status → String
status_text Status.active = "ACTIVE"
status_text Status.inactive = "INACTIVE"
status_text Status.suspended = "SUSPENDED"

-- COALESCE($2, tx_name), COALESCE($3, tx_status)
abbrev pub edited : Option String → Option Status → User → User
edited name status u = record u {
  name = elim name [ none ↦ u.name | some n ↦ some n ];
  status = get_or status u.status;
}

unfoldable pub edit_user : String → Option String → Option Status → Db → Db
edit_user user_id name status db = record db {
  users =
      update_where (λ u. (u.id == user_id) && not (is_some u.deleted_at)) (edited name status)
        db.users;
}

module _ (env : Env) where
  -- The body of PostgresStore.SetRoles after the roles are resolved.
  unfoldable pub replace_roles : String → List String → List RoleRow → Exec Error (List String)
  unfolding sort_by clear_roles assign_roles
  replace_roles user_id roles rows =
      if not (eqb (length rows) (length roles)) then raise unknown_role else do
        tx_execute env Call.clear_roles (clear_roles user_id)
        if eqb (length rows) 0
            then pure tt
            else tx_execute env Call.assign_roles (assign_roles user_id rows)
        commit_tx env Call.commit
        pure (sort_by leb_text (map (λ r. r.name) rows))

  -- PostgresStore.SetRoles
  unfoldable pub store_roles : String → List String → Exec Error (List String)
  unfolding validate_roles resolve_roles user_by_id replace_roles
  store_roles user_id roles = if not (validate_roles [] roles) then raise unknown_role else do
    begin_tx env Call.begin
    with_rollback (do
      exists ← tx_query env Call.user_exists (λ db. is_some (user_by_id user_id db))
      if not exists then raise not_found else do
        rows ← tx_query env Call.resolve_roles (resolve_roles roles)
        replace_roles user_id roles rows)

  -- Service.SetRoles; `meta` is the event with the request's address and agent
  unfoldable pub set_roles : String → String → List String → Event → Exec Error (List String)
  unfolding store_roles
  set_roles actor_id user_id roles meta = do
    effective ← store_roles user_id roles
    record_event env (record meta {
      name = event_roles_changed;
      user_id = user_id;
      actor_id = actor_id;
      metadata = ("roles", texts effective) ∷ [];
    })
    pure effective

  -- The UPDATE of PostgresStore.UpdateUser, whose count of rows says whether the user exists; a text
  -- that is no status is an error of the statement.
  unfoldable pub store_edit : String → Option String → Option String → Exec Error Bool
  unfolding edit_user user_by_id
  store_edit user_id name status w = elim (env.fails Call.update_user) [
    | true ↦ (failed Call.update_user, w)
    | false ↦ elim status [
      | none ↦ (
        ok (is_some (user_by_id user_id w.db)),
        record w { db = edit_user user_id name none w.db },
      )
      | some s ↦ elim (parse_status s) [
        | none ↦ (failed Call.update_user, w)
        | some st ↦ (
          ok (is_some (user_by_id user_id w.db)),
          record w { db = edit_user user_id name (some st) w.db },
        )
      ]
    ]
  ]

module _ (env : Env) (order : String → String → Bool) where
  -- PostgresStore.User
  unfoldable pub read_summary : String → Exec Error UserSummary
  unfolding user_by_id role_names
  read_summary user_id = do
    found ← query env Call.read_user (λ db. elim (user_by_id user_id db) [
      | none ↦ none
      | some u ↦ some (to_summary (to_profile u) (role_names order user_id db))
    ])
    or_raise found not_found

  -- Service.UpdateUser with PostgresStore.UpdateUser
  unfoldable pub update_user :
      String → String → Option String → Option String → Event → Exec Error UserSummary
  unfolding store_edit read_summary
  update_user actor_id user_id name status meta = do
    exists ← store_edit env user_id name status
    if not exists then raise not_found else do
      updated ← read_summary user_id
      record_event env (record meta {
        name = event_user_updated;
        user_id = user_id;
        actor_id = actor_id;
        metadata =
            ("name", elim updated.name [ none ↦ null | some n ↦ text n ])
            ∷ ("status", text (status_text updated.status))
            ∷ [];
      })
      pure updated
