-- ===== src/Password/Change.antt =====
-- Service.Change and PostgresStore.ChangePassword.
use ecosystem_complete.Prelude.{
  String, Bool, true, Option, none, some, ◌&&◌, not, [], ◌∷◌, ◌==◌, is_some, find_where,
  if◌then◌else◌,
}
use ecosystem_complete.Database.{Db, User, or_empty}
use ecosystem_complete.Runtime.{Env, Call, text}
use ecosystem_complete.Runtime.Exec.{
  Exec, Action, pure, raise, attempt, query, begin_tx, tx_execute, commit_tx, with_rollback, ◌>>=◌,
  ◌>>◌,
}
use ecosystem_complete.Audit.{
  event, record_event, event_password_changed, event_password_change_failed,
}
use ecosystem_complete.UserTokens.{revoke_all}
use ecosystem_complete.Password.{Error, no_user, invalid_current_password}
use ecosystem_complete.Password.Reset.{set_password}

-- co_user = $1 AND dt_deleted_at IS NULL
unfoldable pub user_by_id : String → Db → Option User
user_by_id id db = find_where (λ u. (u.id == id) && not (is_some u.deleted_at)) db.users

module _ (env : Env) where
  -- PostgresStore.ChangePassword: one transaction of its own
  unfoldable pub change_password : String → String → Action Error
  unfolding set_password revoke_all
  change_password user_id hash = do
    begin_tx env Call.begin
    with_rollback (do
      tx_execute env Call.set_password (set_password user_id hash)
      tx_execute env Call.revoke_all_families (revoke_all user_id env.db_now)
      commit_tx env Call.commit)

  -- PostgresStore.PasswordHash: "" for an account without a password
  unfoldable pub password_hash : Option User → Exec Error String
  password_hash none = raise no_user
  password_hash (some u) = pure (or_empty u.password_hash)

  -- After the current password has been judged; none is VerifyPassword's error.
  unfoldable pub change_if : String → String → Option Bool → Action Error
  unfolding change_password
  change_if user_id new_password (some true) = do
    hash ← attempt env Call.hash_password (env.hash_password new_password)
    change_password user_id hash
    record_event env (record (event event_password_changed) { user_id = user_id })
  change_if user_id new_password _ = do
    record_event env (record (event event_password_change_failed) {
      user_id = user_id;
      metadata = ("reason", text "wrong_current_password") ∷ [];
    })
    raise invalid_current_password

  -- Service.Change
  unfoldable pub change : String → String → String → Action Error
  unfolding user_by_id password_hash change_if
  change user_id current new_password = do
    found ← query env Call.password_hash (user_by_id user_id)
    stored ← password_hash found
    if stored == ""
        then raise invalid_current_password
        else change_if user_id new_password (env.verify_password stored current)
