-- ===== src/Password/Reset.antt =====
-- Service.Reset and resetTx: the code is spent, the password set and every session ended in one
-- transaction.
use ecosystem_complete.Prelude.{
  ℕ, String, Bool, ◌&&◌, ◌||◌, not, Option, none, some, List, [], ◌∷◌, ◌==◌, leb, is_some,
  exists_where, update_where, if◌then◌else◌,
}
use ecosystem_complete.Database.{Db, User, UserToken, password_reset, after}
use ecosystem_complete.Runtime.{Env, Call, text}
use ecosystem_complete.Runtime.Exec.{
  Action, raise, or_raise, attempt, begin_tx, tx_query, tx_execute, commit_tx, with_rollback, ◌>>=◌,
  ◌>>◌,
}
use ecosystem_complete.Audit.{
  event, record_event, event_password_reset, event_password_reset_failed,
}
use ecosystem_complete.Security.{normalize_email}
use ecosystem_complete.UserTokens.{
  owns, same_purpose, newest_where, count_attempt, consume, revoke_all,
}
use ecosystem_complete.Password.{Error, invalid_code, too_many_attempts}

abbrev pub max_attempts : ℕ
max_attempts = 5

-- The join of tb_user_token and tb_user that resetTx.Token selects from.
abbrev pub can_reset : String → List User → UserToken → Bool
can_reset email users t =
    same_purpose t.purpose password_reset
    && not (is_some t.used_at)
    && exists_where (λ u. (u.id == t.user_id) && owns email u) users

-- resetTx.Token
unfoldable pub reset_row : String → Db → Option UserToken
reset_row email db = newest_where (can_reset email db.users) db.user_tokens

abbrev pub with_password : String → User → User
with_password hash u = record u {
  password_hash = some hash;
  failed_attempts = 0;
  locked_until = none;
}

-- resetTx.SetPassword
unfoldable pub set_password : String → String → Db → Db
set_password user_id hash db = record db {
  users = update_where (λ u. u.id == user_id) (with_password hash) db.users;
}

module _ (env : Env) where
  -- A wrong code: the counter is committed before the answer.
  unfoldable pub reject_code : String → UserToken → Action Error
  unfolding count_attempt
  reject_code email row = do
    tx_execute env Call.record_failed_attempt (count_attempt row.id)
    commit_tx env Call.commit
    record_event env (record (event event_password_reset_failed) {
      user_id = row.user_id;
      email = email;
      metadata = ("reason", text "wrong_code") ∷ [];
    })
    raise invalid_code

  unfoldable pub accept_code : String → String → UserToken → Action Error
  unfolding set_password consume revoke_all
  accept_code email new_password row = do
    hash ← attempt env Call.hash_password (env.hash_password new_password)
    tx_execute env Call.set_password (set_password row.user_id hash)
    tx_execute env Call.consume (consume row.id env.db_now)
    tx_execute env Call.revoke_all_families (revoke_all row.user_id env.db_now)
    commit_tx env Call.commit
    record_event env (record (event event_password_reset) { user_id = row.user_id; email = email })

  unfoldable pub reset_with : String → String → String → UserToken → Action Error
  unfolding reject_code accept_code
  reset_with email code new_password row =
      if is_some row.used_at || not (after row.expires_at env.now)
      then raise invalid_code
      else if leb max_attempts row.attempts
      then raise too_many_attempts
      else if not (env.sha256 code == row.code_hash)
      then reject_code email row
      else accept_code email new_password row

  -- Service.Reset
  unfoldable pub reset : String → String → String → Action Error
  unfolding reset_row reset_with
  reset raw_email code new_password =
      let email = normalize_email env raw_email in
      do
        begin_tx env Call.begin
        with_rollback (do
          found ← tx_query env Call.token (reset_row email)
          row ← or_raise found invalid_code
          reset_with email code new_password row)
