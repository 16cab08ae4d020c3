-- ===== src/EmailChange/Verify.antt =====
-- Service.Verify and verifyTx: the code is spent, the address set and every session ended in one
-- transaction.
use ecosystem_complete.Prelude.{
  ℕ, String, Bool, ◌&&◌, ◌||◌, not, Option, some, [], ◌∷◌, ◌==◌, leb, is_some, exists_where,
  update_where, if◌then◌else◌,
}
use ecosystem_complete.Database.{Db, User, UserToken, email_change, after}
use ecosystem_complete.Runtime.{Env, Call, text}
use ecosystem_complete.Runtime.Exec.{
  Action, raise, or_raise, query, begin_tx, tx_query, tx_execute, tx_insert, commit_tx,
  with_rollback, ◌>>=◌, ◌>>◌,
}
use ecosystem_complete.Audit.{event, record_event, event_email_changed, event_email_change_failed}
use ecosystem_complete.UserTokens.{owns, asked, newest_where, count_attempt, consume, revoke_all}
use ecosystem_complete.EmailChange.{
  Error, invalid_code, too_many_attempts, email_taken, address_taken,
}

abbrev pub max_attempts : ℕ
max_attempts = 5

-- verifyTx.Token
unfoldable pub change_row : String → Db → Option UserToken
change_row user_id db =
    newest_where (λ t. asked email_change user_id t && not (is_some t.used_at)) db.user_tokens

abbrev pub with_email : String → User → User
with_email email u = record u { email = some email }

-- verifyTx.SetEmail
unfoldable pub set_email : String → String → Db → Db
set_email user_id email db = record db {
  users = update_where (λ u. u.id == user_id) (with_email email) db.users;
}

-- The unique index on the addresses of accounts that are not deleted refuses SetEmail.
abbrev pub claimed_by_other : String → String → Db → Bool
claimed_by_other user_id email db =
    exists_where (λ u. owns email u && not (u.id == user_id)) db.users

module _ (env : Env) where
  -- A wrong code: the counter is committed before the answer.
  unfoldable pub reject_code : String → UserToken → Action Error
  unfolding count_attempt
  reject_code user_id row = do
    tx_execute env Call.record_failed_attempt (count_attempt row.id)
    commit_tx env Call.commit
    record_event env (record (event event_email_change_failed) {
      user_id = user_id;
      metadata = ("reason", text "wrong_code") ∷ [];
    })
    raise invalid_code

  unfoldable pub apply_change : String → UserToken → Action Error
  unfolding set_email consume revoke_all
  apply_change user_id row = do
    tx_insert env Call.set_email (claimed_by_other user_id row.target)
        (set_email user_id row.target)
    tx_execute env Call.consume (consume row.id env.db_now)
    tx_execute env Call.revoke_all_families (revoke_all user_id env.db_now)
    commit_tx env Call.commit
    record_event env (record (event event_email_changed) { user_id = user_id; email = row.target })

  -- The right code: the address may have been claimed since the request.
  unfoldable pub accept_code : String → UserToken → Action Error
  unfolding address_taken apply_change
  accept_code user_id row = do
    taken ← query env Call.address_taken (address_taken row.target)
    if taken then raise email_taken else apply_change user_id row

  unfoldable pub verify_row : String → String → UserToken → Action Error
  unfolding reject_code accept_code
  verify_row user_id code row =
      if is_some row.used_at || not (after row.expires_at env.now)
      then raise invalid_code
      else if leb max_attempts row.attempts
      then raise too_many_attempts
      else if not (env.sha256 code == row.code_hash)
      then reject_code user_id row
      else accept_code user_id row

  -- Service.Verify
  unfoldable pub verify : String → String → Action Error
  unfolding change_row verify_row
  verify user_id code = do
    begin_tx env Call.begin
    with_rollback (do
      found ← tx_query env Call.token (change_row user_id)
      row ← or_raise found invalid_code
      verify_row user_id code row)
