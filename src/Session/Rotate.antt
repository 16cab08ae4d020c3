-- ===== src/Session/Rotate.antt =====
-- refresh.go and refresh_postgres.go: rotation, reuse detection and logout.
use ecosystem_complete.Prelude.{
  String, Bool, ◌&&◌, not, Option, none, some, ◌+ℤ◌, ◌==◌, is_some, find_where, update_where,
  if◌then◌else◌,
}
use ecosystem_complete.Database.{Db, RefreshToken, Time, after, or_empty}
use ecosystem_complete.Runtime.{Env, Call}
use ecosystem_complete.Runtime.Exec.{
  Exec, Action, pure, raise, or_raise, begin_tx, tx_query, tx_execute, tx_insert, commit_tx,
  with_rollback, ◌>>=◌, ◌>>◌,
}
use ecosystem_complete.Session.{
  Error, invalid_refresh, refresh_reused, Config, Tokens, Meta, hash_taken, add_refresh_token,
  new_refresh_token, sign_access, token_pair,
}

pub record TokenRow : Type 0 where
  pub user_id : String
  pub family : String
  pub device : String
  pub user_agent : String
  pub ip : String
  pub expires_at : Time
  pub revoked_at : Option Time

-- SELECT ... WHERE tx_token_hash = $1 FOR UPDATE
unfoldable pub find_token : String → Db → Option RefreshToken
find_token hash db = find_where (λ row. row.token_hash == hash) db.refresh_tokens

unfoldable pub to_token_row : RefreshToken → TokenRow
to_token_row r = record {
  user_id = r.user_id;
  family = r.family;
  device = or_empty r.device;
  user_agent = or_empty r.user_agent;
  ip = or_empty r.ip;
  expires_at = r.expires_at;
  revoked_at = r.revoked_at;
}

abbrev pub is_live : RefreshToken → Bool
is_live r = not (is_some r.revoked_at)

abbrev pub revoked : Time → RefreshToken → RefreshToken
revoked t r = record r { revoked_at = some t }

-- UPDATE ... WHERE tx_token_hash = $1 AND dt_revoked_at IS NULL
unfoldable pub revoke_token : String → Time → Db → Db
revoke_token hash t db = record db {
  refresh_tokens =
      update_where (λ r. (r.token_hash == hash) && is_live r) (revoked t) db.refresh_tokens;
}

-- UPDATE ... WHERE co_token_family = $1 AND dt_revoked_at IS NULL
unfoldable pub revoke_family_rows : String → Time → Db → Db
revoke_family_rows family t db = record db {
  refresh_tokens =
      update_where (λ r. (r.family == family) && is_live r) (revoked t) db.refresh_tokens;
}

-- The family comes from a subselect, which is NULL, and so equal to nothing, for an unknown hash.
unfoldable pub revoke_family_of : String → Time → Db → Db
unfolding find_token revoke_family_rows
revoke_family_of hash t db = elim (find_token hash db) [
  | none ↦ db
  | some row ↦ revoke_family_rows row.family t db
]

module _ (env : Env) where
  -- rotateTx.Token, with the caller's translation of ErrNoToken
  unfoldable pub read_token : String → Exec Error (Option TokenRow)
  unfolding find_token to_token_row
  read_token hash = do
    found ← tx_query env Call.token (find_token hash)
    pure (elim found [ none ↦ none | some r ↦ some (to_token_row r) ])

  -- What Refresh does with a revoked token: it is the theft signal.
  unfoldable pub punish_reuse : String → Exec Error Tokens
  unfolding revoke_family_of
  punish_reuse hash = do
    tx_execute env Call.revoke_family (revoke_family_of hash env.db_now)
    commit_tx env Call.commit
    raise refresh_reused

  -- What Refresh does with a live token.
  unfoldable pub replace_token : Config → String → TokenRow → Meta → Exec Error Tokens
  unfolding revoke_token new_refresh_token sign_access token_pair hash_taken add_refresh_token
  replace_token cfg hash row meta = do
    tx_execute env Call.revoke (revoke_token hash env.db_now)
    minted ← new_refresh_token env
    tx_insert env Call.insert_refresh_token (hash_taken minted.1) (
        add_refresh_token (record {
          user_id = row.user_id;
          token_hash = minted.1;
          family = row.family;
          device = row.device;
          user_agent = row.user_agent;
          ip = meta.ip;
          expires_at = env.now +ℤ cfg.refresh_ttl;
        }))
    commit_tx env Call.commit
    access ← sign_access env cfg row.user_id env.now
    pure (token_pair env cfg access minted.0)

  unfoldable pub rotate_row : Config → String → Meta → TokenRow → Exec Error Tokens
  unfolding punish_reuse replace_token
  rotate_row cfg hash meta row =
      if is_some row.revoked_at
      then punish_reuse hash
      else if not (after row.expires_at env.now)
      then raise invalid_refresh
      else replace_token cfg hash row meta

  -- Rotator.Refresh
  unfoldable pub refresh : Config → String → Meta → Exec Error Tokens
  unfolding read_token rotate_row
  refresh cfg presented meta = if presented == "" then raise invalid_refresh else do
    begin_tx env Call.begin
    with_rollback (do
      found ← read_token (env.sha256 presented)
      row ← or_raise found invalid_refresh
      rotate_row cfg (env.sha256 presented) meta row)

  -- Rotator.Logout: an unknown token is a success too.
  unfoldable pub logout : String → Action Error
  unfolding read_token revoke_family_of
  logout presented = if presented == "" then pure tt else do
    begin_tx env Call.begin
    with_rollback (do
      found ← read_token (env.sha256 presented)
      elim found [
        | none ↦ pure tt
        | some _ ↦ do
          tx_execute env Call.revoke_family (revoke_family_of (env.sha256 presented) env.db_now)
          commit_tx env Call.commit
      ])
