-- ===== src/UserTokens/Effects.antt =====
-- What the shared statements leave behind for one user.
use ecosystem_complete.Prelude.{
  ◌≡◌, String, Bool, false, ◌&&◌, not, Option, arith, ◌==◌, is_some, find_where, exists_where,
  exists-update,
}
use ecosystem_complete.Database.{Db, User, Time}
use ecosystem_complete.Session.Rotate.{is_live}
use ecosystem_complete.UserTokens.{consume, revoke_all}

-- The user has a session that a refresh could still continue.
unfoldable pub has_session : String → Db → Bool
has_session id db = exists_where (λ r. (r.user_id == id) && is_live r) db.refresh_tokens

-- The code has not been spent.
unfoldable pub is_unused : String → Db → Bool
is_unused id db = exists_where (λ t. (t.id == id) && not (is_some t.used_at)) db.user_tokens

abbrev pub user_row : String → Db → Option User
user_row id db = find_where (λ u. u.id == id) db.users

pub has_session-revoke_all :
    (id : String) (now : Time) (db : Db) → has_session id (revoke_all id now db) ≡ false
unfolding has_session revoke_all
has_session-revoke_all id now db = exists-update _ _ _ db.refresh_tokens (λ r. ground arith)

pub is_unused-consume :
    (id : String) (now : Time) (db : Db) → is_unused id (consume id now db) ≡ false
unfolding is_unused consume
is_unused-consume id now db = exists-update _ _ _ db.user_tokens (λ t. ground arith)
