-- ===== src/Session.antt =====
-- api/internal/session: the credentials of a session. `Issue` opens a family of refresh tokens with
-- its first token (session.go, postgres.go); Session/Rotate is refresh.go and refresh_postgres.go.
pub mod Issuer
pub mod Rotate
pub mod Families
pub mod Rotation
pub mod Logout
pub mod Histories
pub mod Access
use ecosystem_complete.Prelude.{
  String, Bool, none, [], ◌∷◌, ◌++◌, ℤ, ◌+ℤ◌, ◌==◌, exists_where, if◌then◌else◌,
}
use ecosystem_complete.Database.{Db, RefreshToken, Time, Duration, whole_seconds, null_if_empty}
use ecosystem_complete.Runtime.{Env, Call}
use ecosystem_complete.Runtime.Exec.{Exec, Action, pure, raise, attempt, insert, ◌>>=◌, ◌>>◌}

pub data Error : Type 0 where
  missing_sub invalid_refresh refresh_reused : Error

pub record Config : Type 0 where
  pub secret : String
  pub access_ttl : Duration
  pub refresh_ttl : Duration
  pub issuer : String

pub record Tokens : Type 0 where
  pub access_token : String
  pub expires_in : ℤ
  pub refresh_token : String
  pub refresh_expires_in : ℤ

pub record RefreshRecord : Type 0 where
  pub user_id : String
  pub token_hash : String
  pub family : String
  pub device : String
  pub user_agent : String
  pub ip : String
  pub expires_at : Time

-- The client context recorded with the session.
pub record Meta : Type 0 where
  pub device : String
  pub user_agent : String
  pub ip : String

-- The row that both INSERT statements write.
unfoldable pub to_row : RefreshRecord → RefreshToken
to_row r = record {
  user_id = r.user_id;
  token_hash = r.token_hash;
  family = r.family;
  device = null_if_empty r.device;
  user_agent = null_if_empty r.user_agent;
  ip = null_if_empty r.ip;
  expires_at = r.expires_at;
  revoked_at = none;
}

-- UNIQUE (tx_token_hash)
unfoldable pub hash_taken : String → Db → Bool
hash_taken hash db = exists_where (λ row. row.token_hash == hash) db.refresh_tokens

unfoldable pub add_refresh_token : RefreshRecord → Db → Db
unfolding to_row
add_refresh_token r db = record db { refresh_tokens = to_row r ∷ db.refresh_tokens }

module _ (env : Env) where
  -- PostgresRefreshStore.StoreRefreshToken
  unfoldable pub store_refresh_token : RefreshRecord → Action Error
  unfolding hash_taken add_refresh_token
  store_refresh_token r =
      insert env Call.store_refresh_token (hash_taken r.token_hash) (add_refresh_token r)

  -- newRefreshToken: the token and its hash
  unfoldable pub new_refresh_token : Exec Error (String × String)
  new_refresh_token = attempt env Call.rand_refresh (env.new_token, env.sha256 env.new_token)

  -- signAccess
  unfoldable pub sign_access : Config → String → Time → Exec Error String
  sign_access cfg user_id now = do
    jti ← attempt env Call.rand_jti env.new_jti
    attempt env Call.sign_token
        (env.sign cfg.secret user_id cfg.issuer now (now +ℤ cfg.access_ttl) jti)

  unfoldable pub token_pair : Config → String → String → Tokens
  unfolding whole_seconds
  token_pair cfg access refresh = record {
    access_token = access;
    expires_in = whole_seconds cfg.access_ttl;
    refresh_token = refresh;
    refresh_expires_in = whole_seconds cfg.refresh_ttl;
  }

  -- Issuer.Issue
  unfoldable pub issue : Config → String → Meta → Exec Error Tokens
  unfolding store_refresh_token new_refresh_token sign_access token_pair
  issue cfg user_id meta = if user_id == "" then raise missing_sub else do
    minted ← new_refresh_token
    family ← attempt env Call.rand_family env.new_family
    store_refresh_token (record {
      user_id = user_id;
      token_hash = minted.1;
      family = family;
      device = meta.device;
      user_agent = meta.user_agent;
      ip = meta.ip;
      expires_at = env.now +ℤ cfg.refresh_ttl;
    })
    access ← sign_access cfg user_id env.now
    pure (token_pair cfg access minted.0)
