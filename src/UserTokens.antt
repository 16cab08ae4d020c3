-- ===== src/UserTokens.antt =====
-- The statements on seg.tb_user_token, seg.tb_user and seg.tb_refresh_token that password/postgres.go
-- and emailchange/postgres.go share.
pub mod Effects
use ecosystem_complete.Prelude.{
  ℕ, ◌+◌, String, Bool, true, false, ◌&&◌, not, Option, none, some, List, [], ◌∷◌, ◌==◌, ltb_ℤ,
  leb_ℤ, is_some, exists_where, count_where, update_where, if◌then◌else◌,
}
use ecosystem_complete.Database.{
  Db, User, UserToken, Purpose, Time, holds_text, password_reset, email_change,
}
use ecosystem_complete.Session.Rotate.{is_live, revoked}

abbrev pub same_purpose : Purpose → Purpose → Bool
same_purpose password_reset password_reset = true
same_purpose email_change email_change = true
same_purpose _ _ = false

-- tx_email = $1 AND dt_deleted_at IS NULL
abbrev pub owns : String → User → Bool
owns email u = holds_text u.email email && not (is_some u.deleted_at)

abbrev later_of : UserToken → Option UserToken → UserToken
later_of r none = r
later_of r (some s) = if ltb_ℤ r.created_at s.created_at then s else r

-- SELECT ... WHERE p ORDER BY dt_created_at DESC LIMIT 1; of equal times, the first row
unfoldable pub newest_where : (UserToken → Bool) → List UserToken → Option UserToken
newest_where p [] = none
newest_where p (r ∷ rows) =
    let rest = newest_where p rows in if p r then some (later_of r rest) else rest

abbrev max_of : Time → Option Time → Time
max_of t none = t
max_of t (some s) = if ltb_ℤ t s then s else t

abbrev max_created : (UserToken → Bool) → List UserToken → Option Time
max_created p [] = none
max_created p (r ∷ rows) =
    let rest = max_created p rows in if p r then some (max_of r.created_at rest) else rest

abbrev pub asked : Purpose → String → UserToken → Bool
asked purpose user_id t = (t.user_id == user_id) && same_purpose t.purpose purpose

-- LastRequestAt
unfoldable pub last_request_at : Purpose → String → Db → Option Time
last_request_at purpose user_id db = max_created (asked purpose user_id) db.user_tokens

-- CountRequestsSince
unfoldable pub count_requests_since : Purpose → String → Time → Db → ℕ
count_requests_since purpose user_id since db =
    count_where (λ t. asked purpose user_id t && leb_ℤ since t.created_at) db.user_tokens

-- The unique index on tx_code_hash
unfoldable pub code_taken : String → Db → Bool
code_taken hash db = exists_where (λ t. t.code_hash == hash) db.user_tokens

unfoldable pub add_user_token : UserToken → Db → Db
add_user_token t db = record db { user_tokens = t ∷ db.user_tokens }

abbrev pub one_more_try : UserToken → UserToken
one_more_try t = record t { attempts = t.attempts + 1 }

-- RecordFailedAttempt
unfoldable pub count_attempt : String → Db → Db
count_attempt id db = record db {
  user_tokens = update_where (λ t. t.id == id) one_more_try db.user_tokens;
}

abbrev pub used : Time → UserToken → UserToken
used now t = record t { used_at = some now }

-- Consume
unfoldable pub consume : String → Time → Db → Db
consume id now db = record db {
  user_tokens = update_where (λ t. t.id == id) (used now) db.user_tokens;
}

-- RevokeAllFamilies
unfoldable pub revoke_all : String → Time → Db → Db
revoke_all user_id now db = record db {
  refresh_tokens =
      update_where (λ r. (r.user_id == user_id) && is_live r) (revoked now) db.refresh_tokens;
}
