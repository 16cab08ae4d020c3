-- ===== src/Database.antt =====
-- The rows of the `seg` schema that the Go code reads and writes: one record for each table, with the
-- columns that a statement of api/internal names, and the database as its tables.

use ecosystem_complete.Prelude.{
  Bool, false, ℕ, suc, ◌/◌, String, Bool, Option, none, some, List, ℤ, pos, negsuc, sub_ℕ, ltb_ℤ,
  ◌==◌, get_or, if◌then◌else◌,
}

-- time.Time and the `timestamp` columns, time.Duration, in nanoseconds
abbrev pub Time : Type 0
Time = ℤ

abbrev pub Duration : Type 0
Duration = ℤ

-- a.After(b), a.Before(b)
abbrev pub after : Time → Time → Bool
after a b = ltb_ℤ b a

abbrev pub before : Time → Time → Bool
before a b = ltb_ℤ a b

-- int(d.Seconds()): the whole seconds, towards zero
unfoldable pub whole_seconds : Duration → ℤ
whole_seconds (pos n) = pos (n / 1_000_000_000)
whole_seconds (negsuc n) = sub_ℕ 0 (suc n / 1_000_000_000)

-- NULLIF($1, '') and COALESCE(c, '')
abbrev pub null_if_empty : String → Option String
null_if_empty s = if s == "" then none else some s

abbrev pub or_empty : Option String → String
or_empty o = get_or o ""

-- c = $1 for a column that can be NULL
abbrev pub holds_text : Option String → String → Bool
holds_text none s = false
holds_text (some t) s = t == s

abbrev pub minute : ℕ
minute = 60_000_000_000

-- public.suspendable_status
pub data Status : Type 0 where
  active inactive suspended : Status

-- seg.tb_user
pub record User : Type 0 where
  pub id : String
  pub name : Option String
  pub email : Option String
  pub password_hash : Option String
  pub email_verified_at : Option Time
  pub failed_attempts : ℕ
  pub locked_until : Option Time
  pub status : Status
  pub created_at : Time
  pub deleted_at : Option Time

-- seg.tb_refresh_token
pub record RefreshToken : Type 0 where
  pub user_id : String
  pub token_hash : String
  pub family : String
  pub device : Option String
  pub user_agent : Option String
  pub ip : Option String
  pub expires_at : Time
  pub revoked_at : Option Time

-- The purposes of seg.tb_user_token that the code issues.
pub data Purpose : Type 0 where
  password_reset email_change : Purpose

-- seg.tb_user_token
pub record UserToken : Type 0 where
  pub id : String
  pub user_id : String
  pub purpose : Purpose
  pub code_hash : String
  pub target : String
  pub attempts : ℕ
  pub expires_at : Time
  pub used_at : Option Time
  pub created_at : Time

-- seg.tb_signup_request
pub record SignupRequest : Type 0 where
  pub email : String
  pub name : String
  pub password_hash : String
  pub code_hash : String
  pub attempts : ℕ
  pub expires_at : Time

-- seg.tb_user_identity
pub record UserIdentity : Type 0 where
  pub user_id : String
  pub provider : String
  pub subject : String
  pub email : Option String
  pub deleted_at : Option Time

-- seg.tb_role
pub record RoleRow : Type 0 where
  pub id : String
  pub name : String
  pub description : Option String
  pub status : Status
  pub deleted_at : Option Time

-- seg.tb_permission; `section` is tx_module
pub record PermissionRow : Type 0 where
  pub id : String
  pub code : String
  pub section : String
  pub name : String
  pub status : Status
  pub deleted_at : Option Time

pub record Db : Type 0 where
  pub users : List User
  pub refresh_tokens : List RefreshToken
  pub user_tokens : List UserToken
  pub signup_requests : List SignupRequest
  pub identities : List UserIdentity
  pub roles : List RoleRow
  pub permissions : List PermissionRow
  -- seg.tb_user_role: user, role
  pub user_roles : List (String × String)
  -- seg.tb_role_permission: role, permission
  pub role_permissions : List (String × String)
