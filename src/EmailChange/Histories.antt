-- ===== src/EmailChange/Histories.antt =====
-- Any sequence of requests on the codes of a user, for an address change or for a password, each with
-- its own clock, entropy and failing calls.
use native.Mathlib.Nat.{le_refl}
use ecosystem_complete.Prelude.{
  eq_iff, ℕ, ◌+◌, ◌≤◌, ◌≡◌, refl, ◌⊎◌, inl, inr, String, arith, ◌==◌, Bool-cases, count_where,
  update_where, count-update-le, count-exists, if◌then◌else◌,
}
use ecosystem_complete.Database.{Db, Time}
use ecosystem_complete.Runtime.{Env, World}
use ecosystem_complete.Security.{normalize_email}
use ecosystem_complete.Security.Quota.{Quota}
use ecosystem_complete.Password.Stores.{request_reset_stores}
use ecosystem_complete.UserTokens.{used, add_user_token, count_attempt, consume, revoke_all}
use ecosystem_complete.Password.{reset_token, request_reset}
use ecosystem_complete.Password.Reset.{reset, set_password}
use ecosystem_complete.Password.Recovery.{reset_atomic}
use ecosystem_complete.EmailChange.{change_token, invalidate}
use ecosystem_complete.EmailChange
use ecosystem_complete.EmailChange.Verify.{verify, set_email}
use ecosystem_complete.EmailChange.Outcomes.{change_verify_atomic}
use ecosystem_complete.EmailChange.Requests.{is_pending, issued, none_pending, request_issues}

-- How many unspent codes could move the user's account.
unfoldable pub pending_codes : String → Db → ℕ
pending_codes user_id db = count_where (is_pending user_id) db.user_tokens

-- A statement that spends codes adds none.
pending_codes-count_attempt :
    (f id : String) (db : Db) → pending_codes f (count_attempt id db) ≤ pending_codes f db
unfolding pending_codes count_attempt
pending_codes-count_attempt f id db =
    count-update-le (is_pending f) (λ t. t.id == id) _ db.user_tokens (λ t h. h)

pending_codes-consume :
    (f id : String) (now : Time) (db : Db)
    → pending_codes f (consume id now db) ≤ pending_codes f db
unfolding pending_codes consume
pending_codes-consume f id now db =
    count-update-le (is_pending f) (λ t. t.id == id) (used now) db.user_tokens (λ t h. ground arith)

pending_codes-invalidate :
    (f id : String) (now : Time) (db : Db)
    → pending_codes f (invalidate id now db) ≤ pending_codes f db
unfolding pending_codes invalidate
pending_codes-invalidate f id now db =
    count-update-le (is_pending f) (is_pending id) (used now) db.user_tokens (λ t h. ground arith)

pending_codes-invalidate_self :
    (id : String) (now : Time) (db : Db) → pending_codes id (invalidate id now db) ≡ 0
unfolding pending_codes invalidate
pending_codes-invalidate_self id now db =
    count-exists (is_pending id) (update_where (is_pending id) (used now) db.user_tokens)
      (none_pending id now db.user_tokens)

pending_codes-add_reset :
    (f user_id email hash : String) (env : Env) (db : Db)
    → pending_codes f (add_user_token (reset_token env user_id email hash) db) ≡ pending_codes f db
unfolding pending_codes add_user_token count_where
pending_codes-add_reset f user_id email hash env db = ground arith

pending_codes-add_change :
    (f user_id email hash : String) (env : Env) (db : Db)
    → pending_codes f (add_user_token (change_token env user_id email hash) db)
      ≡ (if user_id == f then 1 else 0) + pending_codes f db
unfolding pending_codes add_user_token count_where
pending_codes-add_change f user_id email hash env db = ground arith

-- Each user has at most one code that could move the account.
abbrev pub HasOneCode : Db → Type 0
HasOneCode db = (f : String) → pending_codes f db ≤ 1

-- One request of a user or a stranger.
pub data Step (w : World) : World → Type 0 where
  requests :
      (env : Env) (quota : Quota) (user_id email password : String)
      → Step w (EmailChange.request env quota user_id email password w).1
  verifies : (env : Env) (user_id code : String) → Step w (verify env user_id code w).1
  requests_reset :
      (env : Env) (quota : Quota) (origin email : String)
      → Step w (request_reset env quota origin email w).1
  resets :
      (env : Env) (email code new_password : String)
      → Step w (reset env email code new_password w).1

pub data Reach (w : World) : World → Type 0 where
  here : Reach w w
  next : {v u : World} → Reach w v → Step v u → Reach w u

-- The code of another user's request, and of the user's own.
pending_codes-issued :
    (f : String) (env : Env) (quota : Quota) (user_id email : String) (k : ℕ) (db : Db)
    → (pending_codes f (issued env quota user_id email k db) ≤ pending_codes f db)
      ⊎ (pending_codes f (issued env quota user_id email k db) ≤ 1)
pending_codes-issued f env quota user_id email k db = elim (Bool-cases (user_id == f)) [
  | inl same ↦
      let none_left : pending_codes f (invalidate user_id env.db_now db) ≡ 0 =
        rw (← (eq_iff user_id f).0 same) (pending_codes-invalidate_self user_id env.db_now db) in
      inr (rw (pending_codes-add_change, none_left, same) (omega arith))
  | inr other ↦ inl (
      rw (pending_codes-add_change, other)
        (omega (arith, pending_codes-invalidate f user_id env.db_now db)))
]

pending_codes-verify :
    (f : String) (env : Env) (user_id code : String) (w : World)
    → pending_codes f (verify env user_id code w).1.db ≤ pending_codes f w.db
unfolding revoke_all consume set_email pending_codes
pending_codes-verify f env user_id code w = elim (change_verify_atomic env user_id code w) [
  | inl same ↦ rw same (le_refl _)
  | inr (t, found, inl (_, e)) ↦ rw e (pending_codes-count_attempt f t.id w.db)
  | inr (t, found, inr (_, e)) ↦
      rw e (pending_codes-consume f t.id env.db_now (set_email user_id t.target w.db))
]

pending_codes-reset :
    (f : String) (env : Env) (email code new_password : String) (w : World)
    → pending_codes f (reset env email code new_password w).1.db ≤ pending_codes f w.db
unfolding revoke_all consume set_password pending_codes
pending_codes-reset f env email code new_password w =
    elim (reset_atomic env email code new_password w) [
      | inl same ↦ rw same (le_refl _)
      | inr (t, found, inl (_, e)) ↦ rw e (pending_codes-count_attempt f t.id w.db)
      | inr (t, found, inr e) ↦ rw e (
          pending_codes-consume f t.id env.db_now
            (set_password t.user_id (env.hash_password new_password) w.db))
    ]

pending_codes-request_reset :
    (f : String) (env : Env) (quota : Quota) (origin email : String) (w : World)
    → pending_codes f (request_reset env quota origin email w).1.db ≡ pending_codes f w.db
pending_codes-request_reset f env quota origin email w =
    elim (request_reset_stores env quota origin email w) [
      | inl same ↦ rw same refl
      | inr (id, target, hash, e) ↦ rw e (pending_codes-add_reset f id target hash env w.db)
    ]

Step-HasOneCode : {w u : World} → Step w u → HasOneCode w.db → HasOneCode u.db
Step-HasOneCode {w} (requests env quota id email password) h f =
    elim (request_issues env quota id email password w) [
      | inl same ↦ rw same (h f)
      | inr (k, e) ↦ rw e (
          omega
            (arith, h f, pending_codes-issued f env quota id (normalize_email env email) k w.db))
    ]
Step-HasOneCode {w} (verifies env id code) h f =
    omega (arith, h f, pending_codes-verify f env id code w)
Step-HasOneCode {w} (requests_reset env quota origin email) h f =
    rw (pending_codes-request_reset f env quota origin email w) (h f)
Step-HasOneCode {w} (resets env email code new_password) h f =
    omega (arith, h f, pending_codes-reset f env email code new_password w)

-- Over any history of requests and verifications of address changes and of password resets, with any
-- calls failing, each user has at most one unspent code that could move the account, if each had at
-- most one at the start.
pub Reach-HasOneCode : {w u : World} → Reach w u → HasOneCode w.db → HasOneCode u.db
Reach-HasOneCode here h = h
Reach-HasOneCode (next r st) h = Step-HasOneCode st (Reach-HasOneCode r h)
