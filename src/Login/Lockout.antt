-- ===== src/Login/Lockout.antt =====
-- The lockout over several logins.
use ecosystem_complete.Prelude.{
  ◌+◌, ◌≤◌, ◌≡◌, ◌≢◌, refl, inl, inr, String, true, false, Option, none, some, List, [], ◌∷◌, ℤ,
  pos, ◌+ℤ◌, ◌-ℤ◌, ◌≤ℤ◌, arith, ◌==◌, leb_ℤ, length, eq_iff, find_where, update_where, Bool-cases,
  +ℤ_parts, -ℤ_parts,
}
use ecosystem_complete.Database.{Db, User, Time, before}
use ecosystem_complete.Runtime.{Env, Call, World}
use ecosystem_complete.Runtime.Exec.{err}
use ecosystem_complete.Security.{normalize_email}
use ecosystem_complete.Session.{Meta}
use ecosystem_complete.Session.Issuer.{Issuer}
use ecosystem_complete.Login.{
  Config, locked, max_attempts, lock_duration, to_account, owns, by_email, fail_once,
  record_failure, is_active, still_locked, lock_until, login,
}
use ecosystem_complete.Login.Outcomes.{login_locked, lock_until-none}

-- After a failure is recorded, the row that SELECT finds for the address is the failed one.
find-fail :
    (email id : String) (t : Option Time) (u : User) (rows : List User)
    → find_where (owns email) rows ≡ some u
    → u.id ≡ id
    → find_where (owns email) (update_where (λ v. v.id == id) (fail_once t) rows)
      ≡ some (fail_once t u)
unfolding find_where update_where
find-fail email id t u [] e same = cc
find-fail email id t u (v ∷ rows) e same =
    ground (arith, find-fail email id t u rows, eq_iff u.id id)

by_email-record_failure :
    (email : String) (t : Option Time) (u : User) (db : Db)
    → by_email email db ≡ some u
    → by_email email (record_failure u.id t db) ≡ some (fail_once t u)
unfolding by_email record_failure
by_email-record_failure email t u db e = find-fail email u.id t u db.users e refl

pub lock_duration_pos : (cfg : Config) → pos 1 ≤ℤ lock_duration cfg
unfolding lock_duration
lock_duration_pos cfg = ground arith

module _ (issuer : Issuer) (cfg : Config) (env : Env) (raw_email : String) (meta : Meta) where
  abbrev email : String
  email = normalize_email env raw_email

  -- A wrong password for an active account that is not locked is counted.
  wrong_password :
      (password : String) (u : User) (w : World)
      → ((c : Call) → env.fails c ≡ false)
      → by_email email w.db ≡ some u
      → still_locked u.locked_until env.now ≡ false
      → is_active u.status ≡ true
      → env.verify_password (to_account u).password_hash password ≢ some true
      → by_email email (login issuer cfg env raw_email password meta w).1.db
        ≡ some (fail_once (lock_until issuer cfg env (to_account u)) u)
  unfolding login
  wrong_password password u w running found free active wrong = ground (
    arith,
    running Call.by_email,
    running Call.record_failure,
    by_email-record_failure email (lock_until issuer cfg env (to_account u)) u w.db found,
  )

  lock_until-some :
      (u : User)
      → leb_ℤ (max_attempts cfg) (pos (u.failed_attempts + 1)) ≡ true
      → lock_until issuer cfg env (to_account u) ≡ some (env.now +ℤ lock_duration cfg)
  unfolding lock_until
  lock_until-some u e = rw e

  lock_ahead : before env.now (env.now +ℤ lock_duration cfg) ≡ true
  lock_ahead = ground (arith, lock_duration_pos cfg, +ℤ_parts env.now (lock_duration cfg))

  -- The account is found, and it is locked now.
  abbrev Locked : World → Type 0
  Locked w =
      (u : User) × (by_email email w.db ≡ some u) × (still_locked u.locked_until env.now ≡ true)

  login-Locked :
      (password : String) (w : World)
      → env.fails Call.by_email ≡ false
      → Locked w
      → Locked (login issuer cfg env raw_email password meta w).1
  unfolding login
  login-Locked password w up (u, found, lock) = (u, ground arith, lock)

  -- One login for each password, whatever the answers.
  unfoldable pub try_passwords : List String → World → World
  try_passwords [] w = w
  try_passwords (p ∷ ps) w = try_passwords ps (login issuer cfg env raw_email p meta w).1

  abbrev AllWrong : String → List String → Type 0
  AllWrong hash [] = Unit {0}
  AllWrong hash (p ∷ ps) = (env.verify_password hash p ≢ some true) × AllWrong hash ps

  try_passwords-Locked :
      (ps : List String) (w : World)
      → env.fails Call.by_email ≡ false
      → Locked w
      → Locked (try_passwords ps w)
  unfolding try_passwords
  try_passwords-Locked [] w up h = h
  try_passwords-Locked (p ∷ ps) w up h =
      try_passwords-Locked ps (login issuer cfg env raw_email p meta w).1 up (login-Locked p w up h)

  module _ (running : (c : Call) → env.fails c ≡ false) where
    lock_by_guessing :
        (ps : List String) (u : User) (w : World)
        → by_email email w.db ≡ some u
        → still_locked u.locked_until env.now ≡ false
        → is_active u.status ≡ true
        → AllWrong (to_account u).password_hash ps
        → 1 ≤ length ps
        → max_attempts cfg ≤ℤ pos (u.failed_attempts + length ps)
        → Locked (try_passwords ps w)
    unfolding try_passwords
    lock_by_guessing [] u w found free active wrong some_try many = absurd (omega arith)
    lock_by_guessing (p ∷ ps) u w found free active wrong some_try many =
        let w1 = (login issuer cfg env raw_email p meta w).1 in
        let counted = wrong_password p u w running found free active wrong.0 in
        elim (Bool-cases (leb_ℤ (max_attempts cfg) (pos (u.failed_attempts + 1)))) [
          | inl limit ↦ try_passwords-Locked ps w1 (running Call.by_email) (
            fail_once (some (env.now +ℤ lock_duration cfg)) u,
            rw (lock_until-some u limit) at counted,
            lock_ahead,
          )
          | inr below ↦
              lock_by_guessing ps (fail_once none u) w1
                (rw (lock_until-none issuer cfg env u below) at counted) free active wrong.1
                (ground arith) (ground arith)
        ]

    answer_locked :
        (password : String) (v : User) (w : World) (until : Option Time)
        → by_email email w.db ≡ some v
        → v.locked_until ≡ until
        → still_locked until env.now ≡ true
        → (left : ℤ) × (pos 1 ≤ℤ left)
          × ((login issuer cfg env raw_email password meta w).0 ≡ err (locked left))
    answer_locked password v w none found e lock = absurd (ground arith)
    answer_locked password v w (some t) found e lock = (
      t -ℤ env.now,
      ground (arith, -ℤ_parts t env.now),
      (login_locked issuer cfg env raw_email password meta w v t (running Call.by_email) found e
          lock).0,
    )

    -- At one instant and while calls succeed: from an active account that is not locked, once wrong passwords and earlier failures together
    -- reach the limit, and there was at least one, every further login meets the lock, with the right
    -- password too, for a positive time.
    pub five_wrong_passwords :
        (ps : List String) (password : String) (u : User) (w : World)
        → by_email email w.db ≡ some u
        → still_locked u.locked_until env.now ≡ false
        → is_active u.status ≡ true
        → AllWrong (to_account u).password_hash ps
        → 1 ≤ length ps
        → max_attempts cfg ≤ℤ pos (u.failed_attempts + length ps)
        → (left : ℤ) × (pos 1 ≤ℤ left)
          × ((login issuer cfg env raw_email password meta (try_passwords ps w)).0
              ≡ err (locked left))
    five_wrong_passwords ps password u w found free active wrong some_try many =
        let (v, found', lock) = lock_by_guessing ps u w found free active wrong some_try many in
        answer_locked password v (try_passwords ps w) v.locked_until found' refl lock
