-- ===== src/Login/Outcomes.antt =====
-- What one login answers, and what it leaves in the user's row.
use ecosystem_complete.Prelude.{
  ◌+◌, ◌≡◌, ◌≢◌, ◌⊎◌, inl, inr, String, true, false, none, some, pos, ◌-ℤ◌, arith, leb_ℤ,
}
use ecosystem_complete.Database.{User, Time, before}
use ecosystem_complete.Runtime.{Env, Call, World}
use ecosystem_complete.Runtime.Exec.{err}
use ecosystem_complete.Security.{normalize_email}
use ecosystem_complete.Session.{Meta}
use ecosystem_complete.Session.Issuer.{Issuer}
use ecosystem_complete.Login.{
  invalid_credentials, locked, Config, max_attempts, to_account, by_email, is_active, still_locked,
  lock_until, login,
}

pub lock_until-none :
    (issuer : Issuer) (cfg : Config) (env : Env) (u : User)
    → leb_ℤ (max_attempts cfg) (pos (u.failed_attempts + 1)) ≡ false
    → lock_until issuer cfg env (to_account u) ≡ none
unfolding lock_until
lock_until-none issuer cfg env u e = rw e

module _ (issuer : Issuer) (cfg : Config) (env : Env) (raw_email password : String) (meta : Meta)
    (w : World) where
  abbrev email : String
  email = normalize_email env raw_email

  -- While an account is locked, the answer is the time that is left, for the right password too, and
  -- no table changes.
  pub login_locked :
      (u : User) (until : Time)
      → env.fails Call.by_email ≡ false
      → by_email email w.db ≡ some u
      → u.locked_until ≡ some until
      → before env.now until ≡ true
      → let (r, w') = login issuer cfg env raw_email password meta w in
        (r ≡ err (locked (until -ℤ env.now))) × (w'.db ≡ w.db)
  unfolding login
  login_locked u until up found lock early = ground arith

  -- An address without an account, an account that is not active, and a wrong password before the
  -- limit are answered alike.
  pub login_uniform :
      ((c : Call) → env.fails c ≡ false)
      → ((by_email email w.db ≡ none)
          ⊎ ((u : User) × (by_email email w.db ≡ some u)
              × (still_locked u.locked_until env.now ≡ false)
              × ((is_active u.status ≡ false)
                  ⊎ ((env.verify_password (to_account u).password_hash password ≢ some true)
                      × (leb_ℤ (max_attempts cfg) (pos (u.failed_attempts + 1)) ≡ false)))))
      → (login issuer cfg env raw_email password meta w).0 ≡ err invalid_credentials
  unfolding login
  login_uniform running (inl missing) = ground (arith, running Call.by_email)
  login_uniform running (inr (u, found, free, inl inactive)) = ground (arith, running Call.by_email)
  login_uniform running (inr (u, found, free, inr (wrong, below))) = ground (
    arith,
    running Call.by_email,
    running Call.record_failure,
    lock_until-none issuer cfg env u below,
  )
