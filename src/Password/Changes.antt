-- ===== src/Password/Changes.antt =====
-- What Change guarantees for one request.
use mathlib.Core.Option
use ecosystem_complete.Prelude.{
  ◌≡◌, ◌≢◌, ap, ◌∙◌, ◌⊎◌, inl, inr, String, true, false, none, some, arith, eq_iff, Option-cases,
}
use ecosystem_complete.Database.{Db, User, or_empty}
use ecosystem_complete.Runtime.{Env, World}
use ecosystem_complete.Runtime.Exec.{ok}
use ecosystem_complete.UserTokens.{revoke_all}
use ecosystem_complete.Password.Reset.{set_password, with_password}
use ecosystem_complete.Password.Change.{user_by_id, change}
use ecosystem_complete.UserTokens.Effects.{has_session, user_row, has_session-revoke_all}
use ecosystem_complete.Password.Recovery.{user_row-set_password}

module _ (env : Env) (user_id current new_password : String) (w : World) where
  abbrev pub changed : Db
  changed =
      revoke_all user_id env.db_now (set_password user_id (env.hash_password new_password) w.db)

  change_ok_found :
      (w' : World) (u : User)
      → change env user_id current new_password w ≡ (ok tt, w')
      → user_by_id user_id w.db ≡ some u
      → (or_empty u.password_hash ≢ "")
        × (env.verify_password (or_empty u.password_hash) current ≡ some true)
        × (w'.db ≡ changed)
  unfolding change
  change_ok_found w' u e found =
      (λ p. ground (arith, eq_iff (or_empty u.password_hash) ""), ground arith, ground arith)

  change_ok_missing :
      (w' : World)
      → change env user_id current new_password w ≡ (ok tt, w')
      → user_by_id user_id w.db ≡ none
      → ⊥
  unfolding change
  change_ok_missing w' e missing = ground arith

  has_session-changed : has_session user_id changed ≡ false
  has_session-changed =
      has_session-revoke_all user_id env.db_now
        (set_password user_id (env.hash_password new_password) w.db)

  user_row-changed :
      user_row user_id changed
      ≡ Option.map (with_password (env.hash_password new_password)) (user_row user_id w.db)
  unfolding revoke_all
  user_row-changed = user_row-set_password user_id (env.hash_password new_password) w.db

  -- A change that succeeds was asked for an account that is not deleted, has a password, and whose
  -- password is the one given as the current one. It sets the new password and leaves no session of
  -- the user that can be continued.
  pub change_ok :
      (w' : World)
      → change env user_id current new_password w ≡ (ok tt, w')
      → (u : User) × (user_by_id user_id w.db ≡ some u)
        × (or_empty u.password_hash ≢ "")
        × (env.verify_password (or_empty u.password_hash) current ≡ some true)
        × (user_row user_id w'.db
            ≡ Option.map (with_password (env.hash_password new_password)) (user_row user_id w.db))
        × (has_session user_id w'.db ≡ false)
  change_ok w' e = elim (Option-cases (user_by_id user_id w.db)) [
    | inl missing ↦ absurd (change_ok_missing w' e missing)
    | inr (u, found) ↦
        let (given, right, db') = change_ok_found w' u e found in
        (
          u,
          found,
          given,
          right,
          ap (user_row user_id) db' ∙ user_row-changed,
          ap (has_session user_id) db' ∙ has_session-changed,
        )
  ]

  -- Whatever calls fail, a change sets the password and ends the sessions together, or changes no
  -- table.
  pub change_atomic :
      ((change env user_id current new_password w).1.db ≡ w.db)
      ⊎ (((change env user_id current new_password w).0 ≡ ok tt)
          × ((change env user_id current new_password w).1.db ≡ changed))
  unfolding change
  change_atomic = ground arith
