-- ===== src/Password/Recovery.antt =====
-- What Reset guarantees for one request.
use mathlib.Core.Option
use ecosystem_complete.Prelude.{
  ◌<◌, ◌≡◌, refl, ap, ◌∙◌, ◌⊎◌, inl, inr, String, true, false, none, some, arith, ◌==◌, find-update,
  Option-cases,
}
use ecosystem_complete.Database.{Db, UserToken, after}
use ecosystem_complete.Runtime.{Env, World}
use ecosystem_complete.Runtime.Exec.{Result, ok, err}
use ecosystem_complete.Security.{normalize_email}
use ecosystem_complete.UserTokens.{count_attempt, consume, revoke_all}
use ecosystem_complete.UserTokens.Effects.{
  has_session, is_unused, user_row, has_session-revoke_all, is_unused-consume,
}
use ecosystem_complete.Password.{Error, invalid_code}
use ecosystem_complete.Password.Reset.{reset, reset_row, set_password, with_password, max_attempts}

pub user_row-set_password :
    (id hash : String) (db : Db)
    → user_row id (set_password id hash db) ≡ Option.map (with_password hash) (user_row id db)
unfolding set_password
user_row-set_password id hash db =
    find-update (λ u. u.id == id) (with_password hash) db.users (λ u. refl)

module _ (env : Env) (raw_email code new_password : String) (w : World) where
  abbrev email : String
  email = normalize_email env raw_email

  -- The database when the reset is committed.
  abbrev pub recovered : UserToken → Db
  recovered t =
      revoke_all t.user_id env.db_now
        (consume t.id env.db_now (set_password t.user_id (env.hash_password new_password) w.db))

  reset_ok_found :
      (w' : World) (t : UserToken)
      → reset env raw_email code new_password w ≡ (ok tt, w')
      → reset_row email w.db ≡ some t
      → (after t.expires_at env.now ≡ true)
        × (t.attempts < max_attempts)
        × ((env.sha256 code == t.code_hash) ≡ true)
        × (w'.db ≡ recovered t)
  unfolding reset
  reset_ok_found w' t e found = ground arith

  reset_ok_missing :
      (w' : World)
      → reset env raw_email code new_password w ≡ (ok tt, w')
      → reset_row email w.db ≡ none
      → ⊥
  unfolding reset
  reset_ok_missing w' e missing = ground arith

  recovered_effects :
      (t : UserToken)
      → (user_row t.user_id (recovered t)
          ≡ Option.map (with_password (env.hash_password new_password)) (user_row t.user_id w.db))
        × (is_unused t.id (recovered t) ≡ false)
        × (has_session t.user_id (recovered t) ≡ false)
  unfolding revoke_all consume is_unused
  recovered_effects t = (
    user_row-set_password t.user_id (env.hash_password new_password) w.db,
    is_unused-consume t.id env.db_now
        (set_password t.user_id (env.hash_password new_password) w.db),
    has_session-revoke_all t.user_id env.db_now
        (consume t.id env.db_now (set_password t.user_id (env.hash_password new_password) w.db)),
  )

  -- A reset that succeeds was for an unused, unexpired code of the address with fewer than five
  -- wrong tries behind it, and the code matched. It sets the password of the code's user and lifts
  -- their lock, spends the code, and leaves no session of theirs that can be continued.
  pub reset_ok :
      (w' : World)
      → reset env raw_email code new_password w ≡ (ok tt, w')
      → (t : UserToken) × (reset_row email w.db ≡ some t)
        × (after t.expires_at env.now ≡ true)
        × (t.attempts < max_attempts)
        × ((env.sha256 code == t.code_hash) ≡ true)
        × (user_row t.user_id w'.db
            ≡ Option.map (with_password (env.hash_password new_password)) (user_row t.user_id w.db))
        × (is_unused t.id w'.db ≡ false)
        × (has_session t.user_id w'.db ≡ false)
  reset_ok w' e = elim (Option-cases (reset_row email w.db)) [
    | inl missing ↦ absurd (reset_ok_missing w' e missing)
    | inr (t, found) ↦
        let (unexpired, tries, matches, db') = reset_ok_found w' t e found in
        let (password, spent, ended) = recovered_effects t in
        (
          t,
          found,
          unexpired,
          tries,
          matches,
          ap (user_row t.user_id) db' ∙ password,
          ap (is_unused t.id) db' ∙ spent,
          ap (has_session t.user_id) db' ∙ ended,
        )
  ]

  abbrev pub Recovered : UserToken → Result Error (Unit {0}) × World → Type 0
  Recovered t (r, w') =
      ((r ≡ err invalid_code) × (w'.db ≡ count_attempt t.id w.db)) ⊎ (w'.db ≡ recovered t)

  reset_unknown :
      reset_row email w.db ≡ none → (reset env raw_email code new_password w).1.db ≡ w.db
  unfolding reset
  reset_unknown missing = ground arith

  reset_known :
      (t : UserToken)
      → reset_row email w.db ≡ some t
      → ((reset env raw_email code new_password w).1.db ≡ w.db)
        ⊎ Recovered t (reset env raw_email code new_password w)
  unfolding reset
  reset_known t found = ground arith

  -- Whatever calls fail, a reset changes nothing, or counts one wrong try on the code that it judged
  -- and answers that the code is invalid, or sets the password, spends the code and ends the sessions
  -- together.
  pub reset_atomic :
      ((reset env raw_email code new_password w).1.db ≡ w.db)
      ⊎ ((t : UserToken) × (reset_row email w.db ≡ some t)
          × Recovered t (reset env raw_email code new_password w))
  reset_atomic = elim (Option-cases (reset_row email w.db)) [
    | inl missing ↦ inl (reset_unknown missing)
    | inr (t, found) ↦ elim (reset_known t found) [
      | inl same ↦ inl same
      | inr changed ↦ inr (t, found, changed)
    ]
  ]
