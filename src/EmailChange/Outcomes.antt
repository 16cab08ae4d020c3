-- ===== src/EmailChange/Outcomes.antt =====
-- What Verify guarantees for one request.
use mathlib.Core.Option
use ecosystem_complete.Prelude.{
  ◌<◌, ◌≡◌, refl, ap, ◌∙◌, ◌⊎◌, inl, inr, String, true, false, none, some, arith, ◌==◌, find-update,
  Option-cases,
}
use ecosystem_complete.Database.{Db, UserToken, after}
use ecosystem_complete.Runtime.{Env, World}
use ecosystem_complete.Runtime.Exec.{Result, ok, err}
use ecosystem_complete.UserTokens.{count_attempt, consume, revoke_all}
use ecosystem_complete.UserTokens.Effects.{
  has_session, is_unused, user_row, has_session-revoke_all, is_unused-consume,
}
use ecosystem_complete.EmailChange.{Error, invalid_code, address_taken}
use ecosystem_complete.EmailChange.Verify.{verify, change_row, set_email, with_email, max_attempts}

user_row-set_email :
    (id email : String) (db : Db)
    → user_row id (set_email id email db) ≡ Option.map (with_email email) (user_row id db)
unfolding set_email
user_row-set_email id email db =
    find-update (λ u. u.id == id) (with_email email) db.users (λ u. refl)

module _ (env : Env) (user_id code : String) (w : World) where
  -- The database when the change is committed.
  abbrev pub moved : UserToken → Db
  moved t =
      revoke_all user_id env.db_now (consume t.id env.db_now (set_email user_id t.target w.db))

  verify_ok_found :
      (w' : World) (t : UserToken)
      → verify env user_id code w ≡ (ok tt, w')
      → change_row user_id w.db ≡ some t
      → (after t.expires_at env.now ≡ true)
        × (t.attempts < max_attempts)
        × ((env.sha256 code == t.code_hash) ≡ true)
        × (address_taken t.target w.db ≡ false)
        × (w'.db ≡ moved t)
  unfolding verify
  verify_ok_found w' t e found = ground arith

  verify_ok_missing :
      (w' : World) → verify env user_id code w ≡ (ok tt, w') → change_row user_id w.db ≡ none → ⊥
  unfolding verify
  verify_ok_missing w' e missing = ground arith

  moved_effects :
      (t : UserToken)
      → (user_row user_id (moved t) ≡ Option.map (with_email t.target) (user_row user_id w.db))
        × (is_unused t.id (moved t) ≡ false)
        × (has_session user_id (moved t) ≡ false)
  unfolding revoke_all consume is_unused
  moved_effects t = (
    user_row-set_email user_id t.target w.db,
    is_unused-consume t.id env.db_now (set_email user_id t.target w.db),
    has_session-revoke_all user_id env.db_now
        (consume t.id env.db_now (set_email user_id t.target w.db)),
  )

  -- A change that succeeds was for the newest unused code of the user, which had not expired, had
  -- fewer than five wrong tries and matched, and for an address that no account has. It moves the
  -- account to that address, spends the code, and leaves no session that can be continued.
  pub change_verify_ok :
      (w' : World)
      → verify env user_id code w ≡ (ok tt, w')
      → (t : UserToken) × (change_row user_id w.db ≡ some t)
        × (after t.expires_at env.now ≡ true)
        × (t.attempts < max_attempts)
        × ((env.sha256 code == t.code_hash) ≡ true)
        × (address_taken t.target w.db ≡ false)
        × (user_row user_id w'.db ≡ Option.map (with_email t.target) (user_row user_id w.db))
        × (is_unused t.id w'.db ≡ false)
        × (has_session user_id w'.db ≡ false)
  change_verify_ok w' e = elim (Option-cases (change_row user_id w.db)) [
    | inl missing ↦ absurd (verify_ok_missing w' e missing)
    | inr (t, found) ↦
        let (unexpired, tries, matches, free, db') = verify_ok_found w' t e found in
        let (email, spent, ended) = moved_effects t in
        (
          t,
          found,
          unexpired,
          tries,
          matches,
          free,
          ap (user_row user_id) db' ∙ email,
          ap (is_unused t.id) db' ∙ spent,
          ap (has_session user_id) db' ∙ ended,
        )
  ]

  abbrev pub Moved : UserToken → Result Error (Unit {0}) × World → Type 0
  Moved t (r, w') =
      ((r ≡ err invalid_code) × (w'.db ≡ count_attempt t.id w.db))
      ⊎ ((r ≡ ok tt) × (w'.db ≡ moved t))

  verify_unknown : change_row user_id w.db ≡ none → (verify env user_id code w).1.db ≡ w.db
  unfolding verify
  verify_unknown missing = ground arith

  verify_known :
      (t : UserToken)
      → change_row user_id w.db ≡ some t
      → ((verify env user_id code w).1.db ≡ w.db) ⊎ Moved t (verify env user_id code w)
  unfolding verify
  verify_known t found = ground arith

  -- Whatever calls fail, a verification changes nothing, or counts one wrong try on the code that it
  -- judged and answers that the code is invalid, or succeeds and moves the account, spends the code
  -- and ends the sessions together.
  pub change_verify_atomic :
      ((verify env user_id code w).1.db ≡ w.db)
      ⊎ ((t : UserToken) × (change_row user_id w.db ≡ some t) × Moved t (verify env user_id code w))
  change_verify_atomic = elim (Option-cases (change_row user_id w.db)) [
    | inl missing ↦ inl (verify_unknown missing)
    | inr (t, found) ↦ elim (verify_known t found) [
      | inl same ↦ inl same
      | inr changed ↦ inr (t, found, changed)
    ]
  ]
