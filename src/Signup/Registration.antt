-- ===== src/Signup/Registration.antt =====
-- What Verify guarantees for one request.
use ecosystem_complete.Prelude.{
  ◌<◌, ◌≤◌, ◌≡◌, refl, ap, ◌∙◌, List, ◌⊎◌, inl, inr, String, true, false, none, some, ◌∷◌, arith,
  ◌==◌, Option-cases, find-delete,
}
use ecosystem_complete.Database.{Db, RefreshToken, SignupRequest, after}
use ecosystem_complete.Runtime.{Env, World}
use ecosystem_complete.Runtime.Exec.{ok, err, is_failed}
use ecosystem_complete.Security.{normalize_email}
use ecosystem_complete.Session.{Tokens, Meta}
use ecosystem_complete.Session.Issuer.{Issuer}
use ecosystem_complete.Signup.{invalid_code, too_many_attempts, active_user_exists}
use ecosystem_complete.Signup.Verify.{
  verify, find_pending, discard_pending, promote, promoted, new_user, to_pending_row, max_attempts,
  record_failed_attempt,
}

module _ (issuer : Issuer) (env : Env) (raw_email code : String) (meta : Meta) (w : World) where
  abbrev email : String
  email = normalize_email env raw_email

  -- The database when the registration is committed, before the session is issued.
  abbrev registered : SignupRequest → Db
  registered r = discard_pending email (promote env (new_user env email (to_pending_row r)) w.db)

  verify_ok_found :
      (tokens : Tokens) (w' : World) (r : SignupRequest)
      → verify issuer env raw_email code meta w ≡ (ok tokens, w')
      → find_pending email w.db ≡ some r
      → (after r.expires_at env.now ≡ true)
        × (r.attempts < max_attempts)
        × ((env.sha256 code == r.code_hash) ≡ true)
        × (active_user_exists email w.db ≡ false)
        × (w'.db
            ≡ (issuer.issue env env.new_uuid meta (record w { db = registered r; tx = none })).1.db)
  unfolding verify
  verify_ok_found tokens w' r e found = ground arith

  verify_ok_missing :
      (tokens : Tokens) (w' : World)
      → verify issuer env raw_email code meta w ≡ (ok tokens, w')
      → find_pending email w.db ≡ none
      → ⊥
  unfolding verify
  verify_ok_missing tokens w' e missing = ground arith

  users-registered :
      (r : SignupRequest)
      → (registered r).users ≡ promoted env (new_user env email (to_pending_row r)) ∷ w.db.users
  unfolding discard_pending promote
  users-registered r = refl

  -- Only the table of requests decides what is pending.
  pending-frame :
      (r : SignupRequest) (tokens : List RefreshToken)
      → find_pending email (record (registered r) { refresh_tokens = tokens }) ≡ none
  unfolding find_pending discard_pending promote
  pending-frame r tokens = find-delete (λ q. q.email == email) w.db.signup_requests

  -- A verification that answers with tokens was for a pending request with an unexpired code that
  -- matches, fewer than five wrong tries behind it, and an address without an account. It leaves one
  -- new active user, who has the request's password, and no request for the address.
  pub verify_ok :
      (tokens : Tokens) (w' : World)
      → verify issuer env raw_email code meta w ≡ (ok tokens, w')
      → (r : SignupRequest) × (find_pending email w.db ≡ some r)
        × (after r.expires_at env.now ≡ true)
        × (r.attempts < max_attempts)
        × ((env.sha256 code == r.code_hash) ≡ true)
        × (active_user_exists email w.db ≡ false)
        × (w'.db.users ≡ promoted env (new_user env email (to_pending_row r)) ∷ w.db.users)
        × (find_pending email w'.db ≡ none)
  verify_ok tokens w' e = elim (Option-cases (find_pending email w.db)) [
    | inl missing ↦ absurd (verify_ok_missing tokens w' e missing)
    | inr (r, found) ↦
        let (unexpired, tries, matches, free, db') = verify_ok_found tokens w' r e found in
        let frame =
          issuer.issue_frame env env.new_uuid meta (record w { db = registered r; tx = none }) in
        (
          r,
          found,
          unexpired,
          tries,
          matches,
          free,
          ap (λ (d : Db). d.users) db' ∙ ap (λ (v : World). v.db.users) frame ∙ users-registered r,
          ap (find_pending email) db'
              ∙ ap (λ (v : World). find_pending email v.db) frame
              ∙ pending-frame r _,
        )
  ]

  -- Without a pending request and after its expiry nothing changes, and any code is answered as
  -- invalid, unless a call fails.
  pub verify_rejects :
      (find_pending email w.db ≡ none)
        ⊎ ((r : SignupRequest) × (find_pending email w.db ≡ some r)
            × (after r.expires_at env.now ≡ false))
      → let (a, w') = verify issuer env raw_email code meta w in
        (w'.db ≡ w.db) × ((a ≡ err invalid_code) ⊎ (is_failed a ≡ true))
  unfolding verify
  verify_rejects (inl missing) = (ground arith, ground arith)
  verify_rejects (inr (r, found, expired)) = (ground arith, ground arith)

  -- After five wrong tries nothing changes, and any code is answered as too many, unless a call
  -- fails.
  pub verify_exhausted :
      (r : SignupRequest)
      → find_pending email w.db ≡ some r
      → after r.expires_at env.now ≡ true
      → max_attempts ≤ r.attempts
      → let (a, w') = verify issuer env raw_email code meta w in
        (w'.db ≡ w.db) × ((a ≡ err too_many_attempts) ⊎ (is_failed a ≡ true))
  unfolding verify
  verify_exhausted r found unexpired spent = (ground arith, ground arith)

  -- A wrong code for an unexpired request with tries left is counted and answered as invalid, or a
  -- call failed and nothing changed.
  pub verify_wrong_code :
      (r : SignupRequest)
      → find_pending email w.db ≡ some r
      → after r.expires_at env.now ≡ true
      → r.attempts < max_attempts
      → (env.sha256 code == r.code_hash) ≡ false
      → let (a, w') = verify issuer env raw_email code meta w in
        ((a ≡ err invalid_code) × (w'.db ≡ record_failed_attempt email w.db))
        ⊎ ((is_failed a ≡ true) × (w'.db ≡ w.db))
  unfolding verify
  verify_wrong_code r found unexpired left wrong = ground arith
