-- ===== src/Tests/Registrations.antt =====
-- Examples for Signup.
use ecosystem_complete.Prelude.{
  ◌≡◌, refl, ◌⊎◌, ◌<◌, true, false, some, none, [], ◌∷◌, ◌++◌, arith, ◌==◌, find_where,
  exists_where, if◌then◌else◌,
}
use ecosystem_complete.Database.{SignupRequest, after}
use ecosystem_complete.Runtime.{World}
use ecosystem_complete.Runtime.Exec.{ok, err, is_failed}
use ecosystem_complete.Security.{normalize_email}
use ecosystem_complete.Security.Code.{generate_code}
use ecosystem_complete.Session.{issue}
use ecosystem_complete.Signup.{
  active_user_exists, too_many_attempts, new_request, request, existing_account_mail, code_mail,
}
use ecosystem_complete.Signup.Verify.{
  verify, find_pending, promoted, new_user, to_pending_row, max_attempts,
}
use ecosystem_complete.Signup.Registration.{verify_ok}
use ecosystem_complete.Signup.Attempts.{try_codes, five_wrong_codes}
use ecosystem_complete.Signup.Requests.{requested, request_outcome, request_uniform}
use ecosystem_complete.Tests.{env, issuer, meta, world, tokens, bob_request}

abbrev after_verify : World
after_verify = (verify issuer env "B@x.com" "000001" meta world).1

verified : verify issuer env "B@x.com" "000001" meta world ≡ (ok tokens, after_verify)
unfolding verify find_where normalize_email exists_where issue
verified = refl

verify_ok_example :
    (r : SignupRequest) × (find_pending (normalize_email env "B@x.com") world.db ≡ some r)
    × (after r.expires_at env.now ≡ true)
    × (r.attempts < max_attempts)
    × ((env.sha256 "000001" == r.code_hash) ≡ true)
    × (active_user_exists (normalize_email env "B@x.com") world.db ≡ false)
    × (after_verify.db.users
        ≡ promoted env (new_user env (normalize_email env "B@x.com") (to_pending_row r))
          ∷ world.db.users)
    × (find_pending (normalize_email env "B@x.com") after_verify.db ≡ none)
verify_ok_example = verify_ok issuer env "B@x.com" "000001" meta world tokens after_verify verified

bob_found : find_pending (normalize_email env "b@x.com") world.db ≡ some bob_request
unfolding find_pending find_where normalize_email
bob_found = refl

-- Two wrong codes after the three that the request had.
five_wrong_codes_example :
    (verify issuer env "b@x.com" "000001" meta
      (try_codes issuer env "b@x.com" meta ("111111" ∷ "222222" ∷ []) world)).0
    ≡ err too_many_attempts
five_wrong_codes_example =
    five_wrong_codes issuer env "b@x.com" meta (λ c. refl) ("111111" ∷ "222222" ∷ []) "000001"
      bob_request world bob_found refl (refl, (refl, tt)) (omega arith)

request_outcome_example :
    let (r, w') = request env "b@x.com" "Bob" "hunter3" world in
    (w'.db ≡ record world.db { signup_requests = w'.db.signup_requests })
    × (((active_user_exists (normalize_email env "b@x.com") world.db ≡ true)
          × (w'.db ≡ world.db)
          × ((r ≡ ok tt) ⊎ (is_failed r ≡ true)))
        ⊎ ((active_user_exists (normalize_email env "b@x.com") world.db ≡ false)
            × (((r ≡ ok tt)
                  × (find_pending "d@x.com" w'.db ≡ (
                      if "d@x.com" == normalize_email env "b@x.com"
                      then some (new_request (requested env "b@x.com" "Bob" "hunter3" world))
                      else find_pending "d@x.com" world.db)))
                ⊎ (is_failed r ≡ true))))
request_outcome_example = request_outcome env "b@x.com" "Bob" "hunter3" world "d@x.com"

request_uniform_example :
    let (r, w') = request env "a@x.com" "Eve" "guess" world in
    (r ≡ ok tt)
    × (w'.outbox
        ≡ world.outbox
          ++ (if active_user_exists (normalize_email env "a@x.com") world.db
              then existing_account_mail (normalize_email env "a@x.com")
              else code_mail (normalize_email env "a@x.com") (generate_code (env.code_entropy 0)))
            ∷ [])
request_uniform_example = request_uniform env "a@x.com" "Eve" "guess" world (λ c. refl)
