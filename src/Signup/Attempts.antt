-- ===== src/Signup/Attempts.antt =====
-- How many codes can be tried, and what starting over does to the count.
use ecosystem_complete.Prelude.{
  ℕ, zero, suc, ◌+◌, ◌≤◌, ◌≡◌, refl, String, true, false, some, List, [], ◌∷◌, arith, ◌==◌, leb,
  length, find-update, if◌then◌else◌,
}
use ecosystem_complete.Database.{Db, SignupRequest, after}
use ecosystem_complete.Runtime.{Env, Call, World}
use ecosystem_complete.Runtime.Exec.{err}
use ecosystem_complete.Security.{normalize_email}
use ecosystem_complete.Session.{Meta}
use ecosystem_complete.Session.Issuer.{Issuer}
use ecosystem_complete.Signup.{too_many_attempts}
use ecosystem_complete.Signup.Verify.{
  verify, one_more, find_pending, record_failed_attempt, max_attempts,
}

-- The counter after one wrong code, and after n.
abbrev next_count : ℕ → ℕ
next_count done = if leb max_attempts done then done else done + 1

count_wrong : ℕ → ℕ → ℕ
count_wrong done zero = done
count_wrong done (suc n) = count_wrong (next_count done) n

count_wrong_lem : (done n : ℕ) → max_attempts ≤ done + n → max_attempts ≤ count_wrong done n
unfolding count_wrong
count_wrong_lem done zero h = omega arith
count_wrong_lem done (suc n) h = ground (arith, count_wrong_lem (next_count done) n)

module _ (issuer : Issuer) (env : Env) (raw_email : String) (meta : Meta) where
  -- One verification for each code, whatever the answers.
  unfoldable pub try_codes : List String → World → World
  try_codes [] w = w
  try_codes (code ∷ codes) w = try_codes codes (verify issuer env raw_email code meta w).1

  abbrev AllWrong : SignupRequest → List String → Type 0
  AllWrong r [] = Unit {0}
  AllWrong r (code ∷ codes) = ((env.sha256 code == r.code_hash) ≡ false) × AllWrong r codes

  abbrev with_attempts : SignupRequest → ℕ → SignupRequest
  with_attempts r n = record r { attempts = n }

  find_pending-record :
      (email : String) (r : SignupRequest) (db : Db)
      → find_pending email db ≡ some r
      → find_pending email (record_failed_attempt email db)
        ≡ some (with_attempts r (r.attempts + 1))
  unfolding find_pending record_failed_attempt
  find_pending-record email r db e =
      rw (find-update (λ q. q.email == email) one_more db.signup_requests (λ a. refl), e) refl

  still_wrong :
      (codes : List String) (r : SignupRequest) (n : ℕ)
      → AllWrong r codes
      → AllWrong (with_attempts r n) codes
  still_wrong [] r n h = tt
  still_wrong (code ∷ codes) r n h = (h.0, still_wrong codes r n h.1)

  module _ (running : (c : Call) → env.fails c ≡ false) where
    verify_wrong :
        (code : String) (r : SignupRequest) (w : World)
        → find_pending (normalize_email env raw_email) w.db ≡ some r
        → after r.expires_at env.now ≡ true
        → (env.sha256 code == r.code_hash) ≡ false
        → find_pending
            (normalize_email env raw_email)
            (verify issuer env raw_email code meta w).1.db
          ≡ some (with_attempts r (next_count r.attempts))
    unfolding verify
    verify_wrong code r w found unexpired wrong = ground (
      arith,
      running Call.begin,
      running Call.pending,
      running Call.record_failed_attempt,
      running Call.commit,
      find_pending-record (normalize_email env raw_email) r w.db found,
    )

    verify_spent :
        (code : String) (r : SignupRequest) (w : World)
        → find_pending (normalize_email env raw_email) w.db ≡ some r
        → after r.expires_at env.now ≡ true
        → max_attempts ≤ r.attempts
        → (verify issuer env raw_email code meta w).0 ≡ err too_many_attempts
    unfolding verify
    verify_spent code r w found unexpired spent =
        ground (arith, running Call.begin, running Call.pending)

    try_codes_wrong :
        (codes : List String) (r : SignupRequest) (w : World)
        → find_pending (normalize_email env raw_email) w.db ≡ some r
        → after r.expires_at env.now ≡ true
        → AllWrong r codes
        → find_pending (normalize_email env raw_email) (try_codes codes w).db
          ≡ some (with_attempts r (count_wrong r.attempts (length codes)))
    unfolding try_codes count_wrong
    try_codes_wrong [] r w found unexpired wrong = found
    try_codes_wrong (code ∷ codes) r w found unexpired wrong =
        try_codes_wrong codes (with_attempts r (next_count r.attempts))
          (verify issuer env raw_email code meta w).1
          (verify_wrong code r w found unexpired wrong.0) unexpired
          (still_wrong codes r (next_count r.attempts) wrong.1)

    -- Once wrong codes and earlier tries together reach five, not even the right code is accepted,
    -- at one instant, while calls succeed and the code has not expired.
    pub five_wrong_codes :
        (codes : List String) (code : String) (r : SignupRequest) (w : World)
        → find_pending (normalize_email env raw_email) w.db ≡ some r
        → after r.expires_at env.now ≡ true
        → AllWrong r codes
        → max_attempts ≤ r.attempts + length codes
        → (verify issuer env raw_email code meta (try_codes codes w)).0 ≡ err too_many_attempts
    five_wrong_codes codes code r w found unexpired wrong many =
        let late = try_codes_wrong codes r w found unexpired wrong in
        let spent = count_wrong_lem r.attempts (length codes) many in
        verify_spent code _ (try_codes codes w) late unexpired spent
