-- ===== src/Signup/Requests.antt =====
-- What Request does to the pending registrations.
use ecosystem_complete.Prelude.{
  ◌≡◌, refl, ◌⊎◌, inl, inr, String, true, false, some, List, [], ◌∷◌, ◌++◌, arith, ◌==◌, ◌+ℤ◌,
  eq_iff, Bool-cases, find_where, exists_where, update_where, if◌then◌else◌,
}
use text.Mathlib.TextPositions.{eq_refl}
use ecosystem_complete.Prelude.Text.{trim_space}
use ecosystem_complete.Database.{Db, SignupRequest}
use ecosystem_complete.Runtime.{Env, Call, World}
use ecosystem_complete.Runtime.Exec.{ok, is_failed}
use ecosystem_complete.Security.{normalize_email}
use ecosystem_complete.Security.Code.{generate_code}
use ecosystem_complete.Signup.{
  Pending, request, upsert_pending, reset_request, new_request, active_user_exists, code_lifetime,
  code_mail, existing_account_mail,
}
use ecosystem_complete.Signup.Verify.{find_pending}

find-reset :
    (p : Pending) (rows : List SignupRequest)
    → exists_where (λ r. r.email == p.email) rows ≡ true
    → find_where
        (λ r. r.email == p.email)
        (update_where (λ r. r.email == p.email) (reset_request p) rows)
      ≡ some (new_request p)
unfolding find_where exists_where update_where
find-reset p [] e = cc
find-reset p (r ∷ rows) e = ground (arith, find-reset p rows, eq_iff r.email p.email)

find-reset_other :
    (p : Pending) (other : String) (rows : List SignupRequest)
    → (other == p.email) ≡ false
    → find_where
        (λ r. r.email == other)
        (update_where (λ r. r.email == p.email) (reset_request p) rows)
      ≡ find_where (λ r. r.email == other) rows
unfolding find_where update_where
find-reset_other p other [] e = refl
find-reset_other p other (r ∷ rows) e = ground (
  arith,
  find-reset_other p other rows,
  eq_iff r.email p.email,
  eq_iff r.email other,
  eq_iff other p.email,
)

-- The upsert leaves one answer for the address: the new code with no tries counted.
find_pending-upsert :
    (p : Pending) (db : Db) → find_pending p.email (upsert_pending p db) ≡ some (new_request p)
unfolding find_pending upsert_pending
find_pending-upsert p db =
    elim (Bool-cases (exists_where (λ r. r.email == p.email) db.signup_requests)) [
      | inl old ↦ rw old (find-reset p db.signup_requests old)
      | inr new ↦ rw new (unfold find_where in rw (eq_refl p.email))
    ]

find_pending-upsert_other :
    (p : Pending) (other : String) (db : Db)
    → (other == p.email) ≡ false
    → find_pending other (upsert_pending p db) ≡ find_pending other db
unfolding find_pending upsert_pending
find_pending-upsert_other p other db e =
    elim (Bool-cases (exists_where (λ r. r.email == p.email) db.signup_requests)) [
      | inl old ↦ rw old (find-reset_other p other db.signup_requests e)
      | inr new ↦
          rw new (unfold find_where in ground (arith, eq_iff p.email other, eq_iff other p.email))
    ]

-- The pending request of every address after the upsert.
find_pending-upsert_any :
    (p : Pending) (other : String) (db : Db)
    → find_pending other (upsert_pending p db)
      ≡ (if other == p.email then some (new_request p) else find_pending other db)
find_pending-upsert_any p other db = elim (Bool-cases (other == p.email)) [
  | inl e ↦ rw e (rw ((eq_iff other p.email).0 e) (find_pending-upsert p db))
  | inr e ↦ rw e (find_pending-upsert_other p other db e)
]

module _ (env : Env) (raw_email name password : String) (w : World) where
  abbrev pub requested : Pending
  requested = record {
    email = normalize_email env raw_email;
    name = trim_space name;
    password_hash = env.hash_password password;
    code_hash = env.sha256 (generate_code (env.code_entropy 0));
    expires_at = env.now +ℤ code_lifetime;
  }

  request_db :
      let (r, w') = request env raw_email name password w in
      (w'.db ≡ record w.db { signup_requests = w'.db.signup_requests })
      × (((active_user_exists (normalize_email env raw_email) w.db ≡ true)
            × (w'.db ≡ w.db)
            × ((r ≡ ok tt) ⊎ (is_failed r ≡ true)))
          ⊎ ((active_user_exists (normalize_email env raw_email) w.db ≡ false)
              × (((r ≡ ok tt) × (w'.db ≡ upsert_pending requested w.db)) ⊎ (is_failed r ≡ true))))
  unfolding request upsert_pending
  request_db = (ground arith, ground arith)

  -- A request changes no table but the pending registrations. For an address with an account it
  -- changes none; for any other, a request that succeeds leaves a new code for the address that
  -- starts with no wrong tries, however many the code before it had, and the pending registration of
  -- every other address as it was. The only error is a failed call.
  pub request_outcome :
      (other : String)
      → let (r, w') = request env raw_email name password w in
        (w'.db ≡ record w.db { signup_requests = w'.db.signup_requests })
        × (((active_user_exists (normalize_email env raw_email) w.db ≡ true)
              × (w'.db ≡ w.db)
              × ((r ≡ ok tt) ⊎ (is_failed r ≡ true)))
            ⊎ ((active_user_exists (normalize_email env raw_email) w.db ≡ false)
                × (((r ≡ ok tt)
                      × (find_pending other w'.db ≡ (
                          if other == normalize_email env raw_email
                          then some (new_request requested)
                          else find_pending other w.db)))
                    ⊎ (is_failed r ≡ true))))
  request_outcome other = (
    request_db.0,
    elim request_db.1 [
      | inl same ↦ inl same
      | inr (fresh, inl (answer, e)) ↦
          inr (fresh, inl (answer, rw e (find_pending-upsert_any requested other w.db)))
      | inr (fresh, inr fault) ↦ inr (fresh, inr fault)
    ],
  )

  -- Whether the address has an account does not show in the answer: while calls succeed, it is the
  -- same, and one mail goes to the address either way.
  pub request_uniform :
      ((c : Call) → env.fails c ≡ false)
      → let (r, w') = request env raw_email name password w in
        (r ≡ ok tt)
        × (w'.outbox
            ≡ w.outbox
              ++ (if active_user_exists (normalize_email env raw_email) w.db
                  then existing_account_mail (normalize_email env raw_email)
                  else code_mail
                      (normalize_email env raw_email)
                      (generate_code (env.code_entropy 0)))
                ∷ [])
  unfolding request
  request_uniform running = ground (
    arith,
    running Call.active_user_exists,
    running Call.hash_password,
    running Call.generate_code,
    running Call.upsert_pending,
    running Call.publish,
  )
