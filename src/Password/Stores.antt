-- ===== src/Password/Stores.antt =====
-- What RequestReset stores when calls fail.
use ecosystem_complete.Prelude.{
  ℕ, zero, suc, ◌+◌, ◌≡◌, refl, ◌⊎◌, inl, inr, String, some, arith, Bool-cases, Option-cases,
}
use ecosystem_complete.Database.{Db, User}
use ecosystem_complete.Runtime.{Env, Call, World}
use ecosystem_complete.Security.{normalize_email}
use ecosystem_complete.Security.Code.{generate_code}
use ecosystem_complete.Security.Quota.{Quota}
use ecosystem_complete.UserTokens.{code_taken, add_user_token}
use ecosystem_complete.Password.{
  max_code_tries, active_user, reset_token, draw_code, send_code, request_reset,
}

module _ (env : Env) (quota : Quota) (origin : String) where
  -- Nothing is stored, or one code.
  abbrev pub IsStored : Db → Db → Type 0
  IsStored db db' =
      (db' ≡ db)
      ⊎ ((id : String) × (target : String) × (hash : String) × (db'
            ≡ add_user_token (reset_token env id target hash) db))

  draw_code_step :
      (id target : String) (left n : ℕ) (w : World)
      → IsStored w.db (draw_code env quota origin (suc left) n id target w).1.db
        ⊎ (draw_code env quota origin (suc left) n id target w
            ≡ draw_code env quota origin left (n + 1) id target w)
  unfolding draw_code
  draw_code_step id target left n w = elim (Bool-cases (env.fails (Call.generate_nth_code n))) [
    | inl down ↦ inl (inl (ground arith))
    | inr up ↦ elim (Bool-cases (env.fails (Call.create_nth_token n))) [
      | inl down' ↦ inl (inl (ground arith))
      | inr up' ↦
          elim (Bool-cases (code_taken (env.sha256 (generate_code (env.code_entropy n))) w.db)) [
            | inl taken ↦ inr (ground arith)
            | inr free ↦
                inl
                  (inr (id, target, env.sha256 (generate_code (env.code_entropy n)), ground arith))
          ]
    ]
  ]

  draw_code_stores :
      (id target : String) (left n : ℕ) (w : World)
      → IsStored w.db (draw_code env quota origin left n id target w).1.db
  unfolding draw_code
  draw_code_stores id target zero n w = inl refl
  draw_code_stores id target (suc left) n w = elim (draw_code_step id target left n w) [
    | inl done ↦ done
    | inr again ↦ rw again (draw_code_stores id target left (n + 1) w)
  ]

  send_code_keeps :
      (id target : String) (w : World)
      → (send_code env quota origin id target w).1.db
        ≡ (draw_code env quota origin max_code_tries 0 id target w).1.db
  unfolding send_code
  send_code_keeps id target w = ground arith

  request_reset_known :
      (raw_email : String) (w : World) (u : User)
      → active_user (normalize_email env raw_email) w.db ≡ some u
      → ((request_reset env quota origin raw_email w).1.db ≡ w.db)
        ⊎ ((request_reset env quota origin raw_email w).1.db
            ≡ (send_code env quota origin u.id (normalize_email env raw_email) w).1.db)
  unfolding request_reset
  request_reset_known raw_email w u found = ground arith

  request_reset_db :
      (raw_email : String) (w : World)
      → ((request_reset env quota origin raw_email w).1.db ≡ w.db)
        ⊎ ((id : String) × ((request_reset env quota origin raw_email w).1.db
              ≡ (send_code env quota origin id (normalize_email env raw_email) w).1.db))
  unfolding request_reset
  request_reset_db raw_email w =
      elim (Option-cases (active_user (normalize_email env raw_email) w.db)) [
        | inl missing ↦ inl (ground arith)
        | inr (u, found) ↦ elim (request_reset_known raw_email w u found) [
          | inl same ↦ inl same
          | inr sent ↦ inr (u.id, sent)
        ]
      ]

  pub request_reset_stores :
      (raw_email : String) (w : World)
      → IsStored w.db (request_reset env quota origin raw_email w).1.db
  request_reset_stores raw_email w = elim (request_reset_db raw_email w) [
    | inl same ↦ inl same
    | inr (id, sent) ↦
        let email = normalize_email env raw_email in
        rw (sent, send_code_keeps id email w) (draw_code_stores id email max_code_tries 0 w)
  ]
