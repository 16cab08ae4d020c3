-- ===== src/Password/Requests.antt =====
-- What RequestReset does: whether a code goes out, and what is stored for it.
use ecosystem_complete.Prelude.{
  ℕ, zero, suc, ◌+◌, ◌≡◌, ◌⊎◌, inl, inr, String, Bool, true, false, Option, none, some, List, [],
  ◌∷◌, if◌then◌else◌, ◌∙◌, ◌++◌, arith, pos, ◌-ℤ◌, is_some, Bool-cases,
}
use ecosystem_complete.Database.{Db, User, Duration, password_reset}
use ecosystem_complete.Runtime.{Env, Call, World, SecurityEvent, boolean}
use ecosystem_complete.Audit.{to_row, event_password_reset_requested}
use ecosystem_complete.Runtime.Exec.{ok}
use ecosystem_complete.Security.{normalize_email}
use ecosystem_complete.Security.Code.{generate_code}
use ecosystem_complete.Security.Quota.{Quota, check, positive_or, default_window}
use ecosystem_complete.UserTokens.{
  last_request_at, count_requests_since, code_taken, add_user_token,
}
use ecosystem_complete.Password.{
  requested_event, max_code_tries, active_user, reset_token, reset_mail, draw_code, send_code,
  request_reset,
}

module _ (env : Env) (quota : Quota) (origin raw_email : String) (w : World) where
  abbrev email : String
  email = normalize_email env raw_email

  -- What the quota says of one more code for the user.
  abbrev pub refusal : User → Option Duration
  refusal u = check quota env.now (last_request_at password_reset u.id w.db) (
      pos (
        count_requests_since password_reset u.id
          (env.now -ℤ positive_or quota.window default_window) w.db))

  abbrev pub nth_code : ℕ → String
  nth_code n = generate_code (env.code_entropy n)

  abbrev pub is_taken : ℕ → Bool
  is_taken n = code_taken (env.sha256 (nth_code n)) w.db

  -- One of the codes from the nth on is not stored yet.
  abbrev pub HasFresh : ℕ → ℕ → Type 0
  HasFresh zero n = ⊥
  HasFresh (suc left) n = (is_taken n ≡ false) ⊎ HasFresh left (n + 1)

  abbrev pub stored : User → ℕ → Db
  stored u n = add_user_token (reset_token env u.id email (env.sha256 (nth_code n))) w.db

  -- The security log after a code was sent.
  abbrev pub logged : User → List SecurityEvent
  logged u =
      if env.audits
      then w.events
        ++ to_row env
            (requested_event env quota origin u.id email (("delivered", boolean true) ∷ []))
          ∷ []
      else w.events

  abbrev sent : User → ℕ → World
  sent u k = record w {
    db = record w.db {
      user_tokens = reset_token env u.id email (env.sha256 (nth_code k)) ∷ w.db.user_tokens;
    };
    outbox = w.outbox ++ reset_mail env origin email (nth_code k) ∷ [];
    events = logged u;
  }

  module _ (running : (c : Call) → env.fails c ≡ false) where
    draw_code_fresh :
        (u : User) (n left : ℕ)
        → is_taken n ≡ false
        → draw_code env quota origin (suc left) n u.id email w
          ≡ (ok (nth_code n), record w { db = stored u n })
    unfolding draw_code
    draw_code_fresh u n left fresh =
        ground (arith, running (Call.generate_nth_code n), running (Call.create_nth_token n))

    draw_code_taken :
        (u : User) (n left : ℕ)
        → is_taken n ≡ true
        → draw_code env quota origin (suc left) n u.id email w
          ≡ draw_code env quota origin left (n + 1) u.id email w
    unfolding draw_code
    draw_code_taken u n left taken =
        ground (arith, running (Call.generate_nth_code n), running (Call.create_nth_token n))

    draw_code_ok :
        (u : User) (left n : ℕ)
        → HasFresh left n
        → (k : ℕ) × (is_taken k ≡ false)
          × (draw_code env quota origin left n u.id email w
              ≡ (ok (nth_code k), record w { db = stored u k }))
    draw_code_ok u zero n fresh = absurd fresh
    draw_code_ok u (suc left) n (inl fresh) = (n, fresh, draw_code_fresh u n left fresh)
    draw_code_ok u (suc left) n (inr later) = elim (Bool-cases (is_taken n)) [
      | inl taken ↦
          let (k, fresh, e) = draw_code_ok u left (n + 1) later in
          (k, fresh, rw (draw_code_taken u n left taken) e)
      | inr fresh ↦ (n, fresh, draw_code_fresh u n left fresh)
    ]

    -- While calls succeed, a request for an address without an account, or for one whose quota is
    -- used up, is answered like any other, and stores and sends nothing.
    pub request_reset_silent :
        (active_user email w.db ≡ none)
          ⊎ ((u : User) × (active_user email w.db ≡ some u) × (is_some (refusal u) ≡ true))
        → let (r, w') = request_reset env quota origin raw_email w in
          (r ≡ ok tt) × (w'.db ≡ w.db) × (w'.outbox ≡ w.outbox)
    unfolding request_reset
    request_reset_silent (inl missing) = (
      ground (arith, running Call.active_user_id),
      ground (arith, running Call.active_user_id),
      ground (arith, running Call.active_user_id),
    )
    request_reset_silent (inr (u, found, refused)) = (
      ground (
        arith,
        running Call.active_user_id,
        running Call.last_request_at,
        running Call.count_requests_since,
      ),
      ground (
        arith,
        running Call.active_user_id,
        running Call.last_request_at,
        running Call.count_requests_since,
      ),
      ground (
        arith,
        running Call.active_user_id,
        running Call.last_request_at,
        running Call.count_requests_since,
      ),
    )

    send_code_ok :
        (u : User) (k : ℕ)
        → draw_code env quota origin max_code_tries 0 u.id email w
          ≡ (ok (nth_code k), record w { db = stored u k })
        → send_code env quota origin u.id email w ≡ (ok tt, sent u k)
    unfolding send_code add_user_token
    send_code_ok u k e =
        ground (
          arith,
          e,
          running Call.publish,
          running (Call.record_event event_password_reset_requested),
        )

    request_reset_send :
        (u : User)
        → active_user email w.db ≡ some u
        → is_some (refusal u) ≡ false
        → request_reset env quota origin raw_email w ≡ send_code env quota origin u.id email w
    unfolding request_reset
    request_reset_send u found allowed = ground (
      arith,
      running Call.active_user_id,
      running Call.last_request_at,
      running Call.count_requests_since,
    )

    -- While calls succeed, a request for an account within its quota, where one of the three codes
    -- drawn is not stored yet, adds one row to the codes, with the hash of such a code for the account,
    -- mails that code to the address, and, where the service has an auditor, adds one event to the
    -- security log. It sends no other mail and changes no other row: the older codes of the account
    -- stay as they are.
    pub request_reset_sends :
        (u : User)
        → active_user email w.db ≡ some u
        → is_some (refusal u) ≡ false
        → HasFresh max_code_tries 0
        → (k : ℕ) × (is_taken k ≡ false)
          × (request_reset env quota origin raw_email w ≡ (
            ok tt,
            record w {
              db = record w.db {
                user_tokens =
                    reset_token env u.id email (env.sha256 (nth_code k)) ∷ w.db.user_tokens;
              };
              outbox = w.outbox ++ reset_mail env origin email (nth_code k) ∷ [];
              events = logged u;
            },
          ))
    request_reset_sends u found allowed fresh =
        let (k, free, drawn) = draw_code_ok u max_code_tries 0 fresh in
        (k, free, request_reset_send u found allowed ∙ send_code_ok u k drawn)
