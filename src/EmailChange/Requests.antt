-- ===== src/EmailChange/Requests.antt =====
-- What Request leaves behind: the one code that can move the account.
use ecosystem_complete.Prelude.{
  ℕ, zero, suc, ◌+◌, ◌≡◌, refl, ap, ◌∙◌, ◌⊎◌, inl, inr, String, Bool, true, false, ◌&&◌, not, none,
  some, List, [], ◌∷◌, ◌++◌, arith, is_some, Bool-cases, exists_where, exists-update, update_where,
}
use text.Mathlib.TextPositions.{eq_refl}
use ecosystem_complete.Database.{Db, UserToken, Time, email_change}
use ecosystem_complete.Runtime.{Env, Call, World}
use ecosystem_complete.Runtime.Exec.{Result, ok, is_ok, is_failed}
use ecosystem_complete.Security.{normalize_email}
use ecosystem_complete.Security.Code.{generate_code}
use ecosystem_complete.Security.Quota.{Quota}
use ecosystem_complete.UserTokens.{asked, used, newest_where, add_user_token}
use ecosystem_complete.EmailChange.{
  Error, invalidate, change_token, create_change_token, draw_code, send_code, request,
  confirmation_mail, max_code_tries,
}
use ecosystem_complete.EmailChange.Verify.{change_row}

module _ (env : Env) (quota : Quota) (user_id email : String) where
  abbrev pub nth_code : ℕ → String
  nth_code n = generate_code (env.code_entropy n)

  -- The tables after the nth code is stored: no older code of the user is left unused.
  abbrev pub issued : ℕ → Db → Db
  issued n db =
      add_user_token (change_token env user_id email (env.sha256 (nth_code n)))
        (invalidate user_id env.db_now db)

  create_outcome :
      (n : ℕ) (w : World)
      → let (r, w') = create_change_token env quota n user_id email (env.sha256 (nth_code n)) w in
        ((r ≡ ok true) × (w' ≡ record w { db = issued n w.db; tx = none }))
        ⊎ ((r ≡ ok false) × (w' ≡ record w { tx = none }))
        ⊎ ((is_failed r ≡ true) × (w'.db ≡ w.db))
  unfolding create_change_token
  create_outcome n w = ground arith

  abbrev Drawn : World → Result Error String × World → Type 0
  Drawn w (r, w') =
      ((k : ℕ) × (r ≡ ok (nth_code k)) × (w'.db ≡ issued k w.db) × (w'.outbox ≡ w.outbox))
      ⊎ ((is_ok r ≡ false) × (w'.db ≡ w.db))

  draw_step :
      (left n : ℕ) (w : World)
      → (Drawn w (draw_code env quota (suc left) n user_id email w))
        ⊎ (draw_code env quota (suc left) n user_id email w
            ≡ draw_code env quota left (n + 1) user_id email (record w { tx = none }))
  unfolding draw_code
  draw_step left n w = elim (Bool-cases (env.fails (Call.generate_nth_code n))) [
    | inl down ↦ inl (inr (ground arith, ground arith))
    | inr up ↦ elim (create_outcome n w) [
      | inl (stored, e) ↦ inl (inl (n, ground arith, ground arith, ground arith))
      | inr (inl (collided, e)) ↦ inr (ground arith)
      | inr (inr (fault, e)) ↦ inl (inr (ground arith, ground arith))
    ]
  ]

  draw_outcome : (left n : ℕ) (w : World) → Drawn w (draw_code env quota left n user_id email w)
  unfolding draw_code
  draw_outcome zero n w = inr (refl, refl)
  draw_outcome (suc left) n w = elim (draw_step left n w) [
    | inl drawn ↦ drawn
    | inr again ↦ rw again (draw_outcome left (n + 1) (record w { tx = none }))
  ]

  send_code_ok :
      (w w' : World) (k : ℕ) (v : World)
      → draw_code env quota max_code_tries 0 user_id email w ≡ (ok (nth_code k), v)
      → send_code env quota user_id email w ≡ (ok tt, w')
      → (w'.db ≡ v.db) × (w'.outbox ≡ v.outbox ++ confirmation_mail email (nth_code k) ∷ [])
  unfolding send_code
  send_code_ok w w' k v drawn e = ground arith

  send_code_not_ok :
      (w w' : World)
      → is_ok (draw_code env quota max_code_tries 0 user_id email w).0 ≡ false
      → send_code env quota user_id email w ≡ (ok tt, w')
      → ⊥
  unfolding send_code
  send_code_not_ok w w' fault e = ground arith

  send_code_stores :
      (w w' : World)
      → send_code env quota user_id email w ≡ (ok tt, w')
      → (k : ℕ) × (w'.db ≡ issued k w.db)
        × (w'.outbox ≡ w.outbox ++ confirmation_mail email (nth_code k) ∷ [])
  send_code_stores w w' e = elim (draw_outcome max_code_tries 0 w) [
    | inl (k, answer, db', mails) ↦
        let (kept, sent) =
          send_code_ok w w' k (draw_code env quota max_code_tries 0 user_id email w).1
            (λ i. (answer i, (draw_code env quota max_code_tries 0 user_id email w).1)) e in
        (k, kept ∙ db', sent ∙ ap (λ ms. ms ++ confirmation_mail email (nth_code k) ∷ []) mails)
    | inr (fault, _) ↦ absurd (send_code_not_ok w w' fault e)
  ]

  send_code_db :
      (w : World)
      → ((send_code env quota user_id email w).1.db ≡ w.db)
        ⊎ ((k : ℕ) × ((send_code env quota user_id email w).1.db ≡ issued k w.db))
  unfolding send_code
  send_code_db w = elim (draw_outcome max_code_tries 0 w) [
    | inl (k, answer, db', mails) ↦ inr (k, ground arith)
    | inr (fault, same) ↦ inl (ground arith)
  ]

newest_where-none :
    (p : UserToken → Bool) (rows : List UserToken)
    → exists_where p rows ≡ false
    → newest_where p rows ≡ none
unfolding exists_where newest_where
newest_where-none p [] e = refl
newest_where-none p (r ∷ rows) e = ground (arith, newest_where-none p rows)

-- The user's unused codes, as Verify looks for them.
abbrev pub is_pending : String → UserToken → Bool
is_pending user_id t = asked email_change user_id t && not (is_some t.used_at)

pub none_pending :
    (user_id : String) (now : Time) (rows : List UserToken)
    → exists_where (is_pending user_id) (update_where (is_pending user_id) (used now) rows) ≡ false
none_pending user_id now rows = exists-update _ _ _ rows (λ t. ground arith)

change_row-issued :
    (env : Env) (quota : Quota) (user_id email : String) (n : ℕ) (db : Db)
    → change_row user_id (issued env quota user_id email n db)
      ≡ some (change_token env user_id email (env.sha256 (nth_code env quota user_id email n)))
unfolding change_row add_user_token invalidate newest_where
change_row-issued env quota user_id email n db =
    rw
      (
        eq_refl user_id,
        newest_where-none (is_pending user_id) _ (none_pending user_id env.db_now db.user_tokens),
      )
      refl

module _ (env : Env) (quota : Quota) (user_id raw_email password : String) (w : World) where
  request_ok_sends :
      (w' : World)
      → request env quota user_id raw_email password w ≡ (ok tt, w')
      → send_code env quota user_id (normalize_email env raw_email) w ≡ (ok tt, w')
  unfolding request
  request_ok_sends w' e = ground arith

  request_db :
      ((request env quota user_id raw_email password w).1.db ≡ w.db)
      ⊎ ((request env quota user_id raw_email password w).1.db
          ≡ (send_code env quota user_id (normalize_email env raw_email) w).1.db)
  unfolding request
  request_db = ground arith

  -- Whatever calls fail, a request changes nothing or stores one code.
  pub request_issues :
      ((request env quota user_id raw_email password w).1.db ≡ w.db)
      ⊎ ((k : ℕ) × ((request env quota user_id raw_email password w).1.db
            ≡ issued env quota user_id (normalize_email env raw_email) k w.db))
  request_issues = elim request_db [
    | inl same ↦ inl same
    | inr e ↦ elim (send_code_db env quota user_id (normalize_email env raw_email) w) [
      | inl same ↦ inl (e ∙ same)
      | inr (k, stored) ↦ inr (k, e ∙ stored)
    ]
  ]

  -- After a request that succeeds, the one code that Verify looks for is the code that was mailed to
  -- the new address, for that address and with no wrong tries, whatever codes were sent before; and
  -- one mail was sent.
  pub request_replaces :
      (w' : World)
      → request env quota user_id raw_email password w ≡ (ok tt, w')
      → let email = normalize_email env raw_email in
        (k : ℕ) × (change_row user_id w'.db
          ≡ some (change_token env user_id email (env.sha256 (nth_code env quota user_id email k))))
        × (w'.outbox
            ≡ w.outbox ++ confirmation_mail email (nth_code env quota user_id email k) ∷ [])
  request_replaces w' e =
      let email = normalize_email env raw_email in
      let (k, stored, sent) =
        send_code_stores env quota user_id email w w' (request_ok_sends w' e) in
      (k, ap (change_row user_id) stored ∙ change_row-issued env quota user_id email k w.db, sent)
