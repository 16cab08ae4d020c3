-- ===== src/Social/Outcomes.antt =====
-- Which account a provider's token opens.
use ecosystem_complete.Prelude.{
  ◌≡◌, refl, sym, ap, ◌∙◌, ◌⊎◌, inl, inr, String, true, false, Option, none, some, ◌∷◌, arith,
  Option-cases, Bool-cases, if◌then◌else◌,
}
use ecosystem_complete.Database.{Db, UserIdentity}
use ecosystem_complete.Runtime.{Env, Call, World}
use ecosystem_complete.Runtime.Exec.{Result, ok, err, failed, is_ok}
use ecosystem_complete.Session.{Tokens, Meta}
use ecosystem_complete.Session.Issuer.{Issuer}
use ecosystem_complete.Social.{
  Error, Identity, Verdict, proves, no_provider, rejects, find_identity, email_taken, new_user,
  new_identity, add_user, add_identity, Calls, create, first_calls, second_calls,
  create_user_with_identity, resolve_user, sign_in, judge_token, authenticate,
}

module _ (env : Env) (i : Identity) where
  -- The tables with the new account and its link.
  abbrev pub joined : Option String → Db → Db
  joined email db = add_identity (new_identity env i) (add_user (new_user env i email) db)

  pub joined_rows :
      (email : Option String) (db : Db)
      → ((joined email db).users ≡ new_user env i email ∷ db.users)
        × ((joined email db).identities ≡ new_identity env i ∷ db.identities)
  unfolding add_identity add_user
  joined_rows email db = (refl, refl)

  create_outcome :
      (calls : Calls) (email : Option String) (w : World)
      → let (r, w') = create env calls i email w in
        ((r ≡ ok true)
          × (email_taken email w.db ≡ false)
          × (w' ≡ record w { db = joined email w.db; tx = none }))
        ⊎ ((r ≡ ok false) × (email_taken email w.db ≡ true) × (w' ≡ record w { tx = none }))
        ⊎ ((is_ok r ≡ false) × (w'.db ≡ w.db))
  unfolding create
  create_outcome calls email w = ground arith

  -- The address that a new account may have.
  abbrev pub IsOwnEmail : Option String → Db → Type 0
  IsOwnEmail email db =
      (email ≡ none)
      ⊎ ((email ≡ i.email) × (i.email_verified ≡ true) × (email_taken email db ≡ false))

  abbrev verified_email : Option String
  verified_email = if i.email_verified then i.email else none

  own_email : (db : Db) → email_taken verified_email db ≡ false → IsOwnEmail verified_email db
  own_email db e = elim (Bool-cases i.email_verified) [
    | inl verified ↦ inr (ground arith, verified, e)
    | inr unverified ↦ inl (ground arith)
  ]

  create_user_outcome :
      (w : World)
      → let (r, w') = create_user_with_identity env i w in
        ((r ≡ ok env.new_uuid)
          × (email : Option String) × IsOwnEmail email w.db
          × (w'.db ≡ joined email w.db))
        ⊎ ((is_ok r ≡ false) × (w'.db ≡ w.db))
  unfolding create_user_with_identity
  create_user_outcome w = elim (create_outcome first_calls verified_email w) [
    | inl (made, free, e) ↦ inl (ground arith, verified_email, own_email w.db free, ground arith)
    | inr (inl (clash, taken, e)) ↦
        elim (create_outcome second_calls none (record w { tx = none })) [
          | inl (made, free, e') ↦ inl (ground arith, none, inl refl, ground arith)
          | inr (inl (_, impossible, _)) ↦ absurd (ground arith)
          | inr (inr (fault, e')) ↦ inr (ground arith, ground arith)
        ]
    | inr (inr (fault, e)) ↦ inr (ground arith, ground arith)
  ]

ok_cases : (r : Result Error String) → ((a : String) × (r ≡ ok a)) ⊎ (is_ok r ≡ false)
ok_cases (ok a) = inl (a, refl)
ok_cases (err e) = inr refl
ok_cases (failed c) = inr refl

module _ (issuer : Issuer) (env : Env) (i : Identity) (meta : Meta) where
  -- What a sign-in with the identity has done to the users and the links.
  abbrev pub Opens : World → World → Type 0
  Opens w w' =
      ((row : UserIdentity) × (find_identity i.provider i.subject w.db ≡ some row)
        × (w'.db.users ≡ w.db.users)
        × (w'.db.identities ≡ w.db.identities))
      ⊎ ((email : Option String) × (find_identity i.provider i.subject w.db ≡ none)
          × IsOwnEmail env i email w.db
          × (w'.db.users ≡ new_user env i email ∷ w.db.users)
          × (w'.db.identities ≡ new_identity env i ∷ w.db.identities))

  users-issue :
      (user_id : String) (v : World)
      → ((issuer.issue env user_id meta v).1.db.users ≡ v.db.users)
        × ((issuer.issue env user_id meta v).1.db.identities ≡ v.db.identities)
  users-issue user_id v = (
    ap (λ (x : World). x.db.users) (issuer.issue_frame env user_id meta v),
    ap (λ (x : World). x.db.identities) (issuer.issue_frame env user_id meta v),
  )

  module _ (verifier : String → String → Verdict) where
    resolve_known :
        (w : World) (row : UserIdentity)
        → find_identity i.provider i.subject w.db ≡ some row
        → let (r, w') = resolve_user issuer verifier env i meta w in
          (is_ok r ≡ false) ⊎ ((r ≡ ok row.user_id) × (w' ≡ w))
    unfolding resolve_user
    resolve_known w row e = ground arith

    resolve_new :
        (w : World)
        → find_identity i.provider i.subject w.db ≡ none
        → let (r, w') = resolve_user issuer verifier env i meta w in
          (is_ok r ≡ false)
          ⊎ ((email : Option String) × (r ≡ ok env.new_uuid)
              × IsOwnEmail env i email w.db
              × (w'.db ≡ joined env i email w.db))
    unfolding resolve_user
    resolve_new w e = elim (create_user_outcome env i w) [
      | inl (made, email, own, e') ↦ elim (Bool-cases (env.fails Call.user_id_by_identity)) [
        | inl down ↦ inl (ground arith)
        | inr up ↦ inr (email, ground arith, own, ground arith)
      ]
      | inr (fault, e') ↦ inl (ground arith)
    ]

    sign_in_ok :
        (w w' : World) (tokens : Tokens)
        → sign_in issuer verifier env i meta w ≡ (ok tokens, w')
        → (user_id : String) × (v : World) × (resolve_user issuer verifier env i meta w
            ≡ (ok user_id, v))
          × (w'.db ≡ (issuer.issue env user_id meta v).1.db)
    unfolding sign_in
    sign_in_ok w w' tokens e = elim (ok_cases (resolve_user issuer verifier env i meta w).0) [
      | inl (user_id, answer) ↦
          let v = (resolve_user issuer verifier env i meta w).1 in
          (user_id, v, λ k. (answer k, v), ground arith)
      | inr fault ↦ absurd (ground arith)
    ]

    -- What sign_in opens, with the lookup's answer.
    sign_in-Opens :
        (w w' : World) (tokens : Tokens)
        → sign_in issuer verifier env i meta w ≡ (ok tokens, w')
        → Opens w w'
    sign_in-Opens w w' tokens e =
        let (user_id, v, resolved, db') = sign_in_ok w w' tokens e in
        let (users, links) = users-issue user_id v in
        let ok_user : (resolve_user issuer verifier env i meta w).0 ≡ ok user_id =
          ap (λ p. p.0) resolved in
        let same_world : (resolve_user issuer verifier env i meta w).1 ≡ v =
          ap (λ p. p.1) resolved in
        elim (Option-cases (find_identity i.provider i.subject w.db)) [
          | inr (row, found) ↦ elim (resolve_known w row found) [
            | inl fault ↦ absurd (ground arith)
            | inr (_, kept) ↦ inl (row, found, ground arith, ground arith)
          ]
          | inl missing ↦ elim (resolve_new w missing) [
            | inl fault ↦ absurd (ground arith)
            | inr (email, _, own, made) ↦ inr (
              email,
              missing,
              own,
              ap (λ (d : Db). d.users) db'
                  ∙ users
                  ∙ ap (λ (x : World). x.db.users) (sym same_world)
                  ∙ ap (λ (d : Db). d.users) made
                  ∙ (joined_rows env i email w.db).0,
              ap (λ (d : Db). d.identities) db'
                  ∙ links
                  ∙ ap (λ (x : World). x.db.identities) (sym same_world)
                  ∙ ap (λ (d : Db). d.identities) made
                  ∙ (joined_rows env i email w.db).1,
            )
          ]
        ]

judge_ok :
    (issuer : Issuer) (verifier : String → String → Verdict) (env : Env) (provider : String)
    (meta : Meta) (w w' : World) (tokens : Tokens) (v : Verdict)
    → judge_token issuer verifier env provider meta v w ≡ (ok tokens, w')
    → (i : Identity) × (v ≡ proves i) × Opens issuer env i meta w w'
unfolding judge_token
judge_ok issuer verifier env provider meta w w' tokens (proves i) e =
    (i, refl, sign_in-Opens issuer env i meta verifier w w' tokens e)
judge_ok issuer verifier env provider meta w w' tokens no_provider e = absurd (ground arith)
judge_ok issuer verifier env provider meta w w' tokens rejects e = absurd (ground arith)

-- A sign-in that answers with tokens was with a token that proves an identity, and no account that
-- existed was changed or linked to it: either the identity was linked already, and no user and no link
-- changes, or it was not, and there is one new user with this identity. A new user has no address, or
-- the identity's, which the provider has verified and no account has.
pub authenticate_ok :
    (issuer : Issuer) (verifier : String → String → Verdict) (env : Env)
    (provider id_token : String) (meta : Meta) (w w' : World) (tokens : Tokens)
    → authenticate issuer verifier env provider id_token meta w ≡ (ok tokens, w')
    → (i : Identity) × (verifier provider id_token ≡ proves i) × Opens issuer env i meta w w'
unfolding authenticate
authenticate_ok issuer verifier env provider id_token meta w w' tokens e =
    judge_ok issuer verifier env provider meta w w' tokens (verifier provider id_token) e
