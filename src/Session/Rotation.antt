-- ===== src/Session/Rotation.antt =====
-- What Refresh and Logout guarantee for one request, and for the request that follows.
use ecosystem_complete.Prelude.{
  ◌≤◌, ◌≡◌, ◌≢◌, refl, ◌⊎◌, inl, inr, String, true, false, none, some, ◌+ℤ◌, arith, ◌==◌, eq_iff,
  Bool-cases, Option-cases,
}
use ecosystem_complete.Database.{Db, RefreshToken, after, or_empty}
use ecosystem_complete.Runtime.{Env, World}
use ecosystem_complete.Runtime.Exec.{Result, ok, err, is_failed}
use ecosystem_complete.Session.{
  Error, refresh_reused, Config, Tokens, Meta, RefreshRecord, add_refresh_token, hash_taken,
}
use ecosystem_complete.Session.Rotate.{
  is_live, revoked, find_token, revoke_token, revoke_family_of, refresh,
}
use ecosystem_complete.Session.Families.{
  live_in, live_in-revoke_token-le, live_in-revoke_token-lt, live_in-revoke_family_of-le,
  live_in-revoke_family_of, live_in-add_refresh_token, find_token-revoke_token,
  find_token-add_refresh_token, new_hash-ne,
}

module _ (env : Env) (cfg : Config) (presented : String) (meta : Meta) (w : World) where
  -- The successor that a rotation inserts: owner, family and device come from the old row.
  abbrev pub successor : RefreshToken → RefreshRecord
  successor row = record {
    user_id = row.user_id;
    token_hash = env.sha256 env.new_token;
    family = row.family;
    device = or_empty row.device;
    user_agent = or_empty row.user_agent;
    ip = meta.ip;
    expires_at = env.now +ℤ cfg.refresh_ttl;
  }

  abbrev pub rotated : RefreshToken → Db
  rotated row =
      add_refresh_token (successor row) (revoke_token (env.sha256 presented) env.db_now w.db)

  -- A rotation that answers with tokens was given a stored, live, unexpired token.
  pub refresh_ok :
      (tokens : Tokens) (w' : World)
      → refresh env cfg presented meta w ≡ (ok tokens, w')
      → (row : RefreshToken) × (find_token (env.sha256 presented) w.db ≡ some row)
        × (is_live row ≡ true)
        × (after row.expires_at env.now ≡ true)
        × (hash_taken
              (env.sha256 env.new_token)
              (revoke_token (env.sha256 presented) env.db_now w.db)
            ≡ false)
        × (w'.db ≡ rotated row)
  unfolding refresh
  refresh_ok tokens w' e = elim (Option-cases (find_token (env.sha256 presented) w.db)) [
    | inl missing ↦ absurd (ground arith)
    | inr (row, found) ↦ (row, found, ground arith, ground arith, ground arith, ground arith)
  ]

  abbrev pub WasReuse : Result Error Tokens × World → Type 0
  WasReuse (r, w') =
      (r ≡ err refresh_reused) × (w'.db ≡ revoke_family_of (env.sha256 presented) env.db_now w.db)

  refresh_unknown :
      find_token (env.sha256 presented) w.db ≡ none → (refresh env cfg presented meta w).1.db ≡ w.db
  unfolding refresh
  refresh_unknown e = ground arith

  refresh_known :
      (row : RefreshToken)
      → find_token (env.sha256 presented) w.db ≡ some row
      → ((refresh env cfg presented meta w).1.db ≡ w.db)
        ⊎ ((is_live row ≡ false) × WasReuse (refresh env cfg presented meta w))
        ⊎ ((is_live row ≡ true) × ((refresh env cfg presented meta w).1.db ≡ rotated row))
  unfolding refresh
  refresh_known row e = ground arith

  -- Whatever calls fail, a refresh changes nothing, or revokes the whole family of a token that was
  -- already revoked and says so, or revokes a live token and adds its one successor: it is never
  -- left half done.
  pub refresh_atomic :
      ((refresh env cfg presented meta w).1.db ≡ w.db)
      ⊎ ((row : RefreshToken) × (find_token (env.sha256 presented) w.db ≡ some row)
          × (((is_live row ≡ false) × WasReuse (refresh env cfg presented meta w))
              ⊎ ((is_live row ≡ true) × ((refresh env cfg presented meta w).1.db ≡ rotated row))))
  refresh_atomic = elim (Option-cases (find_token (env.sha256 presented) w.db)) [
    | inl missing ↦ inl (refresh_unknown missing)
    | inr (row, found) ↦ elim (refresh_known row found) [
      | inl same ↦ inl same
      | inr changed ↦ inr (row, found, changed)
    ]
  ]

  -- After the rotation the old token is still stored, and revoked.
  pub find_token-rotated :
      (row : RefreshToken)
      → find_token (env.sha256 presented) w.db ≡ some row
      → is_live row ≡ true
      → hash_taken (env.sha256 env.new_token) (revoke_token (env.sha256 presented) env.db_now w.db)
        ≡ false
      → find_token (env.sha256 presented) (rotated row) ≡ some (revoked env.db_now row)
  find_token-rotated row found live fresh =
      let old = find_token-revoke_token (env.sha256 presented) env.db_now w.db row found live in
      rw (find_token-add_refresh_token, new_hash-ne _ _ _ _ old fresh) old

  live_in-rotated-le :
      (f : String) (row : RefreshToken)
      → find_token (env.sha256 presented) w.db ≡ some row
      → is_live row ≡ true
      → live_in f (rotated row) ≤ live_in f w.db
  live_in-rotated-le f row found live = elim (Bool-cases (row.family == f)) [
    | inl same ↦
        let same_family : row.family ≡ f = (eq_iff row.family f).0 same in
        rw (live_in-add_refresh_token, same)
          (rw same_family at
            (live_in-revoke_token-lt (env.sha256 presented) env.db_now w.db row found live))
    | inr other ↦
        rw (live_in-add_refresh_token, other)
          (omega (arith, live_in-revoke_token-le f (env.sha256 presented) env.db_now w.db))
  ]

  -- A refresh leaves no family with more live tokens than it had, whatever calls fail.
  pub live_in-refresh-le :
      (f : String) → live_in f (refresh env cfg presented meta w).1.db ≤ live_in f w.db
  live_in-refresh-le f = elim refresh_atomic [
    | inl same ↦ rw same (omega arith)
    | inr (row, found, inl (_, reuse)) ↦
        rw reuse.1 (live_in-revoke_family_of-le f (env.sha256 presented) env.db_now w.db)
    | inr (row, found, inr (live, e)) ↦ rw e (live_in-rotated-le f row found live)
  ]

  -- A stored token that is revoked is never exchanged: the answer is the reuse error and no token of
  -- its family is live any more, or else a call failed and nothing changed.
  pub refresh_revoked :
      (row : RefreshToken)
      → presented ≢ ""
      → find_token (env.sha256 presented) w.db ≡ some row
      → is_live row ≡ false
      → let (r, w') = refresh env cfg presented meta w in
        ((r ≡ err refresh_reused) × (live_in row.family w'.db ≡ 0))
        ⊎ ((is_failed r ≡ true) × (w'.db ≡ w.db))
  unfolding refresh
  refresh_revoked row given found dead =
      let emptied = live_in-revoke_family_of (env.sha256 presented) env.db_now w.db row found in
      ground (arith, eq_iff presented "", emptied)

-- A token works once: after a refresh that answered with tokens, the same token is met with the
-- reuse error, which also kills the successor and every other token of the family, or a call fails.
pub refresh_twice :
    (env env' : Env) (cfg cfg' : Config) (presented : String) (meta meta' : Meta) (w w1 : World)
    (tokens : Tokens)
    → presented ≢ ""
    → env'.sha256 presented ≡ env.sha256 presented
    → refresh env cfg presented meta w ≡ (ok tokens, w1)
    → let (r, w2) = refresh env' cfg' presented meta' w1 in
      (row : RefreshToken) × (find_token (env.sha256 presented) w.db ≡ some row)
      × (((r ≡ err refresh_reused) × (live_in row.family w2.db ≡ 0))
          ⊎ ((is_failed r ≡ true) × (w2.db ≡ w1.db)))
refresh_twice env env' cfg cfg' presented meta meta' w w1 tokens given same e =
    let (row, found, live, unexpired, fresh, db1) =
      refresh_ok env cfg presented meta w tokens w1 e in
    let later : find_token (env'.sha256 presented) w1.db ≡ some (revoked env.db_now row) =
      rw (same, db1) (find_token-rotated env cfg presented meta w row found live fresh) in
    (
      row,
      found,
      refresh_revoked env' cfg' presented meta' w1 (revoked env.db_now row) given later refl,
    )
