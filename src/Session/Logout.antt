-- ===== src/Session/Logout.antt =====
-- What Logout guarantees for one request.
use ecosystem_complete.Prelude.{
  ◌≤◌, ◌≡◌, ◌≢◌, ◌⊎◌, inl, inr, String, true, none, some, arith, eq_iff, Option-cases,
}
use ecosystem_complete.Database.{RefreshToken}
use ecosystem_complete.Runtime.{Env, World}
use ecosystem_complete.Runtime.Exec.{ok, is_failed}
use ecosystem_complete.Session.Rotate.{find_token, revoke_family_of, logout}
use ecosystem_complete.Session.Families.{
  live_in, live_in-revoke_family_of-le, live_in-revoke_family_of,
}

module _ (env : Env) (presented : String) (w : World) where
  -- A logout leaves no family with more live tokens than it had.
  pub live_in-logout-le : (f : String) → live_in f (logout env presented w).1.db ≤ live_in f w.db
  unfolding logout
  live_in-logout-le f =
      ground (arith, live_in-revoke_family_of-le f (env.sha256 presented) env.db_now w.db)

  pub logout_db :
      ((logout env presented w).1.db ≡ w.db)
      ⊎ ((logout env presented w).1.db ≡ revoke_family_of (env.sha256 presented) env.db_now w.db)
  unfolding logout
  logout_db = ground arith

  logout_unknown :
      find_token (env.sha256 presented) w.db ≡ none
      → ((logout env presented w).1.db ≡ w.db)
        × (((logout env presented w).0 ≡ ok tt) ⊎ (is_failed (logout env presented w).0 ≡ true))
  unfolding logout
  logout_unknown e = (ground arith, ground arith)

  logout_known :
      (row : RefreshToken)
      → presented ≢ ""
      → find_token (env.sha256 presented) w.db ≡ some row
      → (((logout env presented w).0 ≡ ok tt)
          × (live_in row.family (logout env presented w).1.db ≡ 0))
        ⊎ ((is_failed (logout env presented w).0 ≡ true) × ((logout env presented w).1.db ≡ w.db))
  unfolding logout
  logout_known row given found =
      let emptied = live_in-revoke_family_of (env.sha256 presented) env.db_now w.db row found in
      ground (arith, eq_iff presented "", emptied)

  -- Logout with a token that is not empty: for a stored one, live or not, it succeeds and leaves
  -- the token's family without a live token; for any other it changes nothing and does not say so;
  -- if a call fails, nothing changes.
  pub logout_ends_session :
      presented ≢ ""
      → ((find_token (env.sha256 presented) w.db ≡ none)
          × ((logout env presented w).1.db ≡ w.db)
          × (((logout env presented w).0 ≡ ok tt) ⊎ (is_failed (logout env presented w).0 ≡ true)))
        ⊎ ((row : RefreshToken) × (find_token (env.sha256 presented) w.db ≡ some row)
            × ((((logout env presented w).0 ≡ ok tt)
                  × (live_in row.family (logout env presented w).1.db ≡ 0))
                ⊎ ((is_failed (logout env presented w).0 ≡ true)
                    × ((logout env presented w).1.db ≡ w.db))))
  logout_ends_session given = elim (Option-cases (find_token (env.sha256 presented) w.db)) [
    | inl missing ↦ inl (missing, (logout_unknown missing).0, (logout_unknown missing).1)
    | inr (row, found) ↦ inr (row, found, logout_known row given found)
  ]
