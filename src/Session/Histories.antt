-- ===== src/Session/Histories.antt =====
-- Any sequence of session requests, each with its own clock, entropy and failing calls.
use native.Mathlib.Nat.{le_refl}
use ecosystem_complete.Prelude.{
  ◌+◌, ◌≤◌, ◌≡◌, ◌≢◌, refl, ◌⊎◌, inl, inr, String, Bool, true, false, ◌&&◌, ◌+ℤ◌, some, List, [],
  ◌∷◌, arith, ◌==◌, eq_iff, Bool-cases, Option-cases, exists_where, update_where, count_where,
  if◌then◌else◌,
}
use ecosystem_complete.Database.{Db, RefreshToken, Time}
use ecosystem_complete.Runtime.{Env, World}
use ecosystem_complete.Runtime.Exec.{ok}
use ecosystem_complete.Session.{Config, Tokens, Meta, RefreshRecord, add_refresh_token, issue}
use ecosystem_complete.Session.Rotate.{
  is_live, revoked, find_token, revoke_token, revoke_family_of, refresh, logout,
}
use ecosystem_complete.Session.Families.{
  live_in, is_live_in, live_in-add_refresh_token, live_in-revoke_token-lt,
}
use ecosystem_complete.Session.Logout.{logout_db, live_in-logout-le}
use ecosystem_complete.Session.Rotation.{successor, refresh_ok, refresh_atomic, live_in-refresh-le}

-- Some token of the family was issued.
unfoldable pub family_used : String → Db → Bool
family_used f db = exists_where (λ r. r.family == f) db.refresh_tokens

-- The record that Issue stores.
abbrev opening : Env → Config → String → Meta → RefreshRecord
opening env cfg user_id meta = record {
  user_id = user_id;
  token_hash = env.sha256 env.new_token;
  family = env.new_family;
  device = meta.device;
  user_agent = meta.user_agent;
  ip = meta.ip;
  expires_at = env.now +ℤ cfg.refresh_ttl;
}

module _ (env : Env) (cfg : Config) (user_id : String) (meta : Meta) (w : World) where
  issue_db :
      ((issue env cfg user_id meta w).1.db ≡ w.db)
      ⊎ ((issue env cfg user_id meta w).1.db
          ≡ add_refresh_token (opening env cfg user_id meta) w.db)
  unfolding issue
  issue_db = ground arith

  -- An issued family has at most one token more, and no other family changes.
  live_in-issue :
      (f : String)
      → live_in f (issue env cfg user_id meta w).1.db
        ≤ (if env.new_family == f then 1 else 0) + live_in f w.db
  live_in-issue f = elim issue_db [
    | inl e ↦ rw e (omega arith)
    | inr e ↦ rw (e, live_in-add_refresh_token) (le_refl _)
  ]

-- One request; an issued family is one that no stored token belongs to, since its id is drawn from
-- 16 random bytes.
pub data Step (w : World) : World → Type 0 where
  issues :
      (env : Env) (cfg : Config) (user_id : String) (meta : Meta)
      → family_used env.new_family w.db ≡ false
      → Step w (issue env cfg user_id meta w).1
  refreshes :
      (env : Env) (cfg : Config) (presented : String) (meta : Meta)
      → Step w (refresh env cfg presented meta w).1
  logs_out : (env : Env) (presented : String) → Step w (logout env presented w).1

pub data Reach (w : World) : World → Type 0 where
  here : Reach w w
  next : {v u : World} → Reach w v → Step v u → Reach w u

used-update :
    (f : String) (p : RefreshToken → Bool) (t : Time) (rows : List RefreshToken)
    → exists_where (λ r. r.family == f) (update_where p (revoked t) rows)
      ≡ exists_where (λ r. r.family == f) rows
unfolding exists_where update_where
used-update f p t [] = refl
used-update f p t (r ∷ rows) = ground (arith, used-update f p t rows)

used-revoke_family_of :
    (f h : String) (t : Time) (db : Db) → family_used f (revoke_family_of h t db) ≡ family_used f db
unfolding family_used revoke_family_of
used-revoke_family_of f h t db = elim (Option-cases (find_token h db)) [
  | inl e ↦ rw (e, revoke_family_of) refl
  | inr (row, e) ↦
      rw (e, revoke_family_of)
        (used-update f (λ r. (r.family == row.family) && is_live r) t db.refresh_tokens)
]

used-revoke_token :
    (f h : String) (t : Time) (db : Db) → family_used f (revoke_token h t db) ≡ family_used f db
unfolding family_used revoke_token
used-revoke_token f h t db =
    used-update f (λ r. (r.token_hash == h) && is_live r) t db.refresh_tokens

used-add :
    (f : String) (r : RefreshRecord) (db : Db)
    → family_used f db ≡ true
    → family_used f (add_refresh_token r db) ≡ true
unfolding family_used add_refresh_token exists_where
used-add f r db e = ground arith

-- A family that was never used has no live token.
unused-live :
    (f : String) (rows : List RefreshToken)
    → exists_where (λ r. r.family == f) rows ≡ false
    → count_where (is_live_in f) rows ≡ 0
unfolding exists_where count_where
unused-live f [] e = refl
unused-live f (r ∷ rows) e = ground (arith, unused-live f rows)

live_in_unused : (f : String) (db : Db) → family_used f db ≡ false → live_in f db ≡ 0
unfolding family_used live_in
live_in_unused f db e = unused-live f db.refresh_tokens e

-- The rows of a family are never deleted.
Step-used :
    {w u : World} (f : String) → Step w u → family_used f w.db ≡ true → family_used f u.db ≡ true
Step-used {w} f (issues env cfg user_id meta fresh) h = elim (issue_db env cfg user_id meta w) [
  | inl e ↦ rw e h
  | inr e ↦ rw e (used-add f (opening env cfg user_id meta) w.db h)
]
Step-used {w} f (refreshes env cfg p meta) h = elim (refresh_atomic env cfg p meta w) [
  | inl e ↦ rw e h
  | inr (row, found, inl (_, (_, e))) ↦ rw (e, used-revoke_family_of) h
  | inr (row, found, inr (_, e)) ↦ rw e (
      used-add f (successor env cfg p meta w row) _
        (rw (used-revoke_token f (env.sha256 p) env.db_now w.db) h))
]
Step-used {w} f (logs_out env p) h = elim (logout_db env p w) [
  | inl e ↦ rw e h
  | inr e ↦ rw (e, used-revoke_family_of) h
]

used-ne-fresh :
    (new f : String) (db : Db)
    → family_used f db ≡ true
    → family_used new db ≡ false
    → (new == f) ≡ false
used-ne-fresh new f db used fresh = elim (Bool-cases (new == f)) [
  | inl same ↦
      let clash : family_used f db ≡ false = rw ((eq_iff new f).0 same) at fresh in cc (clash, used)
  | inr other ↦ other
]

live_in-issue_unused :
    (env : Env) (cfg : Config) (user_id : String) (meta : Meta) (w : World) (f : String)
    → family_used env.new_family w.db ≡ false
    → (live_in f (issue env cfg user_id meta w).1.db ≤ live_in f w.db)
      ⊎ (live_in f (issue env cfg user_id meta w).1.db ≤ 1)
live_in-issue_unused env cfg user_id meta w f fresh = elim (Bool-cases (env.new_family == f)) [
  | inl same ↦
      let unused = live_in_unused env.new_family w.db fresh in
      let here : live_in f w.db ≡ 0 = rw ((eq_iff env.new_family f).0 same) at unused in
      inr (ground (arith, live_in-issue env cfg user_id meta w f))
  | inr other ↦ inl (ground (arith, live_in-issue env cfg user_id meta w f))
]

-- Every family has at most one live token.
abbrev pub IsSingle : Db → Type 0
IsSingle db = (f : String) → live_in f db ≤ 1

Step-IsSingle : {w u : World} → Step w u → IsSingle w.db → IsSingle u.db
Step-IsSingle {w} (issues env cfg user_id meta fresh) h f =
    ground (arith, h f, live_in-issue_unused env cfg user_id meta w f fresh)
Step-IsSingle {w} (refreshes env cfg p meta) h f =
    omega (arith, h f, live_in-refresh-le env cfg p meta w f)
Step-IsSingle {w} (logs_out env p) h f = omega (arith, h f, live_in-logout-le env p w f)

-- Over any history of logins, refreshes and logouts, with any calls failing, a family has at most
-- one token that can be exchanged, if every family had at most one at the start.
pub Reach-IsSingle : {w u : World} → Reach w u → IsSingle w.db → IsSingle u.db
Reach-IsSingle here h = h
Reach-IsSingle (next r st) h = Step-IsSingle st (Reach-IsSingle r h)

-- The family was used, and none of its tokens is live.
abbrev pub IsDead : String → Db → Type 0
IsDead f db = (family_used f db ≡ true) × (live_in f db ≡ 0)

Step-IsDead : {w u : World} (f : String) → Step w u → IsDead f w.db → IsDead f u.db
Step-IsDead {w} f (issues env cfg user_id meta fresh) (used, none_live) = (
  Step-used f (issues env cfg user_id meta fresh) used,
  ground (
    arith,
    live_in-issue env cfg user_id meta w f,
    used-ne-fresh env.new_family f w.db used fresh,
  ),
)
Step-IsDead {w} f (refreshes env cfg p meta) (used, none_live) = (
  Step-used f (refreshes env cfg p meta) used,
  omega (arith, live_in-refresh-le env cfg p meta w f),
)
Step-IsDead {w} f (logs_out env p) (used, none_live) =
    (Step-used f (logs_out env p) used, omega (arith, live_in-logout-le env p w f))

Reach-IsDead : {w u : World} (f : String) → Reach w u → IsDead f w.db → IsDead f u.db
Reach-IsDead f here h = h
Reach-IsDead f (next r st) h = Step-IsDead f st (Reach-IsDead f r h)

-- A family without a live token stays so: after any history, a refresh that answers with tokens was
-- given a token of another family.
pub dead_family_forever :
    {w u : World} (f : String) (env : Env) (cfg : Config) (presented : String) (meta : Meta)
    (tokens : Tokens) (u' : World)
    → Reach w u
    → IsDead f w.db
    → refresh env cfg presented meta u ≡ (ok tokens, u')
    → (row : RefreshToken) × (find_token (env.sha256 presented) u.db ≡ some row) × (row.family ≢ f)
dead_family_forever {w} {u} f env cfg presented meta tokens u' r dead e =
    let (row, found, live, unexpired, fresh, db1) =
      refresh_ok env cfg presented meta u tokens u' e in
    let still : live_in f u.db ≡ 0 = (Reach-IsDead f r dead).1 in
    let counted = live_in-revoke_token-lt (env.sha256 presented) env.db_now u.db row found live in
    (row, found, λ same. absurd (omega (arith, rw same at counted)))
