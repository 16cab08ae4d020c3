-- ===== src/Session/Families.antt =====
-- The live tokens of a family, under each statement that the session code runs: what rotation,
-- logout and issuing do to them.
use native.Mathlib.Nat.{le_refl}
use ecosystem_complete.Prelude.{
  ℕ, ◌+◌, ◌≤◌, ◌≡◌, refl, ap, inl, inr, Bool-cases, Option-cases, String, Bool, true, false, ◌&&◌,
  some, List, [], ◌∷◌, arith, ◌==◌, eq_iff, is_some, count_where, update_where, find_where,
  exists_where, if◌then◌else◌,
}
use ecosystem_complete.Database.{Db, RefreshToken, Time}
use ecosystem_complete.Session.{RefreshRecord, add_refresh_token, hash_taken}
use ecosystem_complete.Session.Rotate.{
  is_live, revoked, find_token, revoke_token, revoke_family_rows, revoke_family_of,
}

abbrev pub is_live_in : String → RefreshToken → Bool
is_live_in f r = (r.family == f) && is_live r

-- How many tokens of the family can still be rotated, were they not expired.
unfoldable pub live_in : String → Db → ℕ
live_in f db = count_where (is_live_in f) db.refresh_tokens

-- Revoking some rows revives none.
count-revoke-le :
    (f : String) (p : RefreshToken → Bool) (t : Time) (rows : List RefreshToken)
    → count_where (is_live_in f) (update_where p (revoked t) rows) ≤ count_where (is_live_in f) rows
unfolding count_where update_where
count-revoke-le f p t [] = omega arith
count-revoke-le f p t (r ∷ rows) = ground (arith, count-revoke-le f p t rows)

-- Revoking a token that was found live takes one from its family.
count-revoke-lt :
    (h : String) (t : Time) (rows : List RefreshToken) (row : RefreshToken)
    → find_where (λ r. r.token_hash == h) rows ≡ some row
    → is_live row ≡ true
    → 1
        + count_where
            (is_live_in row.family)
            (update_where (λ r. (r.token_hash == h) && is_live r) (revoked t) rows)
      ≤ count_where (is_live_in row.family) rows
unfolding count_where update_where find_where
count-revoke-lt h t [] row e l = cc
count-revoke-lt h t (r ∷ rows) row e l = ground (
  arith,
  count-revoke-lt h t rows row,
  count-revoke-le row.family (λ r. (r.token_hash == h) && is_live r) t rows,
  eq_iff r.family row.family,
)

-- Revoking the live rows of a family leaves it none.
count-revoke_family :
    (f : String) (t : Time) (rows : List RefreshToken)
    → count_where (is_live_in f) (update_where (λ r. (r.family == f) && is_live r) (revoked t) rows)
      ≡ 0
unfolding count_where update_where
count-revoke_family f t [] = refl
count-revoke_family f t (r ∷ rows) = ground (arith, count-revoke_family f t rows)

pub live_in-revoke_token-le :
    (f h : String) (t : Time) (db : Db) → live_in f (revoke_token h t db) ≤ live_in f db
unfolding live_in revoke_token
live_in-revoke_token-le f h t db =
    count-revoke-le f (λ r. (r.token_hash == h) && is_live r) t db.refresh_tokens

pub live_in-revoke_token-lt :
    (h : String) (t : Time) (db : Db) (row : RefreshToken)
    → find_token h db ≡ some row
    → is_live row ≡ true
    → 1 + live_in row.family (revoke_token h t db) ≤ live_in row.family db
unfolding live_in revoke_token find_token
live_in-revoke_token-lt h t db row e l = count-revoke-lt h t db.refresh_tokens row e l

pub live_in-revoke_family_of-le :
    (f h : String) (t : Time) (db : Db) → live_in f (revoke_family_of h t db) ≤ live_in f db
unfolding live_in revoke_family_of
live_in-revoke_family_of-le f h t db = elim (Option-cases (find_token h db)) [
  | inl e ↦ rw (e, revoke_family_of) (le_refl _)
  | inr (row, e) ↦
      rw (e, revoke_family_of)
        (count-revoke-le f (λ r. (r.family == row.family) && is_live r) t db.refresh_tokens)
]

pub live_in-revoke_family_of :
    (h : String) (t : Time) (db : Db) (row : RefreshToken)
    → find_token h db ≡ some row
    → live_in row.family (revoke_family_of h t db) ≡ 0
unfolding live_in revoke_family_of
live_in-revoke_family_of h t db row e =
    rw (e, revoke_family_of)
      (unfold revoke_family_rows in count-revoke_family row.family t db.refresh_tokens)

-- A new token counts for its family only.
pub live_in-add_refresh_token :
    (f : String) (r : RefreshRecord) (db : Db)
    → live_in f (add_refresh_token r db) ≡ (if r.family == f then 1 else 0) + live_in f db
unfolding live_in add_refresh_token count_where
live_in-add_refresh_token f r db = ground arith

-- What SELECT finds after the statements of a rotation.
find-revoke :
    (h : String) (t : Time) (rows : List RefreshToken) (row : RefreshToken)
    → find_where (λ r. r.token_hash == h) rows ≡ some row
    → is_live row ≡ true
    → find_where
        (λ r. r.token_hash == h)
        (update_where (λ r. (r.token_hash == h) && is_live r) (revoked t) rows)
      ≡ some (revoked t row)
unfolding find_where update_where
find-revoke h t [] row e l = cc
find-revoke h t (r ∷ rows) row e l = ground (arith, find-revoke h t rows row)

pub find_token-revoke_token :
    (h : String) (t : Time) (db : Db) (row : RefreshToken)
    → find_token h db ≡ some row
    → is_live row ≡ true
    → find_token h (revoke_token h t db) ≡ some (revoked t row)
unfolding find_token revoke_token
find_token-revoke_token h t db row e l = find-revoke h t db.refresh_tokens row e l

pub find_token-add_refresh_token :
    (h : String) (r : RefreshRecord) (db : Db)
    → (r.token_hash == h) ≡ false
    → find_token h (add_refresh_token r db) ≡ find_token h db
unfolding find_token add_refresh_token find_where
find_token-add_refresh_token h r db e = rw e

exists-find :
    (h : String) (rows : List RefreshToken)
    → exists_where (λ r. r.token_hash == h) rows
      ≡ is_some (find_where (λ r. r.token_hash == h) rows)
unfolding exists_where find_where
exists-find h [] = refl
exists-find h (r ∷ rows) = ground (arith, exists-find h rows)

-- The unique index refuses exactly the hashes that SELECT finds.
pub hash_taken-find_token : (h : String) (db : Db) → hash_taken h db ≡ is_some (find_token h db)
unfolding hash_taken find_token
hash_taken-find_token h db = exists-find h db.refresh_tokens

-- A hash that the unique index lets in is not one that SELECT finds.
pub new_hash-ne :
    (new old : String) (db : Db) (row : RefreshToken)
    → find_token old db ≡ some row
    → hash_taken new db ≡ false
    → (new == old) ≡ false
new_hash-ne new old db row found fresh = elim (Bool-cases (new == old)) [
  | inl same ↦
      let clash : hash_taken old db ≡ false = rw ((eq_iff new old).0 same) at fresh in
      cc (clash, hash_taken-find_token old db, ap is_some found)
  | inr other ↦ other
]
