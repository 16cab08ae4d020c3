-- ===== src/Prelude/Lists.antt =====
-- Lists as tables: the clauses of SQL over a list of rows, and the laws that relate them.
use Prim.Native.Nat.{ℕ, suc, ◌+◌, ◌≤◌}
use mathlib.Core.Path.{◌≡◌, refl}
use mathlib.Core.Bool.{Bool, true, false, ◌||◌}
use mathlib.Core.Option
use mathlib.Core.Option.{Option, none, some}
use mathlib.Core.List.{List, [], ◌∷◌}
use native.Mathlib.Omega.{arith}
use ecosystem_complete.Prelude.Tests.{is_some, if◌then◌else◌}

module _ {ℓ} {A : Type ℓ} where
  abbrev pub length : List A → ℕ
  length [] = 0
  length (x ∷ xs) = suc (length xs)

  -- UPDATE ... SET f WHERE p
  unfoldable pub update_where : (A → Bool) → (A → A) → List A → List A
  update_where p f [] = []
  update_where p f (r ∷ rows) = (if p r then f r else r) ∷ update_where p f rows

  -- DELETE ... WHERE p
  unfoldable pub delete_where : (A → Bool) → List A → List A
  delete_where p [] = []
  delete_where p (r ∷ rows) = let rest = delete_where p rows in if p r then rest else r ∷ rest

  -- SELECT ... WHERE p, the first row that answers
  unfoldable pub find_where : (A → Bool) → List A → Option A
  find_where p [] = none
  find_where p (r ∷ rows) = if p r then some r else find_where p rows

  -- SELECT EXISTS (SELECT 1 ... WHERE p)
  unfoldable pub exists_where : (A → Bool) → List A → Bool
  exists_where p [] = false
  exists_where p (r ∷ rows) = p r || exists_where p rows

  -- SELECT count(*) ... WHERE p
  unfoldable pub count_where : (A → Bool) → List A → ℕ
  count_where p [] = 0
  count_where p (r ∷ rows) = (if p r then 1 else 0) + count_where p rows

module _ {ℓ} {A : Type ℓ} where
  pub find-delete : (p : A → Bool) (rows : List A) → find_where p (delete_where p rows) ≡ none
  unfolding find_where delete_where
  find-delete p [] = refl
  find-delete p (r ∷ rows) = ground (arith, find-delete p rows)

  -- A statement that keeps what the condition reads is seen by the next SELECT.
  pub find-update :
      (p : A → Bool) (f : A → A) (rows : List A)
      → ((a : A) → p (f a) ≡ p a)
      → find_where p (update_where p f rows) ≡ Option.map f (find_where p rows)
  unfolding find_where update_where
  find-update p f [] keeps = refl
  find-update p f (r ∷ rows) keeps = ground (arith, keeps r, find-update p f rows keeps)

  pub exists-find :
      (p : A → Bool) (rows : List A) → exists_where p rows ≡ is_some (find_where p rows)
  unfolding exists_where find_where
  exists-find p [] = refl
  exists-find p (r ∷ rows) = ground (arith, exists-find p rows)

  -- No row is left that a SELECT of q would find, when the update takes q from the rows it reaches.
  pub exists-update :
      (p q : A → Bool) (f : A → A) (rows : List A)
      → ((a : A) → (if p a then q (f a) else q a) ≡ false)
      → exists_where q (update_where p f rows) ≡ false
  unfolding exists_where update_where
  exists-update p q f [] clears = refl
  exists-update p q f (r ∷ rows) clears = ground (arith, clears r, exists-update p q f rows clears)

  -- An update that makes no row answer to p leaves no more rows that do.
  pub count-update-le :
      (p q : A → Bool) (f : A → A) (rows : List A)
      → ((a : A) → p (f a) ≡ true → p a ≡ true)
      → count_where p (update_where q f rows) ≤ count_where p rows
  unfolding count_where update_where
  count-update-le p q f [] keeps = omega arith
  count-update-le p q f (r ∷ rows) keeps = ground (arith, keeps r, count-update-le p q f rows keeps)

  pub count-exists :
      (p : A → Bool) (rows : List A) → exists_where p rows ≡ false → count_where p rows ≡ 0
  unfolding count_where exists_where
  count-exists p [] h = refl
  count-exists p (r ∷ rows) h = ground (arith, count-exists p rows)
