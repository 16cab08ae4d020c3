-- ===== src/Prelude/Ordered.antt =====
-- ORDER BY and WHERE: the rows come in order, and each as often as before.
use Prim.Native.Nat.{ℕ, zero, suc}
use mathlib.Core.Path.{◌≡◌, refl}
use mathlib.Core.Bool.{Bool, true, ◌&&◌, ◌||◌}
use mathlib.Core.Option.{some}
use mathlib.Core.List.{List, [], ◌∷◌, map}
use native.Mathlib.Omega.{arith}
use ecosystem_complete.Prelude.Lists.{count_where}
use ecosystem_complete.Prelude.Sort.{select_where, insert_sorted, sort_by, get_elem?}

module _ {ℓ} {A : Type ℓ} where
  -- The first row, if there is one, does not come before `a`.
  abbrev StartsAfter : (A → A → Bool) → A → List A → Type 0
  StartsAfter le a [] = Unit
  StartsAfter le a (b ∷ rows) = le a b ≡ true

  abbrev pub IsSorted : (A → A → Bool) → List A → Type 0
  IsSorted le [] = Unit
  IsSorted le (a ∷ rows) = StartsAfter le a rows × IsSorted le rows

  pub insert_sorted-IsSorted :
      (le : A → A → Bool) (a : A) (rows : List A)
      → ((x y : A) → (le x y || le y x) ≡ true)
      → IsSorted le rows
      → IsSorted le (insert_sorted le a rows)
  unfolding insert_sorted
  insert_sorted-IsSorted le a [] total s = (tt, tt)
  insert_sorted-IsSorted le a (b ∷ []) total s = ground (arith, total a b)
  insert_sorted-IsSorted le a (b ∷ c ∷ rows) total s =
      ground (arith, total a b, insert_sorted-IsSorted le a (c ∷ rows) total s.1)

  pub sort_by-IsSorted :
      (le : A → A → Bool) (rows : List A)
      → ((x y : A) → (le x y || le y x) ≡ true)
      → IsSorted le (sort_by le rows)
  unfolding sort_by
  sort_by-IsSorted le [] total = tt
  sort_by-IsSorted le (a ∷ rows) total =
      insert_sorted-IsSorted le a (sort_by le rows) total (sort_by-IsSorted le rows total)

  -- Neighbours in a sorted list.
  pub IsSorted-get_elem? :
      (le : A → A → Bool) (rows : List A) (i : ℕ) (a b : A)
      → IsSorted le rows
      → get_elem? rows i ≡ some a
      → get_elem? rows (suc i) ≡ some b
      → le a b ≡ true
  IsSorted-get_elem? le [] i a b s p q = cc
  IsSorted-get_elem? le (x ∷ []) zero a b s p q = cc
  IsSorted-get_elem? le (x ∷ y ∷ rows) zero a b s p q = ground arith
  IsSorted-get_elem? le (x ∷ rows) (suc i) a b s p q = IsSorted-get_elem? le rows i a b s.1 p q

  count-insert_sorted :
      (p : A → Bool) (le : A → A → Bool) (a : A) (rows : List A)
      → count_where p (insert_sorted le a rows) ≡ count_where p (a ∷ rows)
  unfolding count_where insert_sorted
  count-insert_sorted p le a [] = refl
  count-insert_sorted p le a (b ∷ rows) = ground (arith, count-insert_sorted p le a rows)

  pub count-sort_by :
      (p : A → Bool) (le : A → A → Bool) (rows : List A)
      → count_where p (sort_by le rows) ≡ count_where p rows
  unfolding count_where sort_by
  count-sort_by p le [] = refl
  count-sort_by p le (a ∷ rows) =
      ground (arith, count-insert_sorted p le a (sort_by le rows), count-sort_by p le rows)

  pub count-select :
      (q p : A → Bool) (rows : List A)
      → count_where q (select_where p (λ a. a) rows) ≡ count_where (λ a. p a && q a) rows
  unfolding count_where select_where
  count-select q p [] = refl
  count-select q p (a ∷ rows) = ground (arith, count-select q p rows)

-- A SELECT meets every row as often as the table has it, in whatever order.
abbrev pub KeepsRows {ℓ} : {A : Type ℓ} → (List A → List A) → Type ℓ
KeepsRows {A} scan = (q : A → Bool) (rows : List A) → count_where q (scan rows) ≡ count_where q rows

module _ {ℓ κ} {A : Type ℓ} {B : Type κ} (f : A → B) where
  pub map-IsSorted :
      (le : B → B → Bool) (rows : List A)
      → IsSorted (λ a b. le (f a) (f b)) rows
      → IsSorted le (map f rows)
  map-IsSorted le [] s = tt
  map-IsSorted le (a ∷ []) s = (tt, tt)
  map-IsSorted le (a ∷ b ∷ rows) s = (s.0, map-IsSorted le (b ∷ rows) s.1)

  pub count-map :
      (q : B → Bool) (rows : List A) → count_where q (map f rows) ≡ count_where (λ a. q (f a)) rows
  unfolding count_where
  count-map q [] = refl
  count-map q (a ∷ rows) = ground (arith, count-map q rows)
