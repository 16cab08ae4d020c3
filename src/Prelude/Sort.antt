-- ===== src/Prelude/Sort.antt =====
-- The other clauses of a SELECT: joins, DISTINCT and ORDER BY, and which rows they keep.
use Prim.Native.Nat.{ℕ, zero, suc, ◌+◌, Ordering}
use Prim.Native.String.{String, compare}
use mathlib.Core.Path.{◌≡◌, refl, ap}
use mathlib.Core.Bool.{Bool, true, false, ◌&&◌, ◌||◌}
use mathlib.Core.Option.{Option, none, some}
use mathlib.Core.List.{List, [], ◌∷◌, ◌++◌}
use native.Mathlib.Omega.{arith}
use text.Mathlib.Text.{◌==◌}
use text.Mathlib.TextEquality.{eq_iff}
use ecosystem_complete.Prelude.Tests.{ltb, if◌then◌else◌}
use ecosystem_complete.Prelude.Lists.{exists_where}

-- The order of Go's strings, by their bytes.
abbrev pub leb_text : String → String → Bool
leb_text s t = elim (compare s t) [ Ordering.gt ↦ false | _ ↦ true ]

module _ {ℓ κ} {A : Type ℓ} {B : Type κ} where
  -- SELECT f WHERE p
  unfoldable pub select_where : (A → Bool) → (A → B) → List A → List B
  select_where p f [] = []
  select_where p f (a ∷ rows) = let rest = select_where p f rows in if p a then f a ∷ rest else rest

  -- A join: the rows that each row gives.
  unfoldable pub join_rows : (A → List B) → List A → List B
  join_rows f [] = []
  join_rows f (a ∷ rows) = f a ++ join_rows f rows

module _ {ℓ} {A : Type ℓ} where
  unfoldable pub insert_sorted : (A → A → Bool) → A → List A → List A
  insert_sorted le a [] = a ∷ []
  insert_sorted le a (b ∷ rows) =
      let rest = insert_sorted le a rows in if le a b then a ∷ b ∷ rows else b ∷ rest

  -- ORDER BY; rows that are equal in the order stay as they are
  unfoldable pub sort_by : (A → A → Bool) → List A → List A
  unfolding insert_sorted
  sort_by le [] = []
  sort_by le (a ∷ rows) = insert_sorted le a (sort_by le rows)

unfoldable pub contains : List String → String → Bool
contains texts s = exists_where (λ t. t == s) texts

-- SELECT DISTINCT
unfoldable pub distinct : List String → List String
unfolding contains
distinct [] = []
distinct (s ∷ texts) = let rest = distinct texts in if contains texts s then rest else s ∷ rest

module _ {ℓ} {A : Type ℓ} where
  exists-insert_sorted :
      (p : A → Bool) (le : A → A → Bool) (a : A) (rows : List A)
      → exists_where p (insert_sorted le a rows) ≡ (p a || exists_where p rows)
  unfolding exists_where insert_sorted
  exists-insert_sorted p le a [] = refl
  exists-insert_sorted p le a (b ∷ rows) = ground (arith, exists-insert_sorted p le a rows)

  pub exists-sort_by :
      (p : A → Bool) (le : A → A → Bool) (rows : List A)
      → exists_where p (sort_by le rows) ≡ exists_where p rows
  unfolding exists_where sort_by
  exists-sort_by p le [] = refl
  exists-sort_by p le (a ∷ rows) =
      ground (arith, exists-insert_sorted p le a (sort_by le rows), exists-sort_by p le rows)

  pub exists-append :
      (p : A → Bool) (xs ys : List A)
      → exists_where p (xs ++ ys) ≡ (exists_where p xs || exists_where p ys)
  unfolding exists_where
  exists-append p [] ys = refl
  exists-append p (x ∷ xs) ys = ground (arith, exists-append p xs ys)

  -- Rows for which the conditions agree.
  pub exists_congr :
      (p q : A → Bool) (rows : List A)
      → ((a : A) → p a ≡ q a)
      → exists_where p rows ≡ exists_where q rows
  unfolding exists_where
  exists_congr p q [] same = refl
  exists_congr p q (a ∷ rows) same = ground (arith, same a, exists_congr p q rows same)

  pub exists-if :
      (p : A → Bool) (b : Bool) (rows : List A)
      → exists_where p (if b then rows else []) ≡ (b && exists_where p rows)
  unfolding exists_where
  exists-if p true rows = refl
  exists-if p false rows = refl

module _ {ℓ κ} {A : Type ℓ} {B : Type κ} where
  pub exists-select :
      (q : B → Bool) (p : A → Bool) (f : A → B) (rows : List A)
      → exists_where q (select_where p f rows) ≡ exists_where (λ a. p a && q (f a)) rows
  unfolding exists_where select_where
  exists-select q p f [] = refl
  exists-select q p f (a ∷ rows) = ground (arith, exists-select q p f rows)

  pub exists-join :
      (q : B → Bool) (f : A → List B) (rows : List A)
      → exists_where q (join_rows f rows) ≡ exists_where (λ a. exists_where q (f a)) rows
  unfolding exists_where join_rows
  exists-join q f [] = refl
  exists-join q f (a ∷ rows) =
      ground (arith, exists-append q (f a) (join_rows f rows), exists-join q f rows)

contains-distinct_step :
    (s t : String) (texts : List String)
    → contains texts s ≡ true
    → ((s == t) || contains texts t) ≡ contains texts t
contains-distinct_step s t texts old = ground (arith, eq_iff s t)

pub contains-distinct :
    (texts : List String) (s : String) → contains (distinct texts) s ≡ contains texts s
unfolding contains distinct exists_where
contains-distinct [] s = refl
contains-distinct (t ∷ texts) s =
    ground (arith, contains-distinct texts s, contains-distinct_step t s texts)

-- LIMIT and OFFSET.
module _ {ℓ} {A : Type ℓ} where
  unfoldable pub take : ℕ → List A → List A
  take zero xs = []
  take (suc n) [] = []
  take (suc n) (x ∷ xs) = x ∷ take n xs

  unfoldable pub drop : ℕ → List A → List A
  drop zero xs = xs
  drop (suc n) [] = []
  drop (suc n) (x ∷ xs) = drop n xs

  abbrev pub get_elem? : List A → ℕ → Option A
  get_elem? [] i = none
  get_elem? (x ∷ xs) zero = some x
  get_elem? (x ∷ xs) (suc i) = get_elem? xs i

  pub get_elem?-take :
      (n : ℕ) (xs : List A) (i : ℕ)
      → get_elem? (take n xs) i ≡ (if ltb i n then get_elem? xs i else none)
  unfolding take
  get_elem?-take zero xs i = ground arith
  get_elem?-take (suc n) [] i = ground arith
  get_elem?-take (suc n) (x ∷ xs) zero = ground arith
  get_elem?-take (suc n) (x ∷ xs) (suc i) = ground (arith, get_elem?-take n xs i)

  pub get_elem?-drop :
      (n : ℕ) (xs : List A) (i : ℕ) → get_elem? (drop n xs) i ≡ get_elem? xs (n + i)
  unfolding drop
  get_elem?-drop zero xs i = ap (get_elem? xs) (omega arith)
  get_elem?-drop (suc n) [] i = refl
  get_elem?-drop (suc n) (x ∷ xs) i =
      let e : suc n + i ≡ suc (n + i) = omega arith in rw e (get_elem?-drop n xs i)
