-- ===== src/Prelude/Split.antt =====
-- Texts as characters: appending, and Go's strings.Split and strings.Join at one character.
use Prim.Native.Char.{Char, code}
use Prim.Native.String.{String, [] as nil, ◌∷◌ as cons, ◌++◌ as concat}
use Prim.Native.String.append
use Prim.Native.Nat.{ℕ}
use mathlib.Core.Path.{◌≡◌, refl, ap, ◌∙◌}
use mathlib.Core.Bool.{Bool, true, ◌&&◌, not}
use mathlib.Core.List.{List, [], ◌∷◌}
use native.Mathlib.Omega.{arith}
use ecosystem_complete.Prelude.Tests.{eqb, if◌then◌else◌}

-- The character before the first piece.
abbrev pub onto_first : Char → List String → List String
onto_first c [] = cons c nil ∷ []
onto_first c (piece ∷ pieces) = cons c piece ∷ pieces

-- strings.Split at the character of that code
unfoldable pub split_on : ℕ → String → List String
split_on sep nil = nil ∷ []
split_on sep (cons c s) =
    let rest = split_on sep s in if eqb (code c) sep then nil ∷ rest else onto_first c rest

-- strings.Join with that character
unfoldable pub join_with : Char → List String → String
join_with sep [] = nil
join_with sep (piece ∷ []) = piece
join_with sep (piece ∷ next ∷ pieces) = concat piece (cons sep (join_with sep (next ∷ pieces)))

-- The text does not have the character of that code.
unfoldable pub lacks : ℕ → String → Bool
lacks sep nil = true
lacks sep (cons c s) = not (eqb (code c) sep) && lacks sep s

unfoldable pub all_lack : ℕ → List String → Bool
unfolding lacks
all_lack sep [] = true
all_lack sep (piece ∷ pieces) = lacks sep piece && all_lack sep pieces

eqb_refl : (n : ℕ) → eqb n n ≡ true
eqb_refl n = ground arith

pub split-lacks : (sep : ℕ) (s : String) → lacks sep s ≡ true → split_on sep s ≡ s ∷ []
unfolding split_on lacks
split-lacks sep nil h = refl
split-lacks sep (cons c s) h = ground (arith, split-lacks sep s)

pub split-concat :
    (sep : ℕ) (s : String) (c : Char) (t : String)
    → lacks sep s ≡ true
    → eqb (code c) sep ≡ true
    → split_on sep (concat s (cons c t)) ≡ s ∷ split_on sep t
unfolding split_on lacks
split-concat sep nil c t h e = rw (append.nil, e) refl
split-concat sep (cons a s) c t h e = rw append.cons (ground (arith, split-concat sep s c t))

-- What strings.Join writes strings.Split reads back.
pub split-join :
    (c : Char) (piece : String) (pieces : List String)
    → all_lack (code c) (piece ∷ pieces) ≡ true
    → split_on (code c) (join_with c (piece ∷ pieces)) ≡ piece ∷ pieces
unfolding join_with all_lack
split-join c piece [] h = split-lacks (code c) piece (ground arith)
split-join c piece (next ∷ pieces) h =
    split-concat (code c) piece c (join_with c (next ∷ pieces)) (ground arith) (eqb_refl (code c))
    ∙ ap (λ rest. piece ∷ rest) (split-join c next pieces (ground arith))

pub lacks-concat : (sep : ℕ) (s t : String) → lacks sep (concat s t) ≡ (lacks sep s && lacks sep t)
unfolding lacks
lacks-concat sep nil t = rw append.nil
lacks-concat sep (cons c s) t = rw append.cons (ground (arith, lacks-concat sep s t))
