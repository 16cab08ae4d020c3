-- ===== src/Prelude/Text.antt =====
-- Go's `strings` and `unicode` packages over texts, as far as the source uses them.
use Prim.Native.Nat.{ℕ, ◌+◌}
use Prim.Native.Char.{Char, code}
use Prim.Native.String.{String, [], ◌∷◌}
use mathlib.Core.Bool.{Bool, true, false, ◌&&◌, ◌||◌}
use ecosystem_complete.Prelude.Tests.{leb, ltb, eqb, if◌then◌else◌}

-- unicode.IsSpace
unfoldable pub is_space : ℕ → Bool
is_space c =
    (leb 9 c && leb c 13)
    || eqb c 32
    || eqb c 0x85
    || eqb c 0xa0
    || eqb c 0x1680
    || (leb 0x2000 c && leb c 0x200a)
    || eqb c 0x2028
    || eqb c 0x2029
    || eqb c 0x202f
    || eqb c 0x205f
    || eqb c 0x3000

unfoldable pub trim_left : String → String
trim_left [] = []
trim_left (c ∷ s) = let rest = trim_left s in if is_space (code c) then rest else c ∷ s

abbrev is_empty : String → Bool
is_empty [] = true
is_empty (_ ∷ _) = false

unfoldable pub trim_right : String → String
trim_right [] = []
trim_right (c ∷ s) =
    let rest = trim_right s in if is_space (code c) && is_empty rest then [] else c ∷ rest

-- strings.TrimSpace
unfoldable pub trim_space : String → String
unfolding trim_left trim_right is_space
trim_space s = trim_right (trim_left s)

-- The character of the second text that stands where `c` stands in the first, or the default.
abbrev pub translate : String → String → Char → Char → Char
translate (a ∷ s) (b ∷ t) d c = if eqb (code a) (code c) then b else translate s t d c
translate _ _ d c = d

-- unicode.ToLower; above ASCII it is a table of the language's library, which is `other` here.
abbrev lower_char : (Char → Char) → Char → Char
lower_char other c =
    if leb 128 (code c)
    then other c
    else translate "ABCDEFGHIJKLMNOPQRSTUVWXYZ" "abcdefghijklmnopqrstuvwxyz" c c

-- strings.ToLower
unfoldable pub to_lower : (Char → Char) → String → String
to_lower other [] = []
to_lower other (c ∷ s) = lower_char other c ∷ to_lower other s

-- strings.TrimRight with a cutset of one character
unfoldable pub trim_right_of : ℕ → String → String
trim_right_of cut [] = []
trim_right_of cut (c ∷ s) =
    let rest = trim_right_of cut s in if eqb (code c) cut && is_empty rest then [] else c ∷ rest

-- len(s): the bytes of a text in UTF-8
unfoldable pub byte_length : String → ℕ
byte_length [] = 0
byte_length (c ∷ s) =
    (if ltb (code c) 0x80
      then 1
      else if ltb (code c) 0x800
      then 2
      else if ltb (code c) 0x10000
      then 3
      else 4)
    + byte_length s

-- strings.ToUpper, where `other` is unicode.ToUpper above ASCII
unfoldable pub to_upper : (Char → Char) → String → String
to_upper other [] = []
to_upper other (c ∷ s) =
    (if leb 128 (code c)
      then other c
      else translate "abcdefghijklmnopqrstuvwxyz" "ABCDEFGHIJKLMNOPQRSTUVWXYZ" c c)
    ∷ to_upper other s
