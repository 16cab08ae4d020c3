-- ===== src/Config/Lists.antt =====
-- splitList reads back what was joined with commas.
use Prim.Native.Char.{Char}
use Prim.Native.String.{[] as nil, ◌∷◌ as cons}
use Prim.Native.String.append
use ecosystem_complete.Prelude.{
  ◌≡◌, refl, ap, ◌∙◌, String, Bool, true, false, ◌&&◌, not, List, [], ◌∷◌, arith, ◌==◌, eq_iff,
  Bool-cases, inl, inr,
}
use ecosystem_complete.Prelude.Text.{trim_space}
use ecosystem_complete.Prelude.Split.{join_with, all_lack, split-join}
use ecosystem_complete.Config.{keep_pieces, split_list}

-- Each piece is not blank and has no blanks around it.
unfoldable pub all_trimmed : List String → Bool
unfolding trim_space
all_trimmed [] = true
all_trimmed (piece ∷ pieces) =
    (trim_space piece == piece) && not (piece == "") && all_trimmed pieces

keep_pieces-all_trimmed :
    (pieces : List String) → all_trimmed pieces ≡ true → keep_pieces pieces ≡ pieces
unfolding keep_pieces all_trimmed
keep_pieces-all_trimmed [] h = refl
keep_pieces-all_trimmed (piece ∷ pieces) h =
    ground (arith, eq_iff (trim_space piece) piece, keep_pieces-all_trimmed pieces)

nonempty_cons : (c : Char) (s : String) → (cons c s == "") ≡ false
nonempty_cons c s = elim (Bool-cases (cons c s == "")) [
  | inl e ↦ absurd (cc ((eq_iff (cons c s) "").0 e))
  | inr e ↦ e
]

joined_nonempty :
    (piece : String) (pieces : List String)
    → (piece == "") ≡ false
    → (join_with "," (piece ∷ pieces) == "") ≡ false
unfolding join_with
joined_nonempty nil pieces h = absurd (ground (arith, h))
joined_nonempty (cons c s) [] h = h
joined_nonempty (cons c s) (next ∷ pieces) h = rw append.cons (nonempty_cons c _)

-- A list of values that are not blank, have no blanks around them and no commas is read back from the
-- text that joins them with commas.
pub split-join_list :
    (pieces : List String)
    → all_trimmed pieces ≡ true
    → all_lack 44 pieces ≡ true
    → split_list (join_with "," pieces) ≡ pieces
unfolding split_list
split-join_list [] trimmed lack = unfold join_with in refl
split-join_list (piece ∷ pieces) trimmed lack =
    rw (joined_nonempty piece pieces (unfold all_trimmed in ground arith)) (
      ap keep_pieces (split-join "," piece pieces lack)
      ∙ keep_pieces-all_trimmed (piece ∷ pieces) trimmed)
