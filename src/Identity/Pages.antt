-- ===== src/Identity/Pages.antt =====
-- A page of a longer list: normalizePaging and offset of admin.go, and what the two SELECTs of a list
-- do with them.
use ecosystem_complete.Prelude.{
  ℕ, suc, ◌+◌, ◌-◌, ◌*◌, ◌^◌, ◌%◌, ◌≤◌, ◌<◌, ◌≡◌, refl, ap, ◌∙◌, false, Option, none, some, List, ℤ,
  pos, negsuc, arith, ltb, if◌then◌else◌,
}
use ecosystem_complete.Prelude.Sort.{take, drop, get_elem?, get_elem?-take, get_elem?-drop}
use ecosystem_complete.Identity.{Error}
use ecosystem_complete.Runtime.{Env, Call, World}
use ecosystem_complete.Runtime.Exec.{Exec, ok, pure, or_fail, attempt, ◌>>=◌}

pub record Page (A : Type 0) : Type 0 where
  pub rows : List A
  pub page : ℕ
  pub limit : ℕ
  pub total : ℕ

-- `if x < 1 { x = fallback }`
abbrev pub positive_or : ℤ → ℕ → ℕ
positive_or (pos (suc n)) fallback = suc n
positive_or _ fallback = fallback

unfoldable pub normalize_paging : ℤ → ℤ → ℕ × ℕ
normalize_paging page limit =
    let l = positive_or limit 20 in (positive_or page 1, if ltb 100 l then 100 else l)

-- An int: the low 64 bits, in two's complement.
abbrev pub wrap : ℕ → ℤ
wrap n = let m = n % 2 ^ 64 in if ltb m (2 ^ 63) then pos m else negsuc (2 ^ 64 - 1 - m)

unfoldable pub offset : ℕ → ℕ → ℤ
offset page limit = wrap ((page - 1) * limit)

-- LIMIT $4 OFFSET $5; the database refuses a negative OFFSET
unfoldable pub page_rows : {A : Type 0} → ℕ → ℤ → List A → Option (List A)
unfolding take drop
page_rows limit (pos o) rows = some (take limit (drop o rows))
page_rows limit (negsuc _) rows = none

-- The count and the page of the rows, which PostgresStore reads by two SELECTs with one WHERE.
unfoldable pub list_page :
    {A : Type 0} → Env → Call → Call → ℤ → ℤ → (World → ℕ) → (World → List A) → Exec Error (Page A)
unfolding normalize_paging offset page_rows
list_page env counting selecting page limit count rows w =
    let (p, l) = normalize_paging page limit in
    (do
      total ← attempt env counting (count w)
      selected ← attempt env selecting (page_rows l (offset p l) (rows w))
      found ← or_fail selected selecting
      pure (record { rows = found; page = p; limit = l; total = total }))
      w

-- Whatever is asked for, a page is at least 1 and a limit between 1 and 100.
pub normalize_paging_bounds :
    (page limit : ℤ) → let (p, l) = normalize_paging page limit in (1 ≤ p) × (1 ≤ l) × (l ≤ 100)
unfolding normalize_paging
normalize_paging_bounds page limit = (ground arith, ground arith, ground arith)

product_le : (p l : ℕ) → (p - 1) * l ≤ p * l
product_le p l = grind arith

offset_small : (p l : ℕ) → p * l < 2 ^ 63 → offset p l ≡ pos ((p - 1) * l)
unfolding offset
offset_small p l h = ground (arith, product_le p l)

page_rows-some :
    {A : Type 0} (l o : ℕ) (z : ℤ) (rows : List A) (i : ℕ)
    → z ≡ pos o
    → (found : List A) × (page_rows l z rows ≡ some found)
      × (get_elem? found i ≡ (if ltb i l then get_elem? rows (o + i) else none))
unfolding page_rows
page_rows-some l o z rows i e = (
  take l (drop o rows),
  rw e refl,
  get_elem?-take l (drop o rows) i
      ∙ ap (λ r. if ltb i l then r else none) (get_elem?-drop o rows i),
)

module _ {A : Type 0} (env : Env) (counting selecting : Call) (page limit : ℤ) (count : World → ℕ)
    (rows : World → List A) (w : World) (i : ℕ) where
  -- The ith row of a page that is read, and its total.
  pub list_page_lem :
      env.fails counting ≡ false
      → env.fails selecting ≡ false
      → (normalize_paging page limit).0 * (normalize_paging page limit).1 < 2 ^ 63
      → let (p, l) = normalize_paging page limit in
        (found : Page A) × (list_page env counting selecting page limit count rows w
          ≡ (ok found, w))
        × (get_elem? found.rows i
            ≡ (if ltb i l then get_elem? (rows w) ((p - 1) * l + i) else none))
        × (found.total ≡ count w)
  unfolding list_page
  list_page_lem counted selected small =
      let (p, l) = normalize_paging page limit in
      let (found, read, row) =
        page_rows-some l ((p - 1) * l) (offset p l) (rows w) i (offset_small p l small) in
      (
        record { rows = found; page = p; limit = l; total = count w },
        ground (arith, counted, selected, read),
        row,
        refl,
      )
