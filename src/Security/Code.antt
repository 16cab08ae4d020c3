-- ===== src/Security/Code.antt =====
-- GenerateCode: six decimal digits from four random bytes.
use Prim.Native.Char.{Char, code}
use Prim.Native.String.{[], ◌∷◌}
use ecosystem_complete.Prelude.{
  ℕ, zero, suc, ◌+◌, ◌-◌, ◌*◌, ◌/◌, ◌%◌, ◌<◌, ◌≡◌, refl, String, Bool, true, ◌&&◌, arith, leb, eqb,
  all_below, all_below_sound,
}

abbrev nth_char : String → ℕ → Char
nth_char [] n = Prim.Native.Char.nul
nth_char (c ∷ s) zero = c
nth_char (c ∷ s) (suc n) = nth_char s n

abbrev digit : ℕ → Char
digit = nth_char "0123456789"

-- fmt.Sprintf("%06d", v) of a number below a million
unfoldable pub six_digits : ℕ → String
six_digits v =
    digit (v / 100_000)
    ∷ digit (v / 10_000 % 10)
    ∷ digit (v / 1_000 % 10)
    ∷ digit (v / 100 % 10)
    ∷ digit (v / 10 % 10)
    ∷ digit (v % 10)
    ∷ []

-- GenerateCode, of the 32 bits that it reads
unfoldable pub generate_code : ℕ → String
unfolding six_digits
generate_code bits = six_digits (bits % 1_000_000)

abbrev is_digit : Char → Bool
is_digit c = leb 48 (code c) && leb (code c) 57

abbrev pub all_digits : String → Bool
all_digits [] = true
all_digits (c ∷ s) = is_digit c && all_digits s

abbrev size : String → ℕ
size [] = 0
size (c ∷ s) = suc (size s)

-- codePattern of api/internal/httpapi/auth.go, `^[0-9]{6}$`
unfoldable pub matches_code_pattern : String → Bool
matches_code_pattern s = eqb (size s) 6 && all_digits s

-- The number that a text of decimal digits writes.
abbrev pub decimal : ℕ → String → ℕ
decimal acc [] = acc
decimal acc (c ∷ s) = decimal (acc * 10 + (code c - 48)) s

digit_code : (n : ℕ) → n < 10 → code (digit n) ≡ 48 + n
digit_code n h =
    let table : all_below 10 (λ k. eqb (code (digit k)) (48 + k)) ≡ true = refl in
    ground (arith, all_below_sound 10 (λ k. eqb (code (digit k)) (48 + k)) n table h)

digit-is_digit : (n : ℕ) → n < 10 → is_digit (digit n) ≡ true
digit-is_digit n h =
    let table : all_below 10 (λ k. is_digit (digit k)) ≡ true = refl in
    all_below_sound 10 (λ k. is_digit (digit k)) n table h

module _ (v : ℕ) (h : v < 1_000_000) where
  six_digits-matches : matches_code_pattern (six_digits v) ≡ true
  unfolding six_digits matches_code_pattern
  six_digits-matches = cc (
    digit-is_digit (v / 100_000) (omega arith),
    digit-is_digit (v / 10_000 % 10) (omega arith),
    digit-is_digit (v / 1_000 % 10) (omega arith),
    digit-is_digit (v / 100 % 10) (omega arith),
    digit-is_digit (v / 10 % 10) (omega arith),
    digit-is_digit (v % 10) (omega arith),
  )

  six_digits-decimal : decimal 0 (six_digits v) ≡ v
  unfolding six_digits
  six_digits-decimal = omega (
    arith,
    digit_code (v / 100_000) (omega arith),
    digit_code (v / 10_000 % 10) (omega arith),
    digit_code (v / 1_000 % 10) (omega arith),
    digit_code (v / 100 % 10) (omega arith),
    digit_code (v / 10 % 10) (omega arith),
    digit_code (v % 10) (omega arith),
  )

-- Every code that is generated has the form that the endpoints accept, six decimal digits, and writes
-- the drawn number modulo a million, leading zeros included.
pub generate_code_form :
    (bits : ℕ)
    → (matches_code_pattern (generate_code bits) ≡ true)
      × (decimal 0 (generate_code bits) ≡ bits % 1_000_000)
unfolding generate_code
generate_code_form bits = (
  six_digits-matches (bits % 1_000_000) (omega arith),
  six_digits-decimal (bits % 1_000_000) (omega arith),
)
