-- ===== src/Security/Quota.antt =====
-- limit.go: how often a code can be requested.
use ecosystem_complete.Prelude.{
  ◌≡◌, ◌↔◌, Option, none, some, ℤ, pos, ◌-ℤ◌, ◌≤ℤ◌, ◌<ℤ◌, ltb_ℤ, leb_ℤ, -ℤ_parts, arith,
  if◌then◌else◌,
}
use ecosystem_complete.Database.{Time, Duration}

pub record Quota : Type 0 where
  pub cooldown : Duration
  pub window : Duration
  pub limit : ℤ

abbrev pub default_cooldown : Duration
default_cooldown = pos 60_000_000_000

abbrev pub default_window : Duration
default_window = pos 86_400_000_000_000

abbrev pub default_limit : ℤ
default_limit = pos 5

-- `if q <= 0 { q = fallback }`
unfoldable pub positive_or : ℤ → ℤ → ℤ
positive_or q fallback = if leb_ℤ q (pos 0) then fallback else q

-- Quota.Check: none to go ahead, or the RetryAfter of TooManyRequestsError
unfoldable pub check : Quota → Time → Option Time → ℤ → Option Duration
check q now last_at in_window =
    let cooldown = positive_or q.cooldown default_cooldown in
    let window = positive_or q.window default_window in
    let limit = positive_or q.limit default_limit in
    let by_window = if leb_ℤ limit in_window then some window else none in
    elim last_at [
      | none ↦ by_window
      | some at ↦ if ltb_ℤ (now -ℤ at) cooldown then some (cooldown -ℤ (now -ℤ at)) else by_window
    ]

pub positive_or_pos : (q d : ℤ) → pos 1 ≤ℤ d → pos 1 ≤ℤ positive_or q d
unfolding positive_or
positive_or_pos q d h = ground arith

-- The last request, if there was one, is at least the cooldown ago.
abbrev pub HasCooled : Quota → Time → Option Time → Type 0
HasCooled q now none = Unit {0}
HasCooled q now (some at) = positive_or q.cooldown default_cooldown ≤ℤ now -ℤ at

-- Check lets a request through exactly when the window holds fewer requests than the limit and the
-- last request, if there was one, is at least the cooldown ago; a setting that is not positive
-- counts as its default.
pub check_allows :
    (q : Quota) (now : Time) (last_at : Option Time) (n : ℤ)
    → (check q now last_at n ≡ none)
      ↔ ((n <ℤ positive_or q.limit default_limit) × HasCooled q now last_at)
unfolding check
check_allows q now none n = (λ h. (ground arith, tt), λ h. ground arith)
check_allows q now (some at) n = (λ h. (ground arith, ground arith), λ h. ground arith)

-- What Check refuses, it refuses for a positive time.
pub check_positive :
    (q : Quota) (now : Time) (last_at : Option Time) (n : ℤ) (d : Duration)
    → check q now last_at n ≡ some d
    → pos 1 ≤ℤ d
unfolding check
check_positive q now none n d h =
    ground (arith, positive_or_pos q.window default_window (omega arith))
check_positive q now (some at) n d h = ground (
  arith,
  positive_or_pos q.window default_window (omega arith),
  -ℤ_parts (positive_or q.cooldown default_cooldown) (now -ℤ at),
)
