-- ===== src/Tests/Codes.antt =====
-- Examples for Security.
use ecosystem_complete.Prelude.{◌≡◌, refl, some, pos, ◌-ℤ◌}
use ecosystem_complete.Security.Quota.{check, positive_or}
use ecosystem_complete.Tests.{quota}

refused : check quota (pos 5) (some (pos 0)) (pos 0) ≡ some (pos 59_999_999_995)
unfolding check positive_or ◌-ℤ◌
refused = refl
