-- ===== src/Tests/Moves.antt =====
-- Examples for EmailChange.
use mathlib.Core.Option
use ecosystem_complete.Prelude.{
  ℕ, ◌≡◌, refl, ◌<◌, true, false, some, [], ◌∷◌, ◌++◌, ◌==◌, find_where, exists_where, count_where,
  update_where, ◌-ℤ◌, arith, eq_iff, pos,
}
use ecosystem_complete.Database.{UserToken, after, email_change}
use ecosystem_complete.Runtime.{Env, World}
use ecosystem_complete.Runtime.Exec.{ok}
use ecosystem_complete.Security.{normalize_email}
use ecosystem_complete.Security.Code.{generate_code}
use ecosystem_complete.Security.Quota.{check, positive_or}
use ecosystem_complete.UserTokens.{newest_where}
use ecosystem_complete.UserTokens.Effects.{user_row, is_unused, has_session}
use ecosystem_complete.EmailChange.{request, address_taken, confirmation_mail, change_token}
use ecosystem_complete.EmailChange.Verify.{max_attempts, verify, change_row, with_email}
use ecosystem_complete.EmailChange.Outcomes.{change_verify_ok}
use ecosystem_complete.EmailChange.Requests.{nth_code, request_replaces}
use ecosystem_complete.EmailChange.Histories.{
  HasOneCode, here, next, requests, verifies, pending_codes, Reach-HasOneCode,
}
use ecosystem_complete.Tests.{env, quota, db, world, reset_code}

abbrev change_code : UserToken
change_code = record reset_code {
  id = "k2";
  purpose = email_change;
  code_hash = "000008";
  target = "n@x.com";
}

abbrev moving : World
moving = record world { db = record db { user_tokens = change_code ∷ reset_code ∷ [] } }

abbrev after_move : World
after_move = (verify env "u1" "000008" moving).1

moves : verify env "u1" "000008" moving ≡ (ok tt, after_move)
unfolding verify change_row newest_where find_where exists_where
moves = refl

change_verify_ok_example :
    (t : UserToken) × (change_row "u1" moving.db ≡ some t)
    × (after t.expires_at env.now ≡ true)
    × (t.attempts < max_attempts)
    × ((env.sha256 "000008" == t.code_hash) ≡ true)
    × (address_taken t.target moving.db ≡ false)
    × (user_row "u1" after_move.db ≡ Option.map (with_email t.target) (user_row "u1" moving.db))
    × (is_unused t.id after_move.db ≡ false)
    × (has_session "u1" after_move.db ≡ false)
change_verify_ok_example = change_verify_ok env "u1" "000008" moving after_move moves

-- A request after the quota's window.
abbrev late : Env
late = record env { now = pos 3_600_000_000_000_000; db_now = pos 3_600_000_000_000_000 }

abbrev after_request : World
after_request = (request late quota "u1" "M@x.com" "secret" moving).1

asks : request late quota "u1" "M@x.com" "secret" moving ≡ (ok tt, after_request)
unfolding request find_where normalize_email exists_where check ◌-ℤ◌ positive_or count_where
    update_where generate_code
asks = refl

request_replaces_example :
    let email = normalize_email late "M@x.com" in
    (k : ℕ) × (change_row "u1" after_request.db
      ≡ some (change_token late "u1" email (late.sha256 (nth_code late quota "u1" email k))))
    × (after_request.outbox
        ≡ moving.outbox ++ confirmation_mail email (nth_code late quota "u1" email k) ∷ [])
request_replaces_example =
    request_replaces late quota "u1" "M@x.com" "secret" moving after_request asks

one_code : HasOneCode moving.db
unfolding pending_codes count_where
one_code f = ground (arith, eq_iff "u1" f)

Reach-HasOneCode_example : HasOneCode (verify env "u1" "000008" after_request).1.db
Reach-HasOneCode_example =
    Reach-HasOneCode
      (next (next here (requests late quota "u1" "M@x.com" "secret")) (verifies env "u1" "000008"))
      one_code
