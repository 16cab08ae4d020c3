-- ===== src/Tests/Passwords.antt =====
-- Examples for Password.
use mathlib.Core.Option
use ecosystem_complete.Prelude.{
  ℕ, ◌≡◌, refl, ◌⊎◌, inl, ◌<◌, true, false, some, [], ◌∷◌, ◌++◌, ◌==◌, find_where, exists_where,
  count_where, ◌-ℤ◌, pos, is_some,
}
use ecosystem_complete.Database.{UserToken, after}
use ecosystem_complete.Runtime.{Env, World}
use ecosystem_complete.Runtime.Exec.{ok}
use ecosystem_complete.Security.{normalize_email}
use ecosystem_complete.Security.Code.{generate_code}
use ecosystem_complete.Security.Quota.{check, positive_or}
use ecosystem_complete.UserTokens.{newest_where, last_request_at, count_requests_since, code_taken}
use ecosystem_complete.Password.{active_user, reset_token, reset_mail, request_reset}
use ecosystem_complete.Password.Reset.{reset, reset_row, with_password, max_attempts}
use ecosystem_complete.UserTokens.Effects.{user_row, is_unused, has_session}
use ecosystem_complete.Password.Recovery.{reset_ok, Recovered, reset_atomic}
use ecosystem_complete.Password.Requests.{nth_code, is_taken, logged, refusal, request_reset_sends}
use ecosystem_complete.Tests.{env, quota, world, alice, reset_code}

abbrev after_reset : World
after_reset = (reset env "A@x.com" "000007" "new" world).1

recovered : reset env "A@x.com" "000007" "new" world ≡ (ok tt, after_reset)
unfolding reset reset_row newest_where find_where exists_where normalize_email
recovered = refl

reset_ok_example :
    (t : UserToken) × (reset_row (normalize_email env "A@x.com") world.db ≡ some t)
    × (after t.expires_at env.now ≡ true)
    × (t.attempts < max_attempts)
    × ((env.sha256 "000007" == t.code_hash) ≡ true)
    × (user_row t.user_id after_reset.db
        ≡ Option.map (with_password "h:new") (user_row t.user_id world.db))
    × (is_unused t.id after_reset.db ≡ false)
    × (has_session t.user_id after_reset.db ≡ false)
reset_ok_example = reset_ok env "A@x.com" "000007" "new" world after_reset recovered

reset_atomic_example :
    ((reset env "A@x.com" "999999" "new" world).1.db ≡ world.db)
    ⊎ ((t : UserToken) × (reset_row (normalize_email env "A@x.com") world.db ≡ some t)
        × Recovered env "A@x.com" "999999" "new" world t (reset env "A@x.com" "999999" "new" world))
reset_atomic_example = reset_atomic env "A@x.com" "999999" "new" world

-- Two minutes after the first code.
abbrev later_world : World
later_world = record world {
  db = record world.db { user_tokens = record reset_code { created_at = pos 0 } ∷ [] };
}

abbrev late : Env
late = record env { now = pos 120_000_001_000 }

alice_active : active_user (normalize_email late "a@x.com") later_world.db ≡ some alice
unfolding active_user find_where normalize_email
alice_active = refl

allowed : is_some (refusal late quota "https://melia.app/" "a@x.com" later_world alice) ≡ false
unfolding check positive_or last_request_at count_requests_since count_where ◌-ℤ◌
allowed = refl

fresh : is_taken late quota "https://melia.app/" "a@x.com" later_world 0 ≡ false
unfolding code_taken exists_where generate_code
fresh = refl

request_reset_sends_example :
    (k : ℕ) × (is_taken late quota "https://melia.app/" "a@x.com" later_world k ≡ false)
    × (request_reset late quota "https://melia.app/" "a@x.com" later_world ≡ (
      ok tt,
      record later_world {
        db = record later_world.db {
          user_tokens =
              reset_token late "u1"
                (normalize_email late "a@x.com")
                (nth_code late quota "https://melia.app/" "a@x.com" later_world k)
              ∷ later_world.db.user_tokens;
        };
        outbox =
            later_world.outbox
            ++ reset_mail late "https://melia.app/"
                (normalize_email late "a@x.com")
                (nth_code late quota "https://melia.app/" "a@x.com" later_world k)
              ∷ [];
        events = logged late quota "https://melia.app/" "a@x.com" later_world alice;
      },
    ))
request_reset_sends_example =
    request_reset_sends late quota "https://melia.app/" "a@x.com" later_world (λ c. refl) alice
      alice_active allowed (inl fresh)
