-- ===== src/Tests/Logins.antt =====
-- Examples for Login.
use ecosystem_complete.Prelude.{◌≡◌, refl, ◌+◌, some, [], ◌∷◌, arith, find_where, ◌≤ℤ◌, ℤ, pos}
use ecosystem_complete.Runtime.{World}
use ecosystem_complete.Runtime.Exec.{err}
use ecosystem_complete.Security.{normalize_email}
use ecosystem_complete.Login.{login, by_email, locked, max_attempts}
use ecosystem_complete.Login.Lockout.{try_passwords, five_wrong_passwords}
use ecosystem_complete.Tests.{env, issuer, login_config, meta, world, alice}

abbrev after_login : World
after_login = (login issuer login_config env "A@x.com" "secret" meta world).1

alice_found : by_email (normalize_email env "a@x.com") world.db ≡ some alice
unfolding by_email find_where normalize_email
alice_found = refl

limit_two : max_attempts login_config ≤ℤ pos (0 + 2)
unfolding max_attempts
limit_two = omega arith

-- With a limit of two.
five_wrong_passwords_example :
    (left : ℤ) × (pos 1 ≤ℤ left)
    × ((login issuer login_config env "a@x.com" "secret" meta
          (try_passwords issuer login_config env "a@x.com" meta ("x" ∷ "y" ∷ []) world)).0
        ≡ err (locked left))
five_wrong_passwords_example =
    five_wrong_passwords issuer login_config env "a@x.com" meta (λ c. refl) ("x" ∷ "y" ∷ [])
      "secret" alice world alice_found refl refl (λ e. cc e, (λ e. cc e, tt)) (omega arith)
      limit_two
